-- ===== src/Auction/Writer.antt =====
-- rzauctionmonitor/lib/AuctionGenericWriter.h: the auctions in the order of their container, which a
-- parameter keeps, and the times of the categories.
use rzu.Prelude.{
  ℕ, ◌≡◌, Bool, true, false, ◌&&◌, Option, none, some, List, [], ◌∷◌, ◌++◌, ◌<◌, ◌==◌,
  if◌then◌else◌,
}
use rzu.Auction.Categories.{CategoryTime}

module _ {A : Type 0} (uid : A → ℕ) where
  unfoldable pub find : ℕ → List A → Option A
  find k [] = none
  find k (a ∷ rest) = let others = find k rest in if uid a == k then some a else others

  -- A write through the pointer to the auction of this uid.
  unfoldable pub adjust : ℕ → (A → A) → List A → List A
  adjust k f [] = []
  adjust k f (a ∷ rest) =
      let others = adjust k f rest in (if uid a == k then f a ∷ rest else a ∷ others)

  abbrev pub AllBelow : ℕ → List A → Type 0
  AllBelow k [] = Unit
  AllBelow k (a ∷ rest) = (uid a < k) × AllBelow k rest

abbrev pub all : {A : Type 0} → (A → Bool) → List A → Bool
all p [] = true
all p (a ∷ rest) = p a && all p rest

-- fc::flat_map, a map whose iteration goes by increasing keys, as far as the writers call it.
pub record FlatMap (A : Type 0) (uid : A → ℕ) : Type 0 where
  pub insert : A → List A → List A
  pub find-insert :
      (a : A) (l : List A)
      → find uid (uid a) l ≡ none
      → (k : ℕ) → find uid k (insert a l) ≡ (if uid a == k then some a else find uid k l)
  pub all-insert :
      (p : A → Bool) (a : A) (l : List A)
      → find uid (uid a) l ≡ none
      → all p l ≡ true
      → p a ≡ true
      → all p (insert a l) ≡ true
  pub insert_last : (a : A) (l : List A) → AllBelow uid (uid a) l → insert a l ≡ l ++ a ∷ []

pub record Writer (A : Type 0) : Type 0 where
  pub category_time_manager : List CategoryTime
  pub auctions : List A

abbrev pub is_some : {A : Type 0} → Option A → Bool
is_some none = false
is_some (some a) = true

module _ {A : Type 0} where
  -- An auction whose uid is taken is not inserted.
  unfoldable pub add_auction : {uid : A → ℕ} → FlatMap A uid → A → List A → List A
  unfolding find
  add_auction {uid} m a l = if is_some (find uid (uid a) l) then l else m.insert a l

  -- Those in a final state go; the others are called.
  unfoldable pub begin_each : (A → Bool) → (A → A) → List A → List A
  begin_each is_final f [] = []
  begin_each is_final f (a ∷ rest) =
      let others = begin_each is_final f rest in if is_final a then others else f a ∷ others

  -- Every auction in turn, with a state that the calls change.
  unfoldable pub end_each :
      (A → List CategoryTime → A × List CategoryTime)
      → List A
      → List CategoryTime
      → List A × List CategoryTime
  end_each f [] times = ([], times)
  end_each f (a ∷ rest) times =
      let called = f a times in
      let others = end_each f rest called.1 in (called.0 ∷ others.0, others.1)
