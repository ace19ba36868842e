-- ===== src/Auction/RoundTrip/Order.antt =====
-- Auctions that go into an empty container in the order of their uids are there in that order.
use rzu.Prelude.{
  ℕ, ◌<◌, ◌≡◌, refl, ◌∙◌, sym, ap, none, List, [], ◌∷◌, ◌++◌, append_assoc, append-nil, arith,
}
use rzu.Auction.Writer.{FlatMap, find, add_auction, AllBelow}

module _ {A : Type 0} (uid : A → ℕ) where
  abbrev pub AllAbove : ℕ → List A → Type 0
  AllAbove k [] = Unit
  AllAbove k (a ∷ rest) = (k < uid a) × AllAbove k rest

  abbrev pub IsOrdered : List A → Type 0
  IsOrdered [] = Unit
  IsOrdered (a ∷ rest) = AllAbove (uid a) rest × IsOrdered rest

  -- All of one list come before all of the other.
  abbrev Precede : List A → List A → Type 0
  Precede front [] = Unit
  Precede front (a ∷ rest) = AllBelow uid (uid a) front × Precede front rest

  AllBelow-append :
      (k : ℕ) (l : List A) (a : A) → AllBelow uid k l → uid a < k → AllBelow uid k (l ++ a ∷ [])
  AllBelow-append k [] a h below = (below, tt)
  AllBelow-append k (b ∷ l) a h below = (h.0, AllBelow-append k l a h.1 below)

  Precede-append :
      (front rest : List A) (a : A)
      → Precede front rest
      → AllAbove (uid a) rest
      → Precede (front ++ a ∷ []) rest
  Precede-append front [] a h above = tt
  Precede-append front (b ∷ rest) a h above =
      (AllBelow-append (uid b) front a h.0 above.0, Precede-append front rest a h.1 above.1)

  Precede-nil : (l : List A) → Precede [] l
  Precede-nil [] = tt
  Precede-nil (a ∷ l) = (tt, Precede-nil l)

  find_below : (k : ℕ) (l : List A) → AllBelow uid k l → find uid k l ≡ none
  unfolding find
  find_below k [] h = refl
  find_below k (a ∷ l) h = ground (arith, find_below k l h.1)

  module _ (m : FlatMap A uid) where
    add_last : (a : A) (l : List A) → AllBelow uid (uid a) l → add_auction m a l ≡ l ++ a ∷ []
    unfolding add_auction
    add_last a l h = rw (find_below (uid a) l h) (m.insert_last a l h)

    unfoldable pub add_all : List A → List A → List A
    unfolding add_auction
    add_all [] l = l
    add_all (a ∷ rest) l = add_all rest (add_auction m a l)

    add_all_from :
        (rest front : List A)
        → IsOrdered rest
        → Precede front rest
        → add_all rest front ≡ front ++ rest
    unfolding add_all
    add_all_from [] front o p = sym (append-nil front)
    add_all_from (a ∷ rest) front o p =
        ap (add_all rest) (add_last a front p.0)
        ∙ (add_all_from rest (front ++ a ∷ []) o.1 (Precede-append front rest a p.1 o.0)
            ∙ append_assoc front (a ∷ []) rest)

    pub add_all_lem : (l : List A) → IsOrdered l → add_all l [] ≡ l
    add_all_lem l o = add_all_from l [] o (Precede-nil l)
