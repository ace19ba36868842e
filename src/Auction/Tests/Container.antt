-- ===== src/Auction/Tests/Container.antt =====
-- A list in the order of its uids, as the container of the writers.
use rzu.Prelude.{
  Bool, true, ℕ, ◌≡◌, refl, none, some, List, [], ◌∷◌, ◌++◌, arith, ltb, ◌==◌, if◌then◌else◌,
}
use rzu.Auction.Writer.{FlatMap, find, AllBelow, all}

module _ {A : Type 0} (uid : A → ℕ) where
  unfoldable pub put_in_order : A → List A → List A
  put_in_order a [] = a ∷ []
  put_in_order a (b ∷ rest) =
      let others = put_in_order a rest in if ltb (uid a) (uid b) then a ∷ b ∷ rest else b ∷ others

  find-put_in_order :
      (a : A) (l : List A)
      → find uid (uid a) l ≡ none
      → (k : ℕ) → find uid k (put_in_order a l) ≡ (if uid a == k then some a else find uid k l)
  unfolding find put_in_order
  find-put_in_order a [] h k = refl
  find-put_in_order a (b ∷ rest) h k =
      let free : find uid (uid a) rest ≡ none = ground (arith, h) in
      let others = find-put_in_order a rest free k in ground (arith, others)

  all-put_in_order :
      (p : A → Bool) (a : A) (l : List A)
      → find uid (uid a) l ≡ none
      → all p l ≡ true
      → p a ≡ true
      → all p (put_in_order a l) ≡ true
  unfolding find put_in_order
  all-put_in_order p a [] free h e = rw (e) refl
  all-put_in_order p a (b ∷ rest) free h e =
      let others : find uid (uid a) rest ≡ none = ground (arith, free) in
      let ones : all p rest ≡ true = ground (arith, h) in
      let put = all-put_in_order p a rest others ones e in ground (arith, put)

  put_in_order_last : (a : A) (l : List A) → AllBelow uid (uid a) l → put_in_order a l ≡ l ++ a ∷ []
  unfolding put_in_order
  put_in_order_last a [] h = refl
  put_in_order_last a (b ∷ rest) h = ground (arith, put_in_order_last a rest h.1)

  pub sorted : FlatMap A uid
  sorted = record {
    insert = put_in_order;
    find-insert = find-put_in_order;
    all-insert = all-put_in_order;
    insert_last = put_in_order_last;
  }
