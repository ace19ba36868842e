-- ===== src/Auction/Complex/Following/Lists.antt =====
-- The searches in the auctions of a writer, after each of them was written.
use rzu.Prelude.{
  ℕ, ◌≡◌, refl, ◌∙◌, ap, Bool, true, false, some, Returns, Returns-bind, List, [], ◌∷◌, length,
  arith, leb, ◌==◌, if◌then◌else◌, Bool-cases, inl, inr,
}
use mathlib.Core.Option
use rzu.Auction.Categories.{
  CategoryTime, get_estimated_category_begin_time, get_estimated_category_end_time,
}
use rzu.Auction.Writer.{find, adjust, begin_each, all}
use rzu.Auction.Complex.Data.{ComplexData}
use rzu.Auction.Complex.Status
use rzu.Auction.Complex.Status.{update, set_time_min, remove, is_in_final_state}
use rzu.Auction.Complex.Writer.{key, end_all}
use rzu.Auction.Complex.Lifecycle.{Life}
use rzu.Auction.Complex.Lifecycle.Rounds.{Lives}
use rzu.Auction.Complex.Same.{begin_process-IsSame, end_process-IsSame}
use rzu.Auction.Complex.InRange.{all-end_all, in_range}

pub find-adjust :
    (k j : ℕ) (f : ComplexData → ComplexData) (l : List ComplexData)
    → ((a : ComplexData) → (f a).uid ≡ a.uid)
    → find key k (adjust key j f l) ≡ (if j == k then Option.map f (find key k l) else find key k l)
unfolding find adjust
find-adjust k j f [] h = ground arith
find-adjust k j f (a ∷ rest) h = ground (arith, h a, find-adjust k j f rest h)

pub find-begin_each :
    (k : ℕ) (l : List ComplexData) (a : ComplexData)
    → find key k l ≡ some a
    → is_in_final_state a ≡ false
    → find key k (begin_each is_in_final_state Status.begin_process l)
      ≡ some (Status.begin_process a)
unfolding find begin_each
find-begin_each k [] a e h = ground arith
find-begin_each k (b ∷ rest) a e h = elim (Bool-cases (b.uid == k)) [
  | inl s ↦
      let eq : b ≡ a = ground (arith, e, s) in
      rw (ap is_in_final_state eq ∙ h, ap (λ u. u == k) (begin_process-IsSame b).uid ∙ s)
        (ap (λ c. some (Status.begin_process c)) eq)
  | inr s ↦
      let later : find key k rest ≡ some a = ground (arith, e, s) in
      let found = find-begin_each k rest a later h in
      elim (Bool-cases (is_in_final_state b)) [
        | inl f ↦ rw (f) found
        | inr f ↦ rw (f, ap (λ u. u == k) (begin_process-IsSame b).uid ∙ s) found
      ]
]

pub find-end_all :
    (k : ℕ) (diff_mode : Bool) (times : List CategoryTime) (l : List ComplexData) (a : ComplexData)
    (l2 : Life)
    → find key k l ≡ some a
    → all (in_range (length times)) l ≡ true
    → ((begin end : ℕ) → Lives l2 (Status.end_process begin end diff_mode a))
    → Returns
        (λ ended. (b : ComplexData) × (find key k ended ≡ some b) × Lives l2 b)
        (end_all diff_mode times l)
unfolding find end_all
find-end_all k diff_mode times [] a l2 e h j = ground arith
find-end_all k diff_mode times (b ∷ rest) a l2 e h j =
    let count = length times in
    let inside : leb count b.category ≡ false = ground (arith, h) in
    let others : all (in_range count) rest ≡ true = ground (arith, h) in
    let begin = get_estimated_category_begin_time b.category times in
    let end = get_estimated_category_end_time b.category times in
    let uid = ap (λ u. u == k) (end_process-IsSame begin end diff_mode b).uid in
    rw (inside) (elim (Bool-cases (b.uid == k)) [
      | inl s ↦
          let eq : b ≡ a = ground (arith, e, s) in
          Returns-bind (λ ended. all (in_range count) ended ≡ true)
            (λ ended. (c : ComplexData) × (find key k ended ≡ some c) × Lives l2 c)
            (end_all diff_mode times rest)
            (λ ended. some (Status.end_process begin end diff_mode b ∷ ended))
            (all-end_all count diff_mode times rest refl others)
            (λ ended held.
              (Status.end_process begin end diff_mode b, rw (uid ∙ s) refl, rw (eq) (j _ _)))
      | inr s ↦
          let later : find key k rest ≡ some a = ground (arith, e, s) in
          Returns-bind (λ ended. (c : ComplexData) × (find key k ended ≡ some c) × Lives l2 c)
            (λ ended. (c : ComplexData) × (find key k ended ≡ some c) × Lives l2 c)
            (end_all diff_mode times rest)
            (λ ended. some (Status.end_process begin end diff_mode b ∷ ended))
            (find-end_all k diff_mode times rest a l2 later others j)
            (λ ended (c, found, lives). (c, rw (uid ∙ s) found, lives))
    ])

-- A round of the writer refines three states of an auction, there, missing for so many rounds,
-- and given up, whatever results the round gets, of whatever auctions and in whatever order. If
-- each auction of the writer is of a category that has times, the round returns, and an auction
-- that was not in its final state and has not been counted as missing while there is still held:
-- it is there if a result taken found its uid; else, if it was there and differences are read
-- that say nothing of it, it stays; else it is missing one round more, and given up with the
-- fourth. It is then in its final state exactly if it is given up, and one that is there has not
