-- ===== src/Auction/Simple/Rounds/Verdict.antt =====
-- The status that a round gives an auction.
use rzu.Prelude.{
  ℕ, ◌≡◌, refl, ◌∙◌, ap, Bool, false, not, ◌&&◌, ◌||◌, Option, none, some, List, [], ◌∷◌, Bytes,
  ◌==◌, if◌then◌else◌, Bool-cases, inl, inr,
}
use rzu.Auction.Writer.{FlatMap, Writer}
use rzu.Auction.Simple.Data.{
  SimpleData, ProcessStatus, ps_not_processed, ps_unmodified, ps_added, ps_updated, ps_deleted,
  is_empty, differ, is_deleted,
}
use rzu.Auction.Simple.Writer.{key}
use rzu.Auction.RoundTrip.Order.{IsOrdered}
use rzu.Auction.Simple.Rounds.{Result, round, View, view, begin_view, see, end_view, see_all}
use rzu.Auction.Simple.Rounds.Steps.{view-round}

-- What was found for this uid.
abbrev pub contents : ℕ → List Result → List Bytes
contents k [] = []
contents k (r ∷ rest) = if r.uid == k then r.content ∷ contents k rest else contents k rest

-- Whether some data differs from the data before it; empty data says nothing.
abbrev pub has_changed : Bytes → List Bytes → Bool
has_changed raw [] = false
has_changed raw (x ∷ xs) =
    not (is_empty x) && differ raw x || has_changed (if is_empty x then raw else x) xs

-- An auction was there with some data, or was not; these data were found for it.
abbrev pub verdict : Option Bytes → List Bytes → Option ProcessStatus
verdict none [] = none
verdict none (x ∷ xs) = some ps_added
verdict (some raw) [] = some ps_deleted
verdict (some raw) (x ∷ xs) = some (if has_changed raw (x ∷ xs) then ps_updated else ps_unmodified)

abbrev pub live : View → Option Bytes
live none = none
live (some (status, raw)) = if is_deleted status then none else some raw

abbrev pub status_of : View → Option ProcessStatus
status_of none = none
status_of (some (status, raw)) = some status

abbrev see_list : List Bytes → View → View
see_list [] v = v
see_list (x ∷ xs) v = see_list xs (see x v)

see_all-contents :
    (k : ℕ) (results : List Result) (v : View)
    → see_all k results v ≡ see_list (contents k results) v
see_all-contents k [] v = refl
see_all-contents k (r ∷ rest) v = elim (Bool-cases (r.uid == k)) [
  | inl e ↦ rw (e) (see_all-contents k rest (see r.content v))
  | inr e ↦ rw (e) (see_all-contents k rest v)
]

abbrev outcome : List Bytes → ProcessStatus → Bytes → Option ProcessStatus
outcome xs status raw = status_of (end_view (see_list xs (some (status, raw))))

outcome_added : (xs : List Bytes) (raw : Bytes) → outcome xs ps_added raw ≡ some ps_added
outcome_added [] raw = refl
outcome_added (x ∷ xs) raw = outcome_added xs _

outcome_updated : (xs : List Bytes) (raw : Bytes) → outcome xs ps_updated raw ≡ some ps_updated
outcome_updated [] raw = refl
outcome_updated (x ∷ xs) raw = elim (Bool-cases (not (is_empty x) && differ raw x)) [
  | inl e ↦ rw (e) (outcome_updated xs _)
  | inr e ↦ rw (e) (outcome_updated xs _)
]

outcome_unmodified :
    (xs : List Bytes) (raw : Bytes)
    → outcome xs ps_unmodified raw ≡ some (if has_changed raw xs then ps_updated else ps_unmodified)
outcome_unmodified [] raw = refl
outcome_unmodified (x ∷ xs) raw = elim (Bool-cases (not (is_empty x) && differ raw x)) [
  | inl e ↦ rw (e) (outcome_updated xs _)
  | inr e ↦ rw (e) (outcome_unmodified xs _)
]

outcome_fresh :
    (x : Bytes) (xs : List Bytes) (raw : Bytes)
    → outcome (x ∷ xs) ps_not_processed raw
      ≡ some (if has_changed raw (x ∷ xs) then ps_updated else ps_unmodified)
outcome_fresh x xs raw = elim (Bool-cases (not (is_empty x) && differ raw x)) [
  | inl e ↦ rw (e) (outcome_updated xs _)
  | inr e ↦ rw (e) (outcome_unmodified xs _)
]

next_verdict :
    (xs : List Bytes) (v : View)
    → status_of (end_view (see_list xs (begin_view v))) ≡ verdict (live v) xs
next_verdict [] none = refl
next_verdict (x ∷ xs) none = outcome_added xs x
next_verdict [] (some (status, raw)) = elim (Bool-cases (is_deleted status)) [
  | inl e ↦ rw (e) refl
  | inr e ↦ rw (e) refl
]
next_verdict (x ∷ xs) (some (status, raw)) = elim (Bool-cases (is_deleted status)) [
  | inl e ↦ rw (e) (outcome_added xs x)
  | inr e ↦ rw (e) (outcome_fresh x xs raw)
]

-- After a round of the simple writer, whose auctions are in the order of their uids, and for
-- every uid: an auction that was not there and is found is added, one that was there and is not
-- found is deleted, and one that was there and is found is updated exactly if some data that is
-- not empty differs from the data before it, else unmodified; whatever the order of the results.
pub status_of-round :
    (m : FlatMap SimpleData key) (k : ℕ) (results : List Result) (w : Writer SimpleData)
    → IsOrdered key w.auctions
    → status_of (view k (round m results w)) ≡ verdict (live (view k w)) (contents k results)
status_of-round m k results w o =
    ap status_of (view-round m k results w o)
    ∙ (ap (λ v. status_of (end_view v)) (see_all-contents k results (begin_view (view k w)))
        ∙ next_verdict (contents k results) (view k w))
