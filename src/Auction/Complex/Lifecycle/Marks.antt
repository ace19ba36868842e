-- ===== src/Auction/Complex/Lifecycle/Marks.antt =====
-- What the calls of a round do to the status of an auction.
use rzu.Prelude.{
  ℕ, ◌≡◌, refl, ◌∙◌, ap, Bool, true, false, ◌||◌, Bytes, ◌==◌, if◌then◌else◌, arith, Bool-cases,
  ◌⊎◌, inl, inr,
}
use rzu.Auction.Complex.Data.{
  ComplexData, ProcessStatus, parse_data, post_parse_data, narrow_end, store_end, ps_not_processed,
  ps_unmodified, ps_added, ps_updated, ps_maybe_deleted,
}
use rzu.Auction.Complex.Status.{
  set_time_min, is_status, set_status, update_status, update, remove, begin_process,
  is_in_final_state,
}

module _ (epic : ℕ) (content : Bytes) (a : ComplexData) where
  status-parse_data : (parse_data epic content a).0.process_status ≡ a.process_status
  unfolding parse_data store_end
  status-parse_data = ground arith

  deleted-parse_data : (parse_data epic content a).0.deleted ≡ a.deleted
  unfolding parse_data store_end
  deleted-parse_data = ground arith

  count-parse_data : (parse_data epic content a).0.deleted_count ≡ a.deleted_count
  unfolding parse_data store_end
  count-parse_data = ground arith

module _ (new_data : Bool) (a : ComplexData) where
  status-post_parse_data : (post_parse_data new_data a).process_status ≡ a.process_status
  unfolding post_parse_data narrow_end
  status-post_parse_data = ground arith

  deleted-post_parse_data : (post_parse_data new_data a).deleted ≡ a.deleted
  unfolding post_parse_data narrow_end
  deleted-post_parse_data = ground arith

  count-post_parse_data : (post_parse_data new_data a).deleted_count ≡ a.deleted_count
  unfolding post_parse_data narrow_end
  count-post_parse_data = ground arith

abbrev pub has_seen : ProcessStatus → Bool
has_seen status = is_status status ps_updated || is_status status ps_unmodified

-- A round has found it.
pub record IsSeen (a : ComplexData) : Type 0 where
  pub status : has_seen a.process_status ≡ true
  pub kept : a.deleted ≡ false
  pub counted : a.deleted_count ≡ 0

-- How far a round is: it has found the auction, only missed it, or said nothing yet.
abbrev pub Phase : Bool → Bool → Bool → ℕ → ComplexData → Type 0
Phase true told deleted count a = IsSeen a
Phase false true deleted count a =
    (a.process_status ≡ ps_maybe_deleted) × ((a.deleted ≡ true) × (a.deleted_count ≡ count))
Phase false false deleted count a =
    (a.process_status ≡ ps_not_processed) × ((a.deleted ≡ deleted) × (a.deleted_count ≡ count))

IsSeen-post_parse_data :
    (new_data : Bool) (a : ComplexData) → IsSeen a → IsSeen (post_parse_data new_data a)
IsSeen-post_parse_data new_data a h = record {
  status = ap has_seen (status-post_parse_data new_data a) ∙ h.status;
  kept = deleted-post_parse_data new_data a ∙ h.kept;
  counted = count-post_parse_data new_data a ∙ h.counted;
}

IsSeen-parse_data :
    (epic : ℕ) (content : Bytes) (a : ComplexData) → IsSeen a → IsSeen (parse_data epic content a).0
IsSeen-parse_data epic content a h = record {
  status = ap has_seen (status-parse_data epic content a) ∙ h.status;
  kept = deleted-parse_data epic content a ∙ h.kept;
  counted = count-parse_data epic content a ∙ h.counted;
}

IsSeen-updated : (time : ℕ) (a : ComplexData) → IsSeen (set_status ps_updated time a)
unfolding set_status
IsSeen-updated time a = record { status = refl; kept = refl; counted = refl }

pub IsSeen-unmodified : (time : ℕ) (a : ComplexData) → IsSeen (set_status ps_unmodified time a)
unfolding set_status
IsSeen-unmodified time a = record { status = refl; kept = refl; counted = refl }

update_status-IsSeen :
    (modified : Bool) (time : ℕ) (a : ComplexData)
    → is_status a.process_status ps_added ≡ false
    → IsSeen a ⊎ (has_seen a.process_status ≡ false)
    → IsSeen (update_status modified time a)
unfolding update_status
update_status-IsSeen true time a n h = rw (n) (IsSeen-updated time a)
update_status-IsSeen false time a n (inr h) =
    let u : is_status a.process_status ps_updated ≡ false = ground arith in
    rw (n, u) (IsSeen-unmodified time a)
update_status-IsSeen false time a n (inl h) =
    elim (Bool-cases (is_status a.process_status ps_updated)) [
      | inl u ↦ rw (n, u) h
      | inr u ↦ rw (n, u) (IsSeen-unmodified time a)
    ]

if_IsSeen : (b : Bool) (x y : ComplexData) → IsSeen x → IsSeen y → IsSeen (if b then x else y)
if_IsSeen true x y h k = h
if_IsSeen false x y h k = k

module _ (time epic : ℕ) (content : Bytes) (a : ComplexData) where
  update-IsSeen :
      is_status a.process_status ps_added ≡ false
      → IsSeen a ⊎ (has_seen a.process_status ≡ false)
      → IsSeen (update time epic content a)
  unfolding update
  update-IsSeen n h =
      let parsed = parse_data epic content a in
      let same = status-parse_data epic content a in
      let fresh : IsSeen parsed.0 ⊎ (has_seen parsed.0.process_status ≡ false) = elim h [
        | inl s ↦ inl (IsSeen-parse_data epic content a s)
        | inr e ↦ inr (ap has_seen same ∙ e)
      ] in
      let stored =
        update_status-IsSeen parsed.1 time parsed.0 (ap (λ s. is_status s ps_added) same ∙ n)
          fresh in
      if_IsSeen parsed.1 (post_parse_data false (update_status parsed.1 time parsed.0))
        (update_status parsed.1 time parsed.0)
        (IsSeen-post_parse_data false (update_status parsed.1 time parsed.0) stored) stored

is_not_added-has_seen :
    (status : ProcessStatus) → has_seen status ≡ true → is_status status ps_added ≡ false
is_not_added-has_seen status h = ground arith

remove-IsSeen : (time : ℕ) (a : ComplexData) → IsSeen a → IsSeen (remove time a)
unfolding remove
remove-IsSeen time a h =
    let processed : is_status a.process_status ps_not_processed ≡ false =
      ground (arith, h.status) in
    rw (processed) h

remove_again :
    (time : ℕ) (deleted : Bool) (count : ℕ) (a : ComplexData)
    → Phase false true deleted count a
    → Phase false true deleted count (remove time a)
unfolding remove
remove_again time deleted count a h =
    let processed : is_status a.process_status ps_not_processed ≡ false = rw (h.0) refl in
    rw (processed) h

pub remove_first :
    (time : ℕ) (deleted : Bool) (count : ℕ) (a : ComplexData)
    → Phase false false deleted count a
    → Phase false true deleted count (remove time a)
unfolding remove set_status
remove_first time deleted count a h = rw (h.0) (refl, (refl, h.1.1))

pub Phase-set_time_min :
    (time : ℕ) (found told deleted : Bool) (count : ℕ) (a : ComplexData)
    → Phase found told deleted count a
    → Phase found told deleted count (set_time_min time a)
Phase-set_time_min time true told deleted count a h = elim (Bool-cases (time == 0)) [
  | inl e ↦ rw (e) h
  | inr e ↦ rw (e) record { status = h.status; kept = h.kept; counted = h.counted }
]
Phase-set_time_min time false true deleted count a h = elim (Bool-cases (time == 0)) [
  | inl e ↦ rw (e) h
  | inr e ↦ rw (e) h
]
Phase-set_time_min time false false deleted count a h = elim (Bool-cases (time == 0)) [
  | inl e ↦ rw (e) h
  | inr e ↦ rw (e) h
]

pub update-Phase :
    (time epic : ℕ) (content : Bytes) (found told deleted : Bool) (count : ℕ) (a : ComplexData)
    → Phase found told deleted count a
    → IsSeen (update time epic content a)
update-Phase time epic content true told deleted count a h =
    update-IsSeen time epic content a (is_not_added-has_seen a.process_status h.status) (inl h)
update-Phase time epic content false true deleted count a h =
    update-IsSeen time epic content a (rw (h.0) refl) (inr (rw (h.0) refl))
update-Phase time epic content false false deleted count a h =
    update-IsSeen time epic content a (rw (h.0) refl) (inr (rw (h.0) refl))

pub remove-Phase :
    (time : ℕ) (found told deleted : Bool) (count : ℕ) (a : ComplexData)
    → Phase found told deleted count a
    → Phase found true deleted count (remove time a)
remove-Phase time true told deleted count a h = remove-IsSeen time a h
remove-Phase time false true deleted count a h = remove_again time deleted count a h
remove-Phase time false false deleted count a h = remove_first time deleted count a h

pub begin_process-Phase :
    (a : ComplexData)
    → is_in_final_state a ≡ false
    → Phase false false a.deleted a.deleted_count (begin_process a)
unfolding begin_process
begin_process-Phase a h = rw (h) (refl, (refl, refl))
