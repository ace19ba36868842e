-- ===== src/Auction/Complex/Same.antt =====
-- No operation changes the uid or the category of an auction.
use rzu.Prelude.{refl, if◌then◌else◌, not, ℕ, ◌≡◌, ◌∙◌, Bool, true, false, Bytes, arith}
use rzu.Auction.Complex.Data.{
  ComplexData, parse_data, store_end, post_parse_data, narrow_end, new_complex, blank,
}
use rzu.Auction.Complex.Status
use rzu.Auction.Complex.Status.{
  set_status, update_status, update, set_time_min, remove, unmodified, maybe_still_deleted,
  is_in_final_state,
}

-- Two states of one auction.
pub record IsSame (a b : ComplexData) : Type 0 where
  pub uid : a.uid ≡ b.uid
  pub category : a.category ≡ b.category

IsSame-refl : (a : ComplexData) → IsSame a a
IsSame-refl a = record { uid = refl; category = refl }

IsSame-trans : {a b c : ComplexData} → IsSame a b → IsSame b c → IsSame a c
IsSame-trans h j = record { uid = h.uid ∙ j.uid; category = h.category ∙ j.category }

post_parse_data-IsSame : (new_data : Bool) (a : ComplexData) → IsSame (post_parse_data new_data a) a
unfolding post_parse_data narrow_end
post_parse_data-IsSame new_data a = record { uid = ground arith; category = ground arith }

parse_data-IsSame :
    (epic : ℕ) (content : Bytes) (a : ComplexData) → IsSame (parse_data epic content a).0 a
unfolding parse_data store_end
parse_data-IsSame epic content a = record { uid = ground arith; category = ground arith }

pub new_complex-IsSame :
    (uid time_min time_max category epic : ℕ) (content : Bytes)
    → IsSame
        (new_complex uid time_min time_max category epic content)
        (blank uid time_min time_max category epic)
unfolding new_complex
new_complex-IsSame uid time_min time_max category epic content =
    IsSame-trans (post_parse_data-IsSame true _)
      (parse_data-IsSame epic content (blank uid time_min time_max category epic))

update_status-IsSame :
    (modified : Bool) (time : ℕ) (a : ComplexData) → IsSame (update_status modified time a) a
unfolding update_status set_status
update_status-IsSame modified time a = record { uid = ground arith; category = ground arith }

if_IsSame :
    (b : Bool) (x y a : ComplexData) → IsSame x a → IsSame y a → IsSame (if b then x else y) a
if_IsSame true x y a h j = h
if_IsSame false x y a h j = j

pub update-IsSame :
    (time epic : ℕ) (content : Bytes) (a : ComplexData) → IsSame (update time epic content a) a
unfolding update
update-IsSame time epic content a =
    let parsed = parse_data epic content a in
    let stored =
      IsSame-trans (update_status-IsSame parsed.1 time parsed.0)
        (parse_data-IsSame epic content a) in
    if_IsSame parsed.1 (post_parse_data false (update_status parsed.1 time parsed.0))
      (update_status parsed.1 time parsed.0) a
      (IsSame-trans (post_parse_data-IsSame false (update_status parsed.1 time parsed.0)) stored)
      stored

pub remove-IsSame : (time : ℕ) (a : ComplexData) → IsSame (remove time a) a
unfolding remove set_status
remove-IsSame time a = record { uid = ground arith; category = ground arith }

set_time_min-IsSame : (time : ℕ) (a : ComplexData) → IsSame (set_time_min time a) a
set_time_min-IsSame time a = record { uid = ground arith; category = ground arith }

-- What the writer makes of a result for an auction that it has.
module _ (time previous : ℕ) (a : ComplexData) where
  pub updated-IsSame :
      (epic : ℕ) (content : Bytes) → IsSame (update time epic content (set_time_min previous a)) a
  updated-IsSame epic content =
      IsSame-trans (update-IsSame time epic content (set_time_min previous a))
        (set_time_min-IsSame previous a)

  pub removed-IsSame : IsSame (remove time (set_time_min previous a)) a
  removed-IsSame =
      IsSame-trans (remove-IsSame time (set_time_min previous a)) (set_time_min-IsSame previous a)

pub begin_process-IsSame : (a : ComplexData) → IsSame (Status.begin_process a) a
unfolding Status.begin_process
begin_process-IsSame a = record { uid = ground arith; category = ground arith }

unmodified-IsSame : (time : ℕ) (a : ComplexData) → IsSame (unmodified time a) a
unfolding unmodified set_status
unmodified-IsSame time a = record { uid = ground arith; category = ground arith }

maybe_still_deleted-IsSame : (a : ComplexData) → IsSame (maybe_still_deleted a) a
unfolding maybe_still_deleted set_status
maybe_still_deleted-IsSame a = record { uid = ground arith; category = ground arith }

pub end_process-IsSame :
    (begin end : ℕ) (diff_mode : Bool) (a : ComplexData)
    → IsSame (Status.end_process begin end diff_mode a) a
unfolding Status.end_process
end_process-IsSame begin end diff_mode a = IsSame-trans (maybe_still_deleted-IsSame _) (
    if_IsSame _ _ a a
      (if_IsSame (not diff_mode) (remove end a) _ a (remove-IsSame end a) (
        if_IsSame (not a.deleted) (unmodified begin a) a a (unmodified-IsSame begin a)
          (IsSame-refl a)))
      (IsSame-refl a))
