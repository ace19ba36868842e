-- ===== src/Auction/Complex/Lifecycle.antt =====
-- How an auction comes and goes from round to round: the three states that the status implements.
pub mod Marks
pub mod Rounds
use rzu.Prelude.{
  ℕ, zero, suc, ◌+◌, ◌≡◌, refl, sym, ◌∙◌, ap, Bool, true, false, not, ◌&&◌, ◌||◌, List, [], ◌∷◌,
  Bytes, ltb, ◌==◌, if◌then◌else◌, arith, Bool-cases, ◌⊎◌, inl, inr,
}
use rzu.Auction.Complex.Data.{
  ComplexData, ProcessStatus, parse_data, post_parse_data, narrow_end, is_valid, store_end,
  ps_not_processed, ps_unmodified, ps_added, ps_updated, ps_maybe_deleted, ps_deleted,
}
use rzu.Auction.Complex.Status.{
  set_time_min, is_status, set_status, update_status, update, remove, unmodified,
  maybe_still_deleted, begin_process, end_process, is_in_final_state,
}

-- An auction is there, was not found so many rounds, or is given up.
pub data Life : Type 0 where
  alive gone : Life
  missing : ℕ → Life

abbrev pub life_of : Bool → ℕ → Life
life_of deleted count = if not deleted then alive else if ltb 3 count then gone else missing count

abbrev pub life : ComplexData → Life
life a = life_of a.deleted a.deleted_count

abbrev pub advance : Life → Life
advance alive = missing 1
advance (missing n) = if ltb n 3 then missing (suc n) else gone
advance gone = gone

abbrev pub is_alive : Life → Bool
is_alive alive = true
is_alive gone = false
is_alive (missing n) = false

abbrev pub is_gone : Life → Bool
is_gone alive = false
is_gone gone = true
is_gone (missing n) = false

abbrev pub next_life : Bool → Bool → Bool → Life → Life
next_life diff_mode found told l =
    if found then alive else if diff_mode && (not told && is_alive l) then alive else advance l

-- What is there has not been missed.
abbrev pub IsCounted : ComplexData → Type 0
IsCounted a = (a.deleted || a.deleted_count == 0) ≡ true
