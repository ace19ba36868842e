-- ===== src/Auction/Complex/Lifecycle/Rounds.antt =====
-- A whole round of an auction, for its status.
use rzu.Prelude.{
  ℕ, suc, ◌≡◌, refl, ap, Bool, true, false, not, ◌||◌, ltb, if◌then◌else◌, arith, ◌⊎◌, inl, inr,
}
use rzu.Auction.Complex.Data.{ComplexData, ps_not_processed, ps_added, ps_updated, ps_maybe_deleted}
use rzu.Auction.Complex.Status.{
  is_status, set_status, remove, unmodified, maybe_still_deleted, end_process, is_in_final_state,
}
use rzu.Auction.Complex.Lifecycle.{
  Life, alive, gone, missing, life_of, life, advance, is_alive, is_gone, next_life, IsCounted,
}
use rzu.Auction.Complex.Lifecycle.Marks.{IsSeen, Phase, remove_first, IsSeen-unmodified}

-- The auction implements this life, and goes at the next round if it is given up.
pub record Lives (l : Life) (a : ComplexData) : Type 0 where
  pub lives : life a ≡ l
  pub counted : IsCounted a
  pub final : is_in_final_state a ≡ is_gone l

module _ (l : Life) (x y : ComplexData) where
  if_yes : (b : Bool) → b ≡ true → Lives l x → Lives l (if b then x else y)
  if_yes b e h = rw (e) h

  if_no : (b : Bool) → b ≡ false → Lives l y → Lives l (if b then x else y)
  if_no b e h = rw (e) h

IsSeen-Lives : (a : ComplexData) → IsSeen a → Lives alive a
IsSeen-Lives a h = record {
  lives = ap (λ d. life_of d a.deleted_count) h.kept;
  counted = ground (arith, h.kept, h.counted);
  final = ground (arith, h.status);
}

still_seen : (a : ComplexData) → IsSeen a → Lives alive (maybe_still_deleted a)
unfolding maybe_still_deleted
still_seen a h = if_yes alive _ _ (not a.deleted) (ap not h.kept) (IsSeen-Lives a h)

missed :
    (count : ℕ) (a : ComplexData)
    → (a.process_status ≡ ps_maybe_deleted) ⊎ (a.process_status ≡ ps_not_processed)
    → a.deleted ≡ true
    → a.deleted_count ≡ count
    → Lives (if ltb count 3 then missing (suc count) else gone) (maybe_still_deleted a)
unfolding maybe_still_deleted set_status
missed count a s d c = record { lives = ground arith; counted = ground arith; final = ground arith }

advance_lem :
    (deleted : Bool) (count : ℕ)
    → (deleted ≡ false → count ≡ 0)
    → (if ltb count 3 then missing (suc count) else gone) ≡ advance (life_of deleted count)
advance_lem true count c = ground arith
advance_lem false count c = rw (c refl) refl

advanced :
    (deleted : Bool) (count : ℕ) (a : ComplexData)
    → (deleted ≡ false → count ≡ 0)
    → Lives (if ltb count 3 then missing (suc count) else gone) a
    → Lives (advance (life_of deleted count)) a
advanced deleted count a c h = rw⁻¹ (advance_lem deleted count c) h

not_alive : (count : ℕ) → is_alive (life_of true count) ≡ false
not_alive count = ground arith

unmodified-IsSeen :
    (begin : ℕ) (a : ComplexData)
    → a.process_status ≡ ps_not_processed
    → IsSeen (unmodified begin a)
unfolding unmodified
unmodified-IsSeen begin a h =
    let added : is_status a.process_status ps_added ≡ false = ap (λ s. is_status s ps_added) h in
    let updated : is_status a.process_status ps_updated ≡ false =
      ap (λ s. is_status s ps_updated) h in
    rw (added, updated) (IsSeen-unmodified begin a)

-- The end of a round of differences that said nothing of the auction.
abbrev untold : ℕ → ComplexData → ComplexData
untold begin a = if not a.deleted then unmodified begin a else a

ended_missing :
    (begin count : ℕ) (a : ComplexData)
    → Phase false false true count a
    → Lives
        (if ltb count 3 then missing (suc count) else gone)
        (maybe_still_deleted (untold begin a))
ended_missing begin count a h =
    let kept : untold begin a ≡ a = ap (λ d. if not d then unmodified begin a else a) h.1.0 in
    rw (kept) (missed count a (inr h.0) h.1.0 h.1.1)

ended_alive :
    (begin count : ℕ) (a : ComplexData)
    → Phase false false false count a
    → Lives alive (maybe_still_deleted (untold begin a))
ended_alive begin count a h =
    let marked : untold begin a ≡ unmodified begin a =
      ap (λ d. if not d then unmodified begin a else a) h.1.0 in
    rw (marked) (still_seen (unmodified begin a) (unmodified-IsSeen begin a h.0))

told_lem :
    (a : ComplexData)
    → a.process_status ≡ ps_maybe_deleted
    → is_status a.process_status ps_not_processed ≡ false
told_lem a h = ap (λ s. is_status s ps_not_processed) h

fresh_lem :
    (a : ComplexData)
    → a.process_status ≡ ps_not_processed
    → is_status a.process_status ps_not_processed ≡ true
fresh_lem a h = ap (λ s. is_status s ps_not_processed) h

pub end_process-Lives :
    (begin end : ℕ) (diff_mode found told deleted : Bool) (count : ℕ) (a : ComplexData)
    → Phase found told deleted count a
    → (deleted ≡ false → count ≡ 0)
    → Lives
        (next_life diff_mode found told (life_of deleted count))
        (end_process begin end diff_mode a)
unfolding end_process
end_process-Lives begin end diff_mode true told deleted count a h c =
    let processed : is_status a.process_status ps_not_processed ≡ false =
      ground (arith, h.status) in
    rw (processed) (still_seen a h)
end_process-Lives begin end true false true deleted count a h c =
    advanced deleted count _ c (rw (told_lem a h.0) (missed count a (inl h.0) h.1.0 h.1.1))
end_process-Lives begin end false false true deleted count a h c =
    advanced deleted count _ c (rw (told_lem a h.0) (missed count a (inl h.0) h.1.0 h.1.1))
end_process-Lives begin end true false false true count a h c =
    rw (not_alive count)
      (advanced true count _ c (rw (fresh_lem a h.0) (ended_missing begin count a h)))
end_process-Lives begin end true false false false count a h c =
    rw (fresh_lem a h.0) (ended_alive begin count a h)
end_process-Lives begin end false false false deleted count a h c =
    let gone_now = remove_first end deleted count a h in
    advanced deleted count _ c (
      rw (fresh_lem a h.0) (missed count (remove end a) (inl gone_now.0) gone_now.1.0 gone_now.1.1))

pub or_false : (a : Bool) → (a || false) ≡ a
or_false true = refl
or_false false = refl

pub counted_lem : (a : ComplexData) → IsCounted a → a.deleted ≡ false → a.deleted_count ≡ 0
counted_lem a c e = ground arith
