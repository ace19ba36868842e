-- ===== src/Auction/Complex/Following/Rounds.antt =====
-- A whole round of the writer, for an auction that it has.
use rzu.Prelude.{ℕ, ◌≡◌, refl, false, some, Returns, Returns-bind, List, length}
use rzu.Auction.Writer.{FlatMap, find}
use rzu.Auction.Simple.Data.{SimpleInfo}
use rzu.Auction.Complex.Data.{ComplexData}
use rzu.Auction.Complex.Status
use rzu.Auction.Complex.Status.{update, set_time_min, remove, is_in_final_state}
use rzu.Auction.Complex.Writer.{DiffWriter, key, begin_process, end_all, end_process}
use rzu.Auction.Complex.Lifecycle.{life, next_life, IsCounted}
use rzu.Auction.Complex.Lifecycle.Marks.{Phase, begin_process-Phase}
use rzu.Auction.Complex.Lifecycle.Rounds.{Lives, end_process-Lives, counted_lem, or_false}
use rzu.Auction.Complex.InRange.{IsInRange, begin_process-IsInRange}
use rzu.Auction.Complex.Following.{add_infos, any_finds, any_tells}
use rzu.Auction.Complex.Following.Lists.{find-begin_each, find-end_all}
use rzu.Auction.Complex.Following.Results.{add_infos-Follows, add_infos-IsInRange, mode-add_infos}

-- A round of the writer refines three states of an auction, there, missing for so many rounds,
-- and given up, whatever results the round gets, of whatever auctions and in whatever order. If
-- each auction of the writer is of a category that has times, the round returns, and an auction
-- that was not in its final state and has not been counted as missing while there is still held:
-- it is there if a result taken found its uid; else, if it was there and differences are read
-- that say nothing of it, it stays; else it is missing one round more, and given up with the
-- fourth. It is then in its final state exactly if it is given up, and one that is there has not
-- been counted as missing.
pub round-Follows :
    (m : FlatMap ComplexData key) (infos : List SimpleInfo) (k : ℕ) (a : ComplexData)
    (w : DiffWriter)
    → IsInRange w
    → find key k w.auctions ≡ some a
    → IsCounted a
    → is_in_final_state a ≡ false
    → Returns
        (λ ended.
          (b : ComplexData) × (find key k ended.auctions ≡ some b)
          × Lives
              (next_life w.diff_mode
                (any_finds (length w.category_time_manager) k infos)
                (any_tells (length w.category_time_manager) k infos)
                (life a))
              b)
        (end_process (add_infos m infos (begin_process w)))
unfolding begin_process end_process
round-Follows m infos k a w h e c f =
    let count = length w.category_time_manager in
    let found = any_finds count k infos in
    let told = any_tells count k infos in
    let begun = begin_process w in
    let fed = add_infos m infos begun in
    let (b, at, phase) =
      add_infos-Follows m infos k false false a.deleted a.deleted_count count begun refl
        (Status.begin_process a, find-begin_each k w.auctions a e f, begin_process-Phase a f) in
    let l2 = next_life w.diff_mode found told (life a) in
    let inside : IsInRange fed = add_infos-IsInRange m infos begun (begin_process-IsInRange w h) in
    let settled : Phase found told a.deleted a.deleted_count b =
      rw⁻¹ (or_false found, or_false told) phase in
    Returns-bind (λ ended. (d : ComplexData) × (find key k ended ≡ some d) × Lives l2 d) _
      (end_all fed.diff_mode fed.category_time_manager fed.auctions) _
      (find-end_all k fed.diff_mode fed.category_time_manager fed.auctions b l2 at inside
        (λ begin end. rw (mode-add_infos m infos begun) (
          end_process-Lives begin end w.diff_mode found told a.deleted a.deleted_count b settled
            (counted_lem a c))))
      (λ ended held. held)
