-- ===== src/Auction/Complex/Following/Results.antt =====
-- The results of a search, one after another.
use rzu.Prelude.{
  ℕ, ◌<◌, ◌≡◌, refl, ◌∙◌, Bool, true, false, ◌&&◌, ◌||◌, List, [], ◌∷◌, length, arith, ltb, leb,
  ◌==◌, Bool-cases, inl, inr,
}
use rzu.Auction.Categories.{CategoryTime, adjust_category_time_range}
use rzu.Auction.Writer.{FlatMap}
use rzu.Auction.Simple.Data.{SimpleInfo, d_deleted}
use rzu.Auction.Complex.Data.{ComplexData}
use rzu.Auction.Complex.Writer.{DiffWriter, key, add_auction_info, is_present}
use rzu.Auction.Complex.InRange.{length-at_category, IsInRange, add_auction_info-IsInRange}
use rzu.Auction.Complex.Following.{add_infos, finds, tells, any_finds, any_tells}
use rzu.Auction.Complex.Following.Writes.{Follows, present-Follows, absent-Follows}

and_false : (a : Bool) → (a && false) ≡ false
and_false true = refl
and_false false = refl

-- One result.
module _ (m : FlatMap ComplexData key) (k : ℕ) (found told deleted : Bool) (count : ℕ)
    (info : SimpleInfo) (w : DiffWriter) where
  abbrev taken : DiffWriter
  taken = add_auction_info m info w

  abbrev times : List CategoryTime
  times = adjust_category_time_range info.category info.time w.category_time_manager

  add_auction_info-Follows :
      Follows k found told deleted count w.auctions
      → Follows k
          (finds (length w.category_time_manager) k info || found)
          (tells (length w.category_time_manager) k info || told)
          deleted
          count
          taken.auctions
  unfolding add_auction_info
  add_auction_info-Follows (a, e, h) =
      elim (Bool-cases (leb (length w.category_time_manager) info.category)) [
        | inl f ↦
            let out : ltb info.category (length w.category_time_manager) ≡ false =
              ground (arith, f) in
            (a, rw (f) e, rw (out) h)
        | inr f ↦
            let inside : ltb info.category (length w.category_time_manager) ≡ true =
              ground (arith, f) in
            elim (Bool-cases (is_present info.diff_type)) [
              | inl p ↦
                  let (b, g, j) =
                    present-Follows k found told deleted count info times w.auctions m a e h in
                  (b, rw (f, p) g, rw (inside, p) j)
              | inr p ↦ elim (Bool-cases (info.diff_type == d_deleted)) [
                | inl d ↦
                    let (b, g, j) =
                      absent-Follows k found told deleted count info times w.auctions a e h in
                    (b, rw (f, p, d) g, rw (inside, p, d) j)
                | inr d ↦ (a, rw (f, p, d) e, rw (inside, p, d, and_false (info.uid == k)) h)
              ]
            ]
      ]

  length-add_auction_info : length taken.category_time_manager ≡ length w.category_time_manager
  unfolding add_auction_info adjust_category_time_range
  length-add_auction_info = elim (Bool-cases (leb (length w.category_time_manager) info.category)) [
    | inl f ↦ rw (f) refl
    | inr f ↦
        let fits : info.category < length w.category_time_manager = ground (arith, f) in
        rw (f) (length-at_category info.category _ w.category_time_manager fits)
  ]

  mode-add_auction_info : taken.diff_mode ≡ w.diff_mode
  unfolding add_auction_info
  mode-add_auction_info = elim (Bool-cases (leb (length w.category_time_manager) info.category)) [
    | inl f ↦ rw (f) refl
    | inr f ↦ rw (f) refl
  ]

or_swap : (a b c : Bool) → ((a || b) || c) ≡ (b || (a || c))
or_swap true true c = refl
or_swap true false c = refl
or_swap false b c = refl

pub add_infos-Follows :
    (m : FlatMap ComplexData key) (infos : List SimpleInfo) (k : ℕ) (found told deleted : Bool)
    (count n : ℕ) (w : DiffWriter)
    → length w.category_time_manager ≡ n
    → Follows k found told deleted count w.auctions
    → Follows k
        (any_finds n k infos || found)
        (any_tells n k infos || told)
        deleted
        count
        (add_infos m infos w).auctions
add_infos-Follows m [] k found told deleted count n w e h = h
add_infos-Follows m (info ∷ rest) k found told deleted count n w e h =
    rw
      (
        or_swap (finds n k info) (any_finds n k rest) found,
        or_swap (tells n k info) (any_tells n k rest) told,
      )
      (add_infos-Follows m rest k (finds n k info || found) (tells n k info || told) deleted count n
        (add_auction_info m info w)
        (length-add_auction_info m k found told deleted count info w ∙ e)
        (rw⁻¹ (e) (add_auction_info-Follows m k found told deleted count info w h)))

pub add_infos-IsInRange :
    (m : FlatMap ComplexData key) (infos : List SimpleInfo) (w : DiffWriter)
    → IsInRange w
    → IsInRange (add_infos m infos w)
add_infos-IsInRange m [] w h = h
add_infos-IsInRange m (info ∷ rest) w h =
    add_infos-IsInRange m rest (add_auction_info m info w) (add_auction_info-IsInRange m info w h)

pub mode-add_infos :
    (m : FlatMap ComplexData key) (infos : List SimpleInfo) (w : DiffWriter)
    → (add_infos m infos w).diff_mode ≡ w.diff_mode
mode-add_infos m [] w = refl
mode-add_infos m (info ∷ rest) w =
    mode-add_infos m rest (add_auction_info m info w)
    ∙ mode-add_auction_info m 0 false false false 0 info w
