-- ===== src/Auction/Complex/InRange.antt =====
-- Each auction of a writer is of a category that has times, so the end of a round reads within them.
use rzu.Prelude.{
  ℕ, zero, suc, ◌<◌, ◌≡◌, refl, ◌∙◌, ap, Bool, true, false, Option, some, ◌>>=◌, Returns,
  Returns-bind, List, [], ◌∷◌, length, map, arith, ltb, leb, ◌==◌, if◌then◌else◌, Bool-cases,
  Option-cases, inl, inr,
}
use rzu.Auction.Categories.{
  CategoryTime, at_category, adjust_category_time_range, reset_category_time, reset_times,
  get_last_end_category_time, get_estimated_category_begin_time, get_estimated_category_end_time,
}
use rzu.Auction.Writer.{FlatMap, find, adjust, add_auction, begin_each, all}
use rzu.Auction.Simple.Data.{SimpleInfo, d_deleted}
use rzu.Auction.Complex.Data.{ComplexData, new_complex}
use rzu.Auction.Complex.Status
use rzu.Auction.Complex.Status.{
  set_status, update_status, update, set_time_min, remove, unmodified, maybe_still_deleted,
  is_in_final_state,
}
use rzu.Auction.Complex.Same.{
  new_complex-IsSame, updated-IsSame, removed-IsSame, begin_process-IsSame, end_process-IsSame,
}
use rzu.Auction.Complex.Writer.{
  DiffWriter, key, present, absent, add_auction_info, begin_process, end_all, end_process,
  is_present, true_previous_time,
}

abbrev pub in_range : ℕ → ComplexData → Bool
in_range count a = ltb a.category count

abbrev pub IsInRange : DiffWriter → Type 0
IsInRange w = all (in_range (length w.category_time_manager)) w.auctions ≡ true

-- The number of categories.
pub length-at_category :
    (category : ℕ) (f : CategoryTime → CategoryTime) (times : List CategoryTime)
    → category < length times
    → length (at_category category f times) ≡ length times
unfolding at_category
length-at_category category f [] h = absurd (omega arith)
length-at_category zero f (c ∷ rest) h = refl
length-at_category (suc category) f (c ∷ rest) h =
    omega (arith, length-at_category category f rest (omega arith))

length-map :
    (f : CategoryTime → CategoryTime) (times : List CategoryTime)
    → length (map f times) ≡ length times
length-map f [] = refl
length-map f (c ∷ rest) = omega (arith, length-map f rest)

-- The lists of auctions.
ltb_of_lt : {m n : ℕ} → m < n → ltb m n ≡ true
ltb_of_lt h = ground arith

module _ (count : ℕ) where
  all-adjust :
      (k : ℕ) (f : ComplexData → ComplexData) (l : List ComplexData)
      → ((a : ComplexData) → (f a).category ≡ a.category)
      → all (in_range count) (adjust key k f l) ≡ all (in_range count) l
  unfolding adjust
  all-adjust k f [] h = refl
  all-adjust k f (a ∷ rest) h = ground (arith, h a, all-adjust k f rest h)

  all-begin_each :
      (l : List ComplexData)
      → all (in_range count) l ≡ true
      → all (in_range count) (begin_each is_in_final_state Status.begin_process l) ≡ true
  unfolding begin_each
  all-begin_each [] h = refl
  all-begin_each (a ∷ rest) h =
      ground (arith, (begin_process-IsSame a).category, all-begin_each rest)

  all-add_auction :
      (m : FlatMap ComplexData key) (a : ComplexData) (l : List ComplexData)
      → all (in_range count) l ≡ true
      → in_range count a ≡ true
      → all (in_range count) (add_auction m a l) ≡ true
  unfolding add_auction
  all-add_auction m a l h e = elim (Option-cases (find key a.uid l)) [
    | inl free ↦ rw (free) (m.all-insert (in_range count) a l free h e)
    | inr (b, taken) ↦ rw (taken) h
  ]

  all-present :
      (m : FlatMap ComplexData key) (info : SimpleInfo) (times : List CategoryTime)
      (l : List ComplexData)
      → info.category < count
      → all (in_range count) l ≡ true
      → all (in_range count) (present m info times l) ≡ true
  unfolding present
  all-present m info times l fits h = elim (Option-cases (find key info.uid l)) [
    | inl e ↦
        rw (present, e)
          (all-add_auction m (new_complex info.uid _ info.time info.category _ info.content) l h (
            ap (λ c. ltb c count)
              (new_complex-IsSame info.uid _ info.time info.category _ info.content).category
            ∙ ltb_of_lt fits))
    | inr (a, e) ↦
        rw (present, e)
          (all-adjust info.uid _ l (λ b.
              (updated-IsSame info.time (true_previous_time info (some a) times) b _
                info.content).category)
            ∙ h)
  ]

  all-absent :
      (info : SimpleInfo) (times : List CategoryTime) (l : List ComplexData)
      → all (in_range count) l ≡ true
      → all (in_range count) (absent info times l) ≡ true
  unfolding absent
  all-absent info times l h = elim (Option-cases (find key info.uid l)) [
    | inl e ↦ rw (absent, e) h
    | inr (a, e) ↦
        rw (absent, e)
          (all-adjust info.uid _ l
              (λ b. (removed-IsSame info.time (true_previous_time info (some a) times) b).category)
            ∙ h)
  ]

  pub all-end_all :
      (diff_mode : Bool) (times : List CategoryTime) (l : List ComplexData)
      → length times ≡ count
      → all (in_range count) l ≡ true
      → Returns (λ ended. all (in_range count) ended ≡ true) (end_all diff_mode times l)
  unfolding end_all
  all-end_all diff_mode times [] n h = refl
  all-end_all diff_mode times (a ∷ rest) n h =
      let inside : leb (length times) a.category ≡ false = ground (arith, h, n) in
      let others : all (in_range count) rest ≡ true = ground (arith, h) in
      let own : in_range count a ≡ true = ground (arith, h) in
      let ended =
        Status.end_process (get_estimated_category_begin_time a.category times)
          (get_estimated_category_end_time a.category times) diff_mode a in
      let same : ended.category ≡ a.category = (end_process-IsSame _ _ diff_mode a).category in
      rw (inside) (
        Returns-bind (λ l. all (in_range count) l ≡ true) (λ l. all (in_range count) l ≡ true)
          (end_all diff_mode times rest) (λ l. some (ended ∷ l))
          (all-end_all diff_mode times rest n others)
          (λ l held. rw (ap (λ c. ltb c count) same ∙ own) held))

length-reset_category_time :
    (times : List CategoryTime) → length (reset_category_time times) ≡ length times
unfolding reset_category_time
length-reset_category_time times = length-map (reset_times (get_last_end_category_time times)) times

all_if :
    (count : ℕ) (b : Bool) (k l : List ComplexData)
    → all (in_range count) k ≡ true
    → all (in_range count) l ≡ true
    → all (in_range count) (if b then k else l) ≡ true
all_if count true k l h j = h
all_if count false k l h j = j

pub add_auction_info-IsInRange :
    (m : FlatMap ComplexData key) (info : SimpleInfo) (w : DiffWriter)
    → IsInRange w
    → IsInRange (add_auction_info m info w)
unfolding add_auction_info adjust_category_time_range
add_auction_info-IsInRange m info w h =
    let times = adjust_category_time_range info.category info.time w.category_time_manager in
    let count = length w.category_time_manager in
    elim (Bool-cases (leb (length w.category_time_manager) info.category)) [
      | inl e ↦ rw (e) h
      | inr e ↦
          let fits : info.category < count = ground (arith, e) in
          rw (e) (
            rw (length-at_category info.category _ w.category_time_manager fits) (
              all_if count (is_present info.diff_type) (present m info times w.auctions)
                (if info.diff_type == d_deleted then absent info times w.auctions else w.auctions)
                (all-present count m info times w.auctions fits h)
                (all_if count (info.diff_type == d_deleted) (absent info times w.auctions)
                  w.auctions (all-absent count info times w.auctions h) h)))
    ]

pub begin_process-IsInRange : (w : DiffWriter) → IsInRange w → IsInRange (begin_process w)
unfolding begin_process
begin_process-IsInRange w h = all-begin_each (length w.category_time_manager) w.auctions h

pub end_process-IsInRange : (w : DiffWriter) → IsInRange w → Returns IsInRange (end_process w)
unfolding end_process
end_process-IsInRange w h =
    Returns-bind (λ l. all (in_range (length w.category_time_manager)) l ≡ true) IsInRange
      (end_all w.diff_mode w.category_time_manager w.auctions) _
      (all-end_all (length w.category_time_manager) w.diff_mode w.category_time_manager w.auctions
        refl h)
      (λ l held. rw (length-reset_category_time w.category_time_manager) held)

-- What a writer is called for.
pub data Call : Type 0 where
  begin_call end_call : Call
  mode_call : Bool → Call
  info_call : SimpleInfo → Call

abbrev pub run_call : FlatMap ComplexData key → Call → DiffWriter → Option DiffWriter
run_call m begin_call w = some (begin_process w)
run_call m end_call w = end_process w
run_call m (mode_call diff_mode) w = some (record w { diff_mode = diff_mode })
run_call m (info_call info) w = some (add_auction_info m info w)

abbrev pub run_calls : FlatMap ComplexData key → List Call → DiffWriter → Option DiffWriter
run_calls m [] w = some w
run_calls m (c ∷ rest) w = run_call m c w >>= run_calls m rest

run_call-IsInRange :
    (m : FlatMap ComplexData key) (c : Call) (w : DiffWriter)
    → IsInRange w
    → Returns IsInRange (run_call m c w)
run_call-IsInRange m begin_call w h = begin_process-IsInRange w h
run_call-IsInRange m end_call w h = end_process-IsInRange w h
run_call-IsInRange m (mode_call diff_mode) w h = h
run_call-IsInRange m (info_call info) w h = add_auction_info-IsInRange m info w h

-- Whatever results a writer gets, in whatever rounds and modes, if each of its auctions is of a
-- category that has times, it never reads past the times at the end of a round, and this holds
-- again.
pub run_calls-IsInRange :
    (m : FlatMap ComplexData key) (calls : List Call) (w : DiffWriter)
    → IsInRange w
    → Returns IsInRange (run_calls m calls w)
run_calls-IsInRange m [] w h = h
run_calls-IsInRange m (c ∷ rest) w h =
    Returns-bind IsInRange IsInRange (run_call m c w) (run_calls m rest)
      (run_call-IsInRange m c w h) (run_calls-IsInRange m rest)
