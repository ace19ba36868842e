-- ===== src/Auction/Simple/Rounds.antt =====
-- What a round says of each auction, if every uid is followed on its own.
pub mod Steps
pub mod Verdict
use rzu.Prelude.{
  ℕ, ◌+◌, ◌<◌, ◌≡◌, refl, ◌∙◌, sym, ap, Bool, true, false, not, ◌&&◌, ◌||◌, Option, none, some,
  List, [], ◌∷◌, ◌++◌, Bytes, arith, ◌==◌, if◌then◌else◌, Bool-cases, Option-cases, inl, inr,
  ==_iff,
}
use mathlib.Core.Option
use rzu.Auction.Categories.{
  CategoryTime, touch, get_estimated_category_end_time, get_estimated_previous_category_begin_time,
}
use rzu.Auction.Writer.{FlatMap, Writer, find, adjust, add_auction, begin_each, end_each}
use rzu.Auction.Simple.Data
use rzu.Auction.Simple.Data.{
  SimpleData, ProcessStatus, ps_not_processed, ps_unmodified, ps_added, ps_updated, ps_deleted,
  is_empty, differ, is_changed, store_data, new_simple, set_status, do_update, is_in_final_state,
  is_deleted, is_added, is_updated, is_not_processed,
}
use rzu.Auction.Simple.Writer.{
  key, add_or_update, add_auction_info, begin_process, end_auction, end_process,
}
use rzu.Auction.RoundTrip.Order.{AllAbove, IsOrdered}

-- One auction of a search.
pub record Result : Type 0 where
  pub uid : ℕ
  pub time : ℕ
  pub category : ℕ
  pub epic : ℕ
  pub content : Bytes

abbrev pub search_all : FlatMap SimpleData key → List Result → Writer SimpleData → Writer SimpleData
search_all m [] w = w
search_all m (r ∷ rest) w =
    search_all m rest (add_auction_info m r.uid r.time r.category r.epic r.content w)

-- A round: the auctions of a search, from its begin to its end.
unfoldable pub round : FlatMap SimpleData key → List Result → Writer SimpleData → Writer SimpleData
round m results w = end_process (search_all m results (begin_process w))

-- What is seen of an auction: its status and its data.
abbrev pub View : Type 0
View = Option (ProcessStatus × Bytes)

abbrev pub look : SimpleData → ProcessStatus × Bytes
look a = (a.process_status, a.raw_data)

abbrev pub view_of : Option SimpleData → View
view_of none = none
view_of (some a) = some (look a)

abbrev pub view : ℕ → Writer SimpleData → View
view k w = view_of (find key k w.auctions)

abbrev pub begin_view : View → View
begin_view none = none
begin_view (some (status, raw)) = if is_deleted status then none else some (ps_not_processed, raw)

abbrev pub seen_status : Bool → ProcessStatus → ProcessStatus
seen_status changed status =
    if is_added status
    then status
    else if changed
    then ps_updated
    else if is_updated status
    then status
    else ps_unmodified

abbrev pub see : Bytes → View → View
see content none = some (ps_added, content)
see content (some (status, raw)) = some (
  seen_status (not (is_empty content) && differ raw content) status,
  (if is_empty content then raw else content),
)

abbrev pub end_view : View → View
end_view none = none
end_view (some (status, raw)) = some ((if is_not_processed status then ps_deleted else status), raw)

abbrev pub see_all : ℕ → List Result → View → View
see_all k [] v = v
see_all k (r ∷ rest) v = see_all k rest (if r.uid == k then see r.content v else v)

-- The round of one auction.
abbrev pub next_view : ℕ → List Result → View → View
next_view k results v = end_view (see_all k results (begin_view v))
