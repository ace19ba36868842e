-- ===== src/Auction/Simple/Data.antt =====
-- rzauctionmonitor/lib/AuctionSimpleData.cpp: one auction and what the search of this round said of it.
use mathlib.Core.Bool.{decide}
use rzu.Prelude.{ℕ, Bool, true, false, not, ◌&&◌, ◌||◌, [], ◌∷◌, Bytes, ◌==◌, if◌then◌else◌}
use rzu.Prelude.Keyed.{bytes_discrete}

pub data ProcessStatus : Type 0 where
  ps_not_processed ps_unmodified ps_added ps_updated ps_deleted : ProcessStatus

-- DiffType, a uint16_t in a dump.
abbrev pub d_added : ℕ
d_added = 0

abbrev pub d_updated : ℕ
d_updated = 1

abbrev pub d_deleted : ℕ
d_deleted = 2

abbrev pub d_unmodified : ℕ
d_unmodified = 3

abbrev pub d_base : ℕ
d_base = 4

abbrev pub d_maybe_deleted : ℕ
d_maybe_deleted = 5

abbrev pub d_invalid : ℕ
d_invalid = 65535

-- AUCTION_SIMPLE_INFO
pub record SimpleInfo : Type 0 where
  pub uid : ℕ
  pub time : ℕ
  pub previous_time : ℕ
  pub diff_type : ℕ
  pub category : ℕ
  pub epic : ℕ
  pub content : Bytes

-- An epic that was never set is 0.
pub record SimpleData : Type 0 where
  pub uid : ℕ
  pub category : ℕ
  pub time_min : ℕ
  pub time_max : ℕ
  pub process_status : ProcessStatus
  pub raw_data_epic : ℕ
  pub raw_data : Bytes

abbrev pub is_empty : Bytes → Bool
is_empty [] = true
is_empty (c ∷ rest) = false

abbrev pub differ : Bytes → Bytes → Bool
differ a b = not (decide (bytes_discrete a b))

-- `parseData`: what it says, and what it stores.
abbrev pub is_changed : Bytes → SimpleData → Bool
is_changed bytes a = not (is_empty bytes) && differ a.raw_data bytes

unfoldable pub store_data : ℕ → Bytes → SimpleData → SimpleData
store_data epic bytes a =
    if is_empty bytes then a else record a { raw_data_epic = epic; raw_data = bytes }

unfoldable pub new_simple : ℕ → ℕ → ℕ → ℕ → ℕ → Bytes → SimpleData
new_simple uid time_min time_max category epic bytes = store_data epic bytes (record {
  uid = uid;
  category = category;
  time_min = time_min;
  time_max = time_max;
  process_status = ps_added;
  raw_data_epic = 0;
  raw_data = [];
})

abbrev pub is_added : ProcessStatus → Bool
is_added ps_not_processed = false
is_added ps_unmodified = false
is_added ps_added = true
is_added ps_updated = false
is_added ps_deleted = false

abbrev pub is_updated : ProcessStatus → Bool
is_updated ps_not_processed = false
is_updated ps_unmodified = false
is_updated ps_added = false
is_updated ps_updated = true
is_updated ps_deleted = false

abbrev pub is_deleted : ProcessStatus → Bool
is_deleted ps_not_processed = false
is_deleted ps_unmodified = false
is_deleted ps_added = false
is_deleted ps_updated = false
is_deleted ps_deleted = true

abbrev pub is_not_processed : ProcessStatus → Bool
is_not_processed ps_not_processed = true
is_not_processed ps_unmodified = false
is_not_processed ps_added = false
is_not_processed ps_updated = false
is_not_processed ps_deleted = false

unfoldable pub set_status : ProcessStatus → ℕ → SimpleData → SimpleData
set_status status time a =
    if is_deleted status && not (is_deleted a.process_status) || not (is_not_processed status)
    then record a { time_max = time; process_status = status }
    else record a { process_status = status }

unfoldable pub do_update : ℕ → ℕ → Bytes → SimpleData → SimpleData
do_update time_max epic bytes a =
    let stored = store_data epic bytes a in
    if is_changed bytes a && not (is_added stored.process_status)
    then set_status ps_updated time_max stored
    else if not (is_changed bytes a)
        && (not (is_added stored.process_status) && not (is_updated stored.process_status))
    then set_status ps_unmodified time_max stored
    else stored

unfoldable pub begin_process : SimpleData → SimpleData
begin_process a =
    if is_deleted a.process_status
    then a
    else record a { process_status = ps_not_processed; time_min = a.time_max }

unfoldable pub end_process : ℕ → SimpleData → SimpleData
end_process category_end_time a =
    if is_not_processed a.process_status then set_status ps_deleted category_end_time a else a

abbrev pub is_in_final_state : SimpleData → Bool
is_in_final_state a = is_deleted a.process_status

abbrev pub get_auction_diff_type : ProcessStatus → ℕ
get_auction_diff_type ps_deleted = d_deleted
get_auction_diff_type ps_added = d_added
get_auction_diff_type ps_updated = d_updated
get_auction_diff_type ps_unmodified = d_unmodified
get_auction_diff_type ps_not_processed = d_invalid

unfoldable pub get_auction_process_status : ℕ → ProcessStatus
get_auction_process_status diff_type =
    if diff_type == d_deleted
    then ps_deleted
    else if diff_type == d_added
    then ps_added
    else if diff_type == d_updated
    then ps_updated
    else if diff_type == d_unmodified
    then ps_unmodified
    else ps_not_processed

abbrev pub output_in_partial_dump : SimpleData → Bool
output_in_partial_dump a = not (get_auction_diff_type a.process_status == d_unmodified)

unfoldable pub create_from_dump : SimpleInfo → SimpleData
create_from_dump info =
    let a = new_simple info.uid info.previous_time info.time info.category info.epic info.content in
    let status = get_auction_process_status info.diff_type in
    if is_not_processed status then a else record a { process_status = status }

unfoldable pub serialize : SimpleData → SimpleInfo
serialize a = record {
  uid = a.uid;
  time = a.time_max;
  previous_time = a.time_min;
  diff_type = get_auction_diff_type a.process_status;
  category = a.category;
  epic = a.raw_data_epic;
  content = a.raw_data;
}
