-- ===== src/Auction/Complex/Status.antt =====
-- rzauctionmonitor/lib/AuctionComplexData.cpp: the status of an auction from round to round, and its dump.
use rzu.Prelude.{
  ℕ, suc, ◌%◌, ◌^◌, Bool, true, false, not, ◌&&◌, ◌||◌, [], Bytes, ltb, ◌==◌, if◌then◌else◌,
}
use rzu.Auction.Simple.Data.{
  d_added, d_updated, d_deleted, d_unmodified, d_maybe_deleted, d_invalid,
}
use rzu.Auction.Complex.Data.{
  ComplexData, ProcessStatus, parse_data, post_parse_data, new_complex, ps_not_processed,
  ps_unmodified, ps_added, ps_updated, ps_maybe_deleted, ps_deleted,
}

abbrev pub code : ProcessStatus → ℕ
code ps_not_processed = 0
code ps_unmodified = 1
code ps_added = 2
code ps_updated = 3
code ps_maybe_deleted = 4
code ps_deleted = 5

abbrev pub is_status : ProcessStatus → ProcessStatus → Bool
is_status a b = code a == code b

unfoldable pub set_status : ProcessStatus → ℕ → ComplexData → ComplexData
set_status status time a =
    if is_status status ps_maybe_deleted || is_status status ps_deleted
    then record a {
      time_max = if a.deleted then a.time_max else time;
      deleted = true;
      process_status = status;
    }
    else if not (is_status status ps_not_processed)
    then record a { deleted = false; deleted_count = 0; time_max = time; process_status = status }
    else record a { process_status = status }

-- What an update makes of the status, knowing whether it changed the data.
unfoldable pub update_status : Bool → ℕ → ComplexData → ComplexData
update_status modified time a =
    if modified && not (is_status a.process_status ps_added)
    then set_status ps_updated time a
    else if not modified
        && (not (is_status a.process_status ps_added)
            && not (is_status a.process_status ps_updated))
    then set_status ps_unmodified time a
    else a

unfoldable pub update : ℕ → ℕ → Bytes → ComplexData → ComplexData
update time epic bytes a =
    let parsed = parse_data epic bytes a in
    let stored = update_status parsed.1 time parsed.0 in
    if parsed.1 then post_parse_data false stored else stored

-- `setTimeMin`, as the writer calls it: not with a zero.
abbrev pub set_time_min : ℕ → ComplexData → ComplexData
set_time_min time a = if time == 0 then a else record a { time_min = time }

unfoldable pub remove : ℕ → ComplexData → ComplexData
remove time a =
    if is_status a.process_status ps_not_processed then set_status ps_maybe_deleted time a else a

unfoldable pub unmodified : ℕ → ComplexData → ComplexData
unmodified time a =
    if not (is_status a.process_status ps_added) && not (is_status a.process_status ps_updated)
    then set_status ps_unmodified time a
    else a

-- `deletedCount` is an int, which it does not reach the end of.
unfoldable pub maybe_still_deleted : ComplexData → ComplexData
maybe_still_deleted a =
    let counted = record a { deleted_count = suc a.deleted_count } in
    if not a.deleted
    then a
    else if ltb 3 counted.deleted_count
    then set_status ps_deleted counted.time_max counted
    else if is_status counted.process_status ps_not_processed
    then set_status ps_maybe_deleted counted.time_max counted
    else counted

unfoldable pub begin_process : ComplexData → ComplexData
begin_process a = if is_status a.process_status ps_deleted then a else record a {
  process_status = ps_not_processed;
  time_min = if not a.deleted && not (a.time_max == 0) then a.time_max else a.time_min;
  old_dynamic_data = a.dynamic_data;
}

unfoldable pub end_process : ℕ → ℕ → Bool → ComplexData → ComplexData
end_process category_begin_time category_end_time diff_mode a = maybe_still_deleted (
    if is_status a.process_status ps_not_processed
    then (if not diff_mode
        then remove category_end_time a
        else if not a.deleted
        then unmodified category_begin_time a
        else a)
    else a)

abbrev pub is_in_final_state : ComplexData → Bool
is_in_final_state a = is_status a.process_status ps_deleted

abbrev pub get_auction_diff_type : ProcessStatus → ℕ
get_auction_diff_type ps_deleted = d_deleted
get_auction_diff_type ps_added = d_added
get_auction_diff_type ps_updated = d_updated
get_auction_diff_type ps_unmodified = d_unmodified
get_auction_diff_type ps_maybe_deleted = d_maybe_deleted
get_auction_diff_type ps_not_processed = d_invalid

unfoldable pub get_auction_process_status : ℕ → ProcessStatus
get_auction_process_status diff_type =
    if diff_type == d_deleted
    then ps_deleted
    else if diff_type == d_added
    then ps_added
    else if diff_type == d_updated
    then ps_updated
    else if diff_type == d_unmodified
    then ps_unmodified
    else if diff_type == d_maybe_deleted
    then ps_maybe_deleted
    else ps_not_processed

-- AUCTION_INFO
pub record AuctionInfo : Type 0 where
  pub uid : ℕ
  pub time : ℕ
  pub previous_time : ℕ
  pub estimated_end_time_from_added : Bool
  pub estimated_end_time_min : ℕ
  pub estimated_end_time_max : ℕ
  pub diff_type : ℕ
  pub category : ℕ
  pub epic : ℕ
  pub content : Bytes
  pub duration_type : ℕ
  pub bid_price : ℕ
  pub price : ℕ
  pub seller : Bytes
  pub bid_flag : ℕ
  pub deleted : Bool
  pub deleted_count : ℕ

unfoldable pub create_from_dump : AuctionInfo → ComplexData
create_from_dump info =
    let a =
      new_complex info.uid info.previous_time info.time info.category info.epic info.content in
    let status = get_auction_process_status info.diff_type in
    record a {
      deleted = info.deleted;
      deleted_count = info.deleted_count;
      seller = info.seller;
      price = info.price;
      dynamic_data = record {
        duration_type = info.duration_type;
        bid_price = info.bid_price;
        bid_flag = info.bid_flag;
      };
      estimated_end_time_from_added = info.estimated_end_time_from_added;
      estimated_end_time_min = info.estimated_end_time_min;
      estimated_end_time_max = info.estimated_end_time_max;
      process_status = if is_status status ps_not_processed then a.process_status else status;
    }

unfoldable pub serialize : Bool → ComplexData → AuctionInfo
serialize always_with_data a = record {
  uid = a.uid;
  time = a.time_max;
  previous_time = a.time_min;
  estimated_end_time_from_added = a.estimated_end_time_from_added;
  estimated_end_time_min = a.estimated_end_time_min;
  estimated_end_time_max = a.estimated_end_time_max;
  diff_type = get_auction_diff_type a.process_status;
  category = a.category;
  epic = a.raw_data_epic;
  content =
      if always_with_data || get_auction_diff_type a.process_status == d_added
      then a.raw_data
      else [];
  duration_type = a.dynamic_data.duration_type;
  bid_price = a.dynamic_data.bid_price;
  price = a.price;
  seller = a.seller;
  bid_flag = a.dynamic_data.bid_flag;
  deleted = a.deleted;
  deleted_count = a.deleted_count % 2 ^ 8;
}
