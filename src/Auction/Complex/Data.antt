-- ===== src/Auction/Complex/Data.antt =====
-- rzauctionmonitor/lib/AuctionComplexData.cpp: the data of an auction and the estimate of its end. Prices are
-- the patterns of their 64 bits. For data that is too short the source reads a duration before the data,
-- which it does not use.
use rzu.Prelude.{
  ℕ, zero, suc, ◌+◌, ◌-◌, ◌*◌, ◌%◌, ◌^◌, Bool, true, false, not, ◌&&◌, ◌||◌, [], ◌∷◌, Bytes, length,
  drop, ltb, leb, ◌==◌, if◌then◌else◌,
}
use rzu.Auth.GameServer.Packets.{convert_to_string}
use rzu.Auction.Simple.Data.{is_empty, differ}

pub data ProcessStatus : Type 0 where
  ps_not_processed ps_unmodified ps_added ps_updated ps_maybe_deleted ps_deleted : ProcessStatus

abbrev pub dt_unknown : ℕ
dt_unknown = 0

pub record DynamicData : Type 0 where
  pub duration_type : ℕ
  pub bid_price : ℕ
  pub bid_flag : ℕ

abbrev pub same_dynamic : DynamicData → DynamicData → Bool
same_dynamic a b =
    a.duration_type == b.duration_type && (a.bid_price == b.bid_price && a.bid_flag == b.bid_flag)

abbrev pub no_dynamic : DynamicData
no_dynamic = record { duration_type = dt_unknown; bid_price = 0; bid_flag = 0 }

pub record ComplexData : Type 0 where
  pub uid : ℕ
  pub category : ℕ
  pub time_min : ℕ
  pub time_max : ℕ
  pub process_status : ProcessStatus
  pub deleted : Bool
  pub deleted_count : ℕ
  pub seller : Bytes
  pub price : ℕ
  pub raw_data_epic : ℕ
  pub raw_data : Bytes
  pub dynamic_data : DynamicData
  pub old_dynamic_data : DynamicData
  pub estimated_end_time_from_added : Bool
  pub estimated_end_time_min : ℕ
  pub estimated_end_time_max : ℕ

-- A number of so many bytes, the lowest first.
unfoldable pub number : ℕ → Bytes → ℕ
number zero bytes = 0
number (suc width) [] = 0
number (suc width) (c ∷ bytes) = c + 256 * number width bytes

-- AuctionDataEnd, the last 49 bytes.
abbrev pub data_end_size : ℕ
data_end_size = 49

abbrev pub data_end : Bytes → Bytes
data_end bytes = drop (length bytes - data_end_size) bytes

abbrev pub epic_9_6_8 : ℕ
epic_9_6_8 = 591368

unfoldable pub duration_type_to_second : ℕ → ℕ → ℕ
duration_type_to_second d epic =
    if leb epic_9_6_8 epic
    then (if leb 64 d
        then (d - 64) * 3600
        else if leb 4 d
        then (d - 4 + 1) * 60
        else if d == 3
        then 7 * 24 * 3600
        else if d == 2
        then 3 * 24 * 3600
        else if d == 1
        then 24 * 3600
        else 0)
    else if d == 3
    then 72 * 3600
    else if d == 2
    then 24 * 3600
    else if d == 1
    then 6 * 3600
    else 0

-- A bid flag is an int8_t, which is 0, 1 or 2.
abbrev pub is_bid_flag : ℕ → Bool
is_bid_flag flag = leb flag 2

abbrev pub end_duration : Bytes → ℕ
end_duration bytes = number 1 (data_end bytes)

abbrev pub end_flag : Bytes → ℕ
end_flag bytes = number 1 (drop 48 (data_end bytes))

-- Data that `parseData` looks into.
unfoldable pub is_valid : ℕ → Bytes → Bool
is_valid epic bytes =
    not (ltb (length bytes) data_end_size)
    && (is_bid_flag (end_flag bytes)
        && not (duration_type_to_second (end_duration bytes) epic == 0))

unfoldable pub store_end : Bytes → ComplexData → ComplexData
store_end bytes a = record a {
  seller = convert_to_string (drop 17 (data_end bytes)) 30;
  price = number 8 (drop 9 (data_end bytes));
  dynamic_data = record {
    duration_type = end_duration bytes;
    bid_price = number 8 (drop 1 (data_end bytes));
    bid_flag = end_flag bytes;
  };
}

-- `parseData`: what it stores, and what it says.
unfoldable pub parse_data : ℕ → Bytes → ComplexData → ComplexData × Bool
parse_data epic bytes a =
    let stored = record a { raw_data_epic = epic; raw_data = bytes } in
    let read = store_end bytes stored in
    if is_empty bytes
    then (a, false)
    else if is_valid epic bytes
    then (read, not (same_dynamic read.dynamic_data read.old_dynamic_data))
    else (stored, differ a.raw_data bytes)

unfoldable pub narrow_end : ℕ → ℕ → ComplexData → ComplexData
narrow_end end_min end_max a = record a {
  estimated_end_time_min =
      if ltb a.estimated_end_time_min end_min || a.estimated_end_time_from_added
      then end_min
      else a.estimated_end_time_min;
  estimated_end_time_max =
      if ltb end_max a.estimated_end_time_max then end_max else a.estimated_end_time_max;
  estimated_end_time_from_added = false;
}

unfoldable pub post_parse_data : Bool → ComplexData → ComplexData
post_parse_data new_data a =
    let old = a.old_dynamic_data.duration_type in
    let new = a.dynamic_data.duration_type in
    let seconds = duration_type_to_second new a.raw_data_epic in
    let end_min = (seconds + a.time_min) % 2 ^ 64 in
    let end_max = (seconds + a.time_max) % 2 ^ 64 in
    if new == dt_unknown || seconds == 0
    then a
    else if not new_data && (not (old == dt_unknown) && not (new == old))
    then narrow_end end_min end_max a
    else if new_data && a.estimated_end_time_from_added
    then record a { estimated_end_time_min = end_min; estimated_end_time_max = end_max }
    else a

abbrev pub blank : ℕ → ℕ → ℕ → ℕ → ℕ → ComplexData
blank uid time_min time_max category epic = record {
  uid = uid;
  category = category;
  time_min = time_min;
  time_max = time_max;
  process_status = ps_added;
  deleted = false;
  deleted_count = 0;
  seller = [];
  price = 0;
  raw_data_epic = epic;
  raw_data = [];
  dynamic_data = no_dynamic;
  old_dynamic_data = no_dynamic;
  estimated_end_time_from_added = true;
  estimated_end_time_min = 0;
  estimated_end_time_max = 0;
}

unfoldable pub new_complex : ℕ → ℕ → ℕ → ℕ → ℕ → Bytes → ComplexData
new_complex uid time_min time_max category epic bytes =
    post_parse_data true (parse_data epic bytes (blank uid time_min time_max category epic)).0
