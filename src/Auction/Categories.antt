-- ===== src/Auction/Categories.antt =====
-- rzauctionmonitor/lib/CategoryTimeManager.cpp: when each category was searched, in this round and in the
-- one before. Times are seconds, never negative.
use rzu.Prelude.{ℕ, zero, suc, List, [], ◌∷◌, Bytes, ltb, ◌==◌, ◌||◌, if◌then◌else◌, map}

pub record CategoryTime : Type 0 where
  pub previous_begin : ℕ
  pub previous_end : ℕ
  pub begin : ℕ
  pub end : ℕ

abbrev pub new_category : CategoryTime
new_category = record { previous_begin = 0; previous_end = 0; begin = 0; end = 0 }

-- A write through `getCategoryTime`, which makes the categories that are missing.
unfoldable pub at_category :
    ℕ → (CategoryTime → CategoryTime) → List CategoryTime → List CategoryTime
at_category zero f [] = f new_category ∷ []
at_category zero f (c ∷ rest) = f c ∷ rest
at_category (suc category) f [] = new_category ∷ at_category category f []
at_category (suc category) f (c ∷ rest) = c ∷ at_category category f rest

-- A read does this much.
abbrev pub touch : ℕ → List CategoryTime → List CategoryTime
touch category times = at_category category (λ c. c) times

unfoldable pub begin_category : ℕ → ℕ → List CategoryTime → List CategoryTime
begin_category category time times = at_category category (λ c. record c { begin = time }) times

unfoldable pub end_category : ℕ → ℕ → List CategoryTime → List CategoryTime
end_category category time times = at_category category (λ c. record c { end = time }) times

abbrev pub larger : ℕ → ℕ → ℕ
larger most time = if ltb most time then time else most

unfoldable pub last_end_from : ℕ → List CategoryTime → ℕ
last_end_from most [] = most
last_end_from most (c ∷ rest) = last_end_from (larger most c.end) rest

abbrev pub get_last_end_category_time : List CategoryTime → ℕ
get_last_end_category_time times = last_end_from 0 times

abbrev pub reset_times : ℕ → CategoryTime → CategoryTime
reset_times minimal_begin c = record {
  previous_begin = c.begin;
  previous_end = c.end;
  begin = minimal_begin;
  end = minimal_begin;
}

unfoldable pub reset_category_time : List CategoryTime → List CategoryTime
reset_category_time times = map (reset_times (get_last_end_category_time times)) times

abbrev pub widen_begin : ℕ → CategoryTime → CategoryTime
widen_begin time c = if c.begin == 0 || ltb time c.begin then record c { begin = time } else c

abbrev pub widen_end : ℕ → CategoryTime → CategoryTime
widen_end time c = if ltb c.end time then record c { end = time } else c

unfoldable pub adjust_category_time_range : ℕ → ℕ → List CategoryTime → List CategoryTime
adjust_category_time_range category time times =
    at_category category (λ c. widen_end time (widen_begin time c)) times

-- The latest of a time of this category and those before it, from this one down; a category that is
-- missing has none.
unfoldable pub latest : (CategoryTime → ℕ) → ℕ → List CategoryTime → ℕ
latest time category [] = 0
latest time zero (c ∷ rest) = larger 0 (time c)
latest time (suc category) (c ∷ rest) = larger (latest time category rest) (time c)

abbrev pub get_estimated_previous_category_begin_time : ℕ → List CategoryTime → ℕ
get_estimated_previous_category_begin_time category times =
    latest (λ c. c.previous_begin) category times

abbrev pub get_estimated_category_begin_time : ℕ → List CategoryTime → ℕ
get_estimated_category_begin_time category times = latest (λ c. c.begin) category times

abbrev pub get_estimated_category_end_time : ℕ → List CategoryTime → ℕ
get_estimated_category_end_time category times = latest (λ c. c.end) category times

-- AUCTION_CATEGORY_INFO and AUCTION_HEADER.
pub record CategoryInfo : Type 0 where
  pub begin_time : ℕ
  pub end_time : ℕ

pub data DumpType : Type 0 where
  dt_diff dt_full : DumpType

pub record Header : Type 0 where
  pub signature : Bytes
  pub file_version : ℕ
  pub dump_type : DumpType
  pub categories : List CategoryInfo

abbrev pub info_of : CategoryTime → CategoryInfo
info_of c = record { begin_time = c.previous_begin; end_time = c.previous_end }

abbrev pub auction_latest : ℕ
auction_latest = 6

unfoldable pub serialize_header : DumpType → List CategoryTime → Header
serialize_header dump_type times = record {
  signature = b'R' ∷ b'A' ∷ b'H' ∷ [];
  file_version = auction_latest;
  dump_type = dump_type;
  categories = map info_of times;
}

abbrev pub time_of : CategoryInfo → CategoryTime
time_of info = record {
  previous_begin = 0;
  previous_end = 0;
  begin = info.begin_time;
  end = info.end_time;
}

unfoldable pub deserialize_header : Header → List CategoryTime
deserialize_header header = reset_category_time (map time_of header.categories)
