-- ===== src/Auction/Simple/Writer.antt =====
-- rzauctionmonitor/lib/AuctionSimpleDiffWriter.cpp.
use rzu.Prelude.{ℕ, Bool, not, ◌&&◌, Option, none, some, List, [], ◌∷◌, Bytes, if◌then◌else◌}
use rzu.Auction.Categories
use rzu.Auction.Categories.{
  CategoryTime, Header, touch, adjust_category_time_range, reset_category_time, serialize_header,
  deserialize_header, get_estimated_previous_category_begin_time, get_estimated_category_end_time,
  dt_full, dt_diff,
}
use rzu.Auction.Writer.{FlatMap, Writer, find, adjust, add_auction, begin_each, end_each}
use rzu.Auction.Simple.Data
use rzu.Auction.Simple.Data.{
  SimpleData, SimpleInfo, new_simple, do_update, is_in_final_state, output_in_partial_dump,
  create_from_dump, serialize,
}

abbrev pub key : SimpleData → ℕ
key a = a.uid

-- AUCTION_SIMPLE_FILE
pub record SimpleFile : Type 0 where
  pub header : Header
  pub auctions : List SimpleInfo

-- `addAuctionInfo`, once it is known whether the auction is there.
abbrev pub add_or_update :
    FlatMap SimpleData key
    → ℕ
    → ℕ
    → ℕ
    → ℕ
    → Bytes
    → Writer SimpleData
    → Option SimpleData
    → Writer SimpleData
add_or_update m uid time category epic bytes w (some a) = record {
  category_time_manager = adjust_category_time_range category time w.category_time_manager;
  auctions = adjust key uid (do_update time epic bytes) w.auctions;
}
add_or_update m uid time category epic bytes w none =
    let times = w.category_time_manager in
    let previous = get_estimated_previous_category_begin_time category times in
    record {
      category_time_manager = adjust_category_time_range category time (touch category times);
      auctions = add_auction m (new_simple uid previous time category epic bytes) w.auctions;
    }

unfoldable pub add_auction_info :
    FlatMap SimpleData key → ℕ → ℕ → ℕ → ℕ → Bytes → Writer SimpleData → Writer SimpleData
add_auction_info m uid time category epic bytes w =
    add_or_update m uid time category epic bytes w (find key uid w.auctions)

unfoldable pub begin_process : Writer SimpleData → Writer SimpleData
begin_process w = record w { auctions = begin_each is_in_final_state Data.begin_process w.auctions }

abbrev pub end_auction : SimpleData → List CategoryTime → SimpleData × List CategoryTime
end_auction a times =
    (Data.end_process (get_estimated_category_end_time a.category times) a, touch a.category times)

unfoldable pub end_process : Writer SimpleData → Writer SimpleData
end_process w =
    let ended = end_each end_auction w.auctions w.category_time_manager in
    record { category_time_manager = reset_category_time ended.1; auctions = ended.0 }

unfoldable pub dumped : Bool → List SimpleData → List SimpleInfo
dumped do_full_dump [] = []
dumped do_full_dump (a ∷ rest) =
    let others = dumped do_full_dump rest in
    if not do_full_dump && not (output_in_partial_dump a) then others else serialize a ∷ others

abbrev pub dump_type : Bool → Categories.DumpType
dump_type do_full_dump = if do_full_dump then dt_full else dt_diff

unfoldable pub export_dump : Bool → Writer SimpleData → SimpleFile
export_dump do_full_dump w = record {
  header = record (serialize_header (dump_type do_full_dump) w.category_time_manager) {
    signature = b'R' ∷ b'H' ∷ b'S' ∷ [];
  };
  auctions = dumped do_full_dump w.auctions;
}

unfoldable pub imported :
    FlatMap SimpleData key → List SimpleInfo → List SimpleData → List SimpleData
imported m [] auctions = auctions
imported m (info ∷ rest) auctions = imported m rest (add_auction m (create_from_dump info) auctions)

unfoldable pub import_dump : FlatMap SimpleData key → SimpleFile → Writer SimpleData
import_dump m file = record {
  category_time_manager = deserialize_header file.header;
  auctions = imported m file.auctions [];
}
