-- ===== src/Auction/Complex/Writer.antt =====
-- rzauctionmonitor/lib/AuctionComplexDiffWriter.cpp. `none` is a read past the end of the cached times.
use rzu.Prelude.{
  ℕ, Bool, not, ◌&&◌, ◌||◌, Option, none, some, ◌>>=◌, List, [], ◌∷◌, length, ltb, leb, ◌==◌,
  if◌then◌else◌,
}
use rzu.Auction.Categories.{
  CategoryTime, Header, adjust_category_time_range, reset_category_time, serialize_header,
  deserialize_header, get_estimated_previous_category_begin_time, get_estimated_category_begin_time,
  get_estimated_category_end_time,
}
use rzu.Auction.Writer.{FlatMap, find, adjust, add_auction, begin_each}
use rzu.Auction.Simple.Data.{
  SimpleInfo, d_added, d_updated, d_deleted, d_unmodified, d_base, d_maybe_deleted,
}
use rzu.Auction.Simple.Writer.{dump_type}
use rzu.Auction.Complex.Data.{ComplexData, new_complex}
use rzu.Auction.Complex.Status
use rzu.Auction.Complex.Status.{
  AuctionInfo, set_time_min, update, remove, is_in_final_state, get_auction_diff_type,
  create_from_dump, serialize,
}

abbrev pub key : ComplexData → ℕ
key a = a.uid

-- AuctionComplexDiffWriter, with `diffMode`.
pub record DiffWriter : Type 0 where
  pub category_time_manager : List CategoryTime
  pub auctions : List ComplexData
  pub diff_mode : Bool

-- AUCTION_FILE
pub record AuctionFile : Type 0 where
  pub header : Header
  pub auctions : List AuctionInfo

-- 0xFFFFFF is an epic that is not known.
unfoldable pub parse_epic : ℕ → ℕ → ℕ
parse_epic epic time =
    if not (epic == 16777215)
    then (if epic == 591367 && leb 1634716800 time
        then 591368
        else if epic == 591618 && leb 1674115200 time
        then 591872
        else epic)
    else if ltb time 1552986000
    then 591107
    else 591361

-- Zero for a previous time that is not known.
unfoldable pub true_previous_time : SimpleInfo → Option ComplexData → List CategoryTime → ℕ
true_previous_time info found times =
    let previous = get_estimated_previous_category_begin_time info.category times in
    if not (info.previous_time == 0)
    then info.previous_time
    else elim found [ none ↦ 0 | some a ↦ if leb a.time_min previous then previous else 0 ]

abbrev pub is_present : ℕ → Bool
is_present diff_type = diff_type == d_base || (diff_type == d_added || diff_type == d_updated)

unfoldable pub present :
    FlatMap ComplexData key → SimpleInfo → List CategoryTime → List ComplexData → List ComplexData
present m info times auctions =
    let previous = get_estimated_previous_category_begin_time info.category times in
    let epic = parse_epic info.epic info.time in
    elim (find key info.uid auctions) [
      | some a ↦
          adjust key info.uid
            (λ b.
              update info.time epic info.content
                (set_time_min (true_previous_time info (some a) times) b))
            auctions
      | none ↦
          add_auction m
            (new_complex info.uid (if info.previous_time == 0 then previous else info.previous_time)
              info.time info.category epic info.content)
            auctions
    ]

unfoldable pub absent : SimpleInfo → List CategoryTime → List ComplexData → List ComplexData
absent info times auctions = elim (find key info.uid auctions) [
  | none ↦ auctions
  | some a ↦
      adjust key info.uid
        (λ b. remove info.time (set_time_min (true_previous_time info (some a) times) b)) auctions
]

unfoldable pub add_auction_info : FlatMap ComplexData key → SimpleInfo → DiffWriter → DiffWriter
add_auction_info m info w =
    let times = adjust_category_time_range info.category info.time w.category_time_manager in
    if leb (length w.category_time_manager) info.category then w else record w {
      category_time_manager = times;
      auctions =
          if is_present info.diff_type
          then present m info times w.auctions
          else if info.diff_type == d_deleted
          then absent info times w.auctions
          else w.auctions;
    }

unfoldable pub begin_process : DiffWriter → DiffWriter
begin_process w = record w {
  auctions = begin_each is_in_final_state Status.begin_process w.auctions;
}

unfoldable pub end_all : Bool → List CategoryTime → List ComplexData → Option (List ComplexData)
end_all diff_mode times [] = some []
end_all diff_mode times (a ∷ rest) =
    let others = end_all diff_mode times rest in
    let ended =
      Status.end_process (get_estimated_category_begin_time a.category times)
        (get_estimated_category_end_time a.category times) diff_mode a in
    if leb (length times) a.category then none else (others >>= λ l. some (ended ∷ l))

unfoldable pub end_process : DiffWriter → Option DiffWriter
end_process w = end_all w.diff_mode w.category_time_manager w.auctions >>= λ l.
    some (record w {
      category_time_manager = reset_category_time w.category_time_manager;
      auctions = l;
    })

-- `AuctionWriter::diffTypeInPartialDump`
unfoldable pub diff_type_in_partial_dump : ℕ → Bool
diff_type_in_partial_dump diff_type =
    not (diff_type == d_unmodified) && not (diff_type == d_maybe_deleted)

unfoldable pub dumped : Bool → Bool → List ComplexData → List AuctionInfo
dumped do_full_dump always_with_data [] = []
dumped do_full_dump always_with_data (a ∷ rest) =
    let others = dumped do_full_dump always_with_data rest in
    if not do_full_dump && not (diff_type_in_partial_dump (get_auction_diff_type a.process_status))
    then others
    else serialize always_with_data a ∷ others

unfoldable pub export_dump : Bool → Bool → DiffWriter → AuctionFile
export_dump do_full_dump always_with_data w = record {
  header = serialize_header (dump_type do_full_dump) w.category_time_manager;
  auctions = dumped do_full_dump always_with_data w.auctions;
}

unfoldable pub imported :
    FlatMap ComplexData key → List AuctionInfo → List ComplexData → List ComplexData
imported m [] auctions = auctions
imported m (info ∷ rest) auctions = imported m rest (add_auction m (create_from_dump info) auctions)

unfoldable pub import_dump : FlatMap ComplexData key → AuctionFile → DiffWriter → DiffWriter
import_dump m file w = record w {
  category_time_manager = deserialize_header file.header;
  auctions = imported m file.auctions [];
}
