-- ===== src/Auction/RoundTrip/Simple.antt =====
-- A dump of the simple writer after a round.
use rzu.Prelude.{ℕ, ◌≡◌, refl, ◌∙◌, ap, true, false, List, [], ◌∷◌, arith}
use rzu.Auction.Categories.{CategoryTime, get_estimated_category_end_time, touch, dt_full}
use rzu.Auction.Writer.{FlatMap, Writer, end_each}
use rzu.Auction.Simple.Data
use rzu.Auction.Simple.Data.{
  SimpleData, is_empty, is_not_processed, set_status, store_data, new_simple, create_from_dump,
  serialize, get_auction_process_status, get_auction_diff_type, ps_not_processed, ps_unmodified,
  ps_added, ps_updated, ps_deleted,
}
use rzu.Auction.Simple.Writer.{
  key, end_auction, end_process, export_dump, import_dump, imported, dumped,
}
use rzu.Auction.RoundTrip.Categories.{deserialize_header-serialize_header}
use rzu.Auction.RoundTrip.Order.{AllAbove, IsOrdered, add_all, add_all_lem}

abbrev pub AllHaveData : List SimpleData → Type 0
AllHaveData [] = Unit
AllHaveData (a ∷ rest) = (is_empty a.raw_data ≡ false) × AllHaveData rest

status_back :
    (status : Data.ProcessStatus)
    → is_not_processed status ≡ false
    → get_auction_process_status (get_auction_diff_type status) ≡ status
unfolding get_auction_process_status
status_back ps_not_processed h = absurd (ground arith)
status_back ps_unmodified h = refl
status_back ps_added h = refl
status_back ps_updated h = refl
status_back ps_deleted h = refl

create_from_dump-serialize :
    (a : SimpleData)
    → is_empty a.raw_data ≡ false
    → is_not_processed a.process_status ≡ false
    → create_from_dump (serialize a) ≡ a
unfolding create_from_dump serialize new_simple store_data
create_from_dump-serialize a h p = rw (status_back a.process_status p, h, p) refl

module _ (a : SimpleData) (time : ℕ) where
  is_processed-end_process : is_not_processed (Data.end_process time a).process_status ≡ false
  unfolding Data.end_process set_status
  is_processed-end_process = ground arith

  has_data-end_process : (Data.end_process time a).raw_data ≡ a.raw_data
  unfolding Data.end_process set_status
  has_data-end_process = ground arith

  pub uid-end_process : (Data.end_process time a).uid ≡ a.uid
  unfolding Data.end_process set_status
  uid-end_process = ground arith

AllRestored : List SimpleData → Type 0
AllRestored [] = Unit
AllRestored (a ∷ rest) = (create_from_dump (serialize a) ≡ a) × AllRestored rest

abbrev ended : List SimpleData → List CategoryTime → List SimpleData
unfolding end_each
ended l times = (end_each end_auction l times).0

ended-AllRestored :
    (l : List SimpleData) (times : List CategoryTime) → AllHaveData l → AllRestored (ended l times)
unfolding end_each AllRestored
ended-AllRestored [] times h = tt
ended-AllRestored (a ∷ rest) times h =
    let time = get_estimated_category_end_time a.category times in
    (
      create_from_dump-serialize (Data.end_process time a)
          (ap is_empty (has_data-end_process a time) ∙ h.0) (is_processed-end_process a time),
      ended-AllRestored rest (touch a.category times) h.1,
    )

ended-AllAbove :
    (k : ℕ) (l : List SimpleData) (times : List CategoryTime)
    → AllAbove key k l
    → AllAbove key k (ended l times)
unfolding end_each
ended-AllAbove k [] times h = tt
ended-AllAbove k (a ∷ rest) times h =
    let same = uid-end_process a (get_estimated_category_end_time a.category times) in
    (omega arith, ended-AllAbove k rest (touch a.category times) h.1)

ended-IsOrdered :
    (l : List SimpleData) (times : List CategoryTime)
    → IsOrdered key l
    → IsOrdered key (ended l times)
unfolding end_each
ended-IsOrdered [] times h = tt
ended-IsOrdered (a ∷ rest) times h =
    let same = uid-end_process a (get_estimated_category_end_time a.category times) in
    let next = touch a.category times in
    (rw (same) (ended-AllAbove a.uid rest next h.0), ended-IsOrdered rest next h.1)

imported-dumped :
    (m : FlatMap SimpleData key) (l front : List SimpleData)
    → AllRestored l
    → imported m (dumped true l) front ≡ add_all key m l front
unfolding imported dumped add_all AllRestored
imported-dumped m [] front h = refl
imported-dumped m (a ∷ rest) front h = rw (h.0) (imported-dumped m rest _ h.1)

-- A full dump of the simple writer after the end of a round, whose auctions have data and are in
-- the order of their uids, is imported as the same writer: the same auctions and the same times.
pub import_dump-export_dump :
    (m : FlatMap SimpleData key) (w : Writer SimpleData)
    → IsOrdered key w.auctions
    → AllHaveData w.auctions
    → import_dump m (export_dump true (end_process w)) ≡ end_process w
unfolding import_dump export_dump end_process end_each
import_dump-export_dump m w o h =
    let times = w.category_time_manager in
    let l = ended w.auctions times in
    let times_back =
      deserialize_header-serialize_header dt_full (b'R' ∷ b'H' ∷ b'S' ∷ [])
        (end_each end_auction w.auctions times).1 in
    let auctions_back =
      imported-dumped m l [] (ended-AllRestored w.auctions times h)
      ∙ add_all_lem key m l (ended-IsOrdered w.auctions times o) in
    λ i. record { category_time_manager = times_back i; auctions = auctions_back i }
