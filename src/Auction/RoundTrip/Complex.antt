-- ===== src/Auction/RoundTrip/Complex.antt =====
-- A dump of all auctions with their data, which a writer imports before its next round.
use rzu.Prelude.{
  ℕ, ◌%◌, ◌^◌, ◌<◌, ◌≡◌, refl, ◌∙◌, ap, Bool, true, false, List, [], ◌∷◌, Bytes, arith, Bool-cases,
  inl, inr, if◌then◌else◌, map,
}
use rzu.Auction.Categories.{
  CategoryTime, reset_category_time, dt_full, serialize_header, deserialize_header,
}
use rzu.Auction.Writer.{FlatMap, begin_each}
use rzu.Auction.Complex.Data.{
  ComplexData, DynamicData, ProcessStatus, parse_data, post_parse_data, narrow_end, is_valid,
  store_end, new_complex, blank, ps_not_processed, ps_unmodified, ps_added, ps_updated,
  ps_maybe_deleted, ps_deleted,
}
use rzu.Auction.Complex.Status
use rzu.Auction.Complex.Status.{
  is_status, is_in_final_state, get_auction_diff_type, get_auction_process_status, create_from_dump,
  serialize,
}
use rzu.Auction.Complex.Writer.{
  DiffWriter, key, begin_process, export_dump, import_dump, imported, dumped,
}
use rzu.Auction.RoundTrip.Categories.{deserialize_header-serialize_header}
use rzu.Auction.RoundTrip.Order.{AllAbove, IsOrdered, add_all, add_all_lem}

-- What a new auction has from its arguments, whatever its data.
record IsMade (uid time_min time_max category epic : ℕ) (content : Bytes) (a : ComplexData)
    : Type 0 where
  pub same_uid : a.uid ≡ uid
  pub same_time_min : a.time_min ≡ time_min
  pub same_time_max : a.time_max ≡ time_max
  pub same_category : a.category ≡ category
  pub same_epic : a.raw_data_epic ≡ epic
  pub same_data : a.raw_data ≡ content
  pub same_status : a.process_status ≡ ps_added

module _ (uid time_min time_max category epic : ℕ) (content : Bytes) where
  abbrev Made : ComplexData → Type 0
  Made a = IsMade uid time_min time_max category epic content a

  Made-post_parse_data : (a : ComplexData) → Made a → Made (post_parse_data true a)
  unfolding post_parse_data narrow_end
  Made-post_parse_data a h = record {
    same_uid = ground (arith, h.same_uid);
    same_time_min = ground (arith, h.same_time_min);
    same_time_max = ground (arith, h.same_time_max);
    same_category = ground (arith, h.same_category);
    same_epic = ground (arith, h.same_epic);
    same_data = ground (arith, h.same_data);
    same_status = ground (arith, h.same_status);
  }

  if_Made :
      (b : Bool) (x y : ComplexData × Bool) → Made x.0 → Made y.0 → Made (if b then x else y).0
  if_Made true x y h k = h
  if_Made false x y h k = k

Made-parse_data :
    (uid time_min time_max category epic : ℕ) (content : Bytes)
    → Made uid time_min time_max category epic content
        (parse_data epic content (blank uid time_min time_max category epic)).0
unfolding parse_data store_end
Made-parse_data uid time_min time_max category epic [] = record {
  same_uid = refl;
  same_time_min = refl;
  same_time_max = refl;
  same_category = refl;
  same_epic = refl;
  same_data = refl;
  same_status = refl;
}
Made-parse_data uid time_min time_max category epic (c ∷ rest) =
    if_Made uid time_min time_max category epic (c ∷ rest) (is_valid epic (c ∷ rest)) _ _
      record {
        same_uid = refl;
        same_time_min = refl;
        same_time_max = refl;
        same_category = refl;
        same_epic = refl;
        same_data = refl;
        same_status = refl;
      }
      record {
        same_uid = refl;
        same_time_min = refl;
        same_time_max = refl;
        same_category = refl;
        same_epic = refl;
        same_data = refl;
        same_status = refl;
      }

Made-new_complex :
    (uid time_min time_max category epic : ℕ) (content : Bytes)
    → Made uid time_min time_max category epic content
        (new_complex uid time_min time_max category epic content)
unfolding new_complex
Made-new_complex uid time_min time_max category epic content =
    Made-post_parse_data uid time_min time_max category epic content _
      (Made-parse_data uid time_min time_max category epic content)

-- What the dump keeps of an auction: all but the data of the round before, and a status that says nothing.
abbrev kept_status : ProcessStatus → ProcessStatus
kept_status status = if is_status status ps_not_processed then ps_added else status

status_back :
    (status : ProcessStatus)
    → (if is_status (get_auction_process_status (get_auction_diff_type status)) ps_not_processed
        then ps_added
        else get_auction_process_status (get_auction_diff_type status))
      ≡ kept_status status
unfolding get_auction_process_status
status_back ps_not_processed = refl
status_back ps_unmodified = refl
status_back ps_added = refl
status_back ps_updated = refl
status_back ps_maybe_deleted = refl
status_back ps_deleted = refl

create_from_dump-serialize :
    (a : ComplexData)
    → a.deleted_count < 256
    → (old : DynamicData) × (create_from_dump (serialize true a)
        ≡ record a { old_dynamic_data = old; process_status = kept_status a.process_status })
unfolding create_from_dump serialize
create_from_dump-serialize a small =
    let made = Made-new_complex a.uid a.time_min a.time_max a.category a.raw_data_epic a.raw_data in
    let new = new_complex a.uid a.time_min a.time_max a.category a.raw_data_epic a.raw_data in
    let back = get_auction_process_status (get_auction_diff_type a.process_status) in
    let status =
      ap (λ s. if is_status back ps_not_processed then s else back) made.same_status
      ∙ status_back a.process_status in
    let count : a.deleted_count % 2 ^ 8 ≡ a.deleted_count = omega (arith, small) in
    (
      new.old_dynamic_data,
      λ i. record a {
        uid = made.same_uid i;
        category = made.same_category i;
        time_min = made.same_time_min i;
        time_max = made.same_time_max i;
        process_status = status i;
        deleted_count = count i;
        raw_data_epic = made.same_epic i;
        raw_data = made.same_data i;
        old_dynamic_data = new.old_dynamic_data;
      },
    )

-- A dump is as good as the auction for the next round.
module _ (a : ComplexData) (old : DynamicData) where
  abbrev dumped_one : ComplexData
  dumped_one = record a { old_dynamic_data = old; process_status = kept_status a.process_status }

  is_in_final_state_kept : is_in_final_state dumped_one ≡ is_in_final_state a
  is_in_final_state_kept = ground arith

  begin_process_kept :
      is_in_final_state a ≡ false → Status.begin_process dumped_one ≡ Status.begin_process a
  unfolding Status.begin_process
  begin_process_kept h = rw (is_in_final_state_kept, h) refl

-- Each auction of a list as it comes out of its dump.
abbrev from_dump : ComplexData → ComplexData
from_dump a = create_from_dump (serialize true a)

abbrev pub AllCounted : List ComplexData → Type 0
AllCounted [] = Unit
AllCounted (a ∷ rest) = (a.deleted_count < 256) × AllCounted rest

abbrev next_round : List ComplexData → List ComplexData
next_round l = begin_each is_in_final_state Status.begin_process l

next_round-from_dump :
    (l : List ComplexData) → AllCounted l → next_round (map from_dump l) ≡ next_round l
unfolding begin_each
next_round-from_dump [] h = refl
next_round-from_dump (a ∷ rest) h =
    let (old, e) = create_from_dump-serialize a h.0 in
    elim (Bool-cases (is_in_final_state a)) [
      | inl f ↦ rw (e, is_in_final_state_kept a old, f) (next_round-from_dump rest h.1)
      | inr f ↦
          rw
            (
              e,
              is_in_final_state_kept a old,
              f,
              begin_process_kept a old f,
              next_round-from_dump rest h.1,
            )
            refl
    ]

from_dump-AllAbove :
    (k : ℕ) (l : List ComplexData)
    → AllCounted l
    → AllAbove key k l
    → AllAbove key k (map from_dump l)
from_dump-AllAbove k [] c h = tt
from_dump-AllAbove k (a ∷ rest) c h =
    let (old, e) = create_from_dump-serialize a c.0 in
    (rw (e) h.0, from_dump-AllAbove k rest c.1 h.1)

from_dump-IsOrdered :
    (l : List ComplexData) → AllCounted l → IsOrdered key l → IsOrdered key (map from_dump l)
from_dump-IsOrdered [] c h = tt
from_dump-IsOrdered (a ∷ rest) c h =
    let (old, e) = create_from_dump-serialize a c.0 in
    (rw (e) (from_dump-AllAbove a.uid rest c.1 h.0), from_dump-IsOrdered rest c.1 h.1)

imported-dumped :
    (m : FlatMap ComplexData key) (l front : List ComplexData)
    → imported m (dumped true true l) front ≡ add_all key m (map from_dump l) front
unfolding imported dumped add_all
imported-dumped m [] front = refl
imported-dumped m (a ∷ rest) front = imported-dumped m rest _

header_back :
    (times : List CategoryTime)
    → deserialize_header (serialize_header dt_full (reset_category_time times))
      ≡ reset_category_time times
unfolding serialize_header
header_back times = deserialize_header-serialize_header dt_full (b'R' ∷ b'A' ∷ b'H' ∷ []) times

-- A writer that imports a full dump with data, made after the times were reset, of auctions in
-- the order of their uids that were each missing for fewer than 256 rounds, begins its next round
-- as the writer that made the dump, but for the diff mode, which is the importing writer's own.
pub begin_process-import_dump-export_dump :
    (m : FlatMap ComplexData key) (w z : DiffWriter) (times : List CategoryTime)
    → w.category_time_manager ≡ reset_category_time times
    → IsOrdered key w.auctions
    → AllCounted w.auctions
    → begin_process (import_dump m (export_dump true true w) z)
      ≡ record (begin_process w) { diff_mode = z.diff_mode }
unfolding begin_process import_dump export_dump
begin_process-import_dump-export_dump m w z times reset o c =
    let times_back : deserialize_header (serialize_header dt_full w.category_time_manager)
        ≡ w.category_time_manager =
      rw (reset) (header_back times) in
    let auctions_back =
      ap next_round (
        imported-dumped m w.auctions []
        ∙ add_all_lem key m (map from_dump w.auctions) (from_dump-IsOrdered w.auctions c o))
      ∙ next_round-from_dump w.auctions c in
    λ i. record {
      category_time_manager = times_back i;
      auctions = auctions_back i;
      diff_mode = z.diff_mode;
    }
