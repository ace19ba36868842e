-- ===== src/Auction/RoundTrip/Categories.antt =====
-- The times of the categories in a dump.
use rzu.Prelude.{ℕ, ◌≡◌, refl, ◌∙◌, ap, List, [], ◌∷◌, Bytes, map}
use rzu.Auction.Categories.{
  CategoryTime, DumpType, info_of, time_of, reset_times, last_end_from, get_last_end_category_time,
  reset_category_time, serialize_header, deserialize_header,
}

abbrev read_back : List CategoryTime → List CategoryTime
read_back times = map time_of (map info_of times)

read_back_last :
    (last : ℕ) (times : List CategoryTime) (most : ℕ)
    → last_end_from most (read_back (map (reset_times last) times)) ≡ last_end_from most times
unfolding last_end_from
read_back_last last [] most = refl
read_back_last last (c ∷ rest) most = read_back_last last rest _

read_back_reset :
    (last : ℕ) (times : List CategoryTime)
    → map (reset_times last) (read_back (map (reset_times last) times))
      ≡ map (reset_times last) times
read_back_reset last [] = refl
read_back_reset last (c ∷ rest) = ap (λ l. reset_times last c ∷ l) (read_back_reset last rest)

-- After a reset the header holds all there is.
pub deserialize_header-serialize_header :
    (dump_type : DumpType) (signature : Bytes) (times : List CategoryTime)
    → deserialize_header
        (record (serialize_header dump_type (reset_category_time times)) { signature = signature })
      ≡ reset_category_time times
unfolding deserialize_header serialize_header reset_category_time
deserialize_header-serialize_header dump_type signature times =
    let last = get_last_end_category_time times in
    ap (λ n. map (reset_times n) (read_back (map (reset_times last) times)))
      (read_back_last last times 0)
    ∙ read_back_reset last times
