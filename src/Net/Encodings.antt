-- ===== src/Net/Encodings.antt =====
-- librzu/src/lib/Packet: EncodingScrambled and EncodingRandomized, which write an integer of 32 bits.
pub mod Bits
pub mod RoundTrip
use rzu.Prelude.{
  ℕ, zero, suc, ◌+◌, ◌-◌, ◌*◌, ◌/◌, ◌%◌, ◌^◌, Bool, true, false, List, [], ◌∷◌, ◌==◌, if◌then◌else◌,
  replicate, set, get_or,
}

abbrev pub counted : ℕ → ℕ → List ℕ
counted zero i = []
counted (suc n) i = i ∷ counted n (suc i)

-- The loop of `init` that exchanges two elements, for so many rounds.
unfoldable pub exchanged : ℕ → ℕ → ℕ → List ℕ → List ℕ
exchanged zero i j m = m
exchanged (suc n) i j m =
    exchanged n (suc i) ((j + i + 3) % 32) (set (set m i (get_or m j 0)) j (get_or m i 0))

unfoldable pub encode_map : List ℕ
unfolding exchanged
encode_map = exchanged 32 0 3 (counted 32 0)

-- The loop of `init` that inverts the map.
unfoldable pub inverted : ℕ → ℕ → List ℕ → List ℕ → List ℕ
inverted zero i m d = d
inverted (suc n) i m d = inverted n (suc i) m (set d (get_or m i 0) i)

unfoldable pub decode_map : List ℕ
unfolding inverted encode_map
decode_map = inverted 32 0 encode_map (replicate 32 0)

-- `(r >> j) & 1`, and `r |= 1 << j`.
abbrev pub test_bit : ℕ → ℕ → Bool
test_bit zero r = r % 2 == 1
test_bit (suc j) r = test_bit j (r / 2)

abbrev pub set_bit : ℕ → ℕ → ℕ
set_bit j r = if test_bit j r then r else r + 2 ^ j

-- The loop of `encode` and of `decode`, for so many rounds.
unfoldable pub scramble : List ℕ → ℕ → ℕ → ℕ → ℕ → ℕ
scramble m zero i v r = r
scramble m (suc n) i v r =
    scramble m n (suc i) (v / 2) (if v % 2 == 1 then set_bit (get_or m i 0) r else r)

unfoldable pub encode : ℕ → ℕ
unfolding scramble encode_map
encode v = scramble encode_map 32 0 v 0

unfoldable pub decode : ℕ → ℕ
unfolding scramble decode_map
decode v = scramble decode_map 32 0 v 0

-- The four parts of a `SerializedValue`, of 16 bits each.
pub record SerializedValue : Type 0 where
  pub part0 : ℕ
  pub part1 : ℕ
  pub part2 : ℕ
  pub part3 : ℕ

unfoldable pub serialize : ℕ → SerializedValue
serialize value = record {
  part0 = 0;
  part1 = value / 65536 % 65536;
  part2 = 0;
  part3 = value % 65536;
}

-- The two sums wrap to 16 bits; 131072 keeps the first from going below zero.
unfoldable pub deserialize : SerializedValue → ℕ
deserialize sv =
    (sv.part1 + 2 * sv.part0 + 131072 - 2 * sv.part2) % 65536 * 65536
    + (sv.part3 + 2 * (sv.part2 + sv.part0)) % 65536

-- `EncodingScrambled::serialize` and `deserialize`.
unfoldable pub serialize_scrambled : ℕ → SerializedValue
unfolding serialize encode
serialize_scrambled value = serialize (encode value)

unfoldable pub deserialize_scrambled : SerializedValue → ℕ
unfolding deserialize decode
deserialize_scrambled sv = decode (deserialize sv)
