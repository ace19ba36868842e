-- ===== src/Net/Encodings/RoundTrip.antt =====
-- What is encoded is decoded as it was.
use rzu.Prelude.{
  ℕ, zero, suc, ◌+◌, ◌-◌, ◌*◌, ◌/◌, ◌%◌, ◌^◌, ◌<◌, ◌≡◌, refl, sym, ap, ◌∙◌, Bool, true, false, not,
  ◌&&◌, ◌||◌, List, ltb, ◌==◌, if◌then◌else◌, replicate, length, get_or, arith, Bool-cases, inl,
  inr,
}
use rzu.Net.Encodings.{
  SerializedValue, serialize, deserialize, serialize_scrambled, deserialize_scrambled, exchanged,
  inverted, encode_map, decode_map, encode, decode, scramble,
}
use rzu.Net.Encodings.Bits.{
  value, bits, spread, hits, value-bits, length-bits, length-spread, get_or-spread, hits_one,
  extensional, scramble-value, value-lt,
}

-- A test of all numbers below a bound.
abbrev all_below : ℕ → (ℕ → Bool) → Bool
all_below zero p = true
all_below (suc n) p = p n && all_below n p

below : (n : ℕ) (p : ℕ → Bool) → all_below n p ≡ true → (t : ℕ) → t < n → p t ≡ true
below zero p e t h = absurd (omega (arith, h))
below (suc n) p e t h = elim (Bool-cases (t == n)) [
  | inl s ↦ let eq : t ≡ n = ground (arith, s) in rw (eq) ground (arith, e)
  | inr s ↦ below n p (ground (arith, e)) t (ground (arith, s, h))
]

abbrev same : Bool → Bool → Bool
same a b = if a then b else not b

same_eq : (a b : Bool) → same a b ≡ true → a ≡ b
same_eq true b h = sym h
same_eq false true h = h
same_eq false false h = refl

-- One map is the inverse of the other.
abbrev IsInverse : List ℕ → List ℕ → Type 0
IsInverse m w = (k t : ℕ) → k < 32 → t < 32 → (get_or m t 0 == k) ≡ (t == get_or w k 0)

abbrev inverse_test : List ℕ → List ℕ → Bool
inverse_test m w =
    all_below 32 (λ k. all_below 32 (λ t. same (get_or m t 0 == k) (t == get_or w k 0)))

inverse_lem : (m w : List ℕ) → inverse_test m w ≡ true → IsInverse m w
inverse_lem m w e k t h j = same_eq (get_or m t 0 == k) (t == get_or w k 0) (
    below 32 (λ u. same (get_or m u 0 == k) (u == get_or w k 0))
      (below 32 (λ i. all_below 32 (λ u. same (get_or m u 0 == i) (u == get_or w i 0))) e k h) t j)

ltb_lem : (m n : ℕ) → ltb m n ≡ true → m < n
ltb_lem m n h = ground arith

abbrev range_test : List ℕ → Bool
range_test m = all_below 32 (λ t. ltb (get_or m t 0) 32)

range_lem : (m : List ℕ) → range_test m ≡ true → (t : ℕ) → t < 32 → get_or m t 0 < 32
range_lem m e t h = ltb_lem (get_or m t 0) 32 (below 32 (λ u. ltb (get_or m u 0) 32) e t h)

encode_map-IsInverse : IsInverse encode_map decode_map
unfolding encode_map decode_map exchanged inverted
encode_map-IsInverse = inverse_lem encode_map decode_map refl

decode_map-IsInverse : IsInverse decode_map encode_map
unfolding encode_map decode_map exchanged inverted
decode_map-IsInverse = inverse_lem decode_map encode_map refl

encode_map_range : (t : ℕ) → t < 32 → get_or encode_map t 0 < 32
unfolding encode_map exchanged
encode_map_range = range_lem encode_map refl

decode_map_range : (t : ℕ) → t < 32 → get_or decode_map t 0 < 32
unfolding encode_map decode_map exchanged inverted
decode_map_range = range_lem decode_map refl

abbrev zeros : List Bool
zeros = replicate 32 false

zeros_lem : (n k : ℕ) → get_or (replicate n false) k false ≡ false
zeros_lem zero k = refl
zeros_lem (suc n) zero = refl
zeros_lem (suc n) (suc k) = zeros_lem n k

or_none : (b : Bool) → (b || false) ≡ b
or_none true = refl
or_none false = refl

-- A bit of the result is the bit of the argument that the inverse map names.
get_or-spread_inverse :
    (m w : List ℕ) (k : ℕ) (l : List Bool)
    → length l ≡ 32
    → k < 32
    → IsInverse m w
    → get_or w k 0 < 32
    → get_or (spread m 0 l zeros) k false ≡ get_or l (get_or w k 0) false
get_or-spread_inverse m w k l e h f j =
    get_or-spread k m 0 l zeros h
    ∙ (ap (λ c. hits k m 0 l || c) (zeros_lem 32 k)
        ∙ (or_none (hits k m 0 l)
            ∙ hits_one k m 0 (get_or w k 0) l (omega (arith, e, j)) (omega (arith, e))
                (λ t i. f k t h i ∙ ap (λ u. t == u) (omega arith))))

-- The second map takes back what the first one does.
spread_back :
    (m w : List ℕ) (l : List Bool)
    → length l ≡ 32
    → IsInverse m w
    → IsInverse w m
    → ((t : ℕ) → t < 32 → get_or m t 0 < 32)
    → ((t : ℕ) → t < 32 → get_or w t 0 < 32)
    → spread w 0 (spread m 0 l zeros) zeros ≡ l
spread_back m w l e f g h j =
    let moved = spread m 0 l zeros in
    extensional (spread w 0 moved zeros) l (length-spread w 0 moved zeros ∙ sym e) (λ k n.
      let fits : k < 32 = omega (arith, n, e) in
      let there = get_or m k 0 in
      let back : get_or w there 0 ≡ k = ground (arith, g k there fits (h k fits)) in
      get_or-spread_inverse w m k moved (length-spread m 0 l zeros) fits g (h k fits)
      ∙ (get_or-spread_inverse m w there l e (h k fits) f (j there (h k fits))
          ∙ ap (λ i. get_or l i false) back))

scramble_back : (l : List Bool) → length l ≡ 32 → decode (encode (value l)) ≡ value l
unfolding encode decode
scramble_back l e =
    let moved = spread encode_map 0 l zeros in
    ap (λ v. scramble decode_map 32 0 v 0)
      (scramble-value encode_map 32 0 l zeros e (omega arith) encode_map_range)
    ∙ (scramble-value decode_map 32 0 moved zeros (length-spread encode_map 0 l zeros) (omega arith)
          decode_map_range
        ∙ ap value (
            spread_back encode_map decode_map l e encode_map-IsInverse decode_map-IsInverse
              encode_map_range decode_map_range))

decode-encode : (v : ℕ) → v < 2 ^ 32 → decode (encode v) ≡ v
decode-encode v h = rw⁻¹ (value-bits 32 v h) (scramble_back (bits 32 v) (length-bits 32 v))

scramble_bound : (l : List Bool) → length l ≡ 32 → encode (value l) < 2 ^ 32
unfolding encode
scramble_bound l e =
    rw (scramble-value encode_map 32 0 l zeros e (omega arith) encode_map_range)
      (value-lt 32 (spread encode_map 0 l zeros) (length-spread encode_map 0 l zeros))

encode_bound : (v : ℕ) → v < 2 ^ 32 → encode v < 2 ^ 32
encode_bound v h = rw⁻¹ (value-bits 32 v h) (scramble_bound (bits 32 v) (length-bits 32 v))

-- What a peer may write for a value, with two random parts.
abbrev pub randomized : ℕ → ℕ → ℕ → SerializedValue
randomized random0 random2 v = record {
  part0 = random0;
  part1 = (v / 65536 + 2 * random2 + 131072 - 2 * random0) % 65536;
  part2 = random2;
  part3 = (v % 65536 + 262144 - 2 * (random2 + random0)) % 65536;
}

high_lem :
    (a x y : ℕ)
    → a < 65536
    → x < 65536
    → y < 65536
    → ((a + 2 * y + 131072 - 2 * x) % 65536 + 2 * x + 131072 - 2 * y) % 65536 ≡ a
high_lem a x y h j n = omega arith

low_lem :
    (a x y : ℕ)
    → a < 65536
    → x < 65536
    → y < 65536
    → ((a + 262144 - 2 * (y + x)) % 65536 + 2 * (y + x)) % 65536 ≡ a
low_lem a x y h j n = omega arith

deserialize-randomized :
    (random0 random2 v : ℕ)
    → random0 < 65536
    → random2 < 65536
    → v < 2 ^ 32
    → deserialize (randomized random0 random2 v) ≡ v
unfolding deserialize
deserialize-randomized random0 random2 v h j n = omega (
  arith,
  high_lem (v / 65536) random0 random2 (omega arith) h j,
  low_lem (v % 65536) random0 random2 (omega arith) h j,
)

deserialize-serialize : (v : ℕ) → v < 2 ^ 32 → deserialize (serialize v) ≡ v
unfolding deserialize serialize
deserialize-serialize v n = omega arith

-- What is written in the scrambled encoding is read as the same integer of 32 bits; also if a
-- peer fills the two parts that are written as zero with any numbers of 16 bits, and takes them
-- into account in the other two.
pub deserialize_scrambled-serialize_scrambled :
    (random0 random2 value : ℕ)
    → random0 < 65536
    → random2 < 65536
    → value < 2 ^ 32
    → (deserialize_scrambled (serialize_scrambled value) ≡ value)
      × (deserialize_scrambled (randomized random0 random2 (encode value)) ≡ value)
unfolding serialize_scrambled deserialize_scrambled
deserialize_scrambled-serialize_scrambled random0 random2 value h j n = (
  ap decode (deserialize-serialize (encode value) (encode_bound value n)) ∙ decode-encode value n,
  ap decode (deserialize-randomized random0 random2 (encode value) h j (encode_bound value n))
      ∙ decode-encode value n,
)
