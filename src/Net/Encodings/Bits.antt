-- ===== src/Net/Encodings/Bits.antt =====
-- Integers as lists of bits, the lowest first.
use rzu.Prelude.{
  ℕ, zero, suc, ◌+◌, ◌*◌, ◌/◌, ◌%◌, ◌^◌, ◌<◌, ◌≡◌, refl, ap, ◌∙◌, Bool, true, false, ◌||◌, List, [],
  ◌∷◌, ◌==◌, if◌then◌else◌, length, set, get_or, ◌≤◌, ◌&&◌, arith, Bool-cases, inl, inr,
}
use rzu.Net.Encodings.{test_bit, set_bit, scramble}

abbrev pub digit : Bool → ℕ
digit b = if b then 1 else 0

abbrev pub value : List Bool → ℕ
value [] = 0
value (b ∷ rest) = digit b + 2 * value rest

abbrev pub bits : ℕ → ℕ → List Bool
bits zero v = []
bits (suc n) v = (v % 2 == 1) ∷ bits n (v / 2)

-- The loop of a scramble, on bits.
abbrev pub spread : List ℕ → ℕ → List Bool → List Bool → List Bool
spread m i [] r = r
spread m i (b ∷ rest) r = spread m (suc i) rest (if b then set r (get_or m i 0) true else r)

pub value-bits : (n v : ℕ) → v < 2 ^ n → value (bits n v) ≡ v
value-bits zero v h = omega arith
value-bits (suc n) v h = ground (arith, value-bits n (v / 2) (omega arith))

half : (b : Bool) (v : ℕ) → (digit b + 2 * v) / 2 ≡ v
half true v = omega arith
half false v = omega arith

low : (b : Bool) (v : ℕ) → ((digit b + 2 * v) % 2 == 1) ≡ b
low true v = ground arith
low false v = ground arith

pub set_bit-value :
    (j : ℕ) (l : List Bool) → j < length l → set_bit j (value l) ≡ value (set l j true)
set_bit-value j [] h = absurd (omega arith)
set_bit-value zero (true ∷ rest) h = ground (arith, low true (value rest))
set_bit-value zero (false ∷ rest) h = ground (arith, low false (value rest))
set_bit-value (suc j) (b ∷ rest) h =
    let ih = set_bit-value j rest (omega arith) in
    rw (half b (value rest)) (elim (Bool-cases (test_bit j (value rest))) [
      | inl e ↦ ground (arith, ih, e)
      | inr e ↦ ground (arith, ih, e)
    ])

length-set : (r : List Bool) (j : ℕ) → length (set r j true) ≡ length r
length-set [] j = refl
length-set (b ∷ r) zero = refl
length-set (b ∷ r) (suc j) = omega (arith, length-set r j)

pub length-spread : (m : List ℕ) (i : ℕ) (l r : List Bool) → length (spread m i l r) ≡ length r
length-spread m i [] r = refl
length-spread m i (true ∷ l) r =
    length-spread m (suc i) l (set r (get_or m i 0) true) ∙ length-set r (get_or m i 0)
length-spread m i (false ∷ l) r = length-spread m (suc i) l r

same_suc : (j k : ℕ) → (j == k) ≡ (suc j == suc k)
same_suc j k = ground arith

or_here : (x h g : Bool) → (h || (x || g)) ≡ ((x && true || h) || g)
or_here true true g = refl
or_here true false g = refl
or_here false h g = ground arith

or_not : (x h g : Bool) → (h || g) ≡ ((x && false || h) || g)
or_not true h g = refl
or_not false h g = refl

or_none : (b : Bool) → (b || false) ≡ b
or_none true = refl
or_none false = refl

get_or-set :
    (r : List Bool) (j k : ℕ)
    → k < length r
    → get_or (set r j true) k false ≡ (j == k || get_or r k false)
get_or-set [] j k h = absurd (omega arith)
get_or-set (b ∷ r) zero zero h = refl
get_or-set (b ∷ r) zero (suc k) h = ground arith
get_or-set (b ∷ r) (suc j) zero h = ground arith
get_or-set (b ∷ r) (suc j) (suc k) h =
    get_or-set r j k (omega arith) ∙ ap (λ c. c || get_or r k false) (same_suc j k)

abbrev pub hits : ℕ → List ℕ → ℕ → List Bool → Bool
hits k m i [] = false
hits k m i (b ∷ l) = (get_or m i 0 == k && b) || hits k m (suc i) l

pub get_or-spread :
    (k : ℕ) (m : List ℕ) (i : ℕ) (l r : List Bool)
    → k < length r
    → get_or (spread m i l r) k false ≡ (hits k m i l || get_or r k false)
get_or-spread k m i [] r h = refl
get_or-spread k m i (true ∷ l) r h =
    get_or-spread k m (suc i) l (set r (get_or m i 0) true)
      (omega (arith, length-set r (get_or m i 0)))
    ∙ (ap (λ c. hits k m (suc i) l || c) (get_or-set r (get_or m i 0) k h)
        ∙ or_here (get_or m i 0 == k) (hits k m (suc i) l) (get_or r k false))
get_or-spread k m i (false ∷ l) r h =
    get_or-spread k m (suc i) l r h
    ∙ or_not (get_or m i 0 == k) (hits k m (suc i) l) (get_or r k false)

hits_none :
    (k : ℕ) (m : List ℕ) (i c : ℕ) (l : List Bool)
    → c < i
    → i + length l ≤ 32
    → ((t : ℕ) → t < 32 → (get_or m t 0 == k) ≡ (t == c))
    → hits k m i l ≡ false
hits_none k m i c [] h n f = refl
hits_none k m i c (b ∷ l) h n f =
    let no : (get_or m i 0 == k) ≡ false = f i (omega arith) ∙ ground arith in
    rw (no) (hits_none k m (suc i) c l (omega arith) (omega arith) f)

pub hits_one :
    (k : ℕ) (m : List ℕ) (i d : ℕ) (l : List Bool)
    → d < length l
    → i + length l ≤ 32
    → ((t : ℕ) → t < 32 → (get_or m t 0 == k) ≡ (t == i + d))
    → hits k m i l ≡ get_or l d false
hits_one k m i d [] h n f = absurd (omega arith)
hits_one k m i zero (b ∷ l) h n f =
    let yes : (get_or m i 0 == k) ≡ true = f i (omega arith) ∙ ground arith in
    rw (yes, hits_none k m (suc i) (i + 0) l (omega arith) (omega arith) f) (or_none b)
hits_one k m i (suc d) (b ∷ l) h n f =
    let no : (get_or m i 0 == k) ≡ false = f i (omega arith) ∙ ground arith in
    rw (no) (
      hits_one k m (suc i) d l (omega arith) (omega arith)
        (λ t j. f t j ∙ ap (λ u. t == u) (omega arith)))

pub extensional :
    (l r : List Bool)
    → length l ≡ length r
    → ((k : ℕ) → k < length r → get_or l k false ≡ get_or r k false)
    → l ≡ r
extensional [] [] n f = refl
extensional [] (b ∷ r) n f = absurd (omega (arith, n))
extensional (a ∷ l) [] n f = absurd (omega (arith, n))
extensional (a ∷ l) (b ∷ r) n f =
    rw (f 0 (omega arith), extensional l r (omega (arith, n)) (λ k h. f (suc k) (omega arith))) refl

pub length-bits : (n v : ℕ) → length (bits n v) ≡ n
length-bits zero v = refl
length-bits (suc n) v = omega (arith, length-bits n (v / 2))

pub scramble-value :
    (m : List ℕ) (n i : ℕ) (l r : List Bool)
    → length l ≡ n
    → i + n ≤ 32
    → ((t : ℕ) → t < 32 → get_or m t 0 < length r)
    → scramble m n i (value l) (value r) ≡ value (spread m i l r)
unfolding scramble
scramble-value m zero i [] r e h f = refl
scramble-value m zero i (b ∷ l) r e h f = absurd (omega (arith, e))
scramble-value m (suc n) i [] r e h f = absurd (omega (arith, e))
scramble-value m (suc n) i (true ∷ l) r e h f =
    rw (low true (value l), half true (value l), set_bit-value (get_or m i 0) r (f i (omega arith)))
      (scramble-value m n (suc i) l (set r (get_or m i 0) true) (omega (arith, e)) (omega arith)
        (λ t j. omega (arith, f t j, length-set r (get_or m i 0))))
scramble-value m (suc n) i (false ∷ l) r e h f =
    rw (low false (value l), half false (value l))
      (scramble-value m n (suc i) l r (omega (arith, e)) (omega arith) f)

pub value-lt : (n : ℕ) (l : List Bool) → length l ≡ n → value l < 2 ^ n
value-lt zero [] e = omega arith
value-lt zero (b ∷ l) e = absurd (omega (arith, e))
value-lt (suc n) [] e = absurd (omega (arith, e))
value-lt (suc n) (true ∷ l) e = omega (arith, value-lt n l (omega (arith, e)))
value-lt (suc n) (false ∷ l) e = omega (arith, value-lt n l (omega (arith, e)))
