-- ===== src/Prelude/Keyed.antt =====
-- `std::unordered_map` and the heap of live objects: association lists with distinct keys.
use Prim.Native.Nat.{ℕ, ◌+◌}
use mathlib.Core.Path.{◌≡◌, refl}
use mathlib.Core.Logic.{ite}
use mathlib.Core.Bool.{Bool, true, false}
use mathlib.Core.Option
use mathlib.Core.Option.{Option, none, some}
use mathlib.Core.List.{List, [], ◌∷◌}
use native.Mathlib.Omega.{arith}
use native.Mathlib.Decide.{ℕ_discrete}

-- Keys that can be compared.
pub record Key {ℓ} (K : Type ℓ) : Type ℓ where
  pub same : Discrete K

instance abbrev pub number_key : Key ℕ
number_key = record { same = ℕ_discrete }

unfoldable pub bytes_discrete : Discrete (List ℕ)
bytes_discrete = hlevel ℕ_discrete

instance abbrev pub bytes_key : Key (List ℕ)
bytes_key = record { same = bytes_discrete }

abbrev pub Map {ℓ} : Type ℓ → Type ℓ → Type ℓ
Map K V = List (K × V)

-- 1 for true, 0 for false.
abbrev pub bit : Bool → ℕ
bit true = 1
bit false = 0

module _ {ℓ} {K V : Type ℓ} ⦃key : Key K⦄ where
  unfoldable pub lookup : K → Map K V → Option V
  lookup k [] = none
  lookup k ((j, v) ∷ m) = ite (key.same j k) (some v) (lookup k m)

  unfoldable pub erase : K → Map K V → Map K V
  erase k [] = []
  erase k ((j, v) ∷ m) = ite (key.same j k) (erase k m) ((j, v) ∷ erase k m)

  unfoldable pub put : K → V → Map K V → Map K V
  unfolding erase
  put k v m = (k, v) ∷ erase k m

  -- A write through a pointer to the value at `k`.
  unfoldable pub adjust : K → (V → V) → Map K V → Map K V
  adjust k f [] = []
  adjust k f ((j, v) ∷ m) = ite (key.same j k) ((j, f v) ∷ adjust k f m) ((j, v) ∷ adjust k f m)

  abbrev pub IsUnique : Map K V → Type ℓ
  IsUnique [] = Unit
  IsUnique ((k, v) ∷ m) = (lookup k m ≡ none) × IsUnique m

  pub lookup-erase :
      (k j : K) (m : Map K V) → lookup j (erase k m) ≡ ite (key.same k j) none (lookup j m)
  unfolding lookup erase
  lookup-erase k j [] = ground arith
  lookup-erase k j ((i, v) ∷ m) = ground (arith, lookup-erase k j m)

  pub lookup-put :
      (k j : K) (v : V) (m : Map K V)
      → lookup j (put k v m) ≡ ite (key.same k j) (some v) (lookup j m)
  unfolding lookup put
  lookup-put k j v m = ground (arith, lookup-erase k j m)

  pub lookup-put_self : (k : K) (v : V) (m : Map K V) → lookup k (put k v m) ≡ some v
  lookup-put_self k v m = ground (arith, lookup-put k k v m)

  pub lookup-adjust :
      (k j : K) (f : V → V) (m : Map K V)
      → lookup j (adjust k f m) ≡ ite (key.same k j) (Option.map f (lookup j m)) (lookup j m)
  unfolding lookup adjust
  lookup-adjust k j f [] = ground arith
  lookup-adjust k j f ((i, v) ∷ m) = ground (arith, lookup-adjust k j f m)

  pub IsUnique-erase : (k : K) (m : Map K V) → IsUnique m → IsUnique (erase k m)
  unfolding erase
  IsUnique-erase k [] u = tt
  IsUnique-erase k ((j, v) ∷ m) u = ground (arith, IsUnique-erase k m u.1, lookup-erase k j m)

  pub IsUnique-put : (k : K) (v : V) (m : Map K V) → IsUnique m → IsUnique (put k v m)
  unfolding put
  IsUnique-put k v m u = (ground (arith, lookup-erase k k m), IsUnique-erase k m u)

  pub IsUnique-adjust : (k : K) (f : V → V) (m : Map K V) → IsUnique m → IsUnique (adjust k f m)
  unfolding adjust
  IsUnique-adjust k f [] u = tt
  IsUnique-adjust k f ((j, v) ∷ m) u =
      ground (arith, IsUnique-adjust k f m u.1, lookup-adjust k j f m)

  pub erase-eq_self : (k : K) (m : Map K V) → lookup k m ≡ none → erase k m ≡ m
  unfolding lookup erase
  erase-eq_self k [] h = refl
  erase-eq_self k ((j, v) ∷ m) h = ground (arith, erase-eq_self k m)

  -- How many values pass a test.
  unfoldable pub count : (V → Bool) → Map K V → ℕ
  count p [] = 0
  count p ((k, v) ∷ m) = bit (p v) + count p m

  pub count-erase :
      (p : V → Bool) (k : K) (v : V) (m : Map K V)
      → IsUnique m
      → lookup k m ≡ some v
      → count p (erase k m) + bit (p v) ≡ count p m
  unfolding lookup erase count
  count-erase p k v [] u h = cc
  count-erase p k v ((j, w) ∷ m) u h = ground (arith, count-erase p k v m u.1, erase-eq_self k m)

  pub count-put :
      (p : V → Bool) (k : K) (v : V) (m : Map K V)
      → lookup k m ≡ none
      → count p (put k v m) ≡ bit (p v) + count p m
  unfolding put count
  count-put p k v m h = rw (erase-eq_self k m h)

  adjust-eq_self : (k : K) (f : V → V) (m : Map K V) → lookup k m ≡ none → adjust k f m ≡ m
  unfolding lookup adjust
  adjust-eq_self k f [] h = refl
  adjust-eq_self k f ((j, v) ∷ m) h = ground (arith, adjust-eq_self k f m)

  -- A write to a new value.
  pub adjust-put :
      (k : K) (f : V → V) (v : V) (m : Map K V)
      → lookup k m ≡ none
      → adjust k f (put k v m) ≡ put k (f v) m
  unfolding put adjust
  adjust-put k f v m h = ground (arith, erase-eq_self k m h, adjust-eq_self k f m h)

  pub count-adjust :
      (p : V → Bool) (k : K) (f : V → V) (v : V) (m : Map K V)
      → IsUnique m
      → lookup k m ≡ some v
      → count p (adjust k f m) + bit (p v) ≡ count p m + bit (p (f v))
  unfolding lookup adjust count
  count-adjust p k f v [] u h = cc
  count-adjust p k f v ((j, w) ∷ m) u h =
      ground (arith, count-adjust p k f v m u.1, adjust-eq_self k f m)

  pub count-eq_zero :
      (p : V → Bool) (m : Map K V)
      → IsUnique m
      → ((k : K) (v : V) → lookup k m ≡ some v → p v ≡ false)
      → count p m ≡ 0
  unfolding lookup count
  count-eq_zero p [] u h = refl
  count-eq_zero p ((j, v) ∷ m) u h =
      ground (arith, h j v, count-eq_zero p m u.1 (λ k w e. h k w (ground (arith, u.0))))

  abbrev pub AllEntries : (K → V → Type 0) → Map K V → Type 0
  AllEntries P [] = Unit
  AllEntries P ((k, v) ∷ m) = P k v × AllEntries P m

  pub AllEntries-of_lookup :
      (P : K → V → Type 0) (m : Map K V)
      → IsUnique m
      → ((k : K) (v : V) → lookup k m ≡ some v → P k v)
      → AllEntries P m
  unfolding lookup
  AllEntries-of_lookup P [] u h = tt
  AllEntries-of_lookup P ((j, v) ∷ m) u h =
      (h j v (ground arith), AllEntries-of_lookup P m u.1 (λ k w e. h k w (ground (arith, u.0))))
