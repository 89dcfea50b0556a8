-- ===== src/Base/Indices.antt =====
-- Ranges of indices, and reads within bounds.
use Prim.Native.Nat.{ℕ, zero, suc, ◌+◌, ◌≤◌, ◌<◌}
use mathlib.Core.Path.{◌≡◌, refl, ap, subst}
use mathlib.Core.Logic.{◌≢◌, inl, inr}
use mathlib.Core.List.{List, [], ◌∷◌, map}
use mathlib.Core.Option.{some}
use native.Mathlib.Omega.{arith}
use zkas_pool.Base.Tests.{leb, Bool-cases}
use zkas_pool.Base.Lists.{length, get_elem?, set, range_from, All}

pub get_elem?-lt {ℓ} :
    {A : Type ℓ} (xs : List A) (i : ℕ) → i < length xs → (a : A) × (get_elem? xs i ≡ some a)
get_elem?-lt [] i h = elim h [ ]
get_elem?-lt (x ∷ xs) zero h = (x, refl)
get_elem?-lt (x ∷ xs) (suc i) h = get_elem?-lt xs i (omega arith)

pub range_from-length : (k n : ℕ) → length (range_from k n) ≡ n
range_from-length k zero = refl
range_from-length k (suc n) = omega (arith, range_from-length (suc k) n)

pub range_from-lt : (k n m : ℕ) → k + n ≤ m → All (λ i. i < m) (range_from k n)
range_from-lt k zero m h = tt
range_from-lt k (suc n) m h = (omega arith, range_from-lt (suc k) n m (omega arith))

-- What holds of a range holds of each of its numbers.
pub All-range_from {κ} :
    (P : ℕ → Type κ) (k n i : ℕ) → All P (range_from k n) → k ≤ i → i < k + n → P i
All-range_from P k zero i h a b = absurd (omega arith)
All-range_from P k (suc n) i h a b = elim (Bool-cases (leb i k)) [
  | inl e ↦ let q : k ≡ i = ground arith in subst P q h.0
  | inr e ↦ All-range_from P (suc k) n i h.1 (ground arith) (omega arith)
]

pub cons_of_length {ℓ} :
    {A : Type ℓ} (xs : List A) → 0 < length xs → (x : A) × (ys : List A) × (xs ≡ x ∷ ys)
cons_of_length [] h = elim h [ ]
cons_of_length (x ∷ xs) h = (x, xs, refl)

pub length-map {ℓ κ} :
    {A : Type ℓ} {B : Type κ} (f : A → B) (xs : List A) → length (map f xs) ≡ length xs
length-map f [] = refl
length-map f (x ∷ xs) = ap suc (length-map f xs)

pub get_elem?-set_ne {ℓ} :
    {A : Type ℓ} (xs : List A) (i j : ℕ) (v : A) → i ≢ j → get_elem? (set xs j v) i ≡ get_elem? xs i
get_elem?-set_ne [] i j v h = refl
get_elem?-set_ne (x ∷ xs) zero zero v h = absurd (h refl)
get_elem?-set_ne (x ∷ xs) zero (suc j) v h = refl
get_elem?-set_ne (x ∷ xs) (suc i) zero v h = refl
get_elem?-set_ne (x ∷ xs) (suc i) (suc j) v h = get_elem?-set_ne xs i j v (λ e. h (ap suc e))
