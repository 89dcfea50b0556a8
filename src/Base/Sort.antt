-- ===== src/Base/Sort.antt =====
-- `slice::sort_by` and `sort_by_key`: stable sorts, as insertion sort by a test `le`.
use Prim.Native.Nat.{ℕ, ◌+◌, ◌≤◌}
use mathlib.Core.Path.{◌≡◌, refl}
use mathlib.Core.Bool.{Bool, true, false}
use mathlib.Core.List.{List, [], ◌∷◌, Perm}
use mathlib.Core.List.Perm
use native.Mathlib.Omega.{arith}
use mathlib.Core.Logic.{inl, inr}
use zkas_pool.Base.Tests.{leb, leb→le, Bool-cases}
use zkas_pool.Base.Lists.{length, sum_by, All}

module _ {ℓ} {A : Type ℓ} (le : A → A → Bool) where
  unfoldable pub insert_by : A → List A → List A
  insert_by x [] = x ∷ []
  insert_by x (y ∷ ys) = elim (le x y) [ true ↦ x ∷ y ∷ ys | false ↦ y ∷ insert_by x ys ]

  unfoldable pub sort_by : List A → List A
  unfolding insert_by
  sort_by [] = []
  sort_by (x ∷ xs) = insert_by x (sort_by xs)

  insert_by-perm : (x : A) (xs : List A) → Perm (insert_by x xs) (x ∷ xs)
  unfolding insert_by
  insert_by-perm x [] = Perm.refl _
  insert_by-perm x (y ∷ ys) = split (insert_by-perm x ys) (le x y)
    where
      split :
          Perm (insert_by x ys) (x ∷ ys)
          → (b : Bool)
          → Perm (elim b [ true ↦ x ∷ y ∷ ys | false ↦ y ∷ insert_by x ys ]) (x ∷ y ∷ ys)
      split ih true = Perm.refl _
      split ih false = Perm.trans (Perm.cons y ih) (Perm.swap x y ys)

  -- A sort rearranges.
  pub sort_by-perm : (xs : List A) → Perm (sort_by xs) xs
  unfolding sort_by
  sort_by-perm [] = Perm.refl _
  sort_by-perm (x ∷ xs) = Perm.trans (insert_by-perm x (sort_by xs)) (Perm.cons x (sort_by-perm xs))

  insert_by-All {κ} :
      (P : A → Type κ) (x : A) (xs : List A) → P x → All P xs → All P (insert_by x xs)
  unfolding insert_by
  insert_by-All P x [] p h = (p, tt)
  insert_by-All P x (y ∷ ys) p h = split (insert_by-All P x ys p h.1) (le x y)
    where
      split :
          All P (insert_by x ys)
          → (b : Bool) → All P (elim b [ true ↦ x ∷ y ∷ ys | false ↦ y ∷ insert_by x ys ])
      split ih true = (p, h)
      split ih false = (h.0, ih)

  pub sort_by-All {κ} : (P : A → Type κ) (xs : List A) → All P xs → All P (sort_by xs)
  unfolding sort_by
  sort_by-All P [] h = tt
  sort_by-All P (x ∷ xs) h = insert_by-All P x (sort_by xs) h.0 (sort_by-All P xs h.1)

  insert_by-sum : (f : A → ℕ) (x : A) (xs : List A) → sum_by f (insert_by x xs) ≡ f x + sum_by f xs
  unfolding insert_by
  insert_by-sum f x [] = refl
  insert_by-sum f x (y ∷ ys) = ground (arith, insert_by-sum f x ys)

  pub sort_by-sum : (f : A → ℕ) (xs : List A) → sum_by f (sort_by xs) ≡ sum_by f xs
  unfolding sort_by
  sort_by-sum f [] = refl
  sort_by-sum f (x ∷ xs) = omega (arith, insert_by-sum f x (sort_by xs), sort_by-sum f xs)

  insert_by-length : (x : A) (xs : List A) → length (insert_by x xs) ≡ length xs + 1
  unfolding insert_by
  insert_by-length x [] = refl
  insert_by-length x (y ∷ ys) = ground (arith, insert_by-length x ys)

  pub sort_by-length : (xs : List A) → length (sort_by xs) ≡ length xs
  unfolding sort_by
  sort_by-length [] = refl
  sort_by-length (x ∷ xs) = omega (arith, insert_by-length x (sort_by xs), sort_by-length xs)

module _ {ℓ} {A : Type ℓ} (le : A → A → Bool) where
  insert_by-All_inv {κ} :
      (P : A → Type κ) (x : A) (xs : List A) → All P (insert_by le x xs) → P x × All P xs
  unfolding insert_by
  insert_by-All_inv P x [] h = (h.0, tt)
  insert_by-All_inv P x (y ∷ ys) h = split (insert_by-All_inv P x ys) (le x y) h
    where
      split :
          (All P (insert_by le x ys) → P x × All P ys)
          → (b : Bool) → All P (elim b [ true ↦ x ∷ y ∷ ys | false ↦ y ∷ insert_by le x ys ])
          → P x × All P (y ∷ ys)
      split ih true h = (h.0, h.1)
      split ih false h = ((ih h.1).0, (h.0, (ih h.1).1))

  pub sort_by-All_inv {κ} : (P : A → Type κ) (xs : List A) → All P (sort_by le xs) → All P xs
  unfolding sort_by
  sort_by-All_inv P [] h = tt
  sort_by-All_inv P (x ∷ xs) h =
      let (p, r) = insert_by-All_inv P x (sort_by le xs) h in (p, sort_by-All_inv P xs r)

-- A sort by a key puts a least element first.
module _ {ℓ} {A : Type ℓ} (key : A → ℕ) where
  abbrev pub by_key : A → A → Bool
  by_key a b = leb (key a) (key b)

  abbrev pub LeastFirst : List A → Type 0
  LeastFirst [] = Unit
  LeastFirst (y ∷ ys) = All (λ x. key y ≤ key x) ys

  All-mono :
      (x y : A) (xs : List A)
      → key x ≤ key y
      → All (λ z. key y ≤ key z) xs
      → All (λ z. key x ≤ key z) xs
  All-mono x y [] h a = tt
  All-mono x y (z ∷ zs) h a = (omega arith, All-mono x y zs h a.1)

  insert_by-LeastFirst : (x : A) (xs : List A) → LeastFirst xs → LeastFirst (insert_by by_key x xs)
  unfolding insert_by
  insert_by-LeastFirst x [] h = tt
  insert_by-LeastFirst x (y ∷ ys) h = elim (Bool-cases (leb (key x) (key y))) [
    | inl e ↦ rw (e, LeastFirst) (leb→le _ _ e, All-mono x y ys (leb→le _ _ e) h)
    | inr e ↦ rw (e, LeastFirst) (insert_by-All by_key (λ z. key y ≤ key z) x ys (ground arith) h)
  ]

  pub sort_by-LeastFirst : (xs : List A) → LeastFirst (sort_by by_key xs)
  unfolding sort_by
  sort_by-LeastFirst [] = tt
  sort_by-LeastFirst (x ∷ xs) = insert_by-LeastFirst x (sort_by by_key xs) (sort_by-LeastFirst xs)
