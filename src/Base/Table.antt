-- ===== src/Base/Table.antt =====
-- `HashMap`: an association list without repeated keys, under a test of equality of keys.
use mathlib.Core.Path.{◌≡◌, refl, ap, ◌∙◌}
use mathlib.Core.Logic.{inl, inr}
use mathlib.Core.Bool.{Bool, true, false}
use mathlib.Core.List.{List, [], ◌∷◌}
use mathlib.Core.Option.{Option, none, some}
use native.Mathlib.Omega.{arith}
use Prim.Native.Nat.{ℕ, ◌+◌, ◌≤◌}
use zkas_pool.Base.Lists.{length}
use zkas_pool.Base.Tests.{if◌then◌else◌, Bool-cases, ◌==◌, ==→eq, ==_refl}

-- A test that finds out whether two keys are one.
pub record Key (K : Type 0) : Type 0 where
  pub same : K → K → Bool
  pub same_sound : (a b : K) → same a b ≡ true → a ≡ b
  pub same_refl : (a : K) → same a a ≡ true

abbrev pub number_key : Key ℕ
number_key = record { same = λ a b. a == b; same_sound = ==→eq; same_refl = ==_refl }

abbrev pub same_bytes : List ℕ → List ℕ → Bool
same_bytes [] [] = true
same_bytes (a ∷ as') (b ∷ bs) = if a == b then same_bytes as' bs else false
same_bytes _ _ = false

pub same_bytes_sound : (as' bs : List ℕ) → same_bytes as' bs ≡ true → as' ≡ bs
same_bytes_sound [] [] h = refl
same_bytes_sound [] (b ∷ bs) h = cc
same_bytes_sound (a ∷ as') [] h = cc
same_bytes_sound (a ∷ as') (b ∷ bs) h = ground (arith, same_bytes_sound as' bs)

pub same_bytes_refl : (as' : List ℕ) → same_bytes as' as' ≡ true
same_bytes_refl [] = refl
same_bytes_refl (a ∷ as') = ground (arith, same_bytes_refl as')

-- Texts, as their bytes
abbrev pub bytes_key : Key (List ℕ)
bytes_key = record { same = same_bytes; same_sound = same_bytes_sound; same_refl = same_bytes_refl }

module _ {K V : Type 0} (key : Key K) where
  open key use {same, same_sound, same_refl}

  unfoldable pub lookup : K → List (K × V) → Option V
  lookup k [] = none
  lookup k ((j, v) ∷ m) = if same j k then some v else lookup k m

  unfoldable pub remove : K → List (K × V) → List (K × V)
  remove k [] = []
  remove k ((j, v) ∷ m) = if same j k then remove k m else (j, v) ∷ remove k m

  unfoldable pub insert : K → V → List (K × V) → List (K × V)
  unfolding remove
  insert k v m = (k, v) ∷ remove k m

  pub lookup-remove : (k : K) (m : List (K × V)) → lookup k (remove k m) ≡ none
  unfolding lookup remove
  lookup-remove k [] = refl
  lookup-remove k ((j, v) ∷ m) = elim (Bool-cases (same j k)) [
    | inl e ↦ rw (e, remove) (lookup-remove k m)
    | inr e ↦ rw (e, remove) (rw (e, lookup) (lookup-remove k m))
  ]

  pub lookup-remove_other :
      (k j : K) (m : List (K × V)) → same k j ≡ false → lookup j (remove k m) ≡ lookup j m
  unfolding lookup remove
  lookup-remove_other k j [] h = refl
  lookup-remove_other k j ((i, v) ∷ m) h = elim (Bool-cases (same i k)) [
    | inl e ↦
        rw (e, remove)
          (rw (ap (λ x. same x j) (same_sound i k e) ∙ h, lookup) (lookup-remove_other k j m h))
    | inr e ↦ rw (e, remove) (kept (same i j) (lookup-remove_other k j m h))
  ]
    where
      kept :
          (b : Bool)
          → lookup j (remove k m) ≡ lookup j m
          → (if b then some v else lookup j (remove k m)) ≡ (if b then some v else lookup j m)
      kept true ih = refl
      kept false ih = ih

  pub lookup-insert : (k : K) (v : V) (m : List (K × V)) → lookup k (insert k v m) ≡ some v
  unfolding lookup insert
  lookup-insert k v m = rw (same_refl k) refl

  pub lookup-insert_other :
      (k j : K) (v : V) (m : List (K × V)) → same k j ≡ false → lookup j (insert k v m) ≡ lookup j m
  unfolding lookup insert
  lookup-insert_other k j v m h = rw (h, lookup) (lookup-remove_other k j m h)

  pub length-remove : (k : K) (m : List (K × V)) → length (remove k m) ≤ length m
  unfolding remove
  length-remove k [] = omega arith
  length-remove k ((j, v) ∷ m) = ground (arith, length-remove k m)

  -- A key that is there: its removal shortens the table.
  pub length-remove_there :
      (k : K) (m : List (K × V)) {v : V} → lookup k m ≡ some v → length (remove k m) + 1 ≤ length m
  unfolding lookup remove
  length-remove_there k [] h = cc
  length-remove_there k ((j, w) ∷ m) {v} h = elim (Bool-cases (same j k)) [
    | inl e ↦ rw (e, remove) (omega (arith, length-remove k m))
    | inr e ↦ rw (e, remove) (omega (arith, length-remove_there k m {v = v} (rw (e, lookup) at h)))
  ]
