-- ===== src/Base/Distinct.antt =====
-- Lists whose elements have different keys, sublists of them, and what is left when a sublist is
-- removed by its keys.
pub mod Append
use Prim.Native.Nat.{ℕ, ◌≤◌}
use mathlib.Core.Path.{◌≡◌, refl, sym, ap, ◌∙◌}
use mathlib.Core.Logic.{◌≢◌, inl, inr}
use mathlib.Core.Bool.{Bool, true, false, not}
use mathlib.Core.List.{List, [], ◌∷◌, ◌++◌, Perm, perm_middle}
use mathlib.Core.List.Perm
use native.Mathlib.Omega.{arith}
use zkas_pool.Base.Lists.{retain, any, All, All-retain}
use zkas_pool.Base.Sort.{insert_by, sort_by, sort_by-All}
use zkas_pool.Base.Table.{Key}
use zkas_pool.Base.Tests.{Bool-cases}

module _ {A K : Type 0} (key : A → K) where
  -- No two elements have one key.
  abbrev pub Distinct : List A → Type 0
  Distinct [] = Unit
  Distinct (x ∷ xs) = All (λ y. key x ≢ key y) xs × Distinct xs

  pub Distinct-retain : (p : A → Bool) (xs : List A) → Distinct xs → Distinct (retain p xs)
  Distinct-retain p [] d = tt
  Distinct-retain p (x ∷ xs) d = split (p x) (Distinct-retain p xs d.1)
    where
      split :
          (b : Bool)
          → Distinct (retain p xs)
          → Distinct (elim b [ true ↦ x ∷ retain p xs | false ↦ retain p xs ])
      split true rest = (All-retain (λ y. key x ≢ key y) p xs d.0, rest)
      split false rest = rest

  All-insert_by {κ} :
      (le : A → A → Bool) (P : A → Type κ) (x : A) (xs : List A)
      → P x
      → All P xs
      → All P (insert_by le x xs)
  unfolding insert_by
  All-insert_by le P x [] p h = (p, tt)
  All-insert_by le P x (y ∷ ys) p h = split (le x y) (All-insert_by le P x ys p h.1)
    where
      split :
          (b : Bool)
          → All P (insert_by le x ys)
          → All P (elim b [ true ↦ x ∷ y ∷ ys | false ↦ y ∷ insert_by le x ys ])
      split true ih = (p, h)
      split false ih = (h.0, ih)

  Distinct-insert_by :
      (le : A → A → Bool) (x : A) (xs : List A)
      → All (λ y. key x ≢ key y) xs
      → Distinct xs
      → Distinct (insert_by le x xs)
  unfolding insert_by
  Distinct-insert_by le x [] h d = (tt, tt)
  Distinct-insert_by le x (y ∷ ys) h d = split (le x y) (Distinct-insert_by le x ys h.1 d.1)
    where
      split :
          (b : Bool)
          → Distinct (insert_by le x ys)
          → Distinct (elim b [ true ↦ x ∷ y ∷ ys | false ↦ y ∷ insert_by le x ys ])
      split true ih = (h, d)
      split false ih = (All-insert_by le (λ z. key y ≢ key z) x ys (λ e. h.0 (sym e)) d.0, ih)

  pub Distinct-sort_by : (le : A → A → Bool) (xs : List A) → Distinct xs → Distinct (sort_by le xs)
  unfolding sort_by
  Distinct-sort_by le [] d = tt
  Distinct-sort_by le (x ∷ xs) d =
      Distinct-insert_by le x (sort_by le xs) (sort_by-All le (λ y. key x ≢ key y) xs d.0)
        (Distinct-sort_by le xs d.1)

-- The first list is the second with elements left out.
pub data Sub {A : Type 0} : List A → List A → Type 0 where
  done : Sub [] []
  keep : (x : A) {ys xs : List A} → Sub ys xs → Sub (x ∷ ys) (x ∷ xs)
  skip : (x : A) {ys xs : List A} → Sub ys xs → Sub ys (x ∷ xs)

module _ {A : Type 0} where
  pub Sub-snoc : (x : A) {ys xs : List A} → Sub ys xs → Sub (ys ++ x ∷ []) (xs ++ x ∷ [])
  Sub-snoc x done = keep x done
  Sub-snoc x (keep y s) = keep y (Sub-snoc x s)
  Sub-snoc x (skip y s) = skip y (Sub-snoc x s)

  pub Sub-skip_snoc : (x : A) {ys xs : List A} → Sub ys xs → Sub ys (xs ++ x ∷ [])
  Sub-skip_snoc x done = skip x done
  Sub-skip_snoc x (keep y s) = keep y (Sub-skip_snoc x s)
  Sub-skip_snoc x (skip y s) = skip y (Sub-skip_snoc x s)

  pub Sub-skip_all : (zs : List A) {ys xs : List A} → Sub ys xs → Sub ys (xs ++ zs)
  Sub-skip_all [] done = done
  Sub-skip_all (z ∷ zs) done = skip z (Sub-skip_all zs done)
  Sub-skip_all zs (keep y s) = keep y (Sub-skip_all zs s)
  Sub-skip_all zs (skip y s) = skip y (Sub-skip_all zs s)

  pub All-Sub {κ} : (P : A → Type κ) {ys xs : List A} → Sub ys xs → All P xs → All P ys
  All-Sub P done h = tt
  All-Sub P (keep x s) h = (h.0, All-Sub P s h.1)
  All-Sub P (skip x s) h = All-Sub P s h.1

module _ {A : Type 0} (p : A → Bool) (x : A) (xs : List A) where
  pub retain-true : p x ≡ true → retain p (x ∷ xs) ≡ x ∷ retain p xs
  retain-true e = ap (λ (b : Bool). elim b [ true ↦ x ∷ retain p xs | false ↦ retain p xs ]) e

  pub retain-false : p x ≡ false → retain p (x ∷ xs) ≡ retain p xs
  retain-false e = ap (λ (b : Bool). elim b [ true ↦ x ∷ retain p xs | false ↦ retain p xs ]) e

module _ {A K : Type 0} (k : Key K) (key : A → K) where
  open k use {same, same_sound, same_refl}

  -- What `retain` with `!gone.iter().any(..)` tests.
  abbrev pub kept_beside : List A → A → Bool
  kept_beside gone x = not (any (λ g. same (key g) (key x)) gone)

  pub kept_beside-other :
      (x g : A) (gs : List A)
      → same (key g) (key x) ≡ false
      → kept_beside (g ∷ gs) x ≡ kept_beside gs x
  kept_beside-other x g gs e =
      ap (λ (b : Bool). not (elim b [ true ↦ true | false ↦ any (λ h. same (key h) (key x)) gs ])) e

  pub kept_beside-first : (x : A) (gs : List A) → kept_beside (x ∷ gs) x ≡ false
  kept_beside-first x gs =
      ap (λ (b : Bool). not (elim b [ true ↦ true | false ↦ any (λ h. same (key h) (key x)) gs ]))
        (same_refl (key x))

  kept_beside-ne :
      (x : A) (gone : List A) → All (λ g. key x ≢ key g) gone → kept_beside gone x ≡ true
  kept_beside-ne x [] h = refl
  kept_beside-ne x (g ∷ gs) h = elim (Bool-cases (same (key g) (key x))) [
    | inl e ↦ absurd (h.0 (sym (same_sound _ _ e)))
    | inr e ↦ kept_beside-other x g gs e ∙ kept_beside-ne x gs h.1
  ]

  pub retain-cons :
      (x : A) (gone xs : List A)
      → All (λ y. key x ≢ key y) xs
      → retain (kept_beside (x ∷ gone)) xs ≡ retain (kept_beside gone) xs
  retain-cons x gone [] h = refl
  retain-cons x gone (y ∷ ys) h = elim (Bool-cases (same (key x) (key y))) [
    | inl e ↦ absurd (h.0 (same_sound _ _ e))
    | inr e ↦
        ap
          (λ (b : Bool). elim b [
            | true ↦ y ∷ retain (kept_beside (x ∷ gone)) ys
            | false ↦ retain (kept_beside (x ∷ gone)) ys
          ])
          (kept_beside-other y x gone e)
        ∙ ap (λ (r : List A). elim (kept_beside gone y) [ true ↦ y ∷ r | false ↦ r ])
            (retain-cons x gone ys h.1)
  ]

  -- Elements with different keys are those removed and those kept.
  pub Sub-retain-perm :
      {ys xs : List A} → Sub ys xs → Distinct key xs → Perm (ys ++ retain (kept_beside ys) xs) xs
  Sub-retain-perm done d = Perm.refl _
  Sub-retain-perm (keep x {ys} {xs} s) d =
      rw
        (retain-false (kept_beside (x ∷ ys)) x xs (kept_beside-first x ys)
          ∙ retain-cons x ys xs d.0)
        (Perm.cons x (Sub-retain-perm s d.1))
  Sub-retain-perm (skip x {ys} {xs} s) d =
      rw
        (retain-true (kept_beside ys) x xs
          (kept_beside-ne x ys (All-Sub (λ y. key x ≢ key y) s d.0)))
        (Perm.trans (perm_middle ys (retain (kept_beside ys) xs))
          (Perm.cons x (Sub-retain-perm s d.1)))

module _ {A : Type 0} where
  pub Sub-refl : (xs : List A) → Sub xs xs
  Sub-refl [] = done
  Sub-refl (x ∷ xs) = keep x (Sub-refl xs)

  pub Sub-none : (xs : List A) → Sub [] xs
  Sub-none [] = done
  Sub-none (x ∷ xs) = skip x (Sub-none xs)

  pub Sub-append : {as' bs xs ys : List A} → Sub as' xs → Sub bs ys → Sub (as' ++ bs) (xs ++ ys)
  Sub-append done t = t
  Sub-append (keep x s) t = keep x (Sub-append s t)
  Sub-append (skip x s) t = skip x (Sub-append s t)
