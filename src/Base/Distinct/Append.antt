-- ===== src/Base/Distinct/Append.antt =====
-- Distinct keys along a list in two parts: a new last element, a sorted second part, and the first
-- elements removed by their keys.
use Prim.Native.Nat.{ℕ, zero, suc}
use mathlib.Core.Path.{◌≡◌, refl, ap, ◌∙◌}
use mathlib.Core.Logic.{◌≢◌}
use mathlib.Core.Bool.{Bool}
use mathlib.Core.List.{List, [], ◌∷◌, ◌++◌}
use zkas_pool.Base.Lists.{retain, take, drop, All, All-append}
use zkas_pool.Base.Sort.{sort_by, sort_by-All}
use zkas_pool.Base.Table.{Key}
use zkas_pool.Base.Distinct.{
  Distinct, Distinct-sort_by, kept_beside, kept_beside-first, retain-false, retain-cons,
}

module _ {κ} {A : Type 0} (P : A → Type κ) where
  pub All-left : (xs ys : List A) → All P (xs ++ ys) → All P xs
  All-left [] ys h = tt
  All-left (x ∷ xs) ys h = (h.0, All-left xs ys h.1)

  pub All-right : (xs ys : List A) → All P (xs ++ ys) → All P ys
  All-right [] ys h = h
  All-right (x ∷ xs) ys h = All-right xs ys h.1

  pub All-append_sort :
      (le : A → A → Bool) (xs ys : List A) → All P (xs ++ ys) → All P (xs ++ sort_by le ys)
  All-append_sort le xs ys h =
      All-append P xs (sort_by le ys) (All-left xs ys h) (sort_by-All le P ys (All-right xs ys h))

module _ {A K : Type 0} (key : A → K) where
  pub Distinct-snoc :
      (c : A) (xs : List A)
      → All (λ x. key x ≢ key c) xs
      → Distinct key xs
      → Distinct key (xs ++ c ∷ [])
  Distinct-snoc c [] h d = (tt, tt)
  Distinct-snoc c (x ∷ xs) h d =
      (All-append (λ y. key x ≢ key y) xs (c ∷ []) d.0 (h.0, tt), Distinct-snoc c xs h.1 d.1)

  pub Distinct-append_sort :
      (le : A → A → Bool) (xs ys : List A)
      → Distinct key (xs ++ ys)
      → Distinct key (xs ++ sort_by le ys)
  Distinct-append_sort le [] ys d = Distinct-sort_by key le ys d
  Distinct-append_sort le (x ∷ xs) ys d =
      (All-append_sort (λ y. key x ≢ key y) le xs ys d.0, Distinct-append_sort le xs ys d.1)

  pub Distinct-left : (xs ys : List A) → Distinct key (xs ++ ys) → Distinct key xs
  Distinct-left [] ys d = tt
  Distinct-left (x ∷ xs) ys d = (All-left (λ y. key x ≢ key y) xs ys d.0, Distinct-left xs ys d.1)

  pub Distinct-right : (xs ys : List A) → Distinct key (xs ++ ys) → Distinct key ys
  Distinct-right [] ys d = d
  Distinct-right (x ∷ xs) ys d = Distinct-right xs ys d.1

module _ {A K : Type 0} (k : Key K) (key : A → K) where
  retain-all : (xs : List A) → retain (kept_beside k key []) xs ≡ xs
  retain-all [] = refl
  retain-all (x ∷ xs) = ap (λ (t : List A). x ∷ t) (retain-all xs)

  -- What is kept beside the first elements are the others.
  pub retain-take :
      (n : ℕ) (xs : List A)
      → Distinct key xs
      → retain (kept_beside k key (take n xs)) xs ≡ drop n xs
  retain-take zero xs d = retain-all xs
  retain-take (suc n) [] d = refl
  retain-take (suc n) (x ∷ xs) d =
      retain-false (kept_beside k key (x ∷ take n xs)) x xs (kept_beside-first k key x (take n xs))
      ∙ retain-cons k key x (take n xs) xs d.0
      ∙ retain-take n xs d.1
