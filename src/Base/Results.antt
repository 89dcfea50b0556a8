-- ===== src/Base/Results.antt =====
-- Fallible code: Rust's `Result`, the panics of a build with overflow checks, and the checked
-- sums of machine integers.
use Prim.Native.Nat.{ℕ, ◌+◌, ◌-◌, ◌^◌, ◌≤◌}
use mathlib.Core.Path.{◌≡◌, refl, subst}
use mathlib.Core.List.{List, [], ◌∷◌}
use native.Mathlib.Omega.{arith}
use zkas_pool.Base.Tests.{leb, if◌then◌else◌}
use zkas_pool.Base.Lists.{sum_by}

pub data Result {ℓ κ} (E : Type ℓ) (A : Type κ) : Type (ℓ ⊔ κ) where
  ok : A → Result E A
  err : E → Result E A

infixl 5 ◌>>=◌ ◌>>◌
abbrev pub ◌>>=◌ {ℓ κ μ} :
    {E : Type ℓ} {A : Type κ} {B : Type μ} → Result E A → (A → Result E B) → Result E B
ok a >>= f = f a
err e >>= f = err e

abbrev pub ◌>>◌ {ℓ κ μ} :
    {E : Type ℓ} {A : Type κ} {B : Type μ} → Result E A → Result E B → Result E B
m >> k = m >>= λ _. k

-- Why a thread stops: an `assert!`, or an arithmetic overflow (the profiles check for it).
pub data Panic : Type 0 where
  assertion overflow : Panic

abbrev pub i64_max : ℕ
i64_max = 2 ^ 63 - 1

abbrev pub u32_max : ℕ
u32_max = 2 ^ 32 - 1

abbrev pub u64_max : ℕ
u64_max = 2 ^ 64 - 1

-- `a + b` in a type whose greatest value is `top`.
unfoldable pub add_checked : ℕ → ℕ → ℕ → Result Panic ℕ
add_checked top a b = if leb (a + b) top then ok (a + b) else err overflow

pub add_checked-ok : (top a b : ℕ) → a + b ≤ top → add_checked top a b ≡ ok (a + b)
unfolding add_checked
add_checked-ok top a b h = ground arith

-- `.sum()` over an iterator: a left fold of checked additions.
unfoldable pub sum_checked {ℓ} : {A : Type ℓ} → ℕ → (A → ℕ) → ℕ → List A → Result Panic ℕ
unfolding add_checked
sum_checked top f acc [] = ok acc
sum_checked top f acc (x ∷ xs) = add_checked top acc (f x) >>= λ s. sum_checked top f s xs

-- A sum that did not overflow is the sum, and it fits.
pub sum_checked_sound {ℓ} :
    {A : Type ℓ} (top : ℕ) (f : A → ℕ) (acc : ℕ) (xs : List A) {s : ℕ}
    → sum_checked top f acc xs ≡ ok s
    → acc ≤ top
    → (s ≡ acc + sum_by f xs) × (s ≤ top)
unfolding sum_checked
sum_checked_sound top f acc [] h k = ground arith
sum_checked_sound top f acc (x ∷ xs) {s} h k =
    ground (arith, sum_checked_sound top f (acc + f x) xs {s = s})

pub sum_checked_total {ℓ} :
    {A : Type ℓ} (top : ℕ) (f : A → ℕ) (acc : ℕ) (xs : List A)
    → acc + sum_by f xs ≤ top
    → sum_checked top f acc xs ≡ ok (acc + sum_by f xs)
unfolding sum_checked
sum_checked_total top f acc [] h = ground arith
sum_checked_total top f acc (x ∷ xs) h = ground (arith, sum_checked_total top f (acc + f x) xs)

-- A chain that succeeds: its first part did, and so did the rest.
pub bind_ok {ℓ κ μ} :
    {E : Type ℓ} {A : Type κ} {B : Type μ} (m : Result E A) (f : A → Result E B) {b : B}
    → (m >>= f) ≡ ok b
    → (a : A) × (m ≡ ok a) × (f a ≡ ok b)
bind_ok (ok a) f h = (a, refl, h)
bind_ok (err e) f h = cc

pub ok_inj {ℓ κ} : {E : Type ℓ} {A : Type κ} {a b : A} → ◌≡◌ {A = Result E A} (ok a) (ok b) → a ≡ b
ok_inj h = cc

-- What holds of the value of a success; nothing is said of a failure.
abbrev pub OnOk {ℓ κ μ} : {E : Type ℓ} {A : Type κ} → (A → Type μ) → Result E A → Type μ
OnOk P (ok a) = P a
OnOk P (err e) = Unit

pub OnOk-bind {ℓ κ κ' μ μ'} :
    {E : Type ℓ} {A : Type κ} {B : Type κ'} (P : A → Type μ) (Q : B → Type μ') (m : Result E A)
    (f : A → Result E B)
    → OnOk P m
    → ((a : A) → P a → OnOk Q (f a))
    → OnOk Q (m >>= f)
OnOk-bind P Q (ok a) f h k = k a h
OnOk-bind P Q (err e) f h k = tt

-- A success was found at a value that is known.
pub OnOk-of {ℓ κ μ} :
    {E : Type ℓ} {A : Type κ} (P : A → Type μ) (m : Result E A)
    → ((a : A) → m ≡ ok a → P a)
    → OnOk P m
OnOk-of P (ok a) h = h a refl
OnOk-of P (err e) h = tt

pub OnOk-value {ℓ κ μ} :
    {E : Type ℓ} {A : Type κ} (P : A → Type μ) (m : Result E A) {a : A} → OnOk P m → m ≡ ok a → P a
OnOk-value P (ok a) h e = subst P (cc) h
OnOk-value P (err x) h e = cc

pub OnOk-map {ℓ κ μ ν} :
    {E : Type ℓ} {A : Type κ} (P : A → Type μ) (Q : A → Type ν) (m : Result E A)
    → OnOk P m
    → ((a : A) → P a → Q a)
    → OnOk Q m
OnOk-map P Q (ok a) h k = k a h
OnOk-map P Q (err e) h k = tt
