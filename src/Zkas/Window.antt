-- ===== src/Zkas/Window.antt =====
-- payout-zkas/src/window.rs: the DAA window of a payout cycle, in `u64` with saturation.
use native.Mathlib.Nat.{div-mul-le_self, lt-div-mul-add, div-eq_of_lt-le}
use zkas_pool.Base.{ℕ, ◌+◌, ◌*◌, ◌/◌, ◌≤◌, ◌<◌, ◌≡◌, ◌↔◌, min, max, ap, arith}
use zkas_pool.Base.Results.{u64_max}

unfoldable pub cycle_window : ℕ → ℕ → ℕ × ℕ
cycle_window virtual_daa_score span =
    let width = max span 1 in
    let start = min (virtual_daa_score / width * width) u64_max in
    (start, min (start + width) u64_max)

max_one : (span : ℕ) → 1 ≤ span → max span 1 ≡ span
max_one span h = omega arith

abbrev saturated : ℕ → ℕ → ℕ × ℕ
saturated start span = (min start u64_max, min (min start u64_max + span) u64_max)

cycle_window_open : (a span : ℕ) → 1 ≤ span → cycle_window a span ≡ saturated (a / span * span) span
unfolding cycle_window
cycle_window_open a span h = rw (max_one span h)

same_bucket :
    (a b span : ℕ)
    → 1 ≤ span
    → a / span * span ≤ b
    → b < a / span * span + span
    → b / span ≡ a / span
same_bucket a b span h lo hi =
    div-eq_of_lt-le {k = a / span} span {m = b} lo (omega (arith, distrib))
  where
    distrib : (a / span + 1) * span ≡ a / span * span + span
    distrib = omega arith

-- Two scores get the same window exactly where the second lies in the window of the first, so that
-- every tick inside one window resumes one cycle. The width is at least 1, and the window of the
-- first score does not reach the greatest score.
pub cycle_window_same :
    (a b span : ℕ)
    → 1 ≤ span
    → a + span ≤ u64_max
    → (((cycle_window a span).0 ≤ b) × (b < (cycle_window a span).1))
      ↔ (cycle_window b span ≡ cycle_window a span)
cycle_window_same a b span h k =
    rw (cycle_window_open a span h, cycle_window_open b span h) (forth, back)
  where
    qa : ℕ
    qa = a / span * span

    low : qa ≤ a
    low = div-mul-le_self a span

    forth :
        ((min qa u64_max ≤ b) × (b < min (min qa u64_max + span) u64_max))
        → saturated (b / span * span) span ≡ saturated qa span
    forth (lo, hi) =
        ap (λ q. saturated (q * span) span)
          (same_bucket a b span h (omega (arith, low)) (omega (arith, low)))

    back :
        saturated (b / span * span) span ≡ saturated qa span
        → (min qa u64_max ≤ b) × (b < min (min qa u64_max + span) u64_max)
    back e =
        let first : min (b / span * span) u64_max ≡ min qa u64_max = ap (λ p. p.0) e in
        (
          omega (arith, low, first, div-mul-le_self b span),
          omega (arith, low, first, lt-div-mul-add {a = b} {b = span} h),
        )
