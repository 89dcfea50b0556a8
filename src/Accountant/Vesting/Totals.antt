-- ===== src/Accountant/Vesting/Totals.antt =====
-- accountant/src/vesting.rs: the totals of a claim over several rewards.
use zkas_pool.Base.{
  ℕ, ◌+◌, ◌-◌, ◌≤◌, ◌≡◌, List, [], ◌∷◌, map, arith, length, sum_by, if◌then◌else◌, ◌∙◌, ap,
}
use zkas_pool.Base.Int.{ℤ, pos}
use zkas_pool.Base.Results.{Result, ok, ◌>>=◌, Panic, i64_max, u32_max, add_checked}
use zkas_pool.Accountant.Vesting.{
  VestedSplit, vest_reward, vest_reward-promised, promised, due, due-le, is_matured,
}

-- A reward with the time since it matured into the miner's balance.
abbrev pub Reward : Type 0
Reward = ℤ × ℕ

pub record ClaimTotals : Type 0 where
  pub gross_sompi : ℕ
  pub miner_sompi : ℕ
  pub forfeit_sompi : ℕ
  pub matured_count : ℕ
  pub early_count : ℕ

-- `ClaimTotals::default()`
abbrev pub no_totals : ClaimTotals
no_totals = record {
  gross_sompi = 0;
  miner_sompi = 0;
  forfeit_sompi = 0;
  matured_count = 0;
  early_count = 0;
}

-- The body of the loop, each `+=` checked.
unfoldable pub add_split : ClaimTotals → VestedSplit → Result Panic ClaimTotals
add_split t s = do
  gross ← add_checked i64_max t.gross_sompi s.gross_sompi
  miner ← add_checked i64_max t.miner_sompi s.miner_sompi
  forfeit ← add_checked i64_max t.forfeit_sompi s.forfeit_sompi
  matured ← if s.matured then add_checked u32_max t.matured_count 1 else ok t.matured_count
  early ← if s.matured then ok t.early_count else add_checked u32_max t.early_count 1
  ok (record {
    gross_sompi = gross;
    miner_sompi = miner;
    forfeit_sompi = forfeit;
    matured_count = matured;
    early_count = early;
  })

pub vest_all : ClaimTotals → List Reward → Result Panic ClaimTotals
vest_all t [] = ok t
vest_all t ((gross, age) ∷ rs) = do
  split ← vest_reward gross age
  t' ← add_split t split
  vest_all t' rs

pub vest_claim : List Reward → Result Panic ClaimTotals
vest_claim rs = vest_all no_totals rs

-- A reward that is not negative.
abbrev pub Credit : Type 0
Credit = ℕ × ℕ

abbrev pub credited : List Credit → List Reward
credited = map (λ c. (pos c.0, c.1))

abbrev pub gross_of : Credit → ℕ
gross_of c = c.0

abbrev pub due_of : Credit → ℕ
due_of c = due c.0 c.1

abbrev pub forfeit_of : Credit → ℕ
forfeit_of c = c.0 - due c.0 c.1

abbrev pub matured_of : Credit → ℕ
matured_of c = if is_matured c.1 then 1 else 0

abbrev pub early_of : Credit → ℕ
early_of c = if is_matured c.1 then 0 else 1

-- The totals of a list of rewards as plain sums, on top of `t`.
abbrev pub plus_sums : ClaimTotals → List Credit → ClaimTotals
plus_sums t cs = record {
  gross_sompi = t.gross_sompi + sum_by gross_of cs;
  miner_sompi = t.miner_sompi + sum_by due_of cs;
  forfeit_sompi = t.forfeit_sompi + sum_by forfeit_of cs;
  matured_count = t.matured_count + sum_by matured_of cs;
  early_count = t.early_count + sum_by early_of cs;
}

-- That nothing overflows: the final totals fit their types.
pub record Fits (t : ClaimTotals) (cs : List Credit) : Type 0 where
  pub gross : t.gross_sompi + sum_by gross_of cs ≤ i64_max
  pub split : t.miner_sompi + t.forfeit_sompi ≡ t.gross_sompi
  pub count : t.matured_count + t.early_count + length cs ≤ u32_max

add_split-promised :
    (t : ClaimTotals) (g age : ℕ) (cs : List Credit)
    → Fits t ((g, age) ∷ cs)
    → (add_split t (promised g age) ≡ ok (plus_sums t ((g, age) ∷ [])))
      × Fits (plus_sums t ((g, age) ∷ [])) cs
unfolding add_split add_checked
add_split-promised t g age cs f = ground (arith, due-le g age)

plus_sums-cons :
    (t : ClaimTotals) (c : Credit) (cs : List Credit)
    → plus_sums (plus_sums t (c ∷ [])) cs ≡ plus_sums t (c ∷ cs)
plus_sums-cons t c cs = ground arith

gross_head : (t : ClaimTotals) (g age : ℕ) (cs : List Credit) → Fits t ((g, age) ∷ cs) → g ≤ i64_max
gross_head t g age cs f = omega (arith, f.gross)

vest_all-sums :
    (t : ClaimTotals) (cs : List Credit)
    → Fits t cs
    → vest_all t (credited cs) ≡ ok (plus_sums t cs)
unfolding vest_all
vest_all-sums t [] f = ground arith
vest_all-sums t ((g, age) ∷ cs) f =
    let step = add_split-promised t g age cs f in
    rw (vest_reward-promised g age (gross_head t g age cs f), ◌>>=◌)
      (rw (step.0, ◌>>=◌)
        (vest_all-sums (plus_sums t ((g, age) ∷ [])) cs step.1
          ∙ ap ok (plus_sums-cons t (g, age) cs)))

-- A claim over rewards whose gross sum is an i64 and whose number is a u32 does not panic, and its
-- totals are the plain sums of what each reward pays and forfeits at its own age.
pub vest_claim-sums :
    (cs : List Credit)
    → sum_by gross_of cs ≤ i64_max
    → length cs ≤ u32_max
    → vest_claim (credited cs) ≡ ok (plus_sums no_totals cs)
unfolding vest_claim
vest_claim-sums cs h k = vest_all-sums no_totals cs (omega arith)

sum_split : (cs : List Credit) → sum_by due_of cs + sum_by forfeit_of cs ≡ sum_by gross_of cs
sum_split [] = omega arith
sum_split (c ∷ cs) = omega (arith, sum_split cs, due-le c.0 c.1)

pub count_split : (cs : List Credit) → sum_by matured_of cs + sum_by early_of cs ≡ length cs
count_split [] = omega arith
count_split (c ∷ cs) = ground (arith, count_split cs)

-- Nothing is lost in a claim: the miner's total and the forfeited total add up to the gross total.
pub plus_sums_balanced :
    (cs : List Credit)
    → (plus_sums no_totals cs).miner_sompi + (plus_sums no_totals cs).forfeit_sompi
      ≡ sum_by gross_of cs
plus_sums_balanced cs = omega (arith, sum_split cs)
