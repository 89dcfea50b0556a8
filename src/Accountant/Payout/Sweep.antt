-- ===== src/Accountant/Payout/Sweep.antt =====
-- What a payout plan contains.
use mathlib.Core.List.{map}
use zkas_pool.Base.{
  ℕ, ◌+◌, ◌-◌, ◌≤◌, ◌≡◌, refl, true, not, List, [], ◌∷◌, arith, length, sum_by, retain, ◌∙◌, ap,
  sym, Bool-cases, inl, inr, ◌==◌, ◌↔◌,
}
use zkas_pool.Base.Int.{pos}
use zkas_pool.Base.Results.{ok, ok_inj, ◌>>=◌, i64_max, u32_max}
use zkas_pool.Accountant.Vesting.{vest_reward-promised, due-le, is_matured}
use zkas_pool.Accountant.Vesting.Totals.{
  ClaimTotals, Credit, credited, no_totals, plus_sums, gross_of, due_of, forfeit_of, matured_of,
  early_of, vest_claim-sums, count_split,
}
use zkas_pool.Accountant.Payout.{
  PayoutTrigger, auto_sweep, signed_claim, PayoutPlan, plan_payout, sweep_all, sweep_one,
  SweepState, add_matured, fresh_sweep, requires_signature, is_empty, has_auto_payable,
  time_until_auto_payout,
}

-- The rewards past the cliff.
abbrev pub matured_only : List Credit → List Credit
matured_only = retain (λ c. is_matured c.1)

-- What the sweep has after the rewards `cs`.
abbrev pub swept : SweepState → List Credit → SweepState
swept st cs = record {
  totals = plus_sums st.totals (matured_only cs);
  included = st.included + sum_by matured_of cs;
  deferred = st.deferred + sum_by early_of cs;
}

record Fits (st : SweepState) (cs : List Credit) : Type 0 where
  gross : st.totals.gross_sompi + sum_by gross_of cs ≤ i64_max
  split : st.totals.miner_sompi + st.totals.forfeit_sompi ≡ st.totals.gross_sompi
  counted : st.totals.matured_count ≡ st.included
  count : st.included + st.deferred + length cs ≤ u32_max

sweep_one-swept :
    (st : SweepState) (g age : ℕ) (cs : List Credit)
    → Fits st ((g, age) ∷ cs)
    → (sweep_one st (pos g, age) ≡ ok (swept st ((g, age) ∷ [])))
      × Fits (swept st ((g, age) ∷ [])) cs
unfolding sweep_one add_matured
sweep_one-swept st g age cs f = elim (Bool-cases (is_matured age)) [
  | inl old ↦ rw (vest_reward-promised g age (omega (arith, f.gross)), ◌>>=◌) (ground arith)
  | inr young ↦ ground (arith, due-le g age)
]

swept-cons :
    (st : SweepState) (c : Credit) (cs : List Credit)
    → swept (swept st (c ∷ [])) cs ≡ swept st (c ∷ cs)
swept-cons st c cs = ground arith

sweep_all-swept :
    (st : SweepState) (cs : List Credit)
    → Fits st cs
    → sweep_all st (credited cs) ≡ ok (swept st cs)
unfolding sweep_all
sweep_all-swept st [] f = ground arith
sweep_all-swept st ((g, age) ∷ cs) f =
    let step = sweep_one-swept st g age cs f in
    rw (step.0, ◌>>=◌)
      (sweep_all-swept (swept st ((g, age) ∷ [])) cs step.1 ∙ ap ok (swept-cons st (g, age) cs))

-- The rewards that a plan includes, and those it leaves alone.
abbrev pub included : PayoutTrigger → List Credit → List Credit
included auto_sweep cs = matured_only cs
included signed_claim cs = cs

-- The plan that the two policies promise.
abbrev pub promised_plan : PayoutTrigger → List Credit → PayoutPlan
promised_plan trigger cs = record {
  trigger = trigger;
  totals = plus_sums no_totals (included trigger cs);
  requires_signature = requires_signature trigger;
  included_count = length (included trigger cs);
  deferred_count = length cs - length (included trigger cs);
}

length-matured_only : (cs : List Credit) → length (matured_only cs) ≡ sum_by matured_of cs
length-matured_only [] = refl
length-matured_only (c ∷ cs) = ground (arith, length-matured_only cs)

length-credited : (cs : List Credit) → length (credited cs) ≡ length cs
length-credited [] = refl
length-credited (c ∷ cs) = omega (arith, length-credited cs)

-- If the gross sum is an i64 and the number of rewards a u32, planning does not panic under either
-- trigger and returns the promised plan: the sweep includes exactly the rewards past the cliff and
-- defers the others, a signed claim includes all; the totals are those of the included rewards, and
-- only a signed claim asks for a signature.
pub plan_payout-promised :
    (trigger : PayoutTrigger) (cs : List Credit)
    → sum_by gross_of cs ≤ i64_max
    → length cs ≤ u32_max
    → plan_payout (credited cs) trigger ≡ ok (promised_plan trigger cs)
unfolding plan_payout requires_signature
plan_payout-promised auto_sweep cs h k =
    rw (sweep_all-swept fresh_sweep cs (omega arith), ◌>>=◌)
      (ground (arith, length-matured_only cs, count_split cs))
plan_payout-promised signed_claim cs h k =
    rw (vest_claim-sums cs h k, ◌>>=◌) (ground (arith, length-credited cs))

-- A sweep pays every reward that it includes in full and forfeits nothing.
pub sweep_in_full :
    (cs : List Credit)
    → let t = (promised_plan auto_sweep cs).totals in
      (t.miner_sompi ≡ t.gross_sompi) × (t.forfeit_sompi ≡ 0) × (t.early_count ≡ 0)
sweep_in_full [] = (refl, refl, refl)
sweep_in_full (c ∷ cs) = ground (arith, sweep_in_full cs)

-- The rewards that a sweep defers.
abbrev pub deferred_only : List Credit → List Credit
deferred_only = retain (λ c. not (is_matured c.1))

sums_by_age :
    (f : Credit → ℕ) (cs : List Credit)
    → sum_by f (matured_only cs) + sum_by f (deferred_only cs) ≡ sum_by f cs
sums_by_age f [] = omega arith
sums_by_age f (c ∷ cs) = ground (arith, sums_by_age f cs)

sweep_sums :
    (cs : List Credit)
    → plus_sums (promised_plan auto_sweep cs).totals (deferred_only cs)
      ≡ (promised_plan signed_claim cs).totals
sweep_sums cs = ground (
  arith,
  sums_by_age gross_of cs,
  sums_by_age due_of cs,
  sums_by_age forfeit_of cs,
  sums_by_age matured_of cs,
  sums_by_age early_of cs,
)

-- Of two plans, each of the five totals
abbrev pub add_plans : ClaimTotals → ClaimTotals → ClaimTotals
add_plans a b = record {
  gross_sompi = a.gross_sompi + b.gross_sompi;
  miner_sompi = a.miner_sompi + b.miner_sompi;
  forfeit_sompi = a.forfeit_sompi + b.forfeit_sompi;
  matured_count = a.matured_count + b.matured_count;
  early_count = a.early_count + b.early_count;
}

length-deferred_only : (cs : List Credit) → length (deferred_only cs) ≤ length cs
length-deferred_only [] = omega arith
length-deferred_only (c ∷ cs) = ground (arith, length-deferred_only cs)

-- If `plan_payout` sweeps first, and plans a signed claim of the rewards that the sweep defers, the
-- two plans together have the totals of one signed claim of all: what is paid, what is forfeited and
-- the counts. The gross sum is an i64 and the number of rewards a u32.
pub sweep_then_claim :
    (cs : List Credit) {swept rest whole : PayoutPlan}
    → sum_by gross_of cs ≤ i64_max
    → length cs ≤ u32_max
    → plan_payout (credited cs) auto_sweep ≡ ok swept
    → plan_payout (credited (deferred_only cs)) signed_claim ≡ ok rest
    → plan_payout (credited cs) signed_claim ≡ ok whole
    → add_plans swept.totals rest.totals ≡ whole.totals
sweep_then_claim cs {swept} {rest} {whole} h k a b c =
    let few : sum_by gross_of (deferred_only cs) ≤ i64_max =
      omega (arith, sums_by_age gross_of cs, h) in
    let fewer : length (deferred_only cs) ≤ u32_max = omega (arith, length-deferred_only cs, k) in
    let swept_is = ok_inj (sym a ∙ plan_payout-promised auto_sweep cs h k) in
    let rest_is = ok_inj (sym b ∙ plan_payout-promised signed_claim (deferred_only cs) few fewer) in
    let whole_is = ok_inj (sym c ∙ plan_payout-promised signed_claim cs h k) in
    rw (swept_is, rest_is, whole_is) (added ∙ sweep_sums cs)
  where
    added :
        add_plans
          (promised_plan auto_sweep cs).totals
          (promised_plan signed_claim (deferred_only cs)).totals
        ≡ plus_sums (promised_plan auto_sweep cs).totals (deferred_only cs)
    added = ground arith

any-matured :
    (cs : List Credit) → has_auto_payable (map (λ c. c.1) cs) ≡ not (length (matured_only cs) == 0)
unfolding has_auto_payable
any-matured [] = refl
any-matured (c ∷ cs) = ground (arith, any-matured cs)

-- `has_auto_payable` says yes exactly when the next sweep of the same rewards is not empty.
pub has_auto_payable-is_empty :
    (cs : List Credit) {p : PayoutPlan}
    → sum_by gross_of cs ≤ i64_max
    → length cs ≤ u32_max
    → plan_payout (credited cs) auto_sweep ≡ ok p
    → has_auto_payable (map (λ c. c.1) cs) ≡ not (is_empty p)
unfolding is_empty
has_auto_payable-is_empty cs h k e =
    ground (arith, plan_payout-promised auto_sweep cs h k, any-matured cs)

-- `time_until_auto_payout` is the least wait after which the next sweep includes the reward.
pub time_until_auto_payout_least :
    (age wait : ℕ) → (is_matured (age + wait) ≡ true) ↔ (time_until_auto_payout age ≤ wait)
unfolding time_until_auto_payout
time_until_auto_payout_least age wait = ground arith
