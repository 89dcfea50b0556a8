-- ===== src/Kas/Cycle.antt =====
-- payout-kas/src/cycle.rs and plan.rs: the plan of a cycle, its state and its status. The audit log is
-- left out; its entries are calls of the database.
pub mod Status
use zkas_pool.Base.{
  ℕ, suc, ◌+◌, ◌-◌, ◌^◌, Bool, true, false, not, ◌&&◌, ◌||◌, List, [], ◌∷◌, ◌++◌, Option, none,
  some, min, leb, ltb, ◌==◌, if◌then◌else◌, retain, length,
}
use zkas_pool.Base.Int.{ℤ, pos, negsuc, ◌+ℤ◌, neg_ℤ, leb_ℤ}
use zkas_pool.Base.Results.{Result, ok, err, ◌>>=◌, i64_max}
use zkas_pool.Base.Sort.{sort_by}
use zkas_pool.Zkas.Db.{
  PayoutKind, kas, PayoutCycleStatus, PayoutStatus, CycleKey, range, legacy, PayoutCycle, Payout,
  Store, is_planned, is_in_flight, is_confirmed, is_failed,
}
use zkas_pool.Zkas.World.{EngineError, db}
use zkas_pool.Zkas.Cycle.{mark_cycle}
use zkas_pool.Zkas.Plan.{
  out_of_range, EligibleWallet, find_cycle, allocated_sompi, richer, ensure_payout,
  set_cycle_totals,
}

pub record PayoutStatusCounts : Type 0 where
  pub total : ℕ
  pub pending : ℕ
  pub in_flight : ℕ
  pub confirmed : ℕ
  pub failed : ℕ

abbrev pub count_status : PayoutStatus → PayoutStatusCounts → PayoutStatusCounts
count_status PayoutStatus.planned c = record c { pending = suc c.pending }
count_status PayoutStatus.submitted c = record c { in_flight = suc c.in_flight }
count_status PayoutStatus.accepted c = record c { in_flight = suc c.in_flight }
count_status PayoutStatus.confirmed c = record c { confirmed = suc c.confirmed }
count_status PayoutStatus.failed c = record c { failed = suc c.failed }

-- The loop over the rows
unfoldable pub count_all : List Payout → PayoutStatusCounts → PayoutStatusCounts
count_all [] c = c
count_all (p ∷ ps) c = count_all ps (count_status p.status c)

unfoldable pub from_payouts : List Payout → PayoutStatusCounts
unfolding count_all
from_payouts ps =
    count_all ps
      (record { total = length ps; pending = 0; in_flight = 0; confirmed = 0; failed = 0 })

unfoldable pub derive_cycle_status : PayoutStatusCounts → PayoutCycleStatus
derive_cycle_status c =
    if c.total == 0
    then PayoutCycleStatus.planned
    else if c.confirmed == c.total
    then PayoutCycleStatus.settled
    else if c.confirmed + c.failed == c.total
    then (if ltb 0 c.confirmed
        then PayoutCycleStatus.partially_settled
        else PayoutCycleStatus.failed)
    else if ltb 0 c.confirmed
    then PayoutCycleStatus.partially_settled
    else if ltb 0 c.in_flight || ltb 0 c.failed
    then PayoutCycleStatus.broadcasting
    else PayoutCycleStatus.planned

-- The statements of `reconcile_cycle_status`, for the status derived
unfoldable pub reconciled : ℕ → PayoutCycleStatus → List PayoutCycle → List PayoutCycle
reconciled k PayoutCycleStatus.planned cs = cs
reconciled k PayoutCycleStatus.broadcasting cs = mark_cycle k PayoutCycleStatus.broadcasting cs
reconciled k PayoutCycleStatus.partially_settled cs =
    mark_cycle k PayoutCycleStatus.partially_settled
      (mark_cycle k PayoutCycleStatus.broadcasting cs)
reconciled k PayoutCycleStatus.settled cs =
    mark_cycle k PayoutCycleStatus.settled (mark_cycle k PayoutCycleStatus.broadcasting cs)
reconciled k PayoutCycleStatus.failed cs = mark_cycle k PayoutCycleStatus.failed cs

-- `ORDER BY amount_sompi DESC, id ASC`
unfoldable pub before_row : Payout → Payout → Bool
before_row a b =
    not (leb_ℤ a.amount_sompi b.amount_sompi)
    || leb_ℤ b.amount_sompi a.amount_sompi && leb a.id b.id

unfoldable pub list_for_cycle : Store → ℕ → List Payout
list_for_cycle s cycle = sort_by before_row (retain (λ p. p.cycle_id == cycle) s.payouts)

unfoldable pub get_cycle : ℕ → List PayoutCycle → Option PayoutCycle
get_cycle k [] = none
get_cycle k (c ∷ cs) = if c.id == k then some c else get_cycle k cs

pub record CycleState : Type 0 where
  pub cycle : PayoutCycle
  pub payouts : List Payout

pub record PlanKasCycleParams : Type 0 where
  pub daa_start : ℕ
  pub daa_end : ℕ
  pub threshold_sompi : ℤ

-- `pc.kind = 'kas' AND pc.idempotency_key NOT LIKE 'kas-legacy-%'`
abbrev pub counts_kas : PayoutCycle → Bool
counts_kas c = is_kas c.kind && not (is_legacy c.idempotency_key)
  where
    is_kas : PayoutKind → Bool
    is_kas kas = true
    is_kas _ = false

    is_legacy : CycleKey → Bool
    is_legacy (legacy kas n) = true
    is_legacy _ = false

unfoldable pub in_kas_cycle : ℕ → List PayoutCycle → Bool
in_kas_cycle cycle [] = false
in_kas_cycle cycle (c ∷ cs) = c.id == cycle && counts_kas c || in_kas_cycle cycle cs

unfoldable pub kas_paid : ℕ → List PayoutCycle → List Payout → ℤ
unfolding in_kas_cycle
kas_paid k cs [] = pos 0
kas_paid k cs (p ∷ ps) =
    let rest = kas_paid k cs ps in
    if p.wallet_id == k && is_confirmed p.status && in_kas_cycle p.cycle_id cs
    then p.amount_sompi +ℤ rest
    else rest

-- The rows of the query, before its order
unfoldable pub kas_eligible_of : ℤ → Store → List (ℕ × List ℕ) → List EligibleWallet
unfolding kas_paid
kas_eligible_of threshold s [] = []
kas_eligible_of threshold s ((k, a) ∷ ws) =
    let rest = kas_eligible_of threshold s ws in
    elim (allocated_sompi k s.credits) [
      | none ↦ rest
      | some n ↦
          let payable = pos n +ℤ neg_ℤ (kas_paid k s.cycles s.payouts) in
          if leb_ℤ threshold payable
          then record { wallet_id = k; payable_sompi = payable } ∷ rest
          else rest
    ]

unfoldable pub list_kas_eligible_wallets : ℤ → Store → List EligibleWallet
unfolding kas_eligible_of
list_kas_eligible_wallets threshold s = sort_by richer (kas_eligible_of threshold s s.wallets)

-- `create_cycle` for the kind `kas`
unfoldable pub create_kas_cycle : ℕ → ℕ → Store → Result EngineError (PayoutCycle × Store)
create_kas_cycle start end s =
    if out_of_range start end then err db else elim (find_cycle (range kas start end) s.cycles) [
      | some c ↦ ok (c, record s { next_cycle = suc s.next_cycle })
      | none ↦
          let c : PayoutCycle = record {
            id = s.next_cycle;
            kind = kas;
            status = PayoutCycleStatus.planned;
            total_sompi = pos 0;
            total_recipients = 0;
            idempotency_key = range kas start end;
          } in
          ok (c, record s { cycles = s.cycles ++ c ∷ []; next_cycle = suc s.next_cycle })
    ]

-- `i64::saturating_add`
abbrev pub saturating_add_i64 : ℤ → ℤ → ℤ
saturating_add_i64 a b =
    let s = a +ℤ b in
    if leb_ℤ s (pos i64_max)
    then (if leb_ℤ (negsuc i64_max) s then s else negsuc i64_max)
    else pos i64_max

-- The loop over the eligible wallets, with the running total
unfoldable pub ensure_wallets : ℕ → List EligibleWallet → ℤ → Store → Result EngineError (ℤ × Store)
ensure_wallets cycle [] total s = ok (total, s)
ensure_wallets cycle (w ∷ ws) total s = ensure_payout cycle w.wallet_id w.payable_sompi s >>= λ s'.
    ensure_wallets cycle ws (saturating_add_i64 total w.payable_sompi) s'

abbrev pub with_totals : ℕ → ℕ → ℤ × Store → Store
with_totals cycle recipients (total, s) = record s {
  cycles = set_cycle_totals cycle total (min recipients (2 ^ 31 - 1)) s.cycles;
}

unfoldable pub plan_kas_rows :
    PlanKasCycleParams → PayoutCycle × Store → Result EngineError (ℕ × Store)
unfolding ensure_wallets list_kas_eligible_wallets
plan_kas_rows params (cycle, s) =
    let eligible = list_kas_eligible_wallets params.threshold_sompi s in
    ensure_wallets cycle.id eligible (pos 0) s >>= λ r.
    ok (cycle.id, with_totals cycle.id (length eligible) r)

-- The transaction of `plan_kas_cycle`: the cycle's id, and the store to commit
unfoldable pub plan_kas_cycle : PlanKasCycleParams → Store → Result EngineError (ℕ × Store)
unfolding create_kas_cycle plan_kas_rows
plan_kas_cycle params s =
    create_kas_cycle params.daa_start params.daa_end s >>= plan_kas_rows params
