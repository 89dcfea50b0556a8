-- ===== src/Zkas/Cycle.antt =====
-- The status of a cycle: the fold of `reconcile_cycle` (payout-zkas/src/engine.rs) and the moves that
-- the statements of crates/katpool-db/src/repo/payout.rs allow.
use zkas_pool.Base.{
  ℕ, Bool, true, false, List, [], ◌∷◌, Option, none, some, ◌==◌, ◌&&◌, ltb, if◌then◌else◌, retain,
  length,
}
use zkas_pool.Zkas.Db.{
  PayoutCycleStatus, PayoutCycle, Payout, is_in_flight, is_confirmed, is_failed,
}

-- How many payouts of a list pass a test
abbrev pub count : (Payout → Bool) → List Payout → ℕ
count p ps = length (retain p ps)

-- The status that the statuses of a cycle's payouts fold into
unfoldable pub derived_status : List Payout → Option PayoutCycleStatus
derived_status [] = none
derived_status (p ∷ ps) =
    let rows = p ∷ ps in
    let settled = count (λ p. is_confirmed p.status) rows in
    if settled == length rows
    then some PayoutCycleStatus.settled
    else if ltb 0 settled
    then some PayoutCycleStatus.partially_settled
    else if ltb 0 (count (λ p. is_in_flight p.status) rows)
    then some PayoutCycleStatus.broadcasting
    else if count (λ p. is_failed p.status) rows == length rows
    then some PayoutCycleStatus.failed
    else none

-- The `AND status IN ...` of `mark_cycle_settled` and the others: whether a cycle may move there.
unfoldable pub may_move : PayoutCycleStatus → PayoutCycleStatus → Bool
may_move PayoutCycleStatus.planned PayoutCycleStatus.broadcasting = true
may_move PayoutCycleStatus.broadcasting PayoutCycleStatus.broadcasting = true
may_move PayoutCycleStatus.broadcasting PayoutCycleStatus.partially_settled = true
may_move PayoutCycleStatus.partially_settled PayoutCycleStatus.partially_settled = true
may_move PayoutCycleStatus.broadcasting PayoutCycleStatus.settled = true
may_move PayoutCycleStatus.partially_settled PayoutCycleStatus.settled = true
may_move PayoutCycleStatus.settled PayoutCycleStatus.settled = true
may_move PayoutCycleStatus.settled PayoutCycleStatus.failed = false
may_move _ PayoutCycleStatus.failed = true
may_move _ _ = false

unfoldable pub mark_cycle : ℕ → PayoutCycleStatus → List PayoutCycle → List PayoutCycle
unfolding may_move
mark_cycle k status [] = []
mark_cycle k status (c ∷ cs) =
    (if c.id == k && may_move c.status status then record c { status = status } else c)
    ∷ mark_cycle k status cs
