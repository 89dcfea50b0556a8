-- ===== src/Zkas/Plan.antt =====
-- payout-zkas/src/plan.rs with the queries of katpool-db's payout.rs that it runs in its one
-- transaction. The sums of a wallet fit in `BIGINT`, which the queries cast to.
pub mod Keeps
pub mod Eligible
pub mod Covered
pub mod Balances
pub mod Cycles
pub mod Again
use zkas_pool.Base.{
  ℕ, suc, ◌+◌, ◌≤◌, Bool, true, false, not, List, [], ◌∷◌, ◌++◌, Option, none, some, ◌==◌, ◌&&◌,
  ◌||◌, if◌then◌else◌, any, retain, ◌^◌, ◌-◌, leb, min, max, length, map,
}
use zkas_pool.Base.Int.{ℤ, pos, negsuc, ◌+ℤ◌, neg_ℤ, leb_ℤ, min_ℤ}
use zkas_pool.Base.Results.{i64_max, Result, ok, err, ◌>>=◌}
use zkas_pool.Base.Sort.{sort_by}
use zkas_pool.Zkas.Db.{
  PayoutKind, zkas, PayoutCycleStatus, PayoutStatus, CycleKey, range, legacy, PayoutCycle, Payout,
  Store, is_confirmed,
}
use zkas_pool.Zkas.World.{EngineError, db}

abbrev pub default_per_wallet_cap_sompi : ℕ
default_per_wallet_cap_sompi = 30_000_000_000

pub record PlanZkasCycleParams : Type 0 where
  pub daa_start : ℕ
  pub daa_end : ℕ
  pub threshold_sompi : ℤ
  pub per_wallet_cap_sompi : ℤ

pub record PlanZkasCycleResult : Type 0 where
  pub cycle : PayoutCycle
  pub payouts_planned : ℕ
  pub total_sompi : ℤ

pub record EligibleWallet : Type 0 where
  pub wallet_id : ℕ
  pub payable_sompi : ℤ

abbrev same_kind : PayoutKind → PayoutKind → Bool
same_kind PayoutKind.kas PayoutKind.kas = true
same_kind PayoutKind.krc20_nacho PayoutKind.krc20_nacho = true
same_kind zkas zkas = true
same_kind _ _ = false

unfoldable pub same_key : CycleKey → CycleKey → Bool
same_key (range k a b) (range k' a' b') = same_kind k k' && a == a' && b == b'
same_key (legacy k n) (legacy k' n') = same_kind k k' && n == n'
same_key _ _ = false

-- `find_cycle_by_idempotency_key`
unfoldable pub find_cycle : CycleKey → List PayoutCycle → Option PayoutCycle
unfolding same_key
find_cycle key [] = none
find_cycle key (c ∷ cs) = if same_key c.idempotency_key key then some c else find_cycle key cs

-- `as i64` of a u64: it wraps.
abbrev pub as_i64 : ℕ → ℤ
as_i64 n = if leb n i64_max then pos n else negsuc (2 ^ 64 - 1 - n)

-- The two constraints of `payout_cycle`: `daa_start >= 0` and `daa_end > daa_start`
abbrev pub out_of_range : ℕ → ℕ → Bool
out_of_range start end = not (leb_ℤ (pos 0) (as_i64 start)) || leb_ℤ (as_i64 end) (as_i64 start)

-- `create_cycle`: a conflict gives the row that is there; the constraints come first.
unfoldable pub create_cycle : ℕ → ℕ → Store → Result EngineError (PayoutCycle × Store)
unfolding find_cycle
create_cycle start end s =
    if out_of_range start end then err db else elim (find_cycle (range zkas start end) s.cycles) [
      | some c ↦ ok (c, record s { next_cycle = suc s.next_cycle })
      | none ↦
          let c : PayoutCycle = record {
            id = s.next_cycle;
            kind = zkas;
            status = PayoutCycleStatus.planned;
            total_sompi = pos 0;
            total_recipients = 0;
            idempotency_key = range zkas start end;
          } in
          ok (c, record s { cycles = s.cycles ++ c ∷ []; next_cycle = suc s.next_cycle })
    ]

-- `sum(net_payout_sompi) ... GROUP BY wallet_id`: nothing for a wallet without a row
unfoldable pub allocated_sompi : ℕ → List (ℕ × ℕ) → Option ℕ
allocated_sompi k [] = none
allocated_sompi k ((j, n) ∷ rows) =
    let rest = allocated_sompi k rows in
    if j == k then some (n + elim rest [ none ↦ 0 | some m ↦ m ]) else rest

-- `pc.kind = 'zkas' AND pc.idempotency_key NOT LIKE 'zkas-legacy-%'`
abbrev pub counts_cycle : PayoutCycle → Bool
counts_cycle c = same_kind c.kind zkas && not (is_legacy c.idempotency_key)
  where
    is_legacy : CycleKey → Bool
    is_legacy (legacy zkas n) = true
    is_legacy _ = false

unfoldable pub counts : ℕ → List PayoutCycle → Bool
counts cycle [] = false
counts cycle (c ∷ cs) = c.id == cycle && counts_cycle c || counts cycle cs

-- `confirmed_paid_sompi`
unfoldable pub confirmed_paid : ℕ → List PayoutCycle → List Payout → ℤ
unfolding counts
confirmed_paid k cs [] = pos 0
confirmed_paid k cs (p ∷ ps) =
    let rest = confirmed_paid k cs ps in
    if p.wallet_id == k && is_confirmed p.status && counts p.cycle_id cs
    then p.amount_sompi +ℤ rest
    else rest

-- The rows of the query, before its order
unfoldable pub eligible_of : ℤ → Store → List (ℕ × List ℕ) → List EligibleWallet
unfolding allocated_sompi confirmed_paid
eligible_of threshold s [] = []
eligible_of threshold s ((k, a) ∷ ws) =
    let rest = eligible_of threshold s ws in
    elim (allocated_sompi k s.credits) [
      | none ↦ rest
      | some n ↦
          let payable = pos n +ℤ neg_ℤ (confirmed_paid k s.cycles s.payouts) in
          if leb_ℤ threshold payable
          then record { wallet_id = k; payable_sompi = payable } ∷ rest
          else rest
    ]

-- `ORDER BY payable_sompi DESC, w.id ASC`
unfoldable pub richer : EligibleWallet → EligibleWallet → Bool
richer a b =
    not (leb_ℤ a.payable_sompi b.payable_sompi)
    || leb_ℤ b.payable_sompi a.payable_sompi && leb a.wallet_id b.wallet_id

unfoldable pub list_zkas_eligible_wallets : ℤ → Store → List EligibleWallet
unfolding eligible_of
list_zkas_eligible_wallets threshold s = sort_by richer (eligible_of threshold s s.wallets)

unfoldable pub has_payout : ℕ → ℕ → List Payout → Bool
has_payout cycle wallet [] = false
has_payout cycle wallet (p ∷ ps) =
    p.cycle_id == cycle && p.wallet_id == wallet || has_payout cycle wallet ps

-- The `INSERT`, with the columns' defaults
abbrev pub insert_row : ℕ → ℕ → ℤ → Store → Store
insert_row cycle wallet amount s = record s {
  payouts =
      s.payouts
      ++ record {
        id = s.next_payout;
        cycle_id = cycle;
        wallet_id = wallet;
        amount_sompi = amount;
        status = PayoutStatus.planned;
        tx_hash = none;
        accepted_daa_score = none;
      }
        ∷ [];
  next_payout = suc s.next_payout;
}

-- `ensure_payout`: the `CHECK` on the amount, then a conflict keeps the row that is there.
unfoldable pub ensure_payout : ℕ → ℕ → ℤ → Store → Result EngineError Store
unfolding has_payout
ensure_payout cycle wallet amount s =
    if leb_ℤ amount (pos 0)
    then err db
    else if has_payout cycle wallet s.payouts
    then ok (record s { next_payout = suc s.next_payout })
    else ok (insert_row cycle wallet amount s)

-- `i64::saturating_add`
abbrev saturating_add : ℤ → ℤ → ℤ
saturating_add a b =
    let s = a +ℤ b in
    if leb_ℤ s (pos i64_max)
    then (if leb_ℤ (negsuc i64_max) s then s else negsuc i64_max)
    else pos i64_max

-- The loop over the eligible wallets, with the running total
unfoldable pub ensure_all : ℕ → ℤ → List EligibleWallet → ℤ → Store → Result EngineError (ℤ × Store)
unfolding ensure_payout
ensure_all cycle cap [] total s = ok (total, s)
ensure_all cycle cap (w ∷ ws) total s = do
  let amount = min_ℤ w.payable_sompi cap
  s' ← ensure_payout cycle w.wallet_id amount s
  ensure_all cycle cap ws (saturating_add total amount) s'

-- `set_cycle_totals`
unfoldable pub set_cycle_totals : ℕ → ℤ → ℕ → List PayoutCycle → List PayoutCycle
set_cycle_totals k total n [] = []
set_cycle_totals k total n (c ∷ cs) =
    (if c.id == k then record c { total_sompi = total; total_recipients = n } else c)
    ∷ set_cycle_totals k total n cs

-- `params.per_wallet_cap_sompi.max(1)`
abbrev pub cap_of : PlanZkasCycleParams → ℤ
cap_of params =
    if leb_ℤ params.per_wallet_cap_sompi (pos 1) then pos 1 else params.per_wallet_cap_sompi

-- The totals of the cycle, and the result
abbrev pub totalled : PayoutCycle → ℕ → ℤ × Store → PlanZkasCycleResult × Store
totalled cycle recipients (total, s) = (
  record { cycle = cycle; payouts_planned = recipients; total_sompi = total },
  record s { cycles = set_cycle_totals cycle.id total (min recipients (2 ^ 31 - 1)) s.cycles },
)

-- The rows of a cycle that is there
unfoldable pub plan_rows :
    PlanZkasCycleParams → PayoutCycle × Store → Result EngineError (PlanZkasCycleResult × Store)
unfolding list_zkas_eligible_wallets ensure_all set_cycle_totals
plan_rows params (cycle, s) =
    let eligible = list_zkas_eligible_wallets params.threshold_sompi s in
    ensure_all cycle.id (cap_of params) eligible (pos 0) s >>= λ r.
    ok (totalled cycle (length eligible) r)

unfoldable pub plan_zkas_cycle :
    PlanZkasCycleParams → Store → Result EngineError (PlanZkasCycleResult × Store)
unfolding create_cycle plan_rows
plan_zkas_cycle params s = create_cycle params.daa_start params.daa_end s >>= plan_rows params
