-- ===== src/Zkas/Plan/Again.antt =====
-- Planning a window twice is planning it once.
use zkas_pool.Zkas.Plan.Balances.{
  list_eligible-same, confirmed_paid-totals, Plain, ensure_all-Plain,
}
use zkas_pool.Zkas.Plan.Cycles.{
  find_cycle-totals, Created, create_cycle-Created, create_cycle-found,
}
use zkas_pool.Base.{ℕ, suc, ◌≡◌, refl, sym, ap, ◌∙◌, subst, length}
use zkas_pool.Base.Int.{ℤ, pos}
use zkas_pool.Base.Results.{ok, ok_inj, bind_ok}
use zkas_pool.Zkas.Db.{Store, PayoutCycle, range, zkas}
use zkas_pool.Zkas.Plan.{
  PlanZkasCycleParams, PlanZkasCycleResult, ensure_all, confirmed_paid, set_cycle_totals,
  find_cycle, create_cycle, list_zkas_eligible_wallets, cap_of, totalled, plan_rows,
  plan_zkas_cycle,
}
use zkas_pool.Zkas.Plan.Covered.{Covered, ensure_all-Covered, ensure_all-same}

-- What the rows of a plan leave, for a plan of the same cycle over the new store.
record Planned (params : PlanZkasCycleParams) (cycle : PayoutCycle) (s s' : Store) : Type 0 where
  same :
      list_zkas_eligible_wallets params.threshold_sompi s'
      ≡ list_zkas_eligible_wallets params.threshold_sompi s
  covered : Covered cycle.id s' (list_zkas_eligible_wallets params.threshold_sompi s)
  cycles : (total : ℤ) × (n : ℕ) × (s'.cycles ≡ set_cycle_totals cycle.id total n s.cycles)

totalled-Planned :
    (params : PlanZkasCycleParams) (cycle : PayoutCycle) (s : Store) (t : ℤ × Store)
    → Plain s t.1
    → Covered cycle.id t.1 (list_zkas_eligible_wallets params.threshold_sompi s)
    → (n : ℕ) → Planned params cycle s (totalled cycle n t).1
totalled-Planned params cycle s (total, t) p c n = record {
  same = list_eligible-same params.threshold_sompi s (totalled cycle n (total, t)).1 (record {
    wallets = p.wallets;
    credits = p.credits;
    paid = λ k.
        confirmed_paid-totals k cycle.id total _ t.cycles t.payouts
        ∙ p.paid k t.cycles
        ∙ ap (λ cs. confirmed_paid k cs s.payouts) p.cycles;
  });
  covered = c;
  cycles = (total, _, ap (set_cycle_totals cycle.id total _) p.cycles);
}

plan_rows-Planned :
    (params : PlanZkasCycleParams) (cycle : PayoutCycle) (s : Store)
    {r : PlanZkasCycleResult × Store}
    → plan_rows params (cycle, s) ≡ ok r
    → (r.0.cycle ≡ cycle) × Planned params cycle s r.1
unfolding plan_rows
plan_rows-Planned params cycle s {r} e =
    let eligible = list_zkas_eligible_wallets params.threshold_sompi s in
    let (t, all, last) =
      bind_ok (ensure_all cycle.id (cap_of params) eligible (pos 0) s)
        (λ r. ok (totalled cycle (length eligible) r)) e in
    subst (λ r. (r.0.cycle ≡ cycle) × Planned params cycle s r.1) (ok_inj last)
      (
        refl,
        totalled-Planned params cycle s t
            (ensure_all-Plain cycle.id (cap_of params) eligible (pos 0) s {r = t} all)
            (ensure_all-Covered cycle.id (cap_of params) eligible (pos 0) s {r = t} all)
            (length eligible),
      )

-- A plan of rows over a store where the eligible wallets have theirs
plan_rows-same :
    (params : PlanZkasCycleParams) (cycle : PayoutCycle) (s : Store)
    {r : PlanZkasCycleResult × Store}
    → Covered cycle.id s (list_zkas_eligible_wallets params.threshold_sompi s)
    → plan_rows params (cycle, s) ≡ ok r
    → r.1.payouts ≡ s.payouts
unfolding plan_rows
plan_rows-same params cycle s {r} c e =
    let eligible = list_zkas_eligible_wallets params.threshold_sompi s in
    let (t, all, last) =
      bind_ok (ensure_all cycle.id (cap_of params) eligible (pos 0) s)
        (λ r. ok (totalled cycle (length eligible) r)) e in
    subst (λ r. r.1.payouts ≡ s.payouts) (ok_inj last)
      (ensure_all-same cycle.id (cap_of params) eligible (pos 0) s {r = t} c all)

rows_again :
    (params : PlanZkasCycleParams) (c c' : PayoutCycle) (s s' : Store)
    {r : PlanZkasCycleResult × Store}
    → Planned params c s s'
    → c'.id ≡ c.id
    → plan_rows params (c', record s' { next_cycle = suc s'.next_cycle }) ≡ ok r
    → r.1.payouts ≡ s'.payouts
rows_again params c c' s s' {r} p id h =
    plan_rows-same params c' next {r = r} (subst (Covered c'.id next) (sym wallets) covered) h
  where
    next : Store
    next = record s' { next_cycle = suc s'.next_cycle }

    wallets :
        list_zkas_eligible_wallets params.threshold_sompi next
        ≡ list_zkas_eligible_wallets params.threshold_sompi s
    wallets =
        list_eligible-same params.threshold_sompi s' next
          (record { wallets = refl; credits = refl; paid = λ k. refl })
        ∙ p.same

    covered : Covered c'.id next (list_zkas_eligible_wallets params.threshold_sompi s)
    covered =
        subst (λ i. Covered i s' (list_zkas_eligible_wallets params.threshold_sompi s)) (sym id)
          p.covered

Created-again :
    (params : PlanZkasCycleParams) (s : Store) (c d : PayoutCycle × Store) (s' : Store)
    {r : PlanZkasCycleResult × Store}
    → Created params.daa_start params.daa_end s c
    → Planned params c.0 c.1 s'
    → create_cycle params.daa_start params.daa_end s' ≡ ok d
    → plan_rows params d ≡ ok r
    → r.1.payouts ≡ s'.payouts
Created-again params s c d s' {r} made p two again =
    let key = range zkas params.daa_start params.daa_end in
    let (total, n, cycles) = p.cycles in
    let (c', found, id) = find_cycle-totals key c.0.id total n c.1.cycles {c = c.0} made.found in
    let same =
      create_cycle-found params.daa_start params.daa_end s' {c = c'} {r = d} made.ordered
        (ap (find_cycle key) cycles ∙ found) two in
    rows_again params c.0 c' c.1 s' {r = r} p id (subst (λ d. plan_rows params d ≡ ok r) same again)

-- A second plan of the same window over the store that the first one left changes no payout: no row
-- is added, and none changes its amount or its status.
pub plan_again :
    (params : PlanZkasCycleParams) (s s' s'' : Store) {plan plan' : PlanZkasCycleResult}
    → plan_zkas_cycle params s ≡ ok (plan, s')
    → plan_zkas_cycle params s' ≡ ok (plan', s'')
    → s''.payouts ≡ s'.payouts
unfolding plan_zkas_cycle
plan_again params s s' s'' {plan} {plan'} h k =
    let (c, one, rows) =
      bind_ok (create_cycle params.daa_start params.daa_end s) (plan_rows params) h in
    let (d, two, again) =
      bind_ok (create_cycle params.daa_start params.daa_end s') (plan_rows params) k in
    let made = create_cycle-Created params.daa_start params.daa_end s {r = c} one in
    let p = (plan_rows-Planned params c.0 c.1 {r = (plan, s')} rows).1 in
    Created-again params s c d s' {r = (plan', s'')} made p two again
