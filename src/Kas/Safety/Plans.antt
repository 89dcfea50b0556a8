-- ===== src/Kas/Safety/Plans.antt =====
-- payout-kas/src/plan.rs: a plan keeps the invariant of payments, since a new row takes an id that no
-- submission has seen; and what the rows of a cycle that is read back are.
use zkas_pool.Base.{
  ℕ, ◌+◌, ◌≤◌, ◌≡◌, refl, subst, List, [], ◌∷◌, none, arith, sum_by, ◌==◌, retain, length,
  Option-cases, Bool-cases, inl, inr, sum_by-retain-le, if◌then◌else◌,
}
use zkas_pool.Base.Int.{ℤ, pos}
use zkas_pool.Base.Results.{ok, bind_ok, ok_inj}
use zkas_pool.Base.Sort.{sort_by-sum}
use zkas_pool.Zkas.Db.{Store, Payout, PayoutStatus, PayoutCycle, range, kas, is_planned}
use zkas_pool.Zkas.Plan.{out_of_range, EligibleWallet, find_cycle, insert_row, ensure_payout}
use zkas_pool.Zkas.Plan.Keeps.{Closed, ensure_payout-keeps}
use zkas_pool.Zkas.Safety.{mine, planned_rows}
use zkas_pool.Zkas.Safety.Plans.{planned_rows-snoc}
use zkas_pool.Kas.Broadcast.{pending}
use zkas_pool.Kas.Cycle.{
  PlanKasCycleParams, create_kas_cycle, ensure_wallets, with_totals, plan_kas_rows, plan_kas_cycle,
  list_kas_eligible_wallets, list_for_cycle, before_row, saturating_add_i64,
}

-- The invariant of a store, for a log that pays payout `i` so often
pub record SafeStore (i n : ℕ) (s : Store) : Type 0 where
  pub once : n + planned_rows i s.payouts ≤ 1
  pub fresh : s.next_payout ≤ i → n + planned_rows i s.payouts ≡ 0

module _ (i n : ℕ) where
  insert_row-SafeStore :
      (cycle wallet : ℕ) (amount : ℤ) (s : Store)
      → SafeStore i n s
      → SafeStore i n (insert_row cycle wallet amount s)
  insert_row-SafeStore cycle wallet amount s h = record {
    once = ground (arith, grown, h.once, h.fresh);
    fresh = λ le. ground (arith, grown, le, h.fresh);
  }
    where
      grown :
          planned_rows i (insert_row cycle wallet amount s).payouts
          ≡ planned_rows i s.payouts + mine i s.next_payout
      grown = omega (
        arith,
        planned_rows-snoc i n s.payouts (record {
          id = s.next_payout;
          cycle_id = cycle;
          wallet_id = wallet;
          amount_sompi = amount;
          status = PayoutStatus.planned;
          tx_hash = none;
          accepted_daa_score = none;
        }),
      )

  pub SafeStore-Closed : Closed (SafeStore i n)
  SafeStore-Closed = record {
    inserted = insert_row-SafeStore;
    drawn = λ s h. record { once = h.once; fresh = λ le. h.fresh (omega (arith, le)) };
    cycled = λ s cs k h. record { once = h.once; fresh = h.fresh };
  }

module _ (Q : Store → Type 0) (closed : Closed Q) where
  ensure_wallets-keeps :
      (cycle : ℕ) (ws : List EligibleWallet) (total : ℤ) (s : Store) {r : ℤ × Store}
      → Q s
      → ensure_wallets cycle ws total s ≡ ok r
      → Q r.1
  unfolding ensure_wallets
  ensure_wallets-keeps cycle [] total s {r} h e = subst (λ r. Q r.1) (ok_inj e) h
  ensure_wallets-keeps cycle (w ∷ ws) total s {r} h e =
      let (s', one, rest) = bind_ok (ensure_payout cycle w.wallet_id w.payable_sompi s) _ e in
      ensure_wallets-keeps cycle ws (saturating_add_i64 total w.payable_sompi) s'
        (ensure_payout-keeps Q closed cycle w.wallet_id w.payable_sompi s h one) rest

  create_kas_cycle-keeps :
      (start end : ℕ) (s : Store) {r : PayoutCycle × Store}
      → Q s
      → create_kas_cycle start end s ≡ ok r
      → Q r.1
  unfolding create_kas_cycle
  create_kas_cycle-keeps start end s {r} h e = elim (Bool-cases (out_of_range start end)) [
    | inl low ↦ cc (rw (low, create_kas_cycle) at e)
    | inr high ↦ elim (Option-cases (find_cycle (range kas start end) s.cycles)) [
      | inl new ↦
          subst (λ r. Q r.1) (ok_inj (rw (high, new, create_kas_cycle) at e))
            (closed.cycled s _ _ h)
      | inr (c, old) ↦
          subst (λ r. Q r.1) (ok_inj (rw (high, old, create_kas_cycle) at e))
            (closed.cycled s _ _ h)
    ]
  ]

  with_totals-keeps : (cycle k : ℕ) (r : ℤ × Store) → Q r.1 → Q (with_totals cycle k r)
  with_totals-keeps cycle k (total, s) h = closed.cycled s _ _ h

  pub plan_kas_cycle-keeps :
      (params : PlanKasCycleParams) (s : Store) {r : ℕ × Store}
      → Q s
      → plan_kas_cycle params s ≡ ok r
      → Q r.1
  unfolding plan_kas_cycle plan_kas_rows
  plan_kas_cycle-keeps params s {r} h e =
      let ((cycle, s1), made, rows) =
        bind_ok (create_kas_cycle params.daa_start params.daa_end s) (plan_kas_rows params) e in
      let ws = list_kas_eligible_wallets params.threshold_sompi s1 in
      let (q, filled, last) = bind_ok (ensure_wallets cycle.id ws (pos 0) s1) _ rows in
      let q1 = create_kas_cycle-keeps params.daa_start params.daa_end s {r = (cycle, s1)} h made in
      subst (λ r. Q r.1) (ok_inj last)
        (with_totals-keeps cycle.id (length ws) q
          (ensure_wallets-keeps cycle.id ws (pos 0) s1 q1 filled))

pending-sum :
    (i : ℕ) (ps : List Payout) → sum_by (λ p. mine i p.id) (pending ps) ≡ planned_rows i ps
unfolding pending
pending-sum i [] = refl
pending-sum i (p ∷ ps) = ground (arith, pending-sum i ps)

-- The planned rows of a cycle are planned rows of the table.
pub list_for_cycle-pending :
    (i cycle : ℕ) (s : Store)
    → sum_by (λ p. mine i p.id) (pending (list_for_cycle s cycle)) ≤ planned_rows i s.payouts
unfolding list_for_cycle
list_for_cycle-pending i cycle s =
    let f = λ (p : Payout). (if is_planned p.status then mine i p.id else 0) in
    omega (
      arith,
      pending-sum i (list_for_cycle s cycle),
      sort_by-sum before_row f (retain (λ p. p.cycle_id == cycle) s.payouts),
      sum_by-retain-le f (λ (p : Payout). p.cycle_id == cycle) s.payouts,
    )
