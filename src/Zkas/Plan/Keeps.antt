-- ===== src/Zkas/Plan/Keeps.antt =====
-- Invariants of a plan: a property of the store that a new row, a drawn id and a change of the cycles
-- keep, a plan keeps.
use zkas_pool.Base.{ℕ, suc, ◌≡◌, subst, List, [], ◌∷◌, length, Option-cases, Bool-cases, inl, inr}
use zkas_pool.Base.Int.{ℤ, pos, leb_ℤ, min_ℤ}
use zkas_pool.Base.Results.{ok, bind_ok, ok_inj}
use zkas_pool.Zkas.Db.{Store, PayoutCycle, range, zkas}
use zkas_pool.Zkas.Plan.{
  out_of_range, PlanZkasCycleParams, PlanZkasCycleResult, EligibleWallet, find_cycle, create_cycle,
  has_payout, insert_row, ensure_payout, ensure_all, list_zkas_eligible_wallets, cap_of, totalled,
  plan_rows, plan_zkas_cycle,
}

pub record Closed (Q : Store → Type 0) : Type 0 where
  pub inserted :
      (cycle wallet : ℕ) (amount : ℤ) (s : Store) → Q s → Q (insert_row cycle wallet amount s)
  pub drawn : (s : Store) → Q s → Q (record s { next_payout = suc s.next_payout })
  pub cycled :
      (s : Store) (cs : List PayoutCycle) (n : ℕ)
      → Q s
      → Q (record s { cycles = cs; next_cycle = n })

module _ (Q : Store → Type 0) (closed : Closed Q) where
  pub ensure_payout-keeps :
      (cycle wallet : ℕ) (amount : ℤ) (s : Store) {s' : Store}
      → Q s
      → ensure_payout cycle wallet amount s ≡ ok s'
      → Q s'
  unfolding ensure_payout
  ensure_payout-keeps cycle wallet amount s {s'} h e = elim (Bool-cases (leb_ℤ amount (pos 0))) [
    | inl low ↦ cc (rw (low, ensure_payout) at e)
    | inr high ↦ elim (Bool-cases (has_payout cycle wallet s.payouts)) [
      | inl old ↦ subst Q (ok_inj (rw (high, old, ensure_payout) at e)) (closed.drawn s h)
      | inr new ↦
          subst Q (ok_inj (rw (high, new, ensure_payout) at e))
            (closed.inserted cycle wallet amount s h)
    ]
  ]

  ensure_all-keeps :
      (cycle : ℕ) (cap : ℤ) (ws : List EligibleWallet) (total : ℤ) (s : Store) {r : ℤ × Store}
      → Q s
      → ensure_all cycle cap ws total s ≡ ok r
      → Q r.1
  unfolding ensure_all
  ensure_all-keeps cycle cap [] total s {r} h e = subst (λ r. Q r.1) (ok_inj e) h
  ensure_all-keeps cycle cap (w ∷ ws) total s {r} h e =
      let (s', one, rest) =
        bind_ok (ensure_payout cycle w.wallet_id (min_ℤ w.payable_sompi cap) s) _ e in
      ensure_all-keeps cycle cap ws _ s'
        (ensure_payout-keeps cycle w.wallet_id (min_ℤ w.payable_sompi cap) s h one) rest

  create_cycle-keeps :
      (start end : ℕ) (s : Store) {r : PayoutCycle × Store}
      → Q s
      → create_cycle start end s ≡ ok r
      → Q r.1
  unfolding create_cycle
  create_cycle-keeps start end s {r} h e = elim (Bool-cases (out_of_range start end)) [
    | inl low ↦ cc (rw (low, create_cycle) at e)
    | inr high ↦ elim (Option-cases (find_cycle (range zkas start end) s.cycles)) [
      | inl new ↦
          subst (λ r. Q r.1) (ok_inj (rw (high, new, create_cycle) at e)) (closed.cycled s _ _ h)
      | inr (c, old) ↦
          subst (λ r. Q r.1) (ok_inj (rw (high, old, create_cycle) at e)) (closed.cycled s _ _ h)
    ]
  ]

  totalled-keeps : (cycle : PayoutCycle) (k : ℕ) (r : ℤ × Store) → Q r.1 → Q (totalled cycle k r).1
  totalled-keeps cycle k (total, s) h = closed.cycled s _ _ h

  plan_rows-keeps :
      (params : PlanZkasCycleParams) (cycle : PayoutCycle) (s : Store)
      {r : PlanZkasCycleResult × Store}
      → Q s
      → plan_rows params (cycle, s) ≡ ok r
      → Q r.1
  unfolding plan_rows
  plan_rows-keeps params cycle s {r} h e =
      let eligible = list_zkas_eligible_wallets params.threshold_sompi s in
      let (t, all, last) =
        bind_ok (ensure_all cycle.id (cap_of params) eligible (pos 0) s)
          (λ r. ok (totalled cycle (length eligible) r)) e in
      subst (λ r. Q r.1) (ok_inj last)
        (totalled-keeps cycle (length eligible) t
          (ensure_all-keeps cycle.id (cap_of params) eligible (pos 0) s h all))

  pub plan_zkas_cycle-keeps :
      (params : PlanZkasCycleParams) (s : Store) {r : PlanZkasCycleResult × Store}
      → Q s
      → plan_zkas_cycle params s ≡ ok r
      → Q r.1
  unfolding plan_zkas_cycle
  plan_zkas_cycle-keeps params s {r} h e =
      let (c, one, rest) =
        bind_ok (create_cycle params.daa_start params.daa_end s) (plan_rows params) e in
      plan_rows-keeps params c.0 c.1 (create_cycle-keeps params.daa_start params.daa_end s h one)
        rest
