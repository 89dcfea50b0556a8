-- ===== src/Kas/Safety/Loads.antt =====
-- payout-kas/src/cycle.rs, `resume_or_plan_kas_cycle`, and the reload of engine.rs: the rows of a cycle
-- that is at hand are rows of the store.
use zkas_pool.Kas.Safety.Confirms.{query-Safe}
use zkas_pool.Kas.Safety.{paid, Safe}
use zkas_pool.Kas.Safety.Broadcasts.{Safe-calls}
use zkas_pool.Kas.Safety.Plans.{
  SafeStore, SafeStore-Closed, plan_kas_cycle-keeps, list_for_cycle-pending,
}
use zkas_pool.Base.{ℕ, suc, ◌≤◌, ◌≡◌, refl, List, Option, none, some, sum_by}
use zkas_pool.Base.Results.{Result, ok, err}
use zkas_pool.Zkas.Db.{Store, Payout, PayoutCycle, range, kas}
use zkas_pool.Zkas.World.{Reply, EngineError}
use zkas_pool.Zkas.Plan.{find_cycle}
use zkas_pool.Zkas.Safety.{mine, planned_rows}
use zkas_pool.Kas.World.{
  db, World, and_then, known, write, query, After, After-and_then, After-write, After-query,
  After-known,
}
use zkas_pool.Kas.Broadcast.{found_or, pending}
use zkas_pool.Kas.Cycle.{CycleState, PlanKasCycleParams, list_for_cycle, get_cycle, plan_kas_cycle}
use zkas_pool.Kas.Engine.{load_cycle, plan_and_load, resume_or_plan_kas_cycle}

module _ (i : ℕ) where
  -- A snapshot of rows that the store has
  pub record Read (ps : List Payout) (w : World) : Type 0 where
    pub safe : Safe i w
    pub rows : sum_by (λ p. mine i p.id) (pending ps) ≤ planned_rows i w.store.payouts

  abbrev pub Loaded : CycleState → World → Type 0
  Loaded st = Read st.payouts

  module _ (reply : ℕ → Reply) where
    pub load_cycle-Loaded :
        (k : ℕ) (w : World) → Safe i w → After Loaded (Safe i) (load_cycle reply k w)
    unfolding load_cycle
    load_cycle-Loaded k w h =
        After-and_then (λ _. Safe i) Loaded (Safe i) (query reply w) _ (query-Safe i reply w h)
          λ _ w1 h1.
            After-and_then (λ _. Safe i) Loaded (Safe i)
              (known (found_or db (get_cycle k w1.store.cycles)) w1) _
              (After-known (λ _. Safe i) (Safe i) (found_or db (get_cycle k w1.store.cycles)) w1
                (λ _. h1) h1)
              λ c w2 h2.
                After-and_then (λ _. Safe i) Loaded (Safe i) (query reply w2) _
                  (query-Safe i reply w2 h2)
                  (λ _ w3 h3. record { safe = h3; rows = list_for_cycle-pending i k w3.store })

    Read-query :
        (ps : List Payout) (w : World) → Read ps w → After (λ _. Read ps) (Safe i) (query reply w)
    Read-query ps w h =
        After-query (Read ps) (Safe i) reply w
          (record { safe = Safe-calls i (suc w.calls) w h.safe; rows = h.rows })
          (Safe-calls i (suc w.calls) w h.safe)

    -- The rows and the cycle of a plan read back
    read_back :
        (k : ℕ) (w1 : World)
        → Safe i w1
        → After Loaded (Safe i) (
            and_then (query reply w1) λ _ w2.
              let payouts = list_for_cycle w2.store k in
              and_then (query reply w2) λ _ w3.
                and_then (known (found_or db (get_cycle k w3.store.cycles)) w3) λ c w4.
                  and_then
                    (query reply w4)
                    λ _ w5. (ok (record { cycle = c; payouts = payouts }), w5))
    read_back k w1 h1 =
        After-and_then (λ _. Safe i) Loaded (Safe i) (query reply w1) _ (query-Safe i reply w1 h1)
          λ _ w2 h2.
            let R = Read (list_for_cycle w2.store k) in
            After-and_then (λ _. R) Loaded (Safe i) (query reply w2) _
              (Read-query (list_for_cycle w2.store k) w2
                (record { safe = h2; rows = list_for_cycle-pending i k w2.store }))
              λ _ w3 r3.
                After-and_then (λ _. R) Loaded (Safe i)
                  (known (found_or db (get_cycle k w3.store.cycles)) w3) _
                  (After-known (λ _. R) (Safe i) (found_or db (get_cycle k w3.store.cycles)) w3
                    (λ _. r3) r3.safe)
                  λ c w4 r4.
                    After-and_then (λ _. R) Loaded (Safe i) (query reply w4) _
                      (Read-query (list_for_cycle w2.store k) w4 r4) (λ _ w5 r5. r5)

    plan_and_load-Loaded :
        (params : PlanKasCycleParams) (w : World)
        → Safe i w
        → After Loaded (Safe i) (plan_and_load reply params w)
    unfolding plan_and_load
    plan_and_load-Loaded params w h = split (plan_kas_cycle params w.store) (λ k s e.
        plan_kas_cycle-keeps (SafeStore i (paid i w.log)) (SafeStore-Closed i (paid i w.log)) params
          w.store {r = (k, s)} (record { once = h.once; fresh = h.fresh }) e)
      where
        split :
            (m : Result EngineError (ℕ × Store))
            → ((k : ℕ) (s : Store) → m ≡ ok (k, s) → SafeStore i (paid i w.log) s)
            → After Loaded (Safe i) (elim m [
              | err e ↦ (err db, w)
              | ok (k, s) ↦ and_then (write reply (λ _. s) w) λ _ w1.
                  and_then (query reply w1) λ _ w2.
                    let payouts = list_for_cycle w2.store k in
                    and_then (query reply w2) λ _ w3.
                      and_then (known (found_or db (get_cycle k w3.store.cycles)) w3) λ c w4.
                        and_then
                          (query reply w4)
                          λ _ w5. (ok (record { cycle = c; payouts = payouts }), w5)
            ])
        split (err e) keeps = h
        split (ok (k, s)) keeps =
            let st = keeps k s refl in
            After-and_then (λ _. Safe i) Loaded (Safe i) (write reply (λ _. s) w) _
              (After-write (Safe i) (Safe i) reply (λ _. s) w
                (record { once = st.once; fresh = st.fresh }) (Safe-calls i (suc w.calls) w h)
                (record { once = st.once; fresh = st.fresh }))
              (λ _ w1 h1. read_back k w1 h1)

    -- A cycle that is there, or a new one
    pub resume_or_plan_kas_cycle-Loaded :
        (params : PlanKasCycleParams) (w : World)
        → Safe i w
        → After Loaded (Safe i) (resume_or_plan_kas_cycle reply params w)
    unfolding resume_or_plan_kas_cycle
    resume_or_plan_kas_cycle-Loaded params w h =
        After-and_then (λ _. Safe i) Loaded (Safe i) (query reply w) _ (query-Safe i reply w h)
          (λ _ w1 h1.
            split w1 (find_cycle (range kas params.daa_start params.daa_end) w1.store.cycles) h1)
      where
        split :
            (w1 : World) (o : Option PayoutCycle)
            → Safe i w1
            → After Loaded (Safe i) (elim o [
              | none ↦ plan_and_load reply params w1
              | some c ↦ and_then (query reply w1) λ _ w2.
                  and_then
                    (query reply w2)
                    λ _ w3. (ok (record { cycle = c; payouts = list_for_cycle w3.store c.id }), w3)
            ])
        split w1 none h1 = plan_and_load-Loaded params w1 h1
        split w1 (some c) h1 =
            After-and_then (λ _. Safe i) Loaded (Safe i) (query reply w1) _
              (query-Safe i reply w1 h1)
              λ _ w2 h2.
                After-and_then (λ _. Safe i) Loaded (Safe i) (query reply w2) _
                  (query-Safe i reply w2 h2)
                  (λ _ w3 h3. record { safe = h3; rows = list_for_cycle-pending i c.id w3.store })
