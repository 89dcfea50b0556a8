-- ===== src/Zkas/Tick/Runs.antt =====
-- A run of ticks of the engine, as `run_loop` drives them, and the invariants that it keeps.
use zkas_pool.Zkas.Tick.Keeps.{
  Closed, and_then-keeps, from_chain-keeps, query-keeps, confirm_pass-keeps, reconcile_cycle-keeps,
}
use zkas_pool.Base.{ℕ, suc, ◌≡◌, refl, Bool, true, false, List, [], ◌∷◌, Option, none, some}
use zkas_pool.Base.Results.{Result, ok, err}
use zkas_pool.Zkas.Window.{cycle_window}
use zkas_pool.Zkas.Db.{Store, PayoutCycle, range, zkas}
use zkas_pool.Zkas.World.{
  ZkasPayoutEngineConfig, SendError, EngineError, Sent, World, Reply, query, write-cases, Step,
  no_stats,
}
use zkas_pool.Zkas.Broadcast.{broadcast_pass}
use zkas_pool.Zkas.Plan.{PlanZkasCycleParams, PlanZkasCycleResult, find_cycle, plan_zkas_cycle}
use zkas_pool.Zkas.Tick.{
  Chain, and_then, answered_ok, from_chain, exec, confirm_pass, reconcile_cycle, plan_in_tx,
  resume_or_plan, passes, tick_once,
}

module _ (reply : ℕ → Reply) (send : List Sent → List ℕ → ℕ → Result SendError ℕ)
    (cfg : ZkasPayoutEngineConfig) where
  -- The loop of `run_loop`, over the ticks that come before the shutdown, each with the node's
  -- answers and whether it gets the lock; what a tick returns is logged and dropped. The anchoring of
  -- the cursor before the loop is `ensure_confirm_cursor`.
  unfoldable pub run_ticks : List (Chain × Bool) → World → World
  unfolding tick_once
  run_ticks [] w = w
  run_ticks ((node, leads) ∷ ticks) w = run_ticks ticks (tick_once reply send node cfg leads w).1

  -- What a closed property that every broadcast pass keeps, a run keeps.
  module _ (P : World → Type 0) (closed : Closed P)
      (broadcasts : (cycle : ℕ) (w : World)
        → P w
        → P (broadcast_pass reply send cfg cycle w).1) where
    plan_in_tx-keeps :
        (node : Chain) (start end : ℕ) (w : World)
        → P w
        → P (plan_in_tx reply send node cfg start end w).1
    unfolding plan_in_tx
    plan_in_tx-keeps node start end w h = go (plan_zkas_cycle params w.store) refl
      where
        params : PlanZkasCycleParams
        params = record {
          daa_start = start;
          daa_end = end;
          threshold_sompi = cfg.threshold_sompi;
          per_wallet_cap_sompi = cfg.per_wallet_cap_sompi;
        }

        planned : PlanZkasCycleResult → World → Step PayoutCycle
        planned plan w' = (
          ok plan.cycle,
          record w' { stats = record w'.stats { planned = plan.payouts_planned } },
        )

        go :
            (r : Result EngineError (PlanZkasCycleResult × Store))
            → plan_zkas_cycle params w.store ≡ r
            → P
                (elim r as (λ _. Step PayoutCycle) [
                  | err e ↦ (err e, w)
                  | ok (plan, s') ↦ and_then (exec reply send (λ _. s') w) (λ _ w'. planned plan w')
                ]).1
        go (err e) k = h
        go (ok (plan, s')) k =
            and_then-keeps P closed (exec reply send (λ _. s') w) (λ _ w'. planned plan w')
              (write-cases reply (λ _. s') w (λ p. P (answered_ok p).1) committed
                (closed.counted w _ _ h) committed)
              (λ _ w' h'. closed.counted w' _ _ h')
          where
            committed : P (record w { store = s'; calls = suc w.calls })
            committed =
                closed.counted (record w { store = s' }) _ _
                  (closed.planned params w {plan = plan} k h)

    resume_or_plan-keeps :
        (node : Chain) (start end : ℕ) (w : World)
        → P w
        → P (resume_or_plan reply send node cfg start end w).1
    unfolding resume_or_plan
    resume_or_plan-keeps node start end w h =
        and_then-keeps P closed (answered_ok (query reply w)) _
          (query-keeps P closed reply send w h)
          (λ _ w' h'. go w' h' (find_cycle (range zkas start end) w'.store.cycles))
      where
        go :
            (w' : World)
            → P w'
            → (o : Option PayoutCycle)
            → P
                (elim o as (λ _. Step PayoutCycle) [
                  | some c ↦ (ok c, w')
                  | none ↦ plan_in_tx reply send node cfg start end w'
                ]).1
        go w' h' (some c) = h'
        go w' h' none = plan_in_tx-keeps node start end w' h'

    passes-keeps :
        (node : Chain) (virtual_daa : ℕ) (cycle : PayoutCycle) (w : World)
        → P w
        → P (passes reply send node cfg virtual_daa cycle w).1
    passes-keeps node virtual_daa cycle w h =
        and_then-keeps P closed (broadcast_pass reply send cfg cycle.id w) _
          (broadcasts cycle.id w h)
          (λ _ w1 h1.
            and_then-keeps P closed (confirm_pass reply send node virtual_daa w1) _
              (confirm_pass-keeps P closed reply send node virtual_daa w1 h1)
              (λ _ w2 h2.
                and_then-keeps P closed (reconcile_cycle reply send node cycle.id w2) _
                  (reconcile_cycle-keeps P closed reply send node cycle.id w2 h2) (λ _ w3 h3. h3)))

    tick_once-keeps :
        (node : Chain) (leads : Bool) (w : World)
        → P w
        → P (tick_once reply send node cfg leads w).1
    unfolding tick_once
    tick_once-keeps node false w h = h
    tick_once-keeps node true w h =
        and_then-keeps P closed (from_chain node.virtual_daa_score (record w { stats = no_stats }))
          _
          (from_chain-keeps P closed node.virtual_daa_score (record w { stats = no_stats })
            (closed.counted w _ _ h))
          (λ virtual_daa w1 h1.
            let window = cycle_window virtual_daa cfg.cycle_span_daa in
            and_then-keeps P closed (resume_or_plan reply send node cfg window.0 window.1 w1)
              (λ cycle w2. passes reply send node cfg virtual_daa cycle w2)
              (resume_or_plan-keeps node window.0 window.1 w1 h1)
              (λ cycle w2 h2. passes-keeps node virtual_daa cycle w2 h2))

    pub run_ticks-keeps : (ticks : List (Chain × Bool)) (w : World) → P w → P (run_ticks ticks w)
    unfolding run_ticks
    run_ticks-keeps [] w h = h
    run_ticks-keeps ((node, leads) ∷ ticks) w h =
        run_ticks-keeps ticks _ (tick_once-keeps node leads w h)
