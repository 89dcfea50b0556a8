-- ===== src/Kas/Safety/Ticks.antt =====
-- payout-kas/src/engine.rs: payments over a run of ticks.
use zkas_pool.Kas.Safety.Confirms.{from_node-Safe, confirm_cycle-Safe, reconcile-Safe}
use zkas_pool.Kas.Safety.{paid, Safe}
use zkas_pool.Kas.Safety.Cycles.{broadcast_cycle-Safe}
use zkas_pool.Base.{ℕ, ◌≤◌, Bool, true, false, List, [], ◌∷◌, Option, arith, if◌then◌else◌}
use zkas_pool.Base.Int.{pos}
use zkas_pool.Base.Results.{ok, err}
use zkas_pool.Base.Float.{Float}
use zkas_pool.Zkas.Db.{PayoutCycleStatus}
use zkas_pool.Zkas.World.{Reply}
use zkas_pool.StorageMass.Mass.{Script, Transaction, MassEvaluator}
use zkas_pool.Kas.World.{
  spend_cap_exceeded, ExecutionReport, Submission, World, Step, and_then, After, After-and_then,
}
use zkas_pool.Kas.Sign.{Signer}
use zkas_pool.Kas.Broadcast.{from_node, broadcast_cycle}
use zkas_pool.Kas.Cycle.{CycleState}
use zkas_pool.Kas.Engine.{
  PayoutEngineConfig, Answers, spend_total, over_cap, confirm_cycle, reconcile_cycle_status,
  load_cycle, resume_or_plan_kas_cycle, drive_cycle, run_locked, run_once, run_ticks,
}
use zkas_pool.Kas.Safety.Loads.{Loaded, load_cycle-Loaded, resume_or_plan_kas_cycle-Loaded}

module _ (i : ℕ) where
  module _ (reply : ℕ → Reply) where
    module _ (parse_address : List ℕ → Option Script) (fl : Float) (signer : Signer)
        (ev : MassEvaluator) (treasury_script : Script)
        (take_tx : List Submission → Transaction → Bool) (cfg : PayoutEngineConfig) where
      drive_cycle-Safe :
          (a : Answers fl) (st : CycleState) (w : World)
          → Loaded i st w
          → After
              (λ _. Safe i)
              (Safe i)
              (drive_cycle reply parse_address fl signer ev treasury_script take_tx cfg a st w)
      unfolding drive_cycle
      drive_cycle-Safe a st w l =
          split (over_cap (spend_total st.payouts (pos 0)) cfg.max_payout_sompi_per_cycle)
        where
          sent : Step ExecutionReport
          sent =
              broadcast_cycle reply parse_address fl signer ev treasury_script take_tx cfg.mode
                a.broadcasting st.cycle.id st.payouts w

          after : ExecutionReport → World → Step PayoutCycleStatus
          after report w1 = and_then (load_cycle reply st.cycle.id w1) λ again w2.
              and_then (confirm_cycle reply fl a.confirming again.payouts w2)
                λ confirms w3. reconcile_cycle_status reply st.cycle.id w3

          after-Safe :
              (r : ExecutionReport) (w1 : World)
              → Safe i w1
              → After (λ _. Safe i) (Safe i) (after r w1)
          after-Safe r w1 h1 =
              After-and_then (Loaded i) (λ _. Safe i) (Safe i) (load_cycle reply st.cycle.id w1) _
                (load_cycle-Loaded i reply st.cycle.id w1 h1)
                λ again w2 l2.
                  After-and_then (λ _. Safe i) (λ _. Safe i) (Safe i)
                    (confirm_cycle reply fl a.confirming again.payouts w2) _
                    (confirm_cycle-Safe i reply fl a.confirming again.payouts w2 l2.safe)
                    λ c w3 h3. reconcile-Safe i reply st.cycle.id w3 h3

          split :
              (b : Bool)
              → After
                  (λ _. Safe i)
                  (Safe i)
                  (if b
                    then (err (spend_cap_exceeded (spend_total st.payouts (pos 0))), w)
                    else and_then sent after)
          split true = l.safe
          split false =
              After-and_then (λ _. Safe i) (λ _. Safe i) (Safe i) sent after
                (broadcast_cycle-Safe i reply parse_address fl signer ev treasury_script take_tx
                  cfg.mode a.broadcasting st.cycle.id st.payouts w l.safe l.rows)
                after-Safe

      run_locked-Safe :
          (a : Answers fl) (w : World)
          → Safe i w
          → After
              (λ _. Safe i)
              (Safe i)
              (run_locked reply parse_address fl signer ev treasury_script take_tx cfg a w)
      unfolding run_locked
      run_locked-Safe a w h =
          After-and_then (λ _. Safe i) (λ _. Safe i) (Safe i) (from_node a.at_start w) _
            (from_node-Safe i reply a.at_start w h)
            λ virtual_daa w1 h1.
              After-and_then (Loaded i) (λ _. Safe i) (Safe i) (resume_or_plan_kas_cycle reply _ w1)
                _ (resume_or_plan_kas_cycle-Loaded i reply _ w1 h1)
                λ st w2 l2. drive_cycle-Safe a st w2 l2

      After-world : {A : Type 0} (m : Step A) → After (λ _. Safe i) (Safe i) m → Safe i m.1
      After-world (ok a, w) h = h
      After-world (err e, w) h = h

      run_ticks-Safe :
          (ticks : List (Bool × Answers fl)) (w : World)
          → Safe i w
          → Safe i (run_ticks reply parse_address fl signer ev treasury_script take_tx cfg ticks w)
      unfolding run_ticks run_once
      run_ticks-Safe [] w h = h
      run_ticks-Safe ((false, a) ∷ ts) w h = run_ticks-Safe ts w h
      run_ticks-Safe ((true, a) ∷ ts) w h = run_ticks-Safe ts _ (
          After-world (run_locked reply parse_address fl signer ev treasury_script take_tx cfg a w)
            (run_locked-Safe a w h))

      -- Over any run of ticks, with any replies of the database and of the node, at most one of the
      -- transactions submitted pays the payout, and it pays it once, if that holds at the start for
      -- the transactions and the planned rows together and a row to come has neither.
      pub kas_paid_once :
          (ticks : List (Bool × Answers fl)) (w : World)
          → Safe i w
          → paid i
              (run_ticks reply parse_address fl signer ev treasury_script take_tx cfg ticks w).log
            ≤ 1
      kas_paid_once ticks w h = omega (arith, (run_ticks-Safe ticks w h).once)
