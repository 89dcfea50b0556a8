-- ===== src/Zkas/Latch/Halts.antt =====
-- A set latch halts every later tick, and so does a send whose outcome is not known.
use zkas_pool.Zkas.Latch.{newest_ambiguous, newest_payout, Marked, broadcast_pass-Marked}
use zkas_pool.Base.{ℕ, suc, ◌≡◌, refl, ap, ◌∙◌, Bool, true, List, [], ◌∷◌, Option, none, some}
use zkas_pool.Base.Results.{Result, ok}
use zkas_pool.Zkas.Db.{Store}
use zkas_pool.Zkas.World.{
  ZkasPayoutEngineConfig, SendError, Sent, World, Reply, query, query-cases, Step,
}
use zkas_pool.Zkas.Broadcast.{unlatched, latch_read, broadcast_pass}
use zkas_pool.Zkas.Plan.{PlanZkasCycleParams, PlanZkasCycleResult, plan_zkas_cycle}
use zkas_pool.Zkas.Plan.Keeps.{plan_zkas_cycle-keeps}
use zkas_pool.Zkas.Tick.{Chain}
use zkas_pool.Zkas.Tick.Keeps.{Quiet, acceptance, confirmation, moved_cursor, marked_cycle, Closed}
use zkas_pool.Zkas.Tick.Runs.{run_ticks, run_ticks-keeps}

Quiet-latch : (f : Store → Store) (s : Store) → Quiet f → (f s).inflight ≡ s.inflight
Quiet-latch f s (acceptance k d) = refl
Quiet-latch f s (confirmation k) = refl
Quiet-latch f s (moved_cursor h) = refl
Quiet-latch f s (marked_cycle k status) = refl

plan_latch :
    (params : PlanZkasCycleParams) (s : Store) {plan : PlanZkasCycleResult} {s' : Store}
    → plan_zkas_cycle params s ≡ ok (plan, s')
    → s'.inflight ≡ s.inflight
plan_latch params s {plan} {s'} e =
    plan_zkas_cycle-keeps (λ t. t.inflight ≡ s.inflight)
      (record { inserted = λ cycle wallet amount t h. h; drawn = λ t h. h; cycled = λ t cs n h. h })
      params s {r = (plan, s')} refl e

-- The latch holds payout `k`, and the sender's calls are those of `log`.
record Halted (k : ℕ) (log : List Sent) (w : World) : Type 0 where
  latch : w.store.inflight ≡ some k
  calls : w.log ≡ log

Halted-Closed : (k : ℕ) (log : List Sent) → Closed (Halted k log)
Halted-Closed k log = record {
  counted = λ w n st h. record { latch = h.latch; calls = h.calls };
  updated = λ f w q h. record { latch = Quiet-latch f w.store q ∙ h.latch; calls = h.calls };
  planned = λ params w {plan} {s} e h. record {
    latch = plan_latch params w.store {plan = plan} e ∙ h.latch;
    calls = h.calls;
  };
}

Marked-Closed : Closed Marked
Marked-Closed = record {
  counted = λ w n st h. record { held = h.held };
  updated = λ f w q h. record { held = λ k. Quiet-latch f w.store q ∙ h.held k };
  planned = λ params w {plan} {s} e h. record {
    held = λ k. plan_latch params w.store {plan = plan} e ∙ h.held k;
  };
}

module _ (reply : ℕ → Reply) (send : List Sent → List ℕ → ℕ → Result SendError ℕ)
    (cfg : ZkasPayoutEngineConfig) where
  broadcast_pass-Halted :
      (k : ℕ) (log : List Sent) (cycle : ℕ) (w : World)
      → Halted k log w
      → Halted k log (broadcast_pass reply send cfg cycle w).1
  unfolding broadcast_pass
  broadcast_pass-Halted k log cycle w h =
      query-cases reply w (λ p. Halted k log (latch_read reply send cfg cycle p).1)
        (go w.store.inflight h.latch) same
    where
      after : World
      after = record w { calls = suc w.calls }

      same : Halted k log after
      same = record { latch = h.latch; calls = h.calls }

      go :
          (l : Option ℕ)
          → l ≡ some k
          → Halted k log
              (elim l as (λ _. Step Unit) [
                | some k ↦
                    (ok tt, record after { stats = record w.stats { inflight_latched = true } })
                | none ↦ unlatched reply send cfg cycle (query reply after)
              ]).1
      go (some j) e = record { latch = h.latch; calls = h.calls }
      go none e = cc

  -- While the latch is set, no run of ticks sends anything or clears it.
  pub latch_halts :
      (ticks : List (Chain × Bool)) (w : World) {k : ℕ}
      → w.store.inflight ≡ some k
      → ((run_ticks reply send cfg ticks w).log ≡ w.log)
        × ((run_ticks reply send cfg ticks w).store.inflight ≡ some k)
  latch_halts ticks w {k} h =
      let r =
        run_ticks-keeps reply send cfg (Halted k w.log) (Halted-Closed k w.log)
          (broadcast_pass-Halted k w.log) ticks w (record { latch = h; calls = refl }) in
      (r.calls, r.latch)

  Marked-halts :
      (ticks : List (Chain × Bool)) (v : World)
      → Marked v
      → (log : List Sent) → v.log ≡ log
      → newest_ambiguous log ≡ true
      → ((run_ticks reply send cfg ticks v).log ≡ v.log)
        × ((run_ticks reply send cfg ticks v).store.inflight ≡ newest_payout log)
  Marked-halts ticks v m [] e k = cc
  Marked-halts ticks v m (s ∷ log) e k =
      latch_halts ticks v {k = s.payout_id}
        (m.held (ap newest_ambiguous e ∙ k) ∙ ap newest_payout e)

  -- Once a run of ticks, started before any send, ends in a send that timed out or gave no
  -- transaction id, no further run of ticks sends anything, and the latch keeps naming the payout
  -- of that send.
  pub ambiguous_halts :
      (before after : List (Chain × Bool)) (w : World)
      → w.log ≡ []
      → newest_ambiguous (run_ticks reply send cfg before w).log ≡ true
      → ((run_ticks reply send cfg after (run_ticks reply send cfg before w)).log
          ≡ (run_ticks reply send cfg before w).log)
        × ((run_ticks reply send cfg after (run_ticks reply send cfg before w)).store.inflight
            ≡ newest_payout (run_ticks reply send cfg before w).log)
  ambiguous_halts before after w none_yet h =
      let v = run_ticks reply send cfg before w in
      let start : Marked w = record { held = λ k. cc (rw none_yet at k) } in
      let marked =
        run_ticks-keeps reply send cfg Marked Marked-Closed (broadcast_pass-Marked reply send cfg)
          before w start in
      Marked-halts after v marked v.log refl h
