-- ===== src/Zkas/Safety/Ticks.antt =====
-- Payments over a run of ticks: no payout is paid twice.
use zkas_pool.Zkas.Safety.{mine, paid, planned_rows, Safe}
use zkas_pool.Zkas.Safety.Broadcasts.{broadcast_pass-Safe}
use zkas_pool.Zkas.Safety.Plans.{SafeStore, SafeStore-Closed}
use zkas_pool.Zkas.Plan.Keeps.{plan_zkas_cycle-keeps}
use zkas_pool.Base.{ℕ, ◌+◌, ◌≤◌, ◌≡◌, refl, Bool, true, false, List, [], ◌∷◌, arith, if◌then◌else◌}
use zkas_pool.Base.Results.{Result}
use zkas_pool.Zkas.Db.{Store, Payout, is_planned, update, accept, confirm}
use zkas_pool.Zkas.World.{ZkasPayoutEngineConfig, SendError, taken_as_paid, Sent, World, Reply}
use zkas_pool.Zkas.Tick.{Chain}
use zkas_pool.Zkas.Tick.Keeps.{Quiet, acceptance, confirmation, moved_cursor, marked_cycle, Closed}
use zkas_pool.Zkas.Tick.Runs.{run_ticks, run_ticks-keeps}

module _ (i : ℕ) where
  pub update-planned :
      (k : ℕ) (f : Payout → Payout)
      → ((p : Payout)
          → (if is_planned (f p).status then mine i (f p).id else 0)
            ≡ (if is_planned p.status then mine i p.id else 0))
      → (ps : List Payout) → planned_rows i (update k f ps) ≡ planned_rows i ps
  unfolding update
  update-planned k f h [] = refl
  update-planned k f h (p ∷ ps) = ground (arith, h p, update-planned k f h ps)

  pub accept-planned :
      (daa : ℕ) (p : Payout)
      → (if is_planned (accept daa p).status then mine i (accept daa p).id else 0)
        ≡ (if is_planned p.status then mine i p.id else 0)
  unfolding accept
  accept-planned daa p = ground arith

  pub confirm-planned :
      (p : Payout)
      → (if is_planned (confirm p).status then mine i (confirm p).id else 0)
        ≡ (if is_planned p.status then mine i p.id else 0)
  unfolding confirm
  confirm-planned p = ground arith

  rows_changed :
      (w : World) (ps : List Payout)
      → planned_rows i ps ≡ planned_rows i w.store.payouts
      → Safe i w
      → Safe i (record w { store = record w.store { payouts = ps } })
  rows_changed w ps same h = record {
    once = ground (arith, same, h.once);
    fresh = λ le. ground (arith, same, h.fresh le);
  }

  updated_Safe :
      (f : Store → Store) (w : World) → Quiet f → Safe i w → Safe i (record w { store = f w.store })
  updated_Safe f w (acceptance k d) h =
      rows_changed w _ (update-planned k (accept d) (accept-planned d) w.store.payouts) h
  updated_Safe f w (confirmation k) h =
      rows_changed w _ (update-planned k confirm confirm-planned w.store.payouts) h
  updated_Safe f w (moved_cursor a) h = record { once = h.once; fresh = h.fresh }
  updated_Safe f w (marked_cycle k status) h = record { once = h.once; fresh = h.fresh }

  Safe-Closed : Closed (Safe i)
  Safe-Closed = record {
    counted = λ w n st h. record { once = h.once; fresh = h.fresh };
    updated = updated_Safe;
    planned = λ params w {plan} {s} k h.
        let st =
          plan_zkas_cycle-keeps (SafeStore i (paid i w.log)) (SafeStore-Closed i (paid i w.log))
            params w.store {r = (plan, s)} (record { once = h.once; fresh = h.fresh }) k in
        record { once = st.once; fresh = st.fresh };
  }

  -- The calls for payout `i` that the node admitted, as `admitted` says of each call and those before
  abbrev pub admitted_sends : (List Sent → Sent → Bool) → List Sent → ℕ
  admitted_sends admitted [] = 0
  admitted_sends admitted (s ∷ earlier) =
      (if admitted earlier s then mine i s.payout_id else 0) + admitted_sends admitted earlier

  admitted_sends-le :
      (admitted : List Sent → Sent → Bool) (log : List Sent)
      → ((earlier : List Sent) (s : Sent)
          → taken_as_paid s.outcome ≡ false
          → admitted earlier s ≡ false)
      → admitted_sends admitted log ≤ paid i log
  admitted_sends-le admitted [] h = omega arith
  admitted_sends-le admitted (s ∷ earlier) h =
      one (taken_as_paid s.outcome) (admitted earlier s) (h earlier s)
        (admitted_sends-le admitted earlier h)
    where
      one :
          (taken a : Bool)
          → (taken ≡ false → a ≡ false)
          → admitted_sends admitted earlier ≤ paid i earlier
          → (if a then mine i s.payout_id else 0) + admitted_sends admitted earlier
            ≤ (if taken then mine i s.payout_id else 0) + paid i earlier
      one true a k rest = ground (arith, rest)
      one false a k rest = rw (k refl) (omega (arith, rest))

  -- The node admits at most one of the calls of the sender that pay payout `i`, over any run of ticks,
  -- with any answers of the node and the sender, and any call of the database refused or its reply
  -- lost. This asks that the node admit no call that the sender reports as failed without ambiguity
  -- (sender.rs does not promise it of `Failed`); and at the start that the calls taken for paid and
  -- the planned rows of the payout, of which the latch on it hides all, be one at most, with the
  -- sequence of ids past the payout if either is there.
  pub paid_once :
      (admitted : List Sent → Sent → Bool) (reply : ℕ → Reply)
      (send : List Sent → List ℕ → ℕ → Result SendError ℕ) (cfg : ZkasPayoutEngineConfig)
      (ticks : List (Chain × Bool)) (w : World)
      → ((earlier : List Sent) (s : Sent)
          → taken_as_paid s.outcome ≡ false
          → admitted earlier s ≡ false)
      → Safe i w
      → admitted_sends admitted (run_ticks reply send cfg ticks w).log ≤ 1
  paid_once admitted reply send cfg ticks w honest h =
      let s =
        run_ticks-keeps reply send cfg (Safe i) Safe-Closed (broadcast_pass-Safe i reply send cfg)
          ticks w h in
      let fewer = admitted_sends-le admitted (run_ticks reply send cfg ticks w).log honest in
      omega (arith, s.once, fewer)
