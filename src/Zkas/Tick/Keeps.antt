-- ===== src/Zkas/Tick/Keeps.antt =====
-- Invariants of a tick: what the database's other updates keep, and a broadcast pass keeps, a tick
-- keeps, whatever the node answers and whatever call of the database fails.
use zkas_pool.Base.{
  ℕ, suc, ◌≡◌, Bool, true, false, List, [], ◌∷◌, Option, none, some, ◌==◌, if◌then◌else◌, leb,
  retain,
}
use zkas_pool.Base.Results.{i64_max, Result, ok, err}
use zkas_pool.Zkas.Confirm.{
  ConfirmationState, pending, accepted, confirmed, unknown, classify_confirmation,
  zkas_payout_confirmation_daa,
}
use zkas_pool.Zkas.Db.{Store, PayoutCycleStatus, accept, confirm, CursorText, hash, malformed}
use zkas_pool.Zkas.World.{
  TickStats, SendError, ChainError, transport, cursor_invalid, daa_out_of_range, Sent, World, Reply,
  query, write-cases, query-cases, Step,
}
use zkas_pool.Zkas.Plan.{PlanZkasCycleParams, PlanZkasCycleResult, plan_zkas_cycle}
use zkas_pool.Zkas.Cycle.{derived_status, mark_cycle}
use zkas_pool.Zkas.Tick.{
  AcceptanceScan, Chain, and_then, answered_ok, from_chain, to_i64, ZkasInFlightPayout,
  list_zkas_in_flight_payouts, update_payout, set_cursor, count_confirmed, count_newly_accepted,
  exec, record_acceptance, confirm_as, probe, first_of, confirm_one, confirm_all, anchor,
  ensure_confirm_cursor, after_scan, from_cursor, confirm_pass, reconcile_cycle,
}

-- The updates of the confirmation pass and of the reconciliation.
pub data Quiet : (Store → Store) → Type 0 where
  acceptance : (k d : ℕ) → Quiet (update_payout k (accept d))
  confirmation : (k : ℕ) → Quiet (update_payout k confirm)
  moved_cursor : (h : ℕ) → Quiet (set_cursor h)
  marked_cycle :
      (k : ℕ) (status : PayoutCycleStatus)
      → Quiet (λ s. record s { cycles = mark_cycle k status s.cycles })

-- A property of the world that those updates and a plan keep, and that the counters do not enter.
pub record Closed (P : World → Type 0) : Type 1 where
  pub counted : (w : World) (n : ℕ) (st : TickStats) → P w → P (record w { calls = n; stats = st })
  pub updated : (f : Store → Store) (w : World) → Quiet f → P w → P (record w { store = f w.store })
  pub planned :
      (params : PlanZkasCycleParams) (w : World) {plan : PlanZkasCycleResult} {s : Store}
      → plan_zkas_cycle params w.store ≡ ok (plan, s)
      → P w
      → P (record w { store = s })

module _ (P : World → Type 0) (closed : Closed P) where
  -- A step that keeps the invariant, after one that does.
  pub and_then-keeps :
      {A B : Type 0} (p : Step A) (k : A → World → Step B)
      → P p.1
      → ((a : A) (w : World) → P w → P (k a w).1)
      → P (and_then p k).1
  and_then-keeps (ok a, w) k h g = g a w h
  and_then-keeps (err e, w) k h g = h

  pub from_chain-keeps :
      {A : Type 0} (r : Result ChainError A) (w : World) → P w → P (from_chain r w).1
  from_chain-keeps (ok a) w h = h
  from_chain-keeps (err e) w h = h

  module _ (reply : ℕ → Reply) (send : List Sent → List ℕ → ℕ → Result SendError ℕ) where
    pub bump : (w : World) → P w → P (record w { calls = suc w.calls })
    bump w h = closed.counted w (suc w.calls) w.stats h

    exec-keeps : (f : Store → Store) (w : World) → Quiet f → P w → P (exec reply send f w).1
    exec-keeps f w c h =
        write-cases reply f w (λ p. P (answered_ok p).1) applied (closed.counted w _ _ h) applied
      where
        applied : P (record w { store = f w.store; calls = suc w.calls })
        applied = closed.counted (record w { store = f w.store }) _ _ (closed.updated f w c h)

    pub query-keeps : (w : World) → P w → P (answered_ok (query reply w)).1
    query-keeps w h = query-cases reply w (λ p. P (answered_ok p).1) (bump w h) (bump w h)

    record_acceptance-keeps :
        (k daa : ℕ) (w : World) → P w → P (record_acceptance reply send k daa w).1
    unfolding record_acceptance
    record_acceptance-keeps k daa w h =
        and_then-keeps (to_i64 daa w) _ (fits (leb daa i64_max))
          (λ d w' h'. exec-keeps _ w' (acceptance k d) h')
      where
        fits :
            (b : Bool)
            → P (if◌then◌else◌ {A = Step ℕ} b (ok daa, w) (err (daa_out_of_range daa), w)).1
        fits true = h
        fits false = h

    confirms-keeps :
        (k : ℕ) (w : World)
        → P w
        → P (and_then (exec reply send (update_payout k confirm) w) (λ _ w'. count_confirmed w')).1
    confirms-keeps k w h =
        and_then-keeps (exec reply send (update_payout k confirm) w) _
          (exec-keeps _ w (confirmation k) h) (λ _ w' h'. closed.counted w' _ _ h')

    confirm_as-keeps :
        (p : ZkasInFlightPayout) (newly : Option ℕ) (c : ConfirmationState) (w : World)
        → P w
        → P (confirm_as reply send p newly c w).1
    confirm_as-keeps p (some daa) confirmed w h = go p.accepted_daa_score
      where
        go :
            (o : Option ℕ)
            → P
                (elim o as (λ _. Step Unit) [
                  | none ↦ and_then (record_acceptance reply send p.payout_id daa w) (λ _ w'.
                      and_then
                        (exec reply send (update_payout p.payout_id confirm) w')
                        (λ _ w''. count_confirmed w''))
                  | some d ↦
                      and_then
                        (exec reply send (update_payout p.payout_id confirm) w)
                        (λ _ w'. count_confirmed w')
                ]).1
        go none =
            and_then-keeps (record_acceptance reply send p.payout_id daa w) _
              (record_acceptance-keeps p.payout_id daa w h)
              (λ _ w' h'. confirms-keeps p.payout_id w' h')
        go (some d) = confirms-keeps p.payout_id w h
    confirm_as-keeps p none confirmed w h = confirms-keeps p.payout_id w h
    confirm_as-keeps p (some daa) accepted w h = go p.accepted_daa_score
      where
        go :
            (o : Option ℕ)
            → P
                (elim o as (λ _. Step Unit) [
                  | none ↦
                      and_then
                        (record_acceptance reply send p.payout_id daa w)
                        (λ _ w'. count_newly_accepted w')
                  | some d ↦ (ok tt, w)
                ]).1
        go none =
            and_then-keeps (record_acceptance reply send p.payout_id daa w) _
              (record_acceptance-keeps p.payout_id daa w h) (λ _ w' h'. closed.counted w' _ _ h')
        go (some d) = h
    confirm_as-keeps p none accepted w h = h
    confirm_as-keeps p newly pending w h = h
    confirm_as-keeps p newly unknown w h = h

    module _ (node : Chain) where
      probe-keeps :
          (p : ZkasInFlightPayout) (o : Option ℕ) (w : World)
          → P w
          → P (probe reply send node p o w).1
      probe-keeps p none w h = from_chain-keeps (node.in_mempool p.tx_hash) w h
      probe-keeps p (some daa) w h = h

      confirm_one-keeps :
          (scan : AcceptanceScan) (virtual_daa : ℕ) (p : ZkasInFlightPayout) (w : World)
          → P w
          → P (confirm_one reply send node scan virtual_daa p w).1
      unfolding confirm_one
      confirm_one-keeps scan virtual_daa p w h =
          let newly = scan.accepted_at p.tx_hash in
          let accept_daa = first_of p.accepted_daa_score newly in
          let state : Bool → ConfirmationState = λ b.
            classify_confirmation
              (record { virtual_daa_score = virtual_daa; in_mempool = b; accept_daa = accept_daa })
              zkas_payout_confirmation_daa in
          and_then-keeps (probe reply send node p accept_daa w)
            (λ b w'. confirm_as reply send p newly (state b) w') (probe-keeps p accept_daa w h)
            (λ b w' h'. confirm_as-keeps p newly (state b) w' h')

      confirm_all-keeps :
          (scan : AcceptanceScan) (virtual_daa : ℕ) (ps : List ZkasInFlightPayout) (w : World)
          → P w
          → P (confirm_all reply send node scan virtual_daa ps w).1
      unfolding confirm_all
      confirm_all-keeps scan virtual_daa [] w h = h
      confirm_all-keeps scan virtual_daa (p ∷ ps) w h =
          and_then-keeps (confirm_one reply send node scan virtual_daa p w) _
            (confirm_one-keeps scan virtual_daa p w h)
            (λ _ w' h'. confirm_all-keeps scan virtual_daa ps w' h')

      set_cursor-keeps : (h : ℕ) (w : World) → P w → P (exec reply send (set_cursor h) w).1
      set_cursor-keeps h w s = exec-keeps (set_cursor h) w (moved_cursor h) s

      anchor-keeps : (w : World) → P w → P (anchor reply send node w).1
      anchor-keeps w h =
          and_then-keeps (from_chain node.sink w) _ (from_chain-keeps node.sink w h)
            (λ a w' h'. set_cursor-keeps a w' h')

      ensure_confirm_cursor-keeps :
          (w : World) → P w → P (ensure_confirm_cursor reply send node w).1
      unfolding ensure_confirm_cursor
      ensure_confirm_cursor-keeps w h =
          and_then-keeps (answered_ok (query reply w)) _ (query-keeps w h)
            (λ _ w' h'. go w' h' w'.store.cursor)
        where
          go :
              (w' : World)
              → P w'
              → (o : Option CursorText)
              → P
                  (elim o as (λ _. Step Unit) [
                    | none ↦ anchor reply send node w'
                    | some c ↦ (ok tt, w')
                  ]).1
          go w' h' none = anchor-keeps w' h'
          go w' h' (some c) = h'

      after_scan-keeps :
          (virtual_daa : ℕ) (rows : List ZkasInFlightPayout) (r : Result ChainError AcceptanceScan)
          (w : World)
          → P w
          → P (after_scan reply send node virtual_daa rows r w).1
      after_scan-keeps virtual_daa rows (err cursor_invalid) w h = anchor-keeps w h
      after_scan-keeps virtual_daa rows (err transport) w h = h
      after_scan-keeps virtual_daa rows (ok scan) w h =
          and_then-keeps (confirm_all reply send node scan virtual_daa rows w) _
            (confirm_all-keeps scan virtual_daa rows w h) (λ _ w' h'. go w' h' scan.new_cursor)
        where
          go :
              (w' : World)
              → P w'
              → (o : Option ℕ)
              → P
                  (elim o as (λ _. Step Unit) [
                    | none ↦ (ok tt, w')
                    | some h ↦ exec reply send (set_cursor h) w'
                  ]).1
          go w' h' none = h'
          go w' h' (some a) = set_cursor-keeps a w' h'

      from_cursor-keeps :
          (virtual_daa : ℕ) (rows : List ZkasInFlightPayout) (o : Option CursorText) (w : World)
          → P w
          → P (from_cursor reply send node virtual_daa rows o w).1
      from_cursor-keeps virtual_daa rows none w h = ensure_confirm_cursor-keeps w h
      from_cursor-keeps virtual_daa rows (some malformed) w h = anchor-keeps w h
      from_cursor-keeps virtual_daa rows (some (hash a)) w h =
          after_scan-keeps virtual_daa rows _ w h

      pub confirm_pass-keeps :
          (virtual_daa : ℕ) (w : World) → P w → P (confirm_pass reply send node virtual_daa w).1
      unfolding confirm_pass
      confirm_pass-keeps virtual_daa w h =
          and_then-keeps (answered_ok (query reply w)) _ (query-keeps w h) (λ _ w1 h1.
            and_then-keeps (answered_ok (query reply w1)) _ (query-keeps w1 h1) (λ _ w2 h2.
              from_cursor-keeps virtual_daa (list_zkas_in_flight_payouts w1.store) w2.store.cursor
                w2 h2))

      pub reconcile_cycle-keeps :
          (cycle : ℕ) (w : World) → P w → P (reconcile_cycle reply send node cycle w).1
      unfolding reconcile_cycle
      reconcile_cycle-keeps cycle w h =
          and_then-keeps (answered_ok (query reply w)) _ (query-keeps w h) (λ _ w' h'.
            go w' h' (derived_status (retain (λ p. p.cycle_id == cycle) w'.store.payouts)))
        where
          go :
              (w' : World)
              → P w'
              → (o : Option PayoutCycleStatus)
              → P
                  (elim o as (λ _. Step Unit) [
                    | none ↦ (ok tt, w')
                    | some status ↦
                        exec reply send
                          (λ s. record s { cycles = mark_cycle cycle status s.cycles })
                          w'
                  ]).1
          go w' h' none = h'
          go w' h' (some status) =
              exec-keeps (λ s. record s { cycles = mark_cycle cycle status s.cycles }) w'
                (marked_cycle cycle status) h'
