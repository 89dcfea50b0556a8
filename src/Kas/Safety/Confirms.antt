-- ===== src/Kas/Safety/Confirms.antt =====
-- payout-kas/src/execute.rs, `confirm_cycle`, and engine.rs, `reconcile_cycle_status`: neither plans a
-- row nor submits a transaction.
use zkas_pool.Kas.Safety.{Safe}
use zkas_pool.Kas.Safety.Broadcasts.{Safe-calls}
use zkas_pool.Base.{ℕ, suc, ◌≡◌, List, [], ◌∷◌, Option, none, some, arith}
use zkas_pool.Base.Results.{ok}
use zkas_pool.Base.Table.{number_key, lookup}
use zkas_pool.Base.Float.{Float}
use zkas_pool.Zkas.Db.{Payout, update, accept, confirm}
use zkas_pool.Zkas.World.{Reply}
use zkas_pool.Zkas.Safety.{planned_rows}
use zkas_pool.Zkas.Safety.Ticks.{update-planned, accept-planned, confirm-planned}
use zkas_pool.Kas.Confirm.{ConfirmationState, accepted, confirmed, unknown, classify_confirmation}
use zkas_pool.Kas.World.{
  World, and_then, write, query, After, After-and_then, After-write, After-query,
}
use zkas_pool.Kas.Broadcast.{Node, from_node, with_payouts}
use zkas_pool.Kas.Engine.{
  ConfirmReport, no_confirms, change_daa, in_flight_rows, fits_i64, first_of, advance, probe,
  confirm_row, confirm_rows, confirm_cycle, reconcile_cycle_status,
}

module _ (i : ℕ) where
  rows_kept :
      (w : World) (ps : List Payout) (c : ℕ)
      → planned_rows i ps ≡ planned_rows i w.store.payouts
      → Safe i w
      → Safe i (record w { store = record w.store { payouts = ps }; calls = c })
  rows_kept w ps c e h = record {
    once = omega (arith, h.once, e);
    fresh = λ le. omega (arith, h.fresh le, e);
  }

  module _ (reply : ℕ → Reply) where
    -- A query, and a write of rows of which as many stay planned
    pub query-Safe : (w : World) → Safe i w → After (λ _. Safe i) (Safe i) (query reply w)
    query-Safe w h =
        After-query (Safe i) (Safe i) reply w (Safe-calls i (suc w.calls) w h)
          (Safe-calls i (suc w.calls) w h)

    write_rows-Safe :
        (f : List Payout → List Payout) (w : World)
        → planned_rows i (f w.store.payouts) ≡ planned_rows i w.store.payouts
        → Safe i w
        → After (λ _. Safe i) (Safe i) (write reply (with_payouts f) w)
    write_rows-Safe f w e h =
        After-write (Safe i) (Safe i) reply (with_payouts f) w
          (rows_kept w (f w.store.payouts) (suc w.calls) e h) (Safe-calls i (suc w.calls) w h)
          (rows_kept w (f w.store.payouts) (suc w.calls) e h)

    pub from_node-Safe :
        {A : Type 0} (o : Option A) (w : World)
        → Safe i w
        → After (λ _. Safe i) (Safe i) (from_node o w)
    from_node-Safe none w h = h
    from_node-Safe (some a) w h = h

    advance-Safe :
        (k : ℕ) (on_chain recorded : Option ℕ) (s : ConfirmationState) (r : ConfirmReport)
        (w : World)
        → Safe i w
        → After (λ _. Safe i) (Safe i) (advance reply k on_chain recorded s r w)
    unfolding advance
    advance-Safe k on_chain recorded accepted r w h =
        let daa = fits_i64 (first_of on_chain recorded) in
        After-and_then (λ _. Safe i) (λ _. Safe i) (Safe i)
          (write reply (with_payouts (update k (accept daa))) w) _
          (write_rows-Safe (update k (accept daa)) w
            (update-planned i k (accept daa) (accept-planned i daa) w.store.payouts) h)
          (λ _ w' h'. h')
    advance-Safe k on_chain recorded confirmed r w h =
        After-and_then (λ _. Safe i) (λ _. Safe i) (Safe i)
          (write reply (with_payouts (update k confirm)) w) _
          (write_rows-Safe (update k confirm) w
            (update-planned i k confirm (confirm-planned i) w.store.payouts) h)
          (λ _ w' h'. h')
    advance-Safe k on_chain recorded ConfirmationState.pending r w h = h
    advance-Safe k on_chain recorded unknown r w h = h

    module _ (fl : Float) (node : Node fl) where
      probe-Safe :
          (txid : ℕ) (o : Option ℕ) (w : World)
          → Safe i w
          → After (λ _. Safe i) (Safe i) (probe reply fl node txid o w)
      probe-Safe txid none w h = from_node-Safe (node.in_mempool txid) w h
      probe-Safe txid (some d) w h = h

      confirm_row-Safe :
          (virtual_daa : ℕ) (coins : List (ℕ × ℕ)) (p : Payout) (r : ConfirmReport) (w : World)
          → Safe i w
          → After (λ _. Safe i) (Safe i) (confirm_row reply fl node virtual_daa coins p r w)
      unfolding confirm_row
      confirm_row-Safe virtual_daa coins p r w h = split p.tx_hash
        where
          split :
              (o : Option ℕ)
              → After
                  (λ _. Safe i)
                  (Safe i)
                  (elim o [
                    | none ↦ (ok r, w)
                    | some txid ↦
                        let on_chain = lookup number_key txid coins in
                        let recorded = p.accepted_daa_score in
                        and_then
                          (probe reply fl node txid (first_of on_chain recorded) w)
                          λ in_mempool w'.
                            advance reply p.id on_chain recorded
                              (classify_confirmation (record {
                                virtual_daa_score = virtual_daa;
                                in_mempool = in_mempool;
                                change_block_daa_score = on_chain;
                                recorded_accept_daa = recorded;
                              }))
                              r
                              w'
                  ])
          split none = h
          split (some txid) =
              let on_chain = lookup number_key txid coins in
              After-and_then (λ _. Safe i) (λ _. Safe i) (Safe i)
                (probe reply fl node txid (first_of on_chain p.accepted_daa_score) w) _
                (probe-Safe txid (first_of on_chain p.accepted_daa_score) w h)
                (λ m w' h'. advance-Safe p.id on_chain p.accepted_daa_score _ r w' h')

      confirm_rows-Safe :
          (virtual_daa : ℕ) (coins : List (ℕ × ℕ)) (ps : List Payout) (r : ConfirmReport)
          (w : World)
          → Safe i w
          → After (λ _. Safe i) (Safe i) (confirm_rows reply fl node virtual_daa coins ps r w)
      unfolding confirm_rows
      confirm_rows-Safe virtual_daa coins [] r w h = h
      confirm_rows-Safe virtual_daa coins (p ∷ ps) r w h =
          After-and_then (λ _. Safe i) (λ _. Safe i) (Safe i)
            (confirm_row reply fl node virtual_daa coins p r w) _
            (confirm_row-Safe virtual_daa coins p r w h)
            (λ r' w' h'. confirm_rows-Safe virtual_daa coins ps r' w' h')

      pub confirm_cycle-Safe :
          (payouts : List Payout) (w : World)
          → Safe i w
          → After (λ _. Safe i) (Safe i) (confirm_cycle reply fl node payouts w)
      unfolding confirm_cycle
      confirm_cycle-Safe payouts w h = split (in_flight_rows payouts)
        where
          split :
              (ps : List Payout)
              → After
                  (λ _. Safe i)
                  (Safe i)
                  (elim ps [
                    | [] ↦ (ok no_confirms, w)
                    | p ∷ qs ↦ and_then (from_node node.virtual_daa_score w) λ virtual_daa w1.
                        and_then (from_node node.treasury_utxos w1) λ snapshots w2.
                          confirm_rows reply fl node virtual_daa
                            (change_daa snapshots [])
                            (p ∷ qs)
                            no_confirms
                            w2
                  ])
          split [] = h
          split (p ∷ qs) =
              After-and_then (λ _. Safe i) (λ _. Safe i) (Safe i)
                (from_node node.virtual_daa_score w) _ (from_node-Safe node.virtual_daa_score w h)
                λ virtual_daa w1 h1.
                  After-and_then (λ _. Safe i) (λ _. Safe i) (Safe i)
                    (from_node node.treasury_utxos w1) _ (from_node-Safe node.treasury_utxos w1 h1)
                    λ snapshots w2 h2.
                      confirm_rows-Safe virtual_daa (change_daa snapshots []) (p ∷ qs) no_confirms
                        w2 h2

    pub reconcile-Safe :
        (cycle : ℕ) (w : World)
        → Safe i w
        → After (λ _. Safe i) (Safe i) (reconcile_cycle_status reply cycle w)
    unfolding reconcile_cycle_status
    reconcile-Safe cycle w h =
        After-and_then (λ _. Safe i) (λ _. Safe i) (Safe i) (query reply w) _ (query-Safe w h)
          λ _ w1 h1.
            After-and_then (λ _. Safe i) (λ _. Safe i) (Safe i) (write reply _ w1) _
              (After-write (Safe i) (Safe i) reply _ w1
                (record { once = h1.once; fresh = h1.fresh }) (Safe-calls i (suc w1.calls) w1 h1)
                (record { once = h1.once; fresh = h1.fresh }))
              (λ _ w2 h2. h2)
