-- ===== src/Kas/Safety/Cycles.antt =====
-- payout-kas/src/execute.rs, `broadcast_cycle` as a whole: the invariant of payments.
use zkas_pool.Kas.Safety.{Safe, aim}
use zkas_pool.Kas.Safety.Broadcasts.{
  Named, no_names, Ready, Ready-Safe, Safe-calls, send_batches-Safe,
}
use zkas_pool.Base.{
  ℕ, suc, ◌≤◌, ◌≡◌, refl, Bool, length, List, [], ◌∷◌, ◌++◌, Option, none, some, arith, sum_by,
}
use zkas_pool.Base.Results.{Result, Panic, ok, err}
use zkas_pool.Base.Float.{Float}
use zkas_pool.Zkas.Db.{Payout}
use zkas_pool.Zkas.World.{Reply, ExecutionMode, dry_run, live}
use zkas_pool.Zkas.Safety.{mine, planned_rows}
use zkas_pool.StorageMass.Mass.{
  Script, TreasuryUtxo, PayoutRecipient, PlannedBatch, PlanBatchesResult, MassEvaluator,
  Transaction,
}
use zkas_pool.StorageMass.Fee.{FeeRate}
use zkas_pool.StorageMass.Planner.{plan_batches}
use zkas_pool.StorageMass.Planner.Partition.{paid_of}
use zkas_pool.StorageMass.Planner.Sums.{plan_batches-sum}
use zkas_pool.Kas.World.{
  Submission, World, and_then, known, query, After, After-and_then, After-write, After-query,
  After-map,
}
use zkas_pool.Kas.Sign.{Signer}
use zkas_pool.Kas.Broadcast.{
  Node, Ids, from_node, pending, in_flight_spend_tx_hashes, spendable, mark_broadcasting, gather,
  planned, note_start, rate_of, report_of, empty_report, broadcast_gathered, broadcast_cycle,
}
use zkas_pool.Kas.Safety.Gathers.{Still, Still-calls, Still-Safe, Gathered, gather-Gathered}

module _ (i : ℕ) where
  module _ (reply : ℕ → Reply) (parse_address : List ℕ → Option Script) where
    module _ (fl : Float) (signer : Signer) (ev : MassEvaluator) (treasury_script : Script)
        (take_tx : List Submission → Transaction → Bool) (mode : ExecutionMode) where
      Ready-cycles :
          (n c cycle : ℕ) (w : World)
          → Ready i n w
          → Ready i n (record w { store = mark_broadcasting cycle w.store; calls = c })
      Ready-cycles n c cycle w h = record { closed = h.closed; unsent = h.unsent; fresh = h.fresh }

      note_start-Ready :
          (n cycle : ℕ) (bs : List PlannedBatch) (m : ExecutionMode) (w : World)
          → Ready i n w
          → After
              (λ _. Ready i n)
              (Safe i)
              (note_start reply parse_address fl signer ev treasury_script take_tx mode cycle bs m
                w)
      unfolding note_start
      note_start-Ready n cycle [] m w h = h
      note_start-Ready n cycle (b ∷ bs) dry_run w h = h
      note_start-Ready n cycle (b ∷ bs) live w h =
          After-write (Ready i n) (Safe i) reply (mark_broadcasting cycle) w
            (Ready-cycles n (suc w.calls) cycle w h)
            (Safe-calls i (suc w.calls) w (Ready-Safe i n w h))
            (Ready-Safe i n _ (Ready-cycles n (suc w.calls) cycle w h))

      -- With the rows of the payout gathered once at most, all batches together aim so.
      planned-Ready :
          (ps : List Payout) (before w : World) (g : Ids × List PayoutRecipient) (rate : FeeRate fl)
          (utxos : List TreasuryUtxo)
          → Safe i before
          → sum_by (λ p. mine i p.id) ps ≤ planned_rows i before.store.payouts
          → Named g.0
          → sum_by (aim i g.0) g.1 ≤ sum_by (λ p. mine i p.id) ps
          → Still before w
          → (plan : PlanBatchesResult)
          → plan_batches fl ev treasury_script rate utxos g.1 ≡ some (ok plan)
          → Ready i (sum_by (aim i g.0) (paid_of plan.batches)) w
      planned-Ready ps before w g rate utxos safe le named few still plan run =
          let safe' = Still-Safe i before w still safe in
          let rows' : planned_rows i w.store.payouts ≡ planned_rows i before.store.payouts =
            rw still.same_store refl in
          let aimed =
            plan_batches-sum (aim i g.0) fl ev treasury_script rate
              (planned_rows i before.store.payouts) utxos g.1 {r = plan} (omega (arith, few, le))
              run in
          record {
            closed = safe'.once;
            unsent = omega (arith, aimed, safe'.once, rows');
            fresh = λ next. omega (arith, aimed, safe'.fresh next, rows');
          }

      plan_step :
          (w : World) (aimed : PlanBatchesResult → ℕ) (o : Option (Result Panic PlanBatchesResult))
          → Safe i w
          → ((plan : PlanBatchesResult) → o ≡ some (ok plan) → Ready i (aimed plan) w)
          → After
              (λ plan w'. Ready i (aimed plan) w')
              (Safe i)
              (known (planned reply parse_address fl signer ev treasury_script take_tx mode o) w)
      plan_step w aimed none s h = s
      plan_step w aimed (some (err p)) s h = s
      plan_step w aimed (some (ok plan)) s h = h plan refl

      from_node-Still :
          {A : Type 0} (before : World) (o : Option A) (w : World)
          → Still before w
          → After (λ _. Still before) (Still before) (from_node o w)
      from_node-Still before none w s = s
      from_node-Still before (some a) w s = s

      -- After the rows are gathered
      broadcast_gathered-Safe :
          (node : Node fl) (cycle : ℕ) (ps : List Payout) (before w : World)
          (g : Ids × List PayoutRecipient)
          → Safe i before
          → sum_by (λ p. mine i p.id) ps ≤ planned_rows i before.store.payouts
          → Gathered i ps before g w
          → After
              (λ _. Safe i)
              (Safe i)
              (broadcast_gathered reply parse_address fl signer ev treasury_script take_tx mode node
                cycle g w)
      unfolding broadcast_gathered
      broadcast_gathered-Safe node cycle ps before w g safe le got =
          let E = Still before in
          let S = Safe i in
          let to = λ (v : World) (s : E v). Still-Safe i before v s safe in
          After-and_then (λ _. E) (λ _. S) S (from_node node.virtual_daa_score w) _
            (After-map (λ _. E) E (λ _. E) S (from_node node.virtual_daa_score w)
              (from_node-Still before node.virtual_daa_score w got.still) (λ _ _ s. s) to)
            λ virtual_daa w2 s2.
              After-and_then (λ _. E) (λ _. S) S (query reply w2) _
                (After-query E S reply w2 (Still-calls before w2 (suc w2.calls) s2)
                  (to _ (Still-calls before w2 (suc w2.calls) s2)))
                λ _ w3 s3.
                  After-and_then (λ _. E) (λ _. S) S (from_node node.treasury_utxos w3) _
                    (After-map (λ _. E) E (λ _. E) S (from_node node.treasury_utxos w3)
                      (from_node-Still before node.treasury_utxos w3 s3) (λ _ _ s. s) to)
                    λ snapshots w4 s4.
                      let protected =
                        in_flight_spend_tx_hashes w3.store.payouts ++ node.krc20_hashes in
                      let utxos = spendable virtual_daa protected snapshots in
                      let rate =
                        rate_of reply parse_address fl signer ev treasury_script take_tx mode
                          node.fee_estimate in
                      let aimed =
                        λ (plan : PlanBatchesResult). sum_by (aim i g.0) (paid_of plan.batches) in
                      After-and_then (λ plan w'. Ready i (aimed plan) w') (λ _. S) S
                        (known
                          (planned reply parse_address fl signer ev treasury_script take_tx mode
                            (plan_batches fl ev treasury_script rate utxos g.1))
                          w4)
                        _
                        (plan_step w4 aimed (plan_batches fl ev treasury_script rate utxos g.1)
                          (to w4 s4)
                          (λ plan run.
                            planned-Ready ps before w4 g rate utxos safe le got.named
                              (got.few g.0 got.named) s4 plan run))
                        λ plan w5 r5.
                          After-and_then (λ _. Ready i (aimed plan)) (λ _. S) S
                            (note_start reply parse_address fl signer ev treasury_script take_tx
                              mode cycle plan.batches mode w5)
                            _ (note_start-Ready (aimed plan) cycle plan.batches mode w5 r5)
                            λ _ w6 r6.
                              send_batches-Safe i reply parse_address fl signer ev treasury_script
                                take_tx mode rate g.0 plan.batches
                                (report_of reply parse_address fl signer ev treasury_script take_tx
                                  mode (length utxos) plan)
                                w6 r6

      -- A broadcast from a snapshot of rows keeps the invariant, on success and on each error.
      pub broadcast_cycle-Safe :
          (node : Node fl) (cycle : ℕ) (payouts : List Payout) (w : World)
          → Safe i w
          → sum_by (λ p. mine i p.id) (pending payouts) ≤ planned_rows i w.store.payouts
          → After
              (λ _. Safe i)
              (Safe i)
              (broadcast_cycle reply parse_address fl signer ev treasury_script take_tx mode node
                cycle payouts w)
      unfolding broadcast_cycle
      broadcast_cycle-Safe node cycle payouts w safe le = split (pending payouts) le
        where
          split :
              (ps : List Payout)
              → sum_by (λ p. mine i p.id) ps ≤ planned_rows i w.store.payouts
              → After
                  (λ _. Safe i)
                  (Safe i)
                  (elim ps [
                    | [] ↦ (ok empty_report, w)
                    | p ∷ qs ↦ and_then (gather reply parse_address [] (p ∷ qs) w) (λ g w1.
                        broadcast_gathered reply parse_address fl signer ev treasury_script take_tx
                          mode node cycle g w1)
                  ])
          split [] le = safe
          split (p ∷ qs) le =
              After-and_then (Gathered i (p ∷ qs) w) (λ _. Safe i) (Safe i)
                (gather reply parse_address [] (p ∷ qs) w) _
                (After-map (Gathered i (p ∷ qs) w) (Still w) (Gathered i (p ∷ qs) w) (Safe i)
                  (gather reply parse_address [] (p ∷ qs) w)
                  (gather-Gathered i reply parse_address (p ∷ qs) [] w w no_names
                    (record { same_store = refl; same_log = refl }))
                  (λ g w' r. r) (λ w' s. Still-Safe i w w' s safe))
                (λ g w1 got. broadcast_gathered-Safe node cycle (p ∷ qs) w w1 g safe le got)
