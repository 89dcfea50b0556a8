-- ===== src/Kas/Broadcast.antt =====
-- payout-kas/src/execute.rs: `broadcast_cycle`. The node's answers, the parser of addresses and what
-- the node says to a submitted transaction are parameters.
use zkas_pool.Base.{
  ℕ, ◌+◌, Bool, not, ◌||◌, List, [], ◌∷◌, ◌++◌, Option, none, some, ◌==◌, any, retain, length,
  if◌then◌else◌,
}
use zkas_pool.Base.Int.{pos, negsuc}
use zkas_pool.Base.Results.{Result, ok, err, Panic}
use zkas_pool.Base.Table.{bytes_key, lookup, insert}
use zkas_pool.Base.Decimal.{to_decimal}
use zkas_pool.Base.Float.{Float}
use zkas_pool.Zkas.Db.{
  Store, Payout, PayoutCycleStatus, is_planned, is_confirmed, is_failed, update, submit, address_of,
}
use zkas_pool.Zkas.World.{Reply, ExecutionMode, dry_run, live}
use zkas_pool.Zkas.Cycle.{mark_cycle}
use zkas_pool.StorageMass.Mass.{
  Script, TreasuryUtxo, PayoutRecipient, Transaction, PlannedBatch, PlanBatchesResult,
  MassEvaluator,
}
use zkas_pool.StorageMass.Fee.{FeeRate, from_feerate}
use zkas_pool.StorageMass.Planner.{plan_batches}
use zkas_pool.Kas.Confirm.{is_spendable}
use zkas_pool.Kas.World.{
  ExecuteError, db, kaspad, out_of_fuel, recipient_address, amount, unknown_recipient, panicked,
  ExecutionReport, Submission, World, Step, and_then, known, write, query,
}
use zkas_pool.Kas.Sign.{Signer, sign_batch_with_exact_fee}

-- The answers of the node during one call; `none` is a failure.
pub record Node (fl : Float) : Type 0 where
  pub virtual_daa_score : Option ℕ
  pub treasury_utxos : Option (List TreasuryUtxo)
  pub fee_estimate : Option fl.F
  pub in_mempool : ℕ → Option Bool
  -- The commit and reveal hashes of KRC-20 payouts in flight, of the query's union
  pub krc20_hashes : List ℕ

abbrev pub from_node : {A : Type 0} → Option A → World → Step A
from_node none w = (err kaspad, w)
from_node (some a) w = (ok a, w)

abbrev pub Ids : Type 0
Ids = List (List ℕ × ℕ)

abbrev pub empty_report : ExecutionReport
empty_report = record {
  planned_batches = 0;
  spendable_utxos = 0;
  submitted_txids = [];
  submitted_payouts = 0;
  deferred_below_floor = 0;
  unpaid = 0;
  submit_errors = [];
}

-- `CycleState::pending`
unfoldable pub pending : List Payout → List Payout
pending ps = retain (λ p. is_planned p.status) ps

-- `u64::try_from` of an amount
abbrev pub to_u64 : Payout → Result ExecuteError ℕ
to_u64 p = elim p.amount_sompi [ pos n ↦ ok n | negsuc n ↦ err (amount p.id p.amount_sompi) ]

abbrev pub found_or : {A : Type 0} → ExecuteError → Option A → Result ExecuteError A
found_or e none = err e
found_or e (some a) = ok a

-- `in_flight_spend_tx_hashes`, of the KAS column
unfoldable pub in_flight_spend_tx_hashes : List Payout → List ℕ
in_flight_spend_tx_hashes [] = []
in_flight_spend_tx_hashes (p ∷ ps) =
    let rest = in_flight_spend_tx_hashes ps in
    if is_confirmed p.status || is_failed p.status
    then rest
    else elim p.tx_hash [ none ↦ rest | some h ↦ h ∷ rest ]

-- The coins that are mature and no change of a payout in flight
unfoldable pub spendable : ℕ → List ℕ → List TreasuryUtxo → List TreasuryUtxo
spendable virtual_daa protected us =
    retain (λ u. not (any (λ h. h == u.outpoint.transaction_id) protected))
      (retain (λ u. is_spendable u.entry.block_daa_score u.entry.is_coinbase virtual_daa) us)

-- The rows of a batch's recipients
unfoldable pub rows_of : Ids → List PayoutRecipient → Result ExecuteError (List ℕ)
rows_of by_id [] = ok []
rows_of by_id (r ∷ rs) = elim (lookup bytes_key r.id by_id) [
  | none ↦ err (unknown_recipient r.id)
  | some k ↦ elim (rows_of by_id rs) [ err e ↦ err e | ok ks ↦ ok (k ∷ ks) ]
]

-- `mark_payout_submitted` for each row, in one transaction
unfoldable pub mark_submitted : ℕ → List ℕ → List Payout → List Payout
mark_submitted txid [] ps = ps
mark_submitted txid (k ∷ ks) ps = mark_submitted txid ks (update k (submit txid) ps)

abbrev pub with_payouts : (List Payout → List Payout) → Store → Store
with_payouts f s = record s { payouts = f s.payouts }

abbrev pub mark_broadcasting : ℕ → Store → Store
mark_broadcasting cycle s = record s {
  cycles = mark_cycle cycle PayoutCycleStatus.broadcasting s.cycles;
}

abbrev pub push_txid : ℕ → ExecutionReport → ExecutionReport
push_txid txid r = record r { submitted_txids = r.submitted_txids ++ txid ∷ [] }

module _ (reply : ℕ → Reply) (parse_address : List ℕ → Option Script) where
  -- The recipient of a row, and the table from ids to rows
  unfoldable pub gather : Ids → List Payout → World → Step (Ids × List PayoutRecipient)
  gather by_id [] w = (ok (by_id, []), w)
  gather by_id (p ∷ ps) w = and_then (known (to_u64 p) w) λ n w1. and_then (query reply w1) λ _ w2.
      and_then (known (found_or db (address_of p.wallet_id w2.store.wallets)) w2) λ address w3.
        and_then (known (found_or (recipient_address p.wallet_id) (parse_address address)) w3)
          λ script w4.
            and_then (gather (insert bytes_key (to_decimal p.id) p.id by_id) ps w4) λ r w5. (
              ok (
                r.0,
                record { id = to_decimal p.id; amount_sompi = n; script_public_key = script } ∷ r.1,
              ),
              w5,
            )

  module _ (fl : Float) (signer : Signer) (ev : MassEvaluator) (treasury_script : Script)
      (take_tx : List Submission → Transaction → Bool) (mode : ExecutionMode) where
    -- The submission, and the report of what the node said
    abbrev pub submitted : List ℕ → Transaction → ExecutionReport → World → Step ExecutionReport
    submitted ids tx report w =
        let taken = take_tx w.log tx in
        let txid = signer.tx_id tx in
        let marked : ExecutionReport = record report {
          submitted_payouts = report.submitted_payouts + length ids;
        } in
        (
          ok (
              if taken
              then push_txid txid marked
              else record marked { submit_errors = marked.submit_errors ++ txid ∷ [] }),
          record w { log = record { ids = ids; tx = tx; taken = taken } ∷ w.log },
        )

    -- Intent is recorded before the transaction is submitted.
    unfoldable pub submit_signed :
        ExecutionMode → List ℕ → Transaction → ExecutionReport → World → Step ExecutionReport
    submit_signed dry_run ids tx report w = (ok (push_txid (signer.tx_id tx) report), w)
    submit_signed live ids tx report w =
        and_then (write reply (with_payouts (mark_submitted (signer.tx_id tx) ids)) w)
          (λ _ w'. submitted ids tx report w')

    module _ (rate : FeeRate fl) (by_id : Ids) where
      unfoldable pub send_batch : PlannedBatch → ExecutionReport → World → Step ExecutionReport
      send_batch batch report w = and_then (known (rows_of by_id batch.payouts) w) λ ids w1.
          and_then (known (sign_batch_with_exact_fee signer treasury_script fl ev rate batch) w1)
            λ signed w2. submit_signed mode ids signed.tx report w2

      unfoldable pub send_batches :
          List PlannedBatch → ExecutionReport → World → Step ExecutionReport
      send_batches [] report w = (ok report, w)
      send_batches (b ∷ bs) report w =
          and_then (send_batch b report w) (λ report' w'. send_batches bs report' w')

    -- The plan of the cycle
    abbrev pub planned :
        Option (Result Panic PlanBatchesResult) → Result ExecuteError PlanBatchesResult
    planned none = err out_of_fuel
    planned (some (err p)) = err (panicked p)
    planned (some (ok r)) = ok r

    -- The cycle is marked in a live run with something to send.
    unfoldable pub note_start : ℕ → List PlannedBatch → ExecutionMode → World → Step (Unit {0})
    note_start cycle [] m w = (ok tt, w)
    note_start cycle (b ∷ bs) dry_run w = (ok tt, w)
    note_start cycle (b ∷ bs) live w = write reply (mark_broadcasting cycle) w

    abbrev pub rate_of : Option fl.F → FeeRate fl
    rate_of none = from_feerate fl fl.zero_f
    rate_of (some x) = from_feerate fl x

    abbrev pub report_of : ℕ → PlanBatchesResult → ExecutionReport
    report_of coins r = record empty_report {
      planned_batches = length r.batches;
      spendable_utxos = coins;
      deferred_below_floor = length r.deferred_below_floor;
      unpaid = length r.unpaid;
    }

    -- With the recipients at hand: the coins, the plan and its batches
    unfoldable pub broadcast_gathered :
        Node fl → ℕ → Ids × List PayoutRecipient → World → Step ExecutionReport
    unfolding note_start send_batches
    broadcast_gathered node cycle g w =
        and_then (from_node node.virtual_daa_score w) λ virtual_daa w2.
          and_then (query reply w2) λ _ w3.
            let protected = in_flight_spend_tx_hashes w3.store.payouts ++ node.krc20_hashes in
            and_then (from_node node.treasury_utxos w3) λ snapshots w4.
              let utxos = spendable virtual_daa protected snapshots in
              let rate = rate_of node.fee_estimate in
              and_then (known (planned (plan_batches fl ev treasury_script rate utxos g.1)) w4)
                λ plan w5.
                  and_then (note_start cycle plan.batches mode w5)
                    λ _ w6. send_batches rate g.0 plan.batches (report_of (length utxos) plan) w6

    unfoldable pub broadcast_cycle : Node fl → ℕ → List Payout → World → Step ExecutionReport
    unfolding broadcast_gathered
    broadcast_cycle node cycle payouts w = elim (pending payouts) [
      | [] ↦ (ok empty_report, w)
      | p ∷ ps ↦ and_then (gather [] (p ∷ ps) w) (λ g w1. broadcast_gathered node cycle g w1)
    ]
