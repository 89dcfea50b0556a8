-- ===== src/Kas/Engine.antt =====
-- payout-kas/src/engine.rs, window.rs and `confirm_cycle` of execute.rs: a tick of the engine and a run
-- of ticks.
use zkas_pool.Base.{
  ℕ, suc, ◌/◌, max, Bool, true, false, not, ◌&&◌, List, [], ◌∷◌, Option, none, some, leb,
  if◌then◌else◌, retain,
}
use zkas_pool.Base.Int.{ℤ, pos, leb_ℤ}
use zkas_pool.Base.Results.{Result, ok, err, i64_max}
use zkas_pool.Base.Table.{number_key, lookup, insert}
use zkas_pool.Base.Float.{Float}
use zkas_pool.Zkas.Db.{
  Store, Payout, PayoutCycleStatus, range, kas, is_in_flight, is_failed, update, accept, confirm,
}
use zkas_pool.Zkas.World.{Reply, ExecutionMode}
use zkas_pool.Zkas.Plan.{find_cycle}
use zkas_pool.StorageMass.Mass.{Script, TreasuryUtxo, Transaction, MassEvaluator}
use zkas_pool.StorageMass.Fee.{saturating_add, saturating_mul}
use zkas_pool.Kas.Confirm.{
  ConfirmationState, pending, accepted, confirmed, unknown, classify_confirmation,
  kas_payout_confirmation_daa,
}
use zkas_pool.Kas.World.{
  ExecuteError, db, spend_cap_exceeded, span_too_small, Submission, World, Step, and_then, known,
  write, query,
}
use zkas_pool.Kas.Sign.{Signer}
use zkas_pool.Kas.Broadcast.{Node, from_node, found_or, broadcast_cycle, with_payouts}
use zkas_pool.Kas.Cycle.{
  CycleState, PlanKasCycleParams, from_payouts, derive_cycle_status, reconciled, list_for_cycle,
  get_cycle, plan_kas_cycle, saturating_add_i64,
}

-- `cycle_window` of window.rs
unfoldable pub kas_window : ℕ → ℕ → ℕ × ℕ
kas_window virtual_daa_score span =
    let width = max span 1 in
    let start = saturating_mul (virtual_daa_score / width) width in
    (start, saturating_add start width)

pub record PayoutEngineConfig : Type 0 where
  pub cycle_span_daa : ℕ
  pub threshold_sompi : ℤ
  pub max_payout_sompi_per_cycle : Option ℤ
  pub mode : ExecutionMode

-- `PayoutEngine::new`, of the check of its configuration
unfoldable pub new_engine : PayoutEngineConfig → Result ExecuteError PayoutEngineConfig
new_engine cfg =
    if leb cfg.cycle_span_daa kas_payout_confirmation_daa
    then err (span_too_small cfg.cycle_span_daa kas_payout_confirmation_daa)
    else ok cfg

pub record ConfirmReport : Type 0 where
  pub accepted : ℕ
  pub confirmed : ℕ
  pub pending : ℕ
  pub unknown : ℕ

abbrev pub no_confirms : ConfirmReport
no_confirms = record { accepted = 0; confirmed = 0; pending = 0; unknown = 0 }

-- The coins of the treasury by their transaction
unfoldable pub change_daa : List TreasuryUtxo → List (ℕ × ℕ) → List (ℕ × ℕ)
change_daa [] t = t
change_daa (u ∷ us) t =
    change_daa us (insert number_key u.outpoint.transaction_id u.entry.block_daa_score t)

abbrev pub is_some : Option ℕ → Bool
is_some none = false
is_some (some n) = true

unfoldable pub in_flight_rows : List Payout → List Payout
in_flight_rows ps = retain (λ p. is_in_flight p.status && is_some p.tx_hash) ps

abbrev pub fits_i64 : Option ℕ → ℕ
fits_i64 none = 0
fits_i64 (some n) = if leb n i64_max then n else 0

abbrev pub first_of : Option ℕ → Option ℕ → Option ℕ
first_of (some a) b = some a
first_of none b = b

abbrev pub spend_total : List Payout → ℤ → ℤ
spend_total [] acc = acc
spend_total (p ∷ ps) acc =
    spend_total ps (if is_failed p.status then acc else saturating_add_i64 acc p.amount_sompi)

abbrev pub over_cap : ℤ → Option ℤ → Bool
over_cap total none = false
over_cap total (some c) = not (leb_ℤ total c)

-- The node's answers in a tick: at its start, to the broadcast, and to the confirmation
pub record Answers (fl : Float) : Type 0 where
  pub at_start : Option ℕ
  pub broadcasting : Node fl
  pub confirming : Node fl

module _ (reply : ℕ → Reply) where
  -- What a derived state does to a payout
  unfoldable pub advance :
      ℕ → Option ℕ → Option ℕ → ConfirmationState → ConfirmReport → World → Step ConfirmReport
  advance k on_chain recorded accepted r w =
      and_then
        (write reply (with_payouts (update k (accept (fits_i64 (first_of on_chain recorded))))) w)
        λ _ w'. (ok (record r { accepted = suc r.accepted }), w')
  advance k on_chain recorded confirmed r w =
      and_then (write reply (with_payouts (update k confirm)) w)
        λ _ w'. (ok (record r { confirmed = suc r.confirmed }), w')
  advance k on_chain recorded pending r w = (ok (record r { pending = suc r.pending }), w)
  advance k on_chain recorded unknown r w = (ok (record r { unknown = suc r.unknown }), w)

  module _ (fl : Float) (node : Node fl) where
    -- The probe of the mempool is for rows without a sign of acceptance.
    abbrev pub probe : ℕ → Option ℕ → World → Step Bool
    probe txid (some daa) w = (ok false, w)
    probe txid none w = from_node (node.in_mempool txid) w

    unfoldable pub confirm_row :
        ℕ → List (ℕ × ℕ) → Payout → ConfirmReport → World → Step ConfirmReport
    unfolding advance
    confirm_row virtual_daa coins p r w = elim p.tx_hash [
      | none ↦ (ok r, w)
      | some txid ↦
          let on_chain = lookup number_key txid coins in
          let recorded = p.accepted_daa_score in
          and_then (probe txid (first_of on_chain recorded) w) λ in_mempool w'.
            advance p.id on_chain recorded
              (classify_confirmation (record {
                virtual_daa_score = virtual_daa;
                in_mempool = in_mempool;
                change_block_daa_score = on_chain;
                recorded_accept_daa = recorded;
              }))
              r w'
    ]

    unfoldable pub confirm_rows :
        ℕ → List (ℕ × ℕ) → List Payout → ConfirmReport → World → Step ConfirmReport
    unfolding confirm_row
    confirm_rows virtual_daa coins [] r w = (ok r, w)
    confirm_rows virtual_daa coins (p ∷ ps) r w =
        and_then (confirm_row virtual_daa coins p r w)
          (λ r' w'. confirm_rows virtual_daa coins ps r' w')

    unfoldable pub confirm_cycle : List Payout → World → Step ConfirmReport
    unfolding confirm_rows in_flight_rows
    confirm_cycle payouts w = elim (in_flight_rows payouts) [
      | [] ↦ (ok no_confirms, w)
      | p ∷ ps ↦ and_then (from_node node.virtual_daa_score w) λ virtual_daa w1.
          and_then (from_node node.treasury_utxos w1) λ snapshots w2.
            confirm_rows virtual_daa (change_daa snapshots []) (p ∷ ps) no_confirms w2
    ]

  unfoldable pub reconcile_cycle_status : ℕ → World → Step PayoutCycleStatus
  reconcile_cycle_status cycle w = and_then (query reply w) λ _ w1.
      let derived = derive_cycle_status (from_payouts (list_for_cycle w1.store cycle)) in
      and_then
        (write reply (λ (s : Store). record s { cycles = reconciled cycle derived s.cycles }) w1)
        λ _ w2. (ok derived, w2)

  -- The cycle and its rows read back
  unfoldable pub load_cycle : ℕ → World → Step CycleState
  load_cycle k w = and_then (query reply w) λ _ w1.
      and_then (known (found_or db (get_cycle k w1.store.cycles)) w1) λ c w2.
        and_then (query reply w2)
          λ _ w3. (ok (record { cycle = c; payouts = list_for_cycle w3.store k }), w3)

  -- The plan's transaction, the rows and the cycle read back, and the entry of the audit log
  unfoldable pub plan_and_load : PlanKasCycleParams → World → Step CycleState
  plan_and_load params w = elim (plan_kas_cycle params w.store) [
    | err e ↦ (err db, w)
    | ok (k, s) ↦ and_then (write reply (λ _. s) w) λ _ w1. and_then (query reply w1) λ _ w2.
        let payouts = list_for_cycle w2.store k in
        and_then (query reply w2) λ _ w3.
          and_then (known (found_or db (get_cycle k w3.store.cycles)) w3) λ c w4.
            and_then (query reply w4) λ _ w5. (ok (record { cycle = c; payouts = payouts }), w5)
  ]

  unfoldable pub resume_or_plan_kas_cycle : PlanKasCycleParams → World → Step CycleState
  unfolding plan_and_load
  resume_or_plan_kas_cycle params w = and_then (query reply w) λ _ w1.
      elim (find_cycle (range kas params.daa_start params.daa_end) w1.store.cycles) [
        | none ↦ plan_and_load params w1
        | some c ↦ and_then (query reply w1) λ _ w2.
            and_then (query reply w2)
              λ _ w3. (ok (record { cycle = c; payouts = list_for_cycle w3.store c.id }), w3)
      ]

  module _ (parse_address : List ℕ → Option Script) (fl : Float) (signer : Signer)
      (ev : MassEvaluator) (treasury_script : Script)
      (take_tx : List Submission → Transaction → Bool) (cfg : PayoutEngineConfig) where
    unfoldable pub drive_cycle : Answers fl → CycleState → World → Step PayoutCycleStatus
    drive_cycle a st w =
        let total = spend_total st.payouts (pos 0) in
        if over_cap total cfg.max_payout_sompi_per_cycle
        then (err (spend_cap_exceeded total), w)
        else and_then
            (broadcast_cycle reply parse_address fl signer ev treasury_script take_tx cfg.mode
              a.broadcasting st.cycle.id st.payouts w)
            λ report w1. and_then (load_cycle st.cycle.id w1) λ again w2.
              and_then (confirm_cycle fl a.confirming again.payouts w2)
                λ confirms w3. reconcile_cycle_status st.cycle.id w3

    unfoldable pub run_locked : Answers fl → World → Step PayoutCycleStatus
    run_locked a w = and_then (from_node a.at_start w) λ virtual_daa w1.
        let (start, end) = kas_window virtual_daa cfg.cycle_span_daa in
        and_then
          (resume_or_plan_kas_cycle
            (record { daa_start = start; daa_end = end; threshold_sompi = cfg.threshold_sompi }) w1)
          λ st w2. drive_cycle a st w2

    -- A tick with the leader's lock, or without it; the loop goes on after an error.
    unfoldable pub run_once : Bool → Answers fl → World → World
    run_once false a w = w
    run_once true a w = (run_locked a w).1

    unfoldable pub run_ticks : List (Bool × Answers fl) → World → World
    run_ticks [] w = w
    run_ticks ((lock, a) ∷ ts) w = run_ticks ts (run_once lock a w)
