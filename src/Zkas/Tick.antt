-- ===== src/Zkas/Tick.antt =====
-- payout-zkas/src/engine.rs: the confirmation pass, the reconciliation of a cycle, and a tick. The
-- node's answers during a tick are a parameter, `Chain`, and so is whether the tick gets the lock
-- of the treasury's leader.
pub mod Keeps
pub mod Status
pub mod Runs
use zkas_pool.Base.{
  ℕ, suc, ◌+◌, Bool, true, false, not, List, [], ◌∷◌, Option, none, some, ◌==◌, ◌&&◌, ◌||◌, leb,
  ltb, if◌then◌else◌, retain, length, map,
}
use zkas_pool.Base.Results.{i64_max, Result, ok, err}
use zkas_pool.Base.Sort.{sort_by, by_key}
use zkas_pool.Zkas.Window.{cycle_window}
use zkas_pool.Zkas.Confirm.{
  ConfirmationState, pending, accepted, confirmed, unknown, ConfirmationInputs,
  classify_confirmation, zkas_payout_confirmation_daa,
}
use zkas_pool.Zkas.Db.{
  PayoutKind, zkas, PayoutCycleStatus, PayoutCycle, Payout, CycleKey, range, CursorText, hash,
  malformed, Store, is_in_flight, is_confirmed, is_failed, is_zkas, update, accept, confirm,
}
use zkas_pool.Zkas.World.{
  ZkasPayoutEngineConfig, SendError, ChainError, transport, cursor_invalid, EngineError, db, chain,
  daa_out_of_range, span_too_small, TickStats, no_stats, Sent, World, Reply, write, query, Step,
}
use zkas_pool.Zkas.Cycle.{derived_status, mark_cycle}
use zkas_pool.Zkas.Broadcast.{broadcast_pass}
use zkas_pool.Zkas.Plan.{find_cycle, plan_zkas_cycle}

pub record AcceptanceScan : Type 0 where
  -- The score of the block that accepted a transaction
  pub accepted_at : ℕ → Option ℕ
  pub new_cursor : Option ℕ

pub record Chain : Type 0 where
  pub virtual_daa_score : Result ChainError ℕ
  pub sink : Result ChainError ℕ
  pub in_mempool : ℕ → Result ChainError Bool
  pub accepted_since : ℕ → List ℕ → Result ChainError AcceptanceScan

-- `?` after a step
abbrev pub and_then : {A B : Type 0} → Step A → (A → World → Step B) → Step B
and_then (ok a, w) k = k a w
and_then (err e, w) k = (err e, w)

-- `.await?` of a call of the database, and of the node
abbrev pub answered_ok : Bool × World → Step Unit
answered_ok (true, w) = (ok tt, w)
answered_ok (false, w) = (err db, w)

abbrev pub from_chain : {A : Type 0} → Result ChainError A → World → Step A
from_chain (ok a) w = (ok a, w)
from_chain (err e) w = (err (chain e), w)

-- `ZkasPayoutEngine::new`, of the check of its configuration
unfoldable pub new : ZkasPayoutEngineConfig → Result EngineError ZkasPayoutEngineConfig
new cfg =
    if leb cfg.cycle_span_daa zkas_payout_confirmation_daa
    then err (span_too_small cfg.cycle_span_daa zkas_payout_confirmation_daa)
    else ok cfg

-- `i64::try_from`
abbrev pub to_i64 : ℕ → World → Step ℕ
to_i64 daa w = if leb daa i64_max then (ok daa, w) else (err (daa_out_of_range daa), w)

-- A payout of the in-flight query: its id, transaction and recorded score
pub record ZkasInFlightPayout : Type 0 where
  pub payout_id : ℕ
  pub tx_hash : ℕ
  pub accepted_daa_score : Option ℕ

unfoldable pub of_zkas : ℕ → List PayoutCycle → Bool
of_zkas cycle [] = false
of_zkas cycle (c ∷ cs) = c.id == cycle && is_zkas c.kind || of_zkas cycle cs

unfoldable pub in_flight_of : List PayoutCycle → List Payout → List ZkasInFlightPayout
unfolding of_zkas
in_flight_of cs [] = []
in_flight_of cs (p ∷ ps) =
    let rest = in_flight_of cs ps in
    elim (if of_zkas p.cycle_id cs && is_in_flight p.status then p.tx_hash else none) [
      | none ↦ rest
      | some txid ↦
          record { payout_id = p.id; tx_hash = txid; accepted_daa_score = p.accepted_daa_score }
          ∷ rest
    ]

unfoldable pub list_zkas_in_flight_payouts : Store → List ZkasInFlightPayout
unfolding in_flight_of
list_zkas_in_flight_payouts s =
    sort_by (by_key (λ p. p.payout_id)) (in_flight_of s.cycles s.payouts)

abbrev pub update_payout : ℕ → (Payout → Payout) → Store → Store
update_payout k f s = record s { payouts = update k f s.payouts }

abbrev pub set_cursor : ℕ → Store → Store
set_cursor h s = record s { cursor = some (hash h) }

abbrev pub count_confirmed : World → Step Unit
count_confirmed w =
    (ok tt, record w { stats = record w.stats { confirmed = suc w.stats.confirmed } })

abbrev pub count_newly_accepted : World → Step Unit
count_newly_accepted w =
    (ok tt, record w { stats = record w.stats { accepted = suc w.stats.accepted } })

-- `Option::or`
abbrev pub first_of : Option ℕ → Option ℕ → Option ℕ
first_of (some a) b = some a
first_of none b = b

module _ (reply : ℕ → Reply) (send : List Sent → List ℕ → ℕ → Result SendError ℕ) where
  abbrev pub exec : (Store → Store) → World → Step Unit
  exec f w = answered_ok (write reply f w)

  -- `mark_payout_accepted` of a newly seen score
  unfoldable pub record_acceptance : ℕ → ℕ → World → Step Unit
  unfolding write
  record_acceptance k daa w = and_then (to_i64 daa w) (λ d w'. exec (update_payout k (accept d)) w')

  abbrev pub confirm_as : ZkasInFlightPayout → Option ℕ → ConfirmationState → World → Step Unit
  confirm_as p (some daa) confirmed w = elim p.accepted_daa_score [
    | none ↦ and_then (record_acceptance p.payout_id daa w) (λ _ w'.
        and_then (exec (update_payout p.payout_id confirm) w') (λ _ w''. count_confirmed w''))
    | some d ↦ and_then (exec (update_payout p.payout_id confirm) w) (λ _ w'. count_confirmed w')
  ]
  confirm_as p none confirmed w =
      and_then (exec (update_payout p.payout_id confirm) w) (λ _ w'. count_confirmed w')
  confirm_as p (some daa) accepted w = elim p.accepted_daa_score [
    | none ↦ and_then (record_acceptance p.payout_id daa w) (λ _ w'. count_newly_accepted w')
    | some d ↦ (ok tt, w)
  ]
  confirm_as p none accepted w = (ok tt, w)
  confirm_as p newly pending w = (ok tt, w)
  confirm_as p newly unknown w = (ok tt, w)

  module _ (node : Chain) where
    -- The probe of the mempool is for rows without a sign of acceptance.
    abbrev pub probe : ZkasInFlightPayout → Option ℕ → World → Step Bool
    probe p none w = from_chain (node.in_mempool p.tx_hash) w
    probe p (some daa) w = (ok false, w)

    -- The body of the loop over the in-flight payouts
    unfoldable pub confirm_one : AcceptanceScan → ℕ → ZkasInFlightPayout → World → Step Unit
    unfolding record_acceptance classify_confirmation
    confirm_one scan virtual_daa p w =
        let newly = scan.accepted_at p.tx_hash in
        let accept_daa = first_of p.accepted_daa_score newly in
        and_then (probe p accept_daa w) (λ in_mempool w'.
          confirm_as p newly
            (classify_confirmation
              (record {
                virtual_daa_score = virtual_daa;
                in_mempool = in_mempool;
                accept_daa = accept_daa;
              })
              zkas_payout_confirmation_daa)
            w')

    unfoldable pub confirm_all : AcceptanceScan → ℕ → List ZkasInFlightPayout → World → Step Unit
    unfolding confirm_one
    confirm_all scan virtual_daa [] w = (ok tt, w)
    confirm_all scan virtual_daa (p ∷ ps) w =
        and_then (confirm_one scan virtual_daa p w) (λ _ w'. confirm_all scan virtual_daa ps w')

    -- The anchor at the sink
    abbrev pub anchor : World → Step Unit
    anchor w = and_then (from_chain node.sink w) (λ h w'. exec (set_cursor h) w')

    -- `ensure_confirm_cursor`
    unfoldable pub ensure_confirm_cursor : World → Step Unit
    unfolding write query
    ensure_confirm_cursor w =
        and_then (answered_ok (query reply w))
          (λ _ w'. elim w'.store.cursor [ none ↦ anchor w' | some c ↦ (ok tt, w') ])

    abbrev pub after_scan :
        ℕ → List ZkasInFlightPayout → Result ChainError AcceptanceScan → World → Step Unit
    after_scan virtual_daa rows (err cursor_invalid) w = anchor w
    after_scan virtual_daa rows (err transport) w = (err (chain transport), w)
    after_scan virtual_daa rows (ok scan) w =
        and_then (confirm_all scan virtual_daa rows w)
          (λ _ w'. elim scan.new_cursor [ none ↦ (ok tt, w') | some h ↦ exec (set_cursor h) w' ])

    abbrev pub from_cursor : ℕ → List ZkasInFlightPayout → Option CursorText → World → Step Unit
    from_cursor virtual_daa rows none w = ensure_confirm_cursor w
    from_cursor virtual_daa rows (some malformed) w = anchor w
    from_cursor virtual_daa rows (some (hash h)) w =
        after_scan virtual_daa rows (node.accepted_since h (map (λ p. p.tx_hash) rows)) w

    unfoldable pub confirm_pass : ℕ → World → Step Unit
    unfolding query ensure_confirm_cursor confirm_all list_zkas_in_flight_payouts
    confirm_pass virtual_daa w = and_then (answered_ok (query reply w)) (λ _ w1.
        and_then (answered_ok (query reply w1)) (λ _ w2.
          from_cursor virtual_daa (list_zkas_in_flight_payouts w1.store) w2.store.cursor w2))

    unfoldable pub reconcile_cycle : ℕ → World → Step Unit
    unfolding query write derived_status mark_cycle
    reconcile_cycle cycle w = and_then (answered_ok (query reply w)) (λ _ w'.
        elim (derived_status (retain (λ p. p.cycle_id == cycle) w'.store.payouts)) [
          | none ↦ (ok tt, w')
          | some status ↦ exec (λ s. record s { cycles = mark_cycle cycle status s.cycles }) w'
        ])

    module _ (cfg : ZkasPayoutEngineConfig) where
      -- The plan is one transaction: an error rolls it back.
      unfoldable pub plan_in_tx : ℕ → ℕ → World → Step PayoutCycle
      unfolding write plan_zkas_cycle
      plan_in_tx start end w =
          elim (plan_zkas_cycle
            (record {
              daa_start = start;
              daa_end = end;
              threshold_sompi = cfg.threshold_sompi;
              per_wallet_cap_sompi = cfg.per_wallet_cap_sompi;
            })
            w.store) [
              | err e ↦ (err e, w)
              | ok (plan, s') ↦ and_then (exec (λ _. s') w) (λ _ w'. (
                ok plan.cycle,
                record w' { stats = record w'.stats { planned = plan.payouts_planned } },
              ))
            ]

      unfoldable pub resume_or_plan : ℕ → ℕ → World → Step PayoutCycle
      unfolding query find_cycle plan_in_tx
      resume_or_plan start end w = and_then (answered_ok (query reply w)) (λ _ w'.
          elim (find_cycle (range zkas start end) w'.store.cycles) [
            | some c ↦ (ok c, w')
            | none ↦ plan_in_tx start end w'
          ])

      -- The three passes over a cycle
      abbrev pub passes : ℕ → PayoutCycle → World → Step TickStats
      passes virtual_daa cycle w = and_then (broadcast_pass reply send cfg cycle.id w) (λ _ w1.
          and_then (confirm_pass virtual_daa w1)
            (λ _ w2. and_then (reconcile_cycle cycle.id w2) (λ _ w3. (ok w3.stats, w3))))

      -- `tick_once`, by a tick that gets the lock or does not
      unfoldable pub tick_once : Bool → World → Step TickStats
      unfolding query cycle_window resume_or_plan broadcast_pass confirm_pass reconcile_cycle
      tick_once false w = (ok no_stats, w)
      tick_once true w =
          and_then (from_chain node.virtual_daa_score (record w { stats = no_stats }))
            (λ virtual_daa w1.
              let (start, end) = cycle_window virtual_daa cfg.cycle_span_daa in
              and_then (resume_or_plan start end w1) (λ cycle w2. passes virtual_daa cycle w2))
