-- ===== src/Tests/Payouts.antt =====
-- The payout engine at concrete inputs: two wallets with 500 and 300 sompi to be paid, a node that
-- accepts nothing yet, a sender that pays and one that times out.
use zkas_pool.Base.{
  retain, inl, inr, ◌==◌, ℕ, ◌+◌, ◌≤◌, ◌<◌, ◌≡◌, refl, Bool, true, List, [], ◌∷◌, none, some, arith,
  All, ap, ◌↔◌,
}
use zkas_pool.Base.Int.{pos}
use zkas_pool.Base.Results.{Result, ok, err}
use zkas_pool.Zkas.Window.{cycle_window, cycle_window_same}
use zkas_pool.Zkas.Confirm.{
  ConfirmationInputs, classify_confirmation, confirmed, classify_confirmed,
}
use zkas_pool.Zkas.Db.{Store, Payout, PayoutStatus, PayoutCycleStatus, hash}
use zkas_pool.Zkas.World.{
  ZkasPayoutEngineConfig, live, SendError, timed_out, failed, taken_as_paid, Sent, World, Reply,
  done, no_stats,
}
use zkas_pool.Zkas.Broadcast.{broadcast_pass}
use zkas_pool.Zkas.Spend.{Within}
use zkas_pool.Zkas.Spend.Pass.{broadcast_pass-Within}
use zkas_pool.Zkas.Cycle.{derived_status}
use zkas_pool.Zkas.Tick.{AcceptanceScan, Chain, ZkasInFlightPayout, confirm_all}
use zkas_pool.Zkas.Tick.Status.{derived_settled, Confirmed, confirm_all-Unseen}
use zkas_pool.Zkas.Tick.Runs.{run_ticks}
use zkas_pool.Zkas.Safety.Ticks.{admitted_sends, paid_once}
use zkas_pool.Zkas.Latch.{newest_ambiguous, newest_payout}
use zkas_pool.Zkas.Latch.Halts.{latch_halts, ambiguous_halts}
use zkas_pool.Base.Int.{◌+ℤ◌}
use zkas_pool.Base.Sort.{sort_by}
use zkas_pool.Zkas.Db.{list_cycle_recipients, join_wallets, before, update, submit, accept}
use zkas_pool.Zkas.Db.{PayoutCycle, range, zkas}
use zkas_pool.Zkas.Plan.Again.{plan_again}
use zkas_pool.Zkas.Plan.{
  PlanZkasCycleParams, PlanZkasCycleResult, plan_zkas_cycle, richer, list_zkas_eligible_wallets,
}
use zkas_pool.Zkas.Plan.Eligible.{balance_in_flight}

abbrev config : ZkasPayoutEngineConfig
config = record {
  cycle_span_daa = 3600;
  threshold_sompi = pos 100;
  per_wallet_cap_sompi = pos 400;
  spend_cap_sompi = some (pos 1000);
  mode = live;
  max_sends_per_tick = 5;
}

abbrev store : Store
store = record {
  wallets = (1, 7 ∷ []) ∷ (2, 8 ∷ []) ∷ [];
  credits = (1, 500) ∷ (2, 300) ∷ [];
  cycles = [];
  payouts = [];
  next_cycle = 1;
  next_payout = 1;
  inflight = none;
  cursor = some (hash 9);
}

abbrev world : World
world = record { store = store; log = []; calls = 0; stats = no_stats }

abbrev scan : AcceptanceScan
scan = record { accepted_at = λ _. none; new_cursor = none }

abbrev node : Chain
node = record {
  virtual_daa_score = ok 5000;
  sink = ok 9;
  in_mempool = λ _. ok true;
  accepted_since = λ _ _. ok scan;
}

abbrev two_ticks : List (Chain × Bool)
two_ticks = (node, true) ∷ (node, true) ∷ []

abbrev pays : List Sent → List ℕ → ℕ → Result SendError ℕ
pays log to amount = ok amount

abbrev times_out : List Sent → List ℕ → ℕ → Result SendError ℕ
times_out log to amount = err timed_out

abbrev all_done : ℕ → Reply
all_done n = done

-- The node admits the calls that the sender reports as paid.
abbrev as_told : List Sent → Sent → Bool
as_told earlier s = taken_as_paid s.outcome

paid_once_example :
    admitted_sends 1 as_told (run_ticks all_done pays config two_ticks world).log ≤ 1
paid_once_example =
    paid_once 1 as_told all_done pays config two_ticks world (λ earlier s e. e)
      (record { once = omega arith; fresh = λ le. omega arith })

-- Without the condition on the sender: a node that admits what the sender reports as failed is paid
-- from twice.
abbrev fails : List Sent → List ℕ → ℕ → Result SendError ℕ
fails log to amount = err failed

silent_failures_pay_twice :
    admitted_sends 1 (λ earlier s. true) (run_ticks all_done fails config two_ticks world).log ≡ 2
unfolding run_ticks sort_by ◌+ℤ◌ richer list_cycle_recipients join_wallets before update submit
silent_failures_pay_twice = refl

two_sent :
    (run_ticks all_done pays config two_ticks world).log
    ≡ record { payout_id = 2; address = 8 ∷ []; amount = 300; outcome = ok 300 }
      ∷ record { payout_id = 1; address = 7 ∷ []; amount = 400; outcome = ok 400 }
      ∷ []
unfolding run_ticks sort_by ◌+ℤ◌ richer list_cycle_recipients join_wallets before update submit
two_sent = refl

-- The second wallet's send is not tried after the first one timed out.
abbrev timed_out_log : List Sent
timed_out_log =
    record { payout_id = 1; address = 7 ∷ []; amount = 400; outcome = err timed_out } ∷ []

timed_out_run : (run_ticks all_done times_out config two_ticks world).log ≡ timed_out_log
unfolding run_ticks sort_by ◌+ℤ◌ richer list_cycle_recipients join_wallets before update submit
timed_out_run = refl

ambiguous_halts_example :
    ((run_ticks all_done times_out config two_ticks
        (run_ticks all_done times_out config two_ticks world)).log
      ≡ (run_ticks all_done times_out config two_ticks world).log)
    × ((run_ticks all_done times_out config two_ticks
          (run_ticks all_done times_out config two_ticks world)).store.inflight
        ≡ newest_payout (run_ticks all_done times_out config two_ticks world).log)
ambiguous_halts_example =
    ambiguous_halts all_done times_out config two_ticks two_ticks world refl
      (ap newest_ambiguous timed_out_run)

abbrev latched_world : World
latched_world = record world { store = record store { inflight = some 4 } }

latch_halts_example :
    ((run_ticks all_done pays config two_ticks latched_world).log ≡ [])
    × ((run_ticks all_done pays config two_ticks latched_world).store.inflight ≡ some 4)
latch_halts_example = latch_halts all_done pays config two_ticks latched_world {k = 4} refl

abbrev first : Payout
first = record {
  id = 1;
  cycle_id = 1;
  wallet_id = 1;
  amount_sompi = pos 400;
  status = PayoutStatus.planned;
  tx_hash = none;
  accepted_daa_score = none;
}

abbrev planned_world : World
planned_world = record world { store = record store { payouts = first ∷ []; next_payout = 2 } }

broadcast_pass-Within_example :
    Within [] 1000 5 (broadcast_pass all_done pays config 1 planned_world).1
broadcast_pass-Within_example =
    broadcast_pass-Within all_done pays config 1 planned_world {c = pos 1000} (refl, tt) refl

balance_in_flight_example :
    (list_zkas_eligible_wallets
        (pos 100)
        (record store { payouts = update 1 (submit 77) (first ∷ []) })
      ≡ list_zkas_eligible_wallets (pos 100) (record store { payouts = first ∷ [] }))
    × (list_zkas_eligible_wallets
          (pos 100)
          (record store { payouts = update 1 (accept 4900) (first ∷ []) })
        ≡ list_zkas_eligible_wallets (pos 100) (record store { payouts = first ∷ [] }))
balance_in_flight_example =
    balance_in_flight (pos 100) 1 77 4900 (record store { payouts = first ∷ [] })

cycle_window_same_example :
    (((cycle_window 5000 3600).0 ≤ 7199) × (7199 < (cycle_window 5000 3600).1))
    ↔ (cycle_window 7199 3600 ≡ cycle_window 5000 3600)
cycle_window_same_example = cycle_window_same 5000 7199 3600 (omega arith) (omega arith)

abbrev accepted_inputs : ConfirmationInputs
accepted_inputs = record { virtual_daa_score = 5000; in_mempool = true; accept_daa = some 4900 }

classify_confirmed_example :
    (classify_confirmation accepted_inputs 100 ≡ confirmed)
    ↔ ((accept : ℕ) × (some 4900 ≡ some accept) × (accept + 100 ≤ 5000))
classify_confirmed_example = classify_confirmed accepted_inputs 100 (omega arith)

derived_settled_example :
    (derived_status (first ∷ []) ≡ some PayoutCycleStatus.settled)
    ↔ ((1 ≤ 1) × All Confirmed (first ∷ []))
derived_settled_example = derived_settled (first ∷ [])

abbrev in_flight : ZkasInFlightPayout
in_flight = record { payout_id = 1; tx_hash = 77; accepted_daa_score = none }

-- A second payout in flight, which the chain has accepted
abbrev accepted_one : ZkasInFlightPayout
accepted_one = record {
  payout_id = in_flight.payout_id + 1;
  tx_hash = 8;
  accepted_daa_score = some 7;
}

confirm_all-Unseen_example :
    retain
      (λ p. p.id == in_flight.payout_id)
      (confirm_all all_done pays node scan 5000
        (accepted_one ∷ in_flight ∷ [])
        planned_world).1.store.payouts
    ≡ retain (λ p. p.id == in_flight.payout_id) planned_world.store.payouts
confirm_all-Unseen_example =
    confirm_all-Unseen all_done pays node scan 5000 in_flight.payout_id
      (accepted_one ∷ in_flight ∷ []) planned_world (inl refl, (inr (refl, refl), tt))

abbrev window : PlanZkasCycleParams
window = record {
  daa_start = 3600;
  daa_end = 7200;
  threshold_sompi = pos 100;
  per_wallet_cap_sompi = pos 400;
}

abbrev new_cycle : PayoutCycle
new_cycle = record {
  id = 1;
  kind = zkas;
  status = PayoutCycleStatus.planned;
  total_sompi = pos 0;
  total_recipients = 0;
  idempotency_key = range zkas 3600 7200;
}

abbrev plan : PlanZkasCycleResult
plan = record { cycle = new_cycle; payouts_planned = 2; total_sompi = pos 700 }

abbrev second : Payout
second = record first { id = 2; wallet_id = 2; amount_sompi = pos 300 }

-- Two rows, the first cut down to the cap
abbrev planned_store : Store
planned_store = record store {
  cycles = record new_cycle { total_sompi = pos 700; total_recipients = 2 } ∷ [];
  payouts = first ∷ second ∷ [];
  next_cycle = 2;
  next_payout = 3;
}

abbrev replanned_store : Store
replanned_store = record planned_store { next_cycle = 3; next_payout = 5 }

planned_once : plan_zkas_cycle window store ≡ ok (plan, planned_store)
unfolding plan_zkas_cycle sort_by ◌+ℤ◌ richer
planned_once = refl

planned_twice :
    plan_zkas_cycle window planned_store
    ≡ ok (
      record plan { cycle = record new_cycle { total_sompi = pos 700; total_recipients = 2 } },
      replanned_store,
    )
unfolding plan_zkas_cycle sort_by ◌+ℤ◌ richer
planned_twice = refl

plan_again_example : replanned_store.payouts ≡ planned_store.payouts
plan_again_example =
    plan_again window store planned_store replanned_store {plan = plan}
      {plan' = record plan {
        cycle = record new_cycle { total_sompi = pos 700; total_recipients = 2 };
      }}
      planned_once planned_twice
