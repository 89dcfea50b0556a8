-- ===== src/Zkas/World.antt =====
-- payout-zkas/src/engine.rs, sender.rs, chain.rs: the engine's configuration, errors and counters,
-- and the world that it acts on: the store, a log of the calls of the sender, and a count of the
-- calls of the database. A call of the database may be refused, and its reply may be lost after it
-- took effect: `reply` says which, for each call in turn, so that a crash or a lost connection at
-- any point is a choice of `reply`.
use zkas_pool.Base.{ℕ, suc, Bool, true, false, List, Option, none, some, not}
use zkas_pool.Base.Int.{ℤ, leb_ℤ}
use zkas_pool.Base.Results.{Result, ok, err, Panic}
use zkas_pool.Zkas.Db.{Store}

pub data ExecutionMode : Type 0 where
  dry_run live : ExecutionMode

pub record ZkasPayoutEngineConfig : Type 0 where
  pub cycle_span_daa : ℕ
  pub threshold_sompi : ℤ
  pub per_wallet_cap_sompi : ℤ
  pub spend_cap_sompi : Option ℤ
  pub mode : ExecutionMode
  pub max_sends_per_tick : ℕ

pub data SendError : Type 0 where
  seed spawn failed timed_out no_txid : SendError

abbrev pub is_ambiguous : SendError → Bool
is_ambiguous timed_out = true
is_ambiguous no_txid = true
is_ambiguous _ = false

pub data ChainError : Type 0 where
  transport cursor_invalid : ChainError

pub data EngineError : Type 0 where
  db : EngineError
  chain : ChainError → EngineError
  daa_out_of_range : ℕ → EngineError
  span_too_small : ℕ → ℕ → EngineError
  panicked : Panic → EngineError

pub record TickStats : Type 0 where
  pub planned : ℕ
  pub sends_attempted : ℕ
  pub sends_accepted : ℕ
  pub accepted : ℕ
  pub confirmed : ℕ
  pub inflight_latched : Bool
  pub spend_capped : Bool

abbrev pub no_stats : TickStats
no_stats = record {
  planned = 0;
  sends_attempted = 0;
  sends_accepted = 0;
  accepted = 0;
  confirmed = 0;
  inflight_latched = false;
  spend_capped = false;
}

-- One call of the sender: the payout, where to, how much, and what came of it.
pub record Sent : Type 0 where
  pub payout_id : ℕ
  pub address : List ℕ
  pub amount : ℕ
  pub outcome : Result SendError ℕ

-- The engine takes the payment for made or in doubt. A failure that is not ambiguous it takes for no
-- payment, and sends again, though sender.rs says of `Failed` that the node may have admitted it.
abbrev pub taken_as_paid : Result SendError ℕ → Bool
taken_as_paid (ok txid) = true
taken_as_paid (err e) = is_ambiguous e

pub record World : Type 0 where
  pub store : Store
  -- The latest call first
  pub log : List Sent
  pub calls : ℕ
  pub stats : TickStats

pub data Reply : Type 0 where
  done refused lost : Reply

-- The step that a function of the engine ends with: its result, and the world it leaves.
abbrev pub Step : Type 0 → Type 0
Step A = Result EngineError A × World

-- A statement of the database that changes the store, with the reply it gets: whether the engine
-- sees it succeed.
abbrev pub replied : (Store → Store) → World → Reply → Bool × World
replied f w done = (true, record w { store = f w.store; calls = suc w.calls })
replied f w refused = (false, record w { calls = suc w.calls })
replied f w lost = (false, record w { store = f w.store; calls = suc w.calls })

-- A query: whether it is answered.
abbrev pub answered : World → Reply → Bool × World
answered w done = (true, record w { calls = suc w.calls })
answered w refused = (false, record w { calls = suc w.calls })
answered w lost = (false, record w { calls = suc w.calls })

module _ (reply : ℕ → Reply) where
  unfoldable pub write : (Store → Store) → World → Bool × World
  write f w = replied f w (reply w.calls)

  unfoldable pub query : World → Bool × World
  query w = answered w (reply w.calls)

abbrev pub set_inflight : ℕ → Store → Store
set_inflight k s = record s { inflight = some k }

abbrev pub clear_inflight : Store → Store
clear_inflight s = record s { inflight = none }

-- `over_spend_cap`
unfoldable pub over_spend_cap : ℤ → Option ℤ → Bool
over_spend_cap total none = false
over_spend_cap total (some c) = not (leb_ℤ total c)

-- What holds of a write in each of its three outcomes holds of it.
pub write-cases {κ} :
    (reply : ℕ → Reply) (f : Store → Store) (w : World) (C : Bool × World → Type κ)
    → C (true, record w { store = f w.store; calls = suc w.calls })
    → C (false, record w { calls = suc w.calls })
    → C (false, record w { store = f w.store; calls = suc w.calls })
    → C (write reply f w)
unfolding write
write-cases reply f w C a b c = go (reply w.calls)
  where
    go : (r : Reply) → C (replied f w r)
    go done = a
    go refused = b
    go lost = c

pub query-cases {κ} :
    (reply : ℕ → Reply) (w : World) (C : Bool × World → Type κ)
    → C (true, record w { calls = suc w.calls })
    → C (false, record w { calls = suc w.calls })
    → C (query reply w)
unfolding query
query-cases reply w C a b = go (reply w.calls)
  where
    go : (r : Reply) → C (answered w r)
    go done = a
    go refused = b
    go lost = b
