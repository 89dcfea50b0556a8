-- ===== src/Kas/World.antt =====
-- payout-kas/src/execute.rs: the errors and the report of an execution, and the world that it acts
-- on: the store, the transactions submitted, and a count of the calls of the database. `reply` says
-- of each call whether it is done, refused, or done with its reply lost.
use zkas_pool.Base.{ℕ, suc, Bool, List}
use zkas_pool.Base.Int.{ℤ}
use zkas_pool.Base.Results.{Result, ok, err, Panic}
use zkas_pool.Zkas.Db.{Store}
use zkas_pool.Zkas.World.{Reply, done, refused, lost}
use zkas_pool.StorageMass.Mass.{Transaction, MassEvaluationError}

pub data SignError : Type 0 where
  virtual_input empty_inputs key : SignError
  verify : ℕ → SignError

-- `out_of_fuel` has no counterpart: the planner has fuel enough.
pub data ExecuteError : Type 0 where
  db kaspad out_of_fuel : ExecuteError
  spend_cap_exceeded : ℤ → ExecuteError
  span_too_small : ℕ → ℕ → ExecuteError
  sign : SignError → ExecuteError
  mass : MassEvaluationError → ExecuteError
  recipient_address : ℕ → ExecuteError
  amount : ℕ → ℤ → ExecuteError
  unknown_recipient : List ℕ → ExecuteError
  panicked : Panic → ExecuteError

pub record ExecutionReport : Type 0 where
  pub planned_batches : ℕ
  pub spendable_utxos : ℕ
  pub submitted_txids : List ℕ
  pub submitted_payouts : ℕ
  pub deferred_below_floor : ℕ
  pub unpaid : ℕ
  pub submit_errors : List ℕ

-- A transaction handed to the node: the rows that it pays, and whether the node took it.
pub record Submission : Type 0 where
  pub ids : List ℕ
  pub tx : Transaction
  pub taken : Bool

pub record World : Type 0 where
  pub store : Store
  -- The latest first
  pub log : List Submission
  pub calls : ℕ

abbrev pub Step : Type 0 → Type 0
Step A = Result ExecuteError A × World

abbrev pub and_then : {A B : Type 0} → Step A → (A → World → Step B) → Step B
and_then (ok a, w) k = k a w
and_then (err e, w) k = (err e, w)

-- A value that is known, or an error, with the world as it is
abbrev pub known : {A : Type 0} → Result ExecuteError A → World → Step A
known r w = (r, w)

abbrev replied : (Store → Store) → World → Reply → Step (Unit {0})
replied f w done = (ok tt, record w { store = f w.store; calls = suc w.calls })
replied f w refused = (err db, record w { calls = suc w.calls })
replied f w lost = (err db, record w { store = f w.store; calls = suc w.calls })

abbrev answered : World → Reply → Step (Unit {0})
answered w done = (ok tt, record w { calls = suc w.calls })
answered w refused = (err db, record w { calls = suc w.calls })
answered w lost = (err db, record w { calls = suc w.calls })

module _ (reply : ℕ → Reply) where
  -- A transaction of the database that changes the store
  unfoldable pub write : (Store → Store) → World → Step (Unit {0})
  write f w = replied f w (reply w.calls)

  unfoldable pub query : World → Step (Unit {0})
  query w = answered w (reply w.calls)

-- What holds where a step succeeded, and where it failed
abbrev pub After {κ} : {A : Type 0} → (A → World → Type κ) → (World → Type κ) → Step A → Type κ
After Q E (ok a, w) = Q a w
After Q E (err e, w) = E w

pub After-and_then {κ} :
    {A B : Type 0} (Q : A → World → Type κ) (R : B → World → Type κ) (E : World → Type κ)
    (m : Step A) (k : A → World → Step B)
    → After Q E m
    → ((a : A) (w : World) → Q a w → After R E (k a w))
    → After R E (and_then m k)
After-and_then Q R E (ok a, w) k h next = next a w h
After-and_then Q R E (err e, w) k h next = h

pub After-write {κ} :
    (Q E : World → Type κ) (reply : ℕ → Reply) (f : Store → Store) (w : World)
    → Q (record w { store = f w.store; calls = suc w.calls })
    → E (record w { calls = suc w.calls })
    → E (record w { store = f w.store; calls = suc w.calls })
    → After (λ _. Q) E (write reply f w)
unfolding write
After-write Q E reply f w a b c = go (reply w.calls)
  where
    go : (r : Reply) → After (λ _. Q) E (replied f w r)
    go done = a
    go refused = b
    go lost = c

pub After-query {κ} :
    (Q E : World → Type κ) (reply : ℕ → Reply) (w : World)
    → Q (record w { calls = suc w.calls })
    → E (record w { calls = suc w.calls })
    → After (λ _. Q) E (query reply w)
unfolding query
After-query Q E reply w a b = go (reply w.calls)
  where
    go : (r : Reply) → After (λ _. Q) E (answered w r)
    go done = a
    go refused = b
    go lost = b

module _ {κ} {A : Type 0} (Q : A → World → Type κ) (E : World → Type κ) where
  pub After-known :
      (r : Result ExecuteError A) (w : World) → ((a : A) → Q a w) → E w → After Q E (known r w)
  After-known (ok a) w q e = q a
  After-known (err x) w q e = e

  pub After-map :
      (R : A → World → Type κ) (F : World → Type κ) (m : Step A)
      → After Q E m
      → ((a : A) (w : World) → Q a w → R a w)
      → ((w : World) → E w → F w)
      → After R F m
  After-map R F (ok a, w) h q e = q a w h
  After-map R F (err x, w) h q e = e w h
