-- ===== src/Accountant/Engine/Atomic.antt =====
-- A reward is allocated at most once, and a failed allocation leaves the money tables alone.
use zkas_pool.Base.{Bool, ℕ, ◌≡◌, refl, sym, ap, ◌∙◌, subst, List, Option, some, inl, inr}
use zkas_pool.Base.Int.{ℤ, pos, negsuc}
use zkas_pool.Base.Results.{Result, ok, err}
use zkas_pool.Base.Float.{Float}
use zkas_pool.Accountant.Fee.{WalletTier, FeeConfig}
use zkas_pool.Accountant.Db.{Db, lock_for_allocation}
use zkas_pool.Accountant.Window.{WindowError, close_window, list_for_window}
use zkas_pool.Accountant.Allocation.{AllocationOutcome, EngineError, window}
use zkas_pool.Accountant.Engine.{
  commit, after_close, read_and_distribute, allocate_coinbase_reward, Outcome, Call, TxEnd,
  committed, rolled_back, unacknowledged,
}
use zkas_pool.Accountant.Engine.Steps.{read_and_distribute-distribute}
use zkas_pool.Accountant.Engine.Ends.{
  SameMoney, IsAllocated, Settles, distribute-Settles, Settles-IsAllocated, unchanged,
  closed_fields, SameMoney-trans, Ended, commit-Ended, commit_ok,
}

module _ (fl : Float) (cfg : FeeConfig) (classify : List ℕ → Option WalletTier)
    (answered : Call → Bool) where
  open fl use {F}

  -- A marked reward stops the transaction, whatever its end.
  commit-SameMoney :
      (last : TxEnd) (db : Db F) (id reward start end : ℕ)
      → IsAllocated id db
      → SameMoney F db
          (commit fl cfg classify answered last db
            (read_and_distribute fl cfg classify answered db id reward start end)).1
  commit-SameMoney last db id reward start end (row, found, held) =
      let d = read_and_distribute fl cfg classify answered db id reward start end in
      let r = commit fl cfg classify answered last db d in
      same d r.0 r.1 (λ o db' e. settles o db' e) (commit-Ended fl cfg classify answered last db d)
    where
      settles :
          (o : AllocationOutcome) (db' : Db F)
          → read_and_distribute fl cfg classify answered db id reward start end ≡ ok (o, db')
          → SameMoney F db db'
      settles o db' e = go (
          distribute-Settles fl cfg classify answered db id reward (list_for_window fl db start end)
            {o = o} {db' = db'}
            (read_and_distribute-distribute fl cfg classify answered db id reward start end e))
        where
          go : Settles fl cfg classify answered db id o db' → SameMoney F db db'
          go (inl (_, e, _)) =
              subst (SameMoney F db) (sym e) (unchanged fl cfg classify answered db)
          go (inr (row', found', fresh, _)) = cc

      same :
          (d : Outcome fl cfg classify answered) (r : Result (EngineError F) AllocationOutcome)
          (db' : Db F)
          → ((o : AllocationOutcome) (db' : Db F) → d ≡ ok (o, db') → SameMoney F db db')
          → Ended fl cfg classify answered last db d r db'
          → SameMoney F db db'
      same d (ok o) db' s e = s o db' e
      same d (err x) db' s (inl e) =
          subst (SameMoney F db) (sym e) (unchanged fl cfg classify answered db)
      same d (err x) db' s (inr (o, e, _)) = s o db' e

  -- Once a reward is marked as allocated, no later call for it, with any value and any window,
  -- changes a reward, an allocation, a rebate or the audit log.
  pub allocated_once :
      (close last : TxEnd) (db : Db F) (id : ℕ) (reward : ℤ) (start end : ℕ)
      → IsAllocated id db
      → SameMoney F db
          (allocate_coinbase_reward fl cfg classify answered close last db id reward start end).1
  unfolding allocate_coinbase_reward
  allocated_once close last db id (negsuc n) start end held = unchanged fl cfg classify answered db
  allocated_once close last db id (pos r) start end held =
      split (close_window fl db start end)
        (λ closed e. closed_fields fl cfg classify answered db closed start end e)
    where
      open_end :
          (t : TxEnd) (closed : Db F)
          → SameMoney F db closed
          → SameMoney F db
              (after_close fl cfg classify answered t db closed (
                commit fl cfg classify answered last closed
                  (read_and_distribute fl cfg classify answered closed id r start end))).1
      open_end rolled_back closed c = unchanged fl cfg classify answered db
      open_end unacknowledged closed c = c
      open_end committed closed c =
          let found : lock_for_allocation id closed.rewards ≡ some held.0 =
            ap (lock_for_allocation id) c.rewards ∙ held.1 in
          SameMoney-trans fl cfg classify answered c
            (commit-SameMoney last closed id r start end (held.0, found, held.2))

      split :
          (w : Result WindowError (Db F))
          → ((closed : Db F) → w ≡ ok closed → SameMoney F db closed)
          → SameMoney F db
              (elim w as (λ _. Result (EngineError F) AllocationOutcome × Db F) [
                | err e ↦ (err (window e), db)
                | ok closed ↦ after_close fl cfg classify answered close db closed (
                    commit fl cfg classify answered last closed
                      (read_and_distribute fl cfg classify answered closed id r start end))
              ]).1
      split (err e) same = unchanged fl cfg classify answered db
      split (ok closed) same = open_end close closed (same closed refl)

  -- A call that succeeded: the window was closed, and the distribution over it succeeded.
  pub record Allocated (last : TxEnd) (db : Db F) (id r start end : ℕ) (o : AllocationOutcome)
      (db' : Db F) : Type 0 where
    pub closed : Db F
    pub close : close_window fl db start end ≡ ok closed
    pub run : read_and_distribute fl cfg classify answered closed id r start end ≡ ok (o, db')

  pub allocate-Allocated :
      (close last : TxEnd) (db : Db F) (id r start end : ℕ) {o : AllocationOutcome} {db' : Db F}
      → allocate_coinbase_reward fl cfg classify answered close last db id (pos r) start end
        ≡ (ok o, db')
      → Allocated last db id r start end o db'
  unfolding allocate_coinbase_reward
  allocate-Allocated close last db id r start end {o} {db'} h =
      split (close_window fl db start end) (λ closed e. e) h
    where
      open_end :
          (t : TxEnd) (closed : Db F)
          → close_window fl db start end ≡ ok closed
          → after_close fl cfg classify answered t db closed (
              commit fl cfg classify answered last closed
                (read_and_distribute fl cfg classify answered closed id r start end))
            ≡ (ok o, db')
          → Allocated last db id r start end o db'
      open_end rolled_back closed c k = cc
      open_end unacknowledged closed c k = cc
      open_end committed closed c k = record {
        closed = closed;
        close = c;
        run = commit_ok fl cfg classify answered last closed _ k;
      }

      split :
          (w : Result WindowError (Db F))
          → ((closed : Db F) → w ≡ ok closed → close_window fl db start end ≡ ok closed)
          → (elim w [
            | err e ↦ (err (window e), db)
            | ok closed ↦ after_close fl cfg classify answered close db closed (
                commit fl cfg classify answered last closed
                  (read_and_distribute fl cfg classify answered closed id r start end))
          ])
            ≡ (ok o, db')
          → Allocated last db id r start end o db'
      split (err e) closes k = cc
      split (ok closed) closes k = open_end close closed (closes closed refl) k

  allocate_settles :
      (close last : TxEnd) (db : Db F) (id r start end : ℕ) {o : AllocationOutcome} {db' : Db F}
      → allocate_coinbase_reward fl cfg classify answered close last db id (pos r) start end
        ≡ (ok o, db')
      → IsAllocated id db'
  allocate_settles close last db id r start end {o} {db'} h =
      let a = allocate-Allocated close last db id r start end {o = o} {db' = db'} h in
      Settles-IsAllocated fl cfg classify answered a.closed id {o = o} {db' = db'} (
        distribute-Settles fl cfg classify answered a.closed id r
          (list_for_window fl a.closed start end) {o = o} {db' = db'}
          (read_and_distribute-distribute fl cfg classify answered a.closed id r start end a.run))

module _ (fl : Float) (cfg : FeeConfig) (classify : List ℕ → Option WalletTier) where
  open fl use {F}

  -- A call that returns without an error leaves the reward marked, so that no later call for it,
  -- with any value and any window, changes a reward, an allocation, a rebate or the audit log,
  -- whatever the calls of the database do in either.
  pub allocate_twice :
      (answered answered' : Call → Bool) (close last close' last' : TxEnd) (db : Db F) (id : ℕ)
      (reward again : ℤ) (start end start' end' : ℕ) {o : AllocationOutcome} {db' : Db F}
      → allocate_coinbase_reward fl cfg classify answered close last db id reward start end
        ≡ (ok o, db')
      → SameMoney F db'
          (allocate_coinbase_reward fl cfg classify answered' close' last' db' id again start'
            end').1
  unfolding allocate_coinbase_reward
  allocate_twice answered answered' close last close' last' db id (negsuc n) again start end start'
        end' h =
      cc
  allocate_twice answered answered' close last close' last' db id (pos r) again start end start'
        end' {o} {db'} h =
      allocated_once fl cfg classify answered' close' last' db' id again start' end'
        (allocate_settles fl cfg classify answered close last db id r start end h)
