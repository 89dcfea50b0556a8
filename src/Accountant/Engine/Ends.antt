-- ===== src/Accountant/Engine/Ends.antt =====
-- How the engine's transaction ends, and what it has found and done where it succeeds.
use zkas_pool.Base.{
  Bool, ℕ, ◌≡◌, ◌⊎◌, refl, sym, ap, ◌∙◌, subst, true, false, List, [], ◌∷◌, Option, some, arith,
  ◌==◌, Bool-cases, inl, inr,
}
use zkas_pool.Base.Int.{ℤ}
use zkas_pool.Base.Results.{Result, ok, err}
use zkas_pool.Base.Float.{Float}
use zkas_pool.Accountant.Fee.{WalletTier, FeeConfig, Allocation}
use zkas_pool.Accountant.Db.{ShareWindow, CoinbaseReward, Db, lock_for_allocation, mark_allocated}
use zkas_pool.Accountant.Window.{close_window}
use zkas_pool.Accountant.Allocation.{
  AllocationOutcome, already_allocated, freshly_allocated, no_contributing_wallets, EngineError,
}
use zkas_pool.Accountant.Engine.{
  in_tx, finalise_empty, distribute, commit, ended, write_empty, write_rows, Outcome, Call, TxEnd,
  committed, rolled_back, unacknowledged,
}
use zkas_pool.Accountant.Engine.Steps.{
  distribute-Steps, Locked, locked-Locked, write_empty-marks, write_rows-Written,
}

-- The tables that hold money and its trail agree; only the window rollups may differ.
pub record SameMoney (F : Type 0) (db db' : Db F) : Type 0 where
  pub rewards : db'.rewards ≡ db.rewards
  pub allocations : db'.allocations ≡ db.allocations
  pub rebates : db'.rebates ≡ db.rebates
  pub audit : db'.audit ≡ db.audit

-- The reward is there and marked.
abbrev pub IsAllocated : {F : Type 0} → ℕ → Db F → Type 0
IsAllocated id db =
    (row : CoinbaseReward) × (lock_for_allocation id db.rewards ≡ some row)
    × (row.is_allocated ≡ true)

-- Marking a reward that is there leaves it there, marked.
lock-mark_allocated :
    (id : ℕ) (rs : List CoinbaseReward) {row : CoinbaseReward}
    → lock_for_allocation id rs ≡ some row
    → lock_for_allocation id (mark_allocated id rs) ≡ some (record row { is_allocated = true })
unfolding lock_for_allocation mark_allocated
lock-mark_allocated id [] h = cc
lock-mark_allocated id (r ∷ rs) {row} h = elim (Bool-cases (r.id == id)) [
  | inl e ↦ ground arith
  | inr e ↦ ground (arith, lock-mark_allocated id rs {row = row})
]

module _ (fl : Float) (cfg : FeeConfig) (classify : List ℕ → Option WalletTier)
    (answered : Call → Bool) where
  open fl use {F}

  -- What the part after the window does: nothing to the money tables, or it finds the reward
  -- unmarked and marks it.
  abbrev pub Settles : Db F → ℕ → AllocationOutcome → Db F → Type 0
  Settles db id o db' =
      ((o ≡ already_allocated) × (db' ≡ db) × IsAllocated id db)
      ⊎ ((row : CoinbaseReward) × (lock_for_allocation id db.rewards ≡ some row)
          × (row.is_allocated ≡ false)
          × (db'.rewards ≡ mark_allocated id db.rewards))

  Locked-Settles :
      (db : Db F) (id : ℕ) (writes : Outcome fl cfg classify answered) {o : AllocationOutcome}
      {db' : Db F}
      → (writes ≡ ok (o, db') → db'.rewards ≡ mark_allocated id db.rewards)
      → Locked fl cfg classify answered db id writes o db'
      → Settles db id o db'
  Locked-Settles db id writes marks l = elim l.gate [
    | inl (held, kept, same) ↦ inl (kept, same, (l.row, l.found, held))
    | inr (fresh, written) ↦ inr (l.row, l.found, fresh, marks written)
  ]

  finalise_empty-Settles :
      (db : Db F) (id reward : ℕ) {o : AllocationOutcome} {db' : Db F}
      → finalise_empty fl cfg classify answered db id reward ≡ ok (o, db')
      → Settles db id o db'
  unfolding finalise_empty
  finalise_empty-Settles db id reward {o} {db'} h =
      let writes = write_empty fl cfg classify answered db id reward in
      Locked-Settles db id writes
        (λ e. (write_empty-marks fl cfg classify answered db id reward {o = o} {db' = db'} e).1)
        (locked-Locked fl cfg classify answered db id writes h)

  in_tx-Settles :
      (db : Db F) (id reward : ℕ) (ws : List (ShareWindow F)) (as' : List Allocation) (residue : ℤ)
      {o : AllocationOutcome} {db' : Db F}
      → in_tx fl cfg classify answered db id reward ws as' residue ≡ ok (o, db')
      → Settles db id o db'
  unfolding in_tx
  in_tx-Settles db id reward ws as' residue {o} {db'} h =
      let writes = write_rows fl cfg classify answered db id reward ws as' residue in
      Locked-Settles db id writes
        (λ e.
          (write_rows-Written fl cfg classify answered db id reward ws as' residue {o = o}
            {db' = db'} e).marked)
        (locked-Locked fl cfg classify answered db id writes h)

  pub distribute-Settles :
      (db : Db F) (id reward : ℕ) (ws : List (ShareWindow F)) {o : AllocationOutcome} {db' : Db F}
      → distribute fl cfg classify answered db id reward ws ≡ ok (o, db')
      → Settles db id o db'
  unfolding distribute
  distribute-Settles db id reward [] {o} {db'} h =
      finalise_empty-Settles db id reward {o = o} {db' = db'} h
  distribute-Settles db id reward (w ∷ ws) {o} {db'} h =
      let st = distribute-Steps fl cfg classify answered db id reward w ws {o = o} {db' = db'} h in
      in_tx-Settles db id reward (w ∷ ws) st.allocations st.residue st.stored

  pub Settles-IsAllocated :
      (db : Db F) (id : ℕ) {o : AllocationOutcome} {db' : Db F}
      → Settles db id o db'
      → IsAllocated id db'
  Settles-IsAllocated db id (inl (_, same, done)) = subst (IsAllocated id) (sym same) done
  Settles-IsAllocated db id (inr (row, found, _, marked)) = (
    record row { is_allocated = true },
    ap (lock_for_allocation id) marked ∙ lock-mark_allocated id db.rewards found,
    refl,
  )

  pub unchanged : (db : Db F) → SameMoney F db db
  unchanged db = record { rewards = refl; allocations = refl; rebates = refl; audit = refl }

  pub closed_fields :
      (db closed : Db F) (start end : ℕ)
      → close_window fl db start end ≡ ok closed
      → SameMoney F db closed
  unfolding close_window
  closed_fields db closed start end h = ground arith

  pub SameMoney-trans : {a b c : Db F} → SameMoney F a b → SameMoney F b c → SameMoney F a c
  SameMoney-trans x y = record {
    rewards = y.rewards ∙ x.rewards;
    allocations = y.allocations ∙ x.allocations;
    rebates = y.rebates ∙ x.rebates;
    audit = y.audit ∙ x.audit;
  }

  -- What the end of a transaction gives: the outcome, or an error with nothing or all of it written.
  abbrev pub Ended :
      TxEnd
      → Db F
      → Outcome fl cfg classify answered
      → Result (EngineError F) AllocationOutcome
      → Db F
      → Type 0
  Ended last db d (ok o) db' = d ≡ ok (o, db')
  Ended last db d (err e) db' =
      (db' ≡ db) ⊎ ((o : AllocationOutcome) × (d ≡ ok (o, db')) × (last ≡ unacknowledged))

  ended-Ended :
      (last : TxEnd) (db : Db F) (o : AllocationOutcome) (db' : Db F)
      → let r = ended fl cfg classify answered last o db db' in Ended last db (ok (o, db')) r.0 r.1
  ended-Ended committed db o db' = refl
  ended-Ended rolled_back db o db' = inl refl
  ended-Ended unacknowledged db o db' = inr (o, refl, refl)

  pub commit-Ended :
      (last : TxEnd) (db : Db F) (d : Outcome fl cfg classify answered)
      → let r = commit fl cfg classify answered last db d in Ended last db d r.0 r.1
  commit-Ended last db (err e) = inl refl
  commit-Ended last db (ok (already_allocated, db')) = refl
  commit-Ended last db (ok (freshly_allocated n net nacho fee residue, db')) =
      ended-Ended last db (freshly_allocated n net nacho fee residue) db'
  commit-Ended last db (ok (no_contributing_wallets kept, db')) =
      ended-Ended last db (no_contributing_wallets kept) db'

  -- With an acknowledged commit, a transaction that succeeds is a success.
  pub commit-committed :
      (db : Db F) (o : AllocationOutcome) (db' : Db F)
      → commit fl cfg classify answered committed db (ok (o, db')) ≡ (ok o, db')
  commit-committed db already_allocated db' = refl
  commit-committed db (freshly_allocated n net nacho fee residue) db' = refl
  commit-committed db (no_contributing_wallets kept) db' = refl

  pub commit_ok :
      (last : TxEnd) (db : Db F) (d : Outcome fl cfg classify answered) {o : AllocationOutcome}
      {db' : Db F}
      → commit fl cfg classify answered last db d ≡ (ok o, db')
      → d ≡ ok (o, db')
  commit_ok last db d {o} {db'} h = subst (λ r. Ended last db d r.0 r.1) h (commit-Ended last db d)
