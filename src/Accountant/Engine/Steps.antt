-- ===== src/Accountant/Engine/Steps.antt =====
-- The steps of a distribution that succeeds, one by one.
use zkas_pool.Base.{
  ℕ, ◌≡◌, ◌∙◌, sym, ap, ◌⊎◌, Bool, true, false, length, not, List, ◌∷◌, Option, none, some, ◌||◌,
  Bool-cases, inl, inr, arith,
}
use zkas_pool.Base.Int.{ℤ}
use zkas_pool.Base.Results.{Result, ok, err, ◌>>=◌, bind_ok, ok_inj}
use zkas_pool.Base.Float.{Float}
use zkas_pool.Accountant.Fee.{WalletTier, FeeConfig, Allocation}
use zkas_pool.Accountant.Db.{ShareWindow, CoinbaseReward, Db, lock_for_allocation, mark_allocated}
use zkas_pool.Accountant.Window.{list_for_window}
use zkas_pool.Accountant.Allocation.{
  AllocationOutcome, freshly_allocated, already_allocated, no_contributing_wallets, EngineError,
  unknown_reward, panicked, grosses_of, total_of, sum_totals,
}
use zkas_pool.Accountant.Engine.{
  map_err, or_err, Call, begin_tx, lock_reward, insert_rows, mark_reward, append_audit, ask, gated,
  locked, ask_rebates, write_rows, write_empty, insert_batch, new_rows, in_tx, distribute,
  read_and_distribute, list_windows, tiers_of, allocations_of, Outcome,
}

pub map_err_ok :
    {E E' A : Type 0} (f : E → E') (m : Result E A) {a : A} → map_err f m ≡ ok a → m ≡ ok a
map_err_ok f (ok b) h = ground arith
map_err_ok f (err e) h = cc

or_err_ok : {E A : Type 0} (o : Option A) (e : E) {a : A} → or_err o e ≡ ok a → o ≡ some a
or_err_ok none e h = cc
or_err_ok (some b) e h = ap some (ok_inj h)

module _ (fl : Float) (cfg : FeeConfig) (classify : List ℕ → Option WalletTier)
    (answered : Call → Bool) where
  open fl use {F, zero_f, le, is_finite}

  -- What a transaction that succeeds has found: the reward allocated, or what it writes is what is
  -- written.
  pub record Locked (db : Db F) (id : ℕ) (writes : Outcome fl cfg classify answered)
      (o : AllocationOutcome) (db' : Db F) : Type 0 where
    pub row : CoinbaseReward
    pub found : lock_for_allocation id db.rewards ≡ some row
    pub gate :
        ((row.is_allocated ≡ true) × (o ≡ already_allocated) × (db' ≡ db))
        ⊎ ((row.is_allocated ≡ false) × (writes ≡ ok (o, db')))

  pub locked-Locked :
      (db : Db F) (id : ℕ) (writes : Outcome fl cfg classify answered) {o : AllocationOutcome}
      {db' : Db F}
      → locked fl cfg classify answered db id writes ≡ ok (o, db')
      → Locked db id writes o db'
  unfolding locked
  locked-Locked db id writes {o} {db'} h =
      let (_, e₁, k₁) = bind_ok (ask fl cfg classify answered begin_tx) _ h in
      let (_, e₂, k₂) = bind_ok (ask fl cfg classify answered lock_reward) _ k₁ in
      let (row, e₃, k₃) =
        bind_ok (or_err (lock_for_allocation id db.rewards) (unknown_reward id))
          (gated fl cfg classify answered db writes) k₂ in
      elim (Bool-cases row.is_allocated) [
        | inl held ↦
            let k : ok (already_allocated, db) ≡ ok (o, db') = rw held at k₃ in
            record {
              row = row;
              found = or_err_ok _ _ e₃;
              gate = inl (held, sym (ap (λ p. p.0) (ok_inj k)), sym (ap (λ p. p.1) (ok_inj k)));
            }
        | inr fresh ↦ record {
          row = row;
          found = or_err_ok _ _ e₃;
          gate = inr (fresh, rw fresh at k₃);
        }
      ]

  -- What is computed of a distribution, once the windows are read
  pub read_and_distribute-distribute :
      (db : Db F) (id reward start end : ℕ) {r : AllocationOutcome × Db F}
      → read_and_distribute fl cfg classify answered db id reward start end ≡ ok r
      → distribute fl cfg classify answered db id reward (list_for_window fl db start end) ≡ ok r
  unfolding read_and_distribute
  read_and_distribute-distribute db id reward start end h =
      let (_, e, k) = bind_ok (ask fl cfg classify answered list_windows) _ h in k

  pub write_empty-marks :
      (db : Db F) (id reward : ℕ) {o : AllocationOutcome} {db' : Db F}
      → write_empty fl cfg classify answered db id reward ≡ ok (o, db')
      → (o ≡ no_contributing_wallets reward) × (db'.rewards ≡ mark_allocated id db.rewards)
  unfolding write_empty
  write_empty-marks db id reward {o} {db'} h =
      let (_, e₁, k₁) = bind_ok (ask fl cfg classify answered mark_reward) _ h in
      let (_, e₂, k₂) = bind_ok (ask fl cfg classify answered append_audit) _ k₁ in
      (sym (ap (λ p. p.0) (ok_inj k₂)), sym (ap (λ p. p.1.rewards) (ok_inj k₂)))

  -- What the transaction of a window with shares has written.
  pub record Written (db : Db F) (id reward : ℕ) (ws : List (ShareWindow F)) (as' : List Allocation)
      (residue : ℤ) (o : AllocationOutcome) (db' : Db F) : Type 0 where
    pub batch :
        insert_batch fl id (new_rows fl (total_of fl ws) ws as') db.allocations ≡ ok db'.allocations
    pub marked : db'.rewards ≡ mark_allocated id db.rewards
    pub reported :
        let totals = sum_totals (record { pool_fee = 0; nacho = 0; net = 0 }) as' in
        o ≡ freshly_allocated (length ws) totals.net totals.nacho totals.pool_fee residue

  pub write_rows-Written :
      (db : Db F) (id reward : ℕ) (ws : List (ShareWindow F)) (as' : List Allocation) (residue : ℤ)
      {o : AllocationOutcome} {db' : Db F}
      → write_rows fl cfg classify answered db id reward ws as' residue ≡ ok (o, db')
      → Written db id reward ws as' residue o db'
  unfolding write_rows
  write_rows-Written db id reward ws as' residue {o} {db'} h =
      let rows = new_rows fl (total_of fl ws) ws as' in
      let (_, e₁, k₁) = bind_ok (ask fl cfg classify answered insert_rows) _ h in
      let (table, e₂, k₂) = bind_ok (insert_batch fl id rows db.allocations) _ k₁ in
      let (_, e₃, k₃) = bind_ok (ask_rebates fl cfg classify answered rows) _ k₂ in
      let (_, e₄, k₄) = bind_ok (ask fl cfg classify answered mark_reward) _ k₃ in
      let (_, e₅, k₅) = bind_ok (ask fl cfg classify answered append_audit) _ k₄ in
      record {
        batch = e₂ ∙ ap (λ p. ok p.1.allocations) (ok_inj k₅);
        marked = sym (ap (λ p. p.1.rewards) (ok_inj k₅));
        reported = sym (ap (λ p. p.0) (ok_inj k₅));
      }

  -- What a successful distribution over the windows `ws` has computed.
  pub record Steps (db : Db F) (id reward : ℕ) (ws : List (ShareWindow F)) (o : AllocationOutcome)
      (db' : Db F) : Type 0 where
    pub grosses : List ℤ
    pub residue : ℤ
    pub tiers : List WalletTier
    pub allocations : List Allocation
    pub split : grosses_of fl reward ws ≡ ok (grosses, residue)
    pub classified : tiers_of fl cfg classify answered db ws ≡ ok tiers
    pub priced : allocations_of fl cfg classify answered grosses tiers ≡ ok allocations
    pub stored : in_tx fl cfg classify answered db id reward ws allocations residue ≡ ok (o, db')

  pub distribute-Steps :
      (db : Db F) (id reward : ℕ) (w : ShareWindow F) (ws : List (ShareWindow F))
      {o : AllocationOutcome} {db' : Db F}
      → distribute fl cfg classify answered db id reward (w ∷ ws) ≡ ok (o, db')
      → Steps db id reward (w ∷ ws) o db'
  unfolding distribute
  distribute-Steps db id reward w ws {o} {db'} h =
      elim (Bool-cases
        (not (is_finite (total_of fl (w ∷ ws))) || le (total_of fl (w ∷ ws)) zero_f)) [
          | inl bad ↦ cc (rw (bad, distribute) at h)
          | inr fine ↦ go (rw (fine, distribute) at h)
        ]
    where
      after_tiers : List ℤ → ℤ → List WalletTier → Result (EngineError F) (AllocationOutcome × Db F)
      after_tiers gs r ts = allocations_of fl cfg classify answered gs ts >>= λ as'.
          in_tx fl cfg classify answered db id reward (w ∷ ws) as' r

      after_split : List ℤ × ℤ → Result (EngineError F) (AllocationOutcome × Db F)
      after_split p = tiers_of fl cfg classify answered db (w ∷ ws) >>= λ ts. after_tiers p.0 p.1 ts

      go :
          (map_err panicked (grosses_of fl reward (w ∷ ws)) >>= after_split) ≡ ok (o, db')
          → Steps db id reward (w ∷ ws) o db'
      go k =
          let (p, e₁, k₁) =
            bind_ok (map_err panicked (grosses_of fl reward (w ∷ ws))) after_split k in
          let (ts, e₂, k₂) =
            bind_ok (tiers_of fl cfg classify answered db (w ∷ ws)) (after_tiers p.0 p.1) k₁ in
          let (as', e₃, k₃) =
            bind_ok (allocations_of fl cfg classify answered p.0 ts)
              (λ as'. in_tx fl cfg classify answered db id reward (w ∷ ws) as' p.1) k₂ in
          record {
            grosses = p.0;
            residue = p.1;
            tiers = ts;
            allocations = as';
            split = map_err_ok panicked _ e₁;
            classified = e₂;
            priced = e₃;
            stored = k₃;
          }
