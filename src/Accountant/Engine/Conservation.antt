-- ===== src/Accountant/Engine/Conservation.antt =====
-- accountant/src/allocation.rs: the money of an allocation that succeeds.
use zkas_pool.Base.{
  Bool, ℕ, ◌+◌, ◌≤◌, ◌≡◌, sym, ap, ◌∙◌, subst, List, [], ◌∷◌, Option, arith, length, length-map,
  sum_by, inl, inr,
}
use zkas_pool.Base.Int.{ℤ, pos, pos_part}
use zkas_pool.Base.Results.{ok, i64_max}
use zkas_pool.Base.Float.{Float}
use zkas_pool.Accountant.Fee.{WalletTier, FeeConfig, Allocation}
use zkas_pool.Accountant.Fee.Bounds.{IsValid}
use zkas_pool.Accountant.Db.{ShareWindow, Db}
use zkas_pool.Accountant.Window.{list_for_window}
use zkas_pool.Accountant.Allocation.{freshly_allocated, Totals, sum_totals, total_of}
use zkas_pool.Accountant.Allocation.Grosses.{grosses_of_inv, grosses_of_exact, shares_of}
use zkas_pool.Accountant.Engine.{
  insert_batch, new_rows, in_tx, distribute, finalise_empty, allocate_coinbase_reward, write_rows,
  write_empty, Call, TxEnd,
}
use zkas_pool.Accountant.Engine.Atomic.{allocate-Allocated}
use zkas_pool.Accountant.Engine.Ends.{closed_fields}
use zkas_pool.Accountant.Engine.Steps.{
  Steps, distribute-Steps, locked-Locked, write_rows-Written, write_empty-marks,
  read_and_distribute-distribute,
}
use zkas_pool.Accountant.Engine.Sums.{
  gross_of, row_credit, sum_totals-sums, tiers_of-length, award-length, allocations_of-sums,
  new_rows-credit, insert_batch-credit,
}

module _ (fl : Float) (cfg : FeeConfig) (classify : List ℕ → Option WalletTier)
    (answered : Call → Bool) where
  open fl use {F}

  abbrev zero_totals : Totals
  zero_totals = record { pool_fee = 0; nacho = 0; net = 0 }

  -- What a transaction that allocates has stored and reports.
  record Stored (db : Db F) (id : ℕ) (ws : List (ShareWindow F)) (as' : List Allocation)
      (n net nacho fee : ℕ) (db' : Db F) : Type 0 where
    batch :
        insert_batch fl id (new_rows fl (total_of fl ws) ws as') db.allocations ≡ ok db'.allocations
    wallets : n ≡ length ws
    net_total : net ≡ (sum_totals zero_totals as').net
    nacho_total : nacho ≡ (sum_totals zero_totals as').nacho
    fee_total : fee ≡ (sum_totals zero_totals as').pool_fee

  in_tx-Stored :
      (db : Db F) (id reward : ℕ) (ws : List (ShareWindow F)) (as' : List Allocation) (residue : ℤ)
      {n net nacho fee : ℕ} {res : ℤ} {db' : Db F}
      → in_tx fl cfg classify answered db id reward ws as' residue
        ≡ ok (freshly_allocated n net nacho fee res, db')
      → Stored db id ws as' n net nacho fee db'
  unfolding in_tx
  in_tx-Stored db id reward ws as' residue {n} {net} {nacho} {fee} {res} {db'} h =
      let l =
        locked-Locked fl cfg classify answered db id
          (write_rows fl cfg classify answered db id reward ws as' residue) h in
      elim l.gate [
        | inl (held, kept, same) ↦ cc
        | inr (fresh, written) ↦
            let w =
              write_rows-Written fl cfg classify answered db id reward ws as' residue written in
            record {
              batch = w.batch;
              wallets = ground (arith, w.reported);
              net_total = ground (arith, w.reported);
              nacho_total = ground (arith, w.reported);
              fee_total = ground (arith, w.reported);
            }
      ]

  finalise_empty-not_fresh :
      (db : Db F) (id reward : ℕ) {n net nacho fee : ℕ} {res : ℤ} {db' : Db F}
      → ¬ (
          finalise_empty fl cfg classify answered db id reward
          ≡ ok (freshly_allocated n net nacho fee res, db'))
  unfolding finalise_empty
  finalise_empty-not_fresh db id reward h =
      let l =
        locked-Locked fl cfg classify answered db id
          (write_empty fl cfg classify answered db id reward) h in
      elim l.gate [
        | inl (held, kept, same) ↦ cc
        | inr (fresh, written) ↦
            let (kept, marked) = write_empty-marks fl cfg classify answered db id reward written in
            cc
      ]

  -- The money of a distribution that allocates.
  abbrev Conserves : Db F → ℕ → ℕ → ℕ → ℕ → Db F → Type 0
  Conserves db reward net nacho fee db' =
      (sum_by (row_credit fl cfg classify answered) db'.allocations
        ≡ sum_by (row_credit fl cfg classify answered) db.allocations + reward)
      × (net + nacho + fee ≡ reward)

  Steps-Conserves :
      (db : Db F) (id reward : ℕ) (w : ShareWindow F) (ws : List (ShareWindow F))
      {n net nacho fee : ℕ} {res : ℤ} {db' : Db F}
      → IsValid cfg
      → reward ≤ i64_max
      → Steps fl cfg classify answered db id reward
          (w ∷ ws)
          (freshly_allocated n net nacho fee res)
          db'
      → Conserves db reward net nacho fee db'
  Steps-Conserves db id reward w ws {n} {net} {nacho} {fee} {res} {db'} v r st =
      let as' = st.allocations in
      let exact = grosses_of_exact fl reward (w ∷ ws) (omega arith) r st.split in
      let (_, result, _) = grosses_of_inv fl reward (w ∷ ws) st.split in
      let len : length st.grosses ≡ length (w ∷ ws) =
        ap length (sym result)
        ∙ award-length fl cfg classify answered (w ∷ ws) _ _
        ∙ length-map pos (shares_of fl reward (w ∷ ws))
        ∙ length-map _ (w ∷ ws) in
      let same_length : length st.tiers ≡ length st.grosses =
        tiers_of-length fl cfg classify answered db (w ∷ ws) st.classified ∙ sym len in
      let sums =
        allocations_of-sums fl cfg classify answered st.grosses st.tiers v same_length st.priced in
      let gross : sum_by gross_of as' ≡ reward = ap pos_part (sym sums.1 ∙ exact.1) in
      let stored = in_tx-Stored db id reward (w ∷ ws) as' st.residue st.stored in
      let credit =
        insert_batch-credit fl cfg classify answered id
          (new_rows fl (total_of fl (w ∷ ws)) (w ∷ ws) as') db.allocations stored.batch in
      let rows =
        new_rows-credit fl cfg classify answered (total_of fl (w ∷ ws)) (w ∷ ws) as'
          (sums.0 ∙ len) in
      let parts = sums.2 in
      let totals = sum_totals-sums zero_totals as' (omega arith) (omega arith) (omega arith) in
      (
        omega arith,
        omega (
          arith,
          stored.net_total ∙ ap (λ t. t.net) totals,
          stored.nacho_total ∙ ap (λ t. t.nacho) totals,
          stored.fee_total ∙ ap (λ t. t.pool_fee) totals,
        ),
      )

  distribute-Conserves :
      (db : Db F) (id reward : ℕ) (ws : List (ShareWindow F)) {n net nacho fee : ℕ} {res : ℤ}
      {db' : Db F}
      → IsValid cfg
      → reward ≤ i64_max
      → distribute fl cfg classify answered db id reward ws
        ≡ ok (freshly_allocated n net nacho fee res, db')
      → Conserves db reward net nacho fee db'
  unfolding distribute
  distribute-Conserves db id reward [] v r h = absurd (finalise_empty-not_fresh db id reward h)
  distribute-Conserves db id reward (w ∷ ws) v r h =
      Steps-Conserves db id reward w ws v r
        (distribute-Steps fl cfg classify answered db id reward w ws h)

  -- An allocation that succeeds hands out the whole reward: the fees, rebates and net payouts of
  -- the rows that it adds to the table sum to the reward, to the sompi, and so do the totals that it
  -- reports. This holds for every floating-point behaviour, every window and every classifier.
  pub allocate_conserves :
      (close last : TxEnd) (db : Db F) (id reward start end : ℕ) {n net nacho fee : ℕ} {residue : ℤ}
      {db' : Db F}
      → IsValid cfg
      → reward ≤ i64_max
      → allocate_coinbase_reward fl cfg classify answered close last db id (pos reward) start end
        ≡ (ok (freshly_allocated n net nacho fee residue), db')
      → (sum_by (row_credit fl cfg classify answered) db'.allocations
          ≡ sum_by (row_credit fl cfg classify answered) db.allocations + reward)
        × (net + nacho + fee ≡ reward)
  allocate_conserves close last db id reward start end {n} {net} {nacho} {fee} {residue} {db'} v r
        h =
      let a = allocate-Allocated fl cfg classify answered close last db id reward start end h in
      let same =
        (closed_fields fl cfg classify answered db a.closed start end a.close).allocations in
      subst
        (λ rows.
          (sum_by (row_credit fl cfg classify answered) db'.allocations
            ≡ sum_by (row_credit fl cfg classify answered) rows + reward)
          × (net + nacho + fee ≡ reward))
        same
        (distribute-Conserves a.closed id reward (list_for_window fl a.closed start end) v r (
          read_and_distribute-distribute fl cfg classify answered a.closed id reward start end
            a.run))
