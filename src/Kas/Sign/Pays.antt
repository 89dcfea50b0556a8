-- ===== src/Kas/Sign/Pays.antt =====
-- payout-kas/src/signer.rs and `sign_batch_with_exact_fee` of execute.rs: what a signed batch pays.
use zkas_pool.Base.{
  ℕ, ◌+◌, ◌≡◌, refl, ◌∙◌, ap, false, List, [], ◌∷◌, ◌++◌, map, Option, none, some, any, not, ◌&&◌,
  ◌≤◌, sum_by, ◌==◌, arith, if_holds,
}
use zkas_pool.Base.Results.{
  Result, ok, err, ◌>>=◌, OnOk, OnOk-map, OnOk-bind, OnOk-of, OnOk-value, u64_max, sum_checked,
  sum_checked_sound, Panic,
}
use zkas_pool.Base.Float.{Float}
use zkas_pool.StorageMass.Mass.{
  Script, TreasuryUtxo, TransactionInput, Transaction, PlannedBatch, MassEvaluator,
  is_planning_virtual, payout_output, change_output, evaluate_populated,
}
use zkas_pool.StorageMass.Fee.{FeeRate, fee_for, reserves_fee, is_change_dust}
use zkas_pool.StorageMass.Planner.{coin, amount}
use zkas_pool.Kas.World.{SignError, ExecuteError}
use zkas_pool.Kas.Sign.{
  Signer, SignedBatch, outpoints, is_empty, unsigned_input, lift_sign, lift_mass, lift_panic,
  unsigned_tx, build_unsigned, sign_batch, adjust, change_left, without_dust,
  sign_batch_with_exact_fee,
}

-- With a change of `c`: the transaction pays each payout of the batch, in order, then the treasury if
-- there is change. It spends the batch's coins, none of which is a placeholder of the planner.
pub record Pays (script : Script) (batch : PlannedBatch) (c : ℕ) (signed : SignedBatch)
    : Type 0 where
  pub outputs : signed.tx.outputs ≡ map payout_output batch.payouts ++ change_output script c
  pub spends : outpoints signed.tx ≡ map (λ (u : TreasuryUtxo). u.outpoint) batch.inputs
  pub real : any is_planning_virtual batch.inputs ≡ false

unsigned_outpoints :
    (us : List TreasuryUtxo)
    → map (λ (i : TransactionInput). i.previous_outpoint) (map unsigned_input us)
      ≡ map (λ (u : TreasuryUtxo). u.outpoint) us
unsigned_outpoints [] = refl
unsigned_outpoints (u ∷ us) = ap (λ os. u.outpoint ∷ os) (unsigned_outpoints us)

OnOk-lift_sign {μ} :
    {A : Type 0} (P : A → Type μ) (m : Result SignError A) → OnOk P m → OnOk P (lift_sign m)
unfolding lift_sign
OnOk-lift_sign P (ok a) h = h
OnOk-lift_sign P (err e) h = tt

-- A checked sum, if it did not overflow, is the sum.
summed :
    {A : Type 0} (f : A → ℕ) (xs : List A)
    → OnOk (λ n. n ≡ sum_by f xs) (lift_panic (sum_checked u64_max f 0 xs))
unfolding lift_panic
summed f xs =
    split (sum_checked u64_max f 0 xs)
      (λ n e. sum_checked_sound u64_max f 0 xs {s = n} e (omega arith))
  where
    split :
        (m : Result Panic ℕ)
        → ((n : ℕ) → m ≡ ok n → (n ≡ 0 + sum_by f xs) × (n ≤ u64_max))
        → OnOk (λ n. n ≡ sum_by f xs) (lift_panic m)
    split (ok n) h = omega (arith, (h n refl).0)
    split (err e) h = tt

module _ (signer : Signer) (script : Script) where
  unsigned_outputs :
      (batch : PlannedBatch)
      → (unsigned_tx signer script batch).outputs
        ≡ map payout_output batch.payouts ++ change_output script batch.change_amount_sompi
  unfolding unsigned_tx
  unsigned_outputs batch = refl

  unsigned_spends :
      (batch : PlannedBatch)
      → outpoints (unsigned_tx signer script batch)
        ≡ map (λ (u : TreasuryUtxo). u.outpoint) batch.inputs
  unfolding unsigned_tx
  unsigned_spends batch = unsigned_outpoints batch.inputs

  sign_batch-Pays :
      (batch : PlannedBatch)
      → OnOk (Pays script batch batch.change_amount_sompi) (sign_batch signer script batch)
  unfolding sign_batch build_unsigned
  sign_batch-Pays batch =
      let Q = Pays script batch batch.change_amount_sompi in
      OnOk-bind
        (λ r.
          (r.0 ≡ unsigned_tx signer script batch) × (any is_planning_virtual batch.inputs ≡ false))
        Q (build_unsigned signer script batch)
        (λ (tx, entries). signer.seal tx entries >>= λ t. ok (record { tx = t; entries = entries }))
        (if_holds (OnOk _) (is_empty batch.inputs) (λ _. tt)
          λ _.
            if_holds (OnOk _) (any is_planning_virtual batch.inputs) (λ _. tt) λ real. (refl, real))
        λ (tx, entries) (same, real).
          OnOk-bind (λ (t : Transaction). (t.outputs ≡ tx.outputs) × (outpoints t ≡ outpoints tx)) Q
            (signer.seal tx entries) _
            (OnOk-of _ (signer.seal tx entries) (λ t e. signer.seal_pays tx entries e))
            λ t (outs, spent). record {
              outputs = outs ∙ ap (λ (t : Transaction). t.outputs) same ∙ unsigned_outputs batch;
              spends = spent ∙ ap outpoints same ∙ unsigned_spends batch;
              real = real;
            }

  module _ (fl : Float) (ev : MassEvaluator) (rate : FeeRate fl) where
    -- Paid without a loss: the change of the signed transaction, and that the coins cover it
    abbrev pub PaysWhole : PlannedBatch → SignedBatch → Type 0
    PaysWhole batch s =
        (c : ℕ) × Pays script batch c s
        × (sum_by amount batch.payouts + c ≤ sum_by coin batch.inputs)

    kept :
        (batch : PlannedBatch) (s : SignedBatch)
        → sum_by amount batch.payouts + batch.change_amount_sompi ≤ sum_by coin batch.inputs
        → Pays script batch batch.change_amount_sompi s
        → OnOk {E = ExecuteError} (PaysWhole batch) (ok s)
    kept batch s le p = (batch.change_amount_sompi, p, le)

    without_dust-le : (c : ℕ) → without_dust signer script fl ev rate c ≤ c
    unfolding without_dust
    without_dust-le c =
        if_holds (λ n. n ≤ c) (not (c == 0) && is_change_dust ev.calculator c script)
          (λ _. omega arith) (λ _. omega arith)

    change_left-fits :
        (input_sum payout_sum fee : ℕ) {c : ℕ}
        → change_left input_sum payout_sum fee ≡ some c
        → payout_sum + c ≤ input_sum
    unfolding change_left
    change_left-fits input_sum payout_sum fee h = ground arith

    adjust-Pays :
        (batch : PlannedBatch) (s : SignedBatch) (input_sum payout_sum fee : ℕ)
        → input_sum ≡ sum_by coin batch.inputs
        → payout_sum ≡ sum_by amount batch.payouts
        → sum_by amount batch.payouts + batch.change_amount_sompi ≤ sum_by coin batch.inputs
        → Pays script batch batch.change_amount_sompi s
        → OnOk
            (PaysWhole batch)
            (adjust signer script fl ev rate batch s (change_left input_sum payout_sum fee))
    unfolding adjust
    adjust-Pays batch s input_sum payout_sum fee ins outs le p =
        split (change_left input_sum payout_sum fee)
          (λ c. change_left-fits input_sum payout_sum fee {c = c})
      where
        split :
            (o : Option ℕ)
            → ((c : ℕ) → o ≡ some c → payout_sum + c ≤ input_sum)
            → OnOk (PaysWhole batch) (adjust signer script fl ev rate batch s o)
        split none fits = kept batch s le p
        split (some c) fits =
            if_holds (OnOk (PaysWhole batch))
              (without_dust signer script fl ev rate c == batch.change_amount_sompi)
              (λ _. kept batch s le p)
              λ _.
                let d = without_dust signer script fl ev rate c in
                let b = record batch { change_amount_sompi = d } in
                OnOk-lift_sign (PaysWhole batch) (sign_batch signer script b) (
                  OnOk-map (Pays script b d) (PaysWhole batch) (sign_batch signer script b)
                    (sign_batch-Pays b)
                    λ t q. (
                      d,
                      record { outputs = q.outputs; spends = q.spends; real = q.real },
                      omega (arith, fits c refl, without_dust-le c, ins, outs),
                    ))

    -- A batch that its coins cover, signed with the exact fee: the transaction has one output for
    -- each payout of the batch, of its amount and to its script, then at most one to the treasury; it
    -- spends just the batch's coins, none of them a placeholder; and the coins cover its outputs.
    pub sign_batch_with_exact_fee-PaysWhole :
        (batch : PlannedBatch) {s : SignedBatch}
        → sum_by amount batch.payouts + batch.change_amount_sompi ≤ sum_by coin batch.inputs
        → sign_batch_with_exact_fee signer script fl ev rate batch ≡ ok s
        → PaysWhole batch s
    unfolding sign_batch_with_exact_fee
    sign_batch_with_exact_fee-PaysWhole batch {s} le run =
        let Q = PaysWhole batch in
        let sums = sum_by coin batch.inputs in
        let paid = sum_by amount batch.payouts in
        OnOk-value Q (sign_batch_with_exact_fee signer script fl ev rate batch)
          (OnOk-bind (Pays script batch batch.change_amount_sompi) Q
            (lift_sign (sign_batch signer script batch)) _
            (OnOk-lift_sign _ (sign_batch signer script batch) (sign_batch-Pays batch))
            λ t p.
              if_holds (OnOk Q) (not (reserves_fee fl rate)) (λ _. kept batch t le p)
                λ _.
                  OnOk-bind (λ _. Unit {0}) Q (lift_mass (evaluate_populated ev (t.tx, t.entries)))
                    _ (OnOk-of (λ _. Unit) _ (λ _ _. tt))
                    λ m _.
                      OnOk-bind (λ n. n ≡ sums) Q
                        (lift_panic (sum_checked u64_max coin 0 batch.inputs)) _
                        (summed coin batch.inputs)
                        λ input_sum ins.
                          OnOk-bind (λ n. n ≡ paid) Q
                            (lift_panic (sum_checked u64_max amount 0 batch.payouts)) _
                            (summed amount batch.payouts)
                            λ payout_sum outs.
                              adjust-Pays batch t input_sum payout_sum (fee_for fl rate m) ins outs
                                le p)
          run
