-- ===== src/StorageMass/Planner/Batches.antt =====
-- planner.rs, `build_one_batch`: a batch pays recipients of the list from the largest coins, fits the
-- mass limit, and leaves exactly the fee of its mass unless its change is dropped.
use zkas_pool.Base.{
  ℕ, zero, suc, ◌+◌, ◌-◌, ◌≤◌, ◌<◌, ◌≡◌, refl, ap, ◌∙◌, true, false, List, [], ◌∷◌, Option, none,
  some, arith, ltb, ◌==◌, if_holds, if◌then◌else◌, ltb→ge, length, take, sum_by,
}
use zkas_pool.Base.Results.{
  ok, err, overflow, u64_max, sum_checked, sum_checked_sound, OnOk, OnOk-bind, OnOk-of,
}
use zkas_pool.Base.Distinct.{Sub}
use zkas_pool.Base.Float.{Float}
use zkas_pool.StorageMass.Mass.{
  Script, TreasuryUtxo, PayoutRecipient, TxMass, PlannedBatch, MassEvaluator, evaluate_shape,
  fits_independently, fitting-fits,
}
use zkas_pool.StorageMass.Fee.{FeeRate, fee_of, reserves_fee, is_change_dust, saturating_add}
use zkas_pool.StorageMass.Planner.{
  Attempt, wider, stop, overflows, found, pick, amount, coin, batch_of, without_change,
  drops_change, keep_change, size_fee, size_batch, with_selected, greedy_recipients_for_inputs,
  try_inputs, search_batch, build_one_batch,
}
use zkas_pool.StorageMass.Planner.Greedy.{Picked, greedy_recipients_for_inputs-Picked}

evaluate_shape-fits :
    (ev : MassEvaluator) (inputs : List TreasuryUtxo) (payouts : List PayoutRecipient)
    (script : Script) (change : ℕ) {m : TxMass}
    → evaluate_shape ev inputs payouts script change ≡ some m
    → fits_independently m ev.block_mass_limit ≡ true
unfolding evaluate_shape
evaluate_shape-fits ev inputs payouts script change h = fitting-fits _ _ h

pub checked_sum :
    {A : Type 0} (f : A → ℕ) (xs : List A) {n : ℕ}
    → sum_checked u64_max f 0 xs ≡ ok n
    → n ≡ sum_by f xs
checked_sum f xs h = omega (arith, (sum_checked_sound u64_max f 0 xs h (omega arith)).0)

module _ (fl : Float) (ev : MassEvaluator) (script : Script) (rate : FeeRate fl) where
  -- What is right about a batch for these inputs and recipients.
  pub record IsSound (inputs : List TreasuryUtxo) (recipients : List PayoutRecipient)
      (b : PlannedBatch) : Type 0 where
    pub spent : b.inputs ≡ inputs
    pub chosen : Sub b.payouts recipients
    pub pays : 0 < length b.payouts
    pub fits : fits_independently b.mass ev.block_mass_limit ≡ true
    pub measured :
        0 < b.change_amount_sompi
        → evaluate_shape ev b.inputs b.payouts script
            (b.change_amount_sompi + fee_of fl rate b.mass)
          ≡ some b.mass
    pub remeasured :
        b.change_amount_sompi ≡ 0 → evaluate_shape ev b.inputs b.payouts script 0 ≡ some b.mass
    pub covered : sum_by amount b.payouts + b.change_amount_sompi ≤ sum_by coin inputs
    pub exact_fee :
        0 < b.change_amount_sompi
        → sum_by coin inputs
          ≡ sum_by amount b.payouts + b.change_amount_sompi + fee_of fl rate b.mass
    pub no_dust :
        reserves_fee fl rate ≡ true
        → 0 < b.change_amount_sompi
        → is_change_dust ev.calculator b.change_amount_sompi script ≡ false

  module _ (inputs : List TreasuryUtxo) (recipients : List PayoutRecipient) where
    abbrev Fine : Attempt → Type 0
    Fine wider = Unit
    Fine stop = Unit
    Fine overflows = Unit
    Fine (found b) = IsSound inputs recipients b

    module _ (payouts : List PayoutRecipient) (c : Sub payouts recipients)
        (p : 0 < length payouts) where
      without_change-Fine :
          (input_sum : ℕ) (m : Option TxMass)
          → sum_by amount payouts ≤ sum_by coin inputs
          → ((mass : TxMass)
              → m ≡ some mass
              → evaluate_shape ev inputs payouts script 0 ≡ some mass)
          → Fine (without_change fl ev script rate inputs input_sum recipients payouts m)
      unfolding without_change
      without_change-Fine input_sum none le fit = tt
      without_change-Fine input_sum (some mass) le fit = record {
        spent = refl;
        chosen = c;
        pays = p;
        fits = evaluate_shape-fits ev inputs payouts script 0 (fit mass refl);
        measured = λ h. absurd (omega arith);
        remeasured = λ _. fit mass refl;
        covered = omega arith;
        exact_fee = λ h. absurd (omega arith);
        no_dust = λ _ h. absurd (omega arith);
      }

      drops_change-dust :
          (input_sum change : ℕ)
          → drops_change fl ev script rate inputs input_sum recipients change ≡ false
          → reserves_fee fl rate ≡ true
          → 0 < change
          → is_change_dust ev.calculator change script ≡ false
      unfolding drops_change
      drops_change-dust input_sum change kept live h = ground arith

      no_fee :
          (input_sum change : ℕ) (mass : TxMass)
          → drops_change fl ev script rate inputs input_sum recipients change ≡ false
          → change ≡ 0
          → fee_of fl rate mass ≡ 0
      unfolding drops_change fee_of
      no_fee input_sum change mass kept h = ground arith

      keep_change-Fine :
          (input_sum change : ℕ) (mass : TxMass)
          → sum_by coin inputs ≡ sum_by amount payouts + change + fee_of fl rate mass
          → evaluate_shape ev inputs payouts script (change + fee_of fl rate mass) ≡ some mass
          → Fine (keep_change fl ev script rate inputs input_sum recipients payouts change mass)
      unfolding keep_change
      keep_change-Fine input_sum change mass e fit =
          if_holds Fine (drops_change fl ev script rate inputs input_sum recipients change)
            {x = without_change fl ev script rate inputs input_sum recipients payouts
              (evaluate_shape ev inputs payouts script 0)}
            {y = batch_of fl ev script rate inputs input_sum recipients payouts change mass}
            (λ _.
              without_change-Fine input_sum (evaluate_shape ev inputs payouts script 0)
                (omega (arith, e)) (λ m h. h))
            (λ kept. record {
              spent = refl;
              chosen = c;
              pays = p;
              fits = evaluate_shape-fits ev inputs payouts script _ fit;
              measured = λ _. fit;
              remeasured = λ none_left.
                  ap (evaluate_shape ev inputs payouts script)
                    (omega (arith, none_left, no_fee input_sum change mass kept none_left))
                  ∙ fit;
              covered = omega (arith, e);
              exact_fee = λ _. e;
              no_dust = λ live h. drops_change-dust input_sum change kept live h;
            })

      size_fee-Fine :
          (input_sum payout_sum : ℕ) (m : Option TxMass)
          → input_sum ≡ sum_by coin inputs
          → payout_sum ≡ sum_by amount payouts
          → payout_sum ≤ input_sum
          → ((mass : TxMass)
              → m ≡ some mass
              → evaluate_shape ev inputs payouts script (input_sum - payout_sum) ≡ some mass)
          → Fine (size_fee fl ev script rate inputs input_sum recipients payouts payout_sum m)
      unfolding size_fee
      size_fee-Fine input_sum payout_sum none i s top fit = tt
      size_fee-Fine input_sum payout_sum (some mass) i s top fit =
          let fee = fee_of fl rate mass in
          let change = input_sum - payout_sum - fee in
          if_holds Fine (ltb input_sum (saturating_add payout_sum fee)) {x = wider}
            {y = if ltb (input_sum - payout_sum) fee
              then overflows
              else keep_change fl ev script rate inputs input_sum recipients payouts change mass}
            (λ _. tt)
            λ _.
              if_holds Fine (ltb (input_sum - payout_sum) fee) {x = overflows}
                {y = keep_change fl ev script rate inputs input_sum recipients payouts change mass}
                (λ _. tt)
                (λ e.
                  keep_change-Fine input_sum change mass
                    (omega (arith, ltb→ge (input_sum - payout_sum) fee e, i, s, top))
                    (ap (evaluate_shape ev inputs payouts script)
                        (omega (arith, ltb→ge (input_sum - payout_sum) fee e))
                      ∙ fit mass refl))

    size_batch-Fine :
        (input_sum payout_sum : ℕ) (selected : List ℕ)
        → 0 < length selected
        → Sub (pick recipients selected) recipients
        → input_sum ≡ sum_by coin inputs
        → payout_sum ≡ sum_by amount (pick recipients selected)
        → Fine (size_batch fl ev script rate inputs input_sum recipients selected payout_sum)
    unfolding size_batch
    size_batch-Fine input_sum payout_sum selected n c i s =
        let payouts = pick recipients selected in
        let shape = evaluate_shape ev inputs payouts script (input_sum - payout_sum) in
        let sized =
          size_fee fl ev script rate inputs input_sum recipients payouts payout_sum shape in
        if_holds Fine (ltb input_sum payout_sum) (λ _. tt)
          λ le.
            if_holds Fine (length payouts == length selected) {x = sized} {y = wider}
              (λ e.
                size_fee-Fine payouts c (ground arith) input_sum payout_sum shape i s
                  (ltb→ge input_sum payout_sum le) (λ mass h. h))
              (λ _. tt)

    with_selected-Fine :
        (input_sum : ℕ) (selected : Option (List ℕ))
        → Picked fl ev script rate inputs input_sum recipients selected
        → input_sum ≡ sum_by coin inputs
        → OnOk Fine (with_selected fl ev script rate inputs input_sum recipients selected)
    unfolding with_selected
    with_selected-Fine input_sum none c i = tt
    with_selected-Fine input_sum (some []) c i = tt
    with_selected-Fine input_sum (some (k ∷ ks)) c i =
        let payouts = pick recipients (k ∷ ks) in
        OnOk-bind (λ (n : ℕ). n ≡ sum_by amount payouts) Fine (sum_checked u64_max amount 0 payouts)
          (λ n. ok (size_batch fl ev script rate inputs input_sum recipients (k ∷ ks) n))
          (OnOk-of (λ (n : ℕ). n ≡ sum_by amount payouts) _ (λ n h. checked_sum amount payouts h))
          (λ n h. size_batch-Fine input_sum n (k ∷ ks) (omega arith) c i h)

  module _ (utxos : List TreasuryUtxo) (recipients : List PayoutRecipient) where
    try_inputs-Fine :
        (k : ℕ)
        → OnOk (Fine (take k utxos) recipients) (try_inputs fl ev script rate utxos recipients k)
    unfolding try_inputs
    try_inputs-Fine k =
        let inputs = take k utxos in
        if_holds (OnOk (Fine inputs recipients)) (ltb (length utxos) k) (λ _. tt)
          λ _.
            OnOk-bind (λ (n : ℕ). n ≡ sum_by coin inputs) (Fine inputs recipients)
              (sum_checked u64_max coin 0 inputs) _
              (OnOk-of (λ (n : ℕ). n ≡ sum_by coin inputs) _ (λ n h. checked_sum coin inputs h))
              (λ n h.
                OnOk-bind (Picked fl ev script rate inputs n recipients) (Fine inputs recipients)
                  (greedy_recipients_for_inputs fl ev script rate inputs n recipients)
                  (with_selected fl ev script rate inputs n recipients)
                  (greedy_recipients_for_inputs-Picked fl ev script rate inputs n recipients)
                  (λ s c. with_selected-Fine inputs recipients n s c h))

    -- There is no batch, or it is right for some number of the first coins.
    abbrev pub Built : Option PlannedBatch → Type 0
    Built none = Unit
    Built (some b) = (k : ℕ) × (0 < k) × IsSound (take k utxos) recipients b

    search_batch-Built :
        (rounds k : ℕ)
        → 0 < k
        → OnOk Built (search_batch fl ev script rate utxos recipients rounds k)
    unfolding search_batch
    search_batch-Built zero k p = tt
    search_batch-Built (suc rounds) k p =
        OnOk-bind (Fine (take k utxos) recipients) Built
          (try_inputs fl ev script rate utxos recipients k) _ (try_inputs-Fine k)
          (split (search_batch-Built rounds (k + 1) (omega arith)))
      where
        split :
            OnOk Built (search_batch fl ev script rate utxos recipients rounds (k + 1))
            → (a : Attempt) → Fine (take k utxos) recipients a
            → OnOk Built (elim a [
              | wider ↦ search_batch fl ev script rate utxos recipients rounds (k + 1)
              | stop ↦ ok none
              | overflows ↦ err overflow
              | found batch ↦ ok (some batch)
            ])
        split later wider f = later
        split later stop f = tt
        split later overflows f = tt
        split later (found b) f = (k, p, f)

    pub build_one_batch-Built : OnOk Built (build_one_batch fl ev script rate utxos recipients)
    unfolding build_one_batch
    build_one_batch-Built = search_batch-Built (length utxos) 1 (omega arith)
