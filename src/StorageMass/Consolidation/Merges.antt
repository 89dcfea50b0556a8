-- ===== src/StorageMass/Consolidation/Merges.antt =====
-- consolidation.rs, `plan_consolidation`: what its batches are.
use zkas_pool.Base.{
  ℕ, zero, suc, ◌+◌, ◌≤◌, ◌<◌, ◌≡◌, refl, ap, ◌∙◌, subst, true, List, [], ◌∷◌, ◌++◌, ◌&&◌, ◌||◌,
  Option, none, some, arith, ltb, leb, ◌==◌, if_holds, elim_holds, length, length-take, length-drop,
  take, drop, take-append-drop, sum_by, All, retain,
}
use zkas_pool.Base.Results.{
  ok, ◌>>=◌, u64_max, sum_checked, OnOk, OnOk-bind, OnOk-of, OnOk-map, OnOk-value,
}
use zkas_pool.Base.Distinct.{Sub, Sub-refl, Sub-none, Sub-append}
use zkas_pool.Base.Float.{Float}
use zkas_pool.StorageMass.Mass.{
  Script, TreasuryUtxo, TxMass, PlannedBatch, MassEvaluator, fits_independently, fitting,
  fitting-fits, evaluate_populated, build_populated, max_standard_tx_mass,
}
use zkas_pool.StorageMass.Fee.{FeeRate, fee_for, reserves_fee}
use zkas_pool.StorageMass.Planner.Batches.{checked_sum}
use zkas_pool.StorageMass.Planner.Coins.{spent_of}
use zkas_pool.StorageMass.Consolidation.{
  value, is_real, sort_utxos_asc, min_consolidation_inputs, chunks, chunks_by, evaluate_self_send,
  max_inputs_that_fit, merge, merge_chunks, merge_sorted, plan_consolidation,
}
use zkas_pool.StorageMass.Consolidation.Search.{max_inputs_that_fit-le}

abbrev concat : List (List TreasuryUtxo) → List TreasuryUtxo
concat [] = []
concat (us ∷ rest) = us ++ concat rest

chunks_by-concat :
    (fuel size : ℕ) (us : List TreasuryUtxo)
    → 0 < size
    → length us ≤ fuel
    → concat (chunks_by fuel size us) ≡ us
unfolding chunks_by
chunks_by-concat zero size [] pos h = refl
chunks_by-concat zero size (u ∷ us) pos h = elim h [ ]
chunks_by-concat (suc fuel) size [] pos h = refl
chunks_by-concat (suc fuel) size (u ∷ us) pos h =
    ap (λ (t : List TreasuryUtxo). take size (u ∷ us) ++ t)
      (chunks_by-concat fuel size (drop size (u ∷ us)) pos
        (omega (arith, length-drop {0} size (u ∷ us))))
    ∙ take-append-drop size (u ∷ us)

chunks_by-size :
    (fuel size : ℕ) (us : List TreasuryUtxo)
    → All (λ (c : List TreasuryUtxo). length c ≤ size) (chunks_by fuel size us)
unfolding chunks_by
chunks_by-size zero size us = tt
chunks_by-size (suc fuel) size [] = tt
chunks_by-size (suc fuel) size (u ∷ us) =
    (omega (arith, length-take {0} size (u ∷ us)), chunks_by-size fuel size (drop size (u ∷ us)))

module _ (fl : Float) (ev : MassEvaluator) (script : Script) (rate : FeeRate fl) (max_txs : ℕ) where
  -- A transaction from two coins or more, all to the treasury, that the mempool takes.
  pub record IsMerge (max_inputs : ℕ) (b : PlannedBatch) : Type 0 where
    pub pays_nobody : b.payouts ≡ []
    pub shrinks : 2 ≤ length b.inputs
    pub bounded : length b.inputs ≤ max_inputs
    pub conserves : b.change_amount_sompi ≡ sum_by value b.inputs
    pub measured :
        fitting max_standard_tx_mass
          (evaluate_populated ev (build_populated b.inputs [] script b.change_amount_sompi))
        ≡ some b.mass
    pub relayable : fits_independently b.mass max_standard_tx_mass ≡ true
    pub survives_fee : reserves_fee fl rate ≡ true → fee_for fl rate b.mass < b.change_amount_sompi

  abbrev Merged : List TreasuryUtxo → ℕ → Option PlannedBatch → Type 0
  Merged chunk size none = Unit
  Merged chunk size (some b) = (b.inputs ≡ chunk) × IsMerge size b

  self_send-fits :
      (c : List TreasuryUtxo) (n : ℕ) {mass : TxMass}
      → evaluate_self_send ev script c n ≡ some mass
      → fits_independently mass max_standard_tx_mass ≡ true
  unfolding evaluate_self_send
  self_send-fits c n f = fitting-fits _ _ f

  self_send-fitting :
      (c : List TreasuryUtxo) (n : ℕ) {mass : TxMass}
      → evaluate_self_send ev script c n ≡ some mass
      → fitting max_standard_tx_mass (evaluate_populated ev (build_populated c [] script n))
        ≡ some mass
  unfolding evaluate_self_send
  self_send-fitting c n f = f

  merge-Merged :
      (chunk : List TreasuryUtxo) (size input_sum : ℕ) (m : Option TxMass)
      → 2 ≤ length chunk
      → length chunk ≤ size
      → input_sum ≡ sum_by value chunk
      → ((mass : TxMass) → m ≡ some mass → evaluate_self_send ev script chunk input_sum ≡ some mass)
      → Merged chunk size (merge fl ev script rate max_txs chunk input_sum m)
  unfolding merge
  merge-Merged chunk size input_sum none two le e fit = tt
  merge-Merged chunk size input_sum (some mass) two le e fit =
      if_holds (Merged chunk size) (reserves_fee fl rate && leb input_sum (fee_for fl rate mass))
        {x = none} (λ _. tt)
        (λ over. (
          refl,
          record {
            pays_nobody = refl;
            shrinks = two;
            bounded = le;
            conserves = e;
            measured = self_send-fitting chunk input_sum (fit mass refl);
            relayable = self_send-fits chunk input_sum (fit mass refl);
            survives_fee = λ live. ground arith;
          },
        ))

  record AreMerges (size count : ℕ) (from : List TreasuryUtxo) (bs : List PlannedBatch)
      : Type 0 where
    pub each : All (IsMerge size) bs
    pub few : count + length bs ≤ max_txs
    pub disjoint : Sub (spent_of bs) from

  no_merges :
      (size count : ℕ) (from : List TreasuryUtxo) → count ≤ max_txs → AreMerges size count from []
  no_merges size count from le = record { each = tt; few = omega arith; disjoint = Sub-none from }

  skip_chunk :
      (size count : ℕ) (c : List TreasuryUtxo) {from : List TreasuryUtxo} {bs : List PlannedBatch}
      → AreMerges size count from bs
      → AreMerges size count (c ++ from) bs
  skip_chunk size count c h = record {
    each = h.each;
    few = h.few;
    disjoint = Sub-append (Sub-none c) h.disjoint;
  }

  take_chunk :
      (size count : ℕ) (c : List TreasuryUtxo) (b : PlannedBatch) {from : List TreasuryUtxo}
      {bs : List PlannedBatch}
      → (b.inputs ≡ c) × IsMerge size b
      → AreMerges size (count + 1) from bs
      → AreMerges size count (c ++ from) (b ∷ bs)
  take_chunk size count c b {from} {bs} m h = record {
    each = (m.1, h.each);
    few = omega (arith, h.few);
    disjoint = rw m.0 (Sub-append (Sub-refl c) h.disjoint);
  }

  with_merge :
      (size count : ℕ) (c : List TreasuryUtxo) (cs : List (List TreasuryUtxo))
      (m : Option PlannedBatch)
      → Merged c size m
      → OnOk (AreMerges size count (concat cs)) (merge_chunks fl ev script rate max_txs count cs)
      → OnOk
          (AreMerges size (count + 1) (concat cs))
          (merge_chunks fl ev script rate max_txs (count + 1) cs)
      → OnOk (AreMerges size count (c ++ concat cs)) (elim m [
        | none ↦ merge_chunks fl ev script rate max_txs count cs
        | some batch ↦ merge_chunks fl ev script rate max_txs (count + 1) cs >>= λ batches.
            ok (batch ∷ batches)
      ])
  with_merge size count c cs none m same more =
      OnOk-map (AreMerges size count (concat cs)) (AreMerges size count (c ++ concat cs)) _ same
        (λ bs h. skip_chunk size count c h)
  with_merge size count c cs (some b) m same more =
      OnOk-bind (AreMerges size (count + 1) (concat cs)) (AreMerges size count (c ++ concat cs))
        (merge_chunks fl ev script rate max_txs (count + 1) cs) (λ batches. ok (b ∷ batches)) more
        (λ bs h. take_chunk size count c b m h)

  merge_chunks-AreMerges :
      (size count : ℕ) (cs : List (List TreasuryUtxo))
      → count ≤ max_txs
      → All (λ (c : List TreasuryUtxo). length c ≤ size) cs
      → OnOk (AreMerges size count (concat cs)) (merge_chunks fl ev script rate max_txs count cs)
  unfolding merge_chunks
  merge_chunks-AreMerges size count [] le h = no_merges size count [] le
  merge_chunks-AreMerges size count (c ∷ cs) le h =
      let Q = AreMerges size count (c ++ concat cs) in
      elim_holds (OnOk Q) (leb max_txs count || ltb (length c) min_consolidation_inputs)
        (λ _. no_merges size count (c ++ concat cs) le)
        (λ e.
          OnOk-bind (λ n. n ≡ sum_by value c) Q (sum_checked u64_max value 0 c) _
            (OnOk-of (λ n. n ≡ sum_by value c) (sum_checked u64_max value 0 c)
              (λ n s. checked_sum value c s))
            (λ n s.
              with_merge size count c cs
                (merge fl ev script rate max_txs c n (evaluate_self_send ev script c n))
                (merge-Merged c size n (evaluate_self_send ev script c n) (ground arith) h.0 s
                  (λ mass f. f))
                (merge_chunks-AreMerges size count cs le h.1)
                (merge_chunks-AreMerges size (count + 1) cs (ground arith) h.1)))

  AreMerges-below :
      (cap size : ℕ) (from : List TreasuryUtxo) (bs : List PlannedBatch)
      → cap ≤ size
      → AreMerges cap 0 from bs
      → AreMerges size 0 from bs
  AreMerges-below cap size from bs le h = record {
    each = each bs h.each;
    few = h.few;
    disjoint = h.disjoint;
  }
    where
      each : (bs : List PlannedBatch) → All (IsMerge cap) bs → All (IsMerge size) bs
      each [] k = tt
      each (b ∷ bs) k = (
        record {
          pays_nobody = k.0.pays_nobody;
          shrinks = k.0.shrinks;
          bounded = omega (arith, k.0.bounded);
          conserves = k.0.conserves;
          measured = k.0.measured;
          relayable = k.0.relayable;
          survives_fee = k.0.survives_fee;
        },
        each bs k.1,
      )

  merge_sorted-AreMerges :
      (us : List TreasuryUtxo) (size : ℕ)
      → OnOk (AreMerges size 0 us) (merge_sorted fl ev script rate max_txs us size)
  unfolding merge_sorted chunks
  merge_sorted-AreMerges us size =
      OnOk-bind (λ k. k ≤ size) (AreMerges size 0 us) (max_inputs_that_fit ev script us size) _
        (max_inputs_that_fit-le ev script us size)
        (λ cap le.
          if_holds (OnOk (AreMerges size 0 us)) (ltb cap min_consolidation_inputs)
            (λ _. no_merges size 0 us (omega arith))
            (λ e.
              OnOk-map (AreMerges cap 0 us) (AreMerges size 0 us) _
                (subst
                  (λ (from : List TreasuryUtxo).
                    OnOk (AreMerges cap 0 from)
                      (merge_chunks fl ev script rate max_txs 0 (chunks_by (length us) cap us)))
                  (chunks_by-concat (length us) cap us (ground arith) (omega arith))
                  (merge_chunks-AreMerges cap 0 (chunks_by (length us) cap us) (omega arith)
                    (chunks_by-size (length us) cap us)))
                (λ bs h. AreMerges-below cap size us bs le h)))

  -- A plan that returns has at most `max_txs` batches; each merges between 2 and the given number of
  -- coins into one of their sum, pays nobody, has the mass that the evaluator gives the transaction
  -- of all its inputs, fits the limit of the mempool with it and, under a policy with
  -- fees, outlives its fee; and the inputs of all batches together are coins of the sorted treasury
  -- without the planned ones, each at most once.
  pub plan_consolidation-AreMerges :
      (utxos : List TreasuryUtxo) (max_inputs : ℕ) {bs : List PlannedBatch}
      → plan_consolidation fl ev script rate max_txs utxos max_inputs ≡ ok bs
      → All (IsMerge max_inputs) bs
        × (length bs ≤ max_txs)
        × Sub (spent_of bs) (sort_utxos_asc (retain is_real utxos))
  unfolding plan_consolidation
  plan_consolidation-AreMerges utxos max_inputs {bs} run =
      let from = sort_utxos_asc (retain is_real utxos) in
      let m : AreMerges max_inputs 0 from bs =
        OnOk-value (AreMerges max_inputs 0 from)
          (plan_consolidation fl ev script rate max_txs utxos max_inputs)
          (if_holds (OnOk (AreMerges max_inputs 0 from))
            (max_txs == 0
              || ltb max_inputs min_consolidation_inputs
              || ltb (length (retain is_real utxos)) min_consolidation_inputs)
            (λ _. no_merges max_inputs 0 from (omega arith))
            (λ _. merge_sorted-AreMerges from max_inputs))
          run in
      (m.each, omega (arith, m.few), m.disjoint)
