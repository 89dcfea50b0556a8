-- ===== src/StorageMass/Planner/Coins.antt =====
-- planner.rs, `plan_batches`: no coin funds two batches, the coins of change that the plan counts on
-- included, and every other coin is one of the treasury's.
use mathlib.Core.List.{append_assoc, append-nil}
use zkas_pool.Base.{
  ℕ, suc, ◌<◌, ◌≡◌, ◌≢◌, refl, sym, ap, ◌∙◌, subst, true, false, List, [], ◌∷◌, ◌++◌, ◌&&◌, some,
  arith, ltb, leb, if_holds, length, length-append, take, drop, take-append-drop, All, All-append,
  ◌==◌,
}
use zkas_pool.Base.Results.{ok, u32_max}
use zkas_pool.Base.Sort.{sort_by-All}
use zkas_pool.Base.Distinct.{Distinct, Distinct-sort_by}
use zkas_pool.Base.Distinct.Append.{
  All-left, All-append_sort, Distinct-snoc, Distinct-append_sort, Distinct-left, Distinct-right,
  retain-take,
}
use zkas_pool.Base.Float.{Float}
use zkas_pool.StorageMass.Mass.{
  Script, TransactionOutpoint, TreasuryUtxo, PayoutRecipient, PlannedBatch, PlanBatchesResult,
  MassEvaluator, is_planning_virtual, planning_virtual_txid, outpoint_key,
}
use zkas_pool.StorageMass.Fee.{FeeRate}
use zkas_pool.StorageMass.Planner.{
  coin, outpoint_of, sort_utxos_desc, planning_change_utxo, add_change, remove_consumed, PlanState,
  commit_batch, start, plan_batches,
}
use zkas_pool.StorageMass.Planner.Batches.{Built}
use zkas_pool.StorageMass.Planner.Partition.{plan_loop-AtEnd}
use zkas_pool.StorageMass.Planner.Loop.{plan_batches-inv}

-- The coins that the batches spend.
abbrev pub spent_of : List PlannedBatch → List TreasuryUtxo
spent_of [] = []
spent_of (b ∷ bs) = b.inputs ++ spent_of bs

spent_of-snoc :
    (bs : List PlannedBatch) (b : PlannedBatch) → spent_of (bs ++ b ∷ []) ≡ spent_of bs ++ b.inputs
spent_of-snoc [] b = append-nil b.inputs
spent_of-snoc (c ∷ bs) b =
    ap (λ (t : List TreasuryUtxo). c.inputs ++ t) (spent_of-snoc bs b)
    ∙ sym (append_assoc c.inputs (spent_of bs) b.inputs)

-- A coin of the treasury, or the change of one of the first `n` batches.
record Known (P : TreasuryUtxo → Type 0) (n : ℕ) (u : TreasuryUtxo) : Type 0 where
  pub real : is_planning_virtual u ≡ false → P u
  pub minted : is_planning_virtual u ≡ true → u.outpoint.index < n

Known-suc :
    (P : TreasuryUtxo → Type 0) (n : ℕ) (us : List TreasuryUtxo)
    → All (Known P n) us
    → All (Known P (suc n)) us
Known-suc P n [] h = tt
Known-suc P n (u ∷ us) h =
    (record { real = h.0.real; minted = λ v. omega (arith, h.0.minted v) }, Known-suc P n us h.1)

module _ (script : Script) (P : TreasuryUtxo → Type 0) (n change : ℕ) where
  not-minted :
      (u : TreasuryUtxo)
      → Known P n u
      → outpoint_of u ≢ outpoint_of (planning_change_utxo script n change)
  unfolding planning_change_utxo is_planning_virtual
  not-minted u h e =
      let v : (u.outpoint.transaction_id == planning_virtual_txid) ≡ true =
        rw (ap (λ (o : TransactionOutpoint). o.transaction_id) e) refl in
      let i : u.outpoint.index ≡ n = ap (λ (o : TransactionOutpoint). o.index) e in
      absurd (omega (arith, h.minted v, i))

  fresh :
      (us : List TreasuryUtxo)
      → All (Known P n) us
      → All (λ u. outpoint_of u ≢ outpoint_of (planning_change_utxo script n change)) us
  fresh [] h = tt
  fresh (u ∷ us) h = (not-minted u h.0, fresh us h.1)

  change-Known : Known P (suc n) (planning_change_utxo script n change)
  unfolding planning_change_utxo is_planning_virtual
  change-Known = record { real = λ v. cc; minted = λ v. omega arith }

  add_change-Known :
      (before after : List TreasuryUtxo)
      → All (Known P n) (before ++ after)
      → Distinct outpoint_of (before ++ after)
      → All (Known P (suc n)) (before ++ add_change script n change after)
        × Distinct outpoint_of (before ++ add_change script n change after)
  unfolding add_change sort_utxos_desc
  add_change-Known before after h d =
      let c = planning_change_utxo script n change in
      let le = λ (a b : TreasuryUtxo). leb (coin b) (coin a) in
      if_holds (λ us. All (Known P (suc n)) (before ++ us) × Distinct outpoint_of (before ++ us))
        (ltb 0 change && leb n u32_max)
        (λ _. (
          All-append_sort (Known P (suc n)) le before (after ++ c ∷ []) (
              rw (← append_assoc before after (c ∷ [])) (
                All-append (Known P (suc n)) (before ++ after) (c ∷ [])
                  (Known-suc P n (before ++ after) h) (change-Known, tt))),
          Distinct-append_sort outpoint_of le before (after ++ c ∷ []) (
              rw (← append_assoc before after (c ∷ []))
                (Distinct-snoc outpoint_of c (before ++ after) (fresh (before ++ after) h) d)),
        ))
        (λ _. (Known-suc P n (before ++ after) h, d))

module _ (fl : Float) (ev : MassEvaluator) (script : Script) (rate : FeeRate fl)
    (P : TreasuryUtxo → Type 0) where
  -- The coins spent and those left, each known, and no two at one outpoint.
  record SpendsOnce (s : PlanState) : Type 0 where
    pub known : All (Known P (length s.batches)) (spent_of s.batches ++ s.utxos)
    pub distinct : Distinct outpoint_of (spent_of s.batches ++ s.utxos)

  -- The coins of a batch move from those left to those spent.
  moved :
      (s : PlanState) (b : PlannedBatch) (k : ℕ)
      → Distinct outpoint_of s.utxos
      → b.inputs ≡ take k s.utxos
      → spent_of (s.batches ++ b ∷ []) ++ remove_consumed s.utxos b.inputs
        ≡ spent_of s.batches ++ s.utxos
  unfolding remove_consumed
  moved s b k d e = rw (
    spent_of-snoc s.batches b,
    e,
    retain-take outpoint_key outpoint_of k s.utxos d,
    append_assoc (spent_of s.batches) (take k s.utxos) (drop k s.utxos),
    take-append-drop k s.utxos,
  )

  commit_batch-SpendsOnce :
      (s : PlanState) (b : PlannedBatch)
      → SpendsOnce s
      → Built fl ev script rate s.utxos s.payable (some b)
      → SpendsOnce (commit_batch script s b)
  unfolding commit_batch
  commit_batch-SpendsOnce s b h (k, pos, sound) =
      let same =
        moved s b k (Distinct-right outpoint_of (spent_of s.batches) s.utxos h.distinct)
          sound.spent in
      let (known, distinct) =
        add_change-Known script P (length s.batches) b.change_amount_sompi
          (spent_of (s.batches ++ b ∷ [])) (remove_consumed s.utxos b.inputs) (rw same h.known)
          (rw same h.distinct) in
      record {
        known =
            subst
              (λ (m : ℕ). All (Known P m) (
                spent_of (s.batches ++ b ∷ [])
                ++ add_change script (length s.batches) b.change_amount_sompi
                    (remove_consumed s.utxos b.inputs)))
              (omega (arith, length-append {0} s.batches (b ∷ []))) known;
        distinct = distinct;
      }

  real-Known :
      (us : List TreasuryUtxo)
      → All (λ u. is_planning_virtual u ≡ false) us
      → All P us
      → All (Known P 0) us
  real-Known [] r h = tt
  real-Known (u ∷ us) r h =
      (record { real = λ _. h.0; minted = λ v. cc (r.0) }, real-Known us r.1 h.1)

  start-SpendsOnce :
      (utxos : List TreasuryUtxo) (rs : List PayoutRecipient)
      → Distinct outpoint_of utxos
      → All (λ u. is_planning_virtual u ≡ false) utxos
      → All P utxos
      → SpendsOnce (start utxos rs)
  unfolding start sort_utxos_desc
  start-SpendsOnce utxos rs d r h = record {
    known = sort_by-All _ (Known P 0) utxos (real-Known utxos r h);
    distinct = Distinct-sort_by outpoint_of _ utxos d;
  }

  reals :
      (n : ℕ) (us : List TreasuryUtxo)
      → All (Known P n) us
      → All (λ u. is_planning_virtual u ≡ false → P u) us
  reals n [] h = tt
  reals n (u ∷ us) h = (h.0.real, reals n us h.1)

  -- For a treasury of real coins at different outpoints: no two inputs of the batches of a plan are
  -- one coin, within a batch or across them, and what holds of every coin of the treasury holds of
  -- every input that is not the planned change of an earlier batch.
  pub plan_batches-spends_once :
      (utxos : List TreasuryUtxo) (rs : List PayoutRecipient) {r : PlanBatchesResult}
      → Distinct outpoint_of utxos
      → All (λ u. is_planning_virtual u ≡ false) utxos
      → All P utxos
      → plan_batches fl ev script rate utxos rs ≡ some (ok r)
      → Distinct outpoint_of (spent_of r.batches)
        × All (λ u. is_planning_virtual u ≡ false → P u) (spent_of r.batches)
  plan_batches-spends_once utxos rs {r} d real h e =
      let (s, inv, b, u, f) =
        plan_batches-inv fl ev script rate SpendsOnce utxos rs {r = r}
          (plan_loop-AtEnd fl ev script rate SpendsOnce commit_batch-SpendsOnce (suc (length rs))
            (start utxos rs) (start-SpendsOnce utxos rs d real h))
          e in
      rw b (
        Distinct-left outpoint_of (spent_of s.batches) s.utxos inv.distinct,
        reals (length s.batches) (spent_of s.batches)
            (All-left (Known P (length s.batches)) (spent_of s.batches) s.utxos inv.known),
      )
