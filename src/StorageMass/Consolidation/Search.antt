-- ===== src/StorageMass/Consolidation/Search.antt =====
-- consolidation.rs, `max_inputs_that_fit`: the binary search finds the greatest number of inputs.
use zkas_pool.Base.{
  ℕ, zero, suc, ◌+◌, ◌-◌, ◌/◌, ◌≤◌, ◌<◌, ◌≡◌, refl, inl, inr, Bool, true, false, arith, ltb, leb,
  Bool-cases, List, length, min, ◌==◌, ==→eq, ◌⊎◌,
}
use zkas_pool.Base.Results.{Result, ok, err, Panic, OnOk, OnOk-bind, OnOk-of}
use zkas_pool.StorageMass.Mass.{Script, TreasuryUtxo, MassEvaluator}
use zkas_pool.StorageMass.Consolidation.{narrow, fits_at, max_inputs_that_fit}

-- The greatest number up to `hi` that the test accepts.
pub record Greatest (q : ℕ → Bool) (lo hi k : ℕ) : Type 0 where
  pub least : lo ≤ k
  pub most : k ≤ hi
  pub accepted : q k ≡ true
  pub beyond : (j : ℕ) → k < j → j ≤ hi → q j ≡ false

module _ (fits : ℕ → Result Panic Bool) (q : ℕ → Bool)
    (falls : (a b : ℕ) → a ≤ b → q b ≡ true → q a ≡ true) where
  rejected : (a b : ℕ) → a ≤ b → q a ≡ false → q b ≡ false
  rejected a b le h = elim (Bool-cases (q b)) [ inl e ↦ cc (falls a b le e) | inr e ↦ e ]

  narrow-Greatest :
      (fuel lo hi : ℕ)
      → lo ≤ hi
      → hi ≤ lo + fuel
      → ((n : ℕ) → n ≤ hi → fits n ≡ ok (q n))
      → q lo ≡ true
      → (k : ℕ) × (narrow fits fuel lo hi ≡ ok k) × Greatest q lo hi k
  unfolding narrow
  narrow-Greatest zero lo hi le f p h = (
    lo,
    refl,
    record { least = omega arith; most = le; accepted = h; beyond = λ j a b. absurd (omega arith) },
  )
  narrow-Greatest (suc fuel) lo hi le f p h = elim (Bool-cases (ltb lo hi)) [
    | inr e ↦ (
      lo,
      rw e refl,
      record {
        least = omega arith;
        most = le;
        accepted = h;
        beyond = λ j a b. absurd (ground arith);
      },
    )
    | inl e ↦
        let mid = lo + (hi - lo + 1) / 2 in
        let lt : lo < hi = ground arith in
        elim (Bool-cases (q mid)) [
          | inl yes' ↦
              let (k, run, g) = narrow-Greatest fuel mid hi (omega arith) (omega arith) p yes' in
              (
                k,
                rw (e, p mid (omega arith), yes') run,
                record {
                  least = omega (arith, g.least);
                  most = g.most;
                  accepted = g.accepted;
                  beyond = g.beyond;
                },
              )
          | inr no' ↦
              let (k, run, g) =
                narrow-Greatest fuel lo (mid - 1) (omega arith) (omega arith)
                  (λ n b. p n (omega arith)) h in
              (
                k,
                rw (e, p mid (omega arith), no') run,
                record {
                  least = g.least;
                  most = omega (arith, g.most);
                  accepted = g.accepted;
                  beyond = λ j a b. elim (Bool-cases (leb mid j)) [
                    | inl far ↦ rejected mid j (ground arith) no'
                    | inr near ↦ g.beyond j a (ground arith)
                  ];
                },
              )
        ]
  ]

-- Whatever the test, the search stays in its bounds.
narrow-within :
    (fits : ℕ → Result Panic Bool) (fuel lo hi : ℕ)
    → lo ≤ hi
    → OnOk (λ k. k ≤ hi) (narrow fits fuel lo hi)
unfolding narrow
narrow-within fits zero lo hi le = le
narrow-within fits (suc fuel) lo hi le = elim (Bool-cases (ltb lo hi)) [
  | inr e ↦ rw e le
  | inl e ↦
      let lt : lo < hi = ground arith in
      let mid = lo + (hi - lo + 1) / 2 in
      rw e (
        OnOk-bind (λ b. Unit {0}) (λ k. k ≤ hi) (fits mid) _
          (OnOk-of (λ b. Unit {0}) (fits mid) (λ _ _. tt))
          (λ b _.
            branch mid (omega arith) (omega arith) b (narrow-within fits fuel mid hi (omega arith))
              (narrow-within fits fuel lo (mid - 1) (omega arith))))
]
  where
    lower : (m : ℕ) → m ≤ hi → (r : Result Panic ℕ) → OnOk (λ k. k ≤ m) r → OnOk (λ k. k ≤ hi) r
    lower m le' (ok k) h = omega arith
    lower m le' (err p) h = tt

    branch :
        (mid : ℕ)
        → mid ≤ hi
        → mid - 1 ≤ hi
        → (b : Bool) → OnOk (λ k. k ≤ hi) (narrow fits fuel mid hi)
        → OnOk (λ k. k ≤ mid - 1) (narrow fits fuel lo (mid - 1))
        → OnOk
            (λ k. k ≤ hi)
            (elim b [ true ↦ narrow fits fuel mid hi | false ↦ narrow fits fuel lo (mid - 1) ])
    branch mid u v true a c = a
    branch mid u v false a c = lower (mid - 1) v (narrow fits fuel lo (mid - 1)) c

module _ (ev : MassEvaluator) (script : Script) (utxos : List TreasuryUtxo) (max_inputs : ℕ) where
  pub max_inputs_that_fit-le :
      OnOk (λ k. k ≤ max_inputs) (max_inputs_that_fit ev script utxos max_inputs)
  unfolding max_inputs_that_fit
  max_inputs_that_fit-le =
      let hi = min max_inputs (length utxos) in
      let search = narrow (fits_at ev script utxos) (hi - 1) 1 hi in
      elim (Bool-cases (hi == 0)) [
        | inl e ↦ rw e (omega arith)
        | inr e ↦ rw e (
            OnOk-bind (λ b. Unit {0}) (λ k. k ≤ max_inputs) (fits_at ev script utxos 1) _
              (OnOk-of (λ b. Unit {0}) (fits_at ev script utxos 1) (λ _ _. tt))
              (λ b _.
                branch search
                  (below search
                    (narrow-within (fits_at ev script utxos) (hi - 1) 1 hi (ground arith)))
                  b))
      ]
    where
      below :
          (r : Result Panic ℕ)
          → OnOk (λ k. k ≤ min max_inputs (length utxos)) r
          → OnOk (λ k. k ≤ max_inputs) r
      below (ok k) h = omega arith
      below (err p) h = tt

      branch :
          (r : Result Panic ℕ)
          → OnOk (λ k. k ≤ max_inputs) r
          → (b : Bool) → OnOk (λ k. k ≤ max_inputs) (elim b [ true ↦ r | false ↦ ok 0 ])
      branch r h true = h
      branch r h false = omega arith

  -- If the masses of the shorter prefixes fit whenever those of a longer do, the result is the
  -- greatest number of inputs, up to the bound and the coins there are, that fits; it is 0 if there
  -- are none or one input does not fit.
  pub max_inputs_that_fit-Greatest :
      (q : ℕ → Bool)
      → ((a b : ℕ) → a ≤ b → q b ≡ true → q a ≡ true)
      → ((n : ℕ) → n ≤ min max_inputs (length utxos) → fits_at ev script utxos n ≡ ok (q n))
      → (k : ℕ) × (max_inputs_that_fit ev script utxos max_inputs ≡ ok k)
        × (((k ≡ 0) × ((min max_inputs (length utxos) ≡ 0) ⊎ (q 1 ≡ false)))
            ⊎ Greatest q 1 (min max_inputs (length utxos)) k)
  unfolding max_inputs_that_fit
  max_inputs_that_fit-Greatest q falls p =
      let hi = min max_inputs (length utxos) in
      elim (Bool-cases (hi == 0)) [
        | inl e ↦ (0, rw e refl, inl (refl, inl (==→eq hi 0 e)))
        | inr e ↦
            let one : fits_at ev script utxos 1 ≡ ok (q 1) = p 1 (ground arith) in
            elim (Bool-cases (q 1)) [
              | inr no' ↦ (0, rw (e, one, no') refl, inl (refl, inr no'))
              | inl yes' ↦
                  let (k, run, g) =
                    narrow-Greatest (fits_at ev script utxos) q falls (hi - 1) 1 hi (ground arith)
                      (ground arith) p yes' in
                  (k, rw (e, one, yes') run, inr g)
            ]
      ]
