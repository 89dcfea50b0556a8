-- ===== src/StorageMass/Planner/Greedy.antt =====
-- planner.rs, `greedy_recipients_for_inputs`: what it picks are recipients of the list, in its
-- order and each at most once.
use mathlib.Core.List.{append_assoc}
use zkas_pool.Base.{
  ℕ, ◌+◌, ◌-◌, ◌≡◌, refl, sym, ap, ◌∙◌, subst, Bool, true, false, List, [], ◌∷◌, ◌++◌, Option, none,
  some, arith, ltb, ◌==◌, leb, if_holds, length, length-append, get_elem?,
}
use zkas_pool.Base.Results.{ok, ◌>>=◌, u64_max, sum_checked, OnOk, OnOk-bind, OnOk-of}
use zkas_pool.Base.Distinct.{Sub, done, Sub-snoc, Sub-skip_snoc, Sub-skip_all}
use zkas_pool.Base.Float.{Float}
use zkas_pool.StorageMass.Mass.{
  Script, TreasuryUtxo, PayoutRecipient, TxMass, MassEvaluator, evaluate_shape,
}
use zkas_pool.StorageMass.Fee.{FeeRate, fee_of, saturating_add}
use zkas_pool.StorageMass.Planner.{
  pick, amount, accept_mass, accept, consider, greedy_loop, greedy_recipients_for_inputs,
  some_chosen, max_outputs,
}

pick-append :
    (rs : List PayoutRecipient) (is js : List ℕ) → pick rs (is ++ js) ≡ pick rs is ++ pick rs js
unfolding pick
pick-append rs [] js = refl
pick-append rs (i ∷ is) js = split (pick-append rs is js) (get_elem? rs i)
  where
    split :
        pick rs (is ++ js) ≡ pick rs is ++ pick rs js
        → (o : Option PayoutRecipient)
        → (elim o [ none ↦ pick rs (is ++ js) | some r ↦ r ∷ pick rs (is ++ js) ])
          ≡ (elim o [ none ↦ pick rs is | some r ↦ r ∷ pick rs is ]) ++ pick rs js
    split ih none = ih
    split ih (some r) = ap (λ (t : List PayoutRecipient). r ∷ t) ih

get_elem?-here :
    (pre : List PayoutRecipient) (r : PayoutRecipient) (rest : List PayoutRecipient)
    → get_elem? (pre ++ r ∷ rest) (length pre) ≡ some r
get_elem?-here [] r rest = refl
get_elem?-here (p ∷ pre) r rest = get_elem?-here pre r rest

pick-last :
    (pre : List PayoutRecipient) (r : PayoutRecipient) (rest : List PayoutRecipient) (is : List ℕ)
    → pick (pre ++ r ∷ rest) (is ++ length pre ∷ []) ≡ pick (pre ++ r ∷ rest) is ++ r ∷ []
unfolding pick
pick-last pre r rest is =
    pick-append (pre ++ r ∷ rest) is (length pre ∷ [])
    ∙ ap
        (λ (o : Option PayoutRecipient).
          pick (pre ++ r ∷ rest) is ++ (elim o [ none ↦ [] | some q ↦ q ∷ [] ]))
        (get_elem?-here pre r rest)

module _ (fl : Float) (ev : MassEvaluator) (script : Script) (rate : FeeRate fl) where
  module _ (inputs : List TreasuryUtxo) (input_sum : ℕ) (recipients : List PayoutRecipient) where
    accept_mass_holds {κ} :
        (P : List ℕ → Type κ) (selected candidate : List ℕ) (n : ℕ) (m : Option TxMass)
        → P selected
        → P candidate
        → P (accept_mass fl ev script rate inputs input_sum recipients selected candidate n m)
    unfolding accept_mass
    accept_mass_holds P selected candidate n none p q = p
    accept_mass_holds P selected candidate n (some mass) p q =
        if_holds P (leb (saturating_add n (fee_of fl rate mass)) input_sum) (λ _. q) (λ _. p)

    -- The selection stays, or grows by the recipient considered.
    accept_holds {κ} :
        (P : List ℕ → Type κ) (selected : List ℕ) (idx n : ℕ)
        → P selected
        → P (selected ++ idx ∷ [])
        → P (accept fl ev script rate inputs input_sum recipients selected idx n)
    unfolding accept
    accept_holds P selected idx n p q =
        let candidate = selected ++ idx ∷ [] in
        let payouts = pick recipients candidate in
        let shape = evaluate_shape ev inputs payouts script (input_sum - n) in
        if_holds P (ltb input_sum n) (λ _. p)
          λ _.
            if_holds P (length payouts == length candidate)
              {x = accept_mass fl ev script rate inputs input_sum recipients selected candidate n
                shape}
              (λ _. accept_mass_holds P selected candidate n shape p q) (λ _. p)

    abbrev Chosen : List PayoutRecipient → List ℕ → Type 0
    Chosen pre selected = Sub (pick recipients selected) pre

    consider-Chosen :
        (pre : List PayoutRecipient) (r : PayoutRecipient) (rest : List PayoutRecipient)
        (selected : List ℕ)
        → pre ++ r ∷ rest ≡ recipients
        → Chosen pre selected
        → OnOk
            (Chosen (pre ++ r ∷ []))
            (consider fl ev script rate inputs input_sum recipients selected (length pre) r)
    unfolding consider
    consider-Chosen pre r rest selected e c =
        OnOk-bind (λ n. Unit {0}) (Chosen (pre ++ r ∷ []))
          (sum_checked u64_max amount 0 (pick recipients selected)) _
          (OnOk-of (λ n. Unit {0}) _ (λ _ _. tt))
          λ n _. accept_holds (Chosen (pre ++ r ∷ [])) selected (length pre) _ (Sub-skip_snoc r c) (
            subst (λ (ps : List PayoutRecipient). Sub ps (pre ++ r ∷ [])) (sym (grown e))
              (Sub-snoc r c))
      where
        grown :
            pre ++ r ∷ rest ≡ recipients
            → pick recipients (selected ++ length pre ∷ []) ≡ pick recipients selected ++ r ∷ []
        grown e =
            subst
              (λ (rs : List PayoutRecipient).
                pick rs (selected ++ length pre ∷ []) ≡ pick rs selected ++ r ∷ [])
              e (pick-last pre r rest selected)

    greedy_loop-Chosen :
        (pre rest : List PayoutRecipient) (idx : ℕ) (selected : List ℕ)
        → pre ++ rest ≡ recipients
        → idx ≡ length pre
        → Chosen pre selected
        → OnOk
            (Chosen recipients)
            (greedy_loop fl ev script rate inputs input_sum recipients selected idx rest)
    unfolding greedy_loop
    greedy_loop-Chosen pre [] idx selected e i c =
        subst (λ (rs : List PayoutRecipient). Sub (pick recipients selected) rs) e
          (Sub-skip_all [] c)
    greedy_loop-Chosen pre (r ∷ rest) idx selected e i c =
        split
          (OnOk-bind (Chosen (pre ++ r ∷ [])) (Chosen recipients) _ _
            (subst
              (λ (k : ℕ).
                OnOk (Chosen (pre ++ r ∷ []))
                  (consider fl ev script rate inputs input_sum recipients selected k r))
              (sym i) (consider-Chosen pre r rest selected e c))
            λ s c'.
              greedy_loop-Chosen (pre ++ r ∷ []) rest (idx + 1) s
                (append_assoc pre (r ∷ []) rest ∙ e) (omega (arith, i, length-append pre (r ∷ [])))
                c')
          (leb (max_outputs fl ev script rate inputs input_sum recipients) (length selected))
      where
        split :
            OnOk (Chosen recipients) (
              consider fl ev script rate inputs input_sum recipients selected idx r >>= λ s.
              greedy_loop fl ev script rate inputs input_sum recipients s (idx + 1) rest)
            → (b : Bool)
            → OnOk (Chosen recipients) (elim b [
              | true ↦ ok selected
              | false ↦
                  consider fl ev script rate inputs input_sum recipients selected idx r >>= λ s.
                  greedy_loop fl ev script rate inputs input_sum recipients s (idx + 1) rest
            ])
        split later true =
            subst (λ (rs : List PayoutRecipient). Sub (pick recipients selected) rs) e
              (Sub-skip_all (r ∷ rest) c)
        split later false = later

    abbrev pub Picked : Option (List ℕ) → Type 0
    Picked none = Unit
    Picked (some selected) = Sub (pick recipients selected) recipients

    some_chosen-Picked :
        (selected : List ℕ)
        → Chosen recipients selected
        → Picked (some_chosen fl ev script rate inputs input_sum recipients selected)
    unfolding some_chosen
    some_chosen-Picked [] c = tt
    some_chosen-Picked (i ∷ is) c = c

    pub greedy_recipients_for_inputs-Picked :
        OnOk Picked (greedy_recipients_for_inputs fl ev script rate inputs input_sum recipients)
    unfolding greedy_recipients_for_inputs pick
    greedy_recipients_for_inputs-Picked =
        OnOk-bind (Chosen recipients) Picked
          (greedy_loop fl ev script rate inputs input_sum recipients [] 0 recipients)
          (λ s. ok (some_chosen fl ev script rate inputs input_sum recipients s))
          (greedy_loop-Chosen [] recipients 0 [] refl refl done) some_chosen-Picked
