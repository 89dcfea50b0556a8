-- ===== src/Zkas/Plan/Balances.antt =====
-- What the eligible balances read, and what the loop of a plan leaves of it.
use zkas_pool.Base.{
  ℕ, ◌≡◌, refl, ap, ◌∙◌, subst, Bool, true, false, List, [], ◌∷◌, ◌++◌, Option, none, some, ◌==◌,
  ◌&&◌, ◌||◌, if◌then◌else◌, arith, Bool-cases, inl, inr,
}
use zkas_pool.Base.Int.{ℤ, pos, leb_ℤ, min_ℤ, ◌+ℤ◌, neg_ℤ}
use zkas_pool.Base.Results.{ok, ok_inj, bind_ok}
use zkas_pool.Zkas.Db.{Store, Payout, PayoutStatus, PayoutCycle}
use zkas_pool.Zkas.Plan.{
  EligibleWallet, has_payout, ensure_payout, ensure_all, confirmed_paid, counts, counts_cycle,
  set_cycle_totals, allocated_sompi, eligible_of, list_zkas_eligible_wallets,
}

-- The same eligible balances, for all that the query reads.
pub record SameBalances (s t : Store) : Type 0 where
  pub wallets : t.wallets ≡ s.wallets
  pub credits : t.credits ≡ s.credits
  pub paid : (k : ℕ) → confirmed_paid k t.cycles t.payouts ≡ confirmed_paid k s.cycles s.payouts

eligible_of-same :
    (threshold : ℤ) (s t : Store) (ws : List (ℕ × List ℕ))
    → SameBalances s t
    → eligible_of threshold t ws ≡ eligible_of threshold s ws
unfolding eligible_of
eligible_of-same threshold s t [] h = refl
eligible_of-same threshold s t ((j, a) ∷ ws) h =
    go (ap (allocated_sompi j) h.credits) (h.paid j) (eligible_of-same threshold s t ws h)
  where
    row : Option ℕ → ℤ → List EligibleWallet → List EligibleWallet
    row o paid rest = elim o [
      | none ↦ rest
      | some n ↦
          let payable = pos n +ℤ neg_ℤ paid in
          if leb_ℤ threshold payable
          then record { wallet_id = j; payable_sompi = payable } ∷ rest
          else rest
    ]

    go :
        {o o' : Option ℕ} {paid paid' : ℤ} {rest rest' : List EligibleWallet}
        → o ≡ o'
        → paid ≡ paid'
        → rest ≡ rest'
        → row o paid rest ≡ row o' paid' rest'
    go e e' e'' = rw (e, e', e'') refl

pub list_eligible-same :
    (threshold : ℤ) (s t : Store)
    → SameBalances s t
    → list_zkas_eligible_wallets threshold t ≡ list_zkas_eligible_wallets threshold s
unfolding list_zkas_eligible_wallets
list_eligible-same threshold s t h = rw (h.wallets, eligible_of-same threshold s t s.wallets h) refl

counts-set_cycle_totals :
    (cycle k : ℕ) (total : ℤ) (n : ℕ) (cs : List PayoutCycle)
    → counts cycle (set_cycle_totals k total n cs) ≡ counts cycle cs
unfolding counts set_cycle_totals
counts-set_cycle_totals cycle k total n [] = refl
counts-set_cycle_totals cycle k total n (c ∷ cs) =
    go (c.id == k) (counts-set_cycle_totals cycle k total n cs)
  where
    here : PayoutCycle → Bool → Bool
    here c rest = c.id == cycle && counts_cycle c || rest

    set : Bool → PayoutCycle
    set b = if b then record c { total_sompi = total; total_recipients = n } else c

    go : (b : Bool) {x y : Bool} → x ≡ y → here (set b) x ≡ here c y
    go true e = rw e refl
    go false e = rw e refl

pub confirmed_paid-totals :
    (wallet k : ℕ) (total : ℤ) (n : ℕ) (cs : List PayoutCycle) (ps : List Payout)
    → confirmed_paid wallet (set_cycle_totals k total n cs) ps ≡ confirmed_paid wallet cs ps
unfolding confirmed_paid
confirmed_paid-totals wallet k total n cs [] = refl
confirmed_paid-totals wallet k total n cs (p ∷ ps) =
    rw
      (
        counts-set_cycle_totals p.cycle_id k total n cs,
        confirmed_paid-totals wallet k total n cs ps,
      )
      refl

-- A new row is not confirmed.
confirmed_paid-insert_row :
    (k cycle wallet : ℕ) (amount : ℤ) (id : ℕ) (cs : List PayoutCycle) (ps : List Payout)
    → confirmed_paid k cs (
        ps
        ++ record {
          id = id;
          cycle_id = cycle;
          wallet_id = wallet;
          amount_sompi = amount;
          status = PayoutStatus.planned;
          tx_hash = none;
          accepted_daa_score = none;
        }
          ∷ [])
      ≡ confirmed_paid k cs ps
unfolding confirmed_paid
confirmed_paid-insert_row k cycle wallet amount id cs [] = ground arith
confirmed_paid-insert_row k cycle wallet amount id cs (p ∷ ps) =
    rw (confirmed_paid-insert_row k cycle wallet amount id cs ps) refl

-- What the loop leaves as it was.
pub record Plain (s t : Store) : Type 0 where
  pub wallets : t.wallets ≡ s.wallets
  pub credits : t.credits ≡ s.credits
  pub cycles : t.cycles ≡ s.cycles
  pub paid :
      (k : ℕ) (cs : List PayoutCycle)
      → confirmed_paid k cs t.payouts ≡ confirmed_paid k cs s.payouts

Plain-trans : {s t u : Store} → Plain s t → Plain t u → Plain s u
Plain-trans a b = record {
  wallets = b.wallets ∙ a.wallets;
  credits = b.credits ∙ a.credits;
  cycles = b.cycles ∙ a.cycles;
  paid = λ k cs. b.paid k cs ∙ a.paid k cs;
}

ensure_payout-Plain :
    (cycle wallet : ℕ) (amount : ℤ) (s : Store) {s' : Store}
    → ensure_payout cycle wallet amount s ≡ ok s'
    → Plain s s'
unfolding ensure_payout
ensure_payout-Plain cycle wallet amount s {s'} h = elim (Bool-cases (leb_ℤ amount (pos 0))) [
  | inl low ↦ cc (rw (low, ensure_payout) at h)
  | inr high ↦ elim (Bool-cases (has_payout cycle wallet s.payouts)) [
    | inl old ↦
        subst (Plain s) (ok_inj (rw (high, old, ensure_payout) at h))
          (record { wallets = refl; credits = refl; cycles = refl; paid = λ k cs. refl })
    | inr new ↦ subst (Plain s) (ok_inj (rw (high, new, ensure_payout) at h)) (record {
      wallets = refl;
      credits = refl;
      cycles = refl;
      paid = λ k cs. confirmed_paid-insert_row k cycle wallet amount s.next_payout cs s.payouts;
    })
  ]
]

pub ensure_all-Plain :
    (cycle : ℕ) (cap : ℤ) (ws : List EligibleWallet) (total : ℤ) (s : Store) {r : ℤ × Store}
    → ensure_all cycle cap ws total s ≡ ok r
    → Plain s r.1
unfolding ensure_all
ensure_all-Plain cycle cap' [] total s {r} h =
    subst (λ r. Plain s r.1) (ok_inj h)
      (record { wallets = refl; credits = refl; cycles = refl; paid = λ k cs. refl })
ensure_all-Plain cycle cap' (w ∷ ws) total s {r} h =
    let (s', one, rest) =
      bind_ok (ensure_payout cycle w.wallet_id (min_ℤ w.payable_sompi cap') s) _ h in
    Plain-trans (ensure_payout-Plain cycle w.wallet_id (min_ℤ w.payable_sompi cap') s one)
      (ensure_all-Plain cycle cap' ws _ s' {r = r} rest)
