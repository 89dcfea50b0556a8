-- ===== src/Zkas/Plan/Eligible.antt =====
-- What the eligible balances depend on.
use zkas_pool.Base.{
  ℕ, ◌≡◌, refl, Bool, true, false, List, [], ◌∷◌, Option, none, some, arith, ◌==◌, ◌&&◌,
  if◌then◌else◌,
}
use zkas_pool.Base.Int.{ℤ, pos, ◌+ℤ◌, neg_ℤ, leb_ℤ}
use zkas_pool.Zkas.Db.{Store, Payout, PayoutCycle, update, submit, accept, is_confirmed}
use zkas_pool.Zkas.Plan.{
  EligibleWallet, confirmed_paid, counts, allocated_sompi, eligible_of, list_zkas_eligible_wallets,
}

-- An update that leaves what the query of confirmed payments reads.
record Unpaid (f : Payout → Payout) : Type 0 where
  wallet : (p : Payout) → (f p).wallet_id ≡ p.wallet_id
  cycle : (p : Payout) → (f p).cycle_id ≡ p.cycle_id
  amount : (p : Payout) → (f p).amount_sompi ≡ p.amount_sompi
  confirmed : (p : Payout) → is_confirmed (f p).status ≡ is_confirmed p.status

submit-Unpaid : (txid : ℕ) → Unpaid (submit txid)
unfolding submit
submit-Unpaid txid = record {
  wallet = λ p. ground arith;
  cycle = λ p. ground arith;
  amount = λ p. ground arith;
  confirmed = λ p. ground arith;
}

accept-Unpaid : (daa : ℕ) → Unpaid (accept daa)
unfolding accept
accept-Unpaid daa = record {
  wallet = λ p. ground arith;
  cycle = λ p. ground arith;
  amount = λ p. ground arith;
  confirmed = λ p. ground arith;
}

confirmed_paid-update :
    (k wallet : ℕ) (f : Payout → Payout) (cs : List PayoutCycle) (ps : List Payout)
    → Unpaid f
    → confirmed_paid wallet cs (update k f ps) ≡ confirmed_paid wallet cs ps
unfolding confirmed_paid update
confirmed_paid-update k wallet f cs [] u = refl
confirmed_paid-update k wallet f cs (p ∷ ps) u =
    go (p.id == k) (confirmed_paid-update k wallet f cs ps u)
  where
    add : Payout → ℤ → ℤ
    add q rest =
        if q.wallet_id == wallet && is_confirmed q.status && counts q.cycle_id cs
        then q.amount_sompi +ℤ rest
        else rest

    go :
        (b : Bool)
        → confirmed_paid wallet cs (update k f ps) ≡ confirmed_paid wallet cs ps
        → add (if b then f p else p) (confirmed_paid wallet cs (update k f ps))
          ≡ add p (confirmed_paid wallet cs ps)
    go true ih = rw (u.wallet p, u.cycle p, u.amount p, u.confirmed p, ih) refl
    go false ih = rw ih refl

eligible_of-update :
    (threshold : ℤ) (k : ℕ) (f : Payout → Payout) (s : Store) (ws : List (ℕ × List ℕ))
    → Unpaid f
    → eligible_of threshold (record s { payouts = update k f s.payouts }) ws
      ≡ eligible_of threshold s ws
unfolding eligible_of
eligible_of-update threshold k f s [] u = refl
eligible_of-update threshold k f s ((j, a) ∷ ws) u =
    go (allocated_sompi j s.credits) (confirmed_paid-update k j f s.cycles s.payouts u)
      (eligible_of-update threshold k f s ws u)
  where
    row : Option ℕ → ℤ → List EligibleWallet → List EligibleWallet
    row o paid rest = elim o [
      | none ↦ rest
      | some n ↦
          let payable = pos n +ℤ neg_ℤ paid in
          if leb_ℤ threshold payable
          then record { wallet_id = j; payable_sompi = payable } ∷ rest
          else rest
    ]

    go :
        (o : Option ℕ) {paid paid' : ℤ} {rest rest' : List EligibleWallet}
        → paid ≡ paid'
        → rest ≡ rest'
        → row o paid rest ≡ row o paid' rest'
    go o e e' = rw (e, e') refl

pub balance_in_flight :
    (threshold : ℤ) (k txid daa : ℕ) (s : Store)
    → (list_zkas_eligible_wallets threshold
          (record s { payouts = update k (submit txid) s.payouts })
        ≡ list_zkas_eligible_wallets threshold s)
      × (list_zkas_eligible_wallets threshold
            (record s { payouts = update k (accept daa) s.payouts })
          ≡ list_zkas_eligible_wallets threshold s)
unfolding list_zkas_eligible_wallets
balance_in_flight threshold k txid daa s = (
  rw (eligible_of-update threshold k (submit txid) s s.wallets (submit-Unpaid txid)) refl,
  rw (eligible_of-update threshold k (accept daa) s s.wallets (accept-Unpaid daa)) refl,
)
