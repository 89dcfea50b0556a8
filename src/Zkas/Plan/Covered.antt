-- ===== src/Zkas/Plan/Covered.antt =====
-- The rows that a plan leaves: one for each eligible wallet, and a second pass over the same wallets
-- adds none.
use zkas_pool.Base.{
  ℕ, ◌≡◌, refl, sym, ap, ◌∙◌, subst, true, false, List, [], ◌∷◌, ◌++◌, none, arith, All, Bool-cases,
  inl, inr,
}
use zkas_pool.Base.Int.{ℤ, pos, leb_ℤ, min_ℤ}
use zkas_pool.Base.Results.{ok, ok_inj, bind_ok}
use zkas_pool.Zkas.Db.{Store, Payout, PayoutStatus}
use zkas_pool.Zkas.Plan.{EligibleWallet, has_payout, insert_row, ensure_payout, ensure_all}

has_payout-append :
    (cycle wallet : ℕ) (ps qs : List Payout)
    → has_payout cycle wallet ps ≡ true
    → has_payout cycle wallet (ps ++ qs) ≡ true
unfolding has_payout
has_payout-append cycle wallet [] qs h = cc
has_payout-append cycle wallet (p ∷ ps) qs h = ground (arith, has_payout-append cycle wallet ps qs)

has_payout-snoc :
    (ps : List Payout) (p : Payout) → has_payout p.cycle_id p.wallet_id (ps ++ p ∷ []) ≡ true
unfolding has_payout
has_payout-snoc [] p = ground arith
has_payout-snoc (q ∷ ps) p = ground (arith, has_payout-snoc ps p)

module _ (cycle : ℕ) where
  -- What `ensure_payout` leaves: a row for the wallet, and every row that was there.
  record Ensured (wallet : ℕ) (s s' : Store) : Type 0 where
    covered : has_payout cycle wallet s'.payouts ≡ true
    grown : (k : ℕ) → has_payout cycle k s.payouts ≡ true → has_payout cycle k s'.payouts ≡ true
    same : has_payout cycle wallet s.payouts ≡ true → s'.payouts ≡ s.payouts

  insert_row-Ensured :
      (wallet : ℕ) (amount : ℤ) (s : Store)
      → has_payout cycle wallet s.payouts ≡ false
      → Ensured wallet s (insert_row cycle wallet amount s)
  insert_row-Ensured wallet amount s h = record {
    covered = has_payout-snoc s.payouts (record {
      id = s.next_payout;
      cycle_id = cycle;
      wallet_id = wallet;
      amount_sompi = amount;
      status = PayoutStatus.planned;
      tx_hash = none;
      accepted_daa_score = none;
    });
    grown = λ k e. has_payout-append cycle k s.payouts _ e;
    same = λ e. cc;
  }

  ensure_payout-Ensured :
      (wallet : ℕ) (amount : ℤ) (s : Store) {s' : Store}
      → ensure_payout cycle wallet amount s ≡ ok s'
      → Ensured wallet s s'
  unfolding ensure_payout
  ensure_payout-Ensured wallet amount s {s'} h = elim (Bool-cases (leb_ℤ amount (pos 0))) [
    | inl low ↦ cc (rw (low, ensure_payout) at h)
    | inr high ↦ elim (Bool-cases (has_payout cycle wallet s.payouts)) [
      | inl old ↦
          subst (Ensured wallet s) (ok_inj (rw (high, old, ensure_payout) at h))
            (record { covered = old; grown = λ k e. e; same = λ e. refl })
      | inr new ↦
          subst (Ensured wallet s) (ok_inj (rw (high, new, ensure_payout) at h))
            (insert_row-Ensured wallet amount s new)
    ]
  ]

  abbrev pub Covered : Store → List EligibleWallet → Type 0
  Covered s ws = All (λ w. has_payout cycle w.wallet_id s.payouts ≡ true) ws

  ensure_all-grown :
      (cap : ℤ) (ws : List EligibleWallet) (total : ℤ) (s : Store) {r : ℤ × Store} (k : ℕ)
      → ensure_all cycle cap ws total s ≡ ok r
      → has_payout cycle k s.payouts ≡ true
      → has_payout cycle k r.1.payouts ≡ true
  unfolding ensure_all
  ensure_all-grown cap' [] total s {r} k h e =
      subst (λ r. has_payout cycle k r.1.payouts ≡ true) (ok_inj h) e
  ensure_all-grown cap' (w ∷ ws) total s {r} k h e =
      let (s', one, rest) =
        bind_ok (ensure_payout cycle w.wallet_id (min_ℤ w.payable_sompi cap') s) _ h in
      ensure_all-grown cap' ws _ s' {r = r} k rest
        ((ensure_payout-Ensured w.wallet_id (min_ℤ w.payable_sompi cap') s one).grown k e)

  -- After the loop every wallet has its row.
  pub ensure_all-Covered :
      (cap : ℤ) (ws : List EligibleWallet) (total : ℤ) (s : Store) {r : ℤ × Store}
      → ensure_all cycle cap ws total s ≡ ok r
      → Covered r.1 ws
  unfolding ensure_all
  ensure_all-Covered cap' [] total s {r} h = tt
  ensure_all-Covered cap' (w ∷ ws) total s {r} h =
      let (s', one, rest) =
        bind_ok (ensure_payout cycle w.wallet_id (min_ℤ w.payable_sompi cap') s) _ h in
      let here = ensure_payout-Ensured w.wallet_id (min_ℤ w.payable_sompi cap') s one in
      (
        ensure_all-grown cap' ws _ s' {r = r} w.wallet_id rest here.covered,
        ensure_all-Covered cap' ws _ s' {r = r} rest,
      )

  -- A loop over wallets that all have their row changes no row.
  pub ensure_all-same :
      (cap : ℤ) (ws : List EligibleWallet) (total : ℤ) (s : Store) {r : ℤ × Store}
      → Covered s ws
      → ensure_all cycle cap ws total s ≡ ok r
      → r.1.payouts ≡ s.payouts
  unfolding ensure_all
  ensure_all-same cap' [] total s {r} c h = ap (λ r. r.1.payouts) (sym (ok_inj h))
  ensure_all-same cap' (w ∷ ws) total s {r} c h =
      let (s', one, rest) =
        bind_ok (ensure_payout cycle w.wallet_id (min_ℤ w.payable_sompi cap') s) _ h in
      let same : s'.payouts ≡ s.payouts =
        (ensure_payout-Ensured w.wallet_id (min_ℤ w.payable_sompi cap') s one).same c.0 in
      ensure_all-same cap' ws _ s' {r = r}
        (subst (λ ps. All (λ w. has_payout cycle w.wallet_id ps ≡ true) ws) (sym same) c.1) rest
      ∙ same
