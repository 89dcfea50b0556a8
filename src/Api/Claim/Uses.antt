-- ===== src/Api/Claim/Uses.antt =====
-- A challenge is used once, and only while it lives.
use zkas_pool.Base.{
  ℕ, ◌+◌, ◌≤◌, ◌<◌, ◌≡◌, ◌↔◌, true, refl, ap, ◌∙◌, ◌⊎◌, inl, inr, Bool, false, List, [], ◌∷◌, none,
  some, ltb, arith, All, Bool-cases,
}
use zkas_pool.Base.Results.{Result, ok, err}
use zkas_pool.Base.Table.{
  Key, lookup, remove, insert, lookup-remove, lookup-remove_other, lookup-insert,
  lookup-insert_other,
}
use zkas_pool.Api.Claim.Entries.{
  sweep_none, Sole-sweep_expired, Sole-remove_self, Sole-remove, Sole-lookup, sweep_some, Sole,
}
use zkas_pool.Api.Claim.{
  ClaimError, no_challenge, bad_signature, Pending, Challenges, issue_at, checked, redeem_at, Op,
  issue, redeem, sweep, step, run,
}

module _ (key : Key (List ℕ)) (address : List ℕ) where
  open key use {same, same_sound}

  -- `address` is not the one that a challenge is issued to.
  abbrev pub NotIssue : Op → Type 0
  NotIssue (issue a nonce now) = same a address ≡ false
  NotIssue (redeem a fvk sig now) = Unit
  NotIssue (sweep now) = Unit

  -- No challenge is issued to `address` or redeemed for it, and none is swept past `now`.
  abbrev pub Apart : ℕ → Op → Type 0
  Apart now (issue a nonce t) = same a address ≡ false
  Apart now (redeem a fvk sig t) = same a address ≡ false
  Apart now (sweep t) = t ≤ now

  -- The challenge `p` is the address's one, or it is past its end at `now`.
  record Holds (p : Pending) (now : ℕ) (m : Challenges) : Type 0 where
    sole : Sole key address p m
    here : (lookup key address m ≡ some p) ⊎ (p.expires_at ≤ now)

  module _ (verify : List ℕ → List ℕ → List ℕ → List ℕ → Bool) (ttl : ℕ) where
    step-none :
        (op : Op) (m : Challenges)
        → NotIssue op
        → lookup key address m ≡ none
        → lookup key address (step key verify ttl op m) ≡ none
    unfolding step issue_at redeem_at
    step-none (issue a nonce now) m n h =
        lookup-insert_other key a address (record { challenge = nonce; expires_at = now + ttl }) m n
        ∙ h
    step-none (redeem a fvk sig now) m n h = elim (Bool-cases (same a address)) [
      | inl e ↦ rw (same_sound a address e) (lookup-remove key address m)
      | inr e ↦ lookup-remove_other key a address m e ∙ h
    ]
    step-none (sweep now) m n h = sweep_none key address now m h

    run-none :
        (ops : List Op) (m : Challenges)
        → All NotIssue ops
        → lookup key address m ≡ none
        → lookup key address (run key verify ttl ops m) ≡ none
    unfolding run
    run-none [] m n h = h
    run-none (op ∷ ops) m n h = run-none ops (step key verify ttl op m) n.1 (step-none op m n.0 h)

    -- After a redemption for an address, whatever came of it, every later redemption for the
    -- address fails for want of a challenge, until one is issued to it again.
    pub redeemed_once :
        (fvk sig fvk' sig' : List ℕ) (now later : ℕ) (m : Challenges) (ops : List Op)
        → All NotIssue ops
        → (redeem_at key verify address fvk' sig' later
            (run key verify ttl ops (redeem_at key verify address fvk sig now m).1)).0
          ≡ err no_challenge
    unfolding redeem_at
    redeemed_once fvk sig fvk' sig' now later m ops n =
        rw (run-none ops (remove key address m) n (lookup-remove key address m)) refl

    step-Holds :
        (p : Pending) (now : ℕ) (op : Op) (m : Challenges)
        → Apart now op
        → Holds p now m
        → Holds p now (step key verify ttl op m)
    unfolding step issue_at redeem_at insert
    step-Holds p now (issue a nonce t) m n h = record {
      sole = (λ k. cc, Sole-remove key address p a m h.sole);
      here = elim h.here [
        | inl e ↦ inl (
            lookup-insert_other key a address (record { challenge = nonce; expires_at = t + ttl }) m
              n
            ∙ e)
        | inr e ↦ inr e
      ];
    }
    step-Holds p now (redeem a fvk sig t) m n h = record {
      sole = Sole-remove key address p a m h.sole;
      here = elim h.here [
        | inl e ↦ inl (lookup-remove_other key a address m n ∙ e)
        | inr e ↦ inr e
      ];
    }
    step-Holds p now (sweep t) m n h = record {
      sole = Sole-sweep_expired key address p t m h.sole;
      here = elim h.here [
        | inl e ↦ elim (Bool-cases (ltb t p.expires_at)) [
          | inl live ↦ inl (sweep_some key address p t m e live)
          | inr past ↦ inr (ground arith)
        ]
        | inr e ↦ inr e
      ];
    }

    run-Holds :
        (p : Pending) (now : ℕ) (ops : List Op) (m : Challenges)
        → All (Apart now) ops
        → Holds p now m
        → Holds p now (run key verify ttl ops m)
    unfolding run
    run-Holds p now [] m n h = h
    run-Holds p now (op ∷ ops) m n h =
        run-Holds p now ops (step key verify ttl op m) n.1 (step-Holds p now op m n.0 h)

    Holds-checked :
        (accepts : List ℕ → Bool) (p : Pending) (now : ℕ) (m : Challenges)
        → Holds p now m
        → checked key accepts now (lookup key address m) ≡ checked key accepts now (some p)
    Holds-checked accepts p now m h = elim (Sole-lookup key address p m h.sole) [
      | inr e ↦ ap (checked key accepts now) e
      | inl e ↦ elim h.here [
        | inl e' ↦ ap (checked key accepts now) e'
        | inr past ↦ rw e (ground arith)
      ]
    ]

    redeem-checked :
        (nonce fvk sig : List ℕ) (issued now : ℕ) (m : Challenges) (ops : List Op)
        → All (Apart now) ops
        → (redeem_at key verify address fvk sig now
            (run key verify ttl ops (issue_at key ttl address nonce issued m))).0
          ≡ checked key
              (λ c. verify address c fvk sig)
              now
              (some (record { challenge = nonce; expires_at = issued + ttl }))
    unfolding redeem_at issue_at insert
    redeem-checked nonce fvk sig issued now m ops n =
        let p : Pending = record { challenge = nonce; expires_at = issued + ttl } in
        Holds-checked (λ c. verify address c fvk sig) p now _
          (run-Holds p now ops (insert key address p m) n (record {
            sole = (λ k. refl, Sole-remove_self key address p m);
            here = inl (lookup-insert key address p m);
          }))

    ok_iff :
        (c : List ℕ) (now e : ℕ) (good : Bool) (r : Result ClaimError (List ℕ))
        → r ≡ checked key (λ _. good) now (some (record { challenge = c; expires_at = e }))
        → (r ≡ ok c ↔ (now < e) × (good ≡ true))
          × (r ≡ err bad_signature ↔ (now < e) × (good ≡ false))
          × (r ≡ err no_challenge ↔ e ≤ now)
    ok_iff c now e good r h = (
      (λ k. ground arith, λ k. ground arith),
      (λ k. ground arith, λ k. ground arith),
      (λ k. ground arith, λ k. ground arith),
    )

    -- What a redemption gives that follows an issue to the same address: the issued challenge just
    -- where it is before the end of the lifetime and the verifier takes the signature of the
    -- challenge, `bad_signature` just where it is before the end and the verifier does not, and
    -- `no_challenge` just from the end on. Between the two, other addresses may do what they like,
    -- and sweeps may run at times up to that of the redemption.
    pub issue_then_redeem :
        (nonce fvk sig : List ℕ) (issued now : ℕ) (m : Challenges) (ops : List Op)
        → All (Apart now) ops
        → let r =
            (redeem_at key verify address fvk sig now
              (run key verify ttl ops (issue_at key ttl address nonce issued m))).0 in
          (r ≡ ok nonce ↔ (now < issued + ttl) × (verify address nonce fvk sig ≡ true))
          × (r ≡ err bad_signature ↔ (now < issued + ttl) × (verify address nonce fvk sig ≡ false))
          × (r ≡ err no_challenge ↔ issued + ttl ≤ now)
    issue_then_redeem nonce fvk sig issued now m ops n =
        ok_iff nonce now (issued + ttl) (verify address nonce fvk sig) _
          (redeem-checked nonce fvk sig issued now m ops n)
