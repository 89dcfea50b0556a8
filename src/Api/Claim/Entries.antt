-- ===== src/Api/Claim/Entries.antt =====
-- The entries of an address under the operations of the store.
use zkas_pool.Base.{
  ℕ, ◌≡◌, refl, ap, ◌∙◌, ◌⊎◌, inl, inr, Bool, true, false, List, [], ◌∷◌, none, some, ltb,
  if◌then◌else◌, All, Bool-cases,
}
use zkas_pool.Base.Table.{Key, lookup, remove}
use zkas_pool.Api.Claim.{Pending, Challenges, sweep_expired}

module _ (key : Key (List ℕ)) (address : List ℕ) where
  open key use {same, same_sound}

  pub sweep_none :
      (now : ℕ) (m : Challenges)
      → lookup key address m ≡ none
      → lookup key address (sweep_expired now m) ≡ none
  unfolding lookup sweep_expired
  sweep_none now [] h = refl
  sweep_none now ((a, p) ∷ m) h = elim (Bool-cases (same a address)) [
    | inl e ↦ cc (rw (e, lookup) at h)
    | inr e ↦ go e (ltb now p.expires_at) (sweep_none now m (rw (e, lookup) at h))
  ]
    where
      go :
          same a address ≡ false
          → (b : Bool) → lookup key address (sweep_expired now m) ≡ none
          → lookup key address (if b then (a, p) ∷ sweep_expired now m else sweep_expired now m)
            ≡ none
      go e true ih = rw (e, lookup) ih
      go e false ih = ih

  -- Every entry of the address is `p`.
  abbrev pub Sole : Pending → Challenges → Type 0
  Sole p m = All (λ e. same e.0 address ≡ true → e.1 ≡ p) m

  pub Sole-sweep_expired :
      (p : Pending) (now : ℕ) (m : Challenges) → Sole p m → Sole p (sweep_expired now m)
  unfolding sweep_expired
  Sole-sweep_expired p now [] h = tt
  Sole-sweep_expired p now ((a, q) ∷ m) h =
      go (ltb now q.expires_at) (Sole-sweep_expired p now m h.1)
    where
      go :
          (b : Bool)
          → Sole p (sweep_expired now m)
          → Sole p (if b then (a, q) ∷ sweep_expired now m else sweep_expired now m)
      go true r = (h.0, r)
      go false r = r

  pub Sole-remove : (p : Pending) (j : List ℕ) (m : Challenges) → Sole p m → Sole p (remove key j m)
  unfolding remove
  Sole-remove p j [] h = tt
  Sole-remove p j ((a, q) ∷ m) h = go (same a j) (Sole-remove p j m h.1)
    where
      go :
          (b : Bool)
          → Sole p (remove key j m)
          → Sole p (if b then remove key j m else (a, q) ∷ remove key j m)
      go true r = r
      go false r = (h.0, r)

  -- After the removal of the address nothing of it is left.
  pub Sole-remove_self : (p : Pending) (m : Challenges) → Sole p (remove key address m)
  unfolding remove
  Sole-remove_self p [] = tt
  Sole-remove_self p ((a, q) ∷ m) = go (same a address) refl (Sole-remove_self p m)
    where
      go :
          (b : Bool)
          → same a address ≡ b
          → Sole p (remove key address m)
          → Sole p (if b then remove key address m else (a, q) ∷ remove key address m)
      go true e r = r
      go false e r = (λ k. cc, r)

  pub Sole-lookup :
      (p : Pending) (m : Challenges)
      → Sole p m
      → (lookup key address m ≡ none) ⊎ (lookup key address m ≡ some p)
  unfolding lookup
  Sole-lookup p [] h = inl refl
  Sole-lookup p ((a, q) ∷ m) h = elim (Bool-cases (same a address)) [
    | inl e ↦ inr (rw (e, lookup) (ap some (h.0 e)))
    | inr e ↦ rw (e, lookup) (Sole-lookup p m h.1)
  ]

  pub sweep_some :
      (p : Pending) (now : ℕ) (m : Challenges)
      → lookup key address m ≡ some p
      → ltb now p.expires_at ≡ true
      → lookup key address (sweep_expired now m) ≡ some p
  unfolding lookup sweep_expired
  sweep_some p now [] h k = cc
  sweep_some p now ((a, q) ∷ m) h k = elim (Bool-cases (same a address)) [
    | inl e ↦ found e (some_inj (rw (e, lookup) at h))
    | inr e ↦ go e (ltb now q.expires_at) (sweep_some p now m (rw (e, lookup) at h) k)
  ]
    where
      some_inj : some q ≡ some p → q ≡ p
      some_inj e = cc

      found :
          same a address ≡ true
          → q ≡ p
          → lookup key address
              (if ltb now q.expires_at then (a, q) ∷ sweep_expired now m else sweep_expired now m)
            ≡ some p
      found e same_entry =
          rw (ap (λ x. ltb now x.expires_at) same_entry ∙ k, if◌then◌else◌)
            (rw (e, lookup) (ap some same_entry))

      go :
          same a address ≡ false
          → (b : Bool) → lookup key address (sweep_expired now m) ≡ some p
          → lookup key address (if b then (a, q) ∷ sweep_expired now m else sweep_expired now m)
            ≡ some p
      go e true ih = rw (e, lookup) ih
      go e false ih = ih
