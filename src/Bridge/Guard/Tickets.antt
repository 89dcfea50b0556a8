-- ===== src/Bridge/Guard/Tickets.antt =====
-- The counts of the guard are the live tickets.
use zkas_pool.Base.{
  ℕ, ◌+◌, ◌≤◌, ◌≡◌, sym, ap, ◌∙◌, subst, ◌⊎◌, inl, inr, List, Option, none, some, ◌==◌,
  if◌then◌else◌, length, arith, sum_by, Bool-cases, ==→eq,
}
use zkas_pool.Base.Float.{Float}
use zkas_pool.Base.Table.{
  number_key, lookup, remove, insert, lookup-insert, lookup-insert_other, lookup-remove,
  lookup-remove_other, length-remove, length-remove_there,
}
use zkas_pool.Bridge.Guard.{AntiAbuseConfig, IpEntry, Guard}

-- The tickets of an address in a list of live tickets
abbrev pub held : ℕ → List ℕ → ℕ
held ip tickets = sum_by (λ t. if t == ip then 1 else 0) tickets

module _ (fl : Float) where
  abbrev pub count_of : Option (IpEntry fl) → ℕ
  count_of none = 0
  count_of (some e) = e.conn_count

  -- `conn_count`
  unfoldable pub conn_count : ℕ → Guard fl → ℕ
  unfolding lookup
  conn_count ip state = count_of (lookup number_key ip state)

  pub conn_count_at :
      (ip : ℕ) (state : Guard fl) {o : Option (IpEntry fl)}
      → lookup number_key ip state ≡ o
      → conn_count ip state ≡ count_of o
  unfolding conn_count
  conn_count_at ip state h = ap count_of h

  conn_count-insert :
      (ip k : ℕ) (e : IpEntry fl) (m : Guard fl)
      → conn_count ip (insert number_key k e m)
        ≡ (if k == ip then e.conn_count else conn_count ip m)
  unfolding conn_count
  conn_count-insert ip k e m = elim (Bool-cases (k == ip)) [
    | inl h ↦
        rw (h, if◌then◌else◌)
          (subst (λ j. count_of (lookup number_key j (insert number_key k e m)) ≡ e.conn_count)
            (==→eq k ip h) (ap count_of (lookup-insert number_key k e m)))
    | inr h ↦ rw (h, if◌then◌else◌) (ap count_of (lookup-insert_other number_key k ip e m h))
  ]

  conn_count-remove :
      (ip k : ℕ) (m : Guard fl)
      → conn_count ip (remove number_key k m) ≡ (if k == ip then 0 else conn_count ip m)
  unfolding conn_count
  conn_count-remove ip k m = elim (Bool-cases (k == ip)) [
    | inl h ↦
        rw (h, if◌then◌else◌)
          (subst (λ j. count_of (lookup number_key j (remove number_key k m)) ≡ 0) (==→eq k ip h)
            (ap count_of (lookup-remove number_key k m)))
    | inr h ↦ rw (h, if◌then◌else◌) (ap count_of (lookup-remove_other number_key k ip m h))
  ]

  some_inj : {a b : IpEntry fl} → some a ≡ some b → a ≡ b
  some_inj h = cc

  lookup-insert_cases :
      (ip j : ℕ) (e : IpEntry fl) (m : Guard fl) {e' : IpEntry fl}
      → lookup number_key j (insert number_key ip e m) ≡ some e'
      → (e' ≡ e) ⊎ (lookup number_key j m ≡ some e')
  lookup-insert_cases ip j e m {e'} h = elim (Bool-cases (ip == j)) [
    | inl k ↦ inl (
        some_inj (
          sym h
          ∙ subst (λ i. lookup number_key i (insert number_key ip e m) ≡ some e) (==→eq ip j k)
              (lookup-insert number_key ip e m)))
    | inr k ↦ inr (sym (lookup-insert_other number_key ip j e m k) ∙ h)
  ]

  lookup-remove_cases :
      (ip j : ℕ) (m : Guard fl) {e' : IpEntry fl}
      → lookup number_key j (remove number_key ip m) ≡ some e'
      → lookup number_key j m ≡ some e'
  lookup-remove_cases ip j m {e'} h = elim (Bool-cases (ip == j)) [
    | inl k ↦
        let gone : lookup number_key j (remove number_key ip m) ≡ none =
          subst (λ i. lookup number_key i (remove number_key ip m) ≡ none) (==→eq ip j k)
            (lookup-remove number_key ip m) in
        cc
    | inr k ↦ sym (lookup-remove_other number_key ip j m k) ∙ h
  ]

  module _ (cfg : AntiAbuseConfig fl) where
    -- What holds of a guard whose live tickets are `tickets`.
    pub record Good (tickets : List ℕ) (state : Guard fl) : Type 0 where
      pub counts : (ip : ℕ) → conn_count ip state ≡ held ip tickets
      pub capped : (ip : ℕ) → held ip tickets ≤ cfg.max_conn_per_ip
      pub live : (ip : ℕ) {e : IpEntry fl} → lookup number_key ip state ≡ some e → 1 ≤ e.conn_count
      pub tracked : length state ≤ cfg.max_tracked_ips

    pub insert-Good :
        (ip : ℕ) (e : IpEntry fl) (tickets tickets' : List ℕ) (state : Guard fl)
        → Good tickets state
        → ((old : IpEntry fl) × (lookup number_key ip state ≡ some old))
          ⊎ (length state + 1 ≤ cfg.max_tracked_ips)
        → 1 ≤ e.conn_count
        → e.conn_count ≤ cfg.max_conn_per_ip
        → ((j : ℕ) → held j tickets' ≡ (if ip == j then e.conn_count else held j tickets))
        → Good tickets' (insert number_key ip e state)
    unfolding insert
    insert-Good ip e tickets tickets' state g room one under moved = record {
      counts = λ j. ground (arith, conn_count-insert j ip e state, g.counts j, moved j);
      capped = λ j. ground (arith, g.capped j, moved j);
      live = λ j {e = e'} h. elim (lookup-insert_cases ip j e state h) [
        | inl same ↦ rw same one
        | inr old ↦ g.live j old
      ];
      tracked = elim room [
        | inl (old, found) ↦ omega (arith, length-remove_there number_key ip state found, g.tracked)
        | inr space ↦ omega (arith, length-remove number_key ip state)
      ];
    }

    pub remove-Good :
        (ip : ℕ) (tickets tickets' : List ℕ) (state : Guard fl)
        → Good tickets state
        → ((j : ℕ) → held j tickets' ≡ (if ip == j then 0 else held j tickets))
        → Good tickets' (remove number_key ip state)
    remove-Good ip tickets tickets' state g moved = record {
      counts = λ j. ground (arith, conn_count-remove j ip state, g.counts j, moved j);
      capped = λ j. ground (arith, g.capped j, moved j);
      live = λ j {e = e'} h. g.live j (lookup-remove_cases ip j state h);
      tracked = omega (arith, length-remove number_key ip state, g.tracked);
    }
