-- ===== src/Bridge/Guard/Reach.antt =====
-- The guard over any sequence of accepts, frames and disconnects.
use zkas_pool.Base.{
  ℕ, suc, ◌+◌, ◌-◌, ◌≤◌, ◌≡◌, refl, sym, ap, ◌∙◌, subst, ◌⊎◌, inl, inr, Bool, true, false, List, [],
  ◌∷◌, ◌++◌, Option, none, some, leb, ◌==◌, if◌then◌else◌, length, arith, sum_by-append, Bool-cases,
  Option-cases, ==→eq,
}
use zkas_pool.Base.Results.{ok, err}
use zkas_pool.Base.Float.{Float}
use zkas_pool.Base.Table.{number_key, lookup, remove, insert}
use zkas_pool.Bridge.Guard.{
  AntiAbuseRejection, AntiAbuseConfig, IpEntry, Guard, Bucket, new_entry, try_accept_connection,
  release, released, try_consume, try_consume_frame, consumed,
}
use zkas_pool.Bridge.Guard.Tickets.{held, conn_count, conn_count_at, Good, insert-Good, remove-Good}

module _ (fl : Float) (cfg : AntiAbuseConfig fl) (bucket : Bucket fl) where
  -- The guard and the live tickets after some calls: an accepted connection holds a ticket, and the
  -- drop of a ticket releases its address.
  pub data Reach : List ℕ → Guard fl → Type 0 where
    start : Reach [] []
    accepted :
        {tickets : List ℕ}
        → {state state' : Guard fl} → (ip now : ℕ) → Reach tickets state
        → try_accept_connection fl cfg ip now state ≡ (ok tt, state')
        → Reach (ip ∷ tickets) state'
    rejected :
        {tickets : List ℕ}
        → {state state' : Guard fl} → {r : AntiAbuseRejection} → (ip now : ℕ) → Reach tickets state
        → try_accept_connection fl cfg ip now state ≡ (err r, state')
        → Reach tickets state'
    dropped :
        {state : Guard fl}
        → (before after : List ℕ) (ip : ℕ) → Reach (before ++ ip ∷ after) state
        → Reach (before ++ after) (release fl cfg ip state)
    frame :
        {tickets : List ℕ}
        → {state : Guard fl} → (ip now : ℕ) → Reach tickets state
        → Reach tickets (try_consume_frame fl cfg bucket ip now state).1

  accept-Good :
      (tickets : List ℕ) (state : Guard fl) (ip now : ℕ) {state' : Guard fl}
      → Good fl cfg tickets state
      → try_accept_connection fl cfg ip now state ≡ (ok tt, state')
      → Good fl cfg (ip ∷ tickets) state'
  unfolding try_accept_connection
  accept-Good tickets state ip now {state'} g h = go (lookup number_key ip state) refl
    where
      more :
          (n : ℕ)
          → conn_count fl ip state ≡ n
          → (j : ℕ) → held j (ip ∷ tickets) ≡ (if ip == j then suc n else held j tickets)
      more n e j = elim (Bool-cases (ip == j)) [
        | inl k ↦
            let same : held j tickets ≡ n =
              subst (λ i. held i tickets ≡ n) (==→eq ip j k) (sym (g.counts ip) ∙ e) in
            ground arith
        | inr k ↦ ground arith
      ]

      go :
          (o : Option (IpEntry fl))
          → lookup number_key ip state ≡ o
          → Good fl cfg (ip ∷ tickets) state'
      go none e = elim (Bool-cases (leb cfg.max_tracked_ips (length state))) [
        | inl full ↦ cc (rw (e, full, try_accept_connection) at h)
        | inr room ↦ elim (Bool-cases (leb cfg.max_conn_per_ip 0)) [
          | inl capped ↦ cc (rw (e, room, capped, try_accept_connection) at h)
          | inr free ↦
              let at0 : conn_count fl ip state ≡ 0 = conn_count_at fl ip state e in
              subst (Good fl cfg (ip ∷ tickets))
                (ap (λ p. p.1) (rw (e, room, free, try_accept_connection) at h))
                (insert-Good fl cfg ip (record (new_entry fl cfg now) { conn_count = suc 0 })
                  tickets (ip ∷ tickets) state g (inr (ground arith)) (omega arith) (ground arith)
                  (more 0 (at0 ∙ refl)))
        ]
      ]
      go (some old) e = elim (Bool-cases (leb cfg.max_conn_per_ip old.conn_count)) [
        | inl capped ↦ cc (rw (e, capped, try_accept_connection) at h)
        | inr free ↦
            subst (Good fl cfg (ip ∷ tickets))
              (ap (λ p. p.1) (rw (e, free, try_accept_connection) at h))
              (insert-Good fl cfg ip (record old { conn_count = suc old.conn_count }) tickets
                (ip ∷ tickets) state g (inl (old, e)) (omega arith) (ground arith)
                (more old.conn_count (conn_count_at fl ip state e)))
      ]

  -- The same number for the address, and the rest as before
  same_count :
      (tickets : List ℕ) (state : Guard fl) (ip n : ℕ)
      → Good fl cfg tickets state
      → conn_count fl ip state ≡ n
      → (j : ℕ) → held j tickets ≡ (if ip == j then n else held j tickets)
  same_count tickets state ip n g e j = elim (Bool-cases (ip == j)) [
    | inl k ↦
        let same : held j tickets ≡ n =
          subst (λ i. held i tickets ≡ n) (==→eq ip j k) (sym (g.counts ip) ∙ e) in
        ground arith
    | inr k ↦ ground arith
  ]

  reject-Good :
      (tickets : List ℕ) (state : Guard fl) (ip now : ℕ) {state' : Guard fl}
      {r : AntiAbuseRejection}
      → 1 ≤ cfg.max_conn_per_ip
      → Good fl cfg tickets state
      → try_accept_connection fl cfg ip now state ≡ (err r, state')
      → Good fl cfg tickets state'
  unfolding try_accept_connection
  reject-Good tickets state ip now {state'} {r} one g h = go (lookup number_key ip state) refl
    where
      go : (o : Option (IpEntry fl)) → lookup number_key ip state ≡ o → Good fl cfg tickets state'
      go none e = elim (Bool-cases (leb cfg.max_tracked_ips (length state))) [
        | inl full ↦
            subst (Good fl cfg tickets) (ap (λ p. p.1) (rw (e, full, try_accept_connection) at h)) g
        | inr room ↦ elim (Bool-cases (leb cfg.max_conn_per_ip 0)) [
          | inl capped ↦ let no : true ≡ false = ground arith in cc
          | inr free ↦ cc (rw (e, room, free, try_accept_connection) at h)
        ]
      ]
      go (some old) e = elim (Bool-cases (leb cfg.max_conn_per_ip old.conn_count)) [
        | inl capped ↦
            subst (Good fl cfg tickets) (ap (λ p. p.1) (rw (e, capped, try_accept_connection) at h))
              (insert-Good fl cfg ip old tickets tickets state g (inl (old, e)) (g.live ip e)
                (omega (arith, conn_count_at fl ip state e, g.counts ip, g.capped ip))
                (same_count tickets state ip old.conn_count g (conn_count_at fl ip state e)))
        | inr free ↦ cc (rw (e, free, try_accept_connection) at h)
      ]

  held-split :
      (j ip : ℕ) (before after : List ℕ)
      → held j (before ++ ip ∷ after) ≡ held j (before ++ after) + (if ip == j then 1 else 0)
  held-split j ip before after = omega (
    arith,
    sum_by-append (λ t. if t == j then 1 else 0) before (ip ∷ after),
    sum_by-append (λ t. if t == j then 1 else 0) before after,
  )

  release-Good :
      (before after : List ℕ) (ip : ℕ) (state : Guard fl)
      → Good fl cfg (before ++ ip ∷ after) state
      → Good fl cfg (before ++ after) (release fl cfg ip state)
  unfolding release
  release-Good before after ip state g = go (lookup number_key ip state) refl
    where
      tickets : List ℕ
      tickets = before ++ ip ∷ after

      go :
          (o : Option (IpEntry fl))
          → lookup number_key ip state ≡ o
          → Good fl cfg (before ++ after) (released fl cfg ip o state)
      go none e =
          let no : true ≡ false =
            ground
              (arith, conn_count_at fl ip state e, g.counts ip, held-split ip ip before after) in
          cc
      go (some old) e = choose (old.conn_count - 1 == 0) refl
        where
          count : old.conn_count ≡ held ip (before ++ after) + 1
          count =
              ground
                (arith, conn_count_at fl ip state e, g.counts ip, held-split ip ip before after)

          left :
              (j : ℕ)
              → held j (before ++ after) ≡ (if ip == j then old.conn_count - 1 else held j tickets)
          left j = elim (Bool-cases (ip == j)) [
            | inl k ↦
                let same : held j (before ++ after) ≡ old.conn_count - 1 =
                  subst (λ i. held i (before ++ after) ≡ old.conn_count - 1) (==→eq ip j k)
                    (omega (arith, count)) in
                ground arith
            | inr k ↦ ground (arith, held-split j ip before after)
          ]

          choose :
              (b : Bool)
              → (old.conn_count - 1 == 0) ≡ b
              → Good fl cfg (before ++ after) (
                  if b
                  then remove number_key ip state
                  else insert number_key ip (record old { conn_count = old.conn_count - 1 }) state)
          choose true k =
              remove-Good fl cfg ip tickets (before ++ after) state g
                (λ j. left j ∙ ap (λ n. if ip == j then n else held j tickets) (==→eq _ 0 k))
          choose false k =
              insert-Good fl cfg ip (record old { conn_count = old.conn_count - 1 }) tickets
                (before ++ after) state g (inl (old, e)) (ground arith)
                (omega (arith, conn_count_at fl ip state e, g.counts ip, g.capped ip)) left

  try_consume_count :
      (now : ℕ) (e : IpEntry fl) → (try_consume fl cfg bucket now e).1.conn_count ≡ e.conn_count
  unfolding try_consume
  try_consume_count now e = ground arith

  frame-Good :
      (tickets : List ℕ) (state : Guard fl) (ip now : ℕ)
      → Good fl cfg tickets state
      → Good fl cfg tickets (try_consume_frame fl cfg bucket ip now state).1
  unfolding try_consume_frame
  frame-Good tickets state ip now g = go (lookup number_key ip state) refl
    where
      go :
          (o : Option (IpEntry fl))
          → lookup number_key ip state ≡ o
          → Good fl cfg tickets (consumed fl cfg bucket ip now o state).1
      go none e = g
      go (some old) e =
          let kept = try_consume_count now old in
          let mine = conn_count_at fl ip state e in
          insert-Good fl cfg ip (try_consume fl cfg bucket now old).1 tickets tickets state g
            (inl (old, e)) (rw kept (g.live ip e))
            (rw kept (omega (arith, mine, g.counts ip, g.capped ip)))
            (rw kept (same_count tickets state ip old.conn_count g mine))

  Reach-Good :
      {tickets : List ℕ} {state : Guard fl}
      → 1 ≤ cfg.max_conn_per_ip
      → Reach tickets state
      → Good fl cfg tickets state
  unfolding conn_count lookup
  Reach-Good one start = record {
    counts = λ ip. refl;
    capped = λ ip. omega arith;
    live = λ ip {e = e} h. cc;
    tracked = omega arith;
  }
  Reach-Good one (accepted {tickets} {state} {state'} ip now r h) =
      accept-Good tickets state ip now (Reach-Good one r) h
  Reach-Good one (rejected {tickets} {state} {state'} ip now r h) =
      reject-Good tickets state ip now one (Reach-Good one r) h
  Reach-Good one (dropped {state} before after ip r) =
      release-Good before after ip state (Reach-Good one r)
  Reach-Good one (frame {tickets} {state} ip now r) =
      frame-Good tickets state ip now (Reach-Good one r)

  -- After any sequence of accepts, frames and dropped tickets, each address's count is the number of
  -- its live tickets and is at most the cap, no more addresses are in the map than the other cap
  -- allows, and an address is in the map only while it has a live ticket. The first cap is at least
  -- 1, as the configuration's constructor checks.
  pub guard_counts :
      (tickets : List ℕ) (state : Guard fl)
      → 1 ≤ cfg.max_conn_per_ip
      → Reach tickets state
      → ((ip : ℕ)
          → (conn_count fl ip state ≡ held ip tickets)
            × (held ip tickets ≤ cfg.max_conn_per_ip)
            × ((lookup number_key ip state ≡ none) ⊎ (1 ≤ held ip tickets)))
        × (length state ≤ cfg.max_tracked_ips)
  guard_counts tickets state one r =
      (λ ip. (good.counts ip, good.capped ip, tracked ip), good.tracked)
    where
      good : Good fl cfg tickets state
      good = Reach-Good one r

      tracked : (ip : ℕ) → (lookup number_key ip state ≡ none) ⊎ (1 ≤ held ip tickets)
      tracked ip = elim (Option-cases (lookup number_key ip state)) [
        | inl e ↦ inl e
        | inr (old, e) ↦
            inr (omega (arith, good.live ip e, good.counts ip, conn_count_at fl ip state e))
      ]
