-- ===== src/Zkas/Spend/Pass.antt =====
-- A whole broadcast pass: the sum that the cap is put against, and the snapshot of the rows.
use zkas_pool.Zkas.Spend.{Within, amounts, NotNegative, amounts-take, send_all-Within}
use zkas_pool.Base.{
  ℕ, suc, ◌+◌, ◌≤◌, ◌≡◌, refl, ap, ◌∙◌, Bool, true, false, List, [], ◌∷◌, Option, none, some, arith,
  take, retain, if◌then◌else◌, All, All-retain, ◌==◌, length-take, ◌&&◌,
}
use zkas_pool.Base.Int.{ℤ, pos, negsuc, pos_part, neg_part, ◌+ℤ◌, leb_ℤ}
use zkas_pool.Base.Results.{Result, ok, err, Panic, overflow, i64_max}
use zkas_pool.Base.Sort.{sort_by-All}
use zkas_pool.Zkas.Db.{
  Store, Payout, CycleRecipient, address_of, join_wallets, before, list_cycle_recipients,
}
use zkas_pool.Zkas.World.{
  ZkasPayoutEngineConfig, SendError, panicked, Sent, World, Reply, query, query-cases, Step,
  over_spend_cap,
}
use zkas_pool.Zkas.Broadcast.{
  is_planned_row, send_all, sum_i64, send_planned, unlatched, latch_read, broadcast_pass,
}

plus_pos : (acc : ℕ) (z : ℤ) → neg_part z ≡ 0 → pos acc +ℤ z ≡ pos (acc + pos_part z)
unfolding ◌+ℤ◌
plus_pos acc (pos n) h = ground arith
plus_pos acc (negsuc n) h = ground arith

sum_i64_sound :
    (acc : ℕ) (rs : List CycleRecipient) {t : ℤ}
    → All NotNegative rs
    → sum_i64 (pos acc) rs ≡ ok t
    → t ≡ pos (acc + amounts rs)
unfolding sum_i64
sum_i64_sound acc [] h e = ground arith
sum_i64_sound acc (r ∷ rs) {t} h e =
    go (leb_ℤ total (pos i64_max) && leb_ℤ (negsuc i64_max) total)
      (rw (plus_pos acc r.amount_sompi h.0, sum_i64) at e)
      (λ k. sum_i64_sound (acc + pos_part r.amount_sompi) rs {t = t} h.1 k)
  where
    total : ℤ
    total = pos (acc + pos_part r.amount_sompi)

    go :
        (b : Bool)
        → (if b then sum_i64 total rs else err overflow) ≡ ok t
        → (sum_i64 total rs ≡ ok t → t ≡ pos (acc + pos_part r.amount_sompi + amounts rs))
        → t ≡ pos (acc + amounts (r ∷ rs))
    go true k rest = ground (arith, rest k)
    go false k rest = cc

under : (n : ℕ) (c : ℤ) → over_spend_cap (pos n) (some c) ≡ false → n ≤ pos_part c
unfolding over_spend_cap
under n (pos m) h = ground arith
under n (negsuc m) h = ground arith

join_NotNegative :
    (cycle : ℕ) (ws : List (ℕ × List ℕ)) (ps : List Payout)
    → All (λ p. neg_part p.amount_sompi ≡ 0) ps
    → All NotNegative (join_wallets cycle ws ps)
unfolding join_wallets
join_NotNegative cycle ws [] h = tt
join_NotNegative cycle ws (p ∷ ps) h =
    go (if p.cycle_id == cycle then address_of p.wallet_id ws else none)
      (join_NotNegative cycle ws ps h.1)
  where
    go :
        (o : Option (List ℕ))
        → All NotNegative (join_wallets cycle ws ps)
        → All NotNegative (elim o as (λ _. List CycleRecipient) [
          | none ↦ join_wallets cycle ws ps
          | some a ↦
              record {
                payout_id = p.id;
                address = a;
                amount_sompi = p.amount_sompi;
                status = p.status;
              }
              ∷ join_wallets cycle ws ps
        ])
    go none r = r
    go (some a) r = (h.0, r)

recipients_NotNegative :
    (s : Store) (cycle : ℕ)
    → All (λ p. neg_part p.amount_sompi ≡ 0) s.payouts
    → All NotNegative (list_cycle_recipients s cycle)
unfolding list_cycle_recipients
recipients_NotNegative s cycle h =
    sort_by-All before NotNegative (join_wallets cycle s.wallets s.payouts)
      (join_NotNegative cycle s.wallets s.payouts h)

module _ (reply : ℕ → Reply) (send : List Sent → List ℕ → ℕ → Result SendError ℕ) where
  send_planned-Within :
      (cfg : ZkasPayoutEngineConfig) (rs : List CycleRecipient) (w : World) {c : ℤ}
      → All NotNegative rs
      → cfg.spend_cap_sompi ≡ some c
      → Within w.log (pos_part c) cfg.max_sends_per_tick (send_planned reply send cfg rs w).1
  unfolding send_planned
  send_planned-Within cfg [] w h k = record { sompi = omega arith; sends = omega arith }
  send_planned-Within cfg (r ∷ rs) w {c} h k = go (sum_i64 (pos 0) (r ∷ rs)) refl
    where
      sends : Step Unit
      sends = send_all reply send cfg.mode (take cfg.max_sends_per_tick (r ∷ rs)) w

      capped : World
      capped = record w { stats = record w.stats { spend_capped = true } }

      all : Within w.log (amounts (r ∷ rs)) cfg.max_sends_per_tick sends.1
      all =
          let few = take cfg.max_sends_per_tick (r ∷ rs) in
          let a = send_all-Within reply send cfg.mode few w in
          record {
            sompi = omega (arith, a.sompi, amounts-take cfg.max_sends_per_tick (r ∷ rs));
            sends = omega (arith, a.sends, length-take cfg.max_sends_per_tick (r ∷ rs));
          }

      choose :
          (b : Bool)
          → (b ≡ false → amounts (r ∷ rs) ≤ pos_part c)
          → Within w.log
              (pos_part c)
              cfg.max_sends_per_tick
              (if◌then◌else◌ {A = Step Unit} b (ok tt, capped) sends).1
      choose true fits = record { sompi = omega arith; sends = omega arith }
      choose false fits = record { sompi = omega (arith, all.sompi, fits refl); sends = all.sends }

      fits :
          (t : ℤ)
          → t ≡ pos (amounts (r ∷ rs))
          → over_spend_cap t cfg.spend_cap_sompi ≡ false
          → amounts (r ∷ rs) ≤ pos_part c
      fits t e f = under (amounts (r ∷ rs)) c (rw (e, k) at f)

      go :
          (t : Result Panic ℤ)
          → sum_i64 (pos 0) (r ∷ rs) ≡ t
          → Within w.log
              (pos_part c)
              cfg.max_sends_per_tick
              (elim t as (λ _. Step Unit) [
                | err p ↦ (err (panicked p), w)
                | ok total ↦
                    if over_spend_cap total cfg.spend_cap_sompi then (ok tt, capped) else sends
              ]).1
      go (err p) e = record { sompi = omega arith; sends = omega arith }
      go (ok total) e =
          choose (over_spend_cap total cfg.spend_cap_sompi)
            (fits total (sum_i64_sound 0 (r ∷ rs) {t = total} h e ∙ ap pos (omega arith)))

  -- A pass under a spend cap sends at most the cap in all, and at most `max_sends_per_tick` times,
  -- whatever the sender and the database answer. No amount in the table is negative.
  pub broadcast_pass-Within :
      (cfg : ZkasPayoutEngineConfig) (cycle : ℕ) (w : World) {c : ℤ}
      → All (λ p. neg_part p.amount_sompi ≡ 0) w.store.payouts
      → cfg.spend_cap_sompi ≡ some c
      → Within w.log (pos_part c) cfg.max_sends_per_tick (broadcast_pass reply send cfg cycle w).1
  unfolding broadcast_pass
  broadcast_pass-Within cfg cycle w {c} h k =
      query-cases reply w
        (λ p.
          Within w.log (pos_part c) cfg.max_sends_per_tick (latch_read reply send cfg cycle p).1)
        (go w.store.inflight) (none_sent after refl)
    where
      after : World
      after = record w { calls = suc w.calls }

      none_sent : (v : World) → v.log ≡ w.log → Within w.log (pos_part c) cfg.max_sends_per_tick v
      none_sent v e = record { sompi = rw e (omega arith); sends = rw e (omega arith) }

      planned : All NotNegative (retain is_planned_row (list_cycle_recipients w.store cycle))
      planned =
          All-retain NotNegative is_planned_row (list_cycle_recipients w.store cycle)
            (recipients_NotNegative w.store cycle h)

      answered : World
      answered = record w { calls = suc (suc w.calls) }

      sends :
          Within w.log
            (pos_part c)
            cfg.max_sends_per_tick
            (unlatched reply send cfg cycle (query reply after)).1
      sends =
          query-cases reply after
            (λ p.
              Within w.log (pos_part c) cfg.max_sends_per_tick (unlatched reply send cfg cycle p).1)
            (send_planned-Within cfg _ answered {c = c} planned k) (none_sent answered refl)

      go :
          (l : Option ℕ)
          → Within w.log
              (pos_part c)
              cfg.max_sends_per_tick
              (elim l as (λ _. Step Unit) [
                | some k ↦
                    (ok tt, record after { stats = record w.stats { inflight_latched = true } })
                | none ↦ unlatched reply send cfg cycle (query reply after)
              ]).1
      go (some j) =
          none_sent (record after { stats = record w.stats { inflight_latched = true } }) refl
      go none = sends
