-- ===== src/Zkas/Safety/Broadcasts.antt =====
-- A whole broadcast pass keeps the invariant: its snapshot lists each planned row once at most.
use zkas_pool.Zkas.Safety.{mine, planned_rows, hits, Safe, Ready, Ready-Safe}
use zkas_pool.Zkas.Safety.Sends.{send_all-Safe}
use zkas_pool.Base.{
  ℕ, zero, suc, ◌≤◌, ◌≡◌, refl, Bool, true, false, List, [], ◌∷◌, Option, none, some, if◌then◌else◌,
  arith, sum_by, take, retain,
}
use zkas_pool.Base.Int.{ℤ, pos}
use zkas_pool.Base.Results.{Result, ok, err, Panic}
use zkas_pool.Base.Sort.{sort_by, sort_by-sum}
use zkas_pool.Zkas.Db.{
  Store, Payout, CycleRecipient, is_planned, join_wallets, before, list_cycle_recipients,
}
use zkas_pool.Zkas.World.{
  ZkasPayoutEngineConfig, SendError, panicked, Sent, World, Reply, query, query-cases, Step,
  over_spend_cap,
}
use zkas_pool.Zkas.Broadcast.{
  is_planned_row, sum_i64, send_all, send_planned, unlatched, latch_read, broadcast_pass,
}

module _ (i : ℕ) where
  -- The planned recipients of payout `i` in a list.
  open_hits : List CycleRecipient → ℕ
  open_hits rs = sum_by (λ r. if is_planned r.status then mine i r.payout_id else 0) rs

  hits-retain : (rs : List CycleRecipient) → hits i (retain is_planned_row rs) ≡ open_hits rs
  unfolding open_hits
  hits-retain [] = refl
  hits-retain (r ∷ rs) = ground (arith, hits-retain rs)

  hits-take : (n : ℕ) (rs : List CycleRecipient) → hits i (take n rs) ≤ hits i rs
  hits-take zero rs = ground arith
  hits-take (suc n) [] = ground arith
  hits-take (suc n) (r ∷ rs) = ground (arith, hits-take n rs)

  join_wallets-planned :
      (cycle : ℕ) (ws : List (ℕ × List ℕ)) (ps : List Payout)
      → open_hits (join_wallets cycle ws ps) ≤ planned_rows i ps
  unfolding join_wallets open_hits
  join_wallets-planned cycle ws [] = ground arith
  join_wallets-planned cycle ws (p ∷ ps) = ground (arith, join_wallets-planned cycle ws ps)

  pub snapshot_once :
      (s : Store) (cycle : ℕ)
      → hits i (retain is_planned_row (list_cycle_recipients s cycle)) ≤ planned_rows i s.payouts
  unfolding list_cycle_recipients open_hits
  snapshot_once s cycle =
      let rows = join_wallets cycle s.wallets s.payouts in
      omega (
        arith,
        hits-retain (sort_by before rows),
        sort_by-sum before (λ r. if is_planned r.status then mine i r.payout_id else 0) rows,
        join_wallets-planned cycle s.wallets s.payouts,
      )

  module _ (reply : ℕ → Reply) (send : List Sent → List ℕ → ℕ → Result SendError ℕ) where
    send_planned-Safe :
        (cfg : ZkasPayoutEngineConfig) (rs : List CycleRecipient) (w : World)
        → Ready i rs w
        → Safe i (send_planned reply send cfg rs w).1
    unfolding send_planned
    send_planned-Safe cfg [] w h = Ready-Safe i [] w h
    send_planned-Safe cfg (r ∷ rs) w h = go (sum_i64 (pos 0) (r ∷ rs))
      where
        capped : World
        capped = record w { stats = record w.stats { spend_capped = true } }

        start : Ready i (take cfg.max_sends_per_tick (r ∷ rs)) w
        start =
            let fewer = hits-take cfg.max_sends_per_tick (r ∷ rs) in
            record {
              free = h.free;
              closed = h.closed;
              unsent = omega (arith, fewer, h.unsent);
              fresh = λ le. omega (arith, fewer, h.fresh le);
            }

        choose :
            (b : Bool)
            → Safe i
                (if◌then◌else◌ {A = Step Unit} b
                  (ok tt, capped)
                  (send_all reply send cfg.mode (take cfg.max_sends_per_tick (r ∷ rs)) w)).1
        choose true =
            Ready-Safe i (r ∷ rs) capped
              (record { free = h.free; closed = h.closed; unsent = h.unsent; fresh = h.fresh })
        choose false =
            send_all-Safe i reply send cfg.mode (take cfg.max_sends_per_tick (r ∷ rs)) w start

        go :
            (t : Result Panic ℤ)
            → Safe i
                (elim t as (λ _. Step Unit) [
                  | err p ↦ (err (panicked p), w)
                  | ok total ↦
                      if over_spend_cap total cfg.spend_cap_sompi
                      then (ok tt, capped)
                      else send_all reply send cfg.mode (take cfg.max_sends_per_tick (r ∷ rs)) w
                ]).1
        go (err p) = Ready-Safe i (r ∷ rs) w h
        go (ok total) = choose (over_spend_cap total cfg.spend_cap_sompi)

    pub Safe-bump : (w : World) → Safe i w → Safe i (record w { calls = suc w.calls })
    Safe-bump w h = record { once = h.once; fresh = h.fresh }

    unlatched-Safe :
        (cfg : ZkasPayoutEngineConfig) (cycle : ℕ) (w : World)
        → Safe i w
        → w.store.inflight ≡ none
        → Safe i (unlatched reply send cfg cycle (query reply w)).1
    unlatched-Safe cfg cycle w h free =
        query-cases reply w (λ p. Safe i (unlatched reply send cfg cycle p).1)
          (send_planned-Safe cfg _ after start) (Safe-bump w h)
      where
        after : World
        after = record w { calls = suc w.calls }

        start : Ready i (retain is_planned_row (list_cycle_recipients w.store cycle)) after
        start =
            let once = snapshot_once w.store cycle in
            record {
              free = free;
              closed = ground (arith, free, h.once);
              unsent = ground (arith, free, h.once, once);
              fresh = λ le. omega (arith, h.fresh le, once);
            }

    pub broadcast_pass-Safe :
        (cfg : ZkasPayoutEngineConfig) (cycle : ℕ) (w : World)
        → Safe i w
        → Safe i (broadcast_pass reply send cfg cycle w).1
    unfolding broadcast_pass
    broadcast_pass-Safe cfg cycle w h =
        query-cases reply w (λ p. Safe i (latch_read reply send cfg cycle p).1)
          (go w.store.inflight refl) (Safe-bump w h)
      where
        after : World
        after = record w { calls = suc w.calls }

        go :
            (l : Option ℕ)
            → w.store.inflight ≡ l
            → Safe i
                (elim l as (λ _. Step Unit) [
                  | some k ↦
                      (ok tt, record after { stats = record w.stats { inflight_latched = true } })
                  | none ↦ unlatched reply send cfg cycle (query reply after)
                ]).1
        go (some k) e = record { once = h.once; fresh = h.fresh }
        go none e = unlatched-Safe cfg cycle after (Safe-bump w h) e
