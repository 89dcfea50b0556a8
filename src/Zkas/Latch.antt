-- ===== src/Zkas/Latch.antt =====
-- The in-flight latch: while it is set nothing is sent, and a send whose outcome is not known leaves
-- it set.
pub mod Halts
use zkas_pool.Base.{
  ℕ, suc, ◌≡◌, refl, sym, ◌∙◌, Bool, true, false, List, [], ◌∷◌, Option, none, some, arith, take,
  retain, if◌then◌else◌, Bool-cases, inl, inr,
}
use zkas_pool.Base.Int.{ℤ, pos, negsuc}
use zkas_pool.Base.Results.{Result, ok, err, Panic}
use zkas_pool.Zkas.Db.{Store, CycleRecipient, update, submit, list_cycle_recipients}
use zkas_pool.Zkas.World.{
  ExecutionMode, dry_run, live, ZkasPayoutEngineConfig, SendError, is_ambiguous, EngineError,
  panicked, Sent, World, Reply, query, write, write-cases, query-cases, set_inflight,
  clear_inflight, Step, over_spend_cap,
}
use zkas_pool.Zkas.Broadcast.{
  Next, go_on, return, fail, is_planned_row, attempted, record_send, cleared, clear_then, counted,
  submitted, settle, latched, send_one, send_all, sum_i64, send_planned, unlatched, latch_read,
  broadcast_pass,
}

-- The outcome of the newest call of the sender is not known.
abbrev pub newest_ambiguous : List Sent → Bool
newest_ambiguous [] = false
newest_ambiguous (s ∷ log) = elim s.outcome [ ok txid ↦ false | err e ↦ is_ambiguous e ]

abbrev pub newest_payout : List Sent → Option ℕ
newest_payout [] = none
newest_payout (s ∷ log) = some s.payout_id

-- The latch holds the payout of the newest call where the outcome of that is not known.
pub record Marked (w : World) : Type 0 where
  pub held : newest_ambiguous w.log ≡ true → w.store.inflight ≡ newest_payout w.log

record Known (w : World) : Type 0 where
  known : newest_ambiguous w.log ≡ false

abbrev After : Next × World → Type 0
After (go_on, w) = Known w
After (return, w) = Marked w
After (fail e, w) = Marked w

Known-Marked : (w : World) → Known w → Marked w
Known-Marked w h = record { held = λ k. cc (h.known, k) }

Known-After : (next : Next) (w : World) → Known w → After (next, w)
Known-After go_on w h = h
Known-After return w h = Known-Marked w h
Known-After (fail e) w h = Known-Marked w h

-- The log alone decides what is known.
same_log : (w w' : World) → w'.log ≡ w.log → Known w → Known w'
same_log w w' e h = record { known = rw e h.known }

module _ (reply : ℕ → Reply) (send : List Sent → List ℕ → ℕ → Result SendError ℕ) where
  clear_then-After : (next : Next) (w : World) → Known w → After (clear_then reply send next w)
  unfolding clear_then
  clear_then-After next w h =
      write-cases reply clear_inflight w (λ p. After (cleared reply send next p))
        (Known-After next cleared_world (same_log w cleared_world refl h))
        (Known-Marked same (same_log w same refl h))
        (Known-Marked cleared_world (same_log w cleared_world refl h))
    where
      same : World
      same = record w { calls = suc w.calls }

      cleared_world : World
      cleared_world = record w { store = clear_inflight w.store; calls = suc w.calls }

  counted-After : (p : Next × World) → After p → After (counted reply send p)
  counted-After (go_on, w) h = record { known = h.known }
  counted-After (return, w) h = h
  counted-After (fail e, w) h = h

  settle-After :
      (r : CycleRecipient) (amount : ℕ) (outcome : Result SendError ℕ) (w : World)
      → w.store.inflight ≡ some r.payout_id
      → After (settle reply send r outcome (record_send r amount outcome w))
  unfolding settle
  settle-After r amount (ok txid) w h =
      let w' = record_send r amount (ok txid) w in
      write-cases reply (λ s. record s { payouts = update r.payout_id (submit txid) s.payouts }) w'
        (λ p. After (submitted reply send p))
        (counted-After (clear_then reply send go_on after)
          (clear_then-After go_on after (record { known = refl })))
        (Known-Marked same (record { known = refl })) (Known-Marked after (record { known = refl }))
    where
      same : World
      same = record (record_send r amount (ok txid) w) { calls = suc w.calls }

      after : World
      after = record same {
        store = record w.store { payouts = update r.payout_id (submit txid) w.store.payouts };
      }
  settle-After r amount (err e) w h = go (is_ambiguous e) refl
    where
      w' : World
      w' = record_send r amount (err e) w

      go :
          (b : Bool)
          → is_ambiguous e ≡ b
          → After (if b then (return, w') else clear_then reply send return w')
      go true k = record { held = λ _. h }
      go false k = clear_then-After return w' (record { known = k })

  send_one-After :
      (mode : ExecutionMode) (r : CycleRecipient) (w : World)
      → Known w
      → After (send_one reply send mode r w)
  unfolding send_one
  send_one-After dry_run r w h = h
  send_one-After live r w h =
      write-cases reply (set_inflight r.payout_id) (attempted w)
        (λ p. After (latched reply send r p)) (sends r.amount_sompi)
        (Known-Marked same (same_log w same refl h)) (Known-Marked after (same_log w after refl h))
    where
      same : World
      same = record (attempted w) { calls = suc w.calls }

      after : World
      after = record (attempted w) { store = set_inflight r.payout_id w.store; calls = suc w.calls }

      sends :
          (amount : ℤ)
          → After (elim amount [
            | negsuc n ↦ clear_then reply send go_on after
            | pos amount ↦
                let outcome = send after.log r.address amount in
                settle reply send r outcome (record_send r amount outcome after)
          ])
      sends (pos amount) = settle-After r amount (send after.log r.address amount) after refl
      sends (negsuc n) = clear_then-After go_on after (same_log w after refl h)

  send_all-Marked :
      (mode : ExecutionMode) (rs : List CycleRecipient) (w : World)
      → Known w
      → Marked (send_all reply send mode rs w).1
  unfolding send_all
  send_all-Marked mode [] w h = Known-Marked w h
  send_all-Marked mode (r ∷ rs) w h =
      go (send_one reply send mode r w) (send_one-After mode r w h)
        (λ w'. send_all-Marked mode rs w')
    where
      go :
          (p : Next × World)
          → After p
          → ((w' : World) → Known w' → Marked (send_all reply send mode rs w').1)
          → Marked
              (let (next, w') = p in
                (elim next as (λ _. Step Unit) [
                  | go_on ↦ send_all reply send mode rs w'
                  | return ↦ (ok tt, w')
                  | fail e ↦ (err e, w')
                ])).1
      go (go_on, w') a rest = rest w' a
      go (return, w') a rest = a
      go (fail e, w') a rest = a

  send_planned-Marked :
      (cfg : ZkasPayoutEngineConfig) (rs : List CycleRecipient) (w : World)
      → Known w
      → Marked (send_planned reply send cfg rs w).1
  unfolding send_planned
  send_planned-Marked cfg [] w h = Known-Marked w h
  send_planned-Marked cfg (r ∷ rs) w h = go (sum_i64 (pos 0) (r ∷ rs))
    where
      capped : World
      capped = record w { stats = record w.stats { spend_capped = true } }

      sends : Step Unit
      sends = send_all reply send cfg.mode (take cfg.max_sends_per_tick (r ∷ rs)) w

      choose : (b : Bool) → Marked (if◌then◌else◌ {A = Step Unit} b (ok tt, capped) sends).1
      choose true = Known-Marked capped (same_log w capped refl h)
      choose false = send_all-Marked cfg.mode (take cfg.max_sends_per_tick (r ∷ rs)) w h

      go :
          (t : Result Panic ℤ)
          → Marked
              (elim t as (λ _. Step Unit) [
                | err p ↦ (err (panicked p), w)
                | ok total ↦
                    if over_spend_cap total cfg.spend_cap_sompi then (ok tt, capped) else sends
              ]).1
      go (err p) = Known-Marked w h
      go (ok total) = choose (over_spend_cap total cfg.spend_cap_sompi)

  unlatched-Marked :
      (cfg : ZkasPayoutEngineConfig) (cycle : ℕ) (w : World)
      → Known w
      → Marked (unlatched reply send cfg cycle (query reply w)).1
  unlatched-Marked cfg cycle w h =
      query-cases reply w (λ p. Marked (unlatched reply send cfg cycle p).1)
        (send_planned-Marked cfg (retain is_planned_row (list_cycle_recipients w.store cycle)) after
          (same_log w after refl h))
        (Known-Marked after (same_log w after refl h))
    where
      after : World
      after = record w { calls = suc w.calls }

  pub broadcast_pass-Marked :
      (cfg : ZkasPayoutEngineConfig) (cycle : ℕ) (w : World)
      → Marked w
      → Marked (broadcast_pass reply send cfg cycle w).1
  unfolding broadcast_pass
  broadcast_pass-Marked cfg cycle w h =
      query-cases reply w (λ p. Marked (latch_read reply send cfg cycle p).1)
        (go w.store.inflight refl) (record { held = h.held })
    where
      after : World
      after = record w { calls = suc w.calls }

      held :
          (log : List Sent)
          → newest_ambiguous log ≡ true
          → none ≡ newest_payout log
          → newest_ambiguous log ≡ false
      held [] k m = refl
      held (s ∷ log) k m = cc

      free : w.store.inflight ≡ none → Known after
      free e = elim (Bool-cases (newest_ambiguous w.log)) [
        | inl k ↦ record { known = held w.log k (sym e ∙ h.held k) }
        | inr k ↦ record { known = k }
      ]

      go :
          (l : Option ℕ)
          → w.store.inflight ≡ l
          → Marked
              (elim l as (λ _. Step Unit) [
                | some k ↦
                    (ok tt, record after { stats = record w.stats { inflight_latched = true } })
                | none ↦ unlatched reply send cfg cycle (query reply after)
              ]).1
      go (some k) e = record { held = h.held }
      go none e = unlatched-Marked cfg cycle after (free e)
