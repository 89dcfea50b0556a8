-- ===== src/Zkas/Broadcast.antt =====
-- payout-zkas/src/engine.rs: `broadcast_pass`. The sender is a parameter: its answer may depend on
-- every call before, on the address and on the amount.
use zkas_pool.Base.{
  ℕ, suc, Bool, true, false, List, [], ◌∷◌, none, some, take, retain, if◌then◌else◌, ◌&&◌,
}
use zkas_pool.Base.Int.{ℤ, pos, negsuc, ◌+ℤ◌, leb_ℤ}
use zkas_pool.Base.Results.{Result, ok, err, Panic, overflow, i64_max}
use zkas_pool.Zkas.Db.{CycleRecipient, list_cycle_recipients, is_planned, update, submit}
use zkas_pool.Zkas.World.{
  ExecutionMode, dry_run, live, ZkasPayoutEngineConfig, SendError, is_ambiguous, EngineError, db,
  panicked, Sent, World, Reply, write, query, Step, set_inflight, clear_inflight, over_spend_cap,
}

-- `.sum()` of `i64` amounts, in a build that checks for overflow
unfoldable pub sum_i64 : ℤ → List CycleRecipient → Result Panic ℤ
sum_i64 acc [] = ok acc
sum_i64 acc (r ∷ rs) =
    let s = acc +ℤ r.amount_sompi in
    if leb_ℤ s (pos i64_max) && leb_ℤ (negsuc i64_max) s then sum_i64 s rs else err overflow

-- What the loop does after a recipient.
pub data Next : Type 0 where
  go_on return : Next
  fail : EngineError → Next

abbrev pub is_planned_row : CycleRecipient → Bool
is_planned_row r = is_planned r.status

abbrev pub attempted : World → World
attempted w = record w { stats = record w.stats { sends_attempted = suc w.stats.sends_attempted } }

abbrev pub count_accepted : World → World
count_accepted w = record w {
  stats = record w.stats { sends_accepted = suc w.stats.sends_accepted };
}

abbrev pub record_send : CycleRecipient → ℕ → Result SendError ℕ → World → World
record_send r amount outcome w = record w {
  log =
      record { payout_id = r.payout_id; address = r.address; amount = amount; outcome = outcome }
      ∷ w.log;
}

module _ (reply : ℕ → Reply) (send : List Sent → List ℕ → ℕ → Result SendError ℕ) where
  -- `pool_meta::delete`, then on as `next` says.
  abbrev pub cleared : Next → Bool × World → Next × World
  cleared next (false, w) = (fail db, w)
  cleared next (true, w) = (next, w)

  unfoldable pub clear_then : Next → World → Next × World
  unfolding write
  clear_then next w = cleared next (write reply clear_inflight w)

  abbrev pub counted : Next × World → Next × World
  counted (go_on, w) = (go_on, count_accepted w)
  counted (return, w) = (return, w)
  counted (fail e, w) = (fail e, w)

  abbrev pub submitted : Bool × World → Next × World
  submitted (false, w) = (fail db, w)
  submitted (true, w) = counted (clear_then go_on w)

  -- The match on the outcome of the send.
  unfoldable pub settle : CycleRecipient → Result SendError ℕ → World → Next × World
  unfolding write clear_then
  settle r (ok txid) w =
      submitted
        (write reply (λ s. record s { payouts = update r.payout_id (submit txid) s.payouts }) w)
  settle r (err e) w = if is_ambiguous e then (return, w) else clear_then return w

  -- After the latch is set: the amount as `u64`, and the send.
  abbrev pub latched : CycleRecipient → Bool × World → Next × World
  latched r (false, w) = (fail db, w)
  latched r (true, w) = elim r.amount_sompi [
    | negsuc n ↦ clear_then go_on w
    | pos amount ↦
        let outcome = send w.log r.address amount in
        settle r outcome (record_send r amount outcome w)
  ]

  -- The body of the loop.
  unfoldable pub send_one : ExecutionMode → CycleRecipient → World → Next × World
  unfolding write clear_then settle
  send_one dry_run r w = (go_on, w)
  send_one live r w = latched r (write reply (set_inflight r.payout_id) (attempted w))

  unfoldable pub send_all : ExecutionMode → List CycleRecipient → World → Step Unit
  unfolding send_one
  send_all mode [] w = (ok tt, w)
  send_all mode (r ∷ rs) w =
      let (next, w') = send_one mode r w in
      elim next [ go_on ↦ send_all mode rs w' | return ↦ (ok tt, w') | fail e ↦ (err e, w') ]

  -- The spend cap, then the loop over at most `max_sends_per_tick` of the planned rows.
  unfoldable pub send_planned : ZkasPayoutEngineConfig → List CycleRecipient → World → Step Unit
  unfolding send_all sum_i64 over_spend_cap
  send_planned cfg [] w = (ok tt, w)
  send_planned cfg (r ∷ rs) w = elim (sum_i64 (pos 0) (r ∷ rs)) [
    | err p ↦ (err (panicked p), w)
    | ok total ↦
        if over_spend_cap total cfg.spend_cap_sompi
        then (ok tt, record w { stats = record w.stats { spend_capped = true } })
        else send_all cfg.mode (take cfg.max_sends_per_tick (r ∷ rs)) w
  ]

  abbrev pub unlatched : ZkasPayoutEngineConfig → ℕ → Bool × World → Step Unit
  unlatched cfg cycle (false, w) = (err db, w)
  unlatched cfg cycle (true, w) =
      send_planned cfg (retain is_planned_row (list_cycle_recipients w.store cycle)) w

  abbrev pub latch_read : ZkasPayoutEngineConfig → ℕ → Bool × World → Step Unit
  latch_read cfg cycle (false, w) = (err db, w)
  latch_read cfg cycle (true, w) = elim w.store.inflight [
    | some k ↦ (ok tt, record w { stats = record w.stats { inflight_latched = true } })
    | none ↦ unlatched cfg cycle (query reply w)
  ]

  unfoldable pub broadcast_pass : ZkasPayoutEngineConfig → ℕ → World → Step Unit
  unfolding query send_planned
  broadcast_pass cfg cycle w = latch_read cfg cycle (query reply w)
