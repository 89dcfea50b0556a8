-- ===== src/Zkas/Safety/Sends.antt =====
-- `broadcast_pass` keeps the invariant through each call of the database and of the sender.
use zkas_pool.Zkas.Safety.{paid, planned_rows, hits, Safe, Ready, Ready-Safe}
use zkas_pool.Base.{
  ℕ, suc, ◌+◌, ◌≤◌, ◌≡◌, refl, Bool, true, false, List, [], ◌∷◌, some, ◌==◌, if◌then◌else◌, arith,
}
use zkas_pool.Base.Int.{ℤ, pos, negsuc}
use zkas_pool.Base.Results.{Result, ok, err}
use zkas_pool.Zkas.Db.{Payout, CycleRecipient, update, submit}
use zkas_pool.Zkas.World.{
  ExecutionMode, dry_run, live, SendError, taken_as_paid, Sent, World, Reply, set_inflight,
  clear_inflight, write-cases, is_ambiguous, Step,
}
use zkas_pool.Zkas.Broadcast.{
  Next, go_on, return, fail, settle, send_one, clear_then, record_send, submitted, latched, cleared,
  counted, attempted, send_all,
}

module _ (i : ℕ) where
  planned_rows-update :
      (k txid : ℕ) (ps : List Payout)
      → planned_rows i (update k (submit txid) ps) ≡ (if k == i then 0 else planned_rows i ps)
  unfolding update submit
  planned_rows-update k txid [] = ground arith
  planned_rows-update k txid (p ∷ ps) = ground (arith, planned_rows-update k txid ps)

  -- While the latch holds `k`, with the rows of `k` still to send or sent in vain.
  record Held (k : ℕ) (rs : List CycleRecipient) (w : World) : Type 0 where
    held : w.store.inflight ≡ some k
    closed : paid i w.log + planned_rows i w.store.payouts ≤ 1
    unsent : paid i w.log + hits i rs ≤ 1
    fresh : w.store.next_payout ≤ i → paid i w.log + planned_rows i w.store.payouts + hits i rs ≡ 0

  -- After a send of `k` whose outcome is not known.
  record Unsure (k : ℕ) (rs : List CycleRecipient) (w : World) : Type 0 where
    held : w.store.inflight ≡ some k
    once : paid i w.log + (if k == i then 0 else planned_rows i w.store.payouts) ≤ 1
    unsent : paid i w.log + hits i rs ≤ 1
    fresh : w.store.next_payout ≤ i → paid i w.log + planned_rows i w.store.payouts + hits i rs ≡ 0

  abbrev pub After : List CycleRecipient → Next × World → Type 0
  After rs (go_on, w) = Ready i rs w
  After rs (return, w) = Safe i w
  After rs (fail e, w) = Safe i w

  Held-Safe : (k : ℕ) (rs : List CycleRecipient) (w : World) → Held k rs w → Safe i w
  Held-Safe k rs w h = record {
    once = ground (arith, h.held, h.closed);
    fresh = λ le. omega (arith, h.fresh le);
  }

  Unsure-Safe : (k : ℕ) (rs : List CycleRecipient) (w : World) → Unsure k rs w → Safe i w
  Unsure-Safe k rs w h = record {
    once = ground (arith, h.held, h.once);
    fresh = λ le. omega (arith, h.fresh le);
  }

  module _ (reply : ℕ → Reply) (send : List Sent → List ℕ → ℕ → Result SendError ℕ) where
    clear_then-After :
        (next : Next) (k : ℕ) (rs : List CycleRecipient) (w : World)
        → Held k rs w
        → After rs (clear_then reply send next w)
    unfolding clear_then
    clear_then-After next k rs w h =
        write-cases reply clear_inflight w (λ p. After rs (cleared reply send next p)) (ready next)
          (Held-Safe k rs _ (same h)) cleared_Safe
      where
        after : World
        after = record w { store = clear_inflight w.store; calls = suc w.calls }

        same : Held k rs w → Held k rs (record w { calls = suc w.calls })
        same h = record { held = h.held; closed = h.closed; unsent = h.unsent; fresh = h.fresh }

        go_Ready : Ready i rs after
        go_Ready = record { free = refl; closed = h.closed; unsent = h.unsent; fresh = h.fresh }

        cleared_Safe : Safe i after
        cleared_Safe = Ready-Safe i rs after go_Ready

        ready : (next : Next) → After rs (next, after)
        ready go_on = go_Ready
        ready return = cleared_Safe
        ready (fail e) = cleared_Safe

    counted-After :
        (rs : List CycleRecipient) (p : Next × World) → After rs p → After rs (counted reply send p)
    counted-After rs (go_on, w) h = record {
      free = h.free;
      closed = h.closed;
      unsent = h.unsent;
      fresh = h.fresh;
    }
    counted-After rs (return, w) h = h
    counted-After rs (fail e, w) h = h

    settle-After :
        (r : CycleRecipient) (rs : List CycleRecipient) (outcome : Result SendError ℕ) (w : World)
        → (taken_as_paid outcome ≡ true → Unsure r.payout_id rs w)
        → (taken_as_paid outcome ≡ false → Held r.payout_id rs w)
        → After rs (settle reply send r outcome w)
    unfolding settle
    settle-After r rs (ok txid) w u h =
        write-cases reply (λ s. record s { payouts = update r.payout_id (submit txid) s.payouts }) w
          (λ p. After rs (submitted reply send p))
          (counted-After rs (clear_then reply send go_on after)
            (clear_then-After go_on r.payout_id rs after (submitted_Held (u refl))))
          (Unsure-Safe r.payout_id rs _ (bumped (u refl)))
          (Held-Safe r.payout_id rs after (submitted_Held (u refl)))
      where
        after : World
        after = record w {
          store = record w.store { payouts = update r.payout_id (submit txid) w.store.payouts };
          calls = suc w.calls;
        }

        bumped : Unsure r.payout_id rs w → Unsure r.payout_id rs (record w { calls = suc w.calls })
        bumped u = record { held = u.held; once = u.once; unsent = u.unsent; fresh = u.fresh }

        submitted_Held : Unsure r.payout_id rs w → Held r.payout_id rs after
        submitted_Held u = record {
          held = u.held;
          closed = omega (arith, planned_rows-update r.payout_id txid w.store.payouts, u.once);
          unsent = u.unsent;
          fresh = λ le.
              ground (arith, planned_rows-update r.payout_id txid w.store.payouts, u.fresh le);
        }
    settle-After r rs (err e) w u h = go (is_ambiguous e) refl
      where
        go :
            (b : Bool)
            → is_ambiguous e ≡ b
            → After rs (if b then (return, w) else clear_then reply send return w)
        go true k = Unsure-Safe r.payout_id rs w (u k)
        go false k = clear_then-After return r.payout_id rs w (h k)

    send_one-After :
        (mode : ExecutionMode) (r : CycleRecipient) (rs : List CycleRecipient) (w : World)
        → Ready i (r ∷ rs) w
        → After rs (send_one reply send mode r w)
    unfolding send_one
    send_one-After dry_run r rs w h = record {
      free = h.free;
      closed = h.closed;
      unsent = omega (arith, h.unsent);
      fresh = λ le. omega (arith, h.fresh le);
    }
    send_one-After live r rs w h =
        write-cases reply (set_inflight r.payout_id) (attempted w)
          (λ p. After rs (latched reply send r p)) (sends r.amount_sompi)
          (Ready-Safe i (r ∷ rs) _
            (record { free = h.free; closed = h.closed; unsent = h.unsent; fresh = h.fresh }))
          (Held-Safe r.payout_id rs after holds)
      where
        after : World
        after = record (attempted w) {
          store = set_inflight r.payout_id w.store;
          calls = suc w.calls;
        }

        holds : Held r.payout_id rs after
        holds = record {
          held = refl;
          closed = h.closed;
          unsent = omega (arith, h.unsent);
          fresh = λ le. omega (arith, h.fresh le);
        }

        sent :
            (amount : ℕ) (outcome : Result SendError ℕ)
            → After rs (settle reply send r outcome (record_send r amount outcome after))
        sent amount outcome =
            settle-After r rs outcome (record_send r amount outcome after)
              (λ k. record {
                held = refl;
                once = ground (arith, h.unsent, h.closed);
                unsent = ground (arith, h.unsent);
                fresh = λ le. ground (arith, h.fresh le);
              })
              (λ k. record {
                held = refl;
                closed = ground (arith, h.closed);
                unsent = ground (arith, h.unsent);
                fresh = λ le. ground (arith, h.fresh le);
              })

        sends :
            (amount : ℤ)
            → After rs (elim amount [
              | negsuc n ↦ clear_then reply send go_on after
              | pos amount ↦
                  settle reply send r
                    (send after.log r.address amount)
                    (record_send r amount (send after.log r.address amount) after)
            ])
        sends (pos amount) = sent amount (send after.log r.address amount)
        sends (negsuc n) = clear_then-After go_on r.payout_id rs after holds

    pub send_all-Safe :
        (mode : ExecutionMode) (rs : List CycleRecipient) (w : World)
        → Ready i rs w
        → Safe i (send_all reply send mode rs w).1
    unfolding send_all
    send_all-Safe mode [] w h = Ready-Safe i [] w h
    send_all-Safe mode (r ∷ rs) w h =
        go (send_one reply send mode r w) (send_one-After mode r rs w h)
          (λ w'. send_all-Safe mode rs w')
      where
        go :
            (p : Next × World)
            → After rs p
            → ((w' : World) → Ready i rs w' → Safe i (send_all reply send mode rs w').1)
            → Safe i
                (let (next, w') = p in
                  (elim next as (λ _. Step Unit) [
                    | go_on ↦ send_all reply send mode rs w'
                    | return ↦ (ok tt, w')
                    | fail e ↦ (err e, w')
                  ])).1
        go (go_on, w') a rest = rest w' a
        go (return, w') a rest = a
        go (fail e, w') a rest = a
