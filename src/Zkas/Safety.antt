-- ===== src/Zkas/Safety.antt =====
-- What every part of the engine keeps: for each payout, at most one call of the sender is taken for
-- a payment or for one in doubt, and while one is, the payout is no longer planned or its id is in the
-- latch.
pub mod Sends
pub mod Broadcasts
pub mod Plans
pub mod Ticks
use zkas_pool.Base.{
  ℕ, suc, ◌+◌, ◌≤◌, ◌≡◌, refl, Bool, true, false, List, [], ◌∷◌, Option, none, some, ◌==◌,
  if◌then◌else◌, leb, arith, sum_by,
}
use zkas_pool.Base.Int.{ℤ, pos, negsuc}
use zkas_pool.Base.Results.{Result, ok, err}
use zkas_pool.Zkas.Db.{Store, Payout, CycleRecipient, is_planned, update, submit}
use zkas_pool.Zkas.World.{
  ExecutionMode, dry_run, live, SendError, taken_as_paid, EngineError, Sent, World, Reply, done,
  refused, lost, write, query, set_inflight, clear_inflight, write-cases, query-cases, is_ambiguous,
  Step,
}
use zkas_pool.Zkas.Broadcast.{
  Next, go_on, return, fail, settle, send_one, clear_then, record_send, submitted, latched, cleared,
  counted, attempted, send_all,
}

module _ (i : ℕ) where
  abbrev pub mine : ℕ → ℕ
  mine j = if j == i then 1 else 0

  -- The calls for payout `i` that the engine takes for payments or for ones in doubt
  abbrev pub paid : List Sent → ℕ
  paid log = sum_by (λ s. if taken_as_paid s.outcome then mine s.payout_id else 0) log

  abbrev pub planned_rows : List Payout → ℕ
  planned_rows ps = sum_by (λ p. if is_planned p.status then mine p.id else 0) ps

  abbrev pub hits : List CycleRecipient → ℕ
  hits rs = sum_by (λ r. mine r.payout_id) rs

  abbrev pub is_latched : Option ℕ → Bool
  is_latched none = false
  is_latched (some j) = j == i

  -- The rows of payout `i` that a pass could send.
  abbrev pub open_rows : Store → ℕ
  open_rows s = if is_latched s.inflight then 0 else planned_rows s.payouts

  pub record Safe (w : World) : Type 0 where
    pub once : paid w.log + open_rows w.store ≤ 1
    pub fresh : w.store.next_payout ≤ i → paid w.log + planned_rows w.store.payouts ≡ 0

  -- In the loop, before a recipient: no latch, and no recipient ahead has such a call.
  pub record Ready (rs : List CycleRecipient) (w : World) : Type 0 where
    pub free : w.store.inflight ≡ none
    pub closed : paid w.log + planned_rows w.store.payouts ≤ 1
    pub unsent : paid w.log + hits rs ≤ 1
    pub fresh : w.store.next_payout ≤ i → paid w.log + planned_rows w.store.payouts + hits rs ≡ 0

  pub Ready-Safe : (rs : List CycleRecipient) (w : World) → Ready rs w → Safe w
  Ready-Safe rs w h = record {
    once = ground (arith, h.free, h.closed);
    fresh = λ le. omega (arith, h.fresh le);
  }
