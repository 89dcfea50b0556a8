-- ===== src/Zkas/Spend.antt =====
-- What one broadcast pass can spend: at most the cap, in at most `max_sends_per_tick` sends.
pub mod Pass
use zkas_pool.Base.{
  ℕ, zero, suc, ◌+◌, ◌≤◌, ◌≡◌, refl, ap, ◌∙◌, Bool, true, false, List, [], ◌∷◌, Option, none, some,
  arith, take, retain, if◌then◌else◌, length, sum_by, All, All-retain, ◌==◌, length-take, ◌&&◌,
}
use zkas_pool.Base.Int.{ℤ, pos, negsuc, pos_part, neg_part, ◌+ℤ◌, leb_ℤ}
use zkas_pool.Base.Results.{Result, ok, err, Panic, overflow, i64_max}
use zkas_pool.Base.Sort.{sort_by-All}
use zkas_pool.Zkas.Db.{
  Store, Payout, CycleRecipient, update, submit, address_of, join_wallets, before,
  list_cycle_recipients,
}
use zkas_pool.Zkas.World.{
  ExecutionMode, dry_run, live, ZkasPayoutEngineConfig, SendError, is_ambiguous, panicked, Sent,
  World, Reply, query, write-cases, query-cases, set_inflight, clear_inflight, Step, over_spend_cap,
}
use zkas_pool.Zkas.Broadcast.{
  Next, go_on, return, fail, is_planned_row, attempted, record_send, cleared, clear_then, counted,
  submitted, settle, latched, send_one, send_all, sum_i64, send_planned, unlatched, latch_read,
  broadcast_pass,
}

abbrev pub spent : List Sent → ℕ
spent log = sum_by (λ s. s.amount) log

abbrev pub amounts : List CycleRecipient → ℕ
amounts rs = sum_by (λ r. pos_part r.amount_sompi) rs

abbrev pub NotNegative : CycleRecipient → Type 0
NotNegative r = neg_part r.amount_sompi ≡ 0

-- Against an earlier log: at most `m` sompi and `k` sends more.
pub record Within (log : List Sent) (m k : ℕ) (w : World) : Type 0 where
  pub sompi : spent w.log ≤ spent log + m
  pub sends : length w.log ≤ length log + k

pub amounts-take : (n : ℕ) (rs : List CycleRecipient) → amounts (take n rs) ≤ amounts rs
amounts-take zero rs = ground arith
amounts-take (suc n) [] = ground arith
amounts-take (suc n) (r ∷ rs) = ground (arith, amounts-take n rs)

module _ (reply : ℕ → Reply) (send : List Sent → List ℕ → ℕ → Result SendError ℕ) where
  clear_then-log : (next : Next) (w : World) → (clear_then reply send next w).1.log ≡ w.log
  unfolding clear_then
  clear_then-log next w =
      write-cases reply clear_inflight w (λ p. (cleared reply send next p).1.log ≡ w.log) refl refl
        refl

  counted-log : (p : Next × World) → (counted reply send p).1.log ≡ p.1.log
  counted-log (go_on, w) = refl
  counted-log (return, w) = refl
  counted-log (fail e, w) = refl

  settle-log :
      (r : CycleRecipient) (outcome : Result SendError ℕ) (w : World)
      → (settle reply send r outcome w).1.log ≡ w.log
  unfolding settle
  settle-log r (ok txid) w =
      write-cases reply (λ s. record s { payouts = update r.payout_id (submit txid) s.payouts }) w
        (λ p. (submitted reply send p).1.log ≡ w.log) (rw (counted-log, clear_then-log) refl) refl
        refl
  settle-log r (err e) w = go (is_ambiguous e)
    where
      go : (b : Bool) → (if b then (return, w) else clear_then reply send return w).1.log ≡ w.log
      go true = refl
      go false = clear_then-log return w

  send_one-Within :
      (mode : ExecutionMode) (r : CycleRecipient) (w : World)
      → Within w.log (pos_part r.amount_sompi) 1 (send_one reply send mode r w).1
  unfolding send_one
  send_one-Within dry_run r w = record { sompi = omega arith; sends = omega arith }
  send_one-Within live r w =
      write-cases reply (set_inflight r.payout_id) (attempted w)
        (λ p. Within w.log (pos_part r.amount_sompi) 1 (latched reply send r p).1)
        (sends r.amount_sompi) (record { sompi = omega arith; sends = omega arith })
        (record { sompi = omega arith; sends = omega arith })
    where
      after : World
      after = record (attempted w) { store = set_inflight r.payout_id w.store; calls = suc w.calls }

      sends :
          (amount : ℤ)
          → Within w.log
              (pos_part amount)
              1
              (elim amount as (λ _. Next × World) [
                | negsuc n ↦ clear_then reply send go_on after
                | pos amount ↦
                    let outcome = send after.log r.address amount in
                    settle reply send r outcome (record_send r amount outcome after)
              ]).1
      sends (pos amount) =
          let outcome = send after.log r.address amount in
          let same = settle-log r outcome (record_send r amount outcome after) in
          record { sompi = rw same (omega arith); sends = rw same (omega arith) }
      sends (negsuc n) =
          let same = clear_then-log go_on after in
          record { sompi = rw same (omega arith); sends = rw same (omega arith) }

  pub send_all-Within :
      (mode : ExecutionMode) (rs : List CycleRecipient) (w : World)
      → Within w.log (amounts rs) (length rs) (send_all reply send mode rs w).1
  unfolding send_all
  send_all-Within mode [] w = record { sompi = omega arith; sends = omega arith }
  send_all-Within mode (r ∷ rs) w =
      go (send_one reply send mode r w) (send_one-Within mode r w)
        (λ w'. send_all-Within mode rs w')
    where
      go :
          (p : Next × World)
          → Within w.log (pos_part r.amount_sompi) 1 p.1
          → ((w' : World)
              → Within w'.log (amounts rs) (length rs) (send_all reply send mode rs w').1)
          → Within w.log
              (amounts (r ∷ rs))
              (length (r ∷ rs))
              (let (next, w') = p in
                (elim next as (λ _. Step Unit) [
                  | go_on ↦ send_all reply send mode rs w'
                  | return ↦ (ok tt, w')
                  | fail e ↦ (err e, w')
                ])).1
      go (go_on, w') a rest =
          let b = rest w' in
          record {
            sompi = omega (arith, a.sompi, b.sompi);
            sends = omega (arith, a.sends, b.sends);
          }
      go (return, w') a rest = record {
        sompi = omega (arith, a.sompi);
        sends = omega (arith, a.sends);
      }
      go (fail e, w') a rest = record {
        sompi = omega (arith, a.sompi);
        sends = omega (arith, a.sends);
      }
