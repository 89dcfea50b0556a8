-- ===== src/Kas/Safety/Gathers.antt =====
-- payout-kas/src/execute.rs: what `broadcast_cycle` gathers of the rows that are planned.
use zkas_pool.Kas.Safety.{Safe, aim}
use zkas_pool.Kas.Safety.Broadcasts.{Named, Named-insert, aim-le}
use zkas_pool.Base.{ℕ, suc, ◌≤◌, ◌≡◌, refl, List, [], ◌∷◌, Option, arith, sum_by}
use zkas_pool.Base.Table.{bytes_key, insert}
use zkas_pool.Base.Decimal.{to_decimal}
use zkas_pool.Zkas.Db.{Payout, address_of}
use zkas_pool.Zkas.World.{Reply}
use zkas_pool.Zkas.Safety.{mine}
use zkas_pool.StorageMass.Mass.{Script, PayoutRecipient}
use zkas_pool.Kas.World.{
  recipient_address, db, World, known, query, After, After-and_then, After-query, After-known,
}
use zkas_pool.Kas.Broadcast.{Ids, to_u64, found_or, gather}

-- The store and the log are as they were.
pub record Still (before w : World) : Type 0 where
  pub same_store : w.store ≡ before.store
  pub same_log : w.log ≡ before.log

pub Still-calls :
    (before w : World) (n : ℕ) → Still before w → Still before (record w { calls = n })
Still-calls before w n h = record { same_store = h.same_store; same_log = h.same_log }

module _ (i : ℕ) where
  rows : List Payout → ℕ
  rows ps = sum_by (λ p. mine i p.id) ps

  pub Still-Safe : (before w : World) → Still before w → Safe i before → Safe i w
  Still-Safe before w h s = record {
    once = rw (h.same_store, h.same_log) s.once;
    fresh = rw (h.same_store, h.same_log) s.fresh;
  }

  -- The recipients aim at the payout no more often than their rows are it.
  pub record Gathered (ps : List Payout) (before : World) (g : Ids × List PayoutRecipient)
      (w : World) : Type 0 where
    pub still : Still before w
    pub named : Named g.0
    pub few : (t : Ids) → Named t → sum_by (aim i t) g.1 ≤ sum_by (λ p. mine i p.id) ps

  module _ (reply : ℕ → Reply) (parse_address : List ℕ → Option Script) where
    pub gather-Gathered :
        (ps : List Payout) (by_id : Ids) (before w : World)
        → Named by_id
        → Still before w
        → After (Gathered ps before) (Still before) (gather reply parse_address by_id ps w)
    unfolding gather
    gather-Gathered [] by_id before w n s = record {
      still = s;
      named = n;
      few = λ t _. omega arith;
    }
    gather-Gathered (p ∷ ps) by_id before w n s =
        let E = Still before in
        let Q = Gathered (p ∷ ps) before in
        After-and_then (λ _. E) Q E (known (to_u64 p) w) _
          (After-known (λ _. E) E (to_u64 p) w (λ _. s) s)
          λ amount w1 s1.
            After-and_then (λ _. E) Q E (query reply w1) _
              (After-query E E reply w1 (Still-calls before w1 (suc w1.calls) s1)
                (Still-calls before w1 (suc w1.calls) s1))
              λ _ w2 s2.
                After-and_then (λ _. E) Q E
                  (known (found_or db (address_of p.wallet_id w2.store.wallets)) w2) _
                  (After-known (λ _. E) E (found_or db (address_of p.wallet_id w2.store.wallets)) w2
                    (λ _. s2) s2)
                  λ address w3 s3.
                    After-and_then (λ _. E) Q E
                      (known (found_or (recipient_address p.wallet_id) (parse_address address)) w3)
                      _
                      (After-known (λ _. E) E
                        (found_or (recipient_address p.wallet_id) (parse_address address)) w3
                        (λ _. s3) s3)
                      λ script w4 s4.
                        After-and_then (Gathered ps before) Q E
                          (gather reply parse_address
                            (insert bytes_key (to_decimal p.id) p.id by_id) ps w4)
                          _
                          (gather-Gathered ps (insert bytes_key (to_decimal p.id) p.id by_id) before
                            w4 (Named-insert p.id by_id n) s4)
                          λ g w5 r. record {
                            still = r.still;
                            named = r.named;
                            few = λ t m. omega (
                              arith,
                              r.few t m,
                              aim-le i t
                                  (record {
                                    id = to_decimal p.id;
                                    amount_sompi = amount;
                                    script_public_key = script;
                                  })
                                  p.id m refl,
                            );
                          }
