-- ===== src/Zkas/Safety/Plans.antt =====
-- A plan keeps the invariant: a new payout takes an id that no call of the sender has seen.
use zkas_pool.Zkas.Safety.{mine, planned_rows, is_latched}
use zkas_pool.Base.{
  ℕ, suc, ◌+◌, ◌≤◌, ◌≡◌, List, [], ◌∷◌, ◌++◌, none, if◌then◌else◌, arith, sum_by-append,
}
use zkas_pool.Base.Int.{ℤ}
use zkas_pool.Zkas.Db.{Store, Payout, PayoutStatus, is_planned}
use zkas_pool.Zkas.Plan.Keeps.{Closed}
use zkas_pool.Zkas.Plan.{insert_row}

-- The invariant of a store, for a log with `n` calls taken to have paid payout `i`.
pub record SafeStore (i n : ℕ) (s : Store) : Type 0 where
  pub once : n + (if is_latched i s.inflight then 0 else planned_rows i s.payouts) ≤ 1
  pub fresh : s.next_payout ≤ i → n + planned_rows i s.payouts ≡ 0

module _ (i n : ℕ) where
  bump-Safe :
      (s : Store) → SafeStore i n s → SafeStore i n (record s { next_payout = suc s.next_payout })
  bump-Safe s h = record { once = h.once; fresh = λ le. h.fresh (omega (arith, le)) }

  pub planned_rows-snoc :
      (ps : List Payout) (p : Payout)
      → planned_rows i (ps ++ p ∷ [])
        ≡ planned_rows i ps + (if is_planned p.status then mine i p.id else 0)
  planned_rows-snoc ps p =
      omega (arith, sum_by-append (λ p. if is_planned p.status then mine i p.id else 0) ps (p ∷ []))

  insert_row-Safe :
      (cycle wallet : ℕ) (amount : ℤ) (s : Store)
      → SafeStore i n s
      → SafeStore i n (insert_row cycle wallet amount s)
  insert_row-Safe cycle wallet amount s h = record {
    once = ground (arith, grown, h.once, h.fresh);
    fresh = λ le. ground (arith, grown, le, h.fresh);
  }
    where
      grown :
          planned_rows i (insert_row cycle wallet amount s).payouts
          ≡ planned_rows i s.payouts + mine i s.next_payout
      grown = omega (
        arith,
        planned_rows-snoc s.payouts (record {
          id = s.next_payout;
          cycle_id = cycle;
          wallet_id = wallet;
          amount_sompi = amount;
          status = PayoutStatus.planned;
          tx_hash = none;
          accepted_daa_score = none;
        }),
      )

  pub SafeStore-Closed : Closed (SafeStore i n)
  SafeStore-Closed = record {
    inserted = insert_row-Safe;
    drawn = bump-Safe;
    cycled = λ s cs k h. record { once = h.once; fresh = h.fresh };
  }
