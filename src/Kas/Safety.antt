-- ===== src/Kas/Safety.antt =====
-- payout-kas/src/execute.rs: for each payout, at most one transaction submitted pays it. What is kept:
-- the submissions that pay it and its planned rows are one at most.
pub mod Broadcasts
pub mod Confirms
pub mod Gathers
pub mod Cycles
pub mod Plans
pub mod Loads
pub mod Ticks
use zkas_pool.Base.{
  ℕ, suc, ◌+◌, ◌≤◌, ◌≡◌, refl, ap, ◌∙◌, sym, subst, Bool, true, false, List, [], ◌∷◌, ◌++◌, Option,
  none, some, ◌==◌, ==→eq, if◌then◌else◌, arith, sum_by, sum_by-append, inl, inr, Bool-cases,
  retain,
}
use zkas_pool.Base.Int.{pos, negsuc}
use zkas_pool.Base.Results.{Result, ok, err}
use zkas_pool.Base.Table.{bytes_key, lookup, insert, remove, same_bytes, same_bytes_sound}
use zkas_pool.Base.Decimal.{to_decimal, to_decimal-inj}
use zkas_pool.Zkas.Db.{Store, Payout, PayoutStatus, is_planned, update, submit}
use zkas_pool.Zkas.Safety.{mine, planned_rows}
use zkas_pool.StorageMass.Mass.{PayoutRecipient, PlannedBatch, Script}
use zkas_pool.Kas.World.{ExecuteError, Submission, World, Step, After}
use zkas_pool.Kas.Broadcast.{Ids, rows_of, mark_submitted, pending}

module _ (i : ℕ) where
  abbrev pub hits : List ℕ → ℕ
  hits ids = sum_by (mine i) ids

  -- The submissions that pay the payout, each as often as it does.
  abbrev pub paid : List Submission → ℕ
  paid log = sum_by (λ s. hits s.ids) log

  pub record Safe (w : World) : Type 0 where
    pub once : paid w.log + planned_rows i w.store.payouts ≤ 1
    pub fresh : w.store.next_payout ≤ i → paid w.log + planned_rows i w.store.payouts ≡ 0

  -- The recipient's row, by the table of ids
  abbrev pub aim : Ids → PayoutRecipient → ℕ
  aim by_id r = elim (lookup bytes_key r.id by_id) [ none ↦ 0 | some k ↦ mine i k ]

  rows_of-hits :
      (by_id : Ids) (rs : List PayoutRecipient) {ids : List ℕ}
      → rows_of by_id rs ≡ ok ids
      → hits ids ≡ sum_by (aim by_id) rs
  unfolding rows_of
  rows_of-hits by_id [] h = ground arith
  rows_of-hits by_id (r ∷ rs) {ids} h =
      split (lookup bytes_key r.id by_id) (rows_of by_id rs)
        (λ ks e. rows_of-hits by_id rs {ids = ks} e) h
    where
      split :
          (o : Option ℕ) (m : Result ExecuteError (List ℕ))
          → ((ks : List ℕ) → m ≡ ok ks → hits ks ≡ sum_by (aim by_id) rs)
          → (elim o [
            | none ↦ err (ExecuteError.unknown_recipient r.id)
            | some k ↦ elim m [ err e ↦ err e | ok ks ↦ ok (k ∷ ks) ]
          ])
            ≡ ok ids
          → hits ids ≡ (elim o [ none ↦ 0 | some k ↦ mine i k ]) + sum_by (aim by_id) rs
      split none m ih e = cc
      split (some k) (err x) ih e = cc
      split (some k) (ok ks) ih e = ground (arith, ih ks refl)

  submit-planned :
      (txid k : ℕ) (ps : List Payout)
      → planned_rows i (update k (submit txid) ps) + (if k == i then planned_rows i ps else 0)
        ≤ planned_rows i ps
  unfolding update submit
  submit-planned txid k [] = ground arith
  submit-planned txid k (p ∷ ps) = ground (arith, submit-planned txid k ps)

  -- Marked rows of the payout are no longer planned.
  pub mark_submitted-planned :
      (txid : ℕ) (ks : List ℕ) (ps : List Payout)
      → (planned_rows i (mark_submitted txid ks ps) ≤ planned_rows i ps)
        × (1 ≤ hits ks → planned_rows i (mark_submitted txid ks ps) ≡ 0)
  unfolding mark_submitted
  mark_submitted-planned txid [] ps = (omega arith, λ h. absurd (omega arith))
  mark_submitted-planned txid (k ∷ ks) ps =
      let (le, gone) = mark_submitted-planned txid ks (update k (submit txid) ps) in
      let one = submit-planned txid k ps in
      (ground (arith, le, one), λ h. ground (arith, le, one, gone))
