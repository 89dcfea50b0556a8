-- ===== src/Accountant/Engine/Sums.antt =====
-- accountant/src/allocation.rs: the sums that each step of an allocation carries over.
use zkas_pool.Base.{
  Bool, ℕ, zero, suc, ◌+◌, ◌≤◌, ◌≡◌, refl, ap, ◌∙◌, subst, List, [], ◌∷◌, Option, none, some, arith,
  length, sum_by, set, get_elem?,
}
use zkas_pool.Base.Int.{ℤ, pos, ◌+ℤ◌}
use zkas_pool.Base.Results.{ok, bind_ok, i64_max}
use zkas_pool.Base.Float.{Float}
use zkas_pool.Accountant.Fee.{WalletTier, FeeConfig, Allocation, compute_allocation}
use zkas_pool.Accountant.Fee.Bounds.{IsValid, compute_allocation_balance}
use zkas_pool.Accountant.Db.{ShareWindow, NewAllocation, Db}
use zkas_pool.Accountant.Allocation.{math, Totals, add_totals, sum_totals, award, order, saturate}
use zkas_pool.Accountant.Allocation.Grosses.{sum_ℤ, int_laws}
use zkas_pool.Accountant.Engine.{
  Call, map_err, insert_batch, new_rows, tier_of, tiers_of, allocations_of,
}
use zkas_pool.Accountant.Engine.Steps.{map_err_ok}

abbrev pub fee_of : Allocation → ℕ
fee_of a = a.pool_fee_sompi

abbrev pub rebate_of : Allocation → ℕ
rebate_of a = a.nacho_accrual_sompi

abbrev pub net_of : Allocation → ℕ
net_of a = a.net_payout_sompi

abbrev pub gross_of : Allocation → ℕ
gross_of a = a.gross_sompi

length-set {ℓ} : {A : Type ℓ} (xs : List A) (i : ℕ) (v : A) → length (set xs i v) ≡ length xs
length-set [] i v = refl
length-set (x ∷ xs) zero v = refl
length-set (x ∷ xs) (suc i) v = ap suc (length-set xs i v)

-- Without saturation the totals are the sums.
pub sum_totals-sums :
    (t : Totals) (as' : List Allocation)
    → t.pool_fee + sum_by fee_of as' ≤ i64_max
    → t.nacho + sum_by rebate_of as' ≤ i64_max
    → t.net + sum_by net_of as' ≤ i64_max
    → sum_totals t as' ≡ record {
      pool_fee = t.pool_fee + sum_by fee_of as';
      nacho = t.nacho + sum_by rebate_of as';
      net = t.net + sum_by net_of as';
    }
unfolding sum_totals
sum_totals-sums t [] f r n = ground arith
sum_totals-sums t (a ∷ as') f r n =
    sum_totals-sums (add_totals t a) as' (ground arith) (ground arith) (ground arith) ∙ ground arith

-- One more gross, and its allocation.
cons_sums :
    (g : ℤ) (gs : List ℤ) (a : Allocation) (as' : List Allocation)
    → g ≡ pos a.gross_sompi
    → sum_ℤ gs ≡ pos (sum_by gross_of as')
    → sum_ℤ (g ∷ gs) ≡ pos (sum_by gross_of (a ∷ as'))
cons_sums g gs a as' p q = rw (p, q) (omega int_laws)

module _ (fl : Float) (cfg : FeeConfig) (classify : List ℕ → Option WalletTier)
    (answered : Call → Bool) where
  open fl use {F}

  abbrev pub row_credit : ℕ × NewAllocation F → ℕ
  row_credit (id, r) = r.pool_fee_sompi + r.nacho_accrual_sompi + r.net_payout_sompi

  pub tiers_of-length :
      (db : Db F) (ws : List (ShareWindow F)) {ts : List WalletTier}
      → tiers_of fl cfg classify answered db ws ≡ ok ts
      → length ts ≡ length ws
  unfolding tiers_of
  tiers_of-length db [] h = ground arith
  tiers_of-length db (w ∷ ws) {ts} h =
      let (t, _, k) = bind_ok (tier_of fl cfg classify answered db w.wallet_id) _ h in
      let (rest, e, k') = bind_ok (tiers_of fl cfg classify answered db ws) _ k in
      let ih = tiers_of-length db ws {ts = rest} e in ground (arith, ih, k')

  pub award-length :
      (ws : List (ShareWindow F)) (z : ℤ) (gs : List ℤ) → length (award fl ws z gs) ≡ length gs
  unfolding award
  award-length ws z gs = at (order fl ws)
    where
      write :
          (first : ℕ) (slot : Option ℤ)
          → length (elim slot [ none ↦ gs | some g ↦ set gs first (saturate (g +ℤ z)) ]) ≡ length gs
      write first none = refl
      write first (some g) = length-set gs first _

      at :
          (is : List ℕ)
          → length (elim is [
            | [] ↦ gs
            | first ∷ rest ↦ elim (get_elem? gs first) [
              | none ↦ gs
              | some slot ↦ set gs first (saturate (slot +ℤ z))
            ]
          ])
            ≡ length gs
      at [] = refl
      at (first ∷ rest) = write first (get_elem? gs first)

  -- Each gross is one allocation that balances.
  pub allocations_of-sums :
      (gs : List ℤ) (ts : List WalletTier) {as' : List Allocation}
      → IsValid cfg
      → length ts ≡ length gs
      → allocations_of fl cfg classify answered gs ts ≡ ok as'
      → (length as' ≡ length gs)
        × (sum_ℤ gs ≡ pos (sum_by gross_of as'))
        × (sum_by fee_of as' + sum_by rebate_of as' + sum_by net_of as' ≡ sum_by gross_of as')
  unfolding allocations_of
  allocations_of-sums [] [] v l h = ground arith
  allocations_of-sums [] (t ∷ ts) v l h = absurd (omega arith)
  allocations_of-sums (g ∷ gs) [] v l h = absurd (omega arith)
  allocations_of-sums (g ∷ gs) (t ∷ ts) {as'} v l h =
      let (a, e, k) = bind_ok (map_err math (compute_allocation cfg g t)) _ h in
      let (rest, e', k') = bind_ok (allocations_of fl cfg classify answered gs ts) _ k in
      let b = compute_allocation_balance cfg g t {a = a} v (map_err_ok math _ e) in
      let ih = allocations_of-sums gs ts {as' = rest} v (omega arith) e' in
      let same : a ∷ rest ≡ as' = cc in
      subst
        (λ all.
          (length all ≡ suc (length gs))
          × (sum_ℤ (g ∷ gs) ≡ pos (sum_by gross_of all))
          × (sum_by fee_of all + sum_by rebate_of all + sum_by net_of all ≡ sum_by gross_of all))
        same (omega (arith, ih.0), cons_sums g gs a rest b.0 ih.1, omega (arith, b.1, ih.2))

  pub new_rows-credit :
      (total : F) (ws : List (ShareWindow F)) (as' : List Allocation)
      → length as' ≡ length ws
      → sum_by (λ r. row_credit (0, r)) (new_rows fl total ws as')
        ≡ sum_by fee_of as' + sum_by rebate_of as' + sum_by net_of as'
  unfolding new_rows
  new_rows-credit total [] [] l = omega arith
  new_rows-credit total [] (a ∷ as') l = absurd (omega arith)
  new_rows-credit total (w ∷ ws) [] l = absurd (omega arith)
  new_rows-credit total (w ∷ ws) (a ∷ as') l =
      omega (arith, new_rows-credit total ws as' (omega arith))

  pub insert_batch-credit :
      (id : ℕ) (rows : List (NewAllocation F)) (table : List (ℕ × NewAllocation F))
      {table' : List (ℕ × NewAllocation F)}
      → insert_batch fl id rows table ≡ ok table'
      → sum_by row_credit table' ≡ sum_by row_credit table + sum_by (λ r. row_credit (0, r)) rows
  unfolding insert_batch
  insert_batch-credit id [] table h = ground arith
  insert_batch-credit id (r ∷ rs) table {table'} h =
      ground (arith, insert_batch-credit id rs ((id, r) ∷ table) {table' = table'})
