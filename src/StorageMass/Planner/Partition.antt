-- ===== src/StorageMass/Planner/Partition.antt =====
-- planner.rs, `plan_batches`: each recipient is in one batch, deferred or left unpaid, and the loop
-- ends.
use mathlib.Core.List.{append_assoc, append-nil, Perm, perm_middle}
use mathlib.Core.List.Perm
use zkas_pool.Base.{
  ℕ, zero, suc, ◌≤◌, ◌<◌, ◌≡◌, ◌≢◌, sym, ap, ◌∙◌, Bool, true, false, List, [], ◌∷◌, ◌++◌, Option,
  none, some, arith, length, retain, length-retain-le, All,
}
use zkas_pool.Base.Results.{Result, Panic, ok, err, OnOk}
use zkas_pool.Base.Distinct.{Distinct, Sub, keep, skip, retain-false}
use zkas_pool.Base.Float.{Float}
use zkas_pool.StorageMass.Mass.{Script, PayoutRecipient, PlannedBatch, MassEvaluator}
use zkas_pool.StorageMass.Fee.{FeeRate}
use zkas_pool.StorageMass.Planner.{
  Parts, place, id_of, is_payable, partition_by_floor, PlanState, commit_batch, is_done,
  build_one_batch, plan_loop,
}
use zkas_pool.StorageMass.Planner.Batches.{Built, build_one_batch-Built}

-- The recipients that the batches pay.
abbrev pub paid_of : List PlannedBatch → List PayoutRecipient
paid_of [] = []
paid_of (b ∷ bs) = b.payouts ++ paid_of bs

pub paid_of-snoc :
    (bs : List PlannedBatch) (b : PlannedBatch) → paid_of (bs ++ b ∷ []) ≡ paid_of bs ++ b.payouts
paid_of-snoc [] b = append-nil b.payouts
paid_of-snoc (c ∷ bs) b =
    ap (λ (t : List PayoutRecipient). c.payouts ++ t) (paid_of-snoc bs b)
    ∙ sym (append_assoc c.payouts (paid_of bs) b.payouts)

place-perm :
    (r : PayoutRecipient) (b : Bool) (parts : Parts) {rs : List PayoutRecipient}
    → Perm (parts.0 ++ parts.1) rs
    → Perm ((place r b parts).0 ++ (place r b parts).1) (r ∷ rs)
unfolding place
place-perm r true parts h = Perm.cons r h
place-perm r false parts h = Perm.trans (perm_middle parts.0 parts.1) (Perm.cons r h)

pub partition-perm :
    (rs : List PayoutRecipient) → Perm ((partition_by_floor rs).0 ++ (partition_by_floor rs).1) rs
unfolding partition_by_floor
partition-perm [] = Perm.refl _
partition-perm (r ∷ rs) = place-perm r (is_payable r) (partition_by_floor rs) (partition-perm rs)

place-All {κ} :
    (P : PayoutRecipient → Type κ) (r : PayoutRecipient) (b : Bool) (parts : Parts)
    → P r
    → All P parts.0
    → All P (place r b parts).0
unfolding place
place-All P r true parts p h = (p, h)
place-All P r false parts p h = h

pub partition-All {κ} :
    (P : PayoutRecipient → Type κ) (rs : List PayoutRecipient)
    → All P rs
    → All P (partition_by_floor rs).0
unfolding partition_by_floor
partition-All P [] h = tt
partition-All P (r ∷ rs) h =
    place-All P r (is_payable r) (partition_by_floor rs) h.0 (partition-All P rs h.1)

place-Distinct :
    (r : PayoutRecipient) (b : Bool) (parts : Parts)
    → All (λ s. id_of r ≢ id_of s) parts.0
    → Distinct id_of parts.0
    → Distinct id_of (place r b parts).0
unfolding place
place-Distinct r true parts h d = (h, d)
place-Distinct r false parts h d = d

pub partition-Distinct :
    (rs : List PayoutRecipient) → Distinct id_of rs → Distinct id_of (partition_by_floor rs).0
unfolding partition_by_floor
partition-Distinct [] d = tt
partition-Distinct (r ∷ rs) d =
    place-Distinct r (is_payable r) (partition_by_floor rs)
      (partition-All (λ s. id_of r ≢ id_of s) rs d.0) (partition-Distinct rs d.1)

pub partition-length : (rs : List PayoutRecipient) → length (partition_by_floor rs).0 ≤ length rs
unfolding partition_by_floor
partition-length [] = omega arith
partition-length (r ∷ rs) = ground (arith, partition-length rs)

-- Something is removed.
pub length-retain-lt :
    {A : Type 0} (p : A → Bool) (y : A) {ys xs : List A}
    → Sub (y ∷ ys) xs
    → p y ≡ false
    → length (retain p xs) < length xs
length-retain-lt p y (keep x {ys} {xs} s) e =
    rw (retain-false p y xs e) (omega (arith, length-retain-le p xs))
length-retain-lt p y (skip x {ys} {xs} s) e = split (length-retain-lt p y s e) (p x)
  where
    split :
        length (retain p xs) < length xs
        → (b : Bool)
        → length (elim b [ true ↦ x ∷ retain p xs | false ↦ retain p xs ]) < length (x ∷ xs)
    split ih true = omega arith
    split ih false = omega arith

module _ (fl : Float) (ev : MassEvaluator) (script : Script) (rate : FeeRate fl) where
  -- The loop ran out of fuel or panicked, or the property holds where it ended.
  abbrev pub AtEnd {κ} : (PlanState → Type κ) → Option (Result Panic PlanState) → Type κ
  AtEnd P none = Unit
  AtEnd P (some (err p)) = Unit
  AtEnd P (some (ok s)) = P s

  -- A property that each committed batch keeps holds at the end.
  pub plan_loop-AtEnd {κ} :
      (P : PlanState → Type κ)
      → ((s : PlanState) (b : PlannedBatch)
          → P s
          → Built fl ev script rate s.utxos s.payable (some b)
          → P (commit_batch script s b))
      → (fuel : ℕ) (s : PlanState) → P s
      → AtEnd P (plan_loop fl ev script rate fuel s)
  unfolding plan_loop
  plan_loop-AtEnd P step zero s h = tt
  plan_loop-AtEnd P step (suc fuel) s h =
      split (plan_loop-AtEnd P step fuel) (is_done s)
        (build_one_batch fl ev script rate s.utxos s.payable)
        (build_one_batch-Built fl ev script rate s.utxos s.payable)
    where
      split :
          ((t : PlanState) → P t → AtEnd P (plan_loop fl ev script rate fuel t))
          → (over : Bool) → (m : Result Panic (Option PlannedBatch))
          → OnOk (Built fl ev script rate s.utxos s.payable) m
          → AtEnd P (elim over [
            | true ↦ some (ok s)
            | false ↦ elim m [
              | err p ↦ some (err p)
              | ok none ↦ some (ok s)
              | ok (some batch) ↦ plan_loop fl ev script rate fuel (commit_batch script s batch)
            ]
          ])
      split ih true m b = h
      split ih false (err p) b = tt
      split ih false (ok none) b = h
      split ih false (ok (some batch)) b = ih (commit_batch script s batch) (step s batch h b)
