-- ===== src/Bridge/Jobs/Latest.antt =====
-- The newest job of a connection.
use zkas_pool.Base.{
  ℕ, ◌+◌, ◌%◌, ◌≤◌, ◌≡◌, refl, sym, ap, subst, ◌⊎◌, inl, inr, Bool, true, false, List, [], ◌∷◌,
  none, some, ◌==◌, max, if◌then◌else◌, arith, All,
}
use zkas_pool.Base.Results.{ok}
use zkas_pool.Base.Table.{number_key, remove, insert}
use zkas_pool.Bridge.Jobs.{MiningState, stored, add_job, greatest, latest_job}
use zkas_pool.Bridge.Jobs.Ring.{add_job_lem, get_job-stored}

-- No stored id is past the counter.
abbrev pub Bounded : {J D : Type 0} → MiningState J D → Type 0
Bounded s = All (λ e. e.1 ≤ s.job_counter) s.job_ids

greatest_le :
    (n : ℕ) (ids : List (ℕ × ℕ))
    → All (λ e. e.1 ≤ n) ids
    → (greatest ids ≡ none) ⊎ ((m : ℕ) × (greatest ids ≡ some m) × (m ≤ n))
unfolding greatest
greatest_le n [] h = inl refl
greatest_le n ((slot, id) ∷ ids) h = elim (greatest_le n ids h.1) [
  | inl e ↦ inr (id, rw (e, greatest) refl, h.0)
  | inr (m, e, le) ↦ inr (max id m, rw (e, greatest) refl, omega (arith, le, h.0))
]

remove_le :
    (n k : ℕ) (ids : List (ℕ × ℕ))
    → All (λ e. e.1 ≤ n) ids
    → All (λ e. e.1 ≤ n + 1) (remove number_key k ids)
unfolding remove
remove_le n k [] h = tt
remove_le n k ((slot, id) ∷ ids) h = go (slot == k) (remove_le n k ids h.1)
  where
    go :
        (b : Bool)
        → All (λ e. e.1 ≤ n + 1) (remove number_key k ids)
        → All
            (λ e. e.1 ≤ n + 1)
            (if b then remove number_key k ids else (slot, id) ∷ remove number_key k ids)
    go true r = r
    go false r = (omega (arith, h.0), r)

remove_lt :
    (n k : ℕ) (ids : List (ℕ × ℕ))
    → All (λ e. e.1 ≤ n) ids
    → All (λ e. e.1 ≤ n) (remove number_key k ids)
unfolding remove
remove_lt n k [] h = tt
remove_lt n k ((slot, id) ∷ ids) h = go (slot == k) (remove_lt n k ids h.1)
  where
    go :
        (b : Bool)
        → All (λ e. e.1 ≤ n) (remove number_key k ids)
        → All
            (λ e. e.1 ≤ n)
            (if b then remove number_key k ids else (slot, id) ∷ remove number_key k ids)
    go true r = r
    go false r = (h.0, r)

greatest-insert :
    (n k : ℕ) (ids : List (ℕ × ℕ))
    → All (λ e. e.1 ≤ n) ids
    → greatest (insert number_key k (n + 1) ids) ≡ some (n + 1)
unfolding greatest insert
greatest-insert n k ids h = elim (greatest_le n (remove number_key k ids) (remove_lt n k ids h)) [
  | inl e ↦ rw (e, greatest) refl
  | inr (m, e, le) ↦ rw (e, greatest) (ap some (omega (arith, le)))
]

module _ {J D : Type 0} where
  stored_latest :
      (job : J) (s : MiningState J D)
      → Bounded s
      → latest_job (stored job (s.job_counter + 1) s) ≡ some (s.job_counter + 1, job)
  unfolding latest_job
  stored_latest job s h =
      rw (greatest-insert s.job_counter ((s.job_counter + 1) % 300) s.job_ids h, latest_job)
        (rw (get_job-stored job (s.job_counter + 1) s) refl)

  -- A job that `add_job` stores is the newest of the connection, with the id it got, and the stored
  -- ids stay within the counter, where they were so before.
  pub add_job-latest_job :
      (job : J) (s : MiningState J D) {id : ℕ} {s' : MiningState J D}
      → Bounded s
      → add_job job s ≡ ok (id, s')
      → (latest_job s' ≡ some (id, job)) × Bounded s'
  unfolding insert
  add_job-latest_job job s {id} {s'} h e =
      subst (λ r. (latest_job r.1 ≡ some (r.0, job)) × Bounded r.1) (sym (add_job_lem job s e))
        (
          stored_latest job s h,
          (omega arith, remove_le s.job_counter ((s.job_counter + 1) % 300) s.job_ids h),
        )
