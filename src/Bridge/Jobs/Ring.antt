-- ===== src/Bridge/Jobs/Ring.antt =====
-- A lookup by id finds the job of that id or nothing.
use zkas_pool.Base.{
  ℕ, ◌+◌, ◌%◌, ◌≤◌, ◌<◌, ◌≡◌, sym, ap, leb, subst, ◌∙◌, ◌⊎◌, inl, inr, false, List, [], ◌∷◌, Option,
  none, some, ◌==◌, if◌then◌else◌, arith, Bool-cases, ltb, ltb→lt, ltb→ge, ==→eq,
}
use zkas_pool.Base.Results.{ok, add_checked, u64_max, ok_inj, bind_ok}
use zkas_pool.Base.Table.{
  number_key, lookup, insert, lookup-insert, lookup-insert_other, lookup-remove,
  lookup-remove_other,
}
use zkas_pool.Bridge.Jobs.{
  max_jobs, MiningState, note_diff, stored, add_job, get_job, get_job_diff, set_stratum_diff, Event,
  added, retargeted, run, additions,
}

-- The slots of two ids whose distance is positive and under the size of the ring are two.
slots_differ : (id k : ℕ) → k < 299 → ((id + k + 1) % 300 == id % 300) ≡ false
slots_differ id k h = ground arith

note_diff_self :
    {D : Type 0}
    → (slot : ℕ) (d : Option D) (diffs : List (ℕ × D))
    → lookup number_key slot (note_diff slot d diffs) ≡ d
note_diff_self slot none diffs = lookup-remove number_key slot diffs
note_diff_self slot (some d) diffs = lookup-insert number_key slot d diffs

note_diff-other :
    {D : Type 0}
    → (slot j : ℕ) (d : Option D) (diffs : List (ℕ × D)) → (slot == j) ≡ false
    → lookup number_key j (note_diff slot d diffs) ≡ lookup number_key j diffs
note_diff-other slot j none diffs h = lookup-remove_other number_key slot j diffs h
note_diff-other slot j (some d) diffs h = lookup-insert_other number_key slot j d diffs h

lookup_at :
    {V : Type 0}
    → (slot j : ℕ) (v : V) (m : List (ℕ × V)) → slot ≡ j
    → lookup number_key j (insert number_key slot v m) ≡ some v
lookup_at slot j v m e =
    subst (λ i. lookup number_key i (insert number_key slot v m) ≡ some v) e
      (lookup-insert number_key slot v m)

module _ {J D : Type 0} where
  -- `id` was given to `job` under `diff`, and `k` jobs came after it.
  record Since (id : ℕ) (job : J) (diff : Option D) (k : ℕ) (s : MiningState J D) : Type 0 where
    counter : s.job_counter ≡ id + k
    kept :
        ((k < max_jobs)
          × (lookup number_key (id % max_jobs) s.job_ids ≡ some id)
          × (lookup number_key (id % max_jobs) s.jobs ≡ some job)
          × (lookup number_key (id % max_jobs) s.job_diffs ≡ diff))
        ⊎ ((max_jobs ≤ k)
            × ((later : ℕ) × (lookup number_key (id % max_jobs) s.job_ids ≡ some later)
                × (id < later)))

  stored-Since :
      (id : ℕ) (job next : J) (diff : Option D) (k : ℕ) (s : MiningState J D)
      → Since id job diff k s
      → Since id job diff (k + 1) (stored next (s.job_counter + 1) s)
  stored-Since id job next diff k s h = record {
    counter = omega (arith, h.counter);
    kept = elim h.kept [
      | inl (few, ids, js, ds) ↦ elim (Bool-cases (ltb k 299)) [
        | inl e ↦
            let apart : ((s.job_counter + 1) % 300 == id % 300) ≡ false =
              rw h.counter (slots_differ id k (ltb→lt k 299 e)) in
            inl (
              omega (arith, ltb→lt k 299 e),
              lookup-insert_other number_key ((s.job_counter + 1) % 300) (id % 300) _ s.job_ids
                    apart
                  ∙ ids,
              lookup-insert_other number_key ((s.job_counter + 1) % 300) (id % 300) next s.jobs
                    apart
                  ∙ js,
              note_diff-other ((s.job_counter + 1) % 300) (id % 300) s.stratum_diff s.job_diffs
                    apart
                  ∙ ds,
            )
        | inr e ↦
            let last : k ≡ 299 = omega (arith, ltb→ge k 299 e) in
            let again : (s.job_counter + 1) % 300 ≡ id % 300 = omega (arith, h.counter, last) in
            inr (
              omega (arith, last),
              (
                s.job_counter + 1,
                lookup_at ((s.job_counter + 1) % 300) (id % 300) (s.job_counter + 1) s.job_ids
                    again,
                omega (arith, h.counter),
              ),
            )
      ]
      | inr (many, (later, ids, above)) ↦
          elim (Bool-cases ((s.job_counter + 1) % 300 == id % 300)) [
            | inl e ↦ inr (
              omega (arith, many),
              (
                s.job_counter + 1,
                lookup_at ((s.job_counter + 1) % 300) (id % 300) (s.job_counter + 1) s.job_ids
                    (==→eq _ _ e),
                omega (arith, h.counter),
              ),
            )
            | inr e ↦ inr (
              omega (arith, many),
              (
                later,
                lookup-insert_other number_key ((s.job_counter + 1) % 300) (id % 300)
                      (s.job_counter + 1) s.job_ids e
                    ∙ ids,
                above,
              ),
            )
          ]
    ];
  }

  -- The state right after `id` was given out.
  stored-fresh :
      (job : J) (idx : ℕ) (s : MiningState J D) → Since idx job s.stratum_diff 0 (stored job idx s)
  stored-fresh job idx s = record {
    counter = omega arith;
    kept = inl (
      omega arith,
      lookup-insert number_key (idx % 300) idx s.job_ids,
      lookup-insert number_key (idx % 300) job s.jobs,
      note_diff_self (idx % 300) s.stratum_diff s.job_diffs,
    );
  }

  pub add_job_lem :
      (job : J) (s : MiningState J D) {r : ℕ × MiningState J D}
      → add_job job s ≡ ok r
      → r ≡ (s.job_counter + 1, stored job (s.job_counter + 1) s)
  unfolding add_job add_checked
  add_job_lem job s {r} h = elim (Bool-cases (leb (s.job_counter + 1) u64_max)) [
    | inl e ↦ sym (ok_inj (rw (e, add_job) at h))
    | inr e ↦ cc (rw (e, add_job) at h)
  ]

  run-Since :
      (id : ℕ) (job : J) (diff : Option D) (k : ℕ) (events : List (Event J D)) (s : MiningState J D)
      {s' : MiningState J D}
      → Since id job diff k s
      → run events s ≡ ok s'
      → Since id job diff (k + additions events) s'
  unfolding run add_job add_checked
  run-Since id job diff k [] s {s'} h e =
      subst (λ n. Since id job diff n s') (omega arith) (subst (Since id job diff k) (ok_inj e) h)
  run-Since id job diff k (retargeted d ∷ events) s {s'} h e =
      run-Since id job diff k events (set_stratum_diff d s) {s' = s'}
        (record { counter = h.counter; kept = h.kept }) e
  run-Since id job diff k (added next ∷ events) s {s'} h e =
      let ((idx, after), one, rest) = bind_ok (add_job next s) (λ r. run events r.1) e in
      let same : after ≡ stored next (s.job_counter + 1) s =
        ap (λ r. r.1) (add_job_lem next s one) in
      subst (λ n. Since id job diff n s') (omega arith)
        (run-Since id job diff (k + 1) events after {s' = s'}
          (subst (Since id job diff (k + 1)) (sym same) (stored-Since id job next diff k s h)) rest)

  -- The lookups of an id that `k` jobs came after.
  Since-get_job :
      (id : ℕ) (job : J) (diff : Option D) (k : ℕ) (s : MiningState J D)
      → Since id job diff k s
      → (get_job id s ≡ (if ltb k max_jobs then some job else none))
        × (get_job_diff id s ≡ (if ltb k max_jobs then diff else none))
  unfolding get_job get_job_diff
  Since-get_job id job diff k s h = elim h.kept [
    | inl (few, ids, js, ds) ↦ ground arith
    | inr (many, (later, ids, above)) ↦ ground arith
  ]

  -- The lookups by an id that `add_job` gave out, after any events that no panic stops: the job and
  -- the difficulty of its publication while fewer than 300 jobs came after it, and nothing from then
  -- on, never the job that has its slot.
  pub add_job-get_job :
      (job : J) (events : List (Event J D)) (s s'' : MiningState J D) {id : ℕ}
      {s' : MiningState J D}
      → add_job job s ≡ ok (id, s')
      → run events s' ≡ ok s''
      → (get_job id s'' ≡ (if ltb (additions events) max_jobs then some job else none))
        × (get_job_diff id s'' ≡ (if ltb (additions events) max_jobs then s.stratum_diff else none))
  add_job-get_job job events s s'' {id} {s'} h e =
      let same = add_job_lem job s h in
      let start : Since id job s.stratum_diff 0 s' =
        subst (λ r. Since r.0 job s.stratum_diff 0 r.1) (sym same)
          (stored-fresh job (s.job_counter + 1) s) in
      let end : Since id job s.stratum_diff (0 + additions events) s'' =
        run-Since id job s.stratum_diff 0 events s' start e in
      Since-get_job id job s.stratum_diff (additions events) s''
        (subst (λ n. Since id job s.stratum_diff n s'') (omega arith) end)

  pub get_job-stored :
      (job : J) (idx : ℕ) (s : MiningState J D) → get_job idx (stored job idx s) ≡ some job
  get_job-stored job idx s =
      (Since-get_job idx job s.stratum_diff 0 (stored job idx s) (stored-fresh job idx s)).0
