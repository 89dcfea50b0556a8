-- ===== src/Bridge/Jobs.antt =====
-- bridge/src/mining_state.rs: the bounded ring of the jobs sent on a connection. The types of a job
-- and of a difficulty come from the node's library and from hasher.rs, and are parameters; a call
-- holds the locks that it needs, so the calls of a connection come one after the other.
pub mod Ring
pub mod Latest
use zkas_pool.Base.{
  ℕ, suc, ◌+◌, ◌%◌, ◌≤◌, ◌≡◌, Bool, true, false, List, [], ◌∷◌, Option, none, some, ◌==◌, max,
  if◌then◌else◌, map,
}
use zkas_pool.Base.Results.{Result, ok, err, ◌>>=◌, Panic, add_checked, u64_max}
use zkas_pool.Base.Table.{number_key, lookup, remove, insert}

abbrev pub max_jobs : ℕ
max_jobs = 300

pub record MiningState (J D : Type 0) : Type 0 where
  pub jobs : List (ℕ × J)
  -- The job's id, by slot
  pub job_ids : List (ℕ × ℕ)
  pub job_diffs : List (ℕ × D)
  pub job_counter : ℕ
  pub stratum_diff : Option D

-- The difficulty of the slot: that of the connection, or nothing
abbrev pub note_diff : {D : Type 0} → ℕ → Option D → List (ℕ × D) → List (ℕ × D)
note_diff slot (some d) diffs = insert number_key slot d diffs
note_diff slot none diffs = remove number_key slot diffs

-- Whether the slot of an id holds the id
abbrev pub is_held : ℕ → Option ℕ → Bool
is_held id none = false
is_held id (some held) = held == id

-- `max()` of the stored ids
unfoldable pub greatest : List (ℕ × ℕ) → Option ℕ
greatest [] = none
greatest ((slot, id) ∷ ids) = elim (greatest ids) [ none ↦ some id | some m ↦ some (max id m) ]

-- What happens to the state of a connection
pub data Event (J D : Type 0) : Type 0 where
  added : J → Event J D
  retargeted : D → Event J D

module _ {J D : Type 0} where
  abbrev pub new : MiningState J D
  new = record { jobs = []; job_ids = []; job_diffs = []; job_counter = 0; stratum_diff = none }

  abbrev pub stored : J → ℕ → MiningState J D → MiningState J D
  stored job idx s = record s {
    jobs = insert number_key (idx % max_jobs) job s.jobs;
    job_ids = insert number_key (idx % max_jobs) idx s.job_ids;
    job_diffs = note_diff (idx % max_jobs) s.stratum_diff s.job_diffs;
    job_counter = idx;
  }

  unfoldable pub add_job : J → MiningState J D → Result Panic (ℕ × MiningState J D)
  unfolding insert remove
  add_job job s = add_checked u64_max s.job_counter 1 >>= λ idx. ok (idx, stored job idx s)

  unfoldable pub get_job : ℕ → MiningState J D → Option J
  unfolding lookup
  get_job id s =
      if is_held id (lookup number_key (id % max_jobs) s.job_ids)
      then lookup number_key (id % max_jobs) s.jobs
      else none

  unfoldable pub get_job_diff : ℕ → MiningState J D → Option D
  unfolding lookup
  get_job_diff id s =
      if is_held id (lookup number_key (id % max_jobs) s.job_ids)
      then lookup number_key (id % max_jobs) s.job_diffs
      else none

  abbrev pub set_stratum_diff : D → MiningState J D → MiningState J D
  set_stratum_diff d s = record s { stratum_diff = some d }

  unfoldable pub latest_job : MiningState J D → Option (ℕ × J)
  unfolding greatest get_job
  latest_job s = elim (greatest s.job_ids) [
    | none ↦ none
    | some id ↦ elim (get_job id s) [ none ↦ none | some job ↦ some (id, job) ]
  ]

  unfoldable pub run : List (Event J D) → MiningState J D → Result Panic (MiningState J D)
  unfolding add_job
  run [] s = ok s
  run (added job ∷ events) s = add_job job s >>= λ (idx, s'). run events s'
  run (retargeted d ∷ events) s = run events (set_stratum_diff d s)

  abbrev pub additions : List (Event J D) → ℕ
  additions [] = 0
  additions (added job ∷ events) = additions events + 1
  additions (retargeted d ∷ events) = additions events
