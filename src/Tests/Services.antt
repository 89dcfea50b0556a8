-- ===== src/Tests/Services.antt =====
-- The claim store and the ring of jobs at concrete inputs.
use zkas_pool.Base.{
  false, ◌<◌, ◌↔◌, ℕ, ◌≡◌, ◌≤◌, ◌⊎◌, none, arith, refl, Bool, true, List, [], ◌∷◌, some,
}
use zkas_pool.Base.Results.{Result, ok, err, add_checked}
use zkas_pool.Base.Table.{bytes_key, number_key, lookup}
use zkas_pool.Tests.Floats.{fractions}
use zkas_pool.Bridge.Guard.{AntiAbuseConfig, Bucket, Guard, try_accept_connection}
use zkas_pool.Bridge.Guard.Tickets.{held, conn_count}
use zkas_pool.Bridge.Guard.Reach.{Reach, start, accepted, rejected, guard_counts}
use zkas_pool.Base.Int.{pos, negsuc}
use zkas_pool.Base.Text.{codes}
use zkas_pool.Base.Decimal.{to_decimal, digits_before}
use zkas_pool.Api.Money.{
  Text, scaled_decimal_string, kas_string, from_sompi, render, padded, trim_zeros,
}
use zkas_pool.Api.Money.Digits.{read_amount}
use zkas_pool.Api.Money.Reads.{scaled_decimal_string_round_trip}
use zkas_pool.Api.Claim.{
  Op, issue, redeem, sweep, run, redeem_at, issue_at, no_challenge, bad_signature, ClaimError,
}
use zkas_pool.Api.Claim.Uses.{redeemed_once, issue_then_redeem}
use zkas_pool.Bridge.Jobs
use zkas_pool.Bridge.Jobs.{
  MiningState, add_job, get_job, get_job_diff, latest_job, stored, added, retargeted,
}
use zkas_pool.Bridge.Jobs.Ring.{add_job-get_job}
use zkas_pool.Bridge.Jobs.Latest.{Bounded, add_job-latest_job}

abbrev signed : List ℕ → List ℕ → List ℕ → List ℕ → Bool
signed address challenge fvk sig = true

abbrev between : List Op
between = issue (6 ∷ []) (1 ∷ []) 20 ∷ sweep 30 ∷ redeem (6 ∷ []) [] [] 40 ∷ []

abbrev redeemed : Result ClaimError (List ℕ)
redeemed =
    (redeem_at bytes_key signed (5 ∷ []) [] [] 90
      (run bytes_key signed 100 between (issue_at bytes_key 100 (5 ∷ []) (77 ∷ []) 10 []))).0

issue_then_redeem_example :
    (redeemed ≡ ok (77 ∷ []) ↔ (90 < 110) × (true ≡ true))
    × (redeemed ≡ err bad_signature ↔ (90 < 110) × (true ≡ false))
    × (redeemed ≡ err no_challenge ↔ 110 ≤ 90)
issue_then_redeem_example =
    issue_then_redeem bytes_key (5 ∷ []) signed 100 (77 ∷ []) [] [] 10 90 [] between
      (refl, (omega arith, (refl, tt)))

redeemed_once_example :
    (redeem_at bytes_key signed (5 ∷ []) [] [] 60 (
      run bytes_key signed 100 between
        (redeem_at bytes_key signed
          (5 ∷ [])
          []
          []
          50
          (issue_at bytes_key 100 (5 ∷ []) (77 ∷ []) 10 [])).1)).0
    ≡ err no_challenge
redeemed_once_example =
    redeemed_once bytes_key (5 ∷ []) signed 100 [] [] [] [] 50 60
      (issue_at bytes_key 100 (5 ∷ []) (77 ∷ []) 10 []) between (refl, (tt, (tt, tt)))

-- A connection with a difficulty of 3, and its first job
abbrev connected : MiningState ℕ ℕ
connected = record Jobs.new { stratum_diff = some 3 }

abbrev first_job : MiningState ℕ ℕ
first_job = stored 50 1 connected

abbrev later_jobs : MiningState ℕ ℕ
later_jobs = stored 51 2 (record first_job { stratum_diff = some 4 })

first_added : add_job 50 connected ≡ ok (1, first_job)
unfolding add_job add_checked
first_added = refl

second_added : Jobs.run (retargeted 4 ∷ added 51 ∷ []) first_job ≡ ok later_jobs
unfolding Jobs.run add_job add_checked
second_added = refl

add_job-get_job_example : (get_job 1 later_jobs ≡ some 50) × (get_job_diff 1 later_jobs ≡ some 3)
add_job-get_job_example =
    add_job-get_job 50 (retargeted 4 ∷ added 51 ∷ []) connected later_jobs {id = 1} {s' = first_job}
      first_added second_added

add_job-latest_job_example : (latest_job first_job ≡ some (1, 50)) × Bounded first_job
add_job-latest_job_example =
    add_job-latest_job 50 connected {id = 1} {s' = first_job} tt first_added

abbrev limits : AntiAbuseConfig fractions
limits = record {
  max_conn_per_ip = 1;
  max_tracked_ips = 4;
  frame_rate_per_sec = fractions.of_int 1;
  frame_burst = fractions.of_int 2;
}

abbrev bucket : Bucket fractions
bucket = record { seconds = fractions.of_int; sub = λ a b. a; one = fractions.of_int 1 }

abbrev one_connection : Guard fractions
one_connection = (9, record { conn_count = 1; tokens = fractions.of_int 2; last_refill = 100 }) ∷ []

-- One connection from address 9, and a second one refused.
reached : Reach fractions limits bucket (9 ∷ []) one_connection
unfolding try_accept_connection
reached = rejected 9 101 (accepted 9 100 start refl) refl

guard_counts_example :
    ((ip : ℕ)
      → (conn_count fractions ip one_connection ≡ held ip (9 ∷ []))
        × (held ip (9 ∷ []) ≤ 1)
        × ((lookup number_key ip one_connection ≡ none) ⊎ (1 ≤ held ip (9 ∷ []))))
    × (1 ≤ 4)
guard_counts_example =
    guard_counts fractions limits bucket (9 ∷ []) one_connection (omega arith) reached

-- The amounts of the source's own tests
kas_strings :
    (kas_string (pos 173_951_600_000) ≡ ok (codes "1739.516"))
    × (kas_string (pos 1) ≡ ok (codes "0.00000001"))
    × (kas_string (negsuc 149_999_999) ≡ ok (codes "-1.5"))
    × (from_sompi (pos 173_951_600_000)
        ≡ ok (record { sompi = codes "173951600000"; kas = codes "1739.516" }))
unfolding kas_string from_sompi scaled_decimal_string render padded trim_zeros to_decimal
    digits_before
kas_strings = (refl, refl, refl, refl)

scaled_decimal_string_round_trip_example :
    (text : Text) × (scaled_decimal_string (negsuc 149_999_999) 8 ≡ ok text)
    × (read_amount 8 text ≡ negsuc 149_999_999)
scaled_decimal_string_round_trip_example =
    scaled_decimal_string_round_trip (negsuc 149_999_999) 8 (omega arith)
