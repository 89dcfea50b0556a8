-- ===== src/Kas/Cycle/Status.antt =====
-- payout-kas/src/cycle.rs: what the derived status of a cycle says of its rows.
use zkas_pool.Base.{
  ℕ, suc, ◌+◌, ◌≤◌, ◌≡◌, refl, Bool, true, List, [], ◌∷◌, length, All, if◌then◌else◌, arith, sum_by,
  ◌↔◌,
}
use zkas_pool.Zkas.Db.{
  PayoutCycleStatus, PayoutStatus, Payout, is_planned, is_in_flight, is_confirmed, is_failed,
}
use zkas_pool.Kas.Cycle.{
  PayoutStatusCounts, count_status, count_all, from_payouts, derive_cycle_status,
}

abbrev pub Status : Type 0
Status = PayoutStatus

-- How many rows have a status
abbrev tally : (Status → Bool) → List Payout → ℕ
tally f ps = sum_by (λ p. if f p.status then 1 else 0) ps

-- The counts before the loop and after it
record Counted (ps : List Payout) (c d : PayoutStatusCounts) : Type 0 where
  pub total : d.total ≡ c.total
  pub pending : d.pending ≡ c.pending + tally is_planned ps
  pub in_flight : d.in_flight ≡ c.in_flight + tally is_in_flight ps
  pub confirmed : d.confirmed ≡ c.confirmed + tally is_confirmed ps
  pub failed : d.failed ≡ c.failed + tally is_failed ps

-- One row more: what it adds to each count
count_status-adds :
    (s : Status) (c : PayoutStatusCounts)
    → ((count_status s c).total ≡ c.total)
      × ((count_status s c).pending ≡ c.pending + (if is_planned s then 1 else 0))
      × ((count_status s c).in_flight ≡ c.in_flight + (if is_in_flight s then 1 else 0))
      × ((count_status s c).confirmed ≡ c.confirmed + (if is_confirmed s then 1 else 0))
      × ((count_status s c).failed ≡ c.failed + (if is_failed s then 1 else 0))
count_status-adds PayoutStatus.planned c = omega arith
count_status-adds PayoutStatus.submitted c = omega arith
count_status-adds PayoutStatus.accepted c = omega arith
count_status-adds PayoutStatus.confirmed c = omega arith
count_status-adds PayoutStatus.failed c = omega arith

count_all-Counted : (ps : List Payout) (c : PayoutStatusCounts) → Counted ps c (count_all ps c)
unfolding count_all
count_all-Counted [] c = record {
  total = refl;
  pending = omega arith;
  in_flight = omega arith;
  confirmed = omega arith;
  failed = omega arith;
}
count_all-Counted (p ∷ ps) c =
    let h = count_all-Counted ps (count_status p.status c) in
    let one = count_status-adds p.status c in
    record {
      total = omega (arith, h.total, one);
      pending = omega (arith, h.pending, one);
      in_flight = omega (arith, h.in_flight, one);
      confirmed = omega (arith, h.confirmed, one);
      failed = omega (arith, h.failed, one);
    }

-- Each row has one of the four.
tally-length :
    (ps : List Payout)
    → tally is_planned ps + tally is_in_flight ps + tally is_confirmed ps + tally is_failed ps
      ≡ length ps
tally-length [] = refl
tally-length (p ∷ ps) =
    one p.status (tally is_planned ps) (tally is_in_flight ps) (tally is_confirmed ps)
      (tally is_failed ps) (length ps) (tally-length ps)
  where
    one :
        (s : Status) (a b c d n : ℕ)
        → a + b + c + d ≡ n
        → ((if is_planned s then 1 else 0) + a)
            + ((if is_in_flight s then 1 else 0) + b)
            + ((if is_confirmed s then 1 else 0) + c)
            + ((if is_failed s then 1 else 0) + d)
          ≡ suc n
    one PayoutStatus.planned a b c d n h = omega (arith, h)
    one PayoutStatus.submitted a b c d n h = omega (arith, h)
    one PayoutStatus.accepted a b c d n h = omega (arith, h)
    one PayoutStatus.confirmed a b c d n h = omega (arith, h)
    one PayoutStatus.failed a b c d n h = omega (arith, h)

module _ (f : Status → Bool) where
  tally-le : (ps : List Payout) → tally f ps ≤ length ps
  tally-le [] = omega arith
  tally-le (p ∷ ps) = ground (arith, tally-le ps)

  abbrev pub Each : List Payout → Type 0
  Each ps = All (λ p. f p.status ≡ true) ps

  tally-Each : (ps : List Payout) → tally f ps ≡ length ps → Each ps
  tally-Each [] h = tt
  tally-Each (p ∷ ps) h = (ground (arith, tally-le ps), tally-Each ps (ground (arith, tally-le ps)))

  Each-tally : (ps : List Payout) → Each ps → tally f ps ≡ length ps
  Each-tally [] h = refl
  Each-tally (p ∷ ps) (e, rest) = ground (arith, e, Each-tally ps rest)

-- The same of counts that add up
derive-of_counts :
    (c : PayoutStatusCounts)
    → c.pending + c.in_flight + c.confirmed + c.failed ≡ c.total
    → (derive_cycle_status c ≡ PayoutCycleStatus.settled ↔ (1 ≤ c.total) × (c.confirmed ≡ c.total))
      × (derive_cycle_status c ≡ PayoutCycleStatus.failed ↔ (1 ≤ c.total) × (c.failed ≡ c.total))
      × (derive_cycle_status c ≡ PayoutCycleStatus.planned ↔ c.pending ≡ c.total)
unfolding derive_cycle_status
derive-of_counts c h = (
  (λ e. ground (arith, e, h), λ k. ground (arith, k, h)),
  (λ e. ground (arith, e, h), λ k. ground (arith, k, h)),
  (λ e. ground (arith, e, h), λ k. ground (arith, k, h)),
)

-- The derived status is `settled` just when there are rows and each is confirmed, `failed` just when
-- there are rows and each has failed, and `planned` just when each row waits to be sent.
pub derived_status_lem :
    (ps : List Payout)
    → (derive_cycle_status (from_payouts ps) ≡ PayoutCycleStatus.settled
        ↔ (1 ≤ length ps) × Each is_confirmed ps)
      × (derive_cycle_status (from_payouts ps) ≡ PayoutCycleStatus.failed
          ↔ (1 ≤ length ps) × Each is_failed ps)
      × (derive_cycle_status (from_payouts ps) ≡ PayoutCycleStatus.planned ↔ Each is_planned ps)
unfolding from_payouts
derived_status_lem ps =
    let h =
      count_all-Counted ps
        (record { total = length ps; pending = 0; in_flight = 0; confirmed = 0; failed = 0 }) in
    let (s, f, p) =
      derive-of_counts (from_payouts ps)
        (omega (arith, h.total, h.pending, h.in_flight, h.confirmed, h.failed, tally-length ps)) in
    (
      (
        λ e.
            let (some_row, all) = s.0 e in
            (
              omega (arith, some_row, h.total),
              tally-Each is_confirmed ps (omega (arith, all, h.total, h.confirmed)),
            ),
        λ (some_row, all). s.1 (
          omega (arith, some_row, h.total),
          omega (arith, Each-tally is_confirmed ps all, h.total, h.confirmed),
        ),
      ),
      (
        λ e.
            let (some_row, all) = f.0 e in
            (
              omega (arith, some_row, h.total),
              tally-Each is_failed ps (omega (arith, all, h.total, h.failed)),
            ),
        λ (some_row, all). f.1 (
          omega (arith, some_row, h.total),
          omega (arith, Each-tally is_failed ps all, h.total, h.failed),
        ),
      ),
      (
        λ e. tally-Each is_planned ps (omega (arith, p.0 e, h.total, h.pending)),
        λ all. p.1 (omega (arith, Each-tally is_planned ps all, h.total, h.pending)),
      ),
    )
