-- ===== src/Zkas/Tick/Status.antt =====
-- The status of a cycle, against the statuses of its payouts; and a payout that the chain has not
-- accepted.
use zkas_pool.Base.{
  ◌⊎◌, ◌∙◌, sym, subst, retain, Option, ◌==◌, if_holds, leb, ℕ, ◌≤◌, ◌≡◌, ◌↔◌, refl, Bool, true,
  false, List, [], ◌∷◌, none, some, arith, length, All, Bool-cases, inl, inr, length-retain-le,
}
use zkas_pool.Zkas.Db.{Payout, PayoutCycleStatus, is_confirmed, update, accept, confirm}
use zkas_pool.Base.Results.{Result, ok, err, i64_max}
use zkas_pool.Zkas.Confirm.{
  ConfirmationState, confirmed, accepted, pending, unknown, classify_confirmation,
  zkas_payout_confirmation_daa,
}
use zkas_pool.Zkas.World.{SendError, ChainError, write-cases, Sent, World, Reply, Step}
use zkas_pool.Zkas.Cycle.{count, derived_status}
use zkas_pool.Zkas.Tick.{
  AcceptanceScan, Chain, ZkasInFlightPayout, and_then, from_chain, confirm_as, confirm_one,
  confirm_all, answered_ok, to_i64, update_payout, count_confirmed, count_newly_accepted, exec,
  record_acceptance, first_of, probe,
}

abbrev pub Confirmed : Payout → Type 0
Confirmed p = is_confirmed p.status ≡ true

count-All :
    (ps : List Payout) → count (λ p. is_confirmed p.status) ps ≡ length ps → All Confirmed ps
count-All [] h = tt
count-All (p ∷ ps) h = elim (Bool-cases (is_confirmed p.status)) [
  | inl e ↦ (e, count-All ps (ground arith))
  | inr e ↦
      let no : true ≡ false = ground (arith, length-retain-le (λ p. is_confirmed p.status) ps) in cc
]

count_of_All :
    (ps : List Payout) → All Confirmed ps → count (λ p. is_confirmed p.status) ps ≡ length ps
count_of_All [] h = refl
count_of_All (p ∷ ps) h = ground (arith, h.0, count_of_All ps h.1)

settled_count :
    (p : Payout) (ps : List Payout)
    → derived_status (p ∷ ps) ≡ some PayoutCycleStatus.settled
    → count (λ p. is_confirmed p.status) (p ∷ ps) ≡ length (p ∷ ps)
unfolding derived_status
settled_count p ps h = ground arith

count_settled :
    (p : Payout) (ps : List Payout)
    → count (λ p. is_confirmed p.status) (p ∷ ps) ≡ length (p ∷ ps)
    → derived_status (p ∷ ps) ≡ some PayoutCycleStatus.settled
unfolding derived_status
count_settled p ps h = ground arith

-- The fold of payout statuses, `derived_status`, gives `settled` exactly where there is a payout and
-- every payout is confirmed. The stored status of the cycle is another matter: it follows the fold
-- only when the cycle is reconciled.
pub derived_settled :
    (ps : List Payout)
    → (derived_status ps ≡ some PayoutCycleStatus.settled) ↔ ((1 ≤ length ps) × All Confirmed ps)
unfolding derived_status
derived_settled [] = (λ h. cc, λ h. ground (arith, h.0))
derived_settled (p ∷ ps) = (
  λ h. (omega arith, count-All (p ∷ ps) (settled_count p ps h)),
  λ h. count_settled p ps (count_of_All (p ∷ ps) h.1),
)

-- Neither recorded as accepted nor seen accepted by a scan.
abbrev pub Unseen : AcceptanceScan → ZkasInFlightPayout → Type 0
Unseen scan p = (p.accepted_daa_score ≡ none) × (scan.accepted_at p.tx_hash ≡ none)

update-other :
    (j k : ℕ) (f : Payout → Payout) (ps : List Payout)
    → (j == k) ≡ false
    → ((p : Payout) → (f p).id ≡ p.id)
    → retain (λ p. p.id == k) (update j f ps) ≡ retain (λ p. p.id == k) ps
unfolding update
update-other j k f [] other same = refl
update-other j k f (p ∷ ps) other same = ground (arith, update-other j k f ps other same, same p)

accept-id : (daa : ℕ) (p : Payout) → (accept daa p).id ≡ p.id
unfolding accept
accept-id daa p = ground arith

confirm-id : (p : Payout) → (confirm p).id ≡ p.id
unfolding confirm
confirm-id p = ground arith

module _ (reply : ℕ → Reply) (send : List Sent → List ℕ → ℕ → Result SendError ℕ) (node : Chain)
    (scan : AcceptanceScan) (virtual_daa : ℕ) where
  confirm_one-Unseen :
      (p : ZkasInFlightPayout) (w : World)
      → Unseen scan p
      → (confirm_one reply send node scan virtual_daa p w).1 ≡ w
  unfolding confirm_one classify_confirmation
  confirm_one-Unseen p w h = rw (h.0, h.1, confirm_one) (go (node.in_mempool p.tx_hash))
    where
      state : Bool → ConfirmationState
      state b =
          classify_confirmation
            (record { virtual_daa_score = virtual_daa; in_mempool = b; accept_daa = none })
            zkas_payout_confirmation_daa

      left : (b : Bool) → (confirm_as reply send p none (state b) w).1 ≡ w
      left true = refl
      left false = refl

      go :
          (m : Result ChainError Bool)
          → (and_then (from_chain m w) (λ b w'. confirm_as reply send p none (state b) w')).1 ≡ w
      go (ok b) = left b
      go (err e) = refl

  module _ (k : ℕ) (kept : List Payout) where
    -- The rows of id `k` are these.
    HasRows : World → Type 0
    HasRows w = retain (λ p. p.id == k) w.store.payouts ≡ kept

    and_then-HasRows :
        {A B : Type 0} (s : Step A) (next : A → World → Step B)
        → HasRows s.1
        → ((a : A) (w : World) → HasRows w → HasRows (next a w).1)
        → HasRows (and_then s next).1
    and_then-HasRows (ok a, w) next h g = g a w h
    and_then-HasRows (err e, w) next h g = h

    exec-HasRows :
        (j : ℕ) (f : Payout → Payout) (w : World)
        → (j == k) ≡ false
        → ((p : Payout) → (f p).id ≡ p.id)
        → HasRows w
        → HasRows (exec reply send (update_payout j f) w).1
    unfolding HasRows
    exec-HasRows j f w other same h =
        let moved = update-other j k f w.store.payouts other same ∙ h in
        write-cases reply (update_payout j f) w (λ r. HasRows (answered_ok r).1) moved h moved

    accept-HasRows :
        (j daa : ℕ) (w : World)
        → (j == k) ≡ false
        → HasRows w
        → HasRows (record_acceptance reply send j daa w).1
    unfolding record_acceptance
    accept-HasRows j daa w other h =
        and_then-HasRows (to_i64 daa w) _
          (if_holds (λ (s : Step ℕ). HasRows s.1) (leb daa i64_max) (λ _. h) (λ _. h))
          (λ d w' h'. exec-HasRows j (accept d) w' other (accept-id d) h')

    confirm-HasRows :
        (j : ℕ) (w : World)
        → (j == k) ≡ false
        → HasRows w
        → HasRows
            (and_then (exec reply send (update_payout j confirm) w) (λ _ w'. count_confirmed w')).1
    unfolding HasRows
    confirm-HasRows j w other h =
        and_then-HasRows (exec reply send (update_payout j confirm) w) _
          (exec-HasRows j confirm w other confirm-id h) (λ _ w' h'. h')

    confirm_as-HasRows :
        (p : ZkasInFlightPayout) (newly : Option ℕ) (state : ConfirmationState) (w : World)
        → (p.payout_id == k) ≡ false
        → HasRows w
        → HasRows (confirm_as reply send p newly state w).1
    unfolding HasRows
    confirm_as-HasRows p (some daa) confirmed w other h = split p.accepted_daa_score
      where
        split :
            (o : Option ℕ)
            → HasRows
                (elim o as (λ _. Step Unit) [
                  | none ↦ and_then (record_acceptance reply send p.payout_id daa w) (λ _ w'.
                      and_then
                        (exec reply send (update_payout p.payout_id confirm) w')
                        (λ _ w''. count_confirmed w''))
                  | some d ↦
                      and_then
                        (exec reply send (update_payout p.payout_id confirm) w)
                        (λ _ w'. count_confirmed w')
                ]).1
        split none =
            and_then-HasRows (record_acceptance reply send p.payout_id daa w) _
              (accept-HasRows p.payout_id daa w other h)
              (λ _ w' h'. confirm-HasRows p.payout_id w' other h')
        split (some d) = confirm-HasRows p.payout_id w other h
    confirm_as-HasRows p none confirmed w other h = confirm-HasRows p.payout_id w other h
    confirm_as-HasRows p (some daa) accepted w other h = split p.accepted_daa_score
      where
        split :
            (o : Option ℕ)
            → HasRows
                (elim o as (λ _. Step Unit) [
                  | none ↦
                      and_then
                        (record_acceptance reply send p.payout_id daa w)
                        (λ _ w'. count_newly_accepted w')
                  | some d ↦ (ok tt, w)
                ]).1
        split none =
            and_then-HasRows (record_acceptance reply send p.payout_id daa w) _
              (accept-HasRows p.payout_id daa w other h) (λ _ w' h'. h')
        split (some d) = h
    confirm_as-HasRows p none accepted w other h = h
    confirm_as-HasRows p newly pending w other h = h
    confirm_as-HasRows p newly unknown w other h = h

    confirm_one-HasRows :
        (p : ZkasInFlightPayout) (w : World)
        → ((p.payout_id == k) ≡ false) ⊎ Unseen scan p
        → HasRows w
        → HasRows (confirm_one reply send node scan virtual_daa p w).1
    unfolding confirm_one
    confirm_one-HasRows p w (inr unseen) h = subst HasRows (sym (confirm_one-Unseen p w unseen)) h
    confirm_one-HasRows p w (inl other) h =
        let newly = scan.accepted_at p.tx_hash in
        let accept_daa = first_of p.accepted_daa_score newly in
        and_then-HasRows (probe reply send node p accept_daa w) _ (probed accept_daa)
          (λ b w' h'. confirm_as-HasRows p newly _ w' other h')
      where
        asked : (m : Result ChainError Bool) → HasRows (from_chain m w).1
        asked (ok b) = h
        asked (err e) = h

        probed : (o : Option ℕ) → HasRows (probe reply send node p o w).1
        probed none = asked (node.in_mempool p.tx_hash)
        probed (some daa) = h

    confirm_all-HasRows :
        (ps : List ZkasInFlightPayout) (w : World)
        → All (λ p. ((p.payout_id == k) ≡ false) ⊎ Unseen scan p) ps
        → HasRows w
        → HasRows (confirm_all reply send node scan virtual_daa ps w).1
    unfolding confirm_all
    confirm_all-HasRows [] w u h = h
    confirm_all-HasRows (p ∷ ps) w u h =
        and_then-HasRows (confirm_one reply send node scan virtual_daa p w) _
          (confirm_one-HasRows p w u.0 h) (λ _ w' h'. confirm_all-HasRows ps w' u.1 h')

  -- The loop over the in-flight payouts leaves the row of a payout as it is that is neither recorded
  -- as accepted nor seen accepted, whatever the other payouts of the list are, the probes of the
  -- mempool say, and the database does: the row is not confirmed, failed or planned again.
  pub confirm_all-Unseen :
      (k : ℕ) (ps : List ZkasInFlightPayout) (w : World)
      → All (λ p. ((p.payout_id == k) ≡ false) ⊎ Unseen scan p) ps
      → retain (λ p. p.id == k) (confirm_all reply send node scan virtual_daa ps w).1.store.payouts
        ≡ retain (λ p. p.id == k) w.store.payouts
  unfolding HasRows
  confirm_all-Unseen k ps w u =
      confirm_all-HasRows k (retain (λ p. p.id == k) w.store.payouts) ps w u refl
