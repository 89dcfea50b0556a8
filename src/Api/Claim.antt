-- ===== src/Api/Claim.antt =====
-- api/src/claim.rs: challenges that a miner signs to claim a balance. Instants and durations are
-- counts of nanoseconds; a sum past the range of an `Instant` panics and is left out. The verifier
-- of signatures (the node's library) is a parameter.
pub mod Entries
pub mod Uses
use zkas_pool.Base.{
  ℕ, ◌+◌, ◌≤◌, ◌≡◌, refl, ap, ◌∙◌, Bool, true, false, List, [], ◌∷◌, Option, none, some, leb, ltb,
  if◌then◌else◌, arith, length, Bool-cases, inl, inr,
}
use zkas_pool.Base.Results.{Result, ok, err}
use zkas_pool.Base.Table.{Key, lookup, remove, insert}

pub data ClaimError : Type 0 where
  no_challenge bad_signature : ClaimError

pub record Pending : Type 0 where
  pub challenge : List ℕ
  pub expires_at : ℕ

-- The challenges of a store, by address
abbrev pub Challenges : Type 0
Challenges = List (List ℕ × Pending)

module _ (key : Key (List ℕ)) where
  -- `issue_at`
  unfoldable pub issue_at : ℕ → List ℕ → List ℕ → ℕ → Challenges → Challenges
  unfolding insert
  issue_at ttl address nonce now pending =
      insert key address (record { challenge = nonce; expires_at = now + ttl }) pending

  -- The checks of `redeem_at` on the challenge that it took out
  abbrev pub checked : (List ℕ → Bool) → ℕ → Option Pending → Result ClaimError (List ℕ)
  checked verify now none = err no_challenge
  checked verify now (some p) =
      if leb p.expires_at now
      then err no_challenge
      else if verify p.challenge
      then ok p.challenge
      else err bad_signature

  -- `redeem_at`: `verify address challenge fvk sig`
  unfoldable pub redeem_at :
      (List ℕ → List ℕ → List ℕ → List ℕ → Bool)
      → List ℕ
      → List ℕ
      → List ℕ
      → ℕ
      → Challenges
      → Result ClaimError (List ℕ) × Challenges
  unfolding lookup remove
  redeem_at verify address fvk sig now pending = (
    checked (λ c. verify address c fvk sig) now (lookup key address pending),
    remove key address pending,
  )

-- `sweep_expired`
unfoldable pub sweep_expired : ℕ → Challenges → Challenges
sweep_expired now [] = []
sweep_expired now ((a, p) ∷ pending) =
    let rest = sweep_expired now pending in if ltb now p.expires_at then (a, p) ∷ rest else rest

-- A call of the store by any client
pub data Op : Type 0 where
  issue : List ℕ → List ℕ → ℕ → Op
  redeem : List ℕ → List ℕ → List ℕ → ℕ → Op
  sweep : ℕ → Op

module _ (key : Key (List ℕ)) (verify : List ℕ → List ℕ → List ℕ → List ℕ → Bool) (ttl : ℕ) where
  unfoldable pub step : Op → Challenges → Challenges
  unfolding issue_at redeem_at sweep_expired
  step (issue address nonce now) pending = issue_at key ttl address nonce now pending
  step (redeem address fvk sig now) pending = (redeem_at key verify address fvk sig now pending).1
  step (sweep now) pending = sweep_expired now pending

  unfoldable pub run : List Op → Challenges → Challenges
  unfolding step
  run [] pending = pending
  run (op ∷ ops) pending = run ops (step op pending)
