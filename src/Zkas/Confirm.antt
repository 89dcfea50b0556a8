-- ===== src/Zkas/Confirm.antt =====
-- payout-zkas/src/confirm.rs: what the chain says of a submitted transaction.
use zkas_pool.Base.{
  ℕ, ◌+◌, ◌-◌, ◌≤◌, ◌≡◌, ◌↔◌, Bool, Option, none, some, leb, if◌then◌else◌, refl, arith, Bool-cases,
  Option-cases, inl, inr, le→leb,
}

pub data ConfirmationState : Type 0 where
  pending accepted confirmed unknown : ConfirmationState

abbrev pub zkas_payout_confirmation_daa : ℕ
zkas_payout_confirmation_daa = 100

pub record ConfirmationInputs : Type 0 where
  pub virtual_daa_score : ℕ
  pub in_mempool : Bool
  pub accept_daa : Option ℕ

unfoldable pub classify_confirmation : ConfirmationInputs → ℕ → ConfirmationState
classify_confirmation i confirmation_daa = elim i.accept_daa [
  | some accept ↦
      if leb confirmation_daa (i.virtual_daa_score - accept) then confirmed else accepted
  | none ↦ if i.in_mempool then pending else unknown
]

-- A transaction counts as confirmed exactly where an accepting block is known and the virtual score
-- is at least `confirmation_daa` past the block's score. The depth asked for is at least 1.
pub classify_confirmed :
    (i : ConfirmationInputs) (confirmation_daa : ℕ)
    → 1 ≤ confirmation_daa
    → (classify_confirmation i confirmation_daa ≡ confirmed) ↔ (
        (accept : ℕ) × (i.accept_daa ≡ some accept)
        × (accept + confirmation_daa ≤ i.virtual_daa_score))
unfolding classify_confirmation
classify_confirmed i confirmation_daa h = (forth, back)
  where
    forth :
        classify_confirmation i confirmation_daa ≡ confirmed
        → (accept : ℕ) × (i.accept_daa ≡ some accept)
          × (accept + confirmation_daa ≤ i.virtual_daa_score)
    forth k = elim (Option-cases i.accept_daa) [
      | inl e ↦ elim (Bool-cases i.in_mempool) [
        | inl m ↦ cc (rw (e, m, classify_confirmation) at k)
        | inr m ↦ cc (rw (e, m, classify_confirmation) at k)
      ]
      | inr (a, e) ↦ elim (Bool-cases (leb confirmation_daa (i.virtual_daa_score - a))) [
        | inl deep ↦ (a, e, ground arith)
        | inr shallow ↦ cc (rw (e, shallow, classify_confirmation) at k)
      ]
    ]

    back :
        ((accept : ℕ) × (i.accept_daa ≡ some accept)
          × (accept + confirmation_daa ≤ i.virtual_daa_score))
        → classify_confirmation i confirmation_daa ≡ confirmed
    back (a, e, deep) =
        rw
          (
            e,
            le→leb confirmation_daa (i.virtual_daa_score - a) (omega (arith, deep)),
            classify_confirmation,
          )
          refl
