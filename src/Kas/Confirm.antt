-- ===== src/Kas/Confirm.antt =====
-- payout-kas/src/confirm.rs: when a payout counts as accepted or confirmed, and which coins of the
-- treasury may be spent.
use zkas_pool.Base.{ℕ, Bool, Option, none, some, leb, if◌then◌else◌}
use zkas_pool.StorageMass.Fee.{saturating_add}

abbrev pub kas_payout_confirmation_daa : ℕ
kas_payout_confirmation_daa = 100

abbrev pub non_coinbase_maturity_daa : ℕ
non_coinbase_maturity_daa = 10

abbrev pub coinbase_maturity_daa : ℕ
coinbase_maturity_daa = 1000

pub data ConfirmationState : Type 0 where
  pending accepted confirmed unknown : ConfirmationState

pub record ConfirmationInputs : Type 0 where
  pub virtual_daa_score : ℕ
  pub in_mempool : Bool
  pub change_block_daa_score : Option ℕ
  pub recorded_accept_daa : Option ℕ

-- The recorded height goes before the one observed now.
abbrev pub accept_daa : ConfirmationInputs → Option ℕ
accept_daa i = elim i.recorded_accept_daa [ some daa ↦ some daa | none ↦ i.change_block_daa_score ]

unfoldable pub classify_confirmation : ConfirmationInputs → ConfirmationState
classify_confirmation i = elim (accept_daa i) [
  | some daa ↦
      if leb (saturating_add daa kas_payout_confirmation_daa) i.virtual_daa_score
      then confirmed
      else accepted
  | none ↦ if i.in_mempool then pending else unknown
]

unfoldable pub is_spendable : ℕ → Bool → ℕ → Bool
is_spendable block_daa_score is_coinbase virtual_daa_score =
    let needed = if is_coinbase then coinbase_maturity_daa else non_coinbase_maturity_daa in
    leb (saturating_add block_daa_score needed) virtual_daa_score
