-- ===== src/Zkas/Db.antt =====
-- The tables of the payout engine (crates/katpool-db/src/repo/payout.rs, pool_meta.rs and the
-- migrations) as lists of rows, with the queries and updates that it runs. Scores and ids are
-- `BIGINT` values that are not negative; the two keys of `pool_meta` that the engine uses are
-- fields of the store, and timestamps are left out.
use zkas_pool.Base.{
  ℕ, Bool, true, false, not, List, [], ◌∷◌, Option, none, some, ◌==◌, ◌&&◌, ◌||◌, if◌then◌else◌,
  leb,
}
use zkas_pool.Base.Int.{ℤ, leb_ℤ}
use zkas_pool.Base.Sort.{sort_by}

pub data PayoutKind : Type 0 where
  kas krc20_nacho zkas : PayoutKind

pub data PayoutCycleStatus : Type 0 where
  planned broadcasting partially_settled settled failed : PayoutCycleStatus

pub data PayoutStatus : Type 0 where
  planned submitted accepted confirmed failed : PayoutStatus

-- The key of a cycle: the text `{kind}-{start}-{end}`, or that of an imported `{kind}-legacy-` one.
pub data CycleKey : Type 0 where
  range : PayoutKind → ℕ → ℕ → CycleKey
  legacy : PayoutKind → ℕ → CycleKey

pub record PayoutCycle : Type 0 where
  pub id : ℕ
  pub kind : PayoutKind
  pub status : PayoutCycleStatus
  pub total_sompi : ℤ
  pub total_recipients : ℕ
  pub idempotency_key : CycleKey

pub record Payout : Type 0 where
  pub id : ℕ
  pub cycle_id : ℕ
  pub wallet_id : ℕ
  pub amount_sompi : ℤ
  pub status : PayoutStatus
  pub tx_hash : Option ℕ
  pub accepted_daa_score : Option ℕ

-- The value of the key `zkas_payout_confirm_cursor`: a hash, or a text that is none.
pub data CursorText : Type 0 where
  hash : ℕ → CursorText
  malformed : CursorText

pub record Store : Type 0 where
  -- `wallet`: id and address
  pub wallets : List (ℕ × List ℕ)
  -- `share_allocation`: wallet and net payout
  pub credits : List (ℕ × ℕ)
  pub cycles : List PayoutCycle
  pub payouts : List Payout
  -- The next values of the two sequences, which hand out no value twice.
  pub next_cycle : ℕ
  pub next_payout : ℕ
  -- `pool_meta`: `zkas_payout_inflight`, `zkas_payout_confirm_cursor`
  pub inflight : Option ℕ
  pub cursor : Option CursorText

abbrev pub is_planned : PayoutStatus → Bool
is_planned PayoutStatus.planned = true
is_planned _ = false

abbrev pub is_confirmed : PayoutStatus → Bool
is_confirmed PayoutStatus.confirmed = true
is_confirmed _ = false

abbrev pub is_failed : PayoutStatus → Bool
is_failed PayoutStatus.failed = true
is_failed _ = false

-- `submitted` or `accepted`
abbrev pub is_in_flight : PayoutStatus → Bool
is_in_flight PayoutStatus.submitted = true
is_in_flight PayoutStatus.accepted = true
is_in_flight _ = false

abbrev pub is_zkas : PayoutKind → Bool
is_zkas zkas = true
is_zkas _ = false

-- `mark_payout_submitted`
unfoldable pub submit : ℕ → Payout → Payout
submit txid p =
    if is_planned p.status || is_submitted p.status
    then record p { status = PayoutStatus.submitted; tx_hash = some txid }
    else p
  where
    is_submitted : PayoutStatus → Bool
    is_submitted PayoutStatus.submitted = true
    is_submitted _ = false

-- `mark_payout_accepted`: `COALESCE` keeps a score that is there.
unfoldable pub accept : ℕ → Payout → Payout
accept daa p =
    if is_in_flight p.status
    then record p {
      status = PayoutStatus.accepted;
      accepted_daa_score = elim p.accepted_daa_score [ none ↦ some daa | some d ↦ some d ];
    }
    else p

-- `mark_payout_confirmed`
unfoldable pub confirm : Payout → Payout
confirm p =
    if is_in_flight p.status || is_confirmed p.status
    then record p { status = PayoutStatus.confirmed }
    else p

-- `UPDATE payout ... WHERE id = $1`
unfoldable pub update : ℕ → (Payout → Payout) → List Payout → List Payout
update k f [] = []
update k f (p ∷ ps) = (if p.id == k then f p else p) ∷ update k f ps

-- `SELECT address FROM wallet` of the join
unfoldable pub address_of : ℕ → List (ℕ × List ℕ) → Option (List ℕ)
address_of k [] = none
address_of k ((j, a) ∷ ws) = if j == k then some a else address_of k ws

pub record CycleRecipient : Type 0 where
  pub payout_id : ℕ
  pub address : List ℕ
  pub amount_sompi : ℤ
  pub status : PayoutStatus

-- The join of the payouts of a cycle with their wallets
unfoldable pub join_wallets : ℕ → List (ℕ × List ℕ) → List Payout → List CycleRecipient
unfolding address_of
join_wallets cycle ws [] = []
join_wallets cycle ws (p ∷ ps) =
    elim (if p.cycle_id == cycle then address_of p.wallet_id ws else none) [
      | none ↦ join_wallets cycle ws ps
      | some a ↦
          record { payout_id = p.id; address = a; amount_sompi = p.amount_sompi; status = p.status }
          ∷ join_wallets cycle ws ps
    ]

-- `ORDER BY amount_sompi DESC, id ASC`
unfoldable pub before : CycleRecipient → CycleRecipient → Bool
before a b =
    not (leb_ℤ a.amount_sompi b.amount_sompi)
    || leb_ℤ b.amount_sompi a.amount_sompi && leb a.payout_id b.payout_id

unfoldable pub list_cycle_recipients : Store → ℕ → List CycleRecipient
list_cycle_recipients s cycle = sort_by before (join_wallets cycle s.wallets s.payouts)
