-- ===== src/Lib.antt =====
-- Verification of zkas-pool, a mining pool for ZKas: the money paths of its Rust workspace.
--
-- Parts and files (paths from the repository's root):
--   Base: shared names, Boolean tests, lists, integers, results with panics and checked sums,
--     stable sorts, and `Float`, the f64 operations as a parameter.
--   Domain.Address: crates/katpool-domain/src/address.rs, `WalletAddress::new`.
--   Accountant.Vesting, Accountant.Payout: accountant/src/vesting.rs and payout.rs. `vest_reward`
--     and `vest_claim` split rewards at the cliff; `plan_payout` picks the rewards of a run.
--   Accountant.Fee: accountant/src/config.rs, `FeeConfig` and `compute_allocation`.
--   Accountant.Db, Accountant.Window: the tables, with the queries of crates/katpool-db/src/repo
--     and accountant/src/window.rs that the engine runs.
--   Accountant.Allocation, Accountant.Engine: accountant/src/allocation.rs. `grosses_of` and
--     `award` split a reward, `in_tx` and `finalise_empty` are the transaction, `locked` its
--     gate, and `allocate_coinbase_reward` the whole call. `answered` says which database calls
--     succeed, and a `TxEnd` how a commit ends: done, undone, or done with its reply lost; a
--     transaction that is not committed leaves the tables as they were, as a database does.
--   Zkas: payout-zkas/src, one shielded transaction for each miner. Zkas.Window and Zkas.Confirm
--     are window.rs and confirm.rs; Zkas.Db and Zkas.Plan are the tables, the queries of
--     crates/katpool-db/src/repo/payout.rs and pool_meta.rs, and plan.rs; Zkas.World,
--     Zkas.Broadcast, Zkas.Cycle, Zkas.Tick and Zkas.Tick.Runs are engine.rs: its state,
--     `broadcast_pass`, `reconcile_cycle` with `confirm_pass` and `tick_once`, and `run_loop`.
--     Zkas.Tick.Keeps and Zkas.Plan.Keeps carry an invariant through a tick and a plan;
--     Zkas.Plan.Eligible, Zkas.Plan.Covered, Zkas.Plan.Balances, Zkas.Plan.Cycles and
--     Zkas.Plan.Again are about the rows that a plan makes; Zkas.Safety, Zkas.Latch and
--     Zkas.Spend use them.
--   StorageMass: crates/katpool-storagemass/src. StorageMass.Mass is types.rs, tx_build.rs and
--     evaluator.rs; StorageMass.Fee is fee.rs; StorageMass.Planner is planner.rs, with its loop
--     in fuel, one round for each recipient and one to stop; StorageMass.Consolidation is
--     consolidation.rs. Their children are about the selection of recipients, the batches, the
--     partition of the recipients, the coins spent, and the binary search. Base.Distinct has the
--     lists without repeated keys.
--   Kas: payout-kas/src, batches of many miners. Kas.Confirm is confirm.rs; Kas.World has the
--     errors and the state of a tick; Kas.Sign is signer.rs and `sign_batch_with_exact_fee`;
--     Kas.Broadcast is `broadcast_cycle` of execute.rs; Kas.Cycle is cycle.rs and plan.rs;
--     Kas.Engine is `confirm_cycle`, window.rs and engine.rs. Kas.Safety carries the invariant of
--     payments through each of them; Kas.Sign.Pays and Kas.Cycle.Status are about a signed batch
--     and a cycle's status. Base.Decimal prints the ids of rows.
--   Api.Money: api/src/money.rs, the decimal strings of amounts; Api.Money.Digits has a reader of
--     them. Base.Decimal is `to_string` of a number.
--   Api.Claim: api/src/claim.rs, the store of challenges: `issue_at`, `redeem_at` and
--     `sweep_expired`. Base.Table is the `HashMap` that it and the bridge use.
--   Bridge.Jobs: bridge/src/mining_state.rs, the ring of the jobs sent on a connection.
--     Bridge.Guard: bridge/src/anti_abuse.rs, connection caps and frame buckets per address, with
--     the reachable states as the relation `Reach`.
--
-- A tick of the ZKas engine works on a `World`: the store, a log of the calls of the sender, and a
-- count of the database's calls. Each statement is done, refused, or done with its reply lost, as a
-- function of that count says, so that a crash or a lost connection at any point is one of its
-- values. A tick reads from one `Chain`, the node's answers. The KAS engine works on a World of its
-- own: the same store, the transactions submitted, and the count of calls; its node answers at the
-- start, to the broadcast and to the confirmation.
--
-- Money is in sompi. A value that the source checks not to be negative is a natural number; a
-- signed one is an integer of Base.Int. The release profile has overflow checks, so a sum that
-- leaves its type is a `Panic` (`add_checked`, `sum_checked`); saturating operations are cut off at
-- the type's bounds. A `Duration` counts nanoseconds. A loop is a recursion over a list, or over a
-- bound that a theorem shows to be enough: the rounds of the payout planner, the range of the
-- binary search.
--
-- Parameters: the node's library of consensus rules (`Consensus`: the masses of a transaction and
-- the size of an output), the f64 operations with one law of the cast to an integer, the tier
-- classifier (a network service), the signer of transactions (`Signer`, with the law that signing
-- keeps outputs and inputs), the parser of addresses, the KRC-20 hashes of the query of hashes in
-- flight, the sender of shielded payments, whose answer may depend on every call before, the node,
-- the verifier of claim signatures, and the replies of the database. The sender reports some calls
-- as failed without ambiguity; whether the node admits one of these is not known to the code, and
-- where it matters that none is, this is a hypothesis. A cycle is stored with its bounds cast to
-- i64, and is refused where the tables' constraints refuse them. Log lines, metrics, timestamps and
-- the texts of errors are left out, as are the services around the components named above.
pub mod Base
pub mod Domain
pub mod Accountant
pub mod Zkas
pub mod StorageMass
pub mod Kas
pub mod Api
pub mod Bridge
mod Tests
