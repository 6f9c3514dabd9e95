-- ===== src/Lib.antt =====
-- A model of io-replica, an I/O-free engine that keeps an offline replica of a remote collection
-- of items (a mailbox, an address book, a calendar) in step with it.
--
-- The engine's verbs are coroutines. Each owns a small state, and each call of `resume` takes the
-- reply to the last request and either yields the next request (load, enumerate, push, write) or
-- completes. A driver serves the requests from a storage and a remote that the consumer implements.
-- A mutation edits one placement offline and stages it; a sync loads the placements, enumerates the
-- remote, merges both sides member by member, pushes what the local side changed and writes what
-- either side taught it. An upgrade reads identities, summaries and bodies that the sync left
-- unread; a rekey moves a collection onto new handles when the remote has renumbered it. A hub
-- shares items between several sources: each source loads its projection of the hub, and the
-- writes of its verbs are folded back.
--
-- Which file models what, by the path of the source in the repository:
--
--   Base, Base/*      texts, ordered maps (`BTreeMap`), ordered sets (`BTreeSet`), lists
--   Flags             src/placement.rs, `ReplicaFlags` and its merge; Flags/Laws proves it
--   Placement         src/placement.rs, src/object.rs, src/collection.rs
--   Remote            src/remote.rs
--   Change            src/change.rs, with the key of a change; Change/Splits
--   Coroutine         src/coroutine.rs, src/storage.rs
--   Sync/Options      src/sync.rs, the options and the report
--   Sync/Engine       src/sync.rs, the state of the coroutine
--   Sync/Rows         src/sync.rs, the helpers that write one row: `drop`, `pull_add`,
--                     `pull_content`, `pull_flags`, `rebase`, `rebase_content`, `rekey_create`,
--                     `refuse_delete`, `mark_conflict`, `stage_conflict_dup`
--   Sync/Content      src/sync.rs, `reconcile_content` and `resolve_conflict`
--   Sync/Markers      src/sync.rs, `reconcile_flags`
--   Sync/Merge        src/sync.rs, `merge`; Sync/Merge/* prove what it derives and writes
--   Sync/Join         src/sync.rs, `open_merge`, `Join`, `narrow`, `next_candidate`
--   Sync/Answers      src/sync.rs, the arm of `resume` that takes the results of a push
--   Sync/Run          src/sync.rs, `batch`, `step`, `merge_step`, `resume`; Sync/Run/* prove the
--                     run from the first request to the end
--   Mutate            src/mutate.rs; Mutate/* prove what is staged, refused and later merged
--   Open              src/open.rs; Open/Runs proves what the driver gets of it
--   Client            src/client.rs, the traits of the consumer and the driver's loop
--   Client/Verbs      src/client.rs, `open`, `upgrade`, `mutate`, `sync`, `rekey`
--   Hub/Items         src/hub.rs, the items of a hub and the bindings of its sources
--   Hub/Project       src/hub.rs, `ReplicaHub::project`
--   Hub/Absorb        src/hub.rs, `ReplicaHub::absorb`; the other files of Hub/* prove what a
--                     source sees after the writes of another, up to its next merge
--   Upgrade/Machine   src/upgrade.rs, the state, `pending_handles`
--   Upgrade/Fetched   src/upgrade.rs, `write_fetched`, `mint`
--   Upgrade/Run       src/upgrade.rs, `resume`; the other files of Upgrade/* prove what is written
--   Rekey/Rows        src/rekey.rs, `carry` and `fresh`
--   Rekey/Rebuild     src/rekey.rs, `rebuild`
--   Rekey/Run         src/rekey.rs, `resume`; the other files of Rekey/* prove what the batch does
--                     and what becomes of it at the next merge
--   Client/Ends       runs of a coroutine that fails by the contract with its driver only
--   Lifecycle/Storage examples/mailbox_lifecycle.rs, `MemStorage`; Lifecycle/Table the map under it
--   Lifecycle/Remote  examples/mailbox_lifecycle.rs, `MemRemote` and `hash`
--   Lifecycle/Story   examples/mailbox_lifecycle.rs, `main`, over the verbs of Client/Verbs
--   Lifecycle/Kept    the storage of the example keeps what is written to it
--   Tests, Tests/*    runs at concrete inputs, and the theorems at concrete inputs
--
-- How the code is rendered. A `Replica` prefix is left out of the names. A string newtype is a
-- text, a text a list of bytes, which is how Rust orders strings. A method on `&mut self` is a
-- function that hands the new state back. An `expect` that fails is `panicked`, an outcome of its
-- own, and the driver ends with `panic`. `expect` on an absent body, whose callers test for one
-- first, gives the empty hash. The storage and the remote are parameters, a record of types and
-- functions (`Seams`), of which nothing is assumed: they may fail, and answer anything of the right
-- type. Where a seam fails the run is over, so its last state is not returned. Theorems on several
-- runs in a row ask for a storage that keeps what is written to it: `RowStore` of Sync/Run/Stores,
-- a record of such laws. The storage and the server of the example are one record of seams, `mem`,
-- whose server panics where an `unwrap` or an index of it does; Lifecycle/Kept fills the laws.
--
-- Numbers. Handle counts and the report's counters are unbounded natural numbers; each counts at
-- most the rows of one run. The digest of a change is kept on sixty-four bits by a remainder.
-- `usize` is taken to have sixty-four bits where a marker count is folded into that digest.
--
-- Bounds on loops. The search for a candidate takes as many rounds as the join has rows, and so
-- does the merge loop, since every round takes a row at least. The driver's loop takes its number
-- of rounds as an argument; an upgrade takes six, a rekey five. The loops of an upgrade and a rekey
-- run over lists.
--
-- The bodies of the example are taken to be UTF-8, as the server formats them from texts. What its
-- `main` prints is a record of the values printed.
--
-- Not modelled: the `Display` instances and logging. The accessors of the client are the fields of
-- its record.
pub mod Base
pub mod Flags
pub mod Placement
pub mod Remote
pub mod Change
pub mod Coroutine
pub mod Sync
pub mod Client
pub mod Mutate
pub mod Open
pub mod Hub
pub mod Upgrade
pub mod Rekey
pub mod Lifecycle
mod Tests
