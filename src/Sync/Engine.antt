-- ===== src/Sync/Engine.antt =====
-- src/sync.rs, the state of the sync coroutine, and the small steps that its methods share.
use io_replica.Base.{ℕ, ◌+◌, Bool, Option, none, List, [], ◌∷◌, ◌++◌}
use io_replica.Base.Map.{Map}
use io_replica.Base.Set.{Set}
use io_replica.Placement.{Handle, CollectionId, Checkpoint, Placement}
use io_replica.Remote.{RemoteItem}
use io_replica.Change.{Change, WriteOp}
use io_replica.Sync.Options.{SyncOptions, Event, SyncReport, empty_report}

pub data State : Type 0 where
  start pending_load pending_enumerate merging pending_push pending_write done : State

-- The two sides still to walk, each in handle order.
pub record Join : Type 0 where
  pub local : Map Placement
  pub remote : List RemoteItem

pub record Merge : Type 0 where
  pub join : Join
  pub vanished : Set
  pub complete : Bool
  pub checkpoint : Checkpoint

pub record Candidate : Type 0 where
  pub handle : Handle
  pub local : Option Placement
  pub remote : Option RemoteItem

-- `ReplicaSync`.
pub record Sync : Type 0 where
  pub collection : CollectionId
  pub opts : SyncOptions
  pub local : Map Placement
  pub checkpoint : Option Checkpoint
  pub merging : Option Merge
  pub writes : List WriteOp
  pub pushes : List Change
  pub in_flight : List Handle
  pub next_checkpoint : Option Checkpoint
  pub pending_flag_pushes : Map Placement
  pub pending_content_pushes : Map Placement
  pub pending_drops : Set
  pub pending_creates : Map Placement
  pub report : SyncReport
  pub state : State

-- `ReplicaSync::new`.
unfoldable pub new : CollectionId → SyncOptions → Sync
new collection opts = record {
  collection = collection;
  opts = opts;
  local = [];
  checkpoint = none;
  merging = none;
  writes = [];
  pushes = [];
  in_flight = [];
  next_checkpoint = none;
  pending_flag_pushes = [];
  pending_content_pushes = [];
  pending_drops = [];
  pending_creates = [];
  report = empty_report;
  state = State.start;
}

-- `self.writes.push(op)`.
abbrev pub push_write : WriteOp → Sync → Sync
push_write op s = record s { writes = s.writes ++ op ∷ [] }

abbrev pub emit : Event → Sync → Sync
emit event s = record s { report = record (s.report) { events = s.report.events ++ event ∷ [] } }

-- `self.report.pulled += 1`, and so for the other counters.
abbrev pub count_pulled : Sync → Sync
count_pulled s = record s { report = record (s.report) { pulled = s.report.pulled + 1 } }

abbrev pub count_conflict : Sync → Sync
count_conflict s = record s { report = record (s.report) { conflicts = s.report.conflicts + 1 } }

abbrev pub count_rejected : Sync → Sync
count_rejected s = record s { report = record (s.report) { rejected = s.report.rejected + 1 } }

abbrev pub count_refreshed : Sync → Sync
count_refreshed s = record s { report = record (s.report) { refreshed = s.report.refreshed + 1 } }

abbrev pub count_pushed : ℕ → Sync → Sync
count_pushed n s = record s { report = record (s.report) { pushed = s.report.pushed + n } }
