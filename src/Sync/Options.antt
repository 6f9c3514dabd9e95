-- ===== src/Sync/Options.antt =====
-- The tuning of a sync run and what it reports: the top of src/sync.rs.
use io_replica.Base.{ℕ, Bool, true, false, List, []}
use io_replica.Placement.{Handle}

pub record PushRights : Type 0 where
  pub flags : Bool
  pub content : Bool
  pub add : Bool
  pub remove : Bool

-- `ReplicaPushRights::all`.
abbrev pub all : PushRights
all = record { flags = true; content = true; add = true; remove = true }

-- `ReplicaPushRights::none`.
abbrev pub no_rights : PushRights
no_rights = record { flags = false; content = false; add = false; remove = false }

pub data ConflictPolicy : Type 0 where
  manual prefer_local prefer_remote keep_both : ConflictPolicy

pub data DeletePolicy : Type 0 where
  revert keep : DeletePolicy

pub record SyncOptions : Type 0 where
  pub push : Bool
  pub rights : PushRights
  pub delete : DeletePolicy
  pub conflict : ConflictPolicy
  pub full : Bool

-- `ReplicaSyncOptions::default`.
abbrev pub default : SyncOptions
default = record { push = true; rights = all; delete = revert; conflict = manual; full = false }

pub data Event : Type 0 where
  added : Handle → Event
  flags_changed : Handle → Event
  content_changed : Handle → Event
  vanished : Handle → Event
  conflicted : Handle → Event
  created : Handle → Event

-- The counters are unbounded here; each counts at most the items and results of one run.
pub record SyncReport : Type 0 where
  pub pulled : ℕ
  pub pushed : ℕ
  pub conflicts : ℕ
  pub rejected : ℕ
  pub refreshed : ℕ
  pub events : List Event

-- `ReplicaSyncReport::default`.
abbrev pub empty_report : SyncReport
empty_report = record {
  pulled = 0;
  pushed = 0;
  conflicts = 0;
  rejected = 0;
  refreshed = 0;
  events = [];
}
