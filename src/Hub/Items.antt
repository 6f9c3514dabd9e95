-- ===== src/Hub/Items.antt =====
-- src/hub.rs, the data: bindings, items, the hub.
use io_replica.Base.{Bool, Option, none, some, Text, leb, if◌then◌else◌}
use io_replica.Base.Map.{Map}
use io_replica.Flags.{Flags}
use io_replica.Placement.{Handle, Hash, Meta, SortKey, Level, meta, rank, SyncBase}

abbrev pub SourceId : Type 0
SourceId = Text

-- `ReplicaSourceBinding`.
pub record SourceBinding : Type 0 where
  pub handle : Handle
  pub base : Option SyncBase
  pub conflicted : Bool
  pub conflict_revision : Option Text
  pub conflict_object : Option Hash
  pub shared_object : Option Hash

-- `ReplicaHubConflict`.
pub data HubConflict : Type 0 where
  manual prefer_incoming prefer_existing : HubConflict

-- `ReplicaHubItem`.
pub record HubItem : Type 0 where
  pub flags : Flags
  pub object : Option Hash
  pub meta : Option Meta
  pub sort_key : SortKey
  pub level : Level
  pub deleted : Bool
  pub conflicted : Bool
  pub conflict_object : Option Hash
  pub sources : Map SourceBinding

-- `ReplicaHub`.
pub record Hub : Type 0 where
  pub items : Map HubItem
  pub conflict : HubConflict

-- `Ord::min` and `Ord::max` on the ladder.
abbrev pub min_level : Level → Level → Level
min_level a b = if leb (rank a) (rank b) then a else b

abbrev pub max_level : Level → Level → Level
max_level a b = if leb (rank a) (rank b) then b else a

stored : Option Hash → Level → Level
stored none level = min_level level meta
stored (some _) level = level

-- `ReplicaHubItem::stored_level`.
unfoldable pub stored_level : HubItem → Level
unfolding stored
stored_level item = stored item.object item.level
