-- ===== src/Placement.antt =====
-- src/placement.rs, src/collection.rs and src/object.rs: an item's presence in one collection.
-- The string newtypes (`ReplicaHandle`, `ReplicaLinkId`, `ReplicaHash` and the like) are texts.
use io_replica.Base.{
  ℕ, Bool, Option, none, some, List, Text, text_eq, option_eq, Eq, ◌==◌, if◌then◌else◌, is_some_and,
}
use io_replica.Flags.{Flags}

abbrev pub Handle : Type 0
Handle = Text

abbrev pub LinkId : Type 0
LinkId = Text

abbrev pub CollectionId : Type 0
CollectionId = Text

abbrev pub Hash : Type 0
Hash = Text

abbrev pub Meta : Type 0
Meta = Text

abbrev pub SortKey : Type 0
SortKey = Text

abbrev pub Checkpoint : Type 0
Checkpoint = List ℕ

-- `ReplicaObject`.
pub record Object : Type 0 where
  pub hash : Hash
  pub size : ℕ

pub data Level : Type 0 where
  probed meta full : Level

-- The derived order of the ladder.
abbrev pub rank : Level → ℕ
rank probed = 0
rank meta = 1
rank full = 2

pub data Status : Type 0 where
  clean dirty tombstone conflict created : Status

unfoldable pub Status-discrete : Discrete Status
Status-discrete = hlevel

instance unfoldable pub status_eq : Eq Status
unfolding Status-discrete
status_eq = record { dec = Status-discrete }

pub record Origin : Type 0 where
  pub collection : CollectionId
  pub handle : Handle

pub record SyncBase : Type 0 where
  pub flags : Flags
  pub revision : Option Text
  pub object : Option Hash

pub record Placement : Type 0 where
  pub collection : CollectionId
  pub handle : Handle
  pub link_id : Option LinkId
  pub object : Option Hash
  pub level : Level
  pub meta : Option Meta
  pub sort_key : SortKey
  pub flags : Flags
  pub status : Status
  pub conflict_revision : Option Text
  pub conflict_object : Option Hash
  pub base : Option SyncBase
  pub origin : Option Origin

-- `base.as_ref().is_some_and(|base| base.object.as_ref() == Some(object))`.
abbrev pub is_synced : Option SyncBase → Hash → Bool
is_synced base object = is_some_and base (λ b. b.object == some object)

unfoldable pub staged_body : Option Hash → Option SyncBase → Option Hash
staged_body none base = none
staged_body (some object) base = if is_synced base object then none else some object

-- `ReplicaPlacement::staged_edit`.
unfoldable pub staged_edit : Placement → Option Hash
unfolding staged_body
staged_edit p = staged_body p.object p.base
