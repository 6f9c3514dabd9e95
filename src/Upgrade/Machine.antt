-- ===== src/Upgrade/Machine.antt =====
-- src/upgrade.rs, the state: what is asked for, what is loaded, what is written.
use io_replica.Base.{
  ℕ, Bool, ◌||◌, List, [], text_eq, option_eq, ◌==◌, if◌then◌else◌, ltb, is_none, is_some,
  is_some_and, filter,
}
use io_replica.Base.Map.{Map, get}
use io_replica.Placement.{Handle, CollectionId, Placement, rank, meta, full, status_eq, conflict}
use io_replica.Remote.{Tier, FetchedItem}
use io_replica.Change.{WriteOp}

-- `ReplicaUpgradeReport`.
pub record UpgradeReport : Type 0 where
  pub upgraded : ℕ
  pub fetched : ℕ
  pub deduped : ℕ

abbrev pub empty_report : UpgradeReport
empty_report = record { upgraded = 0; fetched = 0; deduped = 0 }

pub data State : Type 0 where
  start pending_load pending_lookup pending_fetch pending_link_check pending_write done : State

-- `ReplicaUpgrade`.
pub record Upgrade : Type 0 where
  pub collection : CollectionId
  pub handles : List Handle
  pub tier : Tier
  pub placements : Map Placement
  pub fetched : List FetchedItem
  pub ops : List WriteOp
  pub report : UpgradeReport
  pub state : State

-- `ReplicaUpgrade::new`.
unfoldable pub new : CollectionId → List Handle → Tier → Upgrade
new collection handles tier = record {
  collection = collection;
  handles = handles;
  tier = tier;
  placements = [];
  fetched = [];
  ops = [];
  report = empty_report;
  state = State.start;
}

abbrev pub is_conflicted : Placement → Bool
is_conflicted p = p.status == conflict

abbrev pub is_mutable : Placement → Bool
is_mutable p = is_some_and p.base (λ b. is_some b.revision)

-- What a placement still lacks of the tier.
abbrev pub is_pending : Tier → Placement → Bool
is_pending Tier.meta p = ltb (rank p.level) (rank meta) || is_none p.meta
is_pending Tier.full p =
    if is_conflicted p
    then is_none p.conflict_object
    else ltb (rank p.level) (rank full) || is_none p.object

-- `ReplicaUpgrade::pending_handles`.
unfoldable pub pending_handles : Upgrade → List Handle
unfolding get
pending_handles u = filter (λ h. is_some_and (get h u.placements) (is_pending u.tier)) u.handles
