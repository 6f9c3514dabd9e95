-- ===== src/Rekey/Rows.antt =====
-- src/rekey.rs, the rows: what is carried over, what is pulled fresh, what is resurrected.
use io_replica.Base.{
  Bool, ◌&&◌, ◌||◌, not, Option, none, some, [], Text, text_eq, option_eq, ◌==◌, if◌then◌else◌,
  is_some, is_none_or, and_then, or_else, unwrap_or,
}
use io_replica.Flags
use io_replica.Flags.{Flags, flags_eq}
use io_replica.Placement.{
  CollectionId, LinkId, Meta, SortKey, Placement, SyncBase, Status, status_eq, clean, dirty,
  tombstone, conflict, created, probed, meta,
}
use io_replica.Remote.{RemoteItem}

-- What the meta tier has resolved of a new member.
pub record Resolved : Type 0 where
  pub link_id : LinkId
  pub meta : Meta
  pub sort_key : SortKey

abbrev pub base_flags : Option SyncBase → Flags
base_flags none = Flags.default
base_flags (some base) = base.flags

abbrev pub base_object : Option SyncBase → Option Text
base_object base = and_then base (λ b. b.object)

-- Whether the body is not the one last synced.
abbrev pub has_edit : Placement → Bool
has_edit p = is_some p.object && is_none_or p.base (λ b. not (b.object == p.object))

unfoldable pub carried_flags : Placement → RemoteItem → Flags
unfolding Flags.merge
carried_flags old item = Flags.merge (base_flags old.base) old.flags item.flags

carried_status : Status → Bool → Bool → Status
carried_status tombstone edited moved = tombstone
carried_status conflict edited moved = conflict
carried_status _ edited moved = if edited then dirty else if moved then dirty else clean

unfoldable pub status_of : Placement → RemoteItem → Status
unfolding carried_status carried_flags
status_of old item =
    carried_status old.status ((old.status == dirty) && has_edit old)
      (not (carried_flags old item == item.flags))

abbrev pub observed_revision : Status → RemoteItem → Option Text
observed_revision status item = if status == conflict then item.revision else none

-- `ReplicaRekey::carry`.
unfoldable pub carry : CollectionId → Placement → RemoteItem → Option Resolved → Placement
unfolding carried_flags status_of
carry collection old item resolved =
    let status = status_of old item in
    let revision = observed_revision status item in
    record {
      collection = collection;
      handle = item.handle;
      link_id = old.link_id;
      object = old.object;
      level = old.level;
      meta = or_else (and_then resolved (λ r. some r.meta)) old.meta;
      sort_key = unwrap_or (and_then resolved (λ r. some r.sort_key)) old.sort_key;
      flags = carried_flags old item;
      status = status;
      conflict_revision = revision;
      conflict_object = if revision == old.conflict_revision then old.conflict_object else none;
      base =
          some (record {
            flags = item.flags;
            revision = item.revision;
            object = base_object old.base;
          });
      origin = old.origin;
    }

-- `ReplicaRekey::fresh`.
unfoldable pub fresh : CollectionId → RemoteItem → Option Resolved → Placement
fresh collection item resolved = record {
  collection = collection;
  handle = item.handle;
  link_id = and_then resolved (λ r. some r.link_id);
  object = none;
  level = if is_some resolved then meta else probed;
  meta = and_then resolved (λ r. some r.meta);
  sort_key = unwrap_or (and_then resolved (λ r. some r.sort_key)) [];
  flags = item.flags;
  status = clean;
  conflict_revision = none;
  conflict_object = none;
  base = some (record { flags = item.flags; revision = item.revision; object = none });
  origin = none;
}

-- An edit that found no new home.
abbrev pub is_stranded : Placement → Bool
is_stranded p = ((p.status == dirty) || (p.status == conflict)) && has_edit p

abbrev pub resurrected : Placement → Placement
resurrected p = record p {
  status = created;
  conflict_revision = none;
  conflict_object = none;
  base = none;
  origin = none;
}
