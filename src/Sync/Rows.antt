-- ===== src/Sync/Rows.antt =====
-- src/sync.rs, the rows that a sync writes: pulls, rebases, drops and conflict marks.
use io_replica.Base.{
  Option, none, some, [], ◌∷◌, ◌++◌, Text, bytes, ◌==◌, if◌then◌else◌, unwrap_or, and_then,
}
use io_replica.Flags.{Flags, flags_eq}
use io_replica.Flags
use io_replica.Placement.{
  Handle, Hash, SyncBase, Placement, Status, clean, dirty, tombstone, conflict, created, status_eq,
  probed, full,
}
use io_replica.Remote.{RemoteItem}
use io_replica.Change.{ChangeKind, DropReason, superseded, upsert_placement, drop_placement}
use io_replica.Sync.Options.{content_changed, conflicted, revert, keep, DeletePolicy}
use io_replica.Sync.Engine.{Sync, push_write, emit, count_conflict, count_refreshed}

-- The revision and the body of a base that may be missing.
abbrev pub base_revision : Option SyncBase → Option Text
base_revision base = and_then base (λ b. b.revision)

abbrev pub base_object : Option SyncBase → Option Hash
base_object base = and_then base (λ b. b.object)

unfoldable pub drop : Handle → DropReason → Sync → Sync
drop handle reason s = push_write (drop_placement s.collection handle reason) s

-- The row that `pull_add` upserts.
unfoldable pub pulled_row : Text → RemoteItem → Placement
pulled_row collection item = record {
  collection = collection;
  handle = item.handle;
  link_id = none;
  object = none;
  level = probed;
  meta = none;
  sort_key = [];
  flags = item.flags;
  status = clean;
  conflict_revision = none;
  conflict_object = none;
  base = some (record { flags = item.flags; revision = item.revision; object = none });
  origin = none;
}

unfoldable pub pull_add : RemoteItem → Sync → Sync
unfolding pulled_row
pull_add item s = push_write (upsert_placement (pulled_row s.collection item)) s

-- The row that a remote content change leaves.
unfoldable pub refreshed_row : Placement → RemoteItem → Placement
refreshed_row local item = record local {
  object = none;
  level = probed;
  base = and_then local.base (λ b. some (record b { revision = item.revision; object = none }));
}

unfoldable pub pull_content : Placement → RemoteItem → Sync → Sync × Placement
unfolding refreshed_row
pull_content local item s =
    let updated = refreshed_row local item in
    (
      emit (content_changed local.handle)
          (count_refreshed (push_write (upsert_placement updated) s)),
      updated,
    )

-- An unresolved conflict keeps its status; everything else lands clean.
abbrev pub settled_status : Status → Status
settled_status status = if status == conflict then conflict else clean

-- The base with other flags, its revision and body kept.
abbrev pub with_flags : Option SyncBase → Flags → Option SyncBase
with_flags base flags =
    some (record { flags = flags; revision = base_revision base; object = base_object base })

unfoldable pub pulled_flags_row : Placement → Flags → Placement
pulled_flags_row local flags = record local {
  flags = flags;
  status = settled_status local.status;
  base = with_flags local.base flags;
}

unfoldable pub pull_flags : Placement → Flags → Sync → Sync
unfolding pulled_flags_row
pull_flags local flags s = push_write (upsert_placement (pulled_flags_row local flags)) s

unfoldable pub rebased_row : Placement → Flags → Placement
rebased_row local flags = record local {
  status = settled_status local.status;
  base = with_flags local.base flags;
}

unfoldable pub rebase : Placement → Flags → Sync → Sync
unfolding rebased_row
rebase local flags s = push_write (upsert_placement (rebased_row local flags)) s

abbrev pub base_flags : Option SyncBase → Flags
base_flags none = Flags.default
base_flags (some b) = b.flags

unfoldable pub rebased_content_row : Placement → Option Text → Placement
rebased_content_row local revision = record local {
  status =
      if local.status == tombstone
      then tombstone
      else if local.flags == base_flags local.base
      then clean
      else dirty;
  base =
      some (record { flags = base_flags local.base; revision = revision; object = local.object });
}

unfoldable pub rebase_content : Placement → Option Text → Sync → Sync
unfolding rebased_content_row
rebase_content local revision s =
    push_write (upsert_placement (rebased_content_row local revision)) s

unfoldable pub rekeyed_row : Placement → Handle → Option Text → Placement
rekeyed_row placeholder handle revision = record placeholder {
  handle = handle;
  status = clean;
  origin = none;
  base =
      some (record { flags = placeholder.flags; revision = revision; object = placeholder.object });
}

unfoldable pub rekey_create : Placement → Handle → Option Text → Sync → Sync
unfolding drop rekeyed_row
rekey_create placeholder handle revision s =
    push_write (upsert_placement (rekeyed_row placeholder handle revision))
      (drop placeholder.handle superseded s)

settle_refused : DeletePolicy → Placement → Sync → Sync
settle_refused revert local s = push_write (upsert_placement (record local { status = clean })) s
settle_refused keep local s = s

unfoldable pub refuse_delete : Placement → Sync → Sync × Option ChangeKind
unfolding settle_refused
refuse_delete local s = (settle_refused s.opts.delete local s, none)

unfoldable pub conflicted_row : Placement → RemoteItem → Placement
conflicted_row local item = record local {
  status = conflict;
  conflict_revision = item.revision;
  conflict_object = none;
}

unfoldable pub mark_conflict : Placement → RemoteItem → Sync → Sync × Placement
unfolding conflicted_row
mark_conflict local item s =
    let row = conflicted_row local item in
    (emit (conflicted local.handle) (count_conflict (push_write (upsert_placement row) s)), row)

-- `object.expect("a staged edited body")`. Rust panics on `none`; the callers guard it.
abbrev pub expect_body : Option Hash → Hash
expect_body object = unwrap_or object []

unfoldable pub duplicate_row : Text → Placement → Hash → Placement
duplicate_row collection local object = record {
  collection = collection;
  handle = local.handle ++ 1 ∷ object;
  link_id = some (bytes "keepboth" ++ 1 ∷ object);
  object = some object;
  level = full;
  meta = local.meta;
  sort_key = local.sort_key;
  flags = local.flags;
  status = created;
  conflict_revision = none;
  conflict_object = none;
  base = none;
  origin = none;
}

unfoldable pub stage_conflict_dup : Placement → Sync → Sync
unfolding duplicate_row
stage_conflict_dup local s =
    push_write (upsert_placement (duplicate_row s.collection local (expect_body local.object))) s
