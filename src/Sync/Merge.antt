-- ===== src/Sync/Merge.antt =====
-- src/sync.rs, `merge`: the three-way merge of one candidate.
pub mod Cases
pub mod Rights
pub mod Held
pub mod Writes
pub mod Quiet
pub mod Deletes
pub mod Conflicts
pub mod Cursor
pub mod Covered
pub mod Dirty
pub mod Effects
pub mod Taken
pub mod Pulled
use io_replica.Base.{
  Bool, ◌&&◌, ◌||◌, not, Option, none, some, Text, text_eq, option_eq, ◌==◌, if◌then◌else◌, is_some,
  is_some_and,
}
use io_replica.Base.Map.{insert}
use io_replica.Base.Set
use io_replica.Placement.{
  Handle, Placement, SyncBase, Origin, status_eq, dirty, tombstone, conflict, created, staged_edit,
}
use io_replica.Remote.{RemoteItem}
use io_replica.Change.{ChangeKind, add, remove, update, deleted, upsert_placement}
use io_replica.Sync.Options.{added, vanished}
use io_replica.Sync.Engine.{Sync, Candidate, push_write, emit, count_pulled}
use io_replica.Sync.Rows.{drop, pull_add, refuse_delete, expect_body}
use io_replica.Sync.Content.{
  ContentOutcome, untouched, rewritten, push, reconcile_content, remote_changed,
}
use io_replica.Sync.Markers.{derive, withhold, reconcile_flags}

-- The remote holds a member that is not here: pull it.
pub merge_remote_add : Handle → RemoteItem → Sync → Sync × Option ChangeKind
unfolding pull_add
merge_remote_add handle item s = (emit (added handle) (count_pulled (pull_add item s)), none)

abbrev pub destination : Option Origin → Option Text
destination none = none
destination (some o) = some o.collection

-- A local delete or move of something that the remote still holds.
pub merge_tombstone : Handle → Placement → SyncBase → RemoteItem → Sync → Sync × Option ChangeKind
unfolding merge_remote_add refuse_delete staged_edit Set.insert
merge_tombstone handle local base item s =
    if remote_changed item base.revision
    then merge_remote_add handle item s
    else if is_some (staged_edit local) && is_some local.origin
    then if not (s.opts.push && s.opts.rights.content) then refuse_delete local s else (
      record s { pending_content_pushes = insert handle local s.pending_content_pushes },
      some (update handle (expect_body local.object) base.revision),
    )
    else if not (s.opts.push && s.opts.rights.remove)
    then refuse_delete local s
    else (
      record s { pending_drops = Set.insert handle s.pending_drops },
      some (remove handle (destination local.origin) local.link_id base.revision),
    )

-- A staged edit that outlives a remote delete.
abbrev pub is_edited : Placement → Bool
is_edited local =
    ((local.status == dirty || local.status == conflict) && is_some local.object)
    && is_some_and local.base (λ b. not (local.object == b.object))

abbrev pub resurrected_row : Placement → Placement
resurrected_row local = record local {
  status = created;
  conflict_revision = none;
  conflict_object = none;
  base = none;
  origin = none;
}

-- Holds a create until its push is answered.
hold_create : Handle → Placement → Sync → Sync × Option ChangeKind
hold_create handle row s = (
  record s { pending_creates = insert handle row s.pending_creates },
  some (add handle row.link_id row.flags row.origin row.object),
)

resurrect : Handle → Placement → Sync → Sync × Option ChangeKind
unfolding hold_create
resurrect handle row s =
    let written = push_write (upsert_placement row) s in
    if not (s.opts.push && s.opts.rights.add)
    then (written, none)
    else hold_create handle row written

-- It was in sync and vanished upstream.
pub merge_remote_delete : Handle → Placement → Sync → Sync × Option ChangeKind
unfolding resurrect drop
merge_remote_delete handle local s =
    if is_edited local
    then resurrect handle (resurrected_row local) s
    else (emit (vanished handle) (count_pulled (drop handle deleted s)), none)

-- The flag axis after the content axis, on the copy that the content axis left.
pub after_content : Placement → RemoteItem → Sync × ContentOutcome → Sync × Option ChangeKind
unfolding reconcile_flags
after_content local item (s, push change) = ((reconcile_flags local item withhold s).0, some change)
after_content local item (s, rewritten row) = reconcile_flags row item derive s
after_content local item (s, untouched) = reconcile_flags local item derive s

pub merge_present : Placement → RemoteItem → Sync → Sync × Option ChangeKind
unfolding after_content reconcile_content
merge_present local item s = after_content local item (reconcile_content local item s)

-- A pending copy, move or append.
pub merge_create : Handle → Placement → Sync → Sync × Option ChangeKind
unfolding hold_create
merge_create handle local s =
    if (s.opts.push && s.opts.rights.add) && local.status == created
    then hold_create handle local s
    else (s, none)

-- The arms of a placement that is deleted here, by its base and the remote item.
merge_deleted :
    Handle → Placement → Option SyncBase → Option RemoteItem → Sync → Sync × Option ChangeKind
unfolding merge_tombstone merge_remote_add drop
merge_deleted handle local (some base) (some item) s = merge_tombstone handle local base item s
merge_deleted handle local none (some item) s = merge_remote_add handle item s
merge_deleted handle local _ none s = (drop handle deleted s, none)

-- The arms of a placement that is present here.
merge_live :
    Handle → Placement → Option SyncBase → Option RemoteItem → Sync → Sync × Option ChangeKind
unfolding merge_present merge_remote_delete merge_create
merge_live handle local _ (some item) s = merge_present local item s
merge_live handle local (some base) none s = merge_remote_delete handle local s
merge_live handle local none none s = merge_create handle local s

merge_sides : Handle → Option Placement → Option RemoteItem → Sync → Sync × Option ChangeKind
unfolding merge_deleted merge_live merge_remote_add
merge_sides handle none none s = (s, none)
merge_sides handle none (some item) s = merge_remote_add handle item s
merge_sides handle (some local) remote s =
    if local.status == tombstone
    then merge_deleted handle local local.base remote s
    else merge_live handle local local.base remote s

unfoldable pub merge : Candidate → Sync → Sync × Option ChangeKind
unfolding merge_sides
merge c s = merge_sides c.handle c.local c.remote s
