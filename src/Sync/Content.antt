-- ===== src/Sync/Content.antt =====
-- src/sync.rs, `reconcile_content`: the content axis of the merge.
use io_replica.Base.{
  Bool, true, false, ◌&&◌, not, Option, none, some, Text, text_eq, option_eq, ◌==◌, if◌then◌else◌,
  is_some,
}
use io_replica.Base.Map.{insert}
use io_replica.Placement.{SyncBase, Placement, status_eq, dirty, conflict}
use io_replica.Remote.{RemoteItem}
use io_replica.Change.{ChangeKind, update, upsert_placement}
use io_replica.Sync.Options.{ConflictPolicy, manual, prefer_local, prefer_remote, keep_both}
use io_replica.Sync.Engine.{Sync, push_write}
use io_replica.Sync.Rows.{pull_content, mark_conflict, stage_conflict_dup, expect_body}

pub data ContentOutcome : Type 0 where
  untouched : ContentOutcome
  rewritten : Placement → ContentOutcome
  push : ChangeKind → ContentOutcome

as_rewritten : Sync × Placement → Sync × ContentOutcome
as_rewritten (s, p) = (s, rewritten p)

-- Records the push of a local edit against a revision.
push_edit : Placement → Option Text → Sync → Sync × ContentOutcome
push_edit local if_match s = (
  record s { pending_content_pushes = insert local.handle local s.pending_content_pushes },
  push (update local.handle (expect_body local.object) if_match),
)

resolve_by : ConflictPolicy → Placement → RemoteItem → Sync → Sync × ContentOutcome
unfolding as_rewritten push_edit
resolve_by manual local item s = as_rewritten (mark_conflict local item s)
resolve_by prefer_remote local item s = as_rewritten (pull_content local item s)
resolve_by prefer_local local item s =
    if not (s.opts.push && s.opts.rights.content)
    then as_rewritten (mark_conflict local item s)
    else push_edit local item.revision s
resolve_by keep_both local item s =
    as_rewritten (pull_content local item (stage_conflict_dup local s))

unfoldable pub resolve_conflict : Placement → RemoteItem → Sync → Sync × ContentOutcome
unfolding resolve_by mark_conflict pull_content stage_conflict_dup
resolve_conflict local item s = resolve_by s.opts.conflict local item s

-- The placement of an unresolved conflict, at the revision now observed.
abbrev pub tracked_row : Placement → RemoteItem → Placement
tracked_row local item = record local { conflict_revision = item.revision; conflict_object = none }

track_conflict : Placement → RemoteItem → Sync → Sync × ContentOutcome
track_conflict local item s =
    if is_some item.revision && not (item.revision == local.conflict_revision)
    then (
      push_write (upsert_placement (tracked_row local item)) s,
      rewritten (tracked_row local item),
    )
    else (s, untouched)

-- Which side moved, as (local changed, remote changed).
reconcile_sides : Bool → Bool → Placement → SyncBase → RemoteItem → Sync → Sync × ContentOutcome
unfolding as_rewritten push_edit resolve_conflict pull_content
reconcile_sides false false local base item s = (s, untouched)
reconcile_sides false true local base item s = as_rewritten (pull_content local item s)
reconcile_sides true false local base item s =
    if not (s.opts.push && s.opts.rights.content)
    then (s, untouched)
    else push_edit local base.revision s
reconcile_sides true true local base item s = resolve_conflict local item s

-- The two signals of the content axis.
abbrev pub local_changed : Placement → SyncBase → Bool
local_changed local base =
    (local.status == dirty && is_some local.object) && not (local.object == base.object)

abbrev pub remote_changed : RemoteItem → Option Text → Bool
remote_changed item revision = is_some item.revision && not (item.revision == revision)

reconcile_based : Option SyncBase → Placement → RemoteItem → Sync → Sync × ContentOutcome
unfolding as_rewritten mark_conflict track_conflict reconcile_sides
reconcile_based none local item s =
    if is_some local.object && is_some item.revision
    then as_rewritten (mark_conflict local item s)
    else (s, untouched)
reconcile_based (some base) local item s =
    if local.status == conflict
    then track_conflict local item s
    else reconcile_sides (local_changed local base) (remote_changed item base.revision) local base
        item s

unfoldable pub reconcile_content : Placement → RemoteItem → Sync → Sync × ContentOutcome
unfolding reconcile_based
reconcile_content local item s = reconcile_based local.base local item s
