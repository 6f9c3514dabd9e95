-- ===== src/Sync/Markers.antt =====
-- src/sync.rs, `reconcile_flags`: the flag axis of the merge.
use io_replica.Base.{
  Bool, true, false, ◌&&◌, ◌||◌, not, Option, none, some, text_eq, option_eq, ◌==◌, if◌then◌else◌,
  is_some,
}
use io_replica.Base.Map.{insert}
use io_replica.Flags.{Flags, flags_eq, merge}
use io_replica.Placement.{SyncBase, Placement, status_eq, dirty}
use io_replica.Remote.{RemoteItem}
use io_replica.Change.{ChangeKind, set_flags, upsert_placement}
use io_replica.Sync.Options.{flags_changed}
use io_replica.Sync.Engine.{Sync, push_write, emit, count_pulled}
use io_replica.Sync.Rows.{pull_flags, rebase}

pub data PushFlags : Type 0 where
  derive withhold : PushFlags

abbrev is_withheld : PushFlags → Bool
is_withheld derive = false
is_withheld withhold = true

-- Pulls flags, counts the pull and reports it.
unfoldable pub adopt : Placement → Flags → Sync → Sync
adopt local flags s = emit (flags_changed local.handle) (count_pulled (pull_flags local flags s))

-- A staged body, by the test of the branch where nothing has to move.
abbrev pub content_edit : Placement → SyncBase → Bool
content_edit local base = is_some local.object && not (base.object == local.object)

fold_in : Bool → Placement → Sync → Sync
fold_in true updated s =
    emit (flags_changed updated.handle) (count_pulled (push_write (upsert_placement updated) s))
fold_in false updated s = s

hold_push : PushFlags → Placement → Sync → Sync × Option ChangeKind
hold_push allow updated s =
    if is_withheld allow || not (s.opts.push && s.opts.rights.flags) then (s, none) else (
      record s { pending_flag_pushes = insert updated.handle updated s.pending_flag_pushes },
      some (set_flags updated.handle updated.flags),
    )

-- What is to be done, as (pull, push).
settle : Bool → Bool → Placement → SyncBase → Flags → PushFlags → Sync → Sync × Option ChangeKind
unfolding adopt fold_in hold_push pull_flags rebase
settle false false local base merged allow s =
    if not (local.flags == base.flags) || (local.status == dirty && not (content_edit local base))
    then (rebase local merged s, none)
    else (s, none)
settle true false local base merged allow s = (adopt local merged s, none)
settle pull true local base merged allow s =
    let updated = record local { flags = merged } in
    hold_push allow updated (fold_in pull updated s)

reconcile_onto :
    Option SyncBase → Placement → RemoteItem → PushFlags → Sync → Sync × Option ChangeKind
unfolding adopt settle pull_flags
reconcile_onto none local item allow s = (adopt local item.flags s, none)
reconcile_onto (some base) local item allow s =
    let merged = merge base.flags local.flags item.flags in
    settle (not (merged == local.flags)) (not (merged == item.flags)) local base merged allow s

unfoldable pub reconcile_flags :
    Placement → RemoteItem → PushFlags → Sync → Sync × Option ChangeKind
unfolding reconcile_onto
reconcile_flags local item allow s = reconcile_onto local.base local item allow s
