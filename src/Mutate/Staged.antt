-- ===== src/Mutate/Staged.antt =====
-- src/mutate.rs, `writes`: what a staged mutation becomes at the next merge.
use io_replica.Base.{
  ◌≡◌, ◌≢◌, ◌⊎◌, ◌&&◌, true, is_some, ◌==◌, Option, none, some, arith, text_eq, option_eq,
}
use io_replica.Flags.{Flags, flags_eq, unknown}
use io_replica.Flags.Laws.{IsOrdered, merge_comm, merge_unchanged}
use io_replica.Placement.{
  Handle, CollectionId, Meta, SortKey, Object, Placement, SyncBase, status_eq, clean, dirty,
  conflict, staged_edit,
}
use io_replica.Remote.{RemoteItem}
use io_replica.Change.{add, remove, set_flags, update}
use io_replica.Sync.Engine.{Sync, Candidate}
use io_replica.Sync.Content.{reconcile_content}
use io_replica.Sync.Markers.{reconcile_flags}
use io_replica.Sync.Merge.{merge, destination}
use io_replica.Mutate.{edited_row, flagged_row, removed_row, moved_row, staged_copy}

-- An edit of a clean, based row with a body other than the base's, merged against an item with
-- no new revision where content pushes are permitted, derives the update of that body on the
-- base revision.
pub merge-edited_row :
    (c : Candidate) (s : Sync) (p : Placement) (base : SyncBase) (item : RemoteItem)
    (object : Object) (meta : Option Meta) (sort_key : Option SortKey)
    → c.local ≡ some (edited_row p object meta sort_key)
    → c.remote ≡ some item
    → p.status ≡ clean
    → p.base ≡ some base
    → base.object ≢ some object.hash
    → (item.revision ≡ none) ⊎ (item.revision ≡ base.revision)
    → s.opts.push && s.opts.rights.content ≡ true
    → (merge c s).1 ≡ some (update p.handle object.hash base.revision)
unfolding merge edited_row
merge-edited_row c s p base item object meta sort_key l r st b n same may = ground arith

-- An edit of a conflicted row with a body other than the one recorded for the conflict, merged
-- against an item with no revision past the one observed where content pushes are permitted,
-- derives the update on the revision observed.
pub merge-resolution :
    (c : Candidate) (s : Sync) (p : Placement) (item : RemoteItem) (object : Object)
    (meta : Option Meta) (sort_key : Option SortKey)
    → c.local ≡ some (edited_row p object meta sort_key)
    → c.remote ≡ some item
    → p.status ≡ conflict
    → p.conflict_object ≢ some object.hash
    → (item.revision ≡ none) ⊎ (item.revision ≡ p.conflict_revision)
    → s.opts.push && s.opts.rights.content ≡ true
    → (merge c s).1 ≡ some (update p.handle object.hash p.conflict_revision)
unfolding merge edited_row
merge-resolution c s p item object meta sort_key l r st n same may = ground arith

-- After an edit of a clean row, the row is dirty exactly where it has a staged body.
edited_row-status :
    (p : Placement) (object : Object) (meta : Option Meta) (sort_key : Option SortKey)
    → p.status ≡ clean
    → ((edited_row p object meta sort_key).status == dirty)
      ≡ is_some (staged_edit (edited_row p object meta sort_key))
unfolding edited_row staged_edit
edited_row-status p object meta sort_key st = ground arith

-- The tombstone of a based row without a staged edit, merged against an item with no new
-- revision where removes are permitted, derives the remove on the base revision.
merge-removed_row :
    (c : Candidate) (s : Sync) (p : Placement) (base : SyncBase) (item : RemoteItem)
    → c.local ≡ some (removed_row p)
    → c.remote ≡ some item
    → p.base ≡ some base
    → staged_edit p ≡ none
    → (item.revision ≡ none) ⊎ (item.revision ≡ base.revision)
    → s.opts.push && s.opts.rights.remove ≡ true
    → (merge c s).1 ≡ some (remove c.handle (destination p.origin) p.link_id base.revision)
unfolding merge staged_edit
merge-removed_row c s p base item l r b plain same may = ground arith

-- For a based row without a staged edit, the tombstone of a move merges, against an item with no
-- new revision and with removes permitted, into a remove to the target, and the copy staged in
-- the target merges, with adds permitted, into an add with the source as its origin; both carry
-- the row's link id.
pub merge-moved_row :
    (c d : Candidate) (s t : Sync) (p : Placement) (base : SyncBase) (item : RemoteItem)
    (target : CollectionId) (placeholder : Handle)
    → c.local ≡ some (moved_row p target)
    → c.remote ≡ some item
    → d.local ≡ some (staged_copy p target placeholder)
    → d.remote ≡ none
    → p.base ≡ some base
    → staged_edit p ≡ none
    → (item.revision ≡ none) ⊎ (item.revision ≡ base.revision)
    → s.opts.push && s.opts.rights.remove ≡ true
    → t.opts.push && t.opts.rights.add ≡ true
    → ((merge c s).1 ≡ some (remove c.handle (some target) p.link_id base.revision))
      × ((merge d t).1
          ≡ some (
              add d.handle p.link_id p.flags
                (some (record { collection = p.collection; handle = p.handle }))
                p.object))
unfolding merge staged_edit
merge-moved_row c d s t p base item target placeholder l r l' r' b plain same may may' =
    (ground arith, ground arith)

-- New flags on a clean row with the base's body, known, ordered and not those of the base,
-- merged against an item with the base's flags and no new revision where flag pushes are
-- permitted, derive the push of exactly these flags.
merge-flagged_row :
    (c : Candidate) (s : Sync) (p : Placement) (base : SyncBase) (item : RemoteItem) (flags : Flags)
    → c.local ≡ some (flagged_row p flags)
    → c.remote ≡ some item
    → p.status ≡ clean
    → p.base ≡ some base
    → p.object ≡ base.object
    → IsOrdered base.flags
    → IsOrdered flags
    → base.flags ≢ unknown
    → flags ≢ unknown
    → flags ≢ base.flags
    → item.flags ≡ base.flags
    → (item.revision ≡ none) ⊎ (item.revision ≡ base.revision)
    → s.opts.push && s.opts.rights.flags ≡ true
    → (merge c s).1 ≡ some (set_flags p.handle flags)
unfolding merge flagged_row reconcile_content reconcile_flags
merge-flagged_row c s p base item flags l r st b o bo fo bk fk n f same may = ground (
  arith,
  merge_comm base.flags flags base.flags fo bo,
  merge_unchanged base.flags flags bo fo bk fk,
)
