-- ===== src/Sync/Merge/Deletes.antt =====
-- src/sync.rs, `merge`: deletes against edits, and moves.
use io_replica.Base.{
  ◌≡◌, ◌≢◌, ◌⊎◌, true, ◌&&◌, none, some, [], ◌∷◌, ◌++◌, arith, text_eq, option_eq, if◌then◌else◌,
  refl,
}
use io_replica.Placement.{
  Placement, SyncBase, status_eq, clean, created, dirty, conflict, tombstone, probed, staged_edit,
  Hash,
}
use io_replica.Remote.{RemoteItem}
use io_replica.Change.{add, remove, update, upsert_placement}
use io_replica.Sync.Engine.{Sync, Candidate}
use io_replica.Sync.Rows.{pulled_row}
use io_replica.Sync.Merge.{merge, destination}
use io_replica.Sync.Merge.Quiet.{merge_settled, pulled_row-IsSettled}
use io_replica.Flags.Laws.{IsOrdered}

-- For a dirty or conflicted row with a staged body and a base, whose member is gone upstream,
-- the merge writes one row, a created one with no base, no origin and no conflict, the rest of
-- it kept, and derives its add with the staged body where the options permit. A later merge of
-- that row, still without a member, writes nothing and derives the same add where its options
-- permit.
pub merge_edit_of_vanished :
    (c : Candidate) (s t : Sync) (p : Placement) (base : SyncBase) (object : Hash)
    → c.local ≡ some p
    → c.remote ≡ none
    → p.base ≡ some base
    → (p.status ≡ dirty) ⊎ (p.status ≡ conflict)
    → staged_edit p ≡ some object
    → (row : Placement) × ((merge c s).0.writes ≡ s.writes ++ upsert_placement row ∷ [])
      × (row ≡ record p {
        status = created;
        conflict_revision = none;
        conflict_object = none;
        base = none;
        origin = none;
      })
      × ((merge c s).1 ≡ (
          if s.opts.push && s.opts.rights.add
          then some (add c.handle p.link_id p.flags none (some object))
          else none))
      × ((merge (record { handle = c.handle; local = some row; remote = none }) t).0.writes
          ≡ t.writes)
      × ((merge (record { handle = c.handle; local = some row; remote = none }) t).1 ≡ (
          if t.opts.push && t.opts.rights.add
          then some (add c.handle p.link_id p.flags none (some object))
          else none))
unfolding merge staged_edit
merge_edit_of_vanished c s t p base object l r b edited staged = (
  record p {
    status = created;
    conflict_revision = none;
    conflict_object = none;
    base = none;
    origin = none;
  },
  ground arith,
  refl,
  ground arith,
  ground arith,
  ground arith,
)

-- For a based tombstone whose member has a new revision upstream and flags in order, the merge
-- writes one clean, unlinked, probed row without a body, with the item's handle and flags and a
-- base of its flags and revision; it derives no change and holds no drop, and a later merge of
-- that row with the same item changes nothing and derives nothing.
pub merge_update_of_deleted :
    (c : Candidate) (s t : Sync) (p : Placement) (base : SyncBase) (item : RemoteItem)
    → c.local ≡ some p
    → c.remote ≡ some item
    → p.base ≡ some base
    → p.status ≡ tombstone
    → item.revision ≢ none
    → item.revision ≢ base.revision
    → IsOrdered item.flags
    → (row : Placement) × ((merge c s).0.writes ≡ s.writes ++ upsert_placement row ∷ [])
      × ((merge c s).1 ≡ none)
      × ((merge c s).0.pending_drops ≡ s.pending_drops)
      × (row ≡ record {
        collection = s.collection;
        handle = item.handle;
        link_id = none;
        object = none;
        level = probed;
        meta = none;
        sort_key = [];
        flags = item.flags;
        status = clean;
        conflict_revision = none;
        conflict_object = none;
        base = some (record { flags = item.flags; revision = item.revision; object = none });
        origin = none;
      })
      × (merge (record { handle = c.handle; local = some row; remote = some item }) t ≡ (t, none))
unfolding merge pulled_row
merge_update_of_deleted c s t p base item l r b d n m o = (
  pulled_row s.collection item,
  ground arith,
  ground arith,
  ground arith,
  refl,
  merge_settled
      (record {
        handle = c.handle;
        local = some (pulled_row s.collection item);
        remote = some item;
      })
      t (pulled_row s.collection item) item refl refl (pulled_row-IsSettled s.collection item o),
)

-- For a tombstone without an edit to move, whose member shows no new revision, and with removes
-- permitted, the merge writes nothing and derives the remove, to the destination and conditioned
-- on the base revision.
pub merge_deleted_unchanged :
    (c : Candidate) (s : Sync) (p : Placement) (base : SyncBase) (item : RemoteItem)
    → c.local ≡ some p
    → c.remote ≡ some item
    → p.base ≡ some base
    → p.status ≡ tombstone
    → (item.revision ≡ none) ⊎ (item.revision ≡ base.revision)
    → (staged_edit p ≡ none) ⊎ (p.origin ≡ none)
    → s.opts.push && s.opts.rights.remove ≡ true
    → ((merge c s).0.writes ≡ s.writes)
      × ((merge c s).1 ≡ some (remove c.handle (destination p.origin) p.link_id base.revision))
unfolding merge staged_edit
merge_deleted_unchanged c s p base item l r b t same plain may = (ground arith, ground arith)

-- For a tombstone of a move with a staged body, whose member shows no new revision, and with
-- content pushes permitted, the merge derives the update of the body, writes nothing and holds
-- no drop.
merge_moved_edit :
    (c : Candidate) (s : Sync) (p : Placement) (base : SyncBase) (item : RemoteItem) (object : Hash)
    → c.local ≡ some p
    → c.remote ≡ some item
    → p.base ≡ some base
    → p.status ≡ tombstone
    → (item.revision ≡ none) ⊎ (item.revision ≡ base.revision)
    → staged_edit p ≡ some object
    → p.origin ≢ none
    → s.opts.push && s.opts.rights.content ≡ true
    → ((merge c s).0.writes ≡ s.writes)
      × ((merge c s).1 ≡ some (update c.handle object base.revision))
      × ((merge c s).0.pending_drops ≡ s.pending_drops)
unfolding merge staged_edit
merge_moved_edit c s p base item object l r b t same staged moved may =
    (ground arith, ground arith, ground arith)
