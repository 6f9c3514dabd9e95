-- ===== src/Sync/Merge/Covered.antt =====
-- src/sync.rs, `reconcile_flags`: a flag pull on top of an edit that may not be pushed.
use io_replica.Base.{
  ◌≡◌, ◌≢◌, ◌⊎◌, ◌&&◌, false, some, none, [], ◌∷◌, ◌++◌, arith, text_eq, option_eq,
}
use io_replica.Flags.{flags_eq, unknown}
use io_replica.Flags.Laws.{IsOrdered, merge_unchanged}
use io_replica.Placement.{Placement, SyncBase, Hash, status_eq, dirty, clean, staged_edit}
use io_replica.Remote.{RemoteItem}
use io_replica.Change.{upsert_placement}
use io_replica.Sync.Engine.{Sync, Candidate}
use io_replica.Sync.Content.{reconcile_content, local_changed}
use io_replica.Sync.Markers.{reconcile_flags}
use io_replica.Sync.Rows.{pulled_flags_row}
use io_replica.Sync.Merge.{merge}

-- For a dirty row with a staged body and the flags of its base, whose item has no new revision
-- but other flags, all known and ordered, and where content pushes are barred, the merge writes
-- one row, which is clean, still has the staged body, and does not count as changed locally
-- against that base.
pub merge_covered_edit :
    (c : Candidate) (s : Sync) (p : Placement) (base : SyncBase) (item : RemoteItem) (object : Hash)
    → c.local ≡ some p
    → c.remote ≡ some item
    → p.base ≡ some base
    → p.status ≡ dirty
    → staged_edit p ≡ some object
    → (item.revision ≡ none) ⊎ (item.revision ≡ base.revision)
    → s.opts.push && s.opts.rights.content ≡ false
    → p.flags ≡ base.flags
    → IsOrdered base.flags
    → IsOrdered item.flags
    → base.flags ≢ unknown
    → item.flags ≢ unknown
    → item.flags ≢ base.flags
    → (row : Placement) × ((merge c s).0.writes ≡ s.writes ++ upsert_placement row ∷ [])
      × (row.status ≡ clean)
      × (staged_edit row ≡ some object)
      × (local_changed row base ≡ false)
unfolding merge staged_edit pulled_flags_row reconcile_content reconcile_flags
merge_covered_edit c s p base item object l r b d staged same barred f bo io bk ik n =
    let merged = merge_unchanged base.flags item.flags bo io bk ik in
    (
      pulled_flags_row p item.flags,
      ground (arith, merged),
      ground arith,
      ground arith,
      ground arith,
    )
