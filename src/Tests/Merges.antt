-- ===== src/Tests/Merges.antt =====
-- The theorems on the merge of one member, at small mailboxes.
use io_replica.Base.{◌≡◌, refl, true, none, some, [], ◌∷◌, ◌++◌, bytes, inl, inr, arith}
use io_replica.Change.{add, update, kind_handle, upsert_placement}
use io_replica.Placement.{Status, Placement, staged_edit, probed}
use io_replica.Base.{false}
use io_replica.Remote.{RemoteItem}
use io_replica.Sync.Engine.{Sync}
use io_replica.Sync.Content.{local_changed}
use io_replica.Sync.Merge.Covered.{merge_covered_edit}
use io_replica.Sync.Merge.{merge}
use io_replica.Sync.Merge.Rights.{permits, merge-permits}
use io_replica.Sync.Merge.Held.{recorded, merge-IsFiled}
use io_replica.Sync.Merge.Conflicts.{IsGuarded, merge-IsGuarded}
use io_replica.Sync.Merge.Deletes.{merge_edit_of_vanished, merge_update_of_deleted}
use io_replica.Tests.Data.{
  seen, no_flags, mail, base_v1, edited, edit_hash, at_revision, candidate, fresh,
}

merge-permits_example : permits fresh.opts (update (bytes "1") edit_hash (some (bytes "v1"))) ≡ true
unfolding merge fresh
merge-permits_example =
    merge-permits (candidate (edited Status.dirty) (some (at_revision (bytes "v1")))) fresh
      {k = update (bytes "1") edit_hash (some (bytes "v1"))} (ground arith)

merge-IsFiled_example :
    (kind_handle (update (bytes "1") edit_hash (some (bytes "v1"))) ≡ bytes "1")
    × (recorded
          (update (bytes "1") edit_hash (some (bytes "v1")))
          (merge (candidate (edited Status.dirty) (some (at_revision (bytes "v1")))) fresh).0
        ≡ some (update (bytes "1") edit_hash (some (bytes "v1"))))
unfolding merge fresh
merge-IsFiled_example =
    merge-IsFiled (candidate (edited Status.dirty) (some (at_revision (bytes "v1")))) fresh
      (λ p e. ground arith) (update (bytes "1") edit_hash (some (bytes "v1"))) (ground arith)

merge-IsGuarded_example : IsGuarded base_v1 (at_revision (bytes "v1")) fresh (some (bytes "v1"))
unfolding merge fresh
merge-IsGuarded_example =
    merge-IsGuarded (candidate (edited Status.dirty) (some (at_revision (bytes "v1")))) fresh
      (edited Status.dirty) base_v1 (at_revision (bytes "v1")) (bytes "1") edit_hash
      (some (bytes "v1")) refl refl refl (ground arith)

merge_edit_of_vanished_example :
    (row : Placement) × ((merge (candidate (edited Status.dirty) none) fresh).0.writes
      ≡ fresh.writes ++ upsert_placement row ∷ [])
    × (row ≡ record (edited Status.dirty) {
      status = Status.created;
      conflict_revision = none;
      conflict_object = none;
      base = none;
      origin = none;
    })
    × ((merge (candidate (edited Status.dirty) none) fresh).1
        ≡ some (add (bytes "1") (some (bytes "m")) no_flags none (some edit_hash)))
    × ((merge (record { handle = bytes "1"; local = some row; remote = none }) fresh).0.writes
        ≡ fresh.writes)
    × ((merge (record { handle = bytes "1"; local = some row; remote = none }) fresh).1
        ≡ some (add (bytes "1") (some (bytes "m")) no_flags none (some edit_hash)))
unfolding fresh staged_edit
merge_edit_of_vanished_example =
    merge_edit_of_vanished (candidate (edited Status.dirty) none) fresh fresh (edited Status.dirty)
      base_v1 edit_hash refl refl refl (inl refl) (ground arith)

merge_update_of_deleted_example :
    (row : Placement) × ((merge
        (candidate (edited Status.tombstone) (some (at_revision (bytes "v2"))))
        fresh).0.writes
      ≡ fresh.writes ++ upsert_placement row ∷ [])
    × ((merge (candidate (edited Status.tombstone) (some (at_revision (bytes "v2")))) fresh).1
        ≡ none)
    × ((merge
          (candidate (edited Status.tombstone) (some (at_revision (bytes "v2"))))
          fresh).0.pending_drops
        ≡ fresh.pending_drops)
    × (row ≡ record (mail (bytes "1") Status.clean no_flags) {
      link_id = none;
      object = none;
      level = probed;
      base = some (record { flags = no_flags; revision = some (bytes "v2"); object = none });
    })
    × (merge
          (record {
            handle = bytes "1";
            local = some row;
            remote = some (at_revision (bytes "v2"));
          })
          fresh
        ≡ (fresh, none))
unfolding fresh
merge_update_of_deleted_example =
    merge_update_of_deleted (candidate (edited Status.tombstone) (some (at_revision (bytes "v2"))))
      fresh fresh (edited Status.tombstone) base_v1 (at_revision (bytes "v2")) refl refl refl refl
      (ground arith) (ground arith) tt

-- A run that may not push, and the mail flagged upstream at the revision that was synced.
abbrev read_only : Sync
read_only = record fresh { opts = record (fresh.opts) { push = false } }

abbrev flagged_upstream : RemoteItem
flagged_upstream = record (at_revision (bytes "v1")) { flags = seen }

merge_covered_edit_example :
    (row : Placement) × ((merge
        (candidate (edited Status.dirty) (some flagged_upstream))
        read_only).0.writes
      ≡ read_only.writes ++ upsert_placement row ∷ [])
    × (row.status ≡ Status.clean)
    × (staged_edit row ≡ some edit_hash)
    × (local_changed row base_v1 ≡ false)
unfolding fresh staged_edit
merge_covered_edit_example =
    merge_covered_edit (candidate (edited Status.dirty) (some flagged_upstream)) read_only
      (edited Status.dirty) base_v1 flagged_upstream edit_hash refl refl refl refl (ground arith)
      (inr refl) refl refl tt (tt, tt) (ground arith) (ground arith) (ground arith)
