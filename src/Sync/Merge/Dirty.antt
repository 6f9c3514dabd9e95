-- ===== src/Sync/Merge/Dirty.antt =====
-- src/sync.rs, `merge`: a staged edit whose member did not move.
use io_replica.Base.{◌≡◌, ◌≢◌, ◌⊎◌, ◌&&◌, true, none, some, arith, text_eq, option_eq}
use io_replica.Flags.{flags_eq}
use io_replica.Placement.{Placement, SyncBase, Hash, status_eq, dirty}
use io_replica.Remote.{RemoteItem}
use io_replica.Change.{update}
use io_replica.Sync.Engine.{Sync, Candidate}
use io_replica.Sync.Merge.{merge}

-- A dirty row with a body other than its base's is pushed, on the base revision.
pub merge_dirty :
    (c : Candidate) (s : Sync) (p : Placement) (base : SyncBase) (item : RemoteItem) (o : Hash)
    → c.local ≡ some p
    → c.remote ≡ some item
    → p.status ≡ dirty
    → p.base ≡ some base
    → p.object ≡ some o
    → base.object ≢ some o
    → (item.revision ≡ none) ⊎ (item.revision ≡ base.revision)
    → s.opts.push && s.opts.rights.content ≡ true
    → (merge c s).1 ≡ some (update p.handle o base.revision)
unfolding merge
merge_dirty c s p base item o l r st b e n same may = ground arith
