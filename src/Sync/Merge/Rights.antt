-- ===== src/Sync/Merge/Rights.antt =====
-- src/sync.rs, `merge`: the changes that it derives, and the push rights.
use io_replica.Base.{◌≡◌, Bool, true, ◌&&◌, some, arith, text_eq, option_eq}
use io_replica.Placement.{Placement, SyncBase, status_eq, Handle}
use io_replica.Remote.{RemoteItem}
use io_replica.Flags.{flags_eq}
use io_replica.Change.{ChangeKind, add, remove, set_flags, update}
use io_replica.Sync.Options.{SyncOptions}
use io_replica.Sync.Engine.{Sync, Candidate}
use io_replica.Sync.Content.{ContentOutcome, untouched, rewritten, push, reconcile_content}
use io_replica.Sync.Markers.{reconcile_flags, PushFlags}
use io_replica.Sync.Merge.Cases.{merge_cases}
use io_replica.Sync.Merge.{
  merge, merge_remote_add, merge_tombstone, merge_remote_delete, merge_create, after_content,
  merge_present,
}

-- `opts.push && opts.rights.…`, for the right of the kind.
abbrev pub permits : SyncOptions → ChangeKind → Bool
permits o (add _ _ _ _ _) = o.push && o.rights.add
permits o (remove _ _ _ _) = o.push && o.rights.remove
permits o (set_flags _ _) = o.push && o.rights.flags
permits o (update _ _ _) = o.push && o.rights.content

reconcile_flags-permits :
    (p : Placement) (item : RemoteItem) (allow : PushFlags) (s : Sync) {k : ChangeKind}
    → (reconcile_flags p item allow s).1 ≡ some k
    → permits s.opts k ≡ true
unfolding reconcile_flags
reconcile_flags-permits p item allow s h = ground arith

reconcile_content-opts :
    (p : Placement) (item : RemoteItem) (s : Sync) → (reconcile_content p item s).0.opts ≡ s.opts
unfolding reconcile_content
reconcile_content-opts p item s = ground arith

reconcile_content-permits :
    (p : Placement) (item : RemoteItem) (s : Sync) {k : ChangeKind}
    → (reconcile_content p item s).1 ≡ push k
    → permits s.opts k ≡ true
unfolding reconcile_content
reconcile_content-permits p item s h = ground arith

merge_present-permits :
    (p : Placement) (item : RemoteItem) (s : Sync) {k : ChangeKind}
    → (merge_present p item s).1 ≡ some k
    → permits s.opts k ≡ true
unfolding merge_present
merge_present-permits p item s {k} =
    go (reconcile_content p item s) (reconcile_content-opts p item s)
      (λ k' e. reconcile_content-permits p item s e)
  where
    go :
        (r : Sync × ContentOutcome)
        → r.0.opts ≡ s.opts
        → ((k' : ChangeKind) → r.1 ≡ push k' → permits s.opts k' ≡ true)
        → (after_content p item r).1 ≡ some k
        → permits s.opts k ≡ true
    go (t, push change) same pushed h = ground (arith, pushed change)
    go (t, rewritten row) same pushed h = rw (← same) (reconcile_flags-permits row item _ t h)
    go (t, untouched) same pushed h = rw (← same) (reconcile_flags-permits p item _ t h)

merge_tombstone-permits :
    (handle : Handle) (p : Placement) (base : SyncBase) (item : RemoteItem) (s : Sync)
    {k : ChangeKind}
    → (merge_tombstone handle p base item s).1 ≡ some k
    → permits s.opts k ≡ true
unfolding merge_tombstone
merge_tombstone-permits handle p base item s h = ground arith

merge_remote_delete-permits :
    (handle : Handle) (p : Placement) (s : Sync) {k : ChangeKind}
    → (merge_remote_delete handle p s).1 ≡ some k
    → permits s.opts k ≡ true
unfolding merge_remote_delete
merge_remote_delete-permits handle p s h = ground arith

merge_create-permits :
    (handle : Handle) (p : Placement) (s : Sync) {k : ChangeKind}
    → (merge_create handle p s).1 ≡ some k
    → permits s.opts k ≡ true
unfolding merge_create
merge_create-permits handle p s h = ground arith

-- A merge derives a change only where the options have `push` on and grant the right of that
-- kind of change.
pub merge-permits :
    (c : Candidate) (s : Sync) {k : ChangeKind} → (merge c s).1 ≡ some k → permits s.opts k ≡ true
unfolding merge_remote_add
merge-permits c s {k} =
    merge_cases (λ r. r.1 ≡ some k → permits s.opts k ≡ true) c s (λ h. cc) (λ item _ h. cc)
      (λ p base item _ _ _ _. merge_tombstone-permits c.handle p base item s) (λ p _ _ _ h. cc)
      (λ p item _ _ _. merge_present-permits p item s)
      (λ p base _ _ _ _. merge_remote_delete-permits c.handle p s)
      (λ p _ _ _ _. merge_create-permits c.handle p s)
