-- ===== src/Sync/Merge/Conflicts.antt =====
-- src/sync.rs, `reconcile_content` and `resolve_conflict`: content edits against content edits.
use io_replica.Base.{◌≡◌, ◌≢◌, ◌⊎◌, false, Option, some, arith, Text, text_eq, option_eq}
use io_replica.Flags.{flags_eq}
use io_replica.Placement.{Placement, SyncBase, status_eq, Hash, Handle}
use io_replica.Remote.{RemoteItem}
use io_replica.Change.{update}
use io_replica.Sync.Options.{prefer_local}
use io_replica.Sync.Engine.{Sync, Candidate}
use io_replica.Sync.Content.{remote_changed, reconcile_content, push}
use io_replica.Sync.Markers.{reconcile_flags, PushFlags, derive}
use io_replica.Sync.Merge.Cases.{merge_cases, present_cases}
use io_replica.Sync.Merge.{merge, merge_remote_add, merge_tombstone}

-- The precondition of a content push: the base's revision, where the remote did not move past
-- it, or the revision observed, where the policy is to overwrite that.
abbrev pub IsGuarded : SyncBase → RemoteItem → Sync → Option Text → Type 0
IsGuarded base item s if_match =
    ((if_match ≡ base.revision) × (remote_changed item base.revision ≡ false))
    ⊎ ((if_match ≡ item.revision) × (s.opts.conflict ≡ prefer_local))

reconcile_content-IsGuarded :
    (p : Placement) (base : SyncBase) (item : RemoteItem) (s t : Sync) (h : Handle) (object : Hash)
    (m : Option Text)
    → p.base ≡ some base
    → reconcile_content p item s ≡ (t, push (update h object m))
    → IsGuarded base item s m
unfolding reconcile_content
reconcile_content-IsGuarded p base item s t h object m b e = ground arith

reconcile_flags-ne-update :
    (p : Placement) (item : RemoteItem) (allow : PushFlags) (s : Sync) (h : Handle) (object : Hash)
    (m : Option Text)
    → (reconcile_flags p item allow s).1 ≢ some (update h object m)
unfolding reconcile_flags
reconcile_flags-ne-update p item allow s h object m e = ground arith

merge_tombstone-IsGuarded :
    (handle : Handle) (p : Placement) (base : SyncBase) (item : RemoteItem) (s : Sync) (h : Handle)
    (object : Hash) (m : Option Text)
    → (merge_tombstone handle p base item s).1 ≡ some (update h object m)
    → IsGuarded base item s m
unfolding merge_tombstone
merge_tombstone-IsGuarded handle p base item s h object m e = ground arith

-- A content push that a merge derives is conditioned on the base revision only where the remote
-- still stands at it, and on a newer one only under the policy that prefers the local side.
pub merge-IsGuarded :
    (c : Candidate) (s : Sync) (p : Placement) (base : SyncBase) (item : RemoteItem) (h : Handle)
    (object : Hash) (if_match : Option Text)
    → c.local ≡ some p
    → c.remote ≡ some item
    → p.base ≡ some base
    → (merge c s).1 ≡ some (update h object if_match)
    → IsGuarded base item s if_match
unfolding merge_remote_add
merge-IsGuarded c s p base item h object m l r b =
    merge_cases (λ o. o.1 ≡ some (update h object m) → IsGuarded base item s m) c s (λ e. cc)
      (λ i _ e. cc)
      (λ q base' i l' _ b' r' e.
        ground (arith, merge_tombstone-IsGuarded c.handle q base' i s h object m e))
      (λ q _ _ r' e. cc)
      (λ q i l' _ r'.
        present_cases (λ o. o.1 ≡ some (update h object m) → IsGuarded base item s m) q i s
          (λ t change e k. ground (arith, reconcile_content-IsGuarded q base i s t h object m))
          (λ t row e k. absurd (reconcile_flags-ne-update row i derive t h object m k))
          (λ t e k. absurd (reconcile_flags-ne-update q i derive t h object m k)))
      (λ q _ _ _ _ r' e. cc) (λ q _ _ _ r' e. cc)
