-- ===== src/Sync/Merge/Cursor.antt =====
-- src/sync.rs, `merge`: the checkpoints among the writes.
use io_replica.Base.{◌≡◌, refl, ap, ◌∙◌, List, [], ◌∷◌, ◌++◌, arith, text_eq, option_eq}
use mathlib.Core.List.{append-nil}
use io_replica.Placement.{Placement, SyncBase, Handle, Checkpoint, CollectionId, status_eq}
use io_replica.Remote.{RemoteItem}
use io_replica.Flags.{flags_eq}
use io_replica.Change.{
  WriteOp, DropReason, upsert_placement, drop_placement, store_object, set_checkpoint,
}
use io_replica.Sync.Rows.{drop}
use io_replica.Sync.Engine.{Sync, Candidate}
use io_replica.Sync.Content.{reconcile_content}
use io_replica.Sync.Markers.{reconcile_flags, PushFlags, withhold, derive}
use io_replica.Sync.Merge.Cases.{merge_cases, present_cases}
use io_replica.Sync.Merge.{
  merge, merge_remote_add, merge_tombstone, merge_remote_delete, merge_create, merge_present,
}

-- The checkpoints that a batch writes.
abbrev pub checkpoints : List WriteOp → List Checkpoint
checkpoints [] = []
checkpoints (set_checkpoint _ checkpoint ∷ ops) = checkpoint ∷ checkpoints ops
checkpoints (drop_placement _ _ _ ∷ ops) = checkpoints ops
checkpoints (upsert_placement _ ∷ ops) = checkpoints ops
checkpoints (store_object _ _ ∷ ops) = checkpoints ops

pub checkpoints-append :
    (ops : List WriteOp) (op : WriteOp)
    → checkpoints (ops ++ op ∷ []) ≡ checkpoints ops ++ checkpoints (op ∷ [])
checkpoints-append [] op = refl
checkpoints-append (set_checkpoint _ c ∷ ops) op = ap (◌∷◌ c) (checkpoints-append ops op)
checkpoints-append (drop_placement _ _ _ ∷ ops) op = checkpoints-append ops op
checkpoints-append (upsert_placement _ ∷ ops) op = checkpoints-append ops op
checkpoints-append (store_object _ _ ∷ ops) op = checkpoints-append ops op

pub checkpoints-upsert :
    (ops : List WriteOp) (p : Placement)
    → checkpoints (ops ++ upsert_placement p ∷ []) ≡ checkpoints ops
checkpoints-upsert ops p =
    checkpoints-append ops (upsert_placement p) ∙ append-nil (checkpoints ops)

pub checkpoints-drop :
    (ops : List WriteOp) (c : CollectionId) (h : Handle) (reason : DropReason)
    → checkpoints (ops ++ drop_placement c h reason ∷ []) ≡ checkpoints ops
checkpoints-drop ops c h reason =
    checkpoints-append ops (drop_placement c h reason) ∙ append-nil (checkpoints ops)

reconcile_flags-checkpoints :
    (p : Placement) (item : RemoteItem) (allow : PushFlags) (s : Sync)
    → checkpoints (reconcile_flags p item allow s).0.writes ≡ checkpoints s.writes
unfolding reconcile_flags
reconcile_flags-checkpoints p item allow s = grind (arith, checkpoints-upsert)

reconcile_content-checkpoints :
    (p : Placement) (item : RemoteItem) (s : Sync)
    → checkpoints (reconcile_content p item s).0.writes ≡ checkpoints s.writes
unfolding reconcile_content
reconcile_content-checkpoints p item s = grind (arith, checkpoints-upsert)

merge_tombstone-checkpoints :
    (handle : Handle) (p : Placement) (base : SyncBase) (item : RemoteItem) (s : Sync)
    → checkpoints (merge_tombstone handle p base item s).0.writes ≡ checkpoints s.writes
unfolding merge_tombstone
merge_tombstone-checkpoints handle p base item s = grind (arith, checkpoints-upsert)

merge_remote_delete-checkpoints :
    (handle : Handle) (p : Placement) (s : Sync)
    → checkpoints (merge_remote_delete handle p s).0.writes ≡ checkpoints s.writes
unfolding merge_remote_delete
merge_remote_delete-checkpoints handle p s = grind (arith, checkpoints-upsert, checkpoints-drop)

merge_create-checkpoints :
    (handle : Handle) (p : Placement) (s : Sync)
    → checkpoints (merge_create handle p s).0.writes ≡ checkpoints s.writes
unfolding merge_create
merge_create-checkpoints handle p s = ground arith

merge_present-checkpoints :
    (p : Placement) (item : RemoteItem) (s : Sync)
    → checkpoints (merge_present p item s).0.writes ≡ checkpoints s.writes
merge_present-checkpoints p item s =
    let content = reconcile_content-checkpoints p item s in
    present_cases (λ r. checkpoints r.0.writes ≡ checkpoints s.writes) p item s
      (λ t change e. cc (reconcile_flags-checkpoints p item withhold t, content, e))
      (λ t row e. cc (reconcile_flags-checkpoints row item derive t, content, e))
      (λ t e. cc (reconcile_flags-checkpoints p item derive t, content, e))

-- A merge adds no checkpoint to the writes.
pub checkpoints-merge :
    (c : Candidate) (s : Sync) → checkpoints (merge c s).0.writes ≡ checkpoints s.writes
unfolding merge_remote_add drop
checkpoints-merge c s =
    merge_cases (λ r. checkpoints r.0.writes ≡ checkpoints s.writes) c s refl
      (λ item _. grind (arith, checkpoints-upsert))
      (λ p base item _ _ _ _. merge_tombstone-checkpoints c.handle p base item s)
      (λ p _ _ _. grind (arith, checkpoints-drop))
      (λ p item _ _ _. merge_present-checkpoints p item s)
      (λ p base _ _ _ _. merge_remote_delete-checkpoints c.handle p s)
      (λ p _ _ _ _. merge_create-checkpoints c.handle p s)
