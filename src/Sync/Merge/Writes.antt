-- ===== src/Sync/Merge/Writes.antt =====
-- src/sync.rs, `merge`: what it writes, and what it leaves alone.
use io_replica.Base.{
  ◌≡◌, refl, sym, ap, ◌∙◌, ◌≢◌, none, List, [], ◌∷◌, ◌++◌, arith, text_eq, option_eq,
}
use io_replica.Placement.{Placement, SyncBase, status_eq, Handle}
use io_replica.Remote.{RemoteItem}
use io_replica.Flags.{flags_eq}
use io_replica.Change.{WriteOp, upsert_placement, drop_placement, store_object, set_checkpoint}
use io_replica.Sync.Options.{empty_report}
use io_replica.Sync.Rows.{drop}
use io_replica.Sync.Engine.{Sync, Candidate}
use io_replica.Sync.Content.{reconcile_content}
use io_replica.Sync.Markers.{reconcile_flags, PushFlags, withhold, derive}
use io_replica.Sync.Merge.Cases.{merge_cases, present_cases}
use io_replica.Sync.Merge.{
  merge, merge_remote_add, merge_tombstone, merge_remote_delete, merge_create, merge_present,
}

-- The part of the state that a merge has no hand in: all but the writes, the report and the
-- tables of pending pushes.
abbrev pub frame : Sync → Sync
frame s = record s {
  writes = [];
  report = empty_report;
  pending_flag_pushes = [];
  pending_content_pushes = [];
  pending_drops = [];
  pending_creates = [];
}

reconcile_flags-frame :
    (p : Placement) (item : RemoteItem) (allow : PushFlags) (s : Sync)
    → frame (reconcile_flags p item allow s).0 ≡ frame s
unfolding reconcile_flags
reconcile_flags-frame p item allow s = ground arith

reconcile_content-frame :
    (p : Placement) (item : RemoteItem) (s : Sync) → frame (reconcile_content p item s).0 ≡ frame s
unfolding reconcile_content
reconcile_content-frame p item s = ground arith

merge_tombstone-frame :
    (handle : Handle) (p : Placement) (base : SyncBase) (item : RemoteItem) (s : Sync)
    → frame (merge_tombstone handle p base item s).0 ≡ frame s
unfolding merge_tombstone
merge_tombstone-frame handle p base item s = ground arith

merge_remote_delete-frame :
    (handle : Handle) (p : Placement) (s : Sync)
    → frame (merge_remote_delete handle p s).0 ≡ frame s
unfolding merge_remote_delete
merge_remote_delete-frame handle p s = ground arith

merge_create-frame :
    (handle : Handle) (p : Placement) (s : Sync) → frame (merge_create handle p s).0 ≡ frame s
unfolding merge_create
merge_create-frame handle p s = ground arith

merge_present-frame :
    (p : Placement) (item : RemoteItem) (s : Sync) → frame (merge_present p item s).0 ≡ frame s
merge_present-frame p item s =
    let content = reconcile_content-frame p item s in
    present_cases (λ r. frame r.0 ≡ frame s) p item s
      (λ t change e.
        reconcile_flags-frame p item withhold t ∙ sym (ap (λ r. frame r.0) e) ∙ content)
      (λ t row e. reconcile_flags-frame row item derive t ∙ sym (ap (λ r. frame r.0) e) ∙ content)
      (λ t e. reconcile_flags-frame p item derive t ∙ sym (ap (λ r. frame r.0) e) ∙ content)

-- A merge leaves all of the run as it was but the writes, the report and the four tables of
-- pending pushes.
pub merge-frame : (c : Candidate) (s : Sync) → frame (merge c s).0 ≡ frame s
unfolding merge_remote_add drop
merge-frame c s =
    merge_cases (λ r. frame r.0 ≡ frame s) c s refl (λ item _. refl)
      (λ p base item _ _ _ _. merge_tombstone-frame c.handle p base item s) (λ p _ _ _. refl)
      (λ p item _ _ _. merge_present-frame p item s)
      (λ p base _ _ _ _. merge_remote_delete-frame c.handle p s)
      (λ p _ _ _ _. merge_create-frame c.handle p s)

-- The handles that a batch drops.
abbrev pub dropped : List WriteOp → List Handle
dropped [] = []
dropped (drop_placement _ handle _ ∷ ops) = handle ∷ dropped ops
dropped (upsert_placement _ ∷ ops) = dropped ops
dropped (store_object _ _ ∷ ops) = dropped ops
dropped (set_checkpoint _ _ ∷ ops) = dropped ops

dropped-upsert :
    (ops : List WriteOp) (p : Placement) → dropped (ops ++ upsert_placement p ∷ []) ≡ dropped ops
dropped-upsert [] p = refl
dropped-upsert (drop_placement _ h _ ∷ ops) p = ap (◌∷◌ h) (dropped-upsert ops p)
dropped-upsert (upsert_placement _ ∷ ops) p = dropped-upsert ops p
dropped-upsert (store_object _ _ ∷ ops) p = dropped-upsert ops p
dropped-upsert (set_checkpoint _ _ ∷ ops) p = dropped-upsert ops p

reconcile_flags-dropped :
    (p : Placement) (item : RemoteItem) (allow : PushFlags) (s : Sync)
    → dropped (reconcile_flags p item allow s).0.writes ≡ dropped s.writes
unfolding reconcile_flags
reconcile_flags-dropped p item allow s = grind (arith, dropped-upsert)

reconcile_content-dropped :
    (p : Placement) (item : RemoteItem) (s : Sync)
    → dropped (reconcile_content p item s).0.writes ≡ dropped s.writes
unfolding reconcile_content
reconcile_content-dropped p item s = grind (arith, dropped-upsert)

merge_tombstone-dropped :
    (handle : Handle) (p : Placement) (base : SyncBase) (item : RemoteItem) (s : Sync)
    → dropped (merge_tombstone handle p base item s).0.writes ≡ dropped s.writes
unfolding merge_tombstone
merge_tombstone-dropped handle p base item s = grind (arith, dropped-upsert)

merge_present-dropped :
    (p : Placement) (item : RemoteItem) (s : Sync)
    → dropped (merge_present p item s).0.writes ≡ dropped s.writes
merge_present-dropped p item s =
    let content = reconcile_content-dropped p item s in
    present_cases (λ r. dropped r.0.writes ≡ dropped s.writes) p item s
      (λ t change e. cc (reconcile_flags-dropped p item withhold t, content, e))
      (λ t row e. cc (reconcile_flags-dropped row item derive t, content, e))
      (λ t e. cc (reconcile_flags-dropped p item derive t, content, e))

-- For a candidate with a remote item, the merge adds no drop to the writes.
dropped-merge_of_listed :
    (c : Candidate) (s : Sync) → c.remote ≢ none → dropped (merge c s).0.writes ≡ dropped s.writes
unfolding merge_remote_add
dropped-merge_of_listed c s listed =
    merge_cases (λ r. dropped r.0.writes ≡ dropped s.writes) c s refl
      (λ item _. grind (arith, dropped-upsert))
      (λ p base item _ _ _ _. merge_tombstone-dropped c.handle p base item s)
      (λ p _ _ r. absurd (listed r)) (λ p item _ _ _. merge_present-dropped p item s)
      (λ p base _ _ _ r. absurd (listed r)) (λ p _ _ _ r. absurd (listed r))
