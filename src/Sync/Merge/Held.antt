-- ===== src/Sync/Merge/Held.antt =====
-- src/sync.rs, `merge`: a derived change, and the row held for its answer.
use io_replica.Base.{
  ◌≡◌, Option, none, some, arith, text_eq, option_eq, if◌then◌else◌, true, false, Bool, and_then,
}
use io_replica.Base.Map.{Map, get, insert, get-insert}
use io_replica.Base.Set
use io_replica.Base.Set.{Set}
use io_replica.Base.Set.{contains-insert}
use io_replica.Placement.{Placement, SyncBase, status_eq, Handle}
use io_replica.Remote.{RemoteItem}
use io_replica.Flags.{flags_eq, merge as merge_flags}
use io_replica.Sync.Rows.{base_flags}
use io_replica.Change.{ChangeKind, add, remove, set_flags, update, kind_handle}
use io_replica.Sync.Engine.{Sync, Candidate}
use io_replica.Sync.Content.{push, rewritten, reconcile_content}
use io_replica.Sync.Markers.{reconcile_flags, PushFlags, withhold, derive}
use io_replica.Sync.Merge.Cases.{merge_cases, present_cases}
use io_replica.Sync.Merge.{
  merge, resurrected_row, merge_remote_add, merge_tombstone, merge_remote_delete, merge_create,
  merge_present,
}

-- The change that the row held for it gives back, from the table in which its answer is looked up.
abbrev pub recorded : ChangeKind → Sync → Option ChangeKind
recorded (add h _ _ _ _) s =
    and_then (get h s.pending_creates)
      (λ row. some (add h row.link_id row.flags row.origin row.object))
recorded (remove h to link m) s =
    if Set.contains s.pending_drops h then some (remove h to link m) else none
recorded (set_flags h _) s =
    and_then (get h s.pending_flag_pushes) (λ row. some (set_flags h row.flags))
recorded (update h _ m) s =
    and_then (get h s.pending_content_pushes)
      (λ row. and_then row.object (λ body. some (update h body m)))

-- What is derived is about the member `h`, and is recorded.
abbrev pub IsFiled : Handle → Sync × Option ChangeKind → Type 0
IsFiled h r = (k : ChangeKind) → r.1 ≡ some k → (kind_handle k ≡ h) × (recorded k r.0 ≡ some k)

get-insert_self : (h : Handle) (p : Placement) (m : Map Placement) → get h (insert h p m) ≡ some p
get-insert_self h p m = rw get-insert (ground arith)

contains-insert_self : (h : Handle) (m : Set) → Set.contains (Set.insert h m) h ≡ true
contains-insert_self h m = rw contains-insert (ground arith)

reconcile_flags-IsFiled :
    (p : Placement) (item : RemoteItem) (allow : PushFlags) (s : Sync)
    → IsFiled p.handle (reconcile_flags p item allow s)
unfolding reconcile_flags
reconcile_flags-IsFiled p item allow s k h =
    let row : Placement = record p { flags = merge_flags (base_flags p.base) p.flags item.flags } in
    ground (arith, get-insert_self p.handle row s.pending_flag_pushes)

reconcile_flags-content :
    (p : Placement) (item : RemoteItem) (allow : PushFlags) (s : Sync)
    → (reconcile_flags p item allow s).0.pending_content_pushes ≡ s.pending_content_pushes
unfolding reconcile_flags
reconcile_flags-content p item allow s = ground arith

-- The row that a content merge leaves keeps its handle, and a change that it pushes is filed.
reconcile_content-handle :
    (p row : Placement) (item : RemoteItem) (s t : Sync)
    → reconcile_content p item s ≡ (t, rewritten row)
    → row.handle ≡ p.handle
unfolding reconcile_content
reconcile_content-handle p row item s t h = ground arith

abbrev is_update : ChangeKind → Bool
is_update (update _ _ _) = true
is_update (add _ _ _ _ _) = false
is_update _ = false

reconcile_content-recorded :
    (p : Placement) (item : RemoteItem) (s t : Sync) (k : ChangeKind)
    → reconcile_content p item s ≡ (t, push k)
    → (is_update k ≡ true) × (kind_handle k ≡ p.handle) × (recorded k t ≡ some k)
unfolding reconcile_content
reconcile_content-recorded p item s t k h =
    ground (arith, get-insert_self p.handle p s.pending_content_pushes)

-- An update is recorded in the table of content pushes alone.
recorded_update :
    (k : ChangeKind) (s t : Sync)
    → is_update k ≡ true
    → s.pending_content_pushes ≡ t.pending_content_pushes
    → recorded k s ≡ recorded k t
recorded_update (update h object m) s t u e = rw e
recorded_update (add _ _ _ _ _) s t u e = cc
recorded_update (remove _ _ _ _) s t u e = cc
recorded_update (set_flags _ _) s t u e = cc

merge_present-IsFiled :
    (p : Placement) (item : RemoteItem) (s : Sync) → IsFiled p.handle (merge_present p item s)
merge_present-IsFiled p item s =
    present_cases (IsFiled p.handle) p item s
      (λ t change e k h.
        let filed = reconcile_content-recorded p item s t change e in
        let kept =
          recorded_update change (reconcile_flags p item withhold t).0 t filed.0
            (reconcile_flags-content p item withhold t) in
        ground (arith, filed, kept))
      (λ t row e.
        rw (← reconcile_content-handle p row item s t e)
          (reconcile_flags-IsFiled row item derive t))
      (λ t e. reconcile_flags-IsFiled p item derive t)

merge_tombstone-IsFiled :
    (handle : Handle) (p : Placement) (base : SyncBase) (item : RemoteItem) (s : Sync)
    → IsFiled handle (merge_tombstone handle p base item s)
unfolding merge_tombstone
merge_tombstone-IsFiled handle p base item s k h = ground (
  arith,
  get-insert_self handle p s.pending_content_pushes,
  contains-insert_self handle s.pending_drops,
)

merge_create-IsFiled :
    (handle : Handle) (p : Placement) (s : Sync) → IsFiled handle (merge_create handle p s)
unfolding merge_create
merge_create-IsFiled handle p s k h = ground (arith, get-insert_self handle p s.pending_creates)

merge_remote_delete-IsFiled :
    (handle : Handle) (p : Placement) (s : Sync) → IsFiled handle (merge_remote_delete handle p s)
unfolding merge_remote_delete
merge_remote_delete-IsFiled handle p s k h =
    ground (arith, get-insert_self handle (resurrected_row p) s.pending_creates)

merge_remote_add-IsFiled :
    (handle : Handle) (item : RemoteItem) (s : Sync)
    → IsFiled handle (merge_remote_add handle item s)
unfolding merge_remote_add
merge_remote_add-IsFiled handle item s k h = cc

-- A change derived from a candidate is about the member that the candidate names, and the table
-- of its kind holds under that handle the row (the membership, for a remove) that gives the
-- change back.
pub merge-IsFiled :
    (c : Candidate) (s : Sync)
    → ((p : Placement) → c.local ≡ some p → p.handle ≡ c.handle)
    → (k : ChangeKind) → (merge c s).1 ≡ some k
    → (kind_handle k ≡ c.handle) × (recorded k (merge c s).0 ≡ some k)
merge-IsFiled c s own =
    merge_cases (IsFiled c.handle) c s (λ k h. cc)
      (λ item _. merge_remote_add-IsFiled c.handle item s)
      (λ p base item _ _ _ _. merge_tombstone-IsFiled c.handle p base item s) (λ p _ _ _ k h. cc)
      (λ p item l _ _. rw (← own p l) (merge_present-IsFiled p item s))
      (λ p base _ _ _ _. merge_remote_delete-IsFiled c.handle p s)
      (λ p _ _ _ _. merge_create-IsFiled c.handle p s)
