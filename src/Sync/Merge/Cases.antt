-- ===== src/Sync/Merge/Cases.antt =====
-- src/sync.rs, `merge`: the split on its arms, as a rule for the proofs.
use mathlib.Core.Logic.{if_pos, if_neg}
use io_replica.Base.{◌≡◌, refl, ◌≢◌, Option, none, some}
use io_replica.Placement.{Placement, SyncBase, status_eq, tombstone}
use io_replica.Remote.{RemoteItem}
use io_replica.Change.{ChangeKind, deleted}
use io_replica.Sync.Engine.{Sync, Candidate}
use io_replica.Sync.Rows.{drop}
use io_replica.Sync.Content.{ContentOutcome, untouched, rewritten, push, reconcile_content}
use io_replica.Sync.Markers.{derive, withhold, reconcile_flags}
use io_replica.Sync.Merge.{
  merge, merge_sides, merge_deleted, merge_live, merge_remote_add, merge_tombstone,
  merge_remote_delete, merge_create, merge_present, after_content,
}

module _ {κ} (P : Sync × Option ChangeKind → Type κ) (c : Candidate) (s : Sync) where
  pub merge_cases :
      P (s, none)
      → ((item : RemoteItem) → c.remote ≡ some item → P (merge_remote_add c.handle item s))
      → ((p : Placement) (base : SyncBase) (item : RemoteItem)
          → c.local ≡ some p
          → p.status ≡ tombstone
          → p.base ≡ some base
          → c.remote ≡ some item
          → P (merge_tombstone c.handle p base item s))
      → ((p : Placement)
          → c.local ≡ some p
          → p.status ≡ tombstone
          → c.remote ≡ none
          → P (drop c.handle deleted s, none))
      → ((p : Placement) (item : RemoteItem)
          → c.local ≡ some p
          → p.status ≢ tombstone
          → c.remote ≡ some item
          → P (merge_present p item s))
      → ((p : Placement) (base : SyncBase)
          → c.local ≡ some p
          → p.status ≢ tombstone
          → p.base ≡ some base
          → c.remote ≡ none
          → P (merge_remote_delete c.handle p s))
      → ((p : Placement)
          → c.local ≡ some p
          → p.status ≢ tombstone
          → p.base ≡ none
          → c.remote ≡ none
          → P (merge_create c.handle p s))
      → P (merge c s)
  unfolding merge
  merge_cases idle added tomb gone present vanished create = sides c.local c.remote refl refl
    where
      deleted_arm :
          (p : Placement) (b : Option SyncBase) (r : Option RemoteItem)
          → c.local ≡ some p
          → p.status ≡ tombstone
          → p.base ≡ b
          → c.remote ≡ r
          → P (merge_deleted c.handle p b r s)
      deleted_arm p (some base) (some item) l t b r = tomb p base item l t b r
      deleted_arm p none (some item) l t b r = added item r
      deleted_arm p (some base) none l t b r = gone p l t r
      deleted_arm p none none l t b r = gone p l t r

      live_arm :
          (p : Placement) (b : Option SyncBase) (r : Option RemoteItem)
          → c.local ≡ some p
          → p.status ≢ tombstone
          → p.base ≡ b
          → c.remote ≡ r
          → P (merge_live c.handle p b r s)
      live_arm p (some base) (some item) l t b r = present p item l t r
      live_arm p none (some item) l t b r = present p item l t r
      live_arm p (some base) none l t b r = vanished p base l t b r
      live_arm p none none l t b r = create p l t b r

      sides :
          (l : Option Placement) (r : Option RemoteItem)
          → c.local ≡ l
          → c.remote ≡ r
          → P (merge_sides c.handle l r s)
      sides none none l r = idle
      sides none (some item) l r = added item r
      sides (some p) r l e = elim (status_eq.dec p.status tombstone) [
        | yes t ↦ rw (if_pos _ t) (deleted_arm p p.base r l t refl e)
        | no t ↦ rw (if_neg _ t) (live_arm p p.base r l t refl e)
      ]

-- The same for a member that is present on both sides, by what the content axis decided.
module _ {κ} (P : Sync × Option ChangeKind → Type κ) (p : Placement) (item : RemoteItem)
    (s : Sync) where
  pub present_cases :
      ((t : Sync) (change : ChangeKind)
        → reconcile_content p item s ≡ (t, push change)
        → P ((reconcile_flags p item withhold t).0, some change))
      → ((t : Sync) (row : Placement)
          → reconcile_content p item s ≡ (t, rewritten row)
          → P (reconcile_flags row item derive t))
      → ((t : Sync)
          → reconcile_content p item s ≡ (t, untouched)
          → P (reconcile_flags p item derive t))
      → P (merge_present p item s)
  unfolding merge_present
  present_cases pushed moved still = go (reconcile_content p item s) refl
    where
      go : (r : Sync × ContentOutcome) → reconcile_content p item s ≡ r → P (after_content p item r)
      go (t, push change) e = pushed t change e
      go (t, rewritten row) e = moved t row e
      go (t, untouched) e = still t e
