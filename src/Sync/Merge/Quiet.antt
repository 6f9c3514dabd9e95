-- ===== src/Sync/Merge/Quiet.antt =====
-- src/sync.rs: the rows that a sync leaves behind, at the next merge.
use io_replica.Base.{◌≡◌, ◌≢◌, refl, sym, ◌⊎◌, inr, none, some, arith, Text, text_eq, option_eq}
use io_replica.Flags.{flags_eq}
use io_replica.Flags.Laws.{IsOrdered, merge_agreed}
use io_replica.Placement.{Placement, SyncBase, status_eq, clean, tombstone, conflict, Handle}
use io_replica.Remote.{RemoteItem}
use io_replica.Sync.Engine.{Sync, Candidate}
use io_replica.Sync.Rows.{
  pulled_row, rebased_row, rebased_content_row, rekeyed_row, base_revision, base_object, base_flags,
}
use io_replica.Sync.Content.{reconcile_content, untouched}
use io_replica.Sync.Markers.{reconcile_flags, PushFlags, derive}
use io_replica.Sync.Merge.{merge}

-- The placement, its base and the remote item agree, on a revision too if the remote reports one.
pub record IsSettled (p : Placement) (item : RemoteItem) : Type 0 where
  pub base : SyncBase
  pub based : p.base ≡ some base
  pub status : p.status ≡ clean
  pub flags : base.flags ≡ p.flags
  pub listed : item.flags ≡ p.flags
  pub ordered : IsOrdered p.flags
  pub revision : (item.revision ≡ none) ⊎ (item.revision ≡ base.revision)

reconcile_content_settled :
    (p : Placement) (item : RemoteItem) (s : Sync)
    → IsSettled p item
    → reconcile_content p item s ≡ (s, untouched)
unfolding reconcile_content
reconcile_content_settled p item s h = ground arith

reconcile_flags_settled :
    (p : Placement) (item : RemoteItem) (allow : PushFlags) (s : Sync)
    → IsSettled p item
    → reconcile_flags p item allow s ≡ (s, none)
unfolding reconcile_flags
reconcile_flags_settled p item allow s h =
    ground (arith, merge_agreed h.base.flags p.flags h.ordered)

-- A merge of a row that is settled against its item (clean, base and item flags equal to its
-- own, in order, no new revision) changes nothing of the run and derives nothing.
pub merge_settled :
    (c : Candidate) (s : Sync) (p : Placement) (item : RemoteItem)
    → c.local ≡ some p
    → c.remote ≡ some item
    → IsSettled p item
    → merge c s ≡ (s, none)
unfolding merge
merge_settled c s p item l r h =
    ground (arith, reconcile_content_settled p item s h, reconcile_flags_settled p item derive s h)

-- The row pulled for a new member whose flags are ordered is settled against the item that it
-- was pulled from.
pub pulled_row-IsSettled :
    (collection : Text) (item : RemoteItem)
    → IsOrdered item.flags
    → IsSettled (pulled_row collection item) item
unfolding pulled_row
pulled_row-IsSettled collection item o = record {
  base = record { flags = item.flags; revision = item.revision; object = none };
  based = refl;
  status = refl;
  flags = refl;
  listed = refl;
  ordered = o;
  revision = inr refl;
}

-- The row written for an accepted create under its assigned handle is settled against an item
-- with its flags and the reported revision, where its flags are ordered.
pub rekeyed_row-IsSettled :
    (p : Placement) (handle : Handle) (item : RemoteItem)
    → IsOrdered p.flags
    → item.flags ≡ p.flags
    → IsSettled (rekeyed_row p handle item.revision) item
unfolding rekeyed_row
rekeyed_row-IsSettled p handle item o e = record {
  base = record { flags = p.flags; revision = item.revision; object = p.object };
  based = refl;
  status = refl;
  flags = refl;
  listed = e;
  ordered = o;
  revision = inr refl;
}

-- The row written for an accepted flag push is settled against an item with its flags and no new
-- revision, where the row is no conflict and its flags are ordered.
pub rebased_row-IsSettled :
    (p : Placement) (item : RemoteItem)
    → p.status ≢ conflict
    → IsOrdered p.flags
    → item.flags ≡ p.flags
    → (item.revision ≡ none) ⊎ (item.revision ≡ base_revision p.base)
    → IsSettled (rebased_row p p.flags) item
unfolding rebased_row
rebased_row-IsSettled p item n o e r = record {
  base = record { flags = p.flags; revision = base_revision p.base; object = base_object p.base };
  based = refl;
  status = ground arith;
  flags = refl;
  listed = e;
  ordered = o;
  revision = r;
}

-- The row written for an accepted content push is settled against an item with the reported
-- revision and the row's flags, where the row is no tombstone and its flags are ordered and
-- those of its base.
rebased_content_row-IsSettled :
    (p : Placement) (item : RemoteItem)
    → p.status ≢ tombstone
    → IsOrdered p.flags
    → p.flags ≡ base_flags p.base
    → item.flags ≡ p.flags
    → IsSettled (rebased_content_row p item.revision) item
unfolding rebased_content_row
rebased_content_row-IsSettled p item n o f e = record {
  base = record { flags = base_flags p.base; revision = item.revision; object = p.object };
  based = refl;
  status = ground arith;
  flags = sym f;
  listed = e;
  ordered = o;
  revision = inr refl;
}
