-- ===== src/Sync/Merge/Taken.antt =====
-- src/sync.rs, `reconcile_content` and `reconcile_flags`: what a row that nothing was changed of
-- here takes over from its item.
use io_replica.Sync.Merge.Effects.{IsKnown, IsPlain}
use io_replica.Base.{
  ◌≡◌, ◌≢◌, refl, none, some, arith, text_eq, option_eq, ◌==◌, if◌then◌else◌, ◌⊎◌,
}
use io_replica.Flags.{Flags, flags_eq, unknown, known, merge as merge_flags}
use io_replica.Flags.Laws.{IsOrdered, merge_unchanged}
use io_replica.Placement.{Handle, CollectionId, Placement, SyncBase, status_eq, clean}
use io_replica.Remote.{RemoteItem}
use io_replica.Sync.Engine.{Sync}
use io_replica.Sync.Rows.{base_revision, base_object, refreshed_row, pulled_flags_row, pull_content}
use io_replica.Sync.Content.{reconcile_content, untouched, rewritten, remote_changed}
use io_replica.Sync.Markers.{reconcile_flags, derive, adopt}
use io_replica.Sync.Merge.Quiet.{IsSettled}

pub merge_taken : (f r : Flags) → IsOrdered f → IsOrdered r → r ≢ unknown → merge_flags f f r ≡ r
unfolding merge_flags
merge_taken unknown r p q n = refl
merge_taken (known f) r p q n = merge_unchanged (known f) r p q (ground arith) n

pub content_taken :
    (p : Placement) (base : SyncBase) (item : RemoteItem) (s : Sync)
    → p.base ≡ some base
    → p.status ≡ clean
    → reconcile_content p item s ≡ (
        if remote_changed item base.revision
        then ((pull_content p item s).0, rewritten (refreshed_row p item))
        else (s, untouched))
unfolding reconcile_content pull_content
content_taken p base item s b c = ground arith

pub flags_taken :
    (p : Placement) (base : SyncBase) (item : RemoteItem) (s : Sync)
    → p.base ≡ some base
    → p.status ≡ clean
    → base.flags ≡ p.flags
    → IsOrdered p.flags
    → IsOrdered item.flags
    → item.flags ≢ unknown
    → reconcile_flags p item derive s
      ≡ (if p.flags == item.flags then (s, none) else (adopt p item.flags s, none))
unfolding reconcile_flags
flags_taken p base item s b c f o q n = ground (arith, merge_taken p.flags item.flags o q n)

-- The row that takes over an item's flags is settled against the item.
pub pulled_flags_row-IsSettled :
    (collection : CollectionId) (handle : Handle) (q : Placement) (item : RemoteItem)
    (plain : IsPlain collection handle q)
    → IsKnown handle item
    → (item.revision ≡ none) ⊎ (item.revision ≡ plain.base.revision)
    → IsSettled (pulled_flags_row q item.flags) item
unfolding pulled_flags_row
pulled_flags_row-IsSettled collection handle q item h k v = record {
  base = record {
    flags = item.flags;
    revision = base_revision q.base;
    object = base_object q.base;
  };
  based = refl;
  status = ground (arith, h.status);
  flags = refl;
  listed = refl;
  ordered = k.ordered;
  revision = ground (arith, v, h.based);
}

pub refreshed_row-IsPlain :
    (collection : CollectionId) (handle : Handle) (p : Placement) (item : RemoteItem)
    → IsPlain collection handle p
    → (plain : IsPlain collection handle (refreshed_row p item)) × (item.revision
        ≡ plain.base.revision)
unfolding refreshed_row
refreshed_row-IsPlain collection handle p item h = (
  record {
    base = record (h.base) { revision = item.revision; object = none };
    based = ground (arith, h.based);
    status = h.status;
    flags = h.flags;
    ordered = h.ordered;
    home = h.home;
    handle = h.handle;
  },
  refl,
)
