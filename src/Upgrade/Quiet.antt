-- ===== src/Upgrade/Quiet.antt =====
-- src/upgrade.rs with src/sync.rs: a raised row at the next sync.
use io_replica.Base.{◌≡◌, refl, ◌⊎◌, none, some, arith, text_eq, option_eq}
use io_replica.Placement.{Placement, Object, Hash, LinkId, SyncBase, staged_edit, staged_body}
use io_replica.Remote.{RemoteItem, FetchedItem}
use io_replica.Sync.Engine.{Sync}
use io_replica.Sync.Merge.{merge}
use io_replica.Sync.Merge.Quiet.{IsSettled, merge_settled}
use io_replica.Upgrade.Fetched.{with_body, with_summary}
use io_replica.Upgrade.Run.{linked_row}

staged-synced : (o : Hash) (b : SyncBase) → b.object ≡ some o → staged_body (some o) (some b) ≡ none
unfolding staged_body
staged-synced o b e = ground arith

-- A row that was settled against its item, raised by a fetched body whose revision the item does
-- not contradict, stages no edit, and merges to nothing.
pub merge-with_body :
    (p : Placement) (item : RemoteItem) (link : LinkId) (object : Object) (body : FetchedItem)
    (s : Sync)
    → IsSettled p item
    → (item.revision ≡ none) ⊎ (item.revision ≡ body.revision)
    → let q = with_body object body (with_summary link body p) in
      (staged_edit q ≡ none)
      × (merge (record { handle = q.handle; local = some q; remote = some item }) s ≡ (s, none))
unfolding staged_edit
merge-with_body p item link object body s h same = (
  rw h.based (
      staged-synced object.hash
        (record h.base { revision = body.revision; object = some object.hash }) refl),
  merge_settled
      (record {
        handle = p.handle;
        local = some (with_body object body (with_summary link body p));
        remote = some item;
      })
      s (with_body object body (with_summary link body p)) item refl refl
      (record {
        base = record h.base { revision = body.revision; object = some object.hash };
        based = rw h.based refl;
        status = h.status;
        flags = h.flags;
        listed = h.listed;
        ordered = h.ordered;
        revision = same;
      }),
)

-- A row that was settled against its item, linked to a stored body, stages no edit, and merges to
-- nothing.
merge-linked_row :
    (p : Placement) (item : RemoteItem) (hash : Hash) (s : Sync)
    → IsSettled p item
    → let q = linked_row hash p in
      (staged_edit q ≡ none)
      × (merge (record { handle = q.handle; local = some q; remote = some item }) s ≡ (s, none))
unfolding staged_edit
merge-linked_row p item hash s h = (
  rw h.based (staged-synced hash (record h.base { object = some hash }) refl),
  merge_settled (record { handle = p.handle; local = some (linked_row hash p); remote = some item })
      s (linked_row hash p) item refl refl
      (record {
        base = record h.base { object = some hash };
        based = rw h.based refl;
        status = h.status;
        flags = h.flags;
        listed = h.listed;
        ordered = h.ordered;
        revision = h.revision;
      }),
)
