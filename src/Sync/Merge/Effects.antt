-- ===== src/Sync/Merge/Effects.antt =====
-- src/sync.rs: the writes of a run, as they are seen in one row; and rows that nothing was
-- changed of here.
use io_replica.Base.{
  ◌≡◌, ◌≢◌, refl, ◌&&◌, Option, none, some, List, [], ◌∷◌, ◌++◌, text_eq, option_eq, ◌==◌,
  if◌then◌else◌,
}
use io_replica.Flags.{flags_eq, unknown}
use io_replica.Flags.Laws.{IsOrdered}
use io_replica.Placement.{Handle, CollectionId, Placement, SyncBase, status_eq, clean}
use io_replica.Remote.{RemoteItem}
use io_replica.Change.{WriteOp, upsert_placement, drop_placement, store_object, set_checkpoint}

-- A write, as it is seen in the row under one handle of one collection.
abbrev pub effect : CollectionId → Handle → WriteOp → Option Placement → Option Placement
effect c h (upsert_placement p) o = if p.collection == c && p.handle == h then some p else o
effect c h (drop_placement k j _) o = if k == c && j == h then none else o
effect c h (store_object _ _) o = o
effect c h (set_checkpoint _ _) o = o

-- The row under one handle of one collection, after a batch.
unfoldable pub after : CollectionId → Handle → List WriteOp → Option Placement → Option Placement
after c h [] o = o
after c h (op ∷ ops) o = after c h ops (effect c h op o)

pub after-append :
    (c : CollectionId) (h : Handle) (k l : List WriteOp) (o : Option Placement)
    → after c h (k ++ l) o ≡ after c h l (after c h k o)
unfolding after
after-append c h [] l o = refl
after-append c h (op ∷ k) l o = after-append c h k l (effect c h op o)

-- A clean row with the flags of its base, under its own handle.
pub record IsPlain (collection : CollectionId) (h : Handle) (p : Placement) : Type 0 where
  pub base : SyncBase
  pub based : p.base ≡ some base
  pub status : p.status ≡ clean
  pub flags : base.flags ≡ p.flags
  pub ordered : IsOrdered p.flags
  pub home : p.collection ≡ collection
  pub handle : p.handle ≡ h

-- An item whose flags the remote knows, and that stands under its own handle.
pub record IsKnown (h : Handle) (item : RemoteItem) : Type 0 where
  pub flags : item.flags ≢ unknown
  pub ordered : IsOrdered item.flags
  pub handle : item.handle ≡ h
