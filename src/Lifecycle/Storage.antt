-- ===== src/Lifecycle/Storage.antt =====
-- examples/mailbox_lifecycle.rs, `MemStorage`.
use io_replica.Base.{
  Option, none, some, List, [], ◌∷◌, ℕ, text_eq, option_eq, ◌==◌, if◌then◌else◌, unwrap_or,
}
use io_replica.Base.Map.{Map, get, insert}
use io_replica.Placement.{CollectionId, LinkId, Hash, Checkpoint, Placement}
use io_replica.Change.{WriteOp, upsert_placement, drop_placement, store_object, set_checkpoint}
use io_replica.Coroutine.{Loaded, LoadScope, Result, ok}
use io_replica.Lifecycle.Table.{Table, insert_at, remove_at}

pub record MemStorage : Type 0 where
  pub placements : Table Placement
  pub objects : Map (List ℕ)
  pub checkpoints : Map Checkpoint

-- `MemStorage::default`.
abbrev pub empty_storage : MemStorage
empty_storage = record { placements = []; objects = []; checkpoints = [] }

-- The rows of a collection, in the order of their handles.
unfoldable pub rows_of : CollectionId → Table Placement → List Placement
rows_of collection [] = []
rows_of collection (((c, _), p) ∷ t) =
    let rest = rows_of collection t in if c == collection then p ∷ rest else rest

-- `ReplicaStorage::load`, which cannot fail.
unfoldable pub load : MemStorage → CollectionId → LoadScope → Result Loaded ⊥
unfolding rows_of get
load s collection scope = ok (record {
  placements = rows_of collection s.placements;
  checkpoint = get collection s.checkpoints;
})

abbrev pub object_under : LinkId → Placement → Option Hash
object_under link p = if p.link_id == some link then p.object else none

-- `find_map`: the first body of a row that holds the link id.
unfoldable pub find_object : LinkId → Table Placement → Option Hash
find_object link [] = none
find_object link ((_, p) ∷ t) = elim (object_under link p) [
  | none ↦ find_object link t
  | some hash ↦ some hash
]

unfoldable pub lookup_onto : Map Hash → Table Placement → List LinkId → Map Hash
unfolding find_object insert
lookup_onto known t [] = known
lookup_onto known t (link ∷ links) =
    lookup_onto (elim (find_object link t) [ none ↦ known | some hash ↦ insert link hash known ]) t
      links

-- `ReplicaStorage::lookup_objects`.
unfoldable pub lookup_objects : MemStorage → List LinkId → Result (Map Hash) ⊥
unfolding lookup_onto
lookup_objects s links = ok (lookup_onto [] s.placements links)

unfoldable pub apply_op : WriteOp → MemStorage → MemStorage
unfolding insert_at remove_at insert
apply_op (upsert_placement p) s = record s {
  placements = insert_at (p.collection, p.handle) p s.placements;
}
apply_op (drop_placement collection handle _) s = record s {
  placements = remove_at (collection, handle) s.placements;
}
apply_op (store_object object body) s = record s {
  objects = insert object.hash (unwrap_or body []) s.objects;
}
apply_op (set_checkpoint collection checkpoint) s = record s {
  checkpoints = insert collection checkpoint s.checkpoints;
}

unfoldable pub apply_ops : List WriteOp → MemStorage → MemStorage
apply_ops [] s = s
apply_ops (op ∷ ops) s = apply_ops ops (apply_op op s)

-- `ReplicaStorage::write`.
unfoldable pub write : MemStorage → List WriteOp → Result MemStorage ⊥
unfolding apply_ops
write s ops = ok (apply_ops ops s)
