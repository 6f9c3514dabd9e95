-- ===== src/Lifecycle/Kept.antt =====
-- examples/mailbox_lifecycle.rs, `MemStorage`: it keeps what is written to it.
use io_replica.Base.{
  ◌≡◌, refl, sym, ◌∙◌, ap, Option, none, some, List, [], ◌∷◌, map, text_eq, ◌==◌, if◌then◌else◌,
  arith, or_else,
}
use io_replica.Base.Map.{Map, get, from_entries, from_entries_onto, insert, get-insert}
use io_replica.Placement.{Handle, CollectionId, Placement}
use io_replica.Change.{WriteOp, upsert_placement, drop_placement, store_object, set_checkpoint}
use io_replica.Coroutine.{Loaded, Result, ok, err, all}
use io_replica.Sync.Merge.Effects.{effect, after}
use io_replica.Sync.Run.{by_handle}
use io_replica.Mutate.{find}
use io_replica.Sync.Run.Stores.{RowStore}
use io_replica.Lifecycle.Table.{
  Key, Table, get_at, insert_at, remove_at, same_key, get_at-insert_at, get_at-remove_at,
}
use io_replica.Lifecycle.Order.{IsSorted, insert_at-IsSorted, remove_at-IsSorted, get_at_of_IsAbove}
use io_replica.Lifecycle.Storage.{MemStorage, rows_of, load, write, apply_op, apply_ops}
use io_replica.Lifecycle.Story.{mem}

-- Every row stands under its own collection and handle.
abbrev pub IsHoused : Table Placement → Type 0
IsHoused [] = Unit
IsHoused ((k, p) ∷ t) = (k ≡ (p.collection, p.handle)) × IsHoused t

insert_at-IsHoused :
    (p : Placement) (t : Table Placement)
    → IsHoused t
    → IsHoused (insert_at (p.collection, p.handle) p t)
unfolding insert_at
insert_at-IsHoused p [] h = (refl, tt)
insert_at-IsHoused p ((k, q) ∷ t) (e, h) = ground (arith, insert_at-IsHoused p t h)

remove_at-IsHoused : (k : Key) (t : Table Placement) → IsHoused t → IsHoused (remove_at k t)
unfolding remove_at
remove_at-IsHoused k [] h = tt
remove_at-IsHoused k ((j, q) ∷ t) (e, h) = ground (arith, remove_at-IsHoused k t h)

-- The entry that a `collect` keeps for a key: the last.
abbrev last_of : Handle → List (Handle × Placement) → Option Placement
last_of h [] = none
last_of h ((k, p) ∷ l) = or_else (last_of h l) (if h == k then some p else none)

get-from_entries_onto :
    (h : Handle) (m : Map Placement) (l : List (Handle × Placement))
    → get h (from_entries_onto m l) ≡ or_else (last_of h l) (get h m)
unfolding from_entries_onto
get-from_entries_onto h m [] = refl
get-from_entries_onto h m ((k, p) ∷ l) =
    get-from_entries_onto h (insert k p m) l ∙ ground (arith, get-insert h k p m)

last_of-rows_of :
    (collection : CollectionId) (h : Handle) (t : Table Placement)
    → IsSorted t
    → IsHoused t
    → last_of h (map by_handle (rows_of collection t)) ≡ get_at (collection, h) t
unfolding rows_of get_at same_key
last_of-rows_of collection h [] s k = refl
last_of-rows_of collection h (((c, j), p) ∷ t) (a, s) (e, k) =
    ground (arith, last_of-rows_of collection h t s k, get_at_of_IsAbove (c, j) t a, e)

-- The placements stand in strict key order, each under its own collection and handle.
pub record IsKept (s : MemStorage) : Type 0 where
  pub sorted : IsSorted s.placements
  pub housed : IsHoused s.placements

apply_op-IsKept : (op : WriteOp) (s : MemStorage) → IsKept s → IsKept (apply_op op s)
unfolding apply_op
apply_op-IsKept (upsert_placement p) s h = record {
  sorted = insert_at-IsSorted (p.collection, p.handle) p s.placements h.sorted;
  housed = insert_at-IsHoused p s.placements h.housed;
}
apply_op-IsKept (drop_placement collection handle _) s h = record {
  sorted = remove_at-IsSorted (collection, handle) s.placements h.sorted;
  housed = remove_at-IsHoused (collection, handle) s.placements h.housed;
}
apply_op-IsKept (store_object _ _) s h = record { sorted = h.sorted; housed = h.housed }
apply_op-IsKept (set_checkpoint _ _) s h = record { sorted = h.sorted; housed = h.housed }

pub apply_ops-IsKept : (ops : List WriteOp) (s : MemStorage) → IsKept s → IsKept (apply_ops ops s)
unfolding apply_ops
apply_ops-IsKept [] s h = h
apply_ops-IsKept (op ∷ ops) s h = apply_ops-IsKept ops (apply_op op s) (apply_op-IsKept op s h)

get_at-apply_op :
    (collection : CollectionId) (h : Handle) (op : WriteOp) (s : MemStorage)
    → get_at (collection, h) (apply_op op s).placements
      ≡ effect collection h op (get_at (collection, h) s.placements)
unfolding apply_op same_key
get_at-apply_op collection h (upsert_placement p) s =
    get_at-insert_at (collection, h) (p.collection, p.handle) p s.placements ∙ ground arith
get_at-apply_op collection h (drop_placement c j _) s =
    get_at-remove_at (collection, h) (c, j) s.placements ∙ ground arith
get_at-apply_op collection h (store_object _ _) s = refl
get_at-apply_op collection h (set_checkpoint _ _) s = refl

pub get_at-apply_ops :
    (collection : CollectionId) (h : Handle) (ops : List WriteOp) (s : MemStorage)
    → get_at (collection, h) (apply_ops ops s).placements
      ≡ after collection h ops (get_at (collection, h) s.placements)
unfolding apply_ops after
get_at-apply_ops collection h [] s = refl
get_at-apply_ops collection h (op ∷ ops) s =
    get_at-apply_ops collection h ops (apply_op op s)
    ∙ ap (after collection h ops) (get_at-apply_op collection h op s)

pub get-load :
    (collection : CollectionId) (h : Handle) (s : MemStorage)
    → IsKept s
    → get h (from_entries (map by_handle (rows_of collection s.placements)))
      ≡ get_at (collection, h) s.placements
unfolding from_entries get
get-load collection h s k =
    get-from_entries_onto h [] (map by_handle (rows_of collection s.placements))
    ∙ ground (arith, last_of-rows_of collection h s.placements k.sorted k.housed)

-- What a load of a collection finds under a handle.
abbrev pub found_in : CollectionId → Handle → Result Loaded ⊥ → Option Placement
found_in collection h (ok loaded) = get h (from_entries (map by_handle loaded.placements))
found_in collection h (err _) = none

-- Where the placements stand in strict key order, each under its own collection and handle, a
-- write succeeds and keeps them so; and a load of a collection finds after it, under each
-- handle, the row that the operations written leave there of the row that a load found before:
-- the last one upserted to this collection and handle, or none if they drop it after that.
pub load-write :
    (s : MemStorage) (ops : List WriteOp) (collection : CollectionId) (h : Handle)
    → IsKept s
    → (u : MemStorage) × (write s ops ≡ ok u)
      × IsKept u
      × (found_in collection h (load u collection all)
          ≡ after collection h ops (found_in collection h (load s collection all)))
unfolding load write
load-write s ops collection h k =
    let kept = apply_ops-IsKept ops s k in
    (
      apply_ops ops s,
      refl,
      kept,
      get-load collection h (apply_ops ops s) kept
          ∙ get_at-apply_ops collection h ops s
          ∙ ap (after collection h ops) (sym (get-load collection h s k)),
    )

pub find-rows_of :
    (collection : CollectionId) (h : Handle) (t : Table Placement)
    → IsHoused t
    → find h (rows_of collection t) ≡ get_at (collection, h) t
unfolding rows_of get_at same_key
find-rows_of collection h [] k = refl
find-rows_of collection h (((c, j), p) ∷ t) (e, k) =
    ground (arith, find-rows_of collection h t k, e)

pub get_at-IsHoused :
    (collection : CollectionId) (h : Handle) (t : Table Placement) (p : Placement)
    → IsHoused t
    → get_at (collection, h) t ≡ some p
    → (p.collection ≡ collection) × (p.handle ≡ h)
unfolding get_at same_key
get_at-IsHoused collection h [] p k e = cc
get_at-IsHoused collection h (((c, j), q) ∷ t) p (f, k) e =
    ground (arith, get_at-IsHoused collection h t p k)

-- The storage in memory as one that keeps what is written to it.
unfoldable pub mem_store : (collection : CollectionId) → RowStore mem collection
unfolding load write
mem_store collection = record {
  IsValid = IsKept;
  row = λ s h. get_at (collection, h) s.placements;
  write = λ s ops h.
      (apply_ops ops s, refl, apply_ops-IsKept ops s h, λ x. get_at-apply_ops collection x ops s);
  load = λ s h. (
    record {
      placements = rows_of collection s.placements;
      checkpoint = get collection s.checkpoints;
    },
    refl,
    λ x. get-load collection x s h,
  );
  load_one = λ s h k. (
    record {
      placements = rows_of collection s.placements;
      checkpoint = get collection s.checkpoints;
    },
    refl,
    find-rows_of collection h s.placements k.housed,
  );
  housed = λ s h p k e. get_at-IsHoused collection h s.placements p k.housed e;
}
