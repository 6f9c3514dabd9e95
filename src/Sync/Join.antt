-- ===== src/Sync/Join.antt =====
-- src/sync.rs, `open_merge`, `Join`, `narrow` and `next_candidate`: the walk that pairs the local
-- placements with the remote items.
pub mod Order
pub mod Pairs
pub mod Loop
pub mod Deltas
use io_replica.Base.{
  ℕ, zero, suc, ◌+◌, Ordering, Bool, true, false, Option, none, some, List, [], ◌∷◌, text_eq, ◌==◌,
  if◌then◌else◌, is_some, length, or_else, not, ◌&&◌,
}
use io_replica.Base.Strings.{cmp}
use io_replica.Base.Map.{Map}
use io_replica.Base.Set.{contains, from_list}
use io_replica.Placement.{Handle, Placement, SyncBase, status_eq, clean}
use io_replica.Remote.{RemoteItem, RemoteSnapshot}
use io_replica.Sync.Engine.{Sync, Join, Merge, Candidate}

abbrev pub at_most : RemoteItem → RemoteItem → Bool
at_most a b = elim (cmp a.handle b.handle) [ Ordering.gt ↦ false | _ ↦ true ]

is_ordered : List RemoteItem → Bool
is_ordered [] = true
is_ordered (a ∷ []) = true
is_ordered (a ∷ b ∷ items) = at_most a b && is_ordered (b ∷ items)

insert_item : RemoteItem → List RemoteItem → List RemoteItem
insert_item a [] = a ∷ []
insert_item a (b ∷ items) =
    let rest = insert_item a items in if at_most a b then a ∷ b ∷ items else b ∷ rest

-- `sort_by`, which is stable: items of one handle keep their order.
sort_items : List RemoteItem → List RemoteItem
unfolding insert_item
sort_items [] = []
sort_items (a ∷ items) = insert_item a (sort_items items)

dedup_after : RemoteItem → List RemoteItem → List RemoteItem
dedup_after a [] = []
dedup_after a (b ∷ items) =
    let rest = dedup_after b items in if a.handle == b.handle then rest else b ∷ rest

-- `dedup_by`, which keeps the first item of a run.
dedup_items : List RemoteItem → List RemoteItem
unfolding dedup_after
dedup_items [] = []
dedup_items (a ∷ items) = a ∷ dedup_after a items

-- The items as the join takes them.
unfoldable pub prepare : List RemoteItem → List RemoteItem
unfolding is_ordered sort_items dedup_items
prepare items = dedup_items (if not (is_ordered items) then sort_items items else items)

-- `ReplicaSync::open_merge`.
unfoldable pub open_merge : RemoteSnapshot → Sync → Sync
unfolding prepare from_list
open_merge snapshot s = record s {
  local = [];
  merging = some (record {
    join = record { local = s.local; remote = prepare snapshot.items };
    vanished = from_list snapshot.vanished;
    complete = snapshot.complete;
    checkpoint = snapshot.checkpoint;
  });
}

take_local : Handle → Placement → Map Placement → List RemoteItem → Option (Candidate × Join)
take_local handle p local remote = some (
  record { handle = handle; local = some p; remote = none },
  record { local = local; remote = remote },
)

take_remote : RemoteItem → Map Placement → List RemoteItem → Option (Candidate × Join)
take_remote item local remote = some (
  record { handle = item.handle; local = none; remote = some item },
  record { local = local; remote = remote },
)

take_both :
    Handle → Placement → RemoteItem → Map Placement → List RemoteItem → Option (Candidate × Join)
take_both handle p item local remote = some (
  record { handle = handle; local = some p; remote = some item },
  record { local = local; remote = remote },
)

next_of : Map Placement → List RemoteItem → Option (Candidate × Join)
unfolding take_local take_remote take_both
next_of [] [] = none
next_of ((handle, p) ∷ local) [] = take_local handle p local []
next_of [] (item ∷ remote) = take_remote item [] remote
next_of ((handle, p) ∷ local) (item ∷ remote) = elim (cmp handle item.handle) [
  | Ordering.lt ↦ take_local handle p local (item ∷ remote)
  | Ordering.gt ↦ take_remote item ((handle, p) ∷ local) remote
  | Ordering.eq ↦ take_both handle p item local remote
]

-- `Join::next`, with the join that is left.
unfoldable pub next : Join → Option (Candidate × Join)
unfolding next_of
next j = next_of j.local j.remote

-- The remote state that a silent delta stands for.
standing : Handle → Placement → Option SyncBase → Option RemoteItem
standing handle local none = none
standing handle local (some base) = some (record {
  handle = handle;
  flags = base.flags;
  revision = or_else local.conflict_revision base.revision;
})

narrow_silent : Candidate → Option Placement → Option Candidate
unfolding standing
narrow_silent c none = none
narrow_silent c (some local) =
    if local.status == clean
    then none
    else some (record c { remote = standing c.handle local local.base })

-- `Merge::narrow`.
unfoldable pub narrow : Merge → Candidate → Option Candidate
unfolding narrow_silent contains
narrow m c =
    if contains m.vanished c.handle
    then some (record c { remote = none })
    else if is_some c.remote
    then some c
    else narrow_silent c c.local

abbrev pub join_size : Join → ℕ
join_size j = length j.local + length j.remote

abbrev pub kept : Merge → Candidate → Option Candidate
kept m c = if m.complete then some c else narrow m c

-- The loop of `next_candidate`, with as many rounds as there are rows to walk.
unfoldable pub next_within : ℕ → Merge → Merge × Option Candidate
unfolding next narrow
next_within zero m = (m, none)
next_within (suc n) m = elim (next m.join) [
  | none ↦ (m, none)
  | some (c, j) ↦ elim (kept m c) [
    | none ↦ next_within n (record m { join = j })
    | some c' ↦ (record m { join = j }, some c')
  ]
]

unfoldable pub next_candidate : Merge → Merge × Option Candidate
unfolding next_within
next_candidate m = next_within (join_size m.join) m
