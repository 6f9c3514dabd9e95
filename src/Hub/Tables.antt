-- ===== src/Hub/Tables.antt =====
-- src/hub.rs: the items of a hub by their link id, before and after each write.
use io_replica.Base.{
  ◌≡◌, refl, sym, ap, ◌∙◌, true, Option, none, some, List, [], ◌∷◌, Text, arith, of_branches,
  text_eq, option_eq, ◌==◌, if◌then◌else◌, and_then,
}
use mathlib.Core.Logic.{if_pos, if_neg}
use io_replica.Base.Map
use io_replica.Base.Map.{Map, get, insert, get-insert, get_of_IsAbove}
use io_replica.Placement.{Handle, LinkId, CollectionId, Placement, status_eq, tombstone}
use io_replica.Change.{WriteOp, DropReason}
use io_replica.Hub.Items.{SourceId, SourceBinding, HubConflict, HubItem, Hub}
use io_replica.Hub.Project.{
  project_one, project_by, bound_placement, tombstone_placement, created_placement, project_items,
  push_some, project,
}
use io_replica.Hub.Absorb.{
  map_values, retain_held, is_held, absorb, absorb_ops, absorb_upsert, absorb_drop, absorb_linked,
  absorb_item, absorb_live, absorb_tombstone, item_or_new, release, bind, adopt_summary,
  reconcile_content,
}

module _ {ℓ} {V : Type ℓ} where
  pub get-map_values :
      (k : Text) (f : V → V) (m : Map V)
      → get k (map_values f m) ≡ and_then (get k m) (λ v. some (f v))
  unfolding get map_values
  get-map_values k f [] = refl
  get-map_values k f ((j, v) ∷ m) = ground (arith, get-map_values k f m)

  map_values-IsAbove :
      (k : Text) (f : V → V) (m : Map V) → Map.IsAbove k m → Map.IsAbove k (map_values f m)
  unfolding map_values
  map_values-IsAbove k f [] a = tt
  map_values-IsAbove k f ((j, v) ∷ m) (h, a) = (h, map_values-IsAbove k f m a)

  pub map_values-IsSorted : (f : V → V) (m : Map V) → Map.IsSorted m → Map.IsSorted (map_values f m)
  unfolding map_values
  map_values-IsSorted f [] s = tt
  map_values-IsSorted f ((j, v) ∷ m) (a, s) =
      (map_values-IsAbove j f m a, map_values-IsSorted f m s)

-- An item, where a source holds it.
abbrev pub held : HubItem → Option HubItem
held item = if is_held item.sources then some item else none

retain_held-IsAbove : (k : Text) (m : Map HubItem) → Map.IsAbove k m → Map.IsAbove k (retain_held m)
unfolding retain_held
retain_held-IsAbove k [] a = tt
retain_held-IsAbove k ((j, v) ∷ m) (h, a) = ground (arith, retain_held-IsAbove k m a)

pub retain_held-IsSorted : (m : Map HubItem) → Map.IsSorted m → Map.IsSorted (retain_held m)
unfolding retain_held
retain_held-IsSorted [] s = tt
retain_held-IsSorted ((j, v) ∷ m) (a, s) =
    ground (arith, retain_held-IsSorted m s, retain_held-IsAbove j m a)

pub get-retain_held :
    (k : Text) (m : Map HubItem) → Map.IsSorted m → get k (retain_held m) ≡ and_then (get k m) held
unfolding get retain_held
get-retain_held k [] s = refl
get-retain_held k ((j, v) ∷ m) (a, s) = ground (arith, get-retain_held k m s, get_of_IsAbove j m a)

-- The placement of a link id among those projected.
abbrev pub find_link : LinkId → List Placement → Option Placement
find_link link [] = none
find_link link (p ∷ out) = if p.link_id == some link then some p else find_link link out

link_of-project_one :
    (collection : CollectionId) (source : SourceId) (link : LinkId) (item : HubItem) (p : Placement)
    → project_one collection source link item ≡ some p
    → p.link_id ≡ some link
unfolding project_one project_by bound_placement tombstone_placement created_placement
link_of-project_one collection source link item p h = ground arith

find_link-push :
    (link k : LinkId) (o : Option Placement) (out : List Placement)
    → ((p : Placement) → o ≡ some p → p.link_id ≡ some k)
    → find_link link (push_some o out) ≡ (
        if link == k
        then (elim o [ none ↦ find_link link out | some p ↦ some p ])
        else find_link link out)
find_link-push link k none out h = ground arith
find_link-push link k (some p) out h = ground (arith, h p refl)

first_or_none :
    (o rest : Option Placement) → rest ≡ none → (elim o [ none ↦ rest | some p ↦ some p ]) ≡ o
first_or_none none rest h = h
first_or_none (some p) rest h = refl

find_link-project_items :
    (collection : CollectionId) (source : SourceId) (link : LinkId) (items : Map HubItem)
    → Map.IsSorted items
    → find_link link (project_items collection source items)
      ≡ and_then (get link items) (project_one collection source link)
unfolding project_items get
find_link-project_items collection source link [] s = refl
find_link-project_items collection source link ((k, item) ∷ items) (a, s) =
    rw
      (find_link-push link k (project_one collection source k item) _
        (link_of-project_one collection source k item))
      (elim (text_eq.dec link k) [
        | yes e ↦
            let nothing : get link items ≡ none = rw e (get_of_IsAbove k items a) in
            let rest = find_link-project_items collection source link items s in
            rw (if_pos _ e) (
              first_or_none (project_one collection source k item) _ (rest ∙ rw nothing)
              ∙ ap (λ l. project_one collection source l item) (sym e))
        | no n ↦ rw (if_neg _ n) (find_link-project_items collection source link items s)
      ])

-- A projection holds, under each link id, the placement of the item that the hub has there.
pub find_link-project :
    (hub : Hub) (collection : CollectionId) (source : SourceId) (link : LinkId)
    → Map.IsSorted hub.items
    → find_link link (project hub collection source)
      ≡ and_then (get link hub.items) (project_one collection source link)
unfolding project
find_link-project hub collection source link s =
    find_link-project_items collection source link hub.items s

-- An upsert with a link id changes the item of that link id alone.
pub get-absorb_upsert :
    (k link : LinkId) (source : SourceId) (p : Placement) (hub : Hub)
    → p.link_id ≡ some link
    → get k (absorb_upsert source p hub).items ≡ (
        if k == link
        then some (absorb_item source hub.conflict p (item_or_new (get link hub.items) p))
        else get k hub.items)
unfolding absorb_upsert absorb_linked
get-absorb_upsert k link source p hub e = rw e (get-insert k link _ hub.items)

pub get-absorb_drop :
    (k : LinkId) (source : SourceId) (handle : Handle) (reason : DropReason) (hub : Hub)
    → get k (absorb_drop source handle reason hub).items
      ≡ and_then (get k hub.items) (λ item. some (release source handle reason item))
unfolding absorb_drop
get-absorb_drop k source handle reason hub =
    get-map_values k (release source handle reason) hub.items

-- What a batch leaves under a link id, of what its operations made of it.
pub get-absorb :
    (k : LinkId) (source : SourceId) (ops : List WriteOp) (hub : Hub)
    → Map.IsSorted (absorb_ops source ops hub).items
    → get k (absorb source ops hub).items ≡ and_then (get k (absorb_ops source ops hub).items) held
unfolding absorb
get-absorb k source ops hub s = get-retain_held k (absorb_ops source ops hub).items s

is_held-insert :
    (source : SourceId) (b : SourceBinding) (m : Map SourceBinding)
    → is_held (insert source b m) ≡ true
unfolding insert
is_held-insert source b [] = refl
is_held-insert source b ((j, w) ∷ m) = ground arith

absorb_item-is_held :
    (source : SourceId) (policy : HubConflict) (p : Placement) (item : HubItem)
    → is_held (absorb_item source policy p item).sources ≡ true
unfolding absorb_item absorb_tombstone absorb_live bind
absorb_item-is_held source policy p item =
    of_branches (λ i. is_held i.sources ≡ true) (p.status == tombstone)
      (absorb_tombstone source p item) (absorb_live source policy p item)
      (is_held-insert source _ item.sources)
      (is_held-insert source _
        (reconcile_content (get source item.sources) p policy (adopt_summary p item)).sources)

-- An item that has just absorbed an upsert is held.
pub absorb_item-held :
    (source : SourceId) (policy : HubConflict) (p : Placement) (item : HubItem)
    → held (absorb_item source policy p item) ≡ some (absorb_item source policy p item)
absorb_item-held source policy p item = rw (absorb_item-is_held source policy p item)
