-- ===== src/Hub/Order.antt =====
-- src/hub.rs: the order of the tables of a hub, kept by every write.
use io_replica.Base.{
  ◌≡◌, true, Option, none, some, List, [], ◌∷◌, Text, arith, All, Ordering, of_branches, ◌==◌,
  text_eq, option_eq,
}
use io_replica.Base.Strings.{cmp}
use io_replica.Base.Map
use io_replica.Base.Map.{Map, get, insert, insert-IsSorted, remove-IsSorted}
use io_replica.Placement.{Handle, LinkId, Placement, status_eq, tombstone}
use io_replica.Change.{
  WriteOp, upsert_placement, drop_placement, store_object, set_checkpoint, DropReason,
}
use io_replica.Hub.Items.{SourceId, SourceBinding, HubConflict, HubItem, Hub}
use io_replica.Hub.Absorb.{
  map_values, retain_held, is_held, absorb, absorb_op, absorb_ops, absorb_upsert, absorb_drop,
  absorb_linked, absorb_item, absorb_live, absorb_tombstone, item_or_new, release, bind,
  adopt_summary, reconcile_content,
}
use io_replica.Hub.Tables.{map_values-IsSorted, retain_held-IsSorted}

-- The items by ascending link id, and each item's bindings by ascending source.
abbrev pub IsOrdered : Hub → Type 0
IsOrdered hub = Map.IsSorted hub.items × All (λ e. Map.IsSorted e.1.sources) hub.items

module _ {ℓ κ} {V : Type ℓ} (P : V → Type κ) where
  All-insert :
      (k : Text) (v : V) (m : Map V) → P v → All (λ e. P e.1) m → All (λ e. P e.1) (insert k v m)
  unfolding insert
  All-insert k v [] p h = (p, tt)
  All-insert k v ((j, w) ∷ m) p (q, h) =
      elim (cmp k j)
        as (λ o.
          All (λ (e : Text × V). P e.1)
            (elim o [
              | Ordering.lt ↦ (k, v) ∷ (j, w) ∷ m
              | Ordering.eq ↦ (k, v) ∷ m
              | Ordering.gt ↦ (j, w) ∷ insert k v m
            ])) [
              | Ordering.lt ↦ (p, (q, h))
              | Ordering.eq ↦ (p, h)
              | Ordering.gt ↦ (q, All-insert k v m p h)
            ]

  All-map_values :
      (f : V → V) (m : Map V)
      → ((v : V) → P v → P (f v))
      → All (λ e. P e.1) m
      → All (λ e. P e.1) (map_values f m)
  unfolding map_values
  All-map_values f [] g h = tt
  All-map_values f ((j, w) ∷ m) g (q, h) = (g w q, All-map_values f m g h)

All-retain_held {κ} :
    (P : HubItem → Type κ) (m : Map HubItem) → All (λ e. P e.1) m → All (λ e. P e.1) (retain_held m)
unfolding retain_held
All-retain_held P [] h = tt
All-retain_held P ((j, w) ∷ m) (q, h) =
    let rest = All-retain_held P m h in
    of_branches (All (λ (e : Text × HubItem). P e.1)) (is_held w.sources) ((j, w) ∷ retain_held m)
      (retain_held m) (q, rest) rest

retain_held-All : (m : Map HubItem) → All (λ e. is_held e.1.sources ≡ true) (retain_held m)
unfolding retain_held
retain_held-All [] = tt
retain_held-All ((j, w) ∷ m) = ground (arith, retain_held-All m)

-- The item found under a link id, or made for it, has its bindings in order.
item_or_new-IsSorted :
    (link : LinkId) (p : Placement) (m : Map HubItem)
    → All (λ e. Map.IsSorted e.1.sources) m
    → Map.IsSorted (item_or_new (get link m) p).sources
unfolding get
item_or_new-IsSorted link p [] h = tt
item_or_new-IsSorted link p ((j, w) ∷ m) (q, h) = ground (arith, item_or_new-IsSorted link p m h)

reconcile_content-sources :
    (b : Option SourceBinding) (p : Placement) (policy : HubConflict) (item : HubItem)
    → (reconcile_content b p policy item).sources ≡ item.sources
unfolding reconcile_content
reconcile_content-sources b p policy item = ground arith

absorb_item-IsSorted :
    (source : SourceId) (policy : HubConflict) (p : Placement) (item : HubItem)
    → Map.IsSorted item.sources
    → Map.IsSorted (absorb_item source policy p item).sources
unfolding absorb_item absorb_tombstone absorb_live bind adopt_summary
absorb_item-IsSorted source policy p item s =
    of_branches (λ i. Map.IsSorted i.sources) (p.status == tombstone)
      (absorb_tombstone source p item) (absorb_live source policy p item)
      (insert-IsSorted source _ item.sources s)
      (insert-IsSorted source _ _ (
        rw (reconcile_content-sources (get source item.sources) p policy (adopt_summary p item)) s))

release-IsSorted :
    (source : SourceId) (handle : Handle) (reason : DropReason) (item : HubItem)
    → Map.IsSorted item.sources
    → Map.IsSorted (release source handle reason item).sources
unfolding release
release-IsSorted source handle reason item s = ground (arith, remove-IsSorted source item.sources s)

absorb_linked-IsOrdered :
    (link : Option LinkId) (source : SourceId) (p : Placement) (hub : Hub)
    → IsOrdered hub
    → IsOrdered (absorb_linked link source p hub)
unfolding absorb_linked
absorb_linked-IsOrdered none source p hub h = h
absorb_linked-IsOrdered (some link) source p hub (s, q) = (
  insert-IsSorted link _ hub.items s,
  All-insert (λ i. Map.IsSorted i.sources) link _ hub.items
      (absorb_item-IsSorted source hub.conflict p (item_or_new (get link hub.items) p)
        (item_or_new-IsSorted link p hub.items q))
      q,
)

absorb_op-IsOrdered :
    (source : SourceId) (op : WriteOp) (hub : Hub)
    → IsOrdered hub
    → IsOrdered (absorb_op source op hub)
unfolding absorb_op absorb_upsert absorb_drop
absorb_op-IsOrdered source (upsert_placement p) hub h =
    absorb_linked-IsOrdered p.link_id source p hub h
absorb_op-IsOrdered source (drop_placement _ handle reason) hub (s, q) = (
  map_values-IsSorted (release source handle reason) hub.items s,
  All-map_values (λ i. Map.IsSorted i.sources) (release source handle reason) hub.items
      (release-IsSorted source handle reason) q,
)
absorb_op-IsOrdered source (store_object _ _) hub h = h
absorb_op-IsOrdered source (set_checkpoint _ _) hub h = h

pub absorb_ops-IsOrdered :
    (source : SourceId) (ops : List WriteOp) (hub : Hub)
    → IsOrdered hub
    → IsOrdered (absorb_ops source ops hub)
unfolding absorb_ops
absorb_ops-IsOrdered source [] hub h = h
absorb_ops-IsOrdered source (op ∷ ops) hub h =
    absorb_ops-IsOrdered source ops (absorb_op source op hub) (absorb_op-IsOrdered source op hub h)

-- Folding a batch of writes keeps the items of a hub and the bindings of each in strict key
-- order, and leaves no item that no source holds.
pub absorb-IsOrdered :
    (source : SourceId) (ops : List WriteOp) (hub : Hub)
    → IsOrdered hub
    → IsOrdered (absorb source ops hub)
      × All (λ e. is_held e.1.sources ≡ true) (absorb source ops hub).items
unfolding absorb
absorb-IsOrdered source ops hub h =
    let items = (absorb_ops source ops hub).items in
    let (s, q) = absorb_ops-IsOrdered source ops hub h in
    (
      (retain_held-IsSorted items s, All-retain_held (λ i. Map.IsSorted i.sources) items q),
      retain_held-All items,
    )
