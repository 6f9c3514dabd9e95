-- ===== src/Hub/RoundTrip.antt =====
-- src/hub.rs: a placement absorbed from a source, and projected back to it.
use io_replica.Base.{
  ◌≡◌, ◌≢◌, refl, ap, ◌∙◌, ◌⊎◌, inl, inr, false, Bool, Option, none, some, [], ◌∷◌, arith, text_eq,
  option_eq,
}
use mathlib.Core.Logic.{if_neg}
use io_replica.Base.Map.{Map, get, insert, get-insert}
use io_replica.Flags.{flags_eq, unknown}
use io_replica.Placement.{
  LinkId, CollectionId, Placement, SyncBase, Hash, status_eq, clean, conflict, tombstone,
}
use io_replica.Change.{upsert_placement}
use io_replica.Hub.Items.{SourceId, SourceBinding, HubItem, Hub, HubConflict}
use io_replica.Hub.Project.{project_one, project_by, project, bound_placement}
use io_replica.Hub.Absorb.{
  absorb, absorb_item, absorb_live, bind, binding_of, item_or_new, reconcile_content, adopt_summary,
}
use io_replica.Hub.Order.{IsOrdered}
use io_replica.Hub.Tables.{find_link}
use io_replica.Hub.Views.{find_link-absorb_upsert}

-- The item that a live upsert leaves: what the reconcile left, with the source bound anew.
pub absorb_item_live :
    (source : SourceId) (policy : HubConflict) (p : Placement) (item : HubItem)
    → p.status ≢ tombstone
    → absorb_item source policy p item
      ≡ bind source p (reconcile_content (get source item.sources) p policy (adopt_summary p item))
unfolding absorb_item absorb_live
absorb_item_live source policy p item n = rw (if_neg _ n)

pub reconcile_content-kept :
    (b : Option SourceBinding) (p : Placement) (policy : HubConflict) (item : HubItem)
    → ((reconcile_content b p policy item).deleted ≡ item.deleted)
      × ((reconcile_content b p policy item).flags ≡ item.flags)
      × ((reconcile_content b p policy item).sources ≡ item.sources)
unfolding reconcile_content
reconcile_content-kept b p policy item = (ground arith, ground arith, ground arith)

pub project_by_bound :
    (d : Bool) (o : Option SourceBinding) (b : SourceBinding) (collection : CollectionId)
    (link : LinkId) (item : HubItem)
    → d ≡ false
    → o ≡ some b
    → project_by d o collection link item ≡ some (bound_placement collection link item b)
unfolding project_by
project_by_bound d o b collection link item h k = rw (h, k)

get-insert_self :
    (source : SourceId) (b : SourceBinding) (m : Map SourceBinding)
    → get source (insert source b m) ≡ some b
get-insert_self source b m = rw (get-insert source source b m) (ground arith)

-- What a source sees of an item that it has just bound itself to.
pub project_one-bind :
    (collection : CollectionId) (source : SourceId) (link : LinkId) (p : Placement) (item : HubItem)
    → item.deleted ≡ false
    → project_one collection source link (bind source p item)
      ≡ some (bound_placement collection link (bind source p item) (binding_of p item.object))
unfolding project_one bind
project_one-bind collection source link p item d =
    project_by_bound _ _ _ collection link _ d
      (get-insert_self source (binding_of p item.object) item.sources)

-- What a source sees after a live upsert of its own.
pub project_one-absorb_item :
    (collection : CollectionId) (source : SourceId) (link : LinkId) (policy : HubConflict)
    (p : Placement) (item : HubItem)
    → p.status ≢ tombstone
    → project_one collection source link (absorb_item source policy p item) ≡ (
        let r = reconcile_content (get source item.sources) p policy (adopt_summary p item) in
        some (bound_placement collection link (bind source p r) (binding_of p r.object)))
unfolding adopt_summary
project_one-absorb_item collection source link policy p item n =
    rw (absorb_item_live source policy p item n) (
      project_one-bind collection source link p _
        ((reconcile_content-kept (get source item.sources) p policy (adopt_summary p item)).0))

bound_placement-conflict :
    (collection : CollectionId) (link : LinkId) (p : Placement) (item : HubItem)
    (shared : Option Hash)
    → p.status ≡ conflict
    → let q = bound_placement collection link item (binding_of p shared) in
      (q.handle ≡ p.handle)
      × (q.status ≡ conflict)
      × (q.base ≡ p.base)
      × (q.conflict_revision ≡ p.conflict_revision)
      × (q.conflict_object ≡ p.conflict_object)
unfolding bound_placement binding_of
bound_placement-conflict collection link p item shared st =
    (refl, ground arith, refl, ground arith, ground arith)

-- In an ordered hub, a linked, conflicted row, folded in and projected back to its source, is
-- conflicted still, with its handle, its base, the revision observed and the remote's body.
pub project-absorb_conflict :
    (hub : Hub) (source : SourceId) (collection : CollectionId) (link : LinkId) (p : Placement)
    → IsOrdered hub
    → p.link_id ≡ some link
    → p.status ≡ conflict
    → (q : Placement) × (find_link link
          (project (absorb source (upsert_placement p ∷ []) hub) collection source)
        ≡ some q)
      × (q.handle ≡ p.handle)
      × (q.status ≡ conflict)
      × (q.base ≡ p.base)
      × (q.conflict_revision ≡ p.conflict_revision)
      × (q.conflict_object ≡ p.conflict_object)
project-absorb_conflict hub source collection link p o e st =
    let item = item_or_new (get link hub.items) p in
    let r = reconcile_content (get source item.sources) p hub.conflict (adopt_summary p item) in
    let seen =
      find_link-absorb_upsert hub source source collection link p o e
      ∙ project_one-absorb_item collection source link hub.conflict p item (ground arith) in
    let same = bound_placement-conflict collection link p (bind source p r) r.object st in
    (
      bound_placement collection link (bind source p r) (binding_of p r.object),
      seen,
      same.0,
      same.1,
      same.2,
      same.3,
      same.4,
    )

-- The body that the source and the hub already share is left alone.
reconcile_content_shared :
    (b : Option SourceBinding) (p : Placement) (policy : HubConflict) (item : HubItem)
    → item.object ≡ p.object
    → reconcile_content b p policy item ≡ item
unfolding reconcile_content
reconcile_content_shared b p policy item e = ground arith

object-item_or_new :
    (o : Option HubItem) (p : Placement)
    → (o ≡ none) ⊎ ((item : HubItem) × (o ≡ some item) × (item.object ≡ p.object))
    → (item_or_new o p).object ≡ p.object
object-item_or_new o p (inl e) = rw e
object-item_or_new o p (inr (item, e, same)) = rw e same

bound_placement-settled :
    (collection : CollectionId) (link : LinkId) (p : Placement) (base : SyncBase) (item : HubItem)
    (shared : Option Hash)
    → p.status ≡ clean
    → p.base ≡ some base
    → base.flags ≡ p.flags
    → base.object ≡ p.object
    → item.flags ≡ p.flags
    → item.object ≡ p.object
    → let q = bound_placement collection link item (binding_of p shared) in
      (q.handle ≡ p.handle)
      × (q.status ≡ clean)
      × (q.base ≡ some base)
      × (q.flags ≡ p.flags)
      × (q.object ≡ p.object)
unfolding bound_placement binding_of
bound_placement-settled collection link p base item shared st b f o f' o' =
    (refl, ground arith, b, f', o')

-- In an ordered hub that does not know its link id or holds the same body, a linked, clean row
-- with known flags and the body and flags of its base, folded in and projected back to its
-- source, is clean, with its handle, base, flags and body.
pub project-absorb_settled :
    (hub : Hub) (source : SourceId) (collection : CollectionId) (link : LinkId) (p : Placement)
    (base : SyncBase)
    → IsOrdered hub
    → p.link_id ≡ some link
    → p.status ≡ clean
    → p.base ≡ some base
    → base.flags ≡ p.flags
    → base.object ≡ p.object
    → p.flags ≢ unknown
    → (get link hub.items ≡ none)
      ⊎ ((item : HubItem) × (get link hub.items ≡ some item) × (item.object ≡ p.object))
    → (q : Placement) × (find_link link
          (project (absorb source (upsert_placement p ∷ []) hub) collection source)
        ≡ some q)
      × (q.handle ≡ p.handle)
      × (q.status ≡ clean)
      × (q.base ≡ some base)
      × (q.flags ≡ p.flags)
      × (q.object ≡ p.object)
unfolding adopt_summary bind
project-absorb_settled hub source collection link p base o e st b bf bo known shared =
    let item = item_or_new (get link hub.items) p in
    let same =
      reconcile_content_shared (get source item.sources) p hub.conflict (adopt_summary p item)
        (object-item_or_new (get link hub.items) p shared) in
    let r = adopt_summary p item in
    let seen =
      find_link-absorb_upsert hub source source collection link p o e
      ∙ project_one-absorb_item collection source link hub.conflict p item (ground arith)
      ∙ ap (λ i. some (bound_placement collection link (bind source p i) (binding_of p i.object)))
          same in
    let flags : r.flags ≡ p.flags = ground arith in
    let kept =
      bound_placement-settled collection link p base (bind source p r) r.object st b bf bo flags
        (object-item_or_new (get link hub.items) p shared) in
    (
      bound_placement collection link (bind source p r) (binding_of p r.object),
      seen,
      kept.0,
      kept.1,
      kept.2,
      kept.3,
      kept.4,
    )
