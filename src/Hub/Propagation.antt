-- ===== src/Hub/Propagation.antt =====
-- src/hub.rs with src/sync.rs: a change of one source, on its way to another.
use io_replica.Base.{
  ◌≡◌, ◌≢◌, refl, ap, ◌∙◌, ◌⊎◌, ◌&&◌, true, false, Option, none, some, [], ◌∷◌, arith, text_eq,
  option_eq,
}
use io_replica.Base.Map.{Map, get, insert, get-insert}
use io_replica.Flags.{flags_eq}
use io_replica.Placement.{
  LinkId, CollectionId, Placement, SyncBase, Hash, status_eq, dirty, tombstone,
}
use io_replica.Remote.{RemoteItem}
use io_replica.Change.{upsert_placement, update}
use io_replica.Sync.Engine.{Sync}
use io_replica.Sync.Merge.{merge}
use io_replica.Sync.Merge.Dirty.{merge_dirty}
use io_replica.Hub.Items.{SourceId, SourceBinding, HubItem, Hub, HubConflict}
use io_replica.Hub.Project.{project_one, project, bound_placement}
use io_replica.Hub.Absorb.{
  absorb, absorb_item, bind, item_or_new, reconcile_content, synced_body, agreed_body,
  adopt_summary,
}
use io_replica.Hub.Order.{IsOrdered}
use io_replica.Hub.Tables.{find_link}
use io_replica.Hub.Views.{find_link-absorb_upsert}
use io_replica.Hub.RoundTrip.{absorb_item_live, reconcile_content-kept, project_by_bound}

get-insert_ne :
    (other source : SourceId) (b : SourceBinding) (m : Map SourceBinding)
    → other ≢ source
    → get other (insert source b m) ≡ get other m
get-insert_ne other source b m n = rw (get-insert other source b m) (ground arith)

-- What another source sees after a live upsert.
project_one-elsewhere :
    (collection : CollectionId) (source other : SourceId) (link : LinkId) (policy : HubConflict)
    (p : Placement) (item : HubItem) (b : SourceBinding)
    → p.status ≢ tombstone
    → other ≢ source
    → get other item.sources ≡ some b
    → project_one collection other link (absorb_item source policy p item) ≡ (
        let r = reconcile_content (get source item.sources) p policy (adopt_summary p item) in
        some (bound_placement collection link (bind source p r) b))
unfolding project_one bind adopt_summary
project_one-elsewhere collection source other link policy p item b n ne h =
    let kept = reconcile_content-kept (get source item.sources) p policy (adopt_summary p item) in
    rw (absorb_item_live source policy p item n) (
      project_by_bound _ _ _ collection link _ kept.0
        (get-insert_ne other source _ _ ne ∙ ap (get other) kept.2 ∙ h))

-- A source that the others did not overtake has its new body adopted.
reconcile_content_forward :
    (b : Option SourceBinding) (p : Placement) (policy : HubConflict) (item : HubItem)
    → item.object ≡ agreed_body b
    → p.object ≢ synced_body b
    → (reconcile_content b p policy item).object ≡ p.object
unfolding reconcile_content
reconcile_content_forward b p policy item a n = ground arith

bound_placement_behind :
    (collection : CollectionId) (link : LinkId) (item : HubItem) (b : SourceBinding)
    (base : SyncBase) (o : Hash)
    → item.object ≡ some o
    → b.base ≡ some base
    → b.conflicted ≡ false
    → base.object ≢ some o
    → let q = bound_placement collection link item b in
      (q.handle ≡ b.handle) × (q.status ≡ dirty) × (q.base ≡ some base) × (q.object ≡ some o)
unfolding bound_placement
bound_placement_behind collection link item b base o e h c n = (refl, ground arith, h, e)

-- In an ordered hub, a live upsert of a known item with a new body, by a source whose last
-- agreed body is the hub's, is projected to another bound source without a conflict that last
-- synced another body, under that source's handle; merged there against an item with no new
-- revision and with content pushes permitted, it derives the update of that body on the base
-- revision.
pub merge-project-absorb :
    (hub : Hub) (source other : SourceId) (collection : CollectionId) (link : LinkId)
    (p : Placement) (item : HubItem) (b : SourceBinding) (base : SyncBase) (o : Hash) (s : Sync)
    (remote : RemoteItem)
    → IsOrdered hub
    → p.link_id ≡ some link
    → get link hub.items ≡ some item
    → p.status ≢ tombstone
    → p.object ≡ some o
    → item.object ≡ agreed_body (get source item.sources)
    → p.object ≢ synced_body (get source item.sources)
    → other ≢ source
    → get other item.sources ≡ some b
    → b.base ≡ some base
    → b.conflicted ≡ false
    → base.object ≢ some o
    → (remote.revision ≡ none) ⊎ (remote.revision ≡ base.revision)
    → s.opts.push && s.opts.rights.content ≡ true
    → (q : Placement) × (find_link link
          (project (absorb source (upsert_placement p ∷ []) hub) collection other)
        ≡ some q)
      × (q.handle ≡ b.handle)
      × ((merge (record { handle = q.handle; local = some q; remote = some remote }) s).1
          ≡ some (update q.handle o base.revision))
unfolding adopt_summary bind
merge-project-absorb hub source other collection link p item b base o s remote ord e g live body
      agreed edited ne bound h c n same may =
    let start = adopt_summary p item in
    let r = reconcile_content (get source item.sources) p hub.conflict start in
    let adopted =
      reconcile_content_forward (get source item.sources) p hub.conflict start agreed edited
      ∙ body in
    let seen =
      find_link-absorb_upsert hub source other collection link p ord e
      ∙ ap
          (λ i.
            project_one collection other link (absorb_item source hub.conflict p (item_or_new i p)))
          g
      ∙ project_one-elsewhere collection source other link hub.conflict p item b live ne bound in
    let q = bound_placement collection link (bind source p r) b in
    let behind = bound_placement_behind collection link (bind source p r) b base o adopted h c n in
    (
      q,
      seen,
      behind.0,
      merge_dirty (record { handle = q.handle; local = some q; remote = some remote }) s q base
          remote o refl refl behind.1 behind.2 behind.3 n same may,
    )
