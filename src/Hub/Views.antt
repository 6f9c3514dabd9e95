-- ===== src/Hub/Views.antt =====
-- src/hub.rs: what a source sees of an item after another write, or its own.
use io_replica.Base.{◌≡◌, ◌∙◌, some, [], ◌∷◌, arith, text_eq, option_eq, and_then}
use io_replica.Base.Map.{get}
use io_replica.Placement.{Handle, LinkId, CollectionId, Placement}
use io_replica.Change.{upsert_placement, drop_placement, DropReason}
use io_replica.Hub.Items.{SourceId, Hub}
use io_replica.Hub.Project.{project_one, project}
use io_replica.Hub.Absorb.{absorb, absorb_ops, absorb_op, absorb_item, item_or_new, release}
use io_replica.Hub.Order.{IsOrdered, absorb_ops-IsOrdered, absorb-IsOrdered}
use io_replica.Hub.Tables.{
  held, find_link, find_link-project, get-absorb, get-absorb_upsert, get-absorb_drop,
  absorb_item-held,
}

get-absorb_ops_upsert :
    (hub : Hub) (source : SourceId) (link : LinkId) (p : Placement)
    → p.link_id ≡ some link
    → get link (absorb_ops source (upsert_placement p ∷ []) hub).items
      ≡ some (absorb_item source hub.conflict p (item_or_new (get link hub.items) p))
unfolding absorb_ops absorb_op
get-absorb_ops_upsert hub source link p e =
    ground (arith, get-absorb_upsert link link source p hub e)

get-absorb_ops_drop :
    (hub : Hub) (source : SourceId) (link : LinkId) (dropped : CollectionId) (handle : Handle)
    (reason : DropReason)
    → get link (absorb_ops source (drop_placement dropped handle reason ∷ []) hub).items
      ≡ and_then (get link hub.items) (λ item. some (release source handle reason item))
unfolding absorb_ops absorb_op
get-absorb_ops_drop hub source link dropped handle reason =
    get-absorb_drop link source handle reason hub

-- After an upsert, by any source.
pub find_link-absorb_upsert :
    (hub : Hub) (source other : SourceId) (collection : CollectionId) (link : LinkId)
    (p : Placement)
    → IsOrdered hub
    → p.link_id ≡ some link
    → find_link link (project (absorb source (upsert_placement p ∷ []) hub) collection other)
      ≡ project_one collection other link
          (absorb_item source hub.conflict p (item_or_new (get link hub.items) p))
find_link-absorb_upsert hub source other collection link p o e =
    let ops = upsert_placement p ∷ [] in
    find_link-project (absorb source ops hub) collection other link
      (absorb-IsOrdered source ops hub o).0.0
    ∙ rw (get-absorb link source ops hub (absorb_ops-IsOrdered source ops hub o).0) (
        rw (get-absorb_ops_upsert hub source link p e)
          (rw (absorb_item-held source hub.conflict p (item_or_new (get link hub.items) p))))

-- After a drop, by any source.
pub find_link-absorb_drop :
    (hub : Hub) (source other : SourceId) (collection : CollectionId) (link : LinkId)
    (dropped : CollectionId) (handle : Handle) (reason : DropReason)
    → IsOrdered hub
    → find_link link
        (project (absorb source (drop_placement dropped handle reason ∷ []) hub) collection other)
      ≡ and_then
          (and_then
            (and_then (get link hub.items) (λ item. some (release source handle reason item)))
            held)
          (project_one collection other link)
find_link-absorb_drop hub source other collection link dropped handle reason o =
    let ops = drop_placement dropped handle reason ∷ [] in
    find_link-project (absorb source ops hub) collection other link
      (absorb-IsOrdered source ops hub o).0.0
    ∙ rw (get-absorb link source ops hub (absorb_ops-IsOrdered source ops hub o).0)
        (rw (get-absorb_ops_drop hub source link dropped handle reason))
