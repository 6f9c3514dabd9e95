-- ===== src/Hub/Deletes.antt =====
-- src/hub.rs with src/sync.rs: a delete of one source, on its way to another, and a drop that is none.
use io_replica.Base.{
  ◌≡◌, ◌≢◌, refl, sym, ap, ◌∙◌, ◌⊎◌, inr, ◌&&◌, ◌||◌, true, false, Bool, none, some, [], ◌∷◌, arith,
  Text, text_eq, option_eq, ◌==◌, is_some_and, of_branches,
}
use io_replica.Base.Map.{Map, get, remove, get-remove}
use io_replica.Placement.{Handle, LinkId, CollectionId, Placement, SyncBase, status_eq}
use io_replica.Remote.{RemoteItem}
use io_replica.Change.{drop_placement, DropReason, deleted, superseded, ChangeKind}
use io_replica.Change
use io_replica.Sync.Engine.{Sync}
use io_replica.Sync.Merge.{merge}
use io_replica.Sync.Merge.Deletes.{merge_deleted_unchanged}
use io_replica.Hub.Items.{SourceId, SourceBinding, HubItem, Hub}
use io_replica.Hub.Project.{project_one, project_by, project, bound_placement, tombstone_placement}
use io_replica.Hub.Absorb.{absorb, release, is_held, is_deleted}
use io_replica.Hub.Order.{IsOrdered}
use io_replica.Hub.Tables.{find_link, held, find_link-project}
use io_replica.Hub.Views.{find_link-absorb_drop}

is_held-get :
    (k : Text) (b : SourceBinding) (m : Map SourceBinding) → get k m ≡ some b → is_held m ≡ true
unfolding get
is_held-get k b [] e = cc
is_held-get k b (_ ∷ m) e = refl

get-remove_ne :
    (other source : SourceId) (m : Map SourceBinding)
    → other ≢ source
    → get other (remove source m) ≡ get other m
get-remove_ne other source m n = ground (arith, get-remove other source m)

-- The other sources stay bound where one of them drops its handle.
get-release :
    (source other : SourceId) (handle : Handle) (reason : DropReason) (item : HubItem)
    → other ≢ source
    → get other (release source handle reason item).sources ≡ get other item.sources
unfolding release
get-release source other handle reason item n =
    of_branches (λ i. get other i.sources ≡ get other item.sources)
      (is_some_and (get source item.sources) (λ b. b.handle == handle))
      (record item {
        deleted = item.deleted || is_deleted reason;
        sources = remove source item.sources;
      })
      item (get-remove_ne other source item.sources n) refl

release-held :
    (source other : SourceId) (handle : Handle) (reason : DropReason) (item : HubItem)
    (b : SourceBinding)
    → other ≢ source
    → get other item.sources ≡ some b
    → held (release source handle reason item) ≡ some (release source handle reason item)
release-held source other handle reason item b n e = rw (
    is_held-get other b (release source handle reason item).sources
      (get-release source other handle reason item n ∙ e))

-- What another source sees after a drop, through the item that the drop leaves.
find_link-dropped :
    (hub : Hub) (source other : SourceId) (collection dropped : CollectionId) (link : LinkId)
    (handle : Handle) (reason : DropReason) (item : HubItem) (b : SourceBinding)
    → IsOrdered hub
    → get link hub.items ≡ some item
    → other ≢ source
    → get other item.sources ≡ some b
    → find_link link
        (project (absorb source (drop_placement dropped handle reason ∷ []) hub) collection other)
      ≡ project_one collection other link (release source handle reason item)
find_link-dropped hub source other collection dropped link handle reason item b ord g n e =
    find_link-absorb_drop hub source other collection link dropped handle reason ord
    ∙ rw g (rw (release-held source other handle reason item b n e))

-- Neither the bindings of the other sources nor the mark matter to how a bound source is shown.
project_by-bound :
    (marked : Bool) (collection : CollectionId) (link : LinkId) (item : HubItem) (b : SourceBinding)
    (sources : Map SourceBinding)
    → project_by
        (marked || false)
        (some b)
        collection
        link
        (record item { deleted = item.deleted || false; sources = sources })
      ≡ project_by marked (some b) collection link item
unfolding project_by bound_placement tombstone_placement
project_by-bound true collection link item b sources = refl
project_by-bound false collection link item b sources = refl

project_one-superseded :
    (collection : CollectionId) (source other : SourceId) (link : LinkId) (handle : Handle)
    (item : HubItem) (b : SourceBinding)
    → other ≢ source
    → get other item.sources ≡ some b
    → project_one collection other link (release source handle superseded item)
      ≡ project_one collection other link item
unfolding project_one release
project_one-superseded collection source other link handle item b n e =
    of_branches (λ i. project_one collection other link i ≡ project_one collection other link item)
      (is_some_and (get source item.sources) (λ c. c.handle == handle))
      (record item { deleted = item.deleted || false; sources = remove source item.sources }) item
      (rw (get-remove_ne other source item.sources n ∙ e)
        (rw e (project_by-bound item.deleted collection link item b (remove source item.sources))))
      refl

-- In an ordered hub, a superseded drop by one source leaves the projection of an item to another
-- bound source as it was.
pub project-superseded :
    (hub : Hub) (source other : SourceId) (collection dropped : CollectionId) (link : LinkId)
    (handle : Handle) (item : HubItem) (b : SourceBinding)
    → IsOrdered hub
    → get link hub.items ≡ some item
    → other ≢ source
    → get other item.sources ≡ some b
    → find_link link (
        project
          (absorb source (drop_placement dropped handle superseded ∷ []) hub)
          collection
          other)
      ≡ find_link link (project hub collection other)
project-superseded hub source other collection dropped link handle item b ord g n e =
    find_link-dropped hub source other collection dropped link handle superseded item b ord g n e
    ∙ project_one-superseded collection source other link handle item b n e
    ∙ sym (find_link-project hub collection other link ord.0 ∙ rw g refl)

project_by-deleted :
    (marked : Bool) (collection : CollectionId) (link : LinkId) (item : HubItem) (b : SourceBinding)
    (sources : Map SourceBinding)
    → project_by
        (marked || true)
        (some b)
        collection
        link
        (record item { deleted = item.deleted || true; sources = sources })
      ≡ some (tombstone_placement collection link item b)
unfolding project_by tombstone_placement
project_by-deleted true collection link item b sources = refl
project_by-deleted false collection link item b sources = refl

release-deleted :
    (source : SourceId) (handle : Handle) (item : HubItem) (a : SourceBinding)
    → get source item.sources ≡ some a
    → a.handle ≡ handle
    → release source handle deleted item
      ≡ record item { deleted = item.deleted || true; sources = remove source item.sources }
unfolding release
release-deleted source handle item a mine same = rw (mine) (ground (arith, same))

project_one-deleted :
    (collection : CollectionId) (source other : SourceId) (link : LinkId) (handle : Handle)
    (item : HubItem) (a b : SourceBinding)
    → other ≢ source
    → get source item.sources ≡ some a
    → a.handle ≡ handle
    → get other item.sources ≡ some b
    → project_one collection other link (release source handle deleted item)
      ≡ some (tombstone_placement collection link item b)
unfolding project_one
project_one-deleted collection source other link handle item a b n mine same e =
    ap (project_one collection other link) (release-deleted source handle item a mine same)
    ∙ rw (get-remove_ne other source item.sources n ∙ e)
        (project_by-deleted item.deleted collection link item b (remove source item.sources))

-- In an ordered hub, a genuine drop by a source bound under the handle is projected to another
-- bound, based source as a tombstone; merged there against an item with no new revision and with
-- removes permitted, it derives the remove of that source's own handle on its base revision.
pub merge-project-drop :
    (hub : Hub) (source other : SourceId) (collection dropped : CollectionId) (link : LinkId)
    (handle : Handle) (item : HubItem) (a b : SourceBinding) (base : SyncBase) (s : Sync)
    (remote : RemoteItem)
    → IsOrdered hub
    → get link hub.items ≡ some item
    → other ≢ source
    → get source item.sources ≡ some a
    → a.handle ≡ handle
    → get other item.sources ≡ some b
    → b.base ≡ some base
    → (remote.revision ≡ none) ⊎ (remote.revision ≡ base.revision)
    → s.opts.push && s.opts.rights.remove ≡ true
    → (q : Placement) × (find_link link (
          project (absorb source (drop_placement dropped handle deleted ∷ []) hub) collection other)
        ≡ some q)
      × ((merge (record { handle = b.handle; local = some q; remote = some remote }) s).1
          ≡ some (Change.remove b.handle none (some link) base.revision))
unfolding tombstone_placement
merge-project-drop hub source other collection dropped link handle item a b base s remote ord g n
      mine same e based quiet may =
    let q = tombstone_placement collection link item b in
    (
      q,
      find_link-dropped hub source other collection dropped link handle deleted item b ord g n e
          ∙ project_one-deleted collection source other link handle item a b n mine same e,
      (merge_deleted_unchanged (record { handle = b.handle; local = some q; remote = some remote })
          s q base remote refl refl based refl quiet (inr refl) may).1,
    )
