-- ===== src/Upgrade/Run.antt =====
-- src/upgrade.rs, the coroutine.
use io_replica.Base.{
  ◌+◌, Bool, ◌&&◌, not, Option, none, some, List, [], ◌∷◌, ◌++◌, text_eq, if◌then◌else◌, map,
  filter, is_some_and, is_none, and_then,
}
use io_replica.Base.Map.{Map, get, from_entries, insert_new}
use io_replica.Placement.{Handle, LinkId, Hash, Placement, SyncBase, full}
use io_replica.Remote.{Tier, FetchedItem}
use io_replica.Change.{upsert_placement}
use io_replica.Coroutine.{
  Loaded, LoadScope, wants_load, wants_fetch, wants_lookup_object, wants_write, Arg, unexpected_arg,
  missing_arg, ok, err, yielded, complete,
}
use io_replica.Upgrade.Machine.{
  Upgrade, UpgradeReport, State, is_conflicted, is_mutable, pending_handles,
}
use io_replica.Upgrade.Fetched.{Outcome, write_fetched}

-- `collect`, under the handles.
unfoldable pub by_handle : List Placement → Map Placement
unfolding from_entries
by_handle placements = from_entries (map (λ p. (p.handle, p)) placements)

-- Whether a body may be linked to the row from the store.
abbrev pub is_linkable : Placement → Bool
is_linkable p = not (is_mutable p) && not (is_conflicted p)

abbrev pub linkable_of : Placement → Option LinkId
linkable_of p = if is_linkable p then p.link_id else none

unfoldable pub lookup_links : List Handle → Map Placement → List LinkId
unfolding get
lookup_links [] placements = []
lookup_links (h ∷ handles) placements = elim (and_then (get h placements) linkable_of) [
  | none ↦ lookup_links handles placements
  | some link ↦ link ∷ lookup_links handles placements
]

abbrev pub want_fetch : List Handle → Upgrade → Upgrade × Outcome
want_fetch handles u =
    (record u { state = State.pending_fetch }, yielded (wants_fetch u.collection handles u.tier))

unfoldable pub want_lookup : List Handle → List LinkId → Upgrade → Upgrade × Outcome
want_lookup pending [] u = want_fetch pending u
want_lookup pending (link ∷ links) u =
    (record u { state = State.pending_lookup }, yielded (wants_lookup_object (link ∷ links)))

unfoldable pub pull_pending : List Handle → Tier → Upgrade → Upgrade × Outcome
unfolding want_lookup lookup_links
pull_pending [] tier u = (record u { state = State.done }, complete (ok u.report))
pull_pending (h ∷ pending) Tier.meta u = want_fetch (h ∷ pending) u
pull_pending (h ∷ pending) Tier.full u =
    want_lookup (h ∷ pending) (lookup_links (h ∷ pending) u.placements) u

unfoldable pub on_load : Loaded → Upgrade → Upgrade × Outcome
unfolding pull_pending by_handle pending_handles
on_load loaded u =
    let filled = record u { placements = by_handle loaded.placements } in
    pull_pending (pending_handles filled) filled.tier filled

abbrev pub linked_base : Hash → Option SyncBase → Option SyncBase
linked_base hash none = none
linked_base hash (some base) = some (record base { object = some hash })

abbrev pub linked_row : Hash → Placement → Placement
linked_row hash p = record p { base = linked_base hash p.base; object = some hash; level = full }

abbrev pub count_linked : UpgradeReport → UpgradeReport
count_linked report = record report { upgraded = report.upgraded + 1; deduped = report.deduped + 1 }

abbrev pub hit : Map Hash → Placement → Option Hash
hit known p = and_then (linkable_of p) (λ link. get link known)

-- A round of the loop over the pending handles: those to fetch, and the coroutine.
unfoldable pub link_one :
    Handle → Placement → Option Hash → List Handle × Upgrade → List Handle × Upgrade
link_one h p (some hash) (to_fetch, u) = (
  to_fetch,
  record u {
    ops = u.ops ++ upsert_placement (linked_row hash p) ∷ [];
    report = count_linked u.report;
  },
)
link_one h p none (to_fetch, u) = (to_fetch ++ h ∷ [], u)

unfoldable pub link_found :
    Map Hash → Handle → Option Placement → List Handle × Upgrade → List Handle × Upgrade
unfolding link_one
link_found known h none acc = acc
link_found known h (some p) acc = link_one h p (hit known p) acc

unfoldable pub link_all :
    Map Hash → Map Placement → List Handle → List Handle × Upgrade → List Handle × Upgrade
unfolding link_found
link_all known placements [] acc = acc
link_all known placements (h ∷ handles) acc =
    link_all known placements handles (link_found known h (get h placements) acc)

unfoldable pub fetch_rest : List Handle × Upgrade → Upgrade × Outcome
fetch_rest ([], u) =
    (record u { state = State.pending_write; ops = [] }, yielded (wants_write u.ops))
fetch_rest (h ∷ to_fetch, u) = (
  record u { state = State.pending_fetch },
  yielded (wants_fetch u.collection (h ∷ to_fetch) Tier.full),
)

unfoldable pub on_lookup : Map Hash → Upgrade → Upgrade × Outcome
unfolding fetch_rest link_all pending_handles
on_lookup known u = fetch_rest (link_all known u.placements (pending_handles u) ([], u))

-- The link ids that a fetch would newly establish.
unfoldable pub fresh_links : Map Placement → List FetchedItem → List LinkId
unfolding get
fresh_links placements items =
    map (λ item. item.link_id)
      (filter (λ item. is_some_and (get item.handle placements) (λ p. is_none p.link_id)) items)

unfoldable pub check_links : List LinkId → Upgrade → Upgrade × Outcome
unfolding write_fetched
check_links [] u = write_fetched u
check_links (link ∷ fresh) u = (
  record u { state = State.pending_link_check },
  yielded (wants_load u.collection (LoadScope.links (link ∷ fresh))),
)

unfoldable pub on_fetch : List FetchedItem → Upgrade → Upgrade × Outcome
unfolding check_links fresh_links
on_fetch items u = check_links (fresh_links u.placements items) (record u { fetched = items })

unfoldable pub fold_holders : List Placement → Map Placement → Map Placement
unfolding insert_new
fold_holders [] placements = placements
fold_holders (p ∷ holders) placements = fold_holders holders (insert_new p.handle p placements)

unfoldable pub on_holders : Loaded → Upgrade → Upgrade × Outcome
unfolding fold_holders write_fetched
on_holders loaded u =
    write_fetched (record u { placements = fold_holders loaded.placements u.placements })

unfoldable pub dispatch : State → Option Arg → Upgrade → Upgrade × Outcome
unfolding on_load on_lookup on_fetch on_holders
dispatch State.start none u = (
  record u { state = State.pending_load },
  yielded (wants_load u.collection (LoadScope.handles u.handles)),
)
dispatch State.pending_load (some (Arg.load loaded)) u = on_load loaded u
dispatch State.pending_lookup (some (Arg.lookup_object known)) u = on_lookup known u
dispatch State.pending_fetch (some (Arg.fetch items)) u = on_fetch items u
dispatch State.pending_link_check (some (Arg.load loaded)) u = on_holders loaded u
dispatch State.pending_write (some Arg.write) u =
    (record u { state = State.done }, complete (ok u.report))
dispatch _ (some _) u = (u, complete (err unexpected_arg))
dispatch _ none u = (u, complete (err missing_arg))

-- `ReplicaUpgrade::resume`.
unfoldable pub resume : Option Arg → Upgrade → Upgrade × Outcome
unfolding dispatch
resume arg u = dispatch u.state arg u
