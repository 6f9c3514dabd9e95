-- ===== src/Hub/Project.antt =====
-- src/hub.rs, `ReplicaHub::project`: the placements that a source loads.
use io_replica.Base.{
  Bool, true, false, ◌&&◌, Option, none, some, List, [], ◌∷◌, ◌++◌, bytes, text_eq, option_eq, ◌==◌,
  if◌then◌else◌, is_none, is_some, is_some_and,
}
use io_replica.Base.Map.{Map, get}
use io_replica.Flags.{flags_eq}
use io_replica.Placement.{
  Handle, LinkId, CollectionId, Hash, Placement, Status, clean, dirty, tombstone, conflict, created,
  full,
}
use io_replica.Hub.Items.{SourceId, SourceBinding, HubItem, Hub, stored_level}

-- `ReplicaHubItem::project`.
unfoldable pub project_item : HubItem → CollectionId → LinkId → Handle → Placement
unfolding stored_level
project_item item collection link handle = record {
  collection = collection;
  handle = handle;
  link_id = some link;
  object = item.object;
  level = stored_level item;
  meta = item.meta;
  sort_key = item.sort_key;
  flags = item.flags;
  status = clean;
  conflict_revision = none;
  conflict_object = none;
  base = none;
  origin = none;
}

abbrev pub in_sync : HubItem → SourceBinding → Bool
in_sync item binding =
    is_some_and binding.base (λ b. (b.flags == item.flags) && (b.object == item.object))

abbrev pub bound_status : HubItem → SourceBinding → Status
bound_status item binding =
    if binding.conflicted
    then conflict
    else if is_none binding.base && is_some item.object
    then created
    else if in_sync item binding
    then clean
    else dirty

unfoldable pub bound_placement : CollectionId → LinkId → HubItem → SourceBinding → Placement
unfolding project_item
bound_placement collection link item binding =
    record (project_item item collection link binding.handle) {
      status = bound_status item binding;
      conflict_revision = binding.conflict_revision;
      conflict_object = binding.conflict_object;
      base = binding.base;
    }

unfoldable pub tombstone_placement : CollectionId → LinkId → HubItem → SourceBinding → Placement
unfolding project_item
tombstone_placement collection link item binding =
    record (project_item item collection link binding.handle) {
      status = tombstone;
      base = binding.base;
    }

-- The handle that an append is staged under.
abbrev pub staged_handle : LinkId → Handle
staged_handle link = link ++ 1 ∷ bytes "hub"

created_of : Option Hash → CollectionId → LinkId → HubItem → Option Placement
unfolding project_item
created_of none collection link item = none
created_of (some _) collection link item =
    some (record (project_item item collection link (staged_handle link)) {
      status = created;
      level = full;
    })

unfoldable pub created_placement : CollectionId → LinkId → HubItem → Option Placement
unfolding created_of
created_placement collection link item = created_of item.object collection link item

-- One round of the loop, by whether the item is deleted and how the source holds it.
unfoldable pub project_by :
    Bool → Option SourceBinding → CollectionId → LinkId → HubItem → Option Placement
project_by true (some binding) collection link item =
    some (tombstone_placement collection link item binding)
project_by true none collection link item = none
project_by false (some binding) collection link item =
    some (bound_placement collection link item binding)
project_by false none collection link item = created_placement collection link item

unfoldable pub project_one : CollectionId → SourceId → LinkId → HubItem → Option Placement
project_one collection source link item =
    project_by item.deleted (get source item.sources) collection link item

-- `out.push`, where there is one.
abbrev pub push_some : Option Placement → List Placement → List Placement
push_some none out = out
push_some (some p) out = p ∷ out

unfoldable pub project_items : CollectionId → SourceId → Map HubItem → List Placement
project_items collection source [] = []
project_items collection source ((link, item) ∷ items) =
    push_some (project_one collection source link item) (project_items collection source items)

unfoldable pub project : Hub → CollectionId → SourceId → List Placement
project hub collection source = project_items collection source hub.items
