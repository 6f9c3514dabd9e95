-- ===== src/Hub/Absorb.antt =====
-- src/hub.rs, `ReplicaHub::absorb`: the writes of a source, folded back.
use io_replica.Base.{
  Bool, true, false, ◌&&◌, ◌||◌, not, Option, none, some, List, [], ◌∷◌, text_eq, option_eq, ◌==◌,
  if◌then◌else◌, is_some, is_some_and, and_then, or_else,
}
use io_replica.Base.Map.{Map, get, insert, remove}
use io_replica.Flags.{is_unknown}
use io_replica.Placement.{Handle, LinkId, Hash, SortKey, Placement, status_eq, tombstone, conflict}
use io_replica.Change.{
  WriteOp, upsert_placement, drop_placement, store_object, set_checkpoint, DropReason, deleted,
  superseded,
}
use io_replica.Hub.Items.{
  SourceId, SourceBinding, HubConflict, manual, prefer_incoming, prefer_existing, HubItem, Hub,
  max_level, stored_level,
}

-- `ReplicaHub::binding_of`.
unfoldable pub binding_of : Placement → Option Hash → SourceBinding
binding_of p shared = record {
  handle = p.handle;
  base = p.base;
  conflicted = p.status == conflict;
  conflict_revision = if p.status == conflict then p.conflict_revision else none;
  conflict_object = if p.status == conflict then p.conflict_object else none;
  shared_object = shared;
}

-- The body that the source last synced with its own remote.
abbrev pub synced_body : Option SourceBinding → Option Hash
synced_body binding = and_then (and_then binding (λ b. b.base)) (λ b. b.object)

-- The shared body that the source last reconciled against.
abbrev pub agreed_body : Option SourceBinding → Option Hash
agreed_body binding = or_else (and_then binding (λ b. b.shared_object)) (synced_body binding)

abbrev pub source_edited : Option SourceBinding → Placement → Bool
source_edited binding p =
    not (p.object == synced_body binding)
    || (is_some_and binding (λ b. b.conflicted) && not (p.status == conflict))

abbrev pub hub_moved : Option SourceBinding → HubItem → Bool
hub_moved binding item = not (item.object == agreed_body binding)

abbrev pub diverged : Option SourceBinding → Placement → HubItem → Bool
diverged binding p item =
    (((source_edited binding p && hub_moved binding item) && not (p.object == item.object))
      && is_some p.object)
    && is_some item.object

abbrev pub adopt_body : Placement → HubItem → HubItem
adopt_body p item = record item { object = p.object; conflicted = false; conflict_object = none }

resolve_by : HubConflict → Placement → HubItem → HubItem
resolve_by manual p item = record item { conflicted = true; conflict_object = p.object }
resolve_by prefer_incoming p item = adopt_body p item
resolve_by prefer_existing p item = record item { conflicted = false; conflict_object = none }

-- `ReplicaHub::reconcile_content`, with the source's binding looked up.
unfoldable pub reconcile_content :
    Option SourceBinding → Placement → HubConflict → HubItem → HubItem
unfolding resolve_by
reconcile_content binding p policy item =
    if diverged binding p item
    then resolve_by policy p item
    else if (source_edited binding p && not (hub_moved binding item))
        && not (p.object == item.object)
    then adopt_body p item
    else item

-- The item of a link id that the hub does not hold.
abbrev pub new_item : Placement → HubItem
new_item p = record {
  flags = p.flags;
  object = p.object;
  meta = p.meta;
  sort_key = p.sort_key;
  level = p.level;
  deleted = false;
  conflicted = false;
  conflict_object = none;
  sources = [];
}

unfoldable pub absorb_tombstone : SourceId → Placement → HubItem → HubItem
absorb_tombstone source p item =
    let agreed = and_then (get source item.sources) (λ b. b.shared_object) in
    record item { deleted = true; sources = insert source (binding_of p agreed) item.sources }

-- `ReplicaSortKey::is_unknown`.
abbrev pub is_unsorted : SortKey → Bool
is_unsorted [] = true
is_unsorted (_ ∷ _) = false

-- What a live upsert knows better than the item, the body apart.
unfoldable pub adopt_summary : Placement → HubItem → HubItem
adopt_summary p item = record item {
  deleted = false;
  flags = if not (is_unknown p.flags) then p.flags else item.flags;
  meta = or_else p.meta item.meta;
  sort_key = if not (is_unsorted p.sort_key) then p.sort_key else item.sort_key;
  level = max_level item.level p.level;
}

-- Binds the source to the body that the reconcile has left.
unfoldable pub bind : SourceId → Placement → HubItem → HubItem
bind source p item = record item {
  level = stored_level item;
  sources = insert source (binding_of p item.object) item.sources;
}

unfoldable pub absorb_live : SourceId → HubConflict → Placement → HubItem → HubItem
absorb_live source policy p item =
    bind source p (reconcile_content (get source item.sources) p policy (adopt_summary p item))

unfoldable pub absorb_item : SourceId → HubConflict → Placement → HubItem → HubItem
absorb_item source policy p item =
    if p.status == tombstone
    then absorb_tombstone source p item
    else absorb_live source policy p item

-- `items.entry(link).or_insert_with(…)`.
abbrev pub item_or_new : Option HubItem → Placement → HubItem
item_or_new none p = new_item p
item_or_new (some item) p = item

unfoldable pub absorb_linked : Option LinkId → SourceId → Placement → Hub → Hub
absorb_linked none source p hub = hub
absorb_linked (some link) source p hub =
    let item = item_or_new (get link hub.items) p in
    record hub { items = insert link (absorb_item source hub.conflict p item) hub.items }

unfoldable pub absorb_upsert : SourceId → Placement → Hub → Hub
absorb_upsert source p hub = absorb_linked p.link_id source p hub

abbrev pub is_deleted : DropReason → Bool
is_deleted deleted = true
is_deleted superseded = false

unfoldable pub release : SourceId → Handle → DropReason → HubItem → HubItem
release source handle reason item =
    if is_some_and (get source item.sources) (λ b. b.handle == handle)
    then record item {
      deleted = item.deleted || is_deleted reason;
      sources = remove source item.sources;
    }
    else item

-- `values_mut`.
unfoldable pub map_values {ℓ} : {V : Type ℓ} → (V → V) → Map V → Map V
map_values f [] = []
map_values f ((k, v) ∷ m) = (k, f v) ∷ map_values f m

unfoldable pub absorb_drop : SourceId → Handle → DropReason → Hub → Hub
absorb_drop source handle reason hub = record hub {
  items = map_values (release source handle reason) hub.items;
}

unfoldable pub absorb_op : SourceId → WriteOp → Hub → Hub
absorb_op source (upsert_placement p) hub = absorb_upsert source p hub
absorb_op source (drop_placement _ handle reason) hub = absorb_drop source handle reason hub
absorb_op source (store_object _ _) hub = hub
absorb_op source (set_checkpoint _ _) hub = hub

unfoldable pub absorb_ops : SourceId → List WriteOp → Hub → Hub
absorb_ops source [] hub = hub
absorb_ops source (op ∷ ops) hub = absorb_ops source ops (absorb_op source op hub)

abbrev pub is_held : Map SourceBinding → Bool
is_held [] = false
is_held (_ ∷ _) = true

-- `retain`: an item that no source holds is gone.
unfoldable pub retain_held : Map HubItem → Map HubItem
retain_held [] = []
retain_held ((link, item) ∷ items) =
    let rest = retain_held items in if is_held item.sources then (link, item) ∷ rest else rest

-- `ReplicaHub::absorb`.
unfoldable pub absorb : SourceId → List WriteOp → Hub → Hub
absorb source writes hub =
    let absorbed = absorb_ops source writes hub in
    record absorbed { items = retain_held absorbed.items }
