-- ===== src/Mutate.antt =====
-- src/mutate.rs: a local edit of one placement, staged offline for the next sync.
pub mod Staged
pub mod Guards
pub mod Runs
use io_replica.Base.{
  ℕ, Bool, true, false, ◌&&◌, ◌||◌, not, Option, none, some, List, [], ◌∷◌, Text, text_eq,
  option_eq, ◌==◌, if◌then◌else◌, is_none_or, or_else, unwrap_or, is_some, any,
}
use io_replica.Flags.{Flags}
use io_replica.Placement.{
  Handle, LinkId, CollectionId, Meta, SortKey, Object, full, Status, clean, dirty, tombstone,
  conflict, created, status_eq, Origin, SyncBase, Placement,
}
use io_replica.Change.{WriteOp, upsert_placement, store_object}
use io_replica.Coroutine.{
  LoadScope, Loaded, Yield, wants_load, wants_write, Arg, ArgError, unexpected_arg, missing_arg,
  Result, ok, err, CoroutineState, yielded, complete, panicked,
}

pub data Mutation : Type 0 where
  set_flags : Handle → Flags → Mutation
  remove : Handle → Mutation
  edit : Handle → Object → List ℕ → Option Meta → Option SortKey → Mutation
  copy : Handle → CollectionId → Handle → Mutation
  move : Handle → CollectionId → Handle → Mutation
  add : Handle → LinkId → Flags → Object → List ℕ → Option Meta → SortKey → Mutation

-- `ReplicaMutation::handle`.
abbrev pub source_handle : Mutation → Option Handle
source_handle (set_flags h _) = some h
source_handle (remove h) = some h
source_handle (edit h _ _ _ _) = some h
source_handle (copy h _ _) = some h
source_handle (move h _ _) = some h
source_handle (add _ _ _ _ _ _ _) = none

scope_of : Option Handle → LoadScope
scope_of (some h) = LoadScope.handles (h ∷ [])
scope_of none = LoadScope.all

unfoldable pub scope : Mutation → LoadScope
unfolding scope_of
scope (add _ link _ _ _ _ _) = LoadScope.links (link ∷ [])
scope m = scope_of (source_handle m)

pub data MutateError : Type 0 where
  unknown_handle : Text → MutateError
  link_exists : Text → MutateError
  arg : ArgError → MutateError

pub data State : Type 0 where
  start pending_load pending_write done : State

-- `ReplicaMutate`.
pub record Mutate : Type 0 where
  pub collection : CollectionId
  pub mutation : Mutation
  pub state : State

-- `ReplicaMutate::new`.
unfoldable pub new : CollectionId → Mutation → Mutate
new collection mutation = record {
  collection = collection;
  mutation = mutation;
  state = State.start;
}

unfoldable pub flagged_row : Placement → Flags → Placement
flagged_row p flags = record p {
  flags = flags;
  status = if p.status == clean then dirty else p.status;
}

abbrev pub removed_row : Placement → Placement
removed_row p = record p { status = tombstone }

-- The source with the new body, and the new summary and sort key where there are some.
abbrev pub with_body : Placement → Object → Option Meta → Option SortKey → Placement
with_body p object meta sort_key = record p {
  object = some object.hash;
  level = full;
  meta = or_else meta p.meta;
  sort_key = unwrap_or sort_key p.sort_key;
}

-- The base of a resolution: the remote state that the conflict observed.
abbrev pub settled_base : Placement → SyncBase
settled_base p =
    record (unwrap_or p.base (record { flags = p.flags; revision = none; object = none })) {
      revision = p.conflict_revision;
      object = p.conflict_object;
    }

settle_conflict : Bool → Placement → Placement
settle_conflict true p = record p {
  base = some (settled_base p);
  conflict_revision = none;
  conflict_object = none;
}
settle_conflict false p = p

mark_edit : Bool → Object → Placement → Placement
mark_edit resolving object p =
    let staged = is_none_or p.base (λ b. not (b.object == some object.hash)) in
    record p {
      status = if not (p.status == created) && (staged || resolving) then dirty else p.status;
    }

unfoldable pub edited_row : Placement → Object → Option Meta → Option SortKey → Placement
unfolding settle_conflict mark_edit
edited_row p object meta sort_key =
    let resolving = p.status == conflict in
    mark_edit resolving object (settle_conflict resolving (with_body p object meta sort_key))

-- `ReplicaMutate::staged_copy`.
abbrev pub staged_copy : Placement → CollectionId → Handle → Placement
staged_copy source target placeholder = record source {
  collection = target;
  handle = placeholder;
  status = created;
  conflict_revision = none;
  conflict_object = none;
  base = none;
  origin = some (record { collection = source.collection; handle = source.handle });
}

abbrev pub moved_row : Placement → CollectionId → Placement
moved_row source target = record source {
  status = tombstone;
  origin = some (record { collection = target; handle = source.handle });
}

abbrev pub new_row :
    CollectionId → Handle → LinkId → Flags → Object → Option Meta → SortKey → Placement
new_row collection handle link flags object meta sort_key = record {
  collection = collection;
  handle = handle;
  link_id = some link;
  object = some object.hash;
  level = full;
  meta = meta;
  sort_key = sort_key;
  flags = flags;
  status = created;
  conflict_revision = none;
  conflict_object = none;
  base = none;
  origin = none;
}

unfoldable create_writes : CollectionId → Mutation → List WriteOp
create_writes collection (add handle link flags object body meta sort_key) =
    store_object object (some body)
    ∷ upsert_placement (new_row collection handle link flags object meta sort_key)
    ∷ []
create_writes collection _ = []

-- `ReplicaMutate::writes`.
unfoldable pub writes : CollectionId → Mutation → Placement → List WriteOp
unfolding flagged_row edited_row create_writes
writes collection (set_flags _ flags) p = upsert_placement (flagged_row p flags) ∷ []
writes collection (remove _) p = upsert_placement (removed_row p) ∷ []
writes collection (edit _ object body meta sort_key) p =
    store_object object (some body) ∷ upsert_placement (edited_row p object meta sort_key) ∷ []
writes collection (copy _ target placeholder) p =
    upsert_placement (staged_copy p target placeholder) ∷ []
writes collection (move _ target placeholder) p =
    if is_some p.link_id
    then upsert_placement (staged_copy p target placeholder)
      ∷ upsert_placement (moved_row p target)
      ∷ []
    else upsert_placement (moved_row p target) ∷ []
writes collection (add h link flags object body meta sort_key) p =
    create_writes collection (add h link flags object body meta sort_key)

abbrev pub Outcome : Type 0
Outcome = CoroutineState Yield (Result Unit MutateError)

-- `loaded.placements.into_iter().find(…)`.
abbrev pub find : Handle → List Placement → Option Placement
find h [] = none
find h (p ∷ l) = let rest = find h l in if p.handle == h then some p else rest

-- A live placement that holds the link id.
abbrev pub collides : LinkId → Placement → Bool
collides link p = not (p.status == tombstone) && (p.link_id == some link)

unfoldable stage : List WriteOp → Mutate → Mutate × Outcome
stage ops m = (record m { state = State.pending_write }, yielded (wants_write ops))

unfoldable stage_found : Handle → Option Placement → Mutate → Mutate × Outcome
unfolding stage writes
stage_found h none m = (m, complete (err (unknown_handle h)))
stage_found h (some p) m = stage (writes m.collection m.mutation p) m

stage_source : Option Handle → List Placement → Mutate → Mutate × Outcome
unfolding stage_found
stage_source none placements m = (m, panicked)
stage_source (some h) placements m = stage_found h (find h placements) m

unfoldable pub on_load : Mutation → Loaded → Mutate → Mutate × Outcome
unfolding stage stage_source create_writes
on_load (add h link flags object body meta sort_key) loaded m =
    if any (collides link) loaded.placements
    then (m, complete (err (link_exists link)))
    else stage (create_writes m.collection m.mutation) m
on_load mutation loaded m = stage_source (source_handle mutation) loaded.placements m

dispatch : State → Option Arg → Mutate → Mutate × Outcome
unfolding on_load scope
dispatch State.start none m =
    (record m { state = State.pending_load }, yielded (wants_load m.collection (scope m.mutation)))
dispatch State.pending_load (some (Arg.load loaded)) m = on_load m.mutation loaded m
dispatch State.pending_write (some Arg.write) m =
    (record m { state = State.done }, complete (ok tt))
dispatch _ (some _) m = (m, complete (err (arg unexpected_arg)))
dispatch _ none m = (m, complete (err (arg missing_arg)))

-- `ReplicaMutate::resume`.
unfoldable pub resume : Option Arg → Mutate → Mutate × Outcome
unfolding dispatch
resume a m = dispatch m.state a m
