-- ===== src/Rekey/Run.antt =====
-- src/rekey.rs, the coroutine.
use io_replica.Base.{Option, none, some, List, [], Text, if◌then◌else◌, map, any, is_some}
use io_replica.Base.Map.{Map, from_entries}
use io_replica.Placement.{CollectionId, Placement, Checkpoint}
use io_replica.Remote.{RemoteItem, RemoteSnapshot, FetchedItem, Tier}
use io_replica.Change.{WriteOp}
use io_replica.Coroutine.{
  all, Yield, wants_load, wants_enumerate, wants_fetch, wants_write, Arg, ArgError, unexpected_arg,
  missing_arg, Result, ok, err, CoroutineState, yielded, complete, panicked,
}
use io_replica.Rekey.Rows.{Resolved}
use io_replica.Rekey.Rebuild.{RekeyReport, empty_report, rebuild}

pub data State : Type 0 where
  start pending_load pending_enumerate pending_fetch pending_write done : State

-- `ReplicaRekey`.
pub record Rekey : Type 0 where
  pub collection : CollectionId
  pub old : List Placement
  pub items : List RemoteItem
  pub checkpoint : Option Checkpoint
  pub report : RekeyReport
  pub state : State

-- `ReplicaRekey::new`.
unfoldable pub new : CollectionId → Rekey
new collection = record {
  collection = collection;
  old = [];
  items = [];
  checkpoint = none;
  report = empty_report;
  state = State.start;
}

abbrev pub Outcome : Type 0
Outcome = CoroutineState Yield (Result RekeyReport ArgError)

-- The batch taken over, with the rows, the members and the checkpoint it consumes.
abbrev pub hand_over : RekeyReport × List WriteOp → Rekey → Rekey × Outcome
hand_over (report, writes) k = (
  record k {
    old = [];
    items = [];
    checkpoint = none;
    report = report;
    state = State.pending_write;
  },
  yielded (wants_write writes),
)

-- `rebuild`, whose `expect` needs an enumerated checkpoint.
unfoldable pub write_batch : Map Resolved → Option Checkpoint → Rekey → Rekey × Outcome
unfolding rebuild
write_batch resolved none k = (record k { state = State.pending_write }, panicked)
write_batch resolved (some checkpoint) k =
    hand_over (rebuild k.collection k.items resolved k.old checkpoint k.report) k

abbrev pub resolved_entry : FetchedItem → Text × Resolved
resolved_entry f = (f.handle, record { link_id = f.link_id; meta = f.meta; sort_key = f.sort_key })

unfoldable pub on_enumerate : RemoteSnapshot → Rekey → Rekey × Outcome
unfolding write_batch
on_enumerate snapshot k =
    let listed = record k { items = snapshot.items; checkpoint = some snapshot.checkpoint } in
    if any (λ p. is_some p.link_id) k.old
    then (
      record listed { state = State.pending_fetch },
      yielded (wants_fetch k.collection (map (λ i. i.handle) snapshot.items) Tier.meta),
    )
    else write_batch [] listed.checkpoint listed

unfoldable pub on_fetch : List FetchedItem → Rekey → Rekey × Outcome
unfolding write_batch from_entries
on_fetch fetched k = write_batch (from_entries (map resolved_entry fetched)) k.checkpoint k

dispatch : State → Option Arg → Rekey → Rekey × Outcome
unfolding on_enumerate on_fetch
dispatch State.start none k =
    (record k { state = State.pending_load }, yielded (wants_load k.collection all))
dispatch State.pending_load (some (Arg.load loaded)) k = (
  record k { old = loaded.placements; state = State.pending_enumerate },
  yielded (wants_enumerate k.collection none),
)
dispatch State.pending_enumerate (some (Arg.enumerate snapshot)) k = on_enumerate snapshot k
dispatch State.pending_fetch (some (Arg.fetch fetched)) k = on_fetch fetched k
dispatch State.pending_write (some Arg.write) k =
    (record k { state = State.done }, complete (ok k.report))
dispatch _ (some _) k = (k, complete (err unexpected_arg))
dispatch _ none k = (k, complete (err missing_arg))

-- `ReplicaRekey::resume`.
unfoldable pub resume : Option Arg → Rekey → Rekey × Outcome
unfolding dispatch
resume arg k = dispatch k.state arg k
