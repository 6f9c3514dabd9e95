-- ===== src/Open.antt =====
-- src/open.rs: a collection opened offline, by a single load.
pub mod Runs
use io_replica.Base.{Option, none, some}
use io_replica.Placement.{CollectionId}
use io_replica.Coroutine.{
  Loaded, Yield, wants_load, all, Arg, ArgError, unexpected_arg, missing_arg, Result, ok, err,
  CoroutineState, yielded, complete,
}

pub data State : Type 0 where
  start pending_load done : State

-- `ReplicaOpen`.
pub record Open : Type 0 where
  pub collection : CollectionId
  pub state : State

-- `ReplicaOpen::new`.
unfoldable pub new : CollectionId → Open
new collection = record { collection = collection; state = State.start }

abbrev pub Outcome : Type 0
Outcome = CoroutineState Yield (Result Loaded ArgError)

dispatch : State → Option Arg → Open → Open × Outcome
dispatch State.start none o =
    (record o { state = State.pending_load }, yielded (wants_load o.collection all))
dispatch State.pending_load (some (Arg.load loaded)) o =
    (record o { state = State.done }, complete (ok loaded))
dispatch _ (some _) o = (o, complete (err unexpected_arg))
dispatch _ none o = (o, complete (err missing_arg))

-- `ReplicaOpen::resume`.
unfoldable pub resume : Option Arg → Open → Open × Outcome
unfolding dispatch
resume arg o = dispatch o.state arg o
