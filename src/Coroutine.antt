-- ===== src/Coroutine.antt =====
-- src/coroutine.rs and src/storage.rs: what a verb asks of its driver, and the replies.
use io_replica.Base.{Option, List}
use io_replica.Base.Map.{Map}
use io_replica.Placement.{Handle, LinkId, CollectionId, Hash, Checkpoint, Placement}
use io_replica.Remote.{RemoteSnapshot, FetchedItem, PushResult, Tier}
use io_replica.Change.{Change, WriteOp}

pub data LoadScope : Type 0 where
  all : LoadScope
  handles : List Handle → LoadScope
  links : List LinkId → LoadScope

pub record Loaded : Type 0 where
  pub placements : List Placement
  pub checkpoint : Option Checkpoint

pub data Yield : Type 0 where
  wants_enumerate : CollectionId → Option Checkpoint → Yield
  wants_fetch : CollectionId → List Handle → Tier → Yield
  wants_push : CollectionId → List Change → Yield
  wants_load : CollectionId → LoadScope → Yield
  wants_lookup_object : List LinkId → Yield
  wants_write : List WriteOp → Yield

pub data Arg : Type 0 where
  enumerate : RemoteSnapshot → Arg
  fetch : List FetchedItem → Arg
  push : List PushResult → Arg
  load : Loaded → Arg
  lookup_object : Map Hash → Arg
  write : Arg

pub data ArgError : Type 0 where
  unexpected_arg missing_arg : ArgError

pub data Result {ℓ κ} (A : Type ℓ) (E : Type κ) : Type (ℓ ⊔ κ) where
  ok : A → Result A E
  err : E → Result A E

-- `panicked` is an `expect` that failed, which Rust ends the run with.
pub data CoroutineState {ℓ κ} (Y : Type ℓ) (R : Type κ) : Type (ℓ ⊔ κ) where
  yielded : Y → CoroutineState Y R
  complete : R → CoroutineState Y R
  panicked : CoroutineState Y R
