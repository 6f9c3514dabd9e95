-- ===== src/Flags.antt =====
-- `ReplicaFlags` of src/placement.rs: an item's markers, and their three-way merge.
pub mod Laws
use io_replica.Base.{
  ◌≡◌, Bool, true, false, Option, none, some, List, [], ◌++◌, Text, Text-discrete, Eq, unwrap_or,
}
use io_replica.Base.Set
use io_replica.Base.Set.{Set}

pub data Flags : Type 0 where
  unknown : Flags
  known : Set → Flags

unfoldable pub Flags-discrete : Discrete Flags
unfolding Text-discrete
Flags-discrete = hlevel Text-discrete

instance unfoldable pub flags_eq : Eq Flags
unfolding Flags-discrete
flags_eq = record { dec = Flags-discrete }

unfoldable pub contains : Flags → Text → Bool
unfolding Set.contains
contains unknown flag = false
contains (known flags) flag = Set.contains flags flag

abbrev pub is_unknown : Flags → Bool
is_unknown unknown = true
is_unknown (known _) = false

-- `ReplicaFlags::known`.
abbrev pub markers : Flags → Option Set
markers unknown = none
markers (known flags) = some flags

-- `ReplicaFlags::default`: known and empty.
abbrev pub default : Flags
default = known []

-- `FromIterator`.
unfoldable pub from_iter : List Text → Flags
unfolding Set.from_list
from_iter flags = known (Set.from_list flags)

merge_known : Set → Set → Set → Set
unfolding Set.intersection Set.difference Set.from_list
merge_known base local remote =
    let kept = Set.intersection local remote in
    let local_adds = Set.difference local base in
    let remote_adds = Set.difference remote base in
    Set.from_list ((kept ++ local_adds) ++ remote_adds)

unfoldable pub merge : Flags → Flags → Flags → Flags
unfolding merge_known
merge base unknown remote = remote
merge base (known local) unknown = known local
merge base (known local) (known remote) =
    known (merge_known (unwrap_or (markers base) []) local remote)
