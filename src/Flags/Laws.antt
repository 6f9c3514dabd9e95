-- ===== src/Flags/Laws.antt =====
-- `ReplicaFlags::merge` of src/placement.rs, marker by marker.
use io_replica.Base.{
  ◌≡◌, refl, ap, ◌≢◌, false, ◌&&◌, ◌||◌, not, [], ◌++◌, arith, Text, ◌==◌, bool_eq, if◌then◌else◌,
  unwrap_or,
}
use io_replica.Base.Set
use io_replica.Base.Set.Laws.{Set_ext, from_list-IsSorted}
use io_replica.Base.Set.{Set, contains-append, contains-filter, contains-from_list}
use io_replica.Flags.{Flags, unknown, known, contains, markers, merge, merge_known}

-- Known markers are listed in order, as a `BTreeSet` holds them.
abbrev pub IsOrdered : Flags → Type 0
IsOrdered unknown = Unit
IsOrdered (known s) = Set.IsSorted s

contains_nil : (f : Text) → Set.contains [] f ≡ false
unfolding Set.contains
contains_nil f = refl

contains-merge_known :
    (base local remote : Set) (f : Text)
    → Set.contains (merge_known base local remote) f ≡ (
        (Set.contains local f && Set.contains remote f)
        || (Set.contains local f && not (Set.contains base f))
        || (Set.contains remote f && not (Set.contains base f)))
unfolding merge_known
contains-merge_known base local remote f =
    simp (contains-from_list, contains-append, contains-filter) (ground arith)

merge_known-IsSorted : (base local remote : Set) → Set.IsSorted (merge_known base local remote)
unfolding merge_known
merge_known-IsSorted base local remote =
    from_list-IsSorted
      ((Set.intersection local remote ++ Set.difference local base) ++ Set.difference remote base)

-- Of two known sides, the merge holds a marker exactly where the local side does if that side
-- changed it from the base, and where the remote side does otherwise.
pub contains-merge :
    (base : Flags) (local remote : Set) (f : Text)
    → contains (merge base (known local) (known remote)) f ≡ (
        if Set.contains local f == contains base f
        then Set.contains remote f
        else Set.contains local f)
unfolding merge contains
contains-merge unknown local remote f =
    ground (arith, contains-merge_known [] local remote f, contains_nil f)
contains-merge (known base) local remote f =
    ground (arith, contains-merge_known base local remote f)

-- Two ordered flag sets are equal when both are known and hold the same markers.
known_ext :
    (s t : Set)
    → Set.IsSorted s
    → Set.IsSorted t
    → ((f : Text) → Set.contains s f ≡ Set.contains t f)
    → known s ≡ known t
known_ext s t p q same = ap known (Set_ext s t p q same)

pub merge-IsOrdered :
    (base local remote : Flags)
    → IsOrdered local
    → IsOrdered remote
    → IsOrdered (merge base local remote)
unfolding merge
merge-IsOrdered base unknown remote p q = q
merge-IsOrdered base (known local) unknown p q = p
merge-IsOrdered base (known local) (known remote) p q =
    merge_known-IsSorted (unwrap_or (markers base) []) local remote

-- For ordered sides, the flag merge does not depend on which side is the local one.
pub merge_comm :
    (base local remote : Flags)
    → IsOrdered local
    → IsOrdered remote
    → merge base local remote ≡ merge base remote local
unfolding merge
merge_comm base unknown unknown p q = refl
merge_comm base unknown (known remote) p q = refl
merge_comm base (known local) unknown p q = refl
merge_comm base (known local) (known remote) p q =
    let b = unwrap_or (markers base) [] in
    known_ext _ _ (merge_known-IsSorted b local remote) (merge_known-IsSorted b remote local) λ f.
      ground (arith, contains-merge_known b local remote f, contains-merge_known b remote local f)

-- For known and ordered sets, a local side equal to the base merges to the remote side.
pub merge_unchanged :
    (base remote : Flags)
    → IsOrdered base
    → IsOrdered remote
    → base ≢ unknown
    → remote ≢ unknown
    → merge base base remote ≡ remote
unfolding merge
merge_unchanged unknown remote p q h k = absurd (h refl)
merge_unchanged (known base) unknown p q h k = absurd (k refl)
merge_unchanged (known base) (known remote) p q h k =
    known_ext _ _ (merge_known-IsSorted base base remote) q
      λ f. ground (arith, contains-merge_known base base remote f)

-- Sides that agree merge to what they hold, whatever the base.
pub merge_agreed : (base side : Flags) → IsOrdered side → merge base side side ≡ side
unfolding merge
merge_agreed base unknown p = refl
merge_agreed base (known side) p =
    let b = unwrap_or (markers base) [] in
    known_ext _ _ (merge_known-IsSorted b side side) p
      λ f. ground (arith, contains-merge_known b side side f)

-- For ordered sides, merging the merge again with the same remote side over the same base gives
-- the merge back.
merge_absorbs :
    (base local remote : Flags)
    → IsOrdered local
    → IsOrdered remote
    → merge base (merge base local remote) remote ≡ merge base local remote
unfolding merge
merge_absorbs base unknown remote p q = merge_agreed base remote q
merge_absorbs base (known local) unknown p q = refl
merge_absorbs base (known local) (known remote) p q =
    let b = unwrap_or (markers base) [] in
    let m = merge_known b local remote in
    known_ext _ _ (merge_known-IsSorted b m remote) (merge_known-IsSorted b local remote)
      λ f. ground (arith, contains-merge_known b m remote f, contains-merge_known b local remote f)
