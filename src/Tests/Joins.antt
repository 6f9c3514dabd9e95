-- ===== src/Tests/Joins.antt =====
-- The theorems on the marker merge and on the join, at small inputs.
use io_replica.Base.{
  ◌≡◌, refl, some, none, false, [], ◌∷◌, bytes, arith, if◌then◌else◌, ◌==◌, bool_eq,
}
use io_replica.Base.Map.{get}
use io_replica.Base.Set
use io_replica.Flags.{contains, known}
use io_replica.Flags
use io_replica.Flags.Laws.{contains-merge}
use io_replica.Placement.{Status, staged_edit}
use io_replica.Change.{update}
use io_replica.Sync.Engine.{Candidate, Merge}
use io_replica.Sync.Merge.{merge}
use io_replica.Sync.Join.{next, next_candidate}
use io_replica.Sync.Join.Deltas.{merge-next_candidate_edited}
use io_replica.Sync.Join.Order.{keyed}
use io_replica.Sync.Join.Pairs.{walk, find_candidate, paired, find_candidate-walk}
use io_replica.Tests.Data.{no_flags, two_sides, edited, edit_hash, base_v1, candidate, fresh}

contains-merge_example :
    contains (Flags.merge no_flags (known (bytes "seen" ∷ [])) (known [])) (bytes "seen") ≡ (
      if Set.contains (bytes "seen" ∷ []) (bytes "seen") == contains no_flags (bytes "seen")
      then Set.contains [] (bytes "seen")
      else Set.contains (bytes "seen" ∷ []) (bytes "seen"))
contains-merge_example = contains-merge no_flags (bytes "seen" ∷ []) [] (bytes "seen")

find_candidate-walk_example :
    find_candidate (bytes "2") (walk 4 two_sides)
    ≡ paired
        (bytes "2")
        (get (bytes "2") two_sides.local)
        (get (bytes "2") (keyed two_sides.remote))
find_candidate-walk_example =
    find_candidate-walk 4 (bytes "2") two_sides (omega arith) ((refl, tt), (tt, tt))
      ((refl, tt), (tt, tt))

-- A delta that says nothing of an edited mail.
abbrev silent : Merge
silent = record {
  join = record { local = (bytes "1", edited Status.dirty) ∷ []; remote = [] };
  vanished = [];
  complete = false;
  checkpoint = 7 ∷ [];
}

merge-next_candidate_edited_example :
    (d : Candidate) × (next_candidate silent
      ≡ (record silent { join = record { local = []; remote = [] } }, some d))
    × ((merge d fresh).1 ≡ some (update (bytes "1") edit_hash (some (bytes "v1"))))
unfolding fresh staged_edit next Set.contains
merge-next_candidate_edited_example =
    merge-next_candidate_edited silent (candidate (edited Status.dirty) none)
      (record { local = []; remote = [] }) fresh (edited Status.dirty) base_v1 edit_hash refl refl
      refl refl refl refl (ground arith) refl refl
