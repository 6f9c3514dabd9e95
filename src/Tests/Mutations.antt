-- ===== src/Tests/Mutations.antt =====
-- The theorems on mutations, at a small mailbox.
use io_replica.Base.{◌≡◌, refl, true, none, some, [], ◌∷◌, bytes, inr, arith}
use io_replica.Placement.{Status, status_eq, Placement, Object, staged_edit, Placement}
use io_replica.Client.Verbs.{mutate}
use io_replica.Change.{add, remove, update, upsert_placement, store_object}
use io_replica.Client.{Client, ClientError}
use io_replica.Coroutine.{Arg, Result, Loaded, complete, yielded, wants_write, err}
use io_replica.Sync.Merge.{merge}
use io_replica.Mutate.{
  Mutation, Mutate, State, MutateError, link_exists, resume, edited_row, moved_row, staged_copy,
  new_row,
}
use io_replica.Mutate.Guards.{resume_add_collides}
use io_replica.Mutate.Runs.{is_sound, mutate_ends}
use io_replica.Mutate.Staged.{merge-edited_row, merge-resolution, merge-moved_row}
use io_replica.Tests.Data.{
  inbox, seen, no_flags, base_v1, edited, edit_hash, at_revision, candidate, fresh,
}
use io_replica.Tests.Drivers.{toy, toy_client}

-- The mail as last synced, at the revision "v1".
abbrev synced : Placement
synced = record (edited Status.clean) { object = some (bytes "h") }

-- The mail in conflict with the revision "v2".
abbrev diverged : Placement
diverged = record (edited Status.conflict) { conflict_revision = some (bytes "v2") }

abbrev body_2 : Object
body_2 = record { hash = edit_hash; size = 2 }

abbrev adding : Mutate
adding = record {
  collection = inbox;
  mutation = Mutation.add (bytes "p") (bytes "m") seen body_2 [] none [];
  state = State.pending_load;
}

abbrev loaded_mail : Loaded
loaded_mail = record { placements = synced ∷ []; checkpoint = none }

abbrev nothing_loaded : Loaded
nothing_loaded = record { placements = []; checkpoint = none }

merge-edited_row_example :
    (merge
      (candidate (edited_row synced body_2 none none) (some (at_revision (bytes "v1"))))
      fresh).1
    ≡ some (update (bytes "1") edit_hash (some (bytes "v1")))
unfolding fresh
merge-edited_row_example =
    merge-edited_row
      (candidate (edited_row synced body_2 none none) (some (at_revision (bytes "v1")))) fresh
      synced base_v1 (at_revision (bytes "v1")) body_2 none none refl refl refl refl (ground arith)
      (inr refl) refl

merge-resolution_example :
    (merge
      (candidate (edited_row diverged body_2 none none) (some (at_revision (bytes "v2"))))
      fresh).1
    ≡ some (update (bytes "1") edit_hash (some (bytes "v2")))
unfolding fresh
merge-resolution_example =
    merge-resolution
      (candidate (edited_row diverged body_2 none none) (some (at_revision (bytes "v2")))) fresh
      diverged (at_revision (bytes "v2")) body_2 none none refl refl refl (ground arith) (inr refl)
      refl

merge-moved_row_example :
    ((merge
        (candidate (moved_row synced (bytes "archive")) (some (at_revision (bytes "v1"))))
        fresh).1
      ≡ some (remove (bytes "1") (some (bytes "archive")) (some (bytes "m")) (some (bytes "v1"))))
    × ((merge (candidate (staged_copy synced (bytes "archive") (bytes "p")) none) fresh).1
        ≡ some (
            add
              (bytes "p")
              (some (bytes "m"))
              no_flags
              (some (record { collection = inbox; handle = bytes "1" }))
              (some (bytes "h"))))
unfolding fresh staged_edit
merge-moved_row_example =
    merge-moved_row
      (candidate (moved_row synced (bytes "archive")) (some (at_revision (bytes "v1"))))
      (candidate (staged_copy synced (bytes "archive") (bytes "p")) none) fresh fresh synced base_v1
      (at_revision (bytes "v1")) (bytes "archive") (bytes "p") refl refl refl refl refl
      (ground arith) (inr refl) refl refl

resume_add_collides_example :
    ((resume (some (Arg.load loaded_mail)) adding).1 ≡ complete (err (link_exists (bytes "m"))))
    × ((resume (some (Arg.load nothing_loaded)) (resume (some (Arg.load loaded_mail)) adding).0).1
        ≡ yielded (
            wants_write (
              store_object body_2 (some [])
              ∷ upsert_placement (new_row inbox (bytes "p") (bytes "m") seen body_2 none [])
              ∷ [])))
resume_add_collides_example =
    resume_add_collides adding (bytes "p") (bytes "m") seen body_2 [] none [] loaded_mail
      nothing_loaded [] [] synced refl refl refl (ground arith) refl tt

mutate_ends_example :
    (r : Result {0, 0} (Unit × Client toy) (ClientError toy MutateError)) × (mutate toy 3 inbox
        (Mutation.remove (bytes "1"))
        toy_client
      ≡ some r)
    × (is_sound toy r ≡ true)
mutate_ends_example = mutate_ends toy inbox (Mutation.remove (bytes "1")) toy_client
