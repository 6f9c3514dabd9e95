-- ===== src/Tests/Drivers.antt =====
-- The theorems on the coroutine and its driver, at a small mailbox.
use io_replica.Base.{
  ℕ, ◌≡◌, ◌⊎◌, ◌≤◌, refl, true, none, some, List, [], ◌∷◌, ◌++◌, bytes, arith, All, length, map,
}
use io_replica.Client.Verbs.{sync, open_collection}
use io_replica.Client.{Seams, Client, ClientError}
use io_replica.Change.{Change, change_handle}
use io_replica.Coroutine.{ArgError, Result, ok, yielded, wants_push}
use io_replica.Placement.{Status}
use io_replica.Sync.Options.{SyncReport, default}
use io_replica.Sync.Engine.{Sync, new}
use io_replica.Sync.Run.{resume, on_push, step}
use io_replica.Sync.Run.Reach.{Reachable, checkpoint_last}
use io_replica.Sync.Merge.Cursor.{checkpoints}
use io_replica.Coroutine.{Arg}
use io_replica.Change.{set_checkpoint}
use io_replica.Open.Runs.{opened, run_open}
use io_replica.Sync.Run.Batches.{IsForgotten, step_chunk}
use io_replica.Sync.Run.InFlight.{on_push-IsForgotten}
use io_replica.Sync.Run.Termination.{is_sound, sync_ends}
use io_replica.Tests.Data.{
  inbox, edited, at_revision, accept_of, fresh, one_push, in_flight, snapshot,
}

-- A store that forgets what it is told, and a remote that accepts whatever is pushed.
abbrev pub toy : Seams
toy = record {
  Storage = Unit;
  Remote = Unit;
  StorageError = Unit;
  RemoteError = Unit;
  load = λ s c scope. ok (record { placements = edited Status.dirty ∷ []; checkpoint = none });
  lookup_objects = λ s links. ok [];
  write = λ s ops. ok tt;
  enumerate = λ r c cursor. ok (snapshot (at_revision (bytes "v1") ∷ []), tt);
  fetch = λ r c handles tier. ok ([], tt);
  push = λ r c changes. ok (map (λ x. accept_of (change_handle x)) changes, tt);
}

abbrev pub toy_client : Client toy
toy_client = record { storage = tt; remote = tt }

sync_ends_example :
    (n : ℕ) × (r : Result (SyncReport × Client toy) (ClientError toy ArgError)) × (sync toy n inbox
        default toy_client
      ≡ some r)
    × (is_sound toy r ≡ true)
sync_ends_example = sync_ends toy inbox default toy_client

on_push-IsForgotten_example : All (λ h. IsForgotten h (on_push [] in_flight).0) in_flight.in_flight
on_push-IsForgotten_example = on_push-IsForgotten [] in_flight

step_chunk_example :
    (changes : List Change) × ((step one_push).1 ≡ yielded (wants_push inbox changes))
    × (changes ++ (step one_push).0.pushes ≡ one_push.pushes)
    × (length changes ≤ 64)
    × (1 ≤ length changes)
    × ((step one_push).0.in_flight ≡ map change_handle changes)
    × ((step one_push).0.writes ≡ one_push.writes)
    × ((step one_push).0.next_checkpoint ≡ one_push.next_checkpoint)
unfolding fresh
step_chunk_example = step_chunk one_push (ground arith)

-- A run over an empty mailbox, up to the reply to its enumerate.
abbrev enumerating : Sync
unfolding new resume
enumerating =
    (resume (some (Arg.load (record { placements = []; checkpoint = none })))
      (resume none (new inbox default)).0).0

checkpoint_last_example :
    (checkpoints (set_checkpoint inbox (7 ∷ []) ∷ []) ≡ [])
    ⊎ (((resume (some (Arg.enumerate (snapshot []))) enumerating).0.pushes ≡ [])
        × ((resume (some (Arg.enumerate (snapshot []))) enumerating).0.merging ≡ none))
unfolding resume new
checkpoint_last_example =
    checkpoint_last inbox default enumerating (some (Arg.enumerate (snapshot [])))
      (set_checkpoint inbox (7 ∷ []) ∷ [])
      (Reachable.resumed (some (Arg.load (record { placements = []; checkpoint = none })))
        (Reachable.resumed none Reachable.started))
      refl

run_open_example :
    open_collection toy 2 inbox toy_client
    ≡ some (
        opened toy toy_client
          (ok (record { placements = edited Status.dirty ∷ []; checkpoint = none })))
run_open_example = run_open toy inbox toy_client
