-- ===== src/Tests/SyncRuns.antt =====
-- A sync run, reply by reply.
use io_replica.Base.{◌≡◌, refl, Option, none, some, List, [], ◌∷◌, bytes, text_eq, option_eq}
use native.Mathlib.Decide.{ℕ_discrete}
use io_replica.Flags.{flags_eq, merge}
use io_replica.Placement.{dirty, tombstone, status_eq}
use io_replica.Coroutine.{Arg, CoroutineState, complete, ok}
use io_replica.Sync.Engine.{Sync}
use io_replica.Sync.Options.{added, flags_changed, vanished}
use io_replica.Sync.Run.{Outcome, resume}
use io_replica.Tests.Data.{seen, flagged, mail, listed, snapshot, fresh, accept_of}

replay : List (Option Arg) → Sync → Sync × Outcome → Sync × Outcome
unfolding resume
replay [] s last = last
replay (a ∷ args) s last = let out = resume a s in replay args out.0 out

-- A mail read offline and one deleted offline, while the remote flags both and gains a third.
script : List (Option Arg)
script =
    none
    ∷ some (
        Arg.load (record {
          placements = mail (bytes "1") dirty seen ∷ mail (bytes "2") tombstone seen ∷ [];
          checkpoint = none;
        }))
    ∷ some (
        Arg.enumerate (
          snapshot (
            listed (bytes "3") flagged
            ∷ listed (bytes "2") flagged
            ∷ listed (bytes "1") flagged
            ∷ [])))
    ∷ some (Arg.push (accept_of (bytes "1") ∷ accept_of (bytes "2") ∷ []))
    ∷ some Arg.write
    ∷ []

replayed :
    (replay script fresh (fresh, CoroutineState.panicked)).1
    ≡ complete (
        ok (record {
          pulled = 2;
          pushed = 2;
          conflicts = 0;
          rejected = 0;
          refreshed = 0;
          events =
              flags_changed (bytes "1")
              ∷ added (bytes "3")
              ∷ flags_changed (bytes "1")
              ∷ vanished (bytes "2")
              ∷ [];
        }))
unfolding replay script fresh text_eq ℕ_discrete status_eq option_eq flags_eq merge
replayed = refl
