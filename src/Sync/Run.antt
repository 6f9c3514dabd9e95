-- ===== src/Sync/Run.antt =====
-- src/sync.rs, the coroutine: the write batches, the push chunks and the steps of `resume`.
pub mod Progress
pub mod Replies
pub mod Resumes
pub mod Termination
pub mod Batches
pub mod InFlight
pub mod Cursor
pub mod Reach
pub mod Idle
pub mod Quiescent
pub mod Agreement
pub mod Stores
pub mod Course
pub mod Convergence
pub mod Start
pub mod Settling
pub mod Flagged
pub mod FlagPush
pub mod FlagTrip
use io_replica.Base.{
  ℕ, zero, suc, Bool, true, false, ◌||◌, not, Option, none, some, List, [], ◌∷◌, ◌++◌, map, length,
  take, drop, leb, if◌then◌else◌,
}
use Prim.Native.Nat.{min}
use io_replica.Base.Map.{from_entries}
use io_replica.Placement.{Handle, Placement, Checkpoint}
use io_replica.Remote.{PushResult}
use io_replica.Change.{
  Change, ChangeKind, change_handle, new as new_change, WriteOp, set_checkpoint,
}
use io_replica.Coroutine.{
  Loaded, Yield, wants_load, wants_enumerate, wants_push, wants_write, all, Arg, ArgError,
  unexpected_arg, missing_arg, Result, ok, err, CoroutineState, yielded, complete, panicked,
}
use io_replica.Sync.Options.{SyncReport, empty_report}
use io_replica.Sync.Engine.{Sync, State, Merge, Candidate}
use io_replica.Sync.Merge.{merge}
use io_replica.Sync.Answers.{apply_results, forget, forget_in_flight}
use io_replica.Sync.Join.{next_candidate, open_merge, join_size}

abbrev pub push_chunk : ℕ
push_chunk = 64

abbrev pub write_chunk : ℕ
write_chunk = 1024

abbrev pub Outcome : Type 0
Outcome = CoroutineState Yield (Result SyncReport ArgError)

abbrev is_empty {ℓ} : {A : Type ℓ} → List A → Bool
is_empty [] = true
is_empty (_ ∷ _) = false

ending : List Change → Option Checkpoint → Sync → Sync × List WriteOp
ending [] (some checkpoint) s = (
  record s { writes = []; next_checkpoint = none },
  s.writes ++ set_checkpoint s.collection checkpoint ∷ [],
)
ending [] none s = (record s { writes = [] }, s.writes)
ending (_ ∷ _) _ s = (record s { writes = [] }, s.writes)

-- `ReplicaSync::batch`.
unfoldable pub batch : Sync → Sync × List WriteOp
unfolding ending
batch s = ending s.pushes s.next_checkpoint s

-- Hands a batch over, and waits in the given state for it to be written.
unfoldable pub hand_over : State → Sync → Sync × Outcome
unfolding batch
hand_over state s =
    let (s', ops) = batch (record s { state = state }) in (s', yielded (wants_write ops))

pub send_chunk : Sync → Sync × Outcome
send_chunk s =
    let size = min (length s.pushes) push_chunk in
    let changes = take size s.pushes in
    (
      record s {
        pushes = drop size s.pushes;
        in_flight = map change_handle changes;
        state = State.pending_push;
      },
      yielded (wants_push s.collection changes),
    )

-- `ReplicaSync::step`.
unfoldable pub step : Sync → Sync × Outcome
unfolding hand_over send_chunk
step s = if is_empty s.pushes then hand_over State.pending_write s else send_chunk s

derive_change : Option ChangeKind → Sync → Sync
unfolding new_change
derive_change none s = s
derive_change (some kind) s = record s { pushes = s.pushes ++ new_change s.collection kind ∷ [] }

-- The body of the loop of `merge_step`, up to the test of the batch.
unfoldable pub merge_one : Candidate → Sync → Sync
unfolding merge derive_change
merge_one c s = let (s', kind) = merge c s in derive_change kind s'

pub finish_merge : Option Merge → Sync → Sync × Outcome
unfolding step
finish_merge none s = (s, panicked)
finish_merge (some m) s = step (record s { merging = none; next_checkpoint = some m.checkpoint })

-- `self.next_candidate()`, which moves the join of the merge in progress.
advance_of : Option Merge → Sync → Sync × Option Candidate
unfolding next_candidate
advance_of none s = (s, none)
advance_of (some m) s = let (m', c) = next_candidate m in (record s { merging = some m' }, c)

unfoldable pub advance : Sync → Sync × Option Candidate
unfolding advance_of
advance s = advance_of s.merging s

-- One round of the loop of `merge_step`, on what `next_candidate` found. The rounds to come are
-- an argument.
abbrev pub merge_round : (Sync → Sync × Outcome) → Sync × Option Candidate → Sync × Outcome
merge_round rest (s, none) = finish_merge s.merging s
merge_round rest (s, some c) =
    let merged = merge_one c s in
    elim (leb write_chunk (length merged.writes)) [
      | true ↦ hand_over State.merging merged
      | false ↦ rest merged
    ]

-- The loop of `merge_step`, with as many rounds as the join has rows.
unfoldable pub merge_within : ℕ → Sync → Sync × Outcome
merge_within zero s = finish_merge s.merging s
merge_within (suc n) s = merge_round (merge_within n) (advance s)

abbrev pub rows_left : Option Merge → ℕ
rows_left none = 0
rows_left (some m) = join_size m.join

unfoldable pub merge_step : Sync → Sync × Outcome
unfolding merge_within finish_merge advance merge_one hand_over
merge_step s = merge_within (rows_left s.merging) s

abbrev pub by_handle : Placement → Handle × Placement
by_handle p = (p.handle, p)

unfoldable pub on_load : Loaded → Sync → Sync × Outcome
unfolding from_entries
on_load loaded s =
    let checkpoint = if s.opts.full then none else loaded.checkpoint in
    (
      record s {
        local = from_entries (map by_handle loaded.placements);
        checkpoint = checkpoint;
        state = State.pending_enumerate;
      },
      yielded (wants_enumerate s.collection checkpoint),
    )

pub on_push : List PushResult → Sync → Sync × Outcome
unfolding apply_results forget hand_over
on_push results s = hand_over State.pending_write (forget_in_flight (apply_results results s))

pub on_written : Sync → Sync × Outcome
unfolding step
on_written s =
    if not (is_empty s.pushes)
    then step s
    else (record s { report = empty_report; state = State.done }, complete (ok s.report))

unfoldable dispatch : State → Option Arg → Sync → Sync × Outcome
unfolding on_load on_push on_written open_merge merge_step
dispatch State.start none s =
    (record s { state = State.pending_load }, yielded (wants_load s.collection all))
dispatch State.pending_load (some (Arg.load loaded)) s = on_load loaded s
dispatch State.pending_enumerate (some (Arg.enumerate snapshot)) s =
    merge_step (open_merge snapshot s)
dispatch State.merging (some Arg.write) s = merge_step s
dispatch State.pending_push (some (Arg.push results)) s = on_push results s
dispatch State.pending_write (some Arg.write) s = on_written s
dispatch _ (some _) s = (s, complete (err unexpected_arg))
dispatch _ none s = (s, complete (err missing_arg))

-- `ReplicaSync::resume`.
unfoldable pub resume : Option Arg → Sync → Sync × Outcome
unfolding dispatch
resume arg s = dispatch s.state arg s
