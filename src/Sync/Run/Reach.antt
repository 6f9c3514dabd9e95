-- ===== src/Sync/Run/Reach.antt =====
-- src/sync.rs, `resume`: the states of a run, and the batches that it yields in them.
use io_replica.Base.{◌≡◌, refl, ◌⊎◌, inl, Option, none, some, List, [], text_eq, option_eq}
use io_replica.Placement.{CollectionId, status_eq}
use io_replica.Change.{WriteOp}
use io_replica.Coroutine.{
  Arg, ArgError, unexpected_arg, missing_arg, err, yielded, complete, wants_write,
}
use io_replica.Sync.Options.{SyncOptions}
use io_replica.Sync.Engine.{Sync, State, new}
use io_replica.Sync.Merge.Cursor.{checkpoints}
use io_replica.Sync.Join.{open_merge}
use io_replica.Sync.Run.{Outcome, on_load, resume, dispatch}
use io_replica.Sync.Run.Cursor.{
  Phase, IsHeld, IsLast, IsGood, open-Phase, closed-Phase, merge_step-IsGood, on_push-IsGood,
  on_written-IsGood,
}

-- A step taken in a state that is not the one its reply belongs to changes nothing.
refused-IsGood : (s : Sync) (e : ArgError) → IsHeld s → IsGood (s, complete (err e))
refused-IsGood s e h = (h, tt)

dispatch-IsGood :
    (state : State) (a : Option Arg) (s : Sync)
    → s.state ≡ state
    → checkpoints s.writes ≡ []
    → Phase state s
    → IsGood (dispatch state a s)
unfolding dispatch on_load open_merge
dispatch-IsGood State.start none s e w h = ((w, inl (refl, open-Phase State.start s refl h)), tt)
dispatch-IsGood State.pending_load (some (Arg.load loaded)) s e w h =
    ((w, inl (refl, open-Phase State.pending_load s refl h)), tt)
dispatch-IsGood State.pending_enumerate (some (Arg.enumerate snapshot)) s e w h =
    merge_step-IsGood (open_merge snapshot s) w (open-Phase State.pending_enumerate s refl h)
dispatch-IsGood State.merging (some Arg.write) s e w h =
    merge_step-IsGood s w (open-Phase State.merging s refl h)
dispatch-IsGood State.pending_push (some (Arg.push results)) s e w h =
    on_push-IsGood results s w (closed-Phase State.pending_push s refl h)
dispatch-IsGood State.pending_write (some Arg.write) s e w h =
    on_written-IsGood s w (closed-Phase State.pending_write s refl h)
dispatch-IsGood state (some _) s e w h = refused-IsGood s unexpected_arg (w, rw e h)
dispatch-IsGood state none s e w h = refused-IsGood s missing_arg (w, rw e h)

resume-IsGood : (a : Option Arg) (s : Sync) → IsHeld s → IsGood (resume a s)
unfolding resume
resume-IsGood a s (w, phase) = dispatch-IsGood s.state a s refl w phase

-- The states that a run comes to, whatever it is resumed with.
pub data Reachable (collection : CollectionId) (opts : SyncOptions) : Sync → Type 0 where
  started : Reachable collection opts (new collection opts)
  resumed :
      {s : Sync} (a : Option Arg)
      → Reachable collection opts s
      → Reachable collection opts (resume a s).0

Reachable-IsHeld :
    {collection : CollectionId} {opts : SyncOptions} {s : Sync}
    → Reachable collection opts s
    → IsHeld s
unfolding new
Reachable-IsHeld started = (refl, inl (refl, refl))
Reachable-IsHeld (resumed {s = s} a r) = (resume-IsGood a s (Reachable-IsHeld r)).0

IsLast-batch :
    (t : Sync) (out : Outcome) (ops : List WriteOp)
    → out ≡ yielded (wants_write ops)
    → IsLast t out
    → (checkpoints ops ≡ []) ⊎ ((t.pushes ≡ []) × (t.merging ≡ none))
IsLast-batch t out ops e h = rw e at h

-- In every state that a run comes to, whatever it was resumed with, a batch of writes holds a
-- checkpoint only where no change is left to push and no merge is in progress.
pub checkpoint_last :
    (collection : CollectionId) (opts : SyncOptions) (s : Sync) (a : Option Arg)
    (ops : List WriteOp)
    → Reachable collection opts s
    → (resume a s).1 ≡ yielded (wants_write ops)
    → (checkpoints ops ≡ []) ⊎ (((resume a s).0.pushes ≡ []) × ((resume a s).0.merging ≡ none))
checkpoint_last collection opts s a ops r e =
    IsLast-batch (resume a s).0 (resume a s).1 ops e (resume-IsGood a s (Reachable-IsHeld r)).1
