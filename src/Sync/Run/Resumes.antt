-- ===== src/Sync/Run/Resumes.antt =====
-- src/sync.rs, `resume`: the step in each state that takes the reply awaited.
use io_replica.Base.{◌≡◌, ap, some, List}
use io_replica.Remote.{PushResult, RemoteSnapshot}
use io_replica.Coroutine.{Arg, Loaded}
use io_replica.Sync.Engine.{Sync, State}
use io_replica.Sync.Join.{open_merge}
use io_replica.Sync.Run.{resume, dispatch, merge_step, on_push, on_written, on_load}

-- The steps of `resume` in the state that waits for the reply.
pub resume_merging : (s : Sync) → s.state ≡ State.merging → resume (some Arg.write) s ≡ merge_step s
unfolding resume
resume_merging s e = ap (λ t. dispatch t (some Arg.write) s) e

pub resume_written :
    (s : Sync) → s.state ≡ State.pending_write → resume (some Arg.write) s ≡ on_written s
unfolding resume
resume_written s e = ap (λ t. dispatch t (some Arg.write) s) e

pub resume_pushed :
    (s : Sync) (results : List PushResult)
    → s.state ≡ State.pending_push
    → resume (some (Arg.push results)) s ≡ on_push results s
unfolding resume
resume_pushed s results e = ap (λ t. dispatch t (some (Arg.push results)) s) e

pub resume_enumerated :
    (s : Sync) (snapshot : RemoteSnapshot)
    → s.state ≡ State.pending_enumerate
    → resume (some (Arg.enumerate snapshot)) s ≡ merge_step (open_merge snapshot s)
unfolding resume
resume_enumerated s snapshot e = ap (λ t. dispatch t (some (Arg.enumerate snapshot)) s) e

pub resume_loaded :
    (s : Sync) (loaded : Loaded)
    → s.state ≡ State.pending_load
    → resume (some (Arg.load loaded)) s ≡ on_load loaded s
unfolding resume
resume_loaded s loaded e = ap (λ t. dispatch t (some (Arg.load loaded)) s) e
