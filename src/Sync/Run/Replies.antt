-- ===== src/Sync/Run/Replies.antt =====
-- src/sync.rs, `resume`: the work left by the replies to a push and to a write.
use io_replica.Base.{
  ◌+◌, ◌*◌, ◌<◌, ◌≡◌, refl, ◌∙◌, ap, Bool, true, false, Option, none, some, List, [], ◌∷◌, arith,
  length, ◌⊎◌, inl, inr, List-cases,
}
use io_replica.Placement.{Handle, Placement}
use io_replica.Base.Map.{get}
use io_replica.Base.Set
use io_replica.Remote.{PushResult, PushOutcome, accepted, rejected}
use io_replica.Change.{Change}
use io_replica.Coroutine.{ok, complete}
use io_replica.Sync.Engine.{Sync, State}
use io_replica.Sync.Run.{on_push, on_written, hand_over, step, is_empty}
use io_replica.Sync.Answers.{
  apply_outcome, apply_result, apply_results, accept, accept_flags, accept_content, accept_drop,
  accept_create, forget, forget_handle, forget_in_flight,
}
use io_replica.Sync.Run.Progress.{
  IsWaiting, behind, hand_over_writing, IsWaiting-mono, send_chunk_pushing,
}

-- An outcome applied to a result moves tables, writes and report only.
accept_flags-behind :
    (o : Option Placement) (r : PushResult) (s : Sync) → behind (accept_flags o r s).0 ≡ behind s
unfolding accept_flags
accept_flags-behind none r s = refl
accept_flags-behind (some p) r s = refl

accept_content-behind :
    (o : Option Placement) (r : PushResult) (s : Sync) → behind (accept_content o r s).0 ≡ behind s
unfolding accept_content
accept_content-behind none r s = refl
accept_content-behind (some p) r s = refl

accept_drop-behind :
    (b : Bool) (r : PushResult) (s : Sync) → behind (accept_drop b r s).0 ≡ behind s
unfolding accept_drop
accept_drop-behind false r s = refl
accept_drop-behind true r s = refl

accept_create-behind :
    (o : Option Placement) (r : PushResult) (s : Sync) → behind (accept_create o r s).0 ≡ behind s
unfolding accept_create
accept_create-behind none r s = refl
accept_create-behind (some p) r s = ground arith

accept-behind : (r : PushResult) (s : Sync) → behind (accept r s) ≡ behind s
unfolding accept
accept-behind r s =
    let a = accept_flags (get r.handle s.pending_flag_pushes) r s in
    let b = accept_content (get r.handle a.0.pending_content_pushes) r a.0 in
    let c = accept_drop (Set.contains b.0.pending_drops r.handle) r b.0 in
    accept_create-behind (get r.handle c.0.pending_creates) r c.0
    ∙ accept_drop-behind (Set.contains b.0.pending_drops r.handle) r b.0
    ∙ accept_content-behind (get r.handle a.0.pending_content_pushes) r a.0
    ∙ accept_flags-behind (get r.handle s.pending_flag_pushes) r s

apply_result-behind : (r : PushResult) (s : Sync) → behind (apply_result r s) ≡ behind s
unfolding apply_result
apply_result-behind r s = go r.outcome
  where
    go : (o : PushOutcome) → behind (apply_outcome o r s) ≡ behind s
    go accepted = accept-behind r s
    go rejected = refl

apply_results-behind :
    (results : List PushResult) (s : Sync) → behind (apply_results results s) ≡ behind s
unfolding apply_results
apply_results-behind [] s = refl
apply_results-behind (r ∷ results) s =
    apply_results-behind results (apply_result r s) ∙ apply_result-behind r s

forget-behind : (handles : List Handle) (s : Sync) → behind (forget handles s) ≡ behind s
unfolding forget
forget-behind [] s = refl
forget-behind (h ∷ handles) s = forget-behind handles (forget_handle h s)

-- The run behind the outcomes of a chunk is the run before them.
settled-behind :
    (results : List PushResult) (s : Sync)
    → behind (forget_in_flight (apply_results results s)) ≡ behind s
settled-behind results s =
    let t = apply_results results s in
    forget-behind t.in_flight (record t { in_flight = [] }) ∙ apply_results-behind results s

-- The outcomes of a chunk are recorded by a write, and no push is lost by them.
pub on_push-IsWaiting :
    (results : List PushResult) (s : Sync)
    → s.merging ≡ none
    → IsWaiting (3 * length s.pushes + 1) (on_push results s)
unfolding on_push
on_push-IsWaiting results s h =
    let t = forget_in_flight (apply_results results s) in
    let b = settled-behind results s in
    let pushes : length t.pushes ≡ length s.pushes = ap (λ x. length x.1) b in
    IsWaiting-mono (hand_over State.pending_write t) (omega arith)
      (hand_over_writing t (ap (λ x. x.0) b ∙ h))

-- After a write the next chunk goes out; after the last one the run reports.
pub on_written_lem :
    (s : Sync)
    → s.merging ≡ none
    → (IsWaiting (3 * length s.pushes) (on_written s)) ⊎ ((on_written s).1 ≡ complete (ok s.report))
unfolding on_written step
on_written_lem s h = go (List-cases s.pushes)
  where
    go :
        (s.pushes ≡ []) ⊎ ((x : Change) × (l : List Change) × (s.pushes ≡ x ∷ l))
        → (IsWaiting (3 * length s.pushes) (on_written s))
          ⊎ ((on_written s).1 ≡ complete (ok s.report))
    go (inl e) = let empty : is_empty s.pushes ≡ true = rw e refl in inr (rw empty refl)
    go (inr (x, l, e)) =
        let full : is_empty s.pushes ≡ false = rw e refl in
        let left : 0 < length s.pushes = rw e (omega arith) in
        inl (rw full (send_chunk_pushing s h left))
