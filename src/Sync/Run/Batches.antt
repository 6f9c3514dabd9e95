-- ===== src/Sync/Run/Batches.antt =====
-- src/sync.rs, `step` and the results of a push: one chunk, one result.
use io_replica.Base.{
  ◌≡◌, ◌≢◌, refl, ap, ◌≤◌, false, none, List, [], ◌∷◌, ◌++◌, arith, length, take, take-append-drop,
  text_eq, map, List-cases, length-take, ◌⊎◌, inl, inr,
}
use Prim.Native.Nat.{min}
use io_replica.Base.Map.{get, get-remove}
use io_replica.Base.Set
use io_replica.Base.Set.{contains-remove}
use io_replica.Placement.{Handle}
use io_replica.Remote.{PushResult, accepted}
use io_replica.Change.{Change, change_handle}
use io_replica.Coroutine.{yielded, wants_push}
use io_replica.Sync.Engine.{Sync}
use io_replica.Sync.Run.{step, is_empty}
use io_replica.Sync.Answers.{apply_result, apply_results}

-- A table that has forgotten a handle, or never knew it.
abbrev pub IsForgotten : Handle → Sync → Type 0
IsForgotten h s =
    (get h s.pending_flag_pushes ≡ none)
    × (get h s.pending_content_pushes ≡ none)
    × (Set.contains s.pending_drops h ≡ false)
    × (get h s.pending_creates ≡ none)

-- Once an accepted result is applied, no table holds its handle.
apply_result-IsForgotten :
    (r : PushResult) (s : Sync) → r.outcome ≡ accepted → IsForgotten r.handle (apply_result r s)
unfolding apply_result
apply_result-IsForgotten r s h = (
  ground (arith, get-remove r.handle r.handle s.pending_flag_pushes),
  ground (arith, get-remove r.handle r.handle s.pending_content_pushes),
  ground (arith, contains-remove r.handle r.handle s.pending_drops),
  ground (arith, get-remove r.handle r.handle s.pending_creates),
)

-- A result about a handle that no table holds changes nothing.
apply_result_forgotten :
    (r : PushResult) (s : Sync)
    → r.outcome ≡ accepted
    → IsForgotten r.handle s
    → apply_result r s ≡ s
unfolding apply_result
apply_result_forgotten r s h f = ground arith

-- Reporting the acceptance of a handle twice in a row leaves the run as reporting it once does.
apply_results_twice :
    (r : PushResult) (results : List PushResult) (s : Sync)
    → r.outcome ≡ accepted
    → apply_results (r ∷ r ∷ results) s ≡ apply_results (r ∷ results) s
unfolding apply_results
apply_results_twice r results s h =
    ap (apply_results results)
      (apply_result_forgotten r (apply_result r s) h (apply_result-IsForgotten r s h))

-- Where changes are queued, a step yields a push of between one and sixty-four of them, the
-- first in the queue; the others stay queued in order, exactly the handles sent are in flight,
-- and neither the writes nor the checkpoint moves.
pub step_chunk :
    (s : Sync)
    → s.pushes ≢ []
    → (changes : List Change) × ((step s).1 ≡ yielded (wants_push s.collection changes))
      × (changes ++ (step s).0.pushes ≡ s.pushes)
      × (length changes ≤ 64)
      × (1 ≤ length changes)
      × ((step s).0.in_flight ≡ map change_handle changes)
      × ((step s).0.writes ≡ s.writes)
      × ((step s).0.next_checkpoint ≡ s.next_checkpoint)
unfolding step
step_chunk s h = go (List-cases s.pushes)
  where
    changes : List Change
    changes = take (min (length s.pushes) 64) s.pushes

    go :
        (s.pushes ≡ []) ⊎ ((x : Change) × (l : List Change) × (s.pushes ≡ x ∷ l))
        → (changes : List Change) × ((step s).1 ≡ yielded (wants_push s.collection changes))
          × (changes ++ (step s).0.pushes ≡ s.pushes)
          × (length changes ≤ 64)
          × (1 ≤ length changes)
          × ((step s).0.in_flight ≡ map change_handle changes)
          × ((step s).0.writes ≡ s.writes)
          × ((step s).0.next_checkpoint ≡ s.next_checkpoint)
    go (inl e) = absurd (h e)
    go (inr (x, l, e)) =
        let full : is_empty s.pushes ≡ false = rw e refl in
        let some_left : 1 ≤ length s.pushes = rw e (omega arith) in
        let size = length-take (min (length s.pushes) 64) s.pushes in
        rw full (
          changes,
          refl,
          take-append-drop (min (length s.pushes) 64) s.pushes,
          omega (arith, size),
          omega (arith, size),
          refl,
          refl,
          refl,
        )
