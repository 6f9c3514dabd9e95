-- ===== src/Sync/Run/InFlight.antt =====
-- src/sync.rs, `resume` on the results of a push: the tables of what is in flight.
use io_replica.Base.{◌≡◌, refl, ◌∙◌, List, [], ◌∷◌, arith, All, text_eq}
use io_replica.Base.Map.{get-remove}
use io_replica.Base.Set.{contains-remove}
use io_replica.Placement.{Handle}
use io_replica.Remote.{PushResult}
use io_replica.Sync.Engine.{Sync, State}
use io_replica.Sync.Run.{hand_over, on_push}
use io_replica.Sync.Answers.{apply_result, apply_results, forget}
use io_replica.Sync.Run.Batches.{IsForgotten}

apply_result-in_flight : (r : PushResult) (s : Sync) → (apply_result r s).in_flight ≡ s.in_flight
unfolding apply_result
apply_result-in_flight r s = ground arith

apply_results-in_flight :
    (results : List PushResult) (s : Sync) → (apply_results results s).in_flight ≡ s.in_flight
unfolding apply_results
apply_results-in_flight [] s = refl
apply_results-in_flight (r ∷ results) s =
    apply_results-in_flight results (apply_result r s) ∙ apply_result-in_flight r s

forget_one : (h : Handle) (s : Sync) → IsForgotten h (forget (h ∷ []) s)
unfolding forget
forget_one h s = (
  ground (arith, get-remove h h s.pending_flag_pushes),
  ground (arith, get-remove h h s.pending_content_pushes),
  ground (arith, contains-remove h h s.pending_drops),
  ground (arith, get-remove h h s.pending_creates),
)

-- Forgetting further handles brings none back.
forget-IsForgotten :
    (h : Handle) (handles : List Handle) (s : Sync)
    → IsForgotten h s
    → IsForgotten h (forget handles s)
unfolding forget
forget-IsForgotten h [] s f = f
forget-IsForgotten h (k ∷ handles) s f = forget-IsForgotten h handles (forget (k ∷ []) s) (
  ground (arith, get-remove h k s.pending_flag_pushes),
  ground (arith, get-remove h k s.pending_content_pushes),
  ground (arith, contains-remove h k s.pending_drops),
  ground (arith, get-remove h k s.pending_creates),
)

forget-All :
    (handles : List Handle) (s : Sync) → All (λ h. IsForgotten h (forget handles s)) handles
unfolding forget
forget-All [] s = tt
forget-All (h ∷ handles) s = (
  forget-IsForgotten h handles (forget (h ∷ []) s) (forget_one h s),
  forget-All handles (forget (h ∷ []) s),
)

All-map {ℓ κ} :
    {A : Type ℓ} (P Q : A → Type κ) (l : List A) → ((a : A) → P a → Q a) → All P l → All Q l
All-map P Q [] f h = tt
All-map P Q (a ∷ l) f (h, k) = (f a h, All-map P Q l f k)

hand_over-IsForgotten :
    (state : State) (h : Handle) (s : Sync) → IsForgotten h s → IsForgotten h (hand_over state s).0
unfolding hand_over
hand_over-IsForgotten state h s f = (ground arith, ground arith, ground arith, ground arith)

-- The handles that `on_push` forgets, once the results are applied to the state.
answered-IsForgotten :
    (t : Sync) (handles : List Handle)
    → t.in_flight ≡ handles
    → All
        (λ h.
          IsForgotten h
            (hand_over State.pending_write (forget t.in_flight (record t { in_flight = [] }))).0)
        handles
answered-IsForgotten t handles e = rw (← e) (
    All-map _ _ t.in_flight
      (λ h.
        hand_over-IsForgotten State.pending_write h
          (forget t.in_flight (record t { in_flight = [] })))
      (forget-All t.in_flight (record t { in_flight = [] })))

-- Whatever results the remote reports for a chunk, no table holds a handle that was in flight
-- once they are processed.
pub on_push-IsForgotten :
    (results : List PushResult) (s : Sync)
    → All (λ h. IsForgotten h (on_push results s).0) s.in_flight
unfolding on_push
on_push-IsForgotten results s =
    answered-IsForgotten (apply_results results s) s.in_flight (apply_results-in_flight results s)
