-- ===== src/Sync/Run/Cursor.antt =====
-- src/sync.rs: when a run stores its checkpoint, step by step.
use io_replica.Base.{
  ◌≡◌, refl, ap, ◌∙◌, ℕ, zero, suc, ◌⊎◌, inl, inr, Bool, true, false, Option, none, some, List, [],
  ◌∷◌, arith, leb, length, text_eq, option_eq, Bool-cases, not, if◌then◌else◌, List-cases,
  Option-cases,
}
use io_replica.Placement.{Handle, status_eq, Checkpoint}
use io_replica.Remote.{PushResult}
use io_replica.Change.{Change, ChangeKind}
use io_replica.Coroutine.{yielded, wants_write}
use io_replica.Sync.Engine.{Sync, State, Merge, Candidate}
use io_replica.Sync.Merge.{merge}
use io_replica.Sync.Merge.Writes.{merge-frame}
use io_replica.Sync.Merge.Cursor.{
  checkpoints, checkpoints-upsert, checkpoints-drop, checkpoints-merge,
}
use io_replica.Sync.Run.{
  Outcome, is_empty, write_chunk, hand_over, step, derive_change, merge_one, finish_merge, advance,
  merge_round, merge_within, rows_left, merge_step, on_push, on_written,
}
use io_replica.Sync.Answers.{apply_result, apply_results, forget}

-- The states of a run whose merge is not over.
abbrev pub is_open : State → Bool
is_open State.start = true
is_open State.pending_load = true
is_open State.pending_enumerate = true
is_open State.merging = true
is_open State.pending_push = false
is_open State.pending_write = false
is_open State.done = false

-- The cursor is set only once the merge is over, and it never waits among the writes.
abbrev pub Phase : State → Sync → Type 0
Phase state s =
    ((is_open state ≡ true) × (s.next_checkpoint ≡ none))
    ⊎ ((is_open state ≡ false) × (s.merging ≡ none))

abbrev pub IsHeld : Sync → Type 0
IsHeld s = (checkpoints s.writes ≡ []) × Phase s.state s

-- A batch with a checkpoint leaves nothing to merge and nothing to push.
abbrev pub IsLast : Sync → Outcome → Type 0
IsLast t (yielded (wants_write ops)) =
    (checkpoints ops ≡ []) ⊎ ((t.pushes ≡ []) × (t.merging ≡ none))
IsLast t _ = Unit

abbrev pub IsGood : Sync × Outcome → Type 0
IsGood r = IsHeld r.0 × IsLast r.0 r.1

hand_over-IsGood :
    (state : State) (s : Sync)
    → checkpoints s.writes ≡ []
    → Phase state s
    → IsGood (hand_over state s)
unfolding hand_over
hand_over-IsGood state s w phase = go (List-cases s.pushes) (Option-cases s.next_checkpoint)
  where
    go :
        (s.pushes ≡ []) ⊎ ((x : Change) × (l : List Change) × (s.pushes ≡ x ∷ l))
        → (s.next_checkpoint ≡ none) ⊎ ((x : Checkpoint) × (s.next_checkpoint ≡ some x))
        → IsGood (hand_over state s)
    go (inl e) (inl f) = ((ground arith, ground arith), ground arith)
    go (inl e) (inr (x, f)) = ((ground arith, ground arith), ground arith)
    go (inr (x, l, e)) f = ((ground arith, ground arith), ground arith)

step-IsGood : (s : Sync) → checkpoints s.writes ≡ [] → s.merging ≡ none → IsGood (step s)
unfolding step
step-IsGood s w m = elim (Bool-cases (is_empty s.pushes)) [
  | inl e ↦ rw e (hand_over-IsGood State.pending_write s w (inr (refl, m)))
  | inr e ↦ rw e ((w, inr (refl, m)), tt)
]

finish_merge-IsGood :
    (m : Option Merge) (s : Sync)
    → s.merging ≡ m
    → checkpoints s.writes ≡ []
    → s.next_checkpoint ≡ none
    → IsGood (finish_merge m s)
unfolding finish_merge
finish_merge-IsGood none s e w n = elim (Bool-cases (is_open s.state)) [
  | inl o ↦ ((w, inl (o, n)), tt)
  | inr o ↦ ((w, inr (o, e)), tt)
]
finish_merge-IsGood (some m) s e w n =
    step-IsGood (record s { merging = none; next_checkpoint = some m.checkpoint }) w refl

derive_change-same :
    (kind : Option ChangeKind) (s : Sync)
    → ((derive_change kind s).writes ≡ s.writes)
      × ((derive_change kind s).next_checkpoint ≡ s.next_checkpoint)
unfolding derive_change
derive_change-same none s = (refl, refl)
derive_change-same (some k) s = (refl, refl)

merge_one-same :
    (c : Candidate) (s : Sync)
    → (checkpoints (merge_one c s).writes ≡ checkpoints s.writes)
      × ((merge_one c s).next_checkpoint ≡ s.next_checkpoint)
unfolding merge_one
merge_one-same c s =
    let one = derive_change-same (merge c s).1 (merge c s).0 in
    (
      ap checkpoints one.0 ∙ checkpoints-merge c s,
      one.1 ∙ ap (λ (t : Sync). t.next_checkpoint) (merge-frame c s),
    )

advance-same :
    (s : Sync)
    → ((advance s).0.writes ≡ s.writes) × ((advance s).0.next_checkpoint ≡ s.next_checkpoint)
unfolding advance
advance-same s = (ground arith, ground arith)

merge_within-IsGood :
    (n : ℕ) (s : Sync)
    → checkpoints s.writes ≡ []
    → s.next_checkpoint ≡ none
    → IsGood (merge_within n s)
unfolding merge_within
merge_within-IsGood zero s w k = finish_merge-IsGood s.merging s refl w k
merge_within-IsGood (suc n) s w k =
    go (advance s) (ap checkpoints (advance-same s).0 ∙ w) ((advance-same s).1 ∙ k)
      (merge_within-IsGood n)
  where
    go :
        (r : Sync × Option Candidate)
        → checkpoints r.0.writes ≡ []
        → r.0.next_checkpoint ≡ none
        → ((t : Sync)
            → checkpoints t.writes ≡ []
            → t.next_checkpoint ≡ none
            → IsGood (merge_within n t))
        → IsGood (merge_round (merge_within n) r)
    go (t, none) w' k' ih = finish_merge-IsGood t.merging t refl w' k'
    go (t, some c) w' k' ih =
        let merged = merge_one c t in
        let same = merge_one-same c t in
        elim (Bool-cases (leb write_chunk (length merged.writes))) [
          | inl full ↦
              rw (full, merge_round)
                (hand_over-IsGood State.merging merged (same.0 ∙ w') (inl (refl, same.1 ∙ k')))
          | inr room ↦ rw (room, merge_round) (ih merged (same.0 ∙ w') (same.1 ∙ k'))
        ]

apply_result-same :
    (r : PushResult) (s : Sync)
    → (checkpoints (apply_result r s).writes ≡ checkpoints s.writes)
      × ((apply_result r s).merging ≡ s.merging)
unfolding apply_result
apply_result-same r s = (grind (arith, checkpoints-upsert, checkpoints-drop), ground arith)

apply_results-same :
    (results : List PushResult) (s : Sync)
    → (checkpoints (apply_results results s).writes ≡ checkpoints s.writes)
      × ((apply_results results s).merging ≡ s.merging)
unfolding apply_results
apply_results-same [] s = (refl, refl)
apply_results-same (r ∷ results) s =
    let one = apply_result-same r s in
    let rest = apply_results-same results (apply_result r s) in (rest.0 ∙ one.0, rest.1 ∙ one.1)

forget-same :
    (handles : List Handle) (s : Sync)
    → ((forget handles s).writes ≡ s.writes) × ((forget handles s).merging ≡ s.merging)
unfolding forget
forget-same [] s = (refl, refl)
forget-same (h ∷ handles) s = forget-same handles (forget (h ∷ []) s)

pub on_push-IsGood :
    (results : List PushResult) (s : Sync)
    → checkpoints s.writes ≡ []
    → s.merging ≡ none
    → IsGood (on_push results s)
unfolding on_push
on_push-IsGood results s w m =
    let t = apply_results results s in
    let same = apply_results-same results s in
    let left = forget-same t.in_flight (record t { in_flight = [] }) in
    hand_over-IsGood State.pending_write (forget t.in_flight (record t { in_flight = [] }))
      (ap checkpoints left.0 ∙ same.0 ∙ w) (inr (refl, left.1 ∙ same.1 ∙ m))

if-IsGood : (b : Bool) (x y : Sync × Outcome) → IsGood x → IsGood y → IsGood (if b then x else y)
if-IsGood true x y g h = g
if-IsGood false x y g h = h

pub on_written-IsGood :
    (s : Sync) → checkpoints s.writes ≡ [] → s.merging ≡ none → IsGood (on_written s)
unfolding on_written
on_written-IsGood s w m =
    if-IsGood (not (is_empty s.pushes)) (step s) _ (step-IsGood s w m) ((w, inr (refl, m)), tt)

pub merge_step-IsGood :
    (s : Sync) → checkpoints s.writes ≡ [] → s.next_checkpoint ≡ none → IsGood (merge_step s)
unfolding merge_step
merge_step-IsGood s w k = merge_within-IsGood (rows_left s.merging) s w k

-- In an open state the cursor is not set, and in another one no merge is in progress.
pub open-Phase :
    (state : State) (s : Sync) → is_open state ≡ true → Phase state s → s.next_checkpoint ≡ none
open-Phase state s o (inl (_, k)) = k
open-Phase state s o (inr (n, _)) = cc

pub closed-Phase :
    (state : State) (s : Sync) → is_open state ≡ false → Phase state s → s.merging ≡ none
closed-Phase state s o (inl (n, _)) = cc
closed-Phase state s o (inr (_, m)) = m
