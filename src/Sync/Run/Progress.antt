-- ===== src/Sync/Run/Progress.antt =====
-- src/sync.rs, `merge_step` and `step`: how much work a state leaves, counted in replies.
use io_replica.Base.{
  ℕ, zero, suc, ◌+◌, ◌*◌, ◌≤◌, ◌<◌, ◌≡◌, ◌⊎◌, inl, inr, List-cases, refl, ◌∙◌, ap, true, false,
  Option, none, some, List, [], ◌∷◌, arith, length, length-append, take, drop, leb, Bool-cases,
}
use Prim.Native.Nat.{min}
use io_replica.Change.{Change, ChangeKind, WriteOp, new as new_change}
use io_replica.Coroutine.{wants_push, wants_write, yielded}
use io_replica.Sync.Engine.{Sync, State, Merge, Candidate}
use io_replica.Sync.Merge.{merge}
use io_replica.Sync.Merge.Writes.{merge-frame}
use io_replica.Sync.Join.{next_candidate, join_size}
use io_replica.Sync.Join.Loop.{next_candidate-size}
use io_replica.Sync.Run.{
  Outcome, rows_left, merge_one, merge_within, advance, advance_of, finish_merge, hand_over, batch,
  step, send_chunk, derive_change, is_empty, push_chunk, write_chunk, merge_round,
}

-- What a run still has to do from here on: rows to merge, changes to push, and its phase.
abbrev pub rank : State → ℕ
rank State.pending_push = 2
rank State.pending_write = 1
rank State.merging = 3
rank _ = 0

abbrev pub work : Sync → ℕ
work s = 3 * (2 * rows_left s.merging + length s.pushes) + rank s.state

-- A run waits for the reply to what it yielded, in the state that takes this reply, with at most
-- the work given still to do.
pub data IsWaiting (n : ℕ) (r : Sync × Outcome) : Type 0 where
  merging :
      (ops : List WriteOp)
      → r.1 ≡ yielded (wants_write ops)
      → r.0.state ≡ State.merging
      → (m : Merge) → r.0.merging ≡ some m
      → work r.0 ≤ n
      → IsWaiting n r
  writing :
      (ops : List WriteOp)
      → r.1 ≡ yielded (wants_write ops)
      → r.0.state ≡ State.pending_write
      → r.0.merging ≡ none
      → work r.0 ≤ n
      → IsWaiting n r
  pushing :
      (changes : List Change)
      → r.1 ≡ yielded (wants_push r.0.collection changes)
      → r.0.state ≡ State.pending_push
      → r.0.merging ≡ none
      → work r.0 ≤ n
      → IsWaiting n r

pub IsWaiting-mono : {n k : ℕ} (r : Sync × Outcome) → n ≤ k → IsWaiting n r → IsWaiting k r
IsWaiting-mono r h (merging ops y s m e w) = merging ops y s m e (omega arith)
IsWaiting-mono r h (writing ops y s e w) = writing ops y s e (omega arith)
IsWaiting-mono r h (pushing changes y s e w) = pushing changes y s e (omega arith)

-- What is left of the run behind a batch.
abbrev pub behind : Sync → Option Merge × List Change × State
behind s = (s.merging, s.pushes, s.state)

batch-behind : (s : Sync) → behind (batch s).0 ≡ behind s
unfolding batch
batch-behind s = ground arith

length-drop : (n : ℕ) (l : List Change) → n ≤ length l → length (drop n l) + n ≡ length l
length-drop zero l h = omega arith
length-drop (suc n) [] h = absurd (omega arith)
length-drop (suc n) (x ∷ l) h = omega (arith, length-drop n l)

work_behind : Option Merge × List Change × State → ℕ
work_behind b = 3 * (2 * rows_left b.0 + length b.1) + rank b.2

work-batch : (s : Sync) → work (batch s).0 ≡ work s
unfolding work_behind
work-batch s = ap work_behind (batch-behind s)

pub hand_over_writing :
    (s : Sync)
    → s.merging ≡ none
    → IsWaiting (3 * length s.pushes + 1) (hand_over State.pending_write s)
unfolding hand_over
hand_over_writing s h =
    let t : Sync = record s { state = State.pending_write } in
    let b = batch-behind t in
    let w : work t ≡ 3 * length s.pushes + 1 = rw h (omega arith) in
    writing (batch t).1 refl (ap (λ x. x.2) b) (ap (λ x. x.0) b ∙ h)
      (omega (arith, work-batch t, w))

hand_over_merging :
    (s : Sync) (m : Merge)
    → s.merging ≡ some m
    → IsWaiting (3 * (2 * join_size m.join + length s.pushes) + 3) (hand_over State.merging s)
unfolding hand_over
hand_over_merging s m h =
    let t : Sync = record s { state = State.merging } in
    let b = batch-behind t in
    let w : work t ≡ 3 * (2 * join_size m.join + length s.pushes) + 3 = rw h (omega arith) in
    merging (batch t).1 refl (ap (λ x. x.2) b) m (ap (λ x. x.0) b ∙ h)
      (omega (arith, work-batch t, w))

pub send_chunk_pushing :
    (s : Sync)
    → s.merging ≡ none
    → 0 < length s.pushes
    → IsWaiting (3 * length s.pushes) (send_chunk s)
unfolding send_chunk
send_chunk_pushing s h e =
    let size = min (length s.pushes) push_chunk in
    let w : 3 * (2 * rows_left s.merging + length (drop size s.pushes)) + 2 ≤ 3 * length s.pushes =
      rw h (omega (arith, length-drop size s.pushes (omega arith))) in
    pushing (take size s.pushes) refl refl h w

step-IsWaiting : (s : Sync) → s.merging ≡ none → IsWaiting (3 * length s.pushes + 1) (step s)
unfolding step
step-IsWaiting s h = go (List-cases s.pushes)
  where
    go :
        (s.pushes ≡ []) ⊎ ((x : Change) × (l : List Change) × (s.pushes ≡ x ∷ l))
        → IsWaiting (3 * length s.pushes + 1) (step s)
    go (inl e) =
        let empty : is_empty s.pushes ≡ true = rw e refl in rw empty (hand_over_writing s h)
    go (inr (x, l, e)) =
        let full : is_empty s.pushes ≡ false = rw e refl in
        let some_left : 0 < length s.pushes = rw e (omega arith) in
        rw full (IsWaiting-mono (send_chunk s) (omega arith) (send_chunk_pushing s h some_left))

finish-IsWaiting :
    (s : Sync) (m : Merge)
    → s.merging ≡ some m
    → IsWaiting (3 * length s.pushes + 1) (finish_merge s.merging s)
unfolding finish_merge
finish-IsWaiting s m h =
    rw h (step-IsWaiting (record s { merging = none; next_checkpoint = some m.checkpoint }) refl)

-- A merged candidate adds one change at most.
length-derive_change :
    (kind : Option ChangeKind) (s : Sync)
    → (length (derive_change kind s).pushes ≤ length s.pushes + 1)
      × ((derive_change kind s).merging ≡ s.merging)
unfolding derive_change
length-derive_change none s = (omega arith, refl)
length-derive_change (some k) s = (omega (arith, length-append s.pushes (new k ∷ [])), refl)
  where
    new : ChangeKind → Change
    new k = new_change s.collection k

merge_one-bounds :
    (c : Candidate) (s : Sync)
    → (length (merge_one c s).pushes ≤ length s.pushes + 1) × ((merge_one c s).merging ≡ s.merging)
unfolding merge_one
merge_one-bounds c s =
    let same = merge-frame c s in
    let one = length-derive_change (merge c s).1 (merge c s).0 in
    let pushes : (merge c s).0.pushes ≡ s.pushes = ap (λ (t : Sync). t.pushes) same in
    (rw pushes at one.0, one.1 ∙ ap (λ (t : Sync). t.merging) same)

-- The bound on the work left behind a merge of the rows of `m`.
abbrev pub merge_bound : Sync → Merge → ℕ
merge_bound s m = 3 * (2 * join_size m.join + length s.pushes) + 1

advance_lem :
    (s : Sync) (m : Merge) (r : Merge × Option Candidate)
    → s.merging ≡ some m
    → next_candidate m ≡ r
    → advance s ≡ (record s { merging = some r.0 }, r.1)
unfolding advance
advance_lem s m r h e = rw (h, advance_of) (rw e)

pub merge_within-IsWaiting :
    (n : ℕ) (s : Sync) (m : Merge)
    → s.merging ≡ some m
    → join_size m.join ≤ n
    → IsWaiting (merge_bound s m) (merge_within n s)
unfolding merge_within
merge_within-IsWaiting zero s m h b =
    IsWaiting-mono (finish_merge s.merging s) (omega arith) (finish-IsWaiting s m h)
merge_within-IsWaiting (suc n) s m h b = go (next_candidate m) refl (merge_within-IsWaiting n)
  where
    go :
        (r : Merge × Option Candidate)
        → next_candidate m ≡ r
        → ((t : Sync) (l : Merge)
            → t.merging ≡ some l
            → join_size l.join ≤ n
            → IsWaiting (merge_bound t l) (merge_within n t))
        → IsWaiting (merge_bound s m) (merge_within (suc n) s)
    go (m', none) e ih =
        let t : Sync = record s { merging = some m' } in
        rw (advance_lem s m (m', none) h e)
          (IsWaiting-mono (finish_merge t.merging t) (omega arith) (finish-IsWaiting t m' refl))
    go (m', some c) e ih =
        let t : Sync = record s { merging = some m' } in
        let merged = merge_one c t in
        let bounds = merge_one-bounds c t in
        let less = next_candidate-size m m' c e in
        rw (advance_lem s m (m', some c) h e)
          (elim (Bool-cases (leb write_chunk (length merged.writes))) [
            | inl full ↦
                rw (full, merge_round)
                  (IsWaiting-mono (hand_over State.merging merged) (omega (arith, less, bounds.0))
                    (hand_over_merging merged m' bounds.1))
            | inr room ↦
                rw (room, merge_round)
                  (IsWaiting-mono (merge_within n merged) (omega (arith, less, bounds.0))
                    (ih merged m' bounds.1 (omega arith)))
          ])
