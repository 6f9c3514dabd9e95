-- ===== src/Sync/Run/Quiescent.antt =====
-- src/sync.rs under the driver of src/client.rs: a sync between sides that agree.
use io_replica.Sync.Run.Idle.{IsQuiet, passed, settled, walk-next}
use io_replica.Base.{
  ℕ, zero, suc, ◌≡◌, ◌≤◌, refl, ap, ◌∙◌, false, Option, none, some, List, [], ◌∷◌, arith, All,
  length, leb, text_eq,
}
use io_replica.Placement.{Placement, status_eq}
use io_replica.Remote.{RemoteItem}
use io_replica.Sync.Engine.{Sync, Merge, Join, Candidate}
use io_replica.Sync.Join.{next, narrow, kept, join_size, next_candidate}
use io_replica.Sync.Join.Pairs.{walk}
use io_replica.Sync.Join.Loop.{next_candidate-loop, next_empty, next-size}
use io_replica.Sync.Run.{
  write_chunk, merge_within, merge_one, derive_change, advance, advance_of, finish_merge, step,
  merge_round, Outcome,
}
use io_replica.Sync.Merge.Quiet.{IsSettled, merge_settled}

-- What the loop of `merge_step` does where the join is empty.
pub merge_within_at_end :
    (k : ℕ) (s : Sync) (m : Merge)
    → s.merging ≡ some m
    → next m.join ≡ none
    → merge_within k s ≡ step (record s { merging = none; next_checkpoint = some m.checkpoint })
unfolding merge_within finish_merge
merge_within_at_end zero s m h e = rw h refl
merge_within_at_end (suc k) s m h e =
    let found : next_candidate m ≡ (m, none) = next_candidate-loop m ∙ rw e refl in
    let advanced : advance s ≡ (record s { merging = some m }, none) =
      unfold advance advance_of in rw (h, found) refl in
    rw advanced refl

advance_passed :
    (s : Sync) (m : Merge) (c : Candidate) (j : Join)
    → s.merging ≡ some m
    → next m.join ≡ some (c, j)
    → kept m c ≡ none
    → advance s ≡ advance (record s { merging = some (record m { join = j }) })
unfolding advance advance_of
advance_passed s m c j h e k =
    let found : next_candidate m ≡ next_candidate (record m { join = j }) =
      next_candidate-loop m ∙ ground (arith, e, k) in
    rw (h, found) refl

pub advance_found :
    (s : Sync) (m : Merge) (c : Candidate) (j : Join)
    → s.merging ≡ some m
    → next m.join ≡ some (c, j)
    → kept m c ≡ some c
    → advance s ≡ (record s { merging = some (record m { join = j }) }, some c)
unfolding advance advance_of
advance_found s m c j h e k =
    let found : next_candidate m ≡ (record m { join = j }, some c) =
      next_candidate-loop m ∙ ground (arith, e, k) in
    rw (h, found) refl

-- A settled candidate takes a round of the loop, which does nothing else.
merge_within_settled :
    (k : ℕ) (s : Sync) (m : Merge) (c : Candidate) (j : Join) (p : Placement) (item : RemoteItem)
    → s.merging ≡ some m
    → leb write_chunk (length s.writes) ≡ false
    → next m.join ≡ some (c, j)
    → kept m c ≡ some c
    → c.local ≡ some p
    → c.remote ≡ some item
    → IsSettled p item
    → merge_within (suc k) s ≡ merge_within k (record s { merging = some (record m { join = j }) })
unfolding merge_within
merge_within_settled k s m c j p item h w e kp l r calm =
    let t : Sync = record s { merging = some (record m { join = j }) } in
    let advanced = advance_found s m c j h e kp in
    let merged : merge_one c t ≡ t =
      unfold merge_one derive_change in rw (merge_settled c t p item l r calm) refl in
    rw (advanced, merge_round) (ground (arith, merged, w))

-- Whether a candidate is quiet does not depend on how far the join has come.
pub IsQuiet-join :
    (m : Merge) (j : Join) (c : Candidate) → IsQuiet m c → IsQuiet (record m { join = j }) c
unfolding narrow
IsQuiet-join m j c (passed k) = passed k
IsQuiet-join m j c (settled p item k l r calm) = settled p item k l r calm

quiet_rest :
    (m : Merge) (j : Join) (l : List Candidate)
    → All (IsQuiet m) l
    → All (IsQuiet (record m { join = j })) l
quiet_rest m j [] q = tt
quiet_rest m j (c ∷ l) (q, r) = (IsQuiet-join m j c q, quiet_rest m j l r)

abbrev pub finished : Sync → Merge → Sync × Outcome
finished s m = step (record s { merging = none; next_checkpoint = some m.checkpoint })

-- What the loop of `merge_step` comes to over as many quiet candidates as are left.
abbrev pub Finishes : ℕ → Type 0
Finishes n =
    (k : ℕ) (s : Sync) (m : Merge)
    → s.merging ≡ some m
    → join_size m.join ≤ n
    → join_size m.join ≤ k
    → leb write_chunk (length s.writes) ≡ false
    → All (IsQuiet m) (walk n m.join)
    → merge_within k s ≡ finished s m

-- A quiet candidate takes at most a round of the loop, which does nothing else.
pub merge_within_quiet :
    (k : ℕ) (s : Sync) (m : Merge) (c : Candidate) (j : Join)
    → s.merging ≡ some m
    → join_size m.join ≤ suc k
    → leb write_chunk (length s.writes) ≡ false
    → next m.join ≡ some (c, j)
    → IsQuiet m c
    → (r : ℕ) × (join_size j ≤ r)
      × (merge_within (suc k) s
          ≡ merge_within r (record s { merging = some (record m { join = j }) }))
merge_within_quiet k s m c j h b w e (passed kp) =
    let less = next-size m.join c j e in
    (
      suc k,
      omega arith,
      unfold merge_within in ap (merge_round (merge_within k)) (advance_passed s m c j h e kp),
    )
merge_within_quiet k s m c j h b w e (settled p item kp l r t) =
    let less = next-size m.join c j e in
    (k, omega arith, merge_within_settled k s m c j p item h w e kp l r t)

-- The loop of `merge_step` over quiet candidates comes to its end with nothing done.
pub merge_within-Finishes : (n : ℕ) → Finishes n
merge_within-Finishes n zero s m h b c w q = merge_within_at_end zero s m h (next_empty m.join c)
merge_within-Finishes zero (suc k) s m h b c w q =
    merge_within_at_end (suc k) s m h (next_empty m.join b)
merge_within-Finishes (suc n) (suc k) s m h b c w q =
    go (next m.join) refl (merge_within-Finishes n)
  where
    rest :
        (d : Candidate) (j : Join)
        → next m.join ≡ some (d, j)
        → IsQuiet m d × All (IsQuiet m) (walk n j)
    rest d j e = let split = walk-next n m.join d j e in rw split at q

    go :
        (o : Option (Candidate × Join))
        → next m.join ≡ o
        → Finishes n
        → merge_within (suc k) s ≡ finished s m
    go none e ih = merge_within_at_end (suc k) s m h e
    go (some (d, j)) e ih =
        let found = rest d j e in
        let less = next-size m.join d j e in
        let round = merge_within_quiet k s m d j h c w e found.0 in
        round.2
        ∙ ih round.0 (record s { merging = some (record m { join = j }) }) (record m { join = j })
            refl (omega arith) round.1 w (quiet_rest m j (walk n j) found.1)
