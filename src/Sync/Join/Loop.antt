-- ===== src/Sync/Join/Loop.antt =====
-- src/sync.rs, `next_candidate`: the loop without its count of rounds.
use io_replica.Base.{
  ℕ, zero, suc, ◌+◌, ◌≤◌, ◌<◌, ◌≡◌, refl, ◌∙◌, Option, none, some, List, [], ◌∷◌, arith, length,
}
use io_replica.Base.Map.{Map}
use io_replica.Placement.{Placement}
use io_replica.Remote.{RemoteItem}
use io_replica.Sync.Engine.{Join, Merge, Candidate}
use io_replica.Sync.Join.{next, next_of, join_size, kept, next_within, next_candidate}

next_of-size :
    (local : Map Placement) (remote : List RemoteItem) (c : Candidate) (j : Join)
    → next_of local remote ≡ some (c, j)
    → join_size j + 1 ≤ length local + length remote
unfolding next_of
next_of-size [] [] c j h = cc
next_of-size ((k, p) ∷ local) [] c j h = ground arith
next_of-size [] (i ∷ remote) c j h = ground arith
next_of-size ((k, p) ∷ local) (i ∷ remote) c j h = ground arith

-- Each call of the iterator takes a row at least, and only an empty join ends it.
pub next-size :
    (j : Join) (c : Candidate) (j' : Join) → next j ≡ some (c, j') → join_size j' < join_size j
unfolding next
next-size j c j' h = omega (arith, next_of-size j.local j.remote c j' h)

next_of_empty :
    (local : Map Placement) (remote : List RemoteItem)
    → length local + length remote ≤ 0
    → next_of local remote ≡ none
unfolding next_of
next_of_empty [] [] h = refl
next_of_empty (e ∷ local) remote h = absurd (omega arith)
next_of_empty [] (i ∷ remote) h = absurd (omega arith)

pub next_empty : (j : Join) → join_size j ≤ 0 → next j ≡ none
unfolding next
next_empty j h = next_of_empty j.local j.remote h

-- Rounds beyond the rows of the join are never run.
next_within_enough :
    (n k : ℕ) (m : Merge)
    → join_size m.join ≤ n
    → join_size m.join ≤ k
    → next_within n m ≡ next_within k m
unfolding next_within
next_within_enough zero zero m h k = refl
next_within_enough zero (suc k) m h g = rw (next_empty m.join h, next_within)
next_within_enough (suc n) zero m h g = rw (next_empty m.join g, next_within)
next_within_enough (suc n) (suc k) m h g = go (next m.join) refl (next_within_enough n k)
  where
    go :
        (o : Option (Candidate × Join))
        → next m.join ≡ o
        → ((m' : Merge)
            → join_size m'.join ≤ n
            → join_size m'.join ≤ k
            → next_within n m' ≡ next_within k m')
        → next_within (suc n) m ≡ next_within (suc k) m
    go none e ih = rw (e, next_within)
    go (some (c, j)) e ih =
        let less = next-size m.join c j e in
        let same = ih (record m { join = j }) (omega arith) (omega arith) in ground (arith, same)

-- The search, which counts its rounds, is the unbounded loop of the source.
pub next_candidate-loop :
    (m : Merge)
    → next_candidate m ≡ elim (next m.join) [
      | none ↦ (m, none)
      | some (c, j) ↦ elim (kept m c) [
        | none ↦ next_candidate (record m { join = j })
        | some c' ↦ (record m { join = j }, some c')
      ]
    ]
unfolding next_candidate
next_candidate-loop m = go (next m.join) refl
  where
    size : ℕ
    size = join_size m.join

    more : next_within size m ≡ next_within (suc size) m
    more = next_within_enough size (suc size) m (omega arith) (omega arith)

    go :
        (o : Option (Candidate × Join))
        → next m.join ≡ o
        → next_candidate m ≡ elim (next m.join) [
          | none ↦ (m, none)
          | some (c, j) ↦ elim (kept m c) [
            | none ↦ next_candidate (record m { join = j })
            | some c' ↦ (record m { join = j }, some c')
          ]
        ]
    go none e = more ∙ rw (e, next_within)
    go (some (c, j)) e =
        let less = next-size m.join c j e in
        let same =
          next_within_enough size (join_size j) (record m { join = j }) (omega arith)
            (omega arith) in
        more ∙ ground (arith, same)

next_within-size :
    (n : ℕ) (m m' : Merge) (c : Candidate)
    → next_within n m ≡ (m', some c)
    → join_size m'.join < join_size m.join
unfolding next_within
next_within-size zero m m' c h = cc
next_within-size (suc n) m m' c h = go (next m.join) refl (next_within-size n)
  where
    go :
        (o : Option (Candidate × Join))
        → next m.join ≡ o
        → ((l l' : Merge) (d : Candidate)
            → next_within n l ≡ (l', some d)
            → join_size l'.join < join_size l.join)
        → join_size m'.join < join_size m.join
    go none e ih = ground arith
    go (some (d, j)) e ih =
        let less = next-size m.join d j e in ground (arith, ih (record m { join = j }) m' c)

-- A candidate found leaves fewer rows to walk.
pub next_candidate-size :
    (m m' : Merge) (c : Candidate)
    → next_candidate m ≡ (m', some c)
    → join_size m'.join < join_size m.join
unfolding next_candidate
next_candidate-size m m' c h = next_within-size (join_size m.join) m m' c h
