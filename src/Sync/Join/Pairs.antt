-- ===== src/Sync/Join/Pairs.antt =====
-- src/sync.rs, `Join::next`: the candidates of a whole walk.
use io_replica.Base.{
  ℕ, zero, suc, ◌+◌, ◌≤◌, ◌≡◌, refl, Ordering, Option, none, some, List, [], ◌∷◌, arith, All,
  length, text_eq, ◌==◌, if◌then◌else◌,
}
use io_replica.Base.Strings.{cmp, eq_of_cmp, cmp_flip}
use io_replica.Base.Map
use io_replica.Base.Map.{Map, get, get_of_IsAbove}
use io_replica.Placement.{Handle, Placement}
use io_replica.Remote.{RemoteItem}
use io_replica.Sync.Engine.{Join, Candidate}
use io_replica.Sync.Join.{next, join_size}
use io_replica.Sync.Join.Order.{keyed}

-- All that the iterator yields in the given number of calls.
unfoldable pub walk : ℕ → Join → List Candidate
unfolding next
walk zero j = []
walk (suc n) j = elim (next j) [ none ↦ [] | some (c, j') ↦ c ∷ walk n j' ]

abbrev pub find_candidate : Handle → List Candidate → Option Candidate
find_candidate h [] = none
find_candidate h (c ∷ l) = if h == c.handle then some c else find_candidate h l

-- The candidate of a handle, by what either side holds under it.
abbrev pub paired : Handle → Option Placement → Option RemoteItem → Option Candidate
paired h none none = none
paired h (some p) r = some (record { handle = h; local = some p; remote = r })
paired h none (some i) = some (record { handle = h; local = none; remote = some i })

-- Nothing is held under a handle below the first one.
get_below {ℓ} :
    {V : Type ℓ} (h k : Handle) (v : V) (m : Map V)
    → cmp h k ≡ Ordering.lt
    → Map.IsAbove k m
    → get h ((k, v) ∷ m) ≡ none
get_below h k v m e a = get_of_IsAbove h ((k, v) ∷ m) (e, Map.IsAbove-trans h k m e a)

walk_lists :
    (n : ℕ) (h : Handle) (local : Map Placement) (remote : List RemoteItem)
    → length local + length remote ≤ n
    → Map.IsSorted local
    → Map.IsSorted (keyed remote)
    → find_candidate h (walk n (record { local = local; remote = remote }))
      ≡ paired h (get h local) (get h (keyed remote))
unfolding walk get
walk_lists zero h [] [] b p q = refl
walk_lists zero h (x ∷ local) remote b p q = absurd (omega arith)
walk_lists zero h [] (x ∷ remote) b p q = absurd (omega arith)
walk_lists (suc n) h [] [] b p q = refl
walk_lists (suc n) h ((k, x) ∷ local) [] b p q =
    ground (arith, walk_lists n h local [] (omega arith) p.1 tt)
walk_lists (suc n) h [] (i ∷ remote) b p q =
    ground (arith, walk_lists n h [] remote (omega arith) tt q.1)
walk_lists (suc n) h ((k, x) ∷ local) (i ∷ remote) b p q = ground (
  arith,
  eq_of_cmp k i.handle,
  cmp_flip k i.handle,
  get_below k i.handle i (keyed remote),
  get_below i.handle k x local,
  walk_lists n h local (i ∷ remote) (omega arith) p.1 q,
  walk_lists n h ((k, x) ∷ local) remote (omega arith) p q.1,
  walk_lists n h local remote (omega arith) p.1 q.1,
)

-- For two sides in strict handle order and at least as many calls as rows, the iterator yields
-- under each handle the candidate that pairs what either side holds there, and none where
-- neither holds anything.
pub find_candidate-walk :
    (n : ℕ) (h : Handle) (j : Join)
    → join_size j ≤ n
    → Map.IsSorted j.local
    → Map.IsSorted (keyed j.remote)
    → find_candidate h (walk n j) ≡ paired h (get h j.local) (get h (keyed j.remote))
find_candidate-walk n h j b p q = walk_lists n h j.local j.remote b p q

-- Every handle of a list of candidates lies above the given one.
abbrev AllAbove : Handle → List Candidate → Type 0
AllAbove h = All (λ c. cmp h c.handle ≡ Ordering.lt)

-- The candidates come in strictly ascending handle order, so none comes twice.
abbrev pub IsAscending : List Candidate → Type 0
IsAscending [] = Unit
IsAscending (c ∷ l) = All (λ d. cmp c.handle d.handle ≡ Ordering.lt) l × IsAscending l

walk_lists-AllAbove :
    (n : ℕ) (h : Handle) (local : Map Placement) (remote : List RemoteItem)
    → Map.IsAbove h local
    → Map.IsAbove h (keyed remote)
    → AllAbove h (walk n (record { local = local; remote = remote }))
unfolding walk
walk_lists-AllAbove zero h local remote p q = tt
walk_lists-AllAbove (suc n) h [] [] p q = tt
walk_lists-AllAbove (suc n) h ((k, x) ∷ local) [] p q =
    (p.0, walk_lists-AllAbove n h local [] p.1 tt)
walk_lists-AllAbove (suc n) h [] (i ∷ remote) p q = (q.0, walk_lists-AllAbove n h [] remote tt q.1)
walk_lists-AllAbove (suc n) h ((k, x) ∷ local) (i ∷ remote) p q = ground (
  arith,
  walk_lists-AllAbove n h local (i ∷ remote) p.1 q,
  walk_lists-AllAbove n h ((k, x) ∷ local) remote p q.1,
  walk_lists-AllAbove n h local remote p.1 q.1,
)

walk_lists-IsAscending :
    (n : ℕ) (local : Map Placement) (remote : List RemoteItem)
    → Map.IsSorted local
    → Map.IsSorted (keyed remote)
    → IsAscending (walk n (record { local = local; remote = remote }))
unfolding walk
walk_lists-IsAscending zero local remote p q = tt
walk_lists-IsAscending (suc n) [] [] p q = tt
walk_lists-IsAscending (suc n) ((k, x) ∷ local) [] p q =
    (walk_lists-AllAbove n k local [] p.0 tt, walk_lists-IsAscending n local [] p.1 tt)
walk_lists-IsAscending (suc n) [] (i ∷ remote) p q =
    (walk_lists-AllAbove n i.handle [] remote tt q.0, walk_lists-IsAscending n [] remote tt q.1)
walk_lists-IsAscending (suc n) ((k, x) ∷ local) (i ∷ remote) p q = ground (
  arith,
  eq_of_cmp k i.handle,
  cmp_flip k i.handle,
  λ (e : cmp k i.handle ≡ Ordering.lt).
      walk_lists-AllAbove n k local (i ∷ remote) p.0
        (e, Map.IsAbove-trans k i.handle (keyed remote) e q.0),
  λ (e : cmp i.handle k ≡ Ordering.lt).
      walk_lists-AllAbove n i.handle ((k, x) ∷ local) remote
        (e, Map.IsAbove-trans i.handle k local e p.0) q.0,
  λ (e : k ≡ i.handle). walk_lists-AllAbove n k local remote p.0 (rw e q.0),
  walk_lists-IsAscending n local (i ∷ remote) p.1 q,
  walk_lists-IsAscending n ((k, x) ∷ local) remote p q.1,
  walk_lists-IsAscending n local remote p.1 q.1,
)

-- For two sides in strict handle order, the candidates come in strictly ascending handle order.
pub walk-IsAscending :
    (n : ℕ) (j : Join)
    → Map.IsSorted j.local
    → Map.IsSorted (keyed j.remote)
    → IsAscending (walk n j)
walk-IsAscending n j p q = walk_lists-IsAscending n j.local j.remote p q
