-- ===== src/Sync/Run/Idle.antt =====
-- src/sync.rs, `next_candidate`: the walk between sides that agree.
use io_replica.Base.{
  ℕ, zero, suc, ◌≡◌, ◌≤◌, refl, sym, ◌∙◌, ◌⊎◌, Ordering, Bool, true, false, Option, none, some,
  List, [], ◌∷◌, arith, All, text_eq,
}
use io_replica.Base.Strings.{cmp, cmp_refl}
use io_replica.Base.Map
use io_replica.Base.Map.{Map, get, from_entries}
use io_replica.Base.Set.{Set, contains}
use io_replica.Placement.{Handle, Placement, status_eq, clean}
use io_replica.Remote.{RemoteItem}
use io_replica.Sync.Engine.{Merge, Join, Candidate}
use io_replica.Sync.Join.{next, narrow, kept, join_size}
use io_replica.Sync.Join.Order.{keyed}
use io_replica.Sync.Join.Pairs.{
  walk, find_candidate, paired, find_candidate-walk, IsAscending, walk-IsAscending,
}
use io_replica.Sync.Merge.Quiet.{IsSettled}

-- What the two sides hold under a handle calls for nothing: neither holds anything, or a settled
-- row is listed, or a delta is silent about a clean row.
pub data IsIdle (complete : Bool) (vanished : Set) (h : Handle) (local : Option Placement)
    (remote : Option RemoteItem) : Type 0 where
  absent : local ≡ none → remote ≡ none → IsIdle complete vanished h local remote
  agreed :
      (p : Placement) (item : RemoteItem)
      → local ≡ some p
      → remote ≡ some item
      → IsSettled p item
      → (complete ≡ true) ⊎ (contains vanished h ≡ false)
      → IsIdle complete vanished h local remote
  silent :
      (p : Placement)
      → local ≡ some p
      → remote ≡ none
      → p.status ≡ clean
      → complete ≡ false
      → contains vanished h ≡ false
      → IsIdle complete vanished h local remote

-- The search for candidates passes this one over, or the merge has nothing to do for it.
pub data IsQuiet (m : Merge) (c : Candidate) : Type 0 where
  passed : kept m c ≡ none → IsQuiet m c
  settled :
      (p : Placement) (item : RemoteItem)
      → kept m c ≡ some c
      → c.local ≡ some p
      → c.remote ≡ some item
      → IsSettled p item
      → IsQuiet m c

pub IsIdle-IsQuiet :
    (m : Merge) (c : Candidate) (local : Option Placement) (remote : Option RemoteItem)
    → IsIdle m.complete m.vanished c.handle local remote
    → paired c.handle local remote ≡ some c
    → IsQuiet m c
unfolding narrow
IsIdle-IsQuiet m c local remote (absent e f) h = ground arith
IsIdle-IsQuiet m c local remote (agreed p item e f s k) h =
    settled p item (ground arith) (ground arith) (ground arith) s
IsIdle-IsQuiet m c local remote (silent p e f s k v) h = passed (ground arith)

pub found_above :
    (h k : Handle) (l : List Candidate) (d : Candidate)
    → All (λ c. cmp h c.handle ≡ Ordering.lt) l
    → find_candidate k l ≡ some d
    → cmp h d.handle ≡ Ordering.lt
found_above h k [] d a e = cc
found_above h k (c ∷ l) d (a, b) e = ground (arith, found_above h k l d b)

pub walk_at_end : (n : ℕ) (j : Join) → next j ≡ none → walk n j ≡ []
unfolding walk
walk_at_end zero j e = refl
walk_at_end (suc n) j e = ground (arith, e)

pub walk-next :
    (n : ℕ) (j : Join) (c : Candidate) (j' : Join)
    → next j ≡ some (c, j')
    → walk (suc n) j ≡ c ∷ walk n j'
unfolding walk
walk-next n j c j' e = ground (arith, e)

-- What holds of the candidate found under each handle holds of all.
pub of_each_found {ℓ} :
    (P : Candidate → Type ℓ) (l : List Candidate)
    → IsAscending l
    → ((c : Candidate) → find_candidate c.handle l ≡ some c → P c)
    → All P l
of_each_found P [] a f = tt
of_each_found P (c ∷ l) (above, a) f = (
  f c (ground arith),
  of_each_found P l a (λ d e.
      f d (ground (arith, e, found_above c.handle d.handle l d above e, cmp_refl c.handle))),
)

-- A walk between sides that are idle under every handle meets quiet candidates only.
pub walk-IsQuiet :
    (n : ℕ) (m : Merge)
    → join_size m.join ≤ n
    → Map.IsSorted m.join.local
    → Map.IsSorted (keyed m.join.remote)
    → ((h : Handle)
        → IsIdle m.complete m.vanished h (get h m.join.local) (get h (keyed m.join.remote)))
    → All (IsQuiet m) (walk n m.join)
walk-IsQuiet n m b p q idle =
    of_each_found (IsQuiet m) (walk n m.join) (walk-IsAscending n m.join p q) (λ c e.
      IsIdle-IsQuiet m c (get c.handle m.join.local) (get c.handle (keyed m.join.remote))
        (idle c.handle) (sym (find_candidate-walk n c.handle m.join b p q) ∙ e))
