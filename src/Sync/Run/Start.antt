-- ===== src/Sync/Run/Start.antt =====
-- src/sync.rs, `open_merge`: the walk at its start, over a collection that nothing was changed of
-- here.
use mathlib.Core.Logic.{if_pos, if_neg}
use io_replica.Base.{
  ◌≡◌, ◌≢◌, refl, sym, ◌∙◌, inl, none, some, Option, List, [], ◌∷◌, arith, All, text_eq,
}
use io_replica.Base.Map
use io_replica.Base.Map.{Map, get, from_entries}
use io_replica.Flags.{unknown}
use io_replica.Flags.Laws.{IsOrdered}
use io_replica.Placement.{Handle, CollectionId, Placement}
use io_replica.Remote.{RemoteItem}
use io_replica.Sync.Engine.{Merge, Candidate}
use io_replica.Sync.Join.{prepare, join_size}
use io_replica.Sync.Join.Order.{keyed, prepare-IsSorted, get-prepare}
use io_replica.Sync.Join.Pairs.{walk, find_candidate, paired, find_candidate-walk, walk-IsAscending}
use io_replica.Sync.Merge.Pulled.{IsPlainSide, IsKnownSide}
use io_replica.Sync.Run.Idle.{of_each_found}
use io_replica.Sync.Run.Course.{IsReady, IsOnCourse, View}

pub paired-some :
    (h : Handle) (local : Option Placement) (remote : Option RemoteItem) (c : Candidate)
    → paired h local remote ≡ some c
    → (c.handle ≡ h) × (c.local ≡ local) × (c.remote ≡ remote)
paired-some h none none c e = cc
paired-some h (some p) remote c e = ground arith
paired-some h none (some i) c e = ground arith

pub paired-none :
    (h : Handle) (local : Option Placement) (remote : Option RemoteItem)
    → paired h local remote ≡ none
    → (local ≡ none) × (remote ≡ none)
paired-none h none none e = (refl, refl)
paired-none h (some p) remote e = cc
paired-none h none (some i) e = cc

-- The remote reports flags that it knows.
abbrev pub HasFlags : RemoteItem → Type 0
HasFlags item = (item.flags ≢ unknown) × IsOrdered item.flags

pub known_side :
    (h : Handle) (items : List RemoteItem)
    → All HasFlags items
    → IsKnownSide h (get h (keyed items))
unfolding get
known_side h [] a = tt
known_side h (item ∷ items) (f, a) = elim (text_eq.dec h item.handle) [
  | yes e ↦ rw (if_pos _ e) (record { flags = f.0; ordered = f.1; handle = sym e })
  | no n ↦ rw (if_neg _ n) (known_side h items a)
]

-- The walk of a merge at its start.
pub start-IsOnCourse :
    (collection : CollectionId) (m : Merge) (items : List RemoteItem) (view : View)
    → m.join.remote ≡ prepare items
    → Map.IsSorted m.join.local
    → ((h : Handle) → get h m.join.local ≡ view h)
    → ((h : Handle) → IsPlainSide collection h (view h))
    → All HasFlags items
    → IsOnCourse collection items view (walk (join_size m.join) m.join)
start-IsOnCourse collection m items view q p same plain flags =
    let sorted : Map.IsSorted (keyed m.join.remote) = rw q (prepare-IsSorted items) in
    let found : (h : Handle)
        → find_candidate h (walk (join_size m.join) m.join)
          ≡ paired h (view h) (get h (keyed items)) =
      λ h.
        find_candidate-walk (join_size m.join) h m.join (omega arith) p sorted
        ∙ rw (q, same h, get-prepare h items) refl in
    record {
      ready =
          of_each_found (IsReady collection items view) (walk (join_size m.join) m.join)
            (walk-IsAscending (join_size m.join) m.join p sorted)
            λ c e.
              let sides =
                paired-some c.handle (view c.handle) (get c.handle (keyed items)) c
                  (sym (found c.handle) ∙ e) in
              record {
                local = sides.1;
                remote = sides.2;
                plain = rw sides.1 (plain c.handle);
                known = rw sides.2 (known_side c.handle items flags);
              };
      rest = λ h e. inl (paired-none h (view h) (get h (keyed items)) (sym (found h) ∙ e));
    }
