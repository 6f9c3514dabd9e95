-- ===== src/Base/Map.antt =====
-- `BTreeMap` over text keys: the entries in ascending key order.
use Prim.Native.Nat.{Ordering}
use mathlib.Core.Path.{◌≡◌, refl}
use mathlib.Core.Option.{Option, none, some}
use mathlib.Core.List.{List, [], ◌∷◌}
use native.Mathlib.Omega.{arith}
use io_replica.Base.Equality.{◌==◌, if◌then◌else◌}
use io_replica.Base.Lists.{All}
use io_replica.Base.Strings.{Text, text_eq, cmp, eq_of_cmp, cmp_refl, cmp_flip, cmp_trans}

abbrev pub Map {ℓ} : Type ℓ → Type ℓ
Map V = List (Text × V)

module _ {ℓ} {V : Type ℓ} where
  unfoldable pub get : Text → Map V → Option V
  get k [] = none
  get k ((j, v) ∷ m) = if k == j then some v else get k m

  unfoldable pub insert : Text → V → Map V → Map V
  insert k v [] = (k, v) ∷ []
  insert k v ((j, w) ∷ m) = elim (cmp k j) [
    | Ordering.lt ↦ (k, v) ∷ (j, w) ∷ m
    | Ordering.eq ↦ (k, v) ∷ m
    | Ordering.gt ↦ (j, w) ∷ insert k v m
  ]

  unfoldable pub remove : Text → Map V → Map V
  remove k [] = []
  remove k ((j, w) ∷ m) = let rest = remove k m in if k == j then rest else (j, w) ∷ rest

  -- `or_insert`: an entry that is there stays.
  unfoldable pub insert_new : Text → V → Map V → Map V
  unfolding get insert
  insert_new k v m = elim (get k m) [ none ↦ insert k v m | some _ ↦ m ]

  -- `collect`: a later entry replaces an earlier one of its key.
  unfoldable pub from_entries_onto : Map V → List (Text × V) → Map V
  from_entries_onto m [] = m
  from_entries_onto m ((k, v) ∷ l) = from_entries_onto (insert k v m) l

  unfoldable pub from_entries : List (Text × V) → Map V
  unfolding from_entries_onto insert
  from_entries l = from_entries_onto [] l

  -- Every key of the map lies above `k`.
  abbrev pub IsAbove : Text → Map V → Type 0
  IsAbove k = All (λ e. cmp k e.0 ≡ Ordering.lt)

  abbrev pub IsSorted : Map V → Type 0
  IsSorted [] = Unit
  IsSorted ((k, _) ∷ m) = IsAbove k m × IsSorted m

  pub get-insert :
      (j k : Text) (v : V) (m : Map V) → get j (insert k v m) ≡ (if j == k then some v else get j m)
  unfolding get insert
  get-insert j k v [] = refl
  get-insert j k v ((i, w) ∷ m) = ground (arith, get-insert j k v m, eq_of_cmp k i, cmp_refl k)

  pub get-remove :
      (j k : Text) (m : Map V) → get j (remove k m) ≡ (if j == k then none else get j m)
  unfolding get remove
  get-remove j k [] = ground arith
  get-remove j k ((i, w) ∷ m) = ground (arith, get-remove j k m)

  pub IsAbove-trans : (i k : Text) (m : Map V) → cmp i k ≡ Ordering.lt → IsAbove k m → IsAbove i m
  IsAbove-trans i k [] h a = tt
  IsAbove-trans i k ((j, _) ∷ m) h (p, a) = (cmp_trans i k j h p, IsAbove-trans i k m h a)

  pub insert-IsAbove :
      (i k : Text) (v : V) (m : Map V)
      → cmp i k ≡ Ordering.lt
      → IsAbove i m
      → IsAbove i (insert k v m)
  unfolding insert
  insert-IsAbove i k v [] h a = (h, tt)
  insert-IsAbove i k v ((j, _) ∷ m) h (p, a) = ground (arith, insert-IsAbove i k v m h a)

  pub insert-IsSorted : (k : Text) (v : V) (m : Map V) → IsSorted m → IsSorted (insert k v m)
  unfolding insert
  insert-IsSorted k v [] s = (tt, tt)
  insert-IsSorted k v ((j, w) ∷ m) (a, s) = ground (
    arith,
    eq_of_cmp k j,
    cmp_flip k j,
    IsAbove-trans k j m,
    insert-IsAbove j k v m,
    insert-IsSorted k v m s,
  )

  pub from_entries-IsSorted : (l : List (Text × V)) → IsSorted (from_entries l)
  unfolding from_entries
  from_entries-IsSorted l = go [] l tt
    where
      go : (m : Map V) (l : List (Text × V)) → IsSorted m → IsSorted (from_entries_onto m l)
      go m [] s = s
      go m ((k, v) ∷ l) s = go (insert k v m) l (insert-IsSorted k v m s)

  pub remove-IsAbove : (i k : Text) (m : Map V) → IsAbove i m → IsAbove i (remove k m)
  unfolding remove
  remove-IsAbove i k [] a = tt
  remove-IsAbove i k ((j, _) ∷ m) (p, a) = ground (arith, remove-IsAbove i k m a)

  pub remove-IsSorted : (k : Text) (m : Map V) → IsSorted m → IsSorted (remove k m)
  unfolding remove
  remove-IsSorted k [] s = tt
  remove-IsSorted k ((j, _) ∷ m) (a, s) =
      ground (arith, remove-IsAbove j k m a, remove-IsSorted k m s)

  -- Nothing below the first key is bound.
  pub get_of_IsAbove : (k : Text) (m : Map V) → IsAbove k m → get k m ≡ none
  unfolding get
  get_of_IsAbove k [] a = refl
  get_of_IsAbove k ((j, _) ∷ m) (p, a) = ground (arith, cmp_refl j, get_of_IsAbove k m a)
