-- ===== src/Base/Set.antt =====
-- `BTreeSet` of texts: the members in ascending order.
pub mod Laws
use Prim.Native.Nat.{Ordering}
use mathlib.Core.Path.{◌≡◌, refl}
use mathlib.Core.Bool.{Bool, false, ◌||◌, ◌&&◌, not}
use mathlib.Core.List.{List, [], ◌∷◌, ◌++◌}
use native.Mathlib.Omega.{arith}
use io_replica.Base.Equality.{◌==◌, if◌then◌else◌}
use io_replica.Base.Lists.{All, filter}
use io_replica.Base.Strings.{Text, text_eq, cmp, eq_of_cmp}

abbrev pub Set : Type 0
Set = List Text

unfoldable pub contains : Set → Text → Bool
contains [] a = false
contains (x ∷ s) a = a == x || contains s a

unfoldable pub insert : Text → Set → Set
insert a [] = a ∷ []
insert a (x ∷ s) = elim (cmp a x) [
  | Ordering.lt ↦ a ∷ x ∷ s
  | Ordering.eq ↦ x ∷ s
  | Ordering.gt ↦ x ∷ insert a s
]

unfoldable pub remove : Text → Set → Set
remove a [] = []
remove a (x ∷ s) = let rest = remove a s in if a == x then rest else x ∷ rest

-- `collect`.
unfoldable pub from_list_onto : Set → List Text → Set
from_list_onto s [] = s
from_list_onto s (a ∷ l) = from_list_onto (insert a s) l

unfoldable pub from_list : List Text → Set
unfolding from_list_onto insert
from_list l = from_list_onto [] l

unfoldable pub intersection : Set → Set → Set
unfolding contains
intersection s t = filter (λ a. contains t a) s

unfoldable pub difference : Set → Set → Set
unfolding contains
difference s t = filter (λ a. not (contains t a)) s

abbrev pub IsAbove : Text → Set → Type 0
IsAbove a = All (λ x. cmp a x ≡ Ordering.lt)

abbrev pub IsSorted : Set → Type 0
IsSorted [] = Unit
IsSorted (a ∷ s) = IsAbove a s × IsSorted s

pub contains-insert : (b a : Text) (s : Set) → contains (insert a s) b ≡ (b == a || contains s b)
unfolding contains insert
contains-insert b a [] = refl
contains-insert b a (x ∷ s) = ground (arith, contains-insert b a s, eq_of_cmp a x)

pub contains-remove :
    (b a : Text) (s : Set) → contains (remove a s) b ≡ (not (b == a) && contains s b)
unfolding contains remove
contains-remove b a [] = ground arith
contains-remove b a (x ∷ s) = ground (arith, contains-remove b a s)

pub contains-append :
    (b : Text) (s t : List Text) → contains (s ++ t) b ≡ (contains s b || contains t b)
unfolding contains
contains-append b [] t = refl
contains-append b (x ∷ s) t = ground (arith, contains-append b s t)

pub contains-filter :
    (b : Text) (p : Text → Bool) (s : Set) → contains (filter p s) b ≡ (contains s b && p b)
unfolding contains
contains-filter b p [] = refl
contains-filter b p (x ∷ s) = ground (arith, contains-filter b p s)

pub contains-from_list : (b : Text) (l : List Text) → contains (from_list l) b ≡ contains l b
unfolding from_list contains
contains-from_list b l = ground (arith, go [] l)
  where
    go :
        (s : Set) (l : List Text) → contains (from_list_onto s l) b ≡ (contains s b || contains l b)
    go s [] = ground arith
    go s (a ∷ l) = ground (arith, go (insert a s) l, contains-insert b a s)
