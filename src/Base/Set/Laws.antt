-- ===== src/Base/Set/Laws.antt =====
-- The order of the members, under the operations of a set.
use Prim.Native.Nat.{Ordering}
use mathlib.Core.Path.{◌≡◌, refl, ap₂}
use mathlib.Core.Bool.{Bool, true, false}
use mathlib.Core.List.{List, [], ◌∷◌}
use native.Mathlib.Omega.{arith}
use io_replica.Base.Lists.{filter}
use io_replica.Base.Strings.{Text, text_eq, cmp, eq_of_cmp, cmp_refl, cmp_flip, cmp_trans}
use io_replica.Base.Set.{Set, contains, insert, from_list, from_list_onto, IsAbove, IsSorted}

pub IsAbove-trans : (a b : Text) (s : Set) → cmp a b ≡ Ordering.lt → IsAbove b s → IsAbove a s
IsAbove-trans a b [] h p = tt
IsAbove-trans a b (x ∷ s) h (p, q) = (cmp_trans a b x h p, IsAbove-trans a b s h q)

insert-IsAbove :
    (a b : Text) (s : Set) → cmp a b ≡ Ordering.lt → IsAbove a s → IsAbove a (insert b s)
unfolding insert
insert-IsAbove a b [] h p = (h, tt)
insert-IsAbove a b (x ∷ s) h (p, q) = ground (arith, insert-IsAbove a b s h q)

pub insert-IsSorted : (a : Text) (s : Set) → IsSorted s → IsSorted (insert a s)
unfolding insert
insert-IsSorted a [] s = (tt, tt)
insert-IsSorted a (x ∷ s) (p, q) =
    ground (arith, cmp_flip a x, IsAbove-trans a x s, insert-IsAbove x a s, insert-IsSorted a s q)

pub filter-IsAbove : (a : Text) (p : Text → Bool) (s : Set) → IsAbove a s → IsAbove a (filter p s)
filter-IsAbove a p [] h = tt
filter-IsAbove a p (x ∷ s) (h, k) = ground (arith, filter-IsAbove a p s k)

pub filter-IsSorted : (p : Text → Bool) (s : Set) → IsSorted s → IsSorted (filter p s)
filter-IsSorted p [] h = tt
filter-IsSorted p (x ∷ s) (h, k) = ground (arith, filter-IsAbove x p s h, filter-IsSorted p s k)

from_list_onto-IsSorted : (s : Set) (l : List Text) → IsSorted s → IsSorted (from_list_onto s l)
unfolding from_list_onto
from_list_onto-IsSorted s [] h = h
from_list_onto-IsSorted s (a ∷ l) h = from_list_onto-IsSorted (insert a s) l (insert-IsSorted a s h)

pub from_list-IsSorted : (l : List Text) → IsSorted (from_list l)
unfolding from_list
from_list-IsSorted l = from_list_onto-IsSorted [] l tt

pub not-contains_of_IsAbove : (a : Text) (s : Set) → IsAbove a s → contains s a ≡ false
unfolding contains
not-contains_of_IsAbove a [] h = refl
not-contains_of_IsAbove a (x ∷ s) (h, k) = ground (arith, cmp_refl x, not-contains_of_IsAbove a s k)

contains_nil : (a : Text) → contains [] a ≡ false
unfolding contains
contains_nil a = refl

contains_head : (a : Text) (s : Set) → contains (a ∷ s) a ≡ true
unfolding contains
contains_head a s = ground arith

not-contains_below :
    (a b : Text) (t : Set) → cmp a b ≡ Ordering.lt → IsSorted (b ∷ t) → contains (b ∷ t) a ≡ false
not-contains_below a b t h (q, _) = not-contains_of_IsAbove a (b ∷ t) (h, IsAbove-trans a b t h q)

-- The head of an ordered set is the least member, so two sets of the same members begin alike.
heads_agree :
    (a b : Text) (s t : Set)
    → IsSorted (a ∷ s)
    → IsSorted (b ∷ t)
    → ((c : Text) → contains (a ∷ s) c ≡ contains (b ∷ t) c)
    → a ≡ b
heads_agree a b s t p q same = go (cmp a b) refl
  where
    go : (o : Ordering) → cmp a b ≡ o → a ≡ b
    go Ordering.lt e = cc (same a, contains_head a s, not-contains_below a b t e q)
    go Ordering.eq e = eq_of_cmp a b e
    go Ordering.gt e = cc (same b, contains_head b t, not-contains_below b a s (cmp_flip a b e) p)

tails_agree :
    (a : Text) (s t : Set)
    → IsAbove a s
    → IsAbove a t
    → ((c : Text) → contains (a ∷ s) c ≡ contains (a ∷ t) c)
    → (c : Text) → contains s c ≡ contains t c
unfolding contains
tails_agree a s t p q same c =
    ground (arith, same c, not-contains_of_IsAbove a s p, not-contains_of_IsAbove a t q)

-- Ordered sets with the same members are equal.
pub Set_ext :
    (s t : Set) → IsSorted s → IsSorted t → ((c : Text) → contains s c ≡ contains t c) → s ≡ t
Set_ext [] [] p q same = refl
Set_ext [] (b ∷ t) p q same = cc (same b, contains_head b t, contains_nil b)
Set_ext (a ∷ s) [] p q same = cc (same a, contains_head a s, contains_nil a)
Set_ext (a ∷ s) (b ∷ t) p q same =
    let e = heads_agree a b s t p q same in
    let q' : IsSorted (a ∷ t) = rw e q in
    let same' : (c : Text) → contains (a ∷ s) c ≡ contains (a ∷ t) c = rw e (rw e at same) in
    ap₂ ◌∷◌ e (Set_ext s t p.1 q.1 (tails_agree a s t p.0 q'.0 same'))
