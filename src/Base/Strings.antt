-- ===== src/Base/Strings.antt =====
-- Rust's `String` as its bytes, with the byte order that `Ord` gives it.
use Prim.Native.Nat.{ℕ, compare, Ordering}
use Prim.Native.Char.{code}
use Prim.Native.String.{String}
use mathlib.Core.Path.{◌≡◌, refl}
use mathlib.Core.Logic.{◌≢◌}
use mathlib.Core.List.{List, [], ◌∷◌}
use native.Mathlib.Omega.{arith}
use native.Mathlib.Decide.{ℕ_discrete}
use io_replica.Base.Equality.{Eq}

abbrev pub Text : Type 0
Text = List ℕ

-- The bytes of an ASCII literal.
abbrev pub bytes : String → Text
bytes String.[] = []
bytes (String.◌∷◌ c s) = code c ∷ bytes s

unfoldable pub Text-discrete : Discrete Text
Text-discrete = hlevel ℕ_discrete

instance unfoldable pub text_eq : Eq Text
unfolding Text-discrete
text_eq = record { dec = Text-discrete }

-- `Ord::cmp`.
abbrev pub cmp : Text → Text → Ordering
cmp [] [] = Ordering.eq
cmp [] (_ ∷ _) = Ordering.lt
cmp (_ ∷ _) [] = Ordering.gt
cmp (x ∷ xs) (y ∷ ys) = elim (compare x y) [
  | Ordering.lt ↦ Ordering.lt
  | Ordering.eq ↦ cmp xs ys
  | Ordering.gt ↦ Ordering.gt
]

pub eq_of_cmp : (a b : Text) → cmp a b ≡ Ordering.eq → a ≡ b
eq_of_cmp [] [] h = refl
eq_of_cmp [] (_ ∷ _) h = cc
eq_of_cmp (_ ∷ _) [] h = cc
eq_of_cmp (x ∷ xs) (y ∷ ys) h = ground (arith, eq_of_cmp xs ys)

pub cmp_refl : (a : Text) → cmp a a ≡ Ordering.eq
cmp_refl [] = refl
cmp_refl (x ∷ xs) = ground (arith, cmp_refl xs)

pub cmp_flip : (a b : Text) → cmp a b ≡ Ordering.gt → cmp b a ≡ Ordering.lt
cmp_flip [] [] h = cc
cmp_flip [] (_ ∷ _) h = cc
cmp_flip (_ ∷ _) [] h = refl
cmp_flip (x ∷ xs) (y ∷ ys) h = ground (arith, cmp_flip xs ys)

pub cmp_trans :
    (a b c : Text) → cmp a b ≡ Ordering.lt → cmp b c ≡ Ordering.lt → cmp a c ≡ Ordering.lt
cmp_trans [] [] c h k = cc
cmp_trans [] (_ ∷ _) [] h k = cc
cmp_trans [] (_ ∷ _) (_ ∷ _) h k = refl
cmp_trans (_ ∷ _) [] c h k = cc
cmp_trans (_ ∷ _) (_ ∷ _) [] h k = cc
cmp_trans (x ∷ xs) (y ∷ ys) (z ∷ zs) h k = ground (arith, cmp_trans xs ys zs)

pub ne_of_cmp_lt : (a b : Text) → cmp a b ≡ Ordering.lt → a ≢ b
ne_of_cmp_lt a b h e = cc (cmp_refl b)
