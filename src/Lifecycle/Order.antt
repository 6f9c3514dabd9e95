-- ===== src/Lifecycle/Order.antt =====
-- `BTreeMap` over pairs of texts: the order of the entries.
use io_replica.Base.{◌≡◌, refl, Ordering, false, none, [], ◌∷◌, text_eq, arith, All}
use io_replica.Base.Strings.{cmp_refl, cmp_flip, cmp_trans, eq_of_cmp}
use io_replica.Lifecycle.Table.{Key, Table, cmp_key, same_key, insert_at, remove_at, get_at}

cmp_key_trans :
    (i j k : Key)
    → cmp_key i j ≡ Ordering.lt
    → cmp_key j k ≡ Ordering.lt
    → cmp_key i k ≡ Ordering.lt
unfolding cmp_key
cmp_key_trans (a, b) (c, d) (e, f) h g =
    ground (arith, eq_of_cmp a c, eq_of_cmp c e, cmp_trans a c e, cmp_trans b d f)

cmp_key_flip : (j k : Key) → cmp_key j k ≡ Ordering.gt → cmp_key k j ≡ Ordering.lt
unfolding cmp_key
cmp_key_flip (a, b) (c, d) h = ground (arith, eq_of_cmp a c, cmp_flip a c, cmp_flip b d, cmp_refl a)

not_same_of_lt : (j k : Key) → cmp_key j k ≡ Ordering.lt → same_key j k ≡ false
unfolding cmp_key same_key
not_same_of_lt (a, b) (c, d) h = ground (arith, cmp_refl a, cmp_refl b)

key_of_cmp : (j k : Key) → cmp_key j k ≡ Ordering.eq → j ≡ k
unfolding cmp_key
key_of_cmp (a, b) (c, d) h = ground (arith, eq_of_cmp a c, eq_of_cmp b d)

module _ {ℓ} {V : Type ℓ} where
  abbrev pub IsAbove : Key → Table V → Type 0
  IsAbove k = All (λ e. cmp_key k e.0 ≡ Ordering.lt)

  abbrev pub IsSorted : Table V → Type 0
  IsSorted [] = Unit
  IsSorted ((k, _) ∷ t) = IsAbove k t × IsSorted t

  IsAbove-trans : (j k : Key) (t : Table V) → cmp_key j k ≡ Ordering.lt → IsAbove k t → IsAbove j t
  IsAbove-trans j k [] h a = tt
  IsAbove-trans j k ((i, v) ∷ t) h (a, b) = (cmp_key_trans j k i h a, IsAbove-trans j k t h b)

  pub get_at_of_IsAbove : (k : Key) (t : Table V) → IsAbove k t → get_at k t ≡ none
  unfolding get_at
  get_at_of_IsAbove k [] a = refl
  get_at_of_IsAbove k ((j, v) ∷ t) (a, b) =
      ground (arith, not_same_of_lt k j a, get_at_of_IsAbove k t b)

  insert_at-IsAbove :
      (j k : Key) (v : V) (t : Table V)
      → cmp_key j k ≡ Ordering.lt
      → IsAbove j t
      → IsAbove j (insert_at k v t)
  unfolding insert_at
  insert_at-IsAbove j k v [] h a = (h, tt)
  insert_at-IsAbove j k v ((i, w) ∷ t) h (a, b) = ground (arith, insert_at-IsAbove j k v t h b)

  pub insert_at-IsSorted : (k : Key) (v : V) (t : Table V) → IsSorted t → IsSorted (insert_at k v t)
  unfolding insert_at
  insert_at-IsSorted k v [] h = (tt, tt)
  insert_at-IsSorted k v ((i, w) ∷ t) (a, b) = go (cmp_key k i) refl (insert_at-IsSorted k v t b)
    where
      go :
          (o : Ordering)
          → cmp_key k i ≡ o
          → IsSorted (insert_at k v t)
          → IsSorted (insert_at k v ((i, w) ∷ t))
      go Ordering.lt e ih = rw (e, IsSorted) ((e, IsAbove-trans k i t e a), (a, b))
      go Ordering.eq e ih = rw (e, IsSorted) (rw (key_of_cmp k i e) a, b)
      go Ordering.gt e ih = rw (e, IsSorted) (insert_at-IsAbove i k v t (cmp_key_flip k i e) a, ih)

  remove_at-IsAbove : (j k : Key) (t : Table V) → IsAbove j t → IsAbove j (remove_at k t)
  unfolding remove_at
  remove_at-IsAbove j k [] a = tt
  remove_at-IsAbove j k ((i, w) ∷ t) (a, b) = ground (arith, remove_at-IsAbove j k t b)

  pub remove_at-IsSorted : (k : Key) (t : Table V) → IsSorted t → IsSorted (remove_at k t)
  unfolding remove_at
  remove_at-IsSorted k [] h = tt
  remove_at-IsSorted k ((i, w) ∷ t) (a, b) =
      ground (arith, remove_at-IsSorted k t b, remove_at-IsAbove i k t a)
