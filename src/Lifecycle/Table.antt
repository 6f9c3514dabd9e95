-- ===== src/Lifecycle/Table.antt =====
-- `BTreeMap` over pairs of texts, the first text the more significant one.
use io_replica.Base.{
  ◌≡◌, refl, Ordering, Bool, true, Option, none, some, List, [], ◌∷◌, Text, text_eq, ◌==◌, ◌&&◌,
  if◌then◌else◌, arith,
}
use io_replica.Base.Strings.{cmp, cmp_refl, eq_of_cmp}

abbrev pub Key : Type 0
Key = Text × Text

unfoldable pub cmp_key : Key → Key → Ordering
cmp_key (a, b) (c, d) = elim (cmp a c) [
  | Ordering.lt ↦ Ordering.lt
  | Ordering.eq ↦ cmp b d
  | Ordering.gt ↦ Ordering.gt
]

unfoldable pub same_key : Key → Key → Bool
same_key (a, b) (c, d) = a == c && b == d

eq_of_cmp_key : (j k : Key) → cmp_key j k ≡ Ordering.eq → same_key j k ≡ true
unfolding cmp_key same_key
eq_of_cmp_key (a, b) (c, d) h = ground (arith, eq_of_cmp a c, eq_of_cmp b d)

same_key_via : (i j k : Key) → same_key j k ≡ true → same_key i j ≡ same_key i k
unfolding same_key
same_key_via (a, b) (c, d) (e, f) h = ground arith

cmp_key_of_same : (j k : Key) → same_key j k ≡ true → cmp_key j k ≡ Ordering.eq
unfolding cmp_key same_key
cmp_key_of_same (a, b) (c, d) h = ground (arith, cmp_refl c, cmp_refl d)

same_key_via_first : (i j k : Key) → same_key j k ≡ true → same_key j i ≡ same_key k i
unfolding same_key
same_key_via_first (a, b) (c, d) (e, f) h = ground arith

abbrev pub Table {ℓ} : Type ℓ → Type ℓ
Table V = List (Key × V)

module _ {ℓ} {V : Type ℓ} where
  unfoldable pub get_at : Key → Table V → Option V
  get_at k [] = none
  get_at k ((j, v) ∷ t) = if same_key k j then some v else get_at k t

  unfoldable pub insert_at : Key → V → Table V → Table V
  insert_at k v [] = (k, v) ∷ []
  insert_at k v ((j, w) ∷ t) = elim (cmp_key k j) [
    | Ordering.lt ↦ (k, v) ∷ (j, w) ∷ t
    | Ordering.eq ↦ (k, v) ∷ t
    | Ordering.gt ↦ (j, w) ∷ insert_at k v t
  ]

  unfoldable pub remove_at : Key → Table V → Table V
  remove_at k [] = []
  remove_at k ((j, w) ∷ t) =
      let rest = remove_at k t in if same_key k j then rest else (j, w) ∷ rest

  pub get_at-insert_at :
      (j k : Key) (v : V) (t : Table V)
      → get_at j (insert_at k v t) ≡ (if same_key j k then some v else get_at j t)
  unfolding get_at insert_at
  get_at-insert_at j k v [] = refl
  get_at-insert_at j k v ((i, w) ∷ t) = ground (
    arith,
    get_at-insert_at j k v t,
    eq_of_cmp_key k i,
    same_key_via j k i,
    cmp_key_of_same k i,
    same_key_via_first i j k,
  )

  pub get_at-remove_at :
      (j k : Key) (t : Table V)
      → get_at j (remove_at k t) ≡ (if same_key j k then none else get_at j t)
  unfolding get_at remove_at
  get_at-remove_at j k [] = ground arith
  get_at-remove_at j k ((i, w) ∷ t) =
      ground (arith, get_at-remove_at j k t, same_key_via j k i, same_key_via_first i j k)
