-- ===== src/Sync/Join/Order.antt =====
-- src/sync.rs, `open_merge`: the order of the items that the join takes.
use mathlib.Core.Logic.{if_pos, if_neg}
use io_replica.Base.{
  ◌≡◌, ◌≢◌, refl, ◌∙◌, Ordering, true, false, some, List, [], ◌∷◌, arith, All, text_eq, ◌==◌,
  if◌then◌else◌, inl, inr, Bool-cases,
}
use io_replica.Base.Strings.{cmp, eq_of_cmp, cmp_refl, cmp_flip, cmp_trans}
use io_replica.Base.Map
use io_replica.Base.Map.{Map, get}
use io_replica.Placement.{Handle}
use io_replica.Remote.{RemoteItem}
use io_replica.Sync.Join.{
  at_most, is_ordered, insert_item, sort_items, dedup_after, dedup_items, prepare,
}

-- The items as a map by handle, in which the first item of a handle is found.
abbrev pub keyed : List RemoteItem → Map RemoteItem
keyed [] = []
keyed (i ∷ items) = (i.handle, i) ∷ keyed items

at_most_trans : (a b c : RemoteItem) → at_most a b ≡ true → at_most b c ≡ true → at_most a c ≡ true
at_most_trans a b c h k = ground (
  arith,
  eq_of_cmp a.handle b.handle,
  eq_of_cmp b.handle c.handle,
  cmp_trans a.handle b.handle c.handle,
)

at_most_flip : (a b : RemoteItem) → at_most a b ≡ false → at_most b a ≡ true
at_most_flip a b h = ground (arith, cmp_flip a.handle b.handle)

abbrev AtMost : RemoteItem → List RemoteItem → Type 0
AtMost a = All (λ b. at_most a b ≡ true)

abbrev InOrder : List RemoteItem → Type 0
InOrder [] = Unit
InOrder (a ∷ items) = AtMost a items × InOrder items

AtMost-trans :
    (a b : RemoteItem) (l : List RemoteItem) → at_most a b ≡ true → AtMost b l → AtMost a l
AtMost-trans a b [] h k = tt
AtMost-trans a b (c ∷ l) h (k, m) = (at_most_trans a b c h k, AtMost-trans a b l h m)

is_ordered-InOrder : (l : List RemoteItem) → is_ordered l ≡ true → InOrder l
unfolding is_ordered
is_ordered-InOrder [] h = tt
is_ordered-InOrder (a ∷ []) h = (tt, tt)
is_ordered-InOrder (a ∷ b ∷ l) h =
    let rest = is_ordered-InOrder (b ∷ l) (ground arith) in
    let first : at_most a b ≡ true = ground arith in
    ((first, AtMost-trans a b l first rest.0), rest)

insert_item-AtMost :
    (a b : RemoteItem) (l : List RemoteItem)
    → at_most a b ≡ true
    → AtMost a l
    → AtMost a (insert_item b l)
unfolding insert_item
insert_item-AtMost a b [] h k = (h, tt)
insert_item-AtMost a b (c ∷ l) h (k, m) = ground (arith, insert_item-AtMost a b l h m)

insert_item-InOrder : (a : RemoteItem) (l : List RemoteItem) → InOrder l → InOrder (insert_item a l)
unfolding insert_item
insert_item-InOrder a [] h = (tt, tt)
insert_item-InOrder a (b ∷ l) (h, k) = elim (Bool-cases (at_most a b)) [
  | inl e ↦ rw e ((e, AtMost-trans a b l e h), (h, k))
  | inr e ↦ rw e (insert_item-AtMost b a l (at_most_flip a b e) h, insert_item-InOrder a l k)
]

sort_items-InOrder : (l : List RemoteItem) → InOrder (sort_items l)
unfolding sort_items
sort_items-InOrder [] = tt
sort_items-InOrder (a ∷ l) = insert_item-InOrder a (sort_items l) (sort_items-InOrder l)

get-insert_item :
    (h : Handle) (a : RemoteItem) (l : List RemoteItem)
    → get h (keyed (insert_item a l)) ≡ (if h == a.handle then some a else get h (keyed l))
unfolding insert_item get
get-insert_item h a [] = refl
get-insert_item h a (b ∷ l) = ground (arith, get-insert_item h a l, cmp_refl a.handle)

get-sort_items : (h : Handle) (l : List RemoteItem) → get h (keyed (sort_items l)) ≡ get h (keyed l)
unfolding sort_items get
get-sort_items h [] = refl
get-sort_items h (a ∷ l) = rw (get-insert_item h a (sort_items l), get-sort_items h l)

get-dedup_after :
    (h : Handle) (a : RemoteItem) (l : List RemoteItem)
    → h ≢ a.handle
    → get h (keyed (dedup_after a l)) ≡ get h (keyed l)
unfolding dedup_after get
get-dedup_after h a [] n = refl
get-dedup_after h a (b ∷ l) n = ground (arith, get-dedup_after h b l)

get-dedup_items :
    (h : Handle) (l : List RemoteItem) → get h (keyed (dedup_items l)) ≡ get h (keyed l)
unfolding dedup_items get
get-dedup_items h [] = refl
get-dedup_items h (a ∷ l) = ground (arith, get-dedup_after h a l)

lt_of_at_most :
    (a b : RemoteItem)
    → at_most a b ≡ true
    → a.handle ≢ b.handle
    → cmp a.handle b.handle ≡ Ordering.lt
lt_of_at_most a b h n = ground (arith, eq_of_cmp a.handle b.handle)

-- What follows the item kept lies strictly above it.
dedup_after-IsSorted :
    (a : RemoteItem) (l : List RemoteItem)
    → InOrder (a ∷ l)
    → Map.IsAbove a.handle (keyed (dedup_after a l)) × Map.IsSorted (keyed (dedup_after a l))
unfolding dedup_after
dedup_after-IsSorted a [] h = (tt, tt)
dedup_after-IsSorted a (b ∷ l) ((h, k), m) =
    let rest = dedup_after-IsSorted b l m in
    elim (text_eq.dec a.handle b.handle) [
      | yes e ↦ rw (if_pos _ e) (rw e rest.0, rest.1)
      | no n ↦
          let first = lt_of_at_most a b h n in
          rw (if_neg _ n) (
            (first, Map.IsAbove-trans a.handle b.handle (keyed (dedup_after b l)) first rest.0),
            rest,
          )
    ]

dedup_items-IsSorted : (l : List RemoteItem) → InOrder l → Map.IsSorted (keyed (dedup_items l))
unfolding dedup_items
dedup_items-IsSorted [] h = tt
dedup_items-IsSorted (a ∷ l) h = dedup_after-IsSorted a l h

-- Whatever the order of the enumerated items, those that the join walks are in strictly
-- ascending handle order.
pub prepare-IsSorted : (items : List RemoteItem) → Map.IsSorted (keyed (prepare items))
unfolding prepare
prepare-IsSorted items = elim (Bool-cases (is_ordered items)) [
  | inl e ↦ rw e (dedup_items-IsSorted items (is_ordered-InOrder items e))
  | inr e ↦ rw e (dedup_items-IsSorted (sort_items items) (sort_items-InOrder items))
]

-- Under each handle the join walks the first item that the remote listed there, and none where
-- it listed none.
pub get-prepare :
    (h : Handle) (items : List RemoteItem) → get h (keyed (prepare items)) ≡ get h (keyed items)
unfolding prepare
get-prepare h items = elim (Bool-cases (is_ordered items)) [
  | inl e ↦ rw e (get-dedup_items h items)
  | inr e ↦ rw e (get-dedup_items h (sort_items items) ∙ get-sort_items h items)
]
