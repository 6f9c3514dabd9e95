-- ===== src/Upgrade/Order.antt =====
-- src/upgrade.rs, `write_fetched`: the order that a fetch reports its items in.
use io_replica.Base.{◌≡◌, ◌≢◌, refl, ap, ◌∙◌, List, [], ◌∷◌, arith, true, false}
use io_replica.Base.Strings.{cmp_refl, eq_of_cmp, cmp_flip, cmp_trans}
use io_replica.Remote.{FetchedItem}
use io_replica.Upgrade.Machine.{Upgrade}
use io_replica.Upgrade.Fetched.{is_at_most, insert_fetched, sort_fetched, write_fetched}

-- The same items in another order, those of one handle in the order they had.
pub data Reordered : List FetchedItem → List FetchedItem → Type 0 where
  none : Reordered [] []
  keep :
      {xs ys : List FetchedItem} (a : FetchedItem) → Reordered xs ys → Reordered (a ∷ xs) (a ∷ ys)
  swap :
      {xs : List FetchedItem} (a b : FetchedItem)
      → a.handle ≢ b.handle
      → Reordered (a ∷ b ∷ xs) (b ∷ a ∷ xs)
  chain : {xs ys zs : List FetchedItem} → Reordered xs ys → Reordered ys zs → Reordered xs zs

is_at_most_antisym :
    (a b : FetchedItem) → is_at_most a b ≡ true → is_at_most b a ≡ true → a.handle ≡ b.handle
is_at_most_antisym a b h k = ground (
  arith,
  eq_of_cmp a.handle b.handle,
  eq_of_cmp b.handle a.handle,
  cmp_trans a.handle b.handle a.handle,
  cmp_refl a.handle,
)

is_at_most_total : (a b : FetchedItem) → is_at_most a b ≡ false → is_at_most b a ≡ true
is_at_most_total a b h = ground (arith, cmp_flip a.handle b.handle)

is_at_most_trans :
    (a b c : FetchedItem) → is_at_most a b ≡ true → is_at_most b c ≡ true → is_at_most a c ≡ true
is_at_most_trans a b c h k = ground (
  arith,
  eq_of_cmp a.handle b.handle,
  eq_of_cmp b.handle c.handle,
  cmp_trans a.handle b.handle c.handle,
)

insert_fetched_comm :
    (a b : FetchedItem) (items : List FetchedItem)
    → a.handle ≢ b.handle
    → insert_fetched a (insert_fetched b items) ≡ insert_fetched b (insert_fetched a items)
unfolding insert_fetched
insert_fetched_comm a b [] n = ground (arith, is_at_most_antisym a b, is_at_most_total a b)
insert_fetched_comm a b (c ∷ items) n = ground (
  arith,
  insert_fetched_comm a b items n,
  is_at_most_antisym a b,
  is_at_most_total a b,
  is_at_most_total a c,
  is_at_most_total b c,
  is_at_most_trans a b c,
  is_at_most_trans b a c,
  is_at_most_trans a c b,
  is_at_most_trans b c a,
)

sort_fetched-Reordered :
    (xs ys : List FetchedItem) → Reordered xs ys → sort_fetched xs ≡ sort_fetched ys
unfolding sort_fetched
sort_fetched-Reordered _ _ none = refl
sort_fetched-Reordered _ _ (keep a r) = ap (insert_fetched a) (sort_fetched-Reordered _ _ r)
sort_fetched-Reordered _ _ (swap {xs} a b n) = insert_fetched_comm a b (sort_fetched xs) n
sort_fetched-Reordered _ _ (chain r s) = sort_fetched-Reordered _ _ r ∙ sort_fetched-Reordered _ _ s

-- The writes of a fetch do not depend on the order that its items of different handles come in.
pub write_fetched-Reordered :
    (u : Upgrade) (xs ys : List FetchedItem)
    → Reordered xs ys
    → write_fetched (record u { fetched = xs }) ≡ write_fetched (record u { fetched = ys })
unfolding write_fetched
write_fetched-Reordered u xs ys r = rw (sort_fetched-Reordered xs ys r)
