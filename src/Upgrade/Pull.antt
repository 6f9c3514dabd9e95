-- ===== src/Upgrade/Pull.antt =====
-- src/upgrade.rs: what an upgrade may write, in every state that it comes to.
use io_replica.Base.{
  ◌≡◌, refl, sym, ap, ◌∙◌, ◌⊎◌, inl, inr, ◌&&◌, Option, none, some, List, [], ◌∷◌, map, arith, All,
  All-append, of_branches, text_eq,
}
use io_replica.Base.Map.{Map, get, insert, get-insert, insert_new, from_entries, from_entries_onto}
use io_replica.Placement.{Handle, LinkId, Placement, Hash, status_eq}
use io_replica.Remote.{Tier, FetchedItem, FetchedBody, inline, persisted}
use io_replica.Change.{WriteOp, upsert_placement, drop_placement, store_object, set_checkpoint}
use io_replica.Upgrade.Machine.{Upgrade, is_conflicted}
use io_replica.Upgrade.Fetched.{
  Claims, establish, with_summary, row_writes, conflict_writes, apply_conflict, apply_row,
  apply_found, apply_items, is_full,
}
use io_replica.Upgrade.Run.{
  link_one, link_found, link_all, hit, linked_row, by_handle, fold_holders,
}
use io_replica.Upgrade.Identity.{IsKeyed}

-- A row that has kept what only a sync or a mutation may change, and its link id where it had one.
abbrev pub IsRaised : Placement → Placement → Type 0
IsRaised p q =
    (q.handle ≡ p.handle)
    × (q.flags ≡ p.flags)
    × (q.status ≡ p.status)
    × (q.origin ≡ p.origin)
    × (q.conflict_revision ≡ p.conflict_revision)
    × ((p.link_id ≡ none) ⊎ (q.link_id ≡ p.link_id))

-- A write that stores a body, or raises a row that is loaded.
abbrev pub IsPull : Map Placement → WriteOp → Type 0
IsPull m (upsert_placement q) = (p : Placement) × (get q.handle m ≡ some p) × IsRaised p q
IsPull m (drop_placement _ _ _) = ⊥
IsPull m (store_object _ _) = Unit
IsPull m (set_checkpoint _ _) = ⊥

establish_link :
    (o : Option LinkId) (claimed : Claims) (item : FetchedItem)
    → (o ≡ none) ⊎ (some (establish o claimed item).0 ≡ o)
unfolding establish
establish_link none claimed item = inl refl
establish_link (some link) claimed item = inr refl

module _ (m : Map Placement) (p : Placement) (g : get p.handle m ≡ some p) where
  row_writes-IsPull :
      (tier : Tier) (body : Option FetchedBody) (item : FetchedItem) (link : LinkId)
      → (p.link_id ≡ none) ⊎ (some link ≡ p.link_id)
      → All (IsPull m) (row_writes tier body item (with_summary link item p))
  unfolding row_writes
  row_writes-IsPull Tier.full (some (inline _ _)) item link l =
      (tt, ((p, g, (refl, refl, refl, refl, refl, l)), tt))
  row_writes-IsPull Tier.full (some (persisted _ _)) item link l =
      (tt, ((p, g, (refl, refl, refl, refl, refl, l)), tt))
  row_writes-IsPull Tier.full none item link l = ((p, g, (refl, refl, refl, refl, refl, l)), tt)
  row_writes-IsPull Tier.meta body item link l = ((p, g, (refl, refl, refl, refl, refl, l)), tt)

  conflict_writes-IsPull : (body : FetchedBody) → All (IsPull m) (conflict_writes body p)
  unfolding conflict_writes
  conflict_writes-IsPull (inline _ _) = (tt, ((p, g, (refl, refl, refl, refl, refl, inr refl)), tt))
  conflict_writes-IsPull (persisted _ _) =
      (tt, ((p, g, (refl, refl, refl, refl, refl, inr refl)), tt))

abbrev pub IsPulling : Map Placement → Upgrade → Type 0
IsPulling m u = All (IsPull m) u.ops × (u.placements ≡ m)

apply_conflict-IsPulling :
    (body : Option FetchedBody) (p : Placement) (u : Upgrade) (m : Map Placement)
    → get p.handle m ≡ some p
    → IsPulling m u
    → IsPulling m (apply_conflict body p u)
unfolding apply_conflict
apply_conflict-IsPulling none p u m g h = h
apply_conflict-IsPulling (some body) p u m g (h, e) =
    (All-append (IsPull m) u.ops (conflict_writes body p) h (conflict_writes-IsPull m p g body), e)

apply_found-IsPulling :
    (item : FetchedItem) (o : Option Placement) (claimed : Claims) (u : Upgrade) (m : Map Placement)
    → IsKeyed m
    → get item.handle m ≡ o
    → IsPulling m u
    → IsPulling m (apply_found item o claimed u).1
unfolding apply_found apply_row
apply_found-IsPulling item none claimed u m keyed g h = h
apply_found-IsPulling item (some p) claimed u m keyed g (h, e) =
    let own : get p.handle m ≡ some p = ap (λ h. get h m) (keyed item.handle p g) ∙ g in
    let link = (establish p.link_id claimed item).0 in
    of_branches (λ r. IsPulling m r.1) (is_full u.tier && is_conflicted p)
      (claimed, apply_conflict item.body p u) (apply_row item p claimed u)
      (apply_conflict-IsPulling item.body p u m own (h, e))
      (
        All-append (IsPull m) u.ops (row_writes u.tier item.body item (with_summary link item p)) h
            (row_writes-IsPull m p own u.tier item.body item link
              (establish_link p.link_id claimed item)),
        e,
      )

pub apply_items-IsPulling :
    (items : List FetchedItem) (claimed : Claims) (u : Upgrade) (m : Map Placement)
    → IsKeyed m
    → IsPulling m u
    → IsPulling m (apply_items items claimed u)
unfolding apply_items
apply_items-IsPulling [] claimed u m keyed h = h
apply_items-IsPulling (item ∷ items) claimed u m keyed h =
    let step = apply_found item (get item.handle u.placements) claimed u in
    apply_items-IsPulling items step.0 step.1 m keyed (
      apply_found-IsPulling item (get item.handle u.placements) claimed u m keyed
        (ap (get item.handle) (sym h.1)) h)

link_one-IsPulling :
    (h : Handle) (p : Placement) (o : Option Hash) (acc : List Handle × Upgrade) (m : Map Placement)
    → get p.handle m ≡ some p
    → IsPulling m acc.1
    → IsPulling m (link_one h p o acc).1
unfolding link_one
link_one-IsPulling h p none acc m g i = i
link_one-IsPulling h p (some hash) (to_fetch, u) m g (i, e) = (
  All-append (IsPull m) u.ops (upsert_placement (linked_row hash p) ∷ []) i
      ((p, g, (refl, refl, refl, refl, refl, inr refl)), tt),
  e,
)

pub link_all-IsPulling :
    (known : Map Hash) (pending : List Handle) (acc : List Handle × Upgrade) (m : Map Placement)
    → IsKeyed m
    → IsPulling m acc.1
    → IsPulling m (link_all known m pending acc).1
unfolding link_all link_found
link_all-IsPulling known [] acc m keyed i = i
link_all-IsPulling known (h ∷ pending) acc m keyed i =
    link_all-IsPulling known pending (link_found known h (get h m) acc) m keyed
      (found (get h m) refl)
  where
    found : (o : Option Placement) → get h m ≡ o → IsPulling m (link_found known h o acc).1
    found none g = i
    found (some p) g =
        link_one-IsPulling h p (hit known p) acc m (ap (λ k. get k m) (keyed h p g) ∙ g) i

insert-IsKeyed : (p : Placement) (m : Map Placement) → IsKeyed m → IsKeyed (insert p.handle p m)
insert-IsKeyed p m keyed h q g = elim (text_eq.dec h p.handle) [
  | yes s ↦ ground (arith, get-insert h p.handle p m)
  | no n ↦ keyed h q (ground (arith, get-insert h p.handle p m))
]

pub by_handle-IsKeyed : (rows : List Placement) → IsKeyed (by_handle rows)
unfolding by_handle from_entries from_entries_onto get
by_handle-IsKeyed rows = go rows [] (λ h p g. cc)
  where
    go :
        (rows : List Placement) (m : Map Placement)
        → IsKeyed m
        → IsKeyed (from_entries_onto m (map (λ p. (p.handle, p)) rows))
    go [] m keyed = keyed
    go (p ∷ rows) m keyed = go rows (insert p.handle p m) (insert-IsKeyed p m keyed)

-- What holds of the map as it is, and of the map with an entry where there was none.
of_insert_new :
    (P : Map Placement → Type 0) (k : Handle) (q : Placement) (m : Map Placement)
    → P m
    → (get k m ≡ none → P (insert k q m))
    → P (insert_new k q m)
unfolding insert_new
of_insert_new P k q m old fresh = go (get k m) refl
  where
    go : (o : Option Placement) → get k m ≡ o → P (elim o [ none ↦ insert k q m | some _ ↦ m ])
    go none e = fresh e
    go (some _) e = old

get-insert_new :
    (h k : Handle) (p q : Placement) (m : Map Placement)
    → get h m ≡ some p
    → get h (insert_new k q m) ≡ some p
get-insert_new h k p q m g =
    of_insert_new (λ n. get h n ≡ some p) k q m g (λ e. ground (arith, get-insert h k q m))

-- A write stays within its bounds where rows are added to those that are loaded.
pub IsPull-grows :
    (m n : Map Placement)
    → ((h : Handle) (p : Placement) → get h m ≡ some p → get h n ≡ some p)
    → (ops : List WriteOp) → All (IsPull m) ops
    → All (IsPull n) ops
IsPull-grows m n grows [] i = tt
IsPull-grows m n grows (upsert_placement q ∷ ops) ((p, g, r), i) =
    ((p, grows q.handle p g, r), IsPull-grows m n grows ops i)
IsPull-grows m n grows (store_object _ _ ∷ ops) (_, i) = (tt, IsPull-grows m n grows ops i)
IsPull-grows m n grows (drop_placement _ _ _ ∷ ops) (h, _) = absurd h
IsPull-grows m n grows (set_checkpoint _ _ ∷ ops) (h, _) = absurd h

pub fold_holders-grows :
    (holders : List Placement) (m : Map Placement)
    → IsKeyed m
    → IsKeyed (fold_holders holders m)
      × ((h : Handle) (p : Placement) → get h m ≡ some p → get h (fold_holders holders m) ≡ some p)
unfolding fold_holders
fold_holders-grows [] m keyed = (keyed, λ h p g. g)
fold_holders-grows (q ∷ holders) m keyed =
    let (k, grows) =
      fold_holders-grows holders (insert_new q.handle q m)
        (of_insert_new IsKeyed q.handle q m keyed (λ e. insert-IsKeyed q m keyed)) in
    (k, λ h p g. grows h p (get-insert_new h q.handle p q m g))
