-- ===== src/Rekey/Handles.antt =====
-- src/rekey.rs, `rebuild`: which handles the batch writes and which it drops.
use io_replica.Base.{
  ◌≡◌, refl, Bool, false, not, ◌&&◌, Option, none, some, List, [], ◌∷◌, ◌++◌, text_eq, ◌==◌,
  if◌then◌else◌, arith, any, any-append, filter, of_branches,
}
use io_replica.Base.Map.{Map, get}
use io_replica.Base.Set
use io_replica.Base.Set.{Set, contains, contains-insert}
use io_replica.Placement.{Handle, CollectionId, Placement, Checkpoint}
use io_replica.Remote.{RemoteItem}
use io_replica.Change.{WriteOp, upsert_placement, drop_placement, set_checkpoint}
use io_replica.Rekey.Rows.{Resolved, carry, fresh, is_stranded, resurrected}
use io_replica.Rekey.Rebuild.{
  Batch, RekeyReport, is_spine, rehome_resolved, rehome, rehome_all, resurrect, resurrect_all,
  drops, settled, rebuild,
}

abbrev pub upserts : Handle → WriteOp → Bool
upserts h (upsert_placement p) = h == p.handle
upserts h _ = false

abbrev pub drops_one : Handle → WriteOp → Bool
drops_one h (drop_placement _ k _) = h == k
drops_one h _ = false

-- Whether a batch has a row under the handle, and whether it drops one.
abbrev pub is_upserted : Handle → List WriteOp → Bool
is_upserted h = any (upserts h)

abbrev pub is_dropped : Handle → List WriteOp → Bool
is_dropped h = any (drops_one h)

-- The set of the written handles is the one of the rows in the batch, which has no drop.
abbrev IsTallied : Batch → Type 0
IsTallied b =
    (h : Handle) → (is_upserted h b.writes ≡ contains b.written h) × (is_dropped h b.writes ≡ false)

push-IsTallied :
    (b : Batch) (q : Placement) (h : Handle)
    → IsTallied b
    → (is_upserted h (b.writes ++ upsert_placement q ∷ [])
        ≡ contains (Set.insert q.handle b.written) h)
      × (is_dropped h (b.writes ++ upsert_placement q ∷ []) ≡ false)
push-IsTallied b q h t =
    let (up, down) = t h in
    (
      ground (
        arith,
        any-append (upserts h) b.writes (upsert_placement q ∷ []),
        contains-insert h q.handle b.written,
      ),
      ground (arith, any-append (drops_one h) b.writes (upsert_placement q ∷ [])),
    )

rehome-IsTallied :
    (collection : CollectionId) (item : RemoteItem) (r : Option Resolved) (b : Batch)
    → IsTallied b
    → IsTallied (rehome collection item r b)
unfolding rehome
rehome-IsTallied collection item none b t h = push-IsTallied b (fresh collection item none) h t
rehome-IsTallied collection item (some r) b t h = resolved (get r.link_id b.old_by_link)
  where
    resolved :
        (o : Option Placement)
        → (let c = rehome_resolved collection item r o b in
            (is_upserted h c.writes ≡ contains c.written h) × (is_dropped h c.writes ≡ false))
    resolved none = push-IsTallied b (fresh collection item (some r)) h t
    resolved (some old) = push-IsTallied b (carry collection old item (some r)) h t

rehome_all-IsTallied :
    (collection : CollectionId) (resolved : Map Resolved) (items : List RemoteItem) (b : Batch)
    → IsTallied b
    → IsTallied (rehome_all collection resolved items b)
unfolding rehome_all
rehome_all-IsTallied collection resolved [] b t = t
rehome_all-IsTallied collection resolved (item ∷ items) b t =
    rehome_all-IsTallied collection resolved items
      (rehome collection item (get item.handle resolved) b)
      (rehome-IsTallied collection item (get item.handle resolved) b t)

resurrect_all-IsTallied :
    (old : List Placement) (b : Batch) → IsTallied b → IsTallied (resurrect_all old b)
unfolding resurrect_all
resurrect_all-IsTallied [] b t = t
resurrect_all-IsTallied (p ∷ old) b t =
    let rescued = not (contains b.carried_over p.handle) && is_stranded p in
    resurrect_all-IsTallied old (if rescued then resurrect p b else b) (
      of_branches IsTallied rescued (resurrect p b) b (λ h. push-IsTallied b (resurrected p) h t) t)

pub settled-IsTallied :
    (collection : CollectionId) (items : List RemoteItem) (resolved : Map Resolved)
    (old : List Placement) (report : RekeyReport)
    → IsTallied (settled collection items resolved old report)
unfolding settled contains
settled-IsTallied collection items resolved old report =
    resurrect_all-IsTallied old _
      (rehome_all-IsTallied collection resolved items _ (λ h. (refl, refl)))

-- The drops: of a row whose handle is not written.
is_dropped-drops :
    (collection : CollectionId) (set : Set) (old : List Placement) (h : Handle)
    → is_dropped h (drops collection set old)
      ≡ (not (contains set h) && any (λ p. h == p.handle) old)
unfolding drops
is_dropped-drops collection set [] h = ground arith
is_dropped-drops collection set (p ∷ old) h = ground (arith, is_dropped-drops collection set old h)

is_upserted-drops :
    (collection : CollectionId) (set : Set) (old : List Placement) (h : Handle)
    → is_upserted h (drops collection set old) ≡ false
unfolding drops
is_upserted-drops collection set [] h = refl
is_upserted-drops collection set (p ∷ old) h =
    ground (arith, is_upserted-drops collection set old h)

any-filter_spine :
    (h : Handle) (rows : List Placement)
    → any (λ p. h == p.handle) (filter is_spine rows) ≡ any (λ p. is_spine p && h == p.handle) rows
any-filter_spine h [] = refl
any-filter_spine h (p ∷ rows) = ground (arith, any-filter_spine h rows)

-- The batch of a rekey drops a handle exactly where it writes no row under it and an old row
-- other than a pending create stood there.
pub is_dropped-rebuild :
    (collection : CollectionId) (items : List RemoteItem) (resolved : Map Resolved)
    (loaded : List Placement) (checkpoint : Checkpoint) (report : RekeyReport) (h : Handle)
    → let ops = (rebuild collection items resolved loaded checkpoint report).1 in
      is_dropped h ops ≡ (not (is_upserted h ops) && any (λ p. is_spine p && h == p.handle) loaded)
unfolding rebuild
is_dropped-rebuild collection items resolved loaded checkpoint report h =
    let old = filter is_spine loaded in
    let b = settled collection items resolved old report in
    let gone = drops collection b.written old in
    let last = set_checkpoint collection checkpoint ∷ [] in
    let (up, down) = settled-IsTallied collection items resolved old report h in
    ground (
      arith,
      any-append (upserts h) (b.writes ++ gone) last,
      any-append (upserts h) b.writes gone,
      any-append (drops_one h) (b.writes ++ gone) last,
      any-append (drops_one h) b.writes gone,
      is_dropped-drops collection b.written old h,
      is_upserted-drops collection b.written old h,
      any-filter_spine h loaded,
    )
