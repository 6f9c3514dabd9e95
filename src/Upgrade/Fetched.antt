-- ===== src/Upgrade/Fetched.antt =====
-- src/upgrade.rs, `write_fetched`: the items of a fetch, applied in the order of their handles.
use io_replica.Base.{
  ℕ, ◌+◌, Bool, true, false, ◌&&◌, Option, none, some, List, [], ◌∷◌, ◌++◌, bytes, text_eq,
  Ordering, if◌then◌else◌, length, is_some,
}
use io_replica.Base.Strings.{cmp}
use io_replica.Base.Map.{Map, get, insert}
use io_replica.Placement.{Handle, LinkId, Object, Placement, SyncBase, meta, full, status_eq}
use io_replica.Remote.{Tier, FetchedItem, FetchedBody, inline, persisted}
use io_replica.Change.{WriteOp, upsert_placement, store_object}
use io_replica.Coroutine.{Yield, wants_write, ArgError, Result, CoroutineState, yielded}
use io_replica.Upgrade.Machine.{Upgrade, UpgradeReport, State, is_conflicted}

abbrev pub Outcome : Type 0
Outcome = CoroutineState Yield (Result UpgradeReport ArgError)

unfoldable pub mint : LinkId → Handle → LinkId
mint hint handle = bytes "dup:" ++ hint ++ b'#' ∷ handle

unfoldable pub stored_body : FetchedBody → Object × Option (List ℕ)
stored_body (inline hash content) = (record { hash = hash; size = length content }, some content)
stored_body (persisted hash size) = (record { hash = hash; size = size }, none)

-- Who holds each identity.
abbrev pub Claims : Type 0
Claims = Map Handle

abbrev pub claim : Option LinkId → Handle → Claims → Claims
claim none handle claimed = claimed
claim (some link) handle claimed = insert link handle claimed

-- `collect`: a later holder replaces an earlier one.
unfoldable pub claims_onto : Claims → Map Placement → Claims
unfolding insert
claims_onto claimed [] = claimed
claims_onto claimed ((_, p) ∷ placements) =
    claims_onto (claim p.link_id p.handle claimed) placements

abbrev pub is_at_most : FetchedItem → FetchedItem → Bool
is_at_most a b = elim (cmp a.handle b.handle) [ Ordering.gt ↦ false | _ ↦ true ]

unfoldable pub insert_fetched : FetchedItem → List FetchedItem → List FetchedItem
insert_fetched a [] = a ∷ []
insert_fetched a (b ∷ items) =
    let rest = insert_fetched a items in if is_at_most a b then a ∷ b ∷ items else b ∷ rest

-- `sort_by`, which is stable.
unfoldable pub sort_fetched : List FetchedItem → List FetchedItem
sort_fetched [] = []
sort_fetched (a ∷ items) = insert_fetched a (sort_fetched items)

abbrev pub link_of : Claims → FetchedItem → LinkId
link_of claimed item =
    if is_some (get item.link_id claimed) then mint item.link_id item.handle else item.link_id

-- The link id that a row leaves the loop with, and the claims.
unfoldable pub establish : Option LinkId → Claims → FetchedItem → LinkId × Claims
establish (some link) claimed item = (link, claimed)
establish none claimed item =
    let link = link_of claimed item in (link, insert link item.handle claimed)

abbrev pub with_summary : LinkId → FetchedItem → Placement → Placement
with_summary link item p = record p {
  link_id = some link;
  meta = some item.meta;
  sort_key = item.sort_key;
}

abbrev pub fetched_base : Object → FetchedItem → Option SyncBase → Option SyncBase
fetched_base object item none = none
fetched_base object item (some base) =
    some (record base { revision = item.revision; object = some object.hash })

abbrev pub with_body : Object → FetchedItem → Placement → Placement
with_body object item p = record p {
  base = fetched_base object item p.base;
  object = some object.hash;
  level = full;
}

-- The writes of an item, by the tier and the body it came with.
unfoldable pub row_writes : Tier → Option FetchedBody → FetchedItem → Placement → List WriteOp
unfolding stored_body
row_writes Tier.full (some body) item p =
    let (object, content) = stored_body body in
    store_object object content ∷ upsert_placement (with_body object item p) ∷ []
row_writes _ _ item p = upsert_placement (record p { level = meta }) ∷ []

unfoldable pub conflict_writes : FetchedBody → Placement → List WriteOp
unfolding stored_body
conflict_writes body p =
    let (object, content) = stored_body body in
    store_object object content
    ∷ upsert_placement (record p { conflict_object = some object.hash })
    ∷ []

abbrev pub push_fetched : List WriteOp → Upgrade → Upgrade
push_fetched ops u = record u {
  ops = u.ops ++ ops;
  report = record u.report { fetched = u.report.fetched + 1; upgraded = u.report.upgraded + 1 };
}

-- What the fetch of a conflicted row brings.
unfoldable pub apply_conflict : Option FetchedBody → Placement → Upgrade → Upgrade
unfolding conflict_writes
apply_conflict none p u = u
apply_conflict (some body) p u = push_fetched (conflict_writes body p) u

unfoldable pub apply_row : FetchedItem → Placement → Claims → Upgrade → Claims × Upgrade
apply_row item p claimed u =
    let (link, extended) = establish p.link_id claimed item in
    (extended, push_fetched (row_writes u.tier item.body item (with_summary link item p)) u)

abbrev pub is_full : Tier → Bool
is_full Tier.full = true
is_full Tier.meta = false

unfoldable pub apply_found : FetchedItem → Option Placement → Claims → Upgrade → Claims × Upgrade
unfolding apply_row apply_conflict
apply_found item none claimed u = (claimed, u)
apply_found item (some p) claimed u =
    if is_full u.tier && is_conflicted p
    then (claimed, apply_conflict item.body p u)
    else apply_row item p claimed u

unfoldable pub apply_items : List FetchedItem → Claims → Upgrade → Upgrade
unfolding apply_found
apply_items [] claimed u = u
apply_items (item ∷ items) claimed u =
    let (extended, applied) = apply_found item (get item.handle u.placements) claimed u in
    apply_items items extended applied

-- `ReplicaUpgrade::write_fetched`.
unfoldable pub write_fetched : Upgrade → Upgrade × Outcome
unfolding apply_items claims_onto sort_fetched
write_fetched u =
    let applied =
      apply_items (sort_fetched u.fetched) (claims_onto [] u.placements)
        (record u { fetched = [] }) in
    (record applied { state = State.pending_write; ops = [] }, yielded (wants_write applied.ops))
