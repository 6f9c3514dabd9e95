-- ===== src/Upgrade/Claimed.antt =====
-- src/upgrade.rs, `write_fetched`: the loop, under the claims on the link ids.
use io_replica.Base.{
  ◌≡◌, refl, sym, ap, ◌∙◌, ◌⊎◌, inl, inr, ◌&&◌, Option, none, some, List, [], ◌∷◌, ◌++◌,
  of_branches, arith, All, is_some, Option-cases, Bool-cases,
}
use mathlib.Core.Path.{subst}
use io_replica.Base.Map.{Map, get, get-insert}
use io_replica.Placement.{Handle, LinkId, Placement, status_eq}
use io_replica.Remote.{FetchedItem, FetchedBody}
use io_replica.Change.{WriteOp}
use io_replica.Upgrade.Machine.{Upgrade, is_conflicted}
use io_replica.Upgrade.Fetched.{
  mint, Claims, link_of, establish, with_summary, row_writes, conflict_writes, apply_conflict,
  apply_row, apply_found, apply_items, is_full,
}
use io_replica.Upgrade.Written.{
  written, written-append, WritesRow, row_writes-WritesRow, conflict_writes-WritesRow,
}
use io_replica.Upgrade.Identity.{
  IsPlain, mint-inj, IsKeyed, IsClaimed, IsOwned, insert-IsClaimed, insert-IsOwned,
  insert_row-IsClaimed,
}

-- What an item of a fetch may name: a plain handle, and no key minted for another one.
abbrev pub IsNamed : FetchedItem → Type 0
IsNamed item =
    IsPlain item.handle
    × ((hint : LinkId) (k : Handle) → IsPlain k → item.link_id ≡ mint hint k → item.handle ≡ k)

abbrev pub IsSound : Map Placement → Claims → List WriteOp → Type 0
IsSound m claimed ops = IsClaimed claimed m × IsOwned claimed × IsClaimed claimed (written ops m)

push-IsClaimed :
    (claimed : Claims) (m : Map Placement) (ops more : List WriteOp) (h : Handle)
    (link : Option LinkId)
    → WritesRow more h link
    → ((l : LinkId) → link ≡ some l → get l claimed ≡ some h)
    → IsClaimed claimed (written ops m)
    → IsClaimed claimed (written (ops ++ more) m)
push-IsClaimed claimed m ops more h link (q, e, w) own c = rw (written-append ops more m) (
    rw (w (written ops m))
      (insert_row-IsClaimed claimed (written ops m) h q (λ l f. own l (sym e ∙ f)) c))

-- The link id that a fetch gives to a row is free, or the row's own already.
link_of-IsFree :
    (claimed : Claims) (item : FetchedItem)
    → IsPlain item.handle
    → IsOwned claimed
    → let link = link_of claimed item in
      (get link claimed ≡ none) ⊎ (get link claimed ≡ some item.handle)
link_of-IsFree claimed item plain o = elim (Option-cases (get item.link_id claimed)) [
  | inl e ↦ inl (rw e e)
  | inr (h, e) ↦ rw e (minted (Option-cases (get (mint item.link_id item.handle) claimed)))
]
  where
    minted :
        (get (mint item.link_id item.handle) claimed ≡ none)
          ⊎ ((h : Handle) × (get (mint item.link_id item.handle) claimed ≡ some h))
        → (get (mint item.link_id item.handle) claimed ≡ none)
          ⊎ (get (mint item.link_id item.handle) claimed ≡ some item.handle)
    minted (inl f) = inl f
    minted (inr (k, f)) = inr (f ∙ ap some (o item.link_id item.handle k plain f))

link_of-owner :
    (claimed : Claims) (item : FetchedItem) (hint : LinkId) (k : Handle)
    → IsNamed item
    → IsPlain k
    → link_of claimed item ≡ mint hint k
    → item.handle ≡ k
link_of-owner claimed item hint k (plain, named) p e =
    elim (Bool-cases (is_some (get item.link_id claimed))) [
      | inl t ↦ mint-inj item.link_id hint item.handle k plain p (ground (arith, e))
      | inr f ↦ named hint k p (ground (arith, e))
    ]

-- The link id that a row gets is claimed by the row alone.
establish-IsSound :
    (o : Option LinkId) (m : Map Placement) (claimed : Claims) (ops : List WriteOp)
    (item : FetchedItem)
    → IsNamed item
    → IsSound m claimed ops
    → ((link : LinkId) → o ≡ some link → get link claimed ≡ some item.handle)
    → (let (link, extended) = establish o claimed item in
        IsSound m extended ops × (get link extended ≡ some item.handle))
unfolding establish
establish-IsSound (some link) m claimed ops item named sound own = (sound, own link refl)
establish-IsSound none m claimed ops item named (c, o, w) own =
    let free = link_of-IsFree claimed item named.0 o in
    let link = link_of claimed item in
    (
      (
        insert-IsClaimed claimed m link item.handle free c,
        insert-IsOwned claimed link item.handle (λ hint k. link_of-owner claimed item hint k named)
            o,
        insert-IsClaimed claimed (written ops m) link item.handle free w,
      ),
      ground (arith, get-insert link link item.handle claimed),
    )

apply_row-IsSound :
    (item : FetchedItem) (p : Placement) (claimed : Claims) (u : Upgrade)
    → IsNamed item
    → p.handle ≡ item.handle
    → IsSound u.placements claimed u.ops
    → ((link : LinkId) → p.link_id ≡ some link → get link claimed ≡ some item.handle)
    → (let (extended, applied) = apply_row item p claimed u in
        IsSound u.placements extended applied.ops)
unfolding apply_row
apply_row-IsSound item p claimed u named e sound own =
    let ((c, o, w), got) =
      establish-IsSound p.link_id u.placements claimed u.ops item named sound own in
    let link = (establish p.link_id claimed item).0 in
    let row = row_writes-WritesRow u.tier item.body item (with_summary link item p) in
    (
      c,
      o,
      push-IsClaimed (establish p.link_id claimed item).1 u.placements u.ops
          (row_writes u.tier item.body item (with_summary link item p)) p.handle (some link) row
          (λ l f. cc (got, e, f)) w,
    )

apply_conflict-IsSound :
    (body : Option FetchedBody) (p : Placement) (claimed : Claims) (u : Upgrade)
    → IsSound u.placements claimed u.ops
    → ((link : LinkId) → p.link_id ≡ some link → get link claimed ≡ some p.handle)
    → IsSound u.placements claimed (apply_conflict body p u).ops
unfolding apply_conflict
apply_conflict-IsSound none p claimed u sound own = sound
apply_conflict-IsSound (some body) p claimed u (c, o, w) own = (
  c,
  o,
  push-IsClaimed claimed u.placements u.ops (conflict_writes body p) p.handle p.link_id
      (conflict_writes-WritesRow body p) own w,
)

apply_conflict-placements :
    (body : Option FetchedBody) (p : Placement) (u : Upgrade)
    → (apply_conflict body p u).placements ≡ u.placements
unfolding apply_conflict
apply_conflict-placements none p u = refl
apply_conflict-placements (some body) p u = refl

apply_found-IsSound :
    (item : FetchedItem) (o : Option Placement) (claimed : Claims) (u : Upgrade)
    → IsKeyed u.placements
    → get item.handle u.placements ≡ o
    → IsNamed item
    → IsSound u.placements claimed u.ops
    → (let (extended, applied) = apply_found item o claimed u in
        IsSound u.placements extended applied.ops × (applied.placements ≡ u.placements))
unfolding apply_found apply_row apply_conflict
apply_found-IsSound item none claimed u keyed e named sound = (sound, refl)
apply_found-IsSound item (some p) claimed u keyed e named sound =
    let own = keyed item.handle p e in
    let holds : (link : LinkId) → p.link_id ≡ some link → get link claimed ≡ some item.handle =
      λ link f. sound.0 item.handle p link e f in
    of_branches (λ r. IsSound u.placements r.0 r.1.ops × (r.1.placements ≡ u.placements))
      (is_full u.tier && is_conflicted p) (claimed, apply_conflict item.body p u)
      (apply_row item p claimed u)
      (
        apply_conflict-IsSound item.body p claimed u sound
            (λ link f. holds link f ∙ ap some (sym own)),
        apply_conflict-placements item.body p u,
      )
      (apply_row-IsSound item p claimed u named own sound holds, refl)

pub apply_items-IsClaimed :
    (items : List FetchedItem) (claimed : Claims) (u : Upgrade)
    → IsKeyed u.placements
    → All IsNamed items
    → IsSound u.placements claimed u.ops
    → (end : Claims) × IsClaimed end (written (apply_items items claimed u).ops u.placements)
unfolding apply_items
apply_items-IsClaimed [] claimed u keyed named sound = (claimed, sound.2)
apply_items-IsClaimed (item ∷ items) claimed u keyed (n, named) sound =
    let (extended, applied) = apply_found item (get item.handle u.placements) claimed u in
    let (kept, same) =
      apply_found-IsSound item (get item.handle u.placements) claimed u keyed refl n sound in
    let (end, c) =
      apply_items-IsClaimed items extended applied (subst IsKeyed (sym same) keyed) named
        (subst (λ m. IsSound m extended applied.ops) (sym same) kept) in
    (end, subst (λ m. IsClaimed end (written (apply_items items extended applied).ops m)) same c)
