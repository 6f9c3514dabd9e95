-- ===== src/Upgrade/Progress.antt =====
-- src/upgrade.rs: what a fetched body leaves to do.
use io_replica.Base.{
  ◌≡◌, refl, ap, ◌&&◌, true, false, some, List, [], ◌∷◌, ◌++◌, arith, Bool-cases, inl, inr,
}
use io_replica.Placement.{Placement, status_eq, LinkId}
use io_replica.Remote.{Tier, FetchedItem, FetchedBody, inline, persisted}
use io_replica.Change.{WriteOp, upsert_placement}
use io_replica.Upgrade.Machine.{Upgrade, is_conflicted, is_pending}
use io_replica.Upgrade.Fetched.{
  Claims, establish, with_summary, row_writes, conflict_writes, apply_conflict, apply_row,
  apply_found, is_full,
}

-- The writes end with a row under the placement's handle, which lacks nothing of the tier.
abbrev pub Satisfies : Tier → Placement → List WriteOp → Type 0
Satisfies tier p ops =
    (q : Placement) × (stores : List WriteOp) × (ops ≡ stores ++ upsert_placement q ∷ [])
    × (q.handle ≡ p.handle)
    × (is_pending tier q ≡ false)

row_writes-Satisfies :
    (tier : Tier) (body : FetchedBody) (item : FetchedItem) (link : LinkId) (p : Placement)
    → is_full tier && is_conflicted p ≡ false
    → Satisfies tier p (row_writes tier (some body) item (with_summary link item p))
unfolding row_writes
row_writes-Satisfies Tier.full (inline _ _) item link p e = (_, _ ∷ [], refl, refl, ground arith)
row_writes-Satisfies Tier.full (persisted _ _) item link p e = (_, _ ∷ [], refl, refl, ground arith)
row_writes-Satisfies Tier.meta body item link p e = (_, [], refl, refl, refl)

conflict_writes-Satisfies :
    (tier : Tier) (body : FetchedBody) (p : Placement)
    → is_full tier && is_conflicted p ≡ true
    → Satisfies tier p (conflict_writes body p)
unfolding conflict_writes
conflict_writes-Satisfies Tier.full (inline _ _) p e = (_, _ ∷ [], refl, refl, ground arith)
conflict_writes-Satisfies Tier.full (persisted _ _) p e = (_, _ ∷ [], refl, refl, ground arith)
conflict_writes-Satisfies Tier.meta body p e = cc

-- An item that comes with a body, applied to a loaded row of its handle, adds writes that end
-- with a row under the handle of that row which is not pending at the tier asked for any more, a
-- conflicted one included.
pub apply_found-Satisfies :
    (item : FetchedItem) (p : Placement) (claimed : Claims) (u : Upgrade) (body : FetchedBody)
    → item.body ≡ some body
    → (new : List WriteOp) × ((apply_found item (some p) claimed u).1.ops ≡ u.ops ++ new)
      × Satisfies u.tier p new
unfolding apply_found apply_row apply_conflict
apply_found-Satisfies item p claimed u body e =
    elim (Bool-cases (is_full u.tier && is_conflicted p)) [
      | inl c ↦ (
        conflict_writes body p,
        rw c (ap (λ b. (apply_conflict b p u).ops) e),
        conflict_writes-Satisfies u.tier body p c,
      )
      | inr c ↦ (
        row_writes u.tier (some body) item
            (with_summary (establish p.link_id claimed item).0 item p),
        rw c (
            ap
              (λ b.
                u.ops
                ++ row_writes u.tier b item
                    (with_summary (establish p.link_id claimed item).0 item p))
              e),
        row_writes-Satisfies u.tier body item (establish p.link_id claimed item).0 p c,
      )
    ]
