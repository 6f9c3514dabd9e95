-- ===== src/Upgrade/Written.antt =====
-- src/upgrade.rs, `write_fetched`: what the writes of a batch leave in a collection.
use io_replica.Base.{◌≡◌, refl, Option, none, some, List, [], ◌∷◌, ◌++◌}
use io_replica.Base.Map.{Map, insert}
use io_replica.Placement.{Handle, LinkId, Placement}
use io_replica.Remote.{Tier, FetchedItem, FetchedBody, inline, persisted}
use io_replica.Change.{WriteOp, upsert_placement, drop_placement, store_object, set_checkpoint}
use io_replica.Coroutine.{yielded, wants_write}
use io_replica.Upgrade.Machine.{Upgrade}
use io_replica.Upgrade.Fetched.{Outcome, row_writes, conflict_writes}

-- The rows of a collection once a batch is written.
unfoldable pub written : List WriteOp → Map Placement → Map Placement
unfolding insert
written [] m = m
written (upsert_placement p ∷ ops) m = written ops (insert p.handle p m)
written (_ ∷ ops) m = written ops m

pub written-append :
    (a b : List WriteOp) (m : Map Placement) → written (a ++ b) m ≡ written b (written a m)
unfolding written
written-append [] b m = refl
written-append (upsert_placement p ∷ a) b m = written-append a b (insert p.handle p m)
written-append (drop_placement _ _ _ ∷ a) b m = written-append a b m
written-append (store_object _ _ ∷ a) b m = written-append a b m
written-append (set_checkpoint _ _ ∷ a) b m = written-append a b m

-- One row is written, with a link id and a handle known beforehand.
abbrev pub WritesRow : List WriteOp → Handle → Option LinkId → Type 0
WritesRow ops h link =
    (q : Placement) × (q.link_id ≡ link) × ((m : Map Placement) → written ops m ≡ insert h q m)

pub row_writes-WritesRow :
    (tier : Tier) (body : Option FetchedBody) (item : FetchedItem) (p : Placement)
    → WritesRow (row_writes tier body item p) p.handle p.link_id
unfolding row_writes written
row_writes-WritesRow Tier.full (some (inline _ _)) item p = (_, refl, λ m. refl)
row_writes-WritesRow Tier.full (some (persisted _ _)) item p = (_, refl, λ m. refl)
row_writes-WritesRow Tier.full none item p = (_, refl, λ m. refl)
row_writes-WritesRow Tier.meta body item p = (_, refl, λ m. refl)

pub conflict_writes-WritesRow :
    (body : FetchedBody) (p : Placement) → WritesRow (conflict_writes body p) p.handle p.link_id
unfolding conflict_writes written
conflict_writes-WritesRow (inline _ _) p = (_, refl, λ m. refl)
conflict_writes-WritesRow (persisted _ _) p = (_, refl, λ m. refl)

-- The writes of an upgrade: those that it asks its driver for.
abbrev pub asked : Upgrade × Outcome → List WriteOp
asked (u, yielded (wants_write ops)) = ops
asked _ = []
