-- ===== src/Rekey/Rebuild.antt =====
-- src/rekey.rs, `rebuild`: the batch that moves the collection onto the new handles.
use io_replica.Base.{
  ℕ, ◌+◌, Bool, ◌&&◌, not, Option, none, some, List, [], ◌∷◌, ◌++◌, text_eq, ◌==◌, if◌then◌else◌,
  filter, length,
}
use io_replica.Base.Map
use io_replica.Base.Map.{Map, get}
use io_replica.Base.Set
use io_replica.Base.Set.{Set, contains}
use io_replica.Placement.{CollectionId, LinkId, Placement, Checkpoint, status_eq, clean, created}
use io_replica.Remote.{RemoteItem}
use io_replica.Change.{WriteOp, upsert_placement, drop_placement, set_checkpoint, superseded}
use io_replica.Rekey.Rows.{Resolved, carry, fresh, is_stranded, resurrected}

-- `ReplicaRekeyReport`.
pub record RekeyReport : Type 0 where
  pub rekeyed : ℕ
  pub pulled : ℕ
  pub dropped : ℕ

abbrev pub empty_report : RekeyReport
empty_report = record { rekeyed = 0; pulled = 0; dropped = 0 }

-- The local variables of `rebuild`, and the report.
pub record Batch : Type 0 where
  pub old_by_link : Map Placement
  pub written : Set
  pub carried_over : Set
  pub writes : List WriteOp
  pub report : RekeyReport

abbrev pub is_spine : Placement → Bool
is_spine p = not (p.status == created)

-- `collect`: of two rows of one link id, the later stays.
unfoldable pub by_link_onto : Map Placement → List Placement → Map Placement
unfolding Map.insert
by_link_onto m [] = m
by_link_onto m (p ∷ old) =
    by_link_onto (elim p.link_id [ none ↦ m | some link ↦ Map.insert link p m ]) old

unfoldable pub carry_over :
    CollectionId → RemoteItem → Option Resolved → LinkId → Placement → Batch → Batch
unfolding carry Set.insert Map.remove
carry_over collection item resolved link old b = record {
  old_by_link = Map.remove link b.old_by_link;
  written = Set.insert item.handle b.written;
  carried_over = Set.insert old.handle b.carried_over;
  writes = b.writes ++ upsert_placement (carry collection old item resolved) ∷ [];
  report = record b.report { rekeyed = b.report.rekeyed + 1 };
}

unfoldable pub pull : CollectionId → RemoteItem → Option Resolved → Batch → Batch
unfolding fresh Set.insert
pull collection item resolved b = record b {
  written = Set.insert item.handle b.written;
  writes = b.writes ++ upsert_placement (fresh collection item resolved) ∷ [];
  report = record b.report { pulled = b.report.pulled + 1 };
}

unfoldable pub rehome_resolved :
    CollectionId → RemoteItem → Resolved → Option Placement → Batch → Batch
unfolding carry_over pull
rehome_resolved collection item r (some old) b = carry_over collection item (some r) r.link_id old b
rehome_resolved collection item r none b = pull collection item (some r) b

-- A round of the loop over the new members.
unfoldable pub rehome : CollectionId → RemoteItem → Option Resolved → Batch → Batch
unfolding rehome_resolved pull get
rehome collection item none b = pull collection item none b
rehome collection item (some r) b =
    rehome_resolved collection item r (get r.link_id b.old_by_link) b

unfoldable pub rehome_all : CollectionId → Map Resolved → List RemoteItem → Batch → Batch
unfolding rehome get
rehome_all collection resolved [] b = b
rehome_all collection resolved (item ∷ items) b =
    rehome_all collection resolved items (rehome collection item (get item.handle resolved) b)

abbrev pub resurrect : Placement → Batch → Batch
resurrect p b = record b {
  written = Set.insert p.handle b.written;
  writes = b.writes ++ upsert_placement (resurrected p) ∷ [];
  carried_over = Set.insert p.handle b.carried_over;
  report = record b.report { rekeyed = b.report.rekeyed + 1 };
}

unfoldable pub resurrect_all : List Placement → Batch → Batch
unfolding contains Set.insert
resurrect_all [] b = b
resurrect_all (p ∷ old) b =
    resurrect_all old
      (if not (contains b.carried_over p.handle) && is_stranded p then resurrect p b else b)

-- The pending state that is lost with the old handles.
unfoldable pub lost : Set → List Placement → ℕ
unfolding contains
lost carried_over old =
    length (filter (λ p. not (p.status == clean) && not (contains carried_over p.handle)) old)

unfoldable pub drops : CollectionId → Set → List Placement → List WriteOp
unfolding contains
drops collection written [] = []
drops collection written (p ∷ old) =
    let rest = drops collection written old in
    if contains written p.handle then rest else drop_placement collection p.handle superseded ∷ rest

-- What the two loops over the members and the edits leave.
unfoldable pub settled :
    CollectionId → List RemoteItem → Map Resolved → List Placement → RekeyReport → Batch
unfolding by_link_onto rehome_all resurrect_all
settled collection items resolved old report = resurrect_all old (
    rehome_all collection resolved items (record {
      old_by_link = by_link_onto [] old;
      written = [];
      carried_over = [];
      writes = [];
      report = report;
    }))

-- `ReplicaRekey::rebuild`, on the rows loaded, with the checkpoint at hand: the report and the writes.
unfoldable pub rebuild :
    CollectionId
    → List RemoteItem
    → Map Resolved
    → List Placement
    → Checkpoint
    → RekeyReport
    → RekeyReport × List WriteOp
unfolding settled lost drops
rebuild collection items resolved loaded checkpoint report =
    let old = filter is_spine loaded in
    let b = settled collection items resolved old report in
    (
      record b.report { dropped = b.report.dropped + lost b.carried_over old },
      (b.writes ++ drops collection b.written old) ++ set_checkpoint collection checkpoint ∷ [],
    )
