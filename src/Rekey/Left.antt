-- ===== src/Rekey/Left.antt =====
-- src/rekey.rs, `rebuild`: the rows that stand in the batch for the edited old ones.
use io_replica.Base.{
  ◌≡◌, ◌≢◌, ◌∙◌, true, false, Option, some, List, [], ◌∷◌, ◌++◌, text_eq, option_eq, ◌==◌, arith,
  All,
}
use io_replica.Base.Set
use io_replica.Base.Set.{Set, contains, contains-insert}
use io_replica.Placement.{Handle, CollectionId, Hash, Placement, staged_edit}
use io_replica.Remote.{RemoteItem}
use io_replica.Sync.Merge.Effects.{after, after-append}
use io_replica.Change.{WriteOp, upsert_placement}
use io_replica.Rekey.Rebuild.{Batch}

-- No two members of the new handle space have one handle.
abbrev pub IsDistinct : List RemoteItem → Type 0
IsDistinct [] = Unit
IsDistinct (item ∷ items) = All (λ i. i.handle ≢ item.handle) items × IsDistinct items

-- The member of an old row that is edited: the link id, and the body that waits to be pushed.
abbrev pub IsHeir : Placement → Placement → Type 0
IsHeir p q =
    (q.link_id ≡ p.link_id) × ((o : Hash) → staged_edit p ≡ some o → staged_edit q ≡ some o)

module _ (collection : CollectionId) (stored : Handle → Option Placement) where
  -- The row left for an old one by a batch, under a handle that the batch writes.
  abbrev pub IsLeft : List WriteOp → Set → Placement → Type 0
  IsLeft ops written p =
      (h : Handle) × (q : Placement) × (contains written h ≡ true)
      × (after collection h ops (stored h) ≡ some q)
      × IsHeir p q

  -- A row written under a handle that is not yet in the batch replaces none of those left.
  pub push-IsLeft :
      (b : Batch) (q p : Placement)
      → contains b.written q.handle ≡ false
      → IsLeft b.writes b.written p
      → IsLeft (b.writes ++ upsert_placement q ∷ []) (Set.insert q.handle b.written) p
  unfolding after
  push-IsLeft b q p free (h, r, w, a, heir) =
      let other : (q.handle == h) ≡ false = ground arith in
      (
        h,
        r,
        ground (arith, contains-insert h q.handle b.written),
        after-append collection h b.writes (upsert_placement q ∷ []) (stored h) ∙ ground arith,
        heir,
      )

  -- The row itself.
  pub push-heir :
      (b : Batch) (q p : Placement)
      → q.collection ≡ collection
      → IsHeir p q
      → IsLeft (b.writes ++ upsert_placement q ∷ []) (Set.insert q.handle b.written) p
  unfolding after
  push-heir b q p c heir = (
    q.handle,
    q,
    ground (arith, contains-insert q.handle q.handle b.written),
    after-append collection q.handle b.writes (upsert_placement q ∷ []) (stored q.handle)
        ∙ ground arith,
    heir,
  )
