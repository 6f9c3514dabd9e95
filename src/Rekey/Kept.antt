-- ===== src/Rekey/Kept.antt =====
-- src/rekey.rs, `rebuild`: the rows that the batch leaves for the edited ones, through the loops
-- over the members and the edits.
use io_replica.Base.{
  ◌≡◌, refl, sym, ◌∙◌, Bool, true, false, not, ◌&&◌, Option, none, some, List, [], ◌∷◌, ◌++◌,
  text_eq, option_eq, if◌then◌else◌, arith, All, ◌≢◌,
}
use mathlib.Core.Path.{subst}
use io_replica.Base.Map
use io_replica.Base.Map.{Map, get, get-insert, get-remove}
use io_replica.Base.Set
use io_replica.Base.Set.{Set, contains, contains-insert}
use io_replica.Placement.{Handle, CollectionId, LinkId, Placement, status_eq}
use io_replica.Remote.{RemoteItem}
use io_replica.Change.{upsert_placement}
use io_replica.Rekey.Rows.{Resolved, carry, fresh, is_stranded, resurrected}
use io_replica.Rekey.Rebuild.{
  Batch, by_link_onto, carry_over, pull, rehome_resolved, rehome, rehome_all, resurrect,
  resurrect_all,
}
use io_replica.Rekey.Left.{IsDistinct, IsHeir, IsLeft, push-IsLeft, push-heir}
use io_replica.Rekey.Edits.{staged_edit-carry, staged_edit-resurrected}

module _ (collection : CollectionId) (stored : Handle → Option Placement) (P : Placement → Type 0)
    (same : (p q : Placement) → P p → P q → p.handle ≡ q.handle → p ≡ q)
    (home : (p : Placement) → P p → p.collection ≡ collection) where
  -- The rows still to carry are old ones, and each row carried over is left.
  abbrev pub IsKept : Batch → Type 0
  IsKept b =
      ((link : LinkId) (p : Placement) → get link b.old_by_link ≡ some p → P p)
      × ((p : Placement)
          → P p
          → contains b.carried_over p.handle ≡ true
          → IsLeft collection stored b.writes b.written p)

  pub by_link_onto-old :
      (old : List Placement) (m : Map Placement)
      → All P old
      → ((link : LinkId) (p : Placement) → get link m ≡ some p → P p)
      → ((link : LinkId) (p : Placement) → get link (by_link_onto m old) ≡ some p → P p)
  unfolding by_link_onto
  by_link_onto-old [] m a h = h
  by_link_onto-old (q ∷ old) m (x, a) h = by_link_onto-old old _ a (entry q.link_id)
    where
      entry :
          (o : Option LinkId) (link : LinkId) (p : Placement)
          → get link (elim o [ none ↦ m | some l ↦ Map.insert l q m ]) ≡ some p
          → P p
      entry none link p g = h link p g
      entry (some l) link p g = elim (text_eq.dec link l) [
        | yes e ↦ subst P (ground (arith, get-insert link l q m)) x
        | no n ↦ h link p (ground (arith, get-insert link l q m))
      ]

  -- A row is written for an old one.
  push-IsKept :
      (b : Batch) (old q : Placement)
      → P old
      → q.collection ≡ collection
      → IsHeir old q
      → contains b.written q.handle ≡ false
      → IsKept b
      → (p : Placement) → P p
      → contains (Set.insert old.handle b.carried_over) p.handle ≡ true
      → IsLeft collection stored
          (b.writes ++ upsert_placement q ∷ [])
          (Set.insert q.handle b.written)
          p
  push-IsKept b old q x c heir free (h, k) p y m = elim (text_eq.dec p.handle old.handle) [
    | yes s ↦
        push-heir collection stored b q p c (subst (λ r. IsHeir r q) (same old p x y (sym s)) heir)
    | no n ↦
        push-IsLeft collection stored b q p free
          (k p y (ground (arith, contains-insert p.handle old.handle b.carried_over)))
  ]

  rehome-IsKept :
      (item : RemoteItem) (r : Option Resolved) (b : Batch)
      → contains b.written item.handle ≡ false
      → IsKept b
      → IsKept (rehome collection item r b)
  unfolding rehome pull carry_over rehome_resolved carry fresh
  rehome-IsKept item none b free (h, k) =
      (h, λ p y c. push-IsLeft collection stored b (fresh collection item none) p free (k p y c))
  rehome-IsKept item (some r) b free (h, k) = resolved (get r.link_id b.old_by_link) refl
    where
      resolved :
          (o : Option Placement)
          → get r.link_id b.old_by_link ≡ o
          → IsKept (rehome_resolved collection item r o b)
      resolved none g = (
        h,
        λ p y c. push-IsLeft collection stored b (fresh collection item (some r)) p free (k p y c),
      )
      resolved (some old) g = (
        λ l p f. h l p (ground (arith, get-remove l r.link_id b.old_by_link)),
        push-IsKept b old (carry collection old item (some r)) (h r.link_id old g) refl
            (refl, λ o e. staged_edit-carry collection old item (some r) ∙ e) free (h, k),
      )

  rehome-written :
      (item : RemoteItem) (r : Option Resolved) (b : Batch)
      → (rehome collection item r b).written ≡ Set.insert item.handle b.written
  unfolding rehome pull carry_over rehome_resolved
  rehome-written item none b = refl
  rehome-written item (some r) b = resolved (get r.link_id b.old_by_link)
    where
      resolved :
          (o : Option Placement)
          → (rehome_resolved collection item r o b).written ≡ Set.insert item.handle b.written
      resolved none = refl
      resolved (some old) = refl

  -- The handles written are those of the members, beside the ones already there.
  pub rehome_all-written :
      (resolved : Map Resolved) (items : List RemoteItem) (b : Batch) (h : Handle)
      → All (λ i. i.handle ≢ h) items
      → contains (rehome_all collection resolved items b).written h ≡ contains b.written h
  unfolding rehome_all
  rehome_all-written resolved [] b h a = refl
  rehome_all-written resolved (item ∷ items) b h (n, a) =
      let next = rehome collection item (get item.handle resolved) b in
      rehome_all-written resolved items next h a
      ∙ ground (
        arith,
        rehome-written item (get item.handle resolved) b,
        contains-insert h item.handle b.written,
      )

  rest_free :
      (item : RemoteItem) (r : Option Resolved) (b : Batch) (items : List RemoteItem)
      → All (λ i. i.handle ≢ item.handle) items
      → All (λ i. contains b.written i.handle ≡ false) items
      → All (λ i. contains (rehome collection item r b).written i.handle ≡ false) items
  rest_free item r b [] n a = tt
  rest_free item r b (i ∷ items) (n, ns) (f, a) = (
    ground (arith, rehome-written item r b, contains-insert i.handle item.handle b.written),
    rest_free item r b items ns a,
  )

  pub rehome_all-IsKept :
      (resolved : Map Resolved) (items : List RemoteItem) (b : Batch)
      → IsDistinct items
      → All (λ i. contains b.written i.handle ≡ false) items
      → IsKept b
      → IsKept (rehome_all collection resolved items b)
  unfolding rehome_all
  rehome_all-IsKept resolved [] b d f k = k
  rehome_all-IsKept resolved (item ∷ items) b (n, d) (f, a) k =
      let r = get item.handle resolved in
      rehome_all-IsKept resolved items (rehome collection item r b) d (rest_free item r b items n a)
        (rehome-IsKept item r b f k)

  -- The handle of an edit that found no new home is not written.
  abbrev pub IsFree : Batch → Type 0
  IsFree b =
      (p : Placement)
      → P p
      → is_stranded p ≡ true
      → contains b.carried_over p.handle ≡ false
      → contains b.written p.handle ≡ false

  resurrect-IsFree : (p : Placement) (b : Batch) → IsFree b → IsFree (resurrect p b)
  resurrect-IsFree p b f q y s c =
      let k = f q y s (ground (arith, contains-insert q.handle p.handle b.carried_over)) in
      ground (
        arith,
        contains-insert q.handle p.handle b.written,
        contains-insert q.handle p.handle b.carried_over,
      )

  pub resurrect_all-IsKept :
      (old : List Placement) (b : Batch)
      → All P old
      → IsFree b
      → IsKept b
      → IsKept (resurrect_all old b)
  unfolding resurrect_all
  resurrect_all-IsKept [] b a f k = k
  resurrect_all-IsKept (p ∷ old) b (x, a) f k =
      let (f', k') = rescued (contains b.carried_over p.handle) (is_stranded p) refl refl in
      resurrect_all-IsKept old _ a f' k'
    where
      rescued :
          (known edited : Bool)
          → contains b.carried_over p.handle ≡ known
          → is_stranded p ≡ edited
          → IsFree (if not known && edited then resurrect p b else b)
            × IsKept (if not known && edited then resurrect p b else b)
      rescued true edited c s = (f, k)
      rescued false false c s = (f, k)
      rescued false true c s = (
        resurrect-IsFree p b f,
        (
          k.0,
          push-IsKept b p (resurrected p) x (home p x) (refl, staged_edit-resurrected p) (f p x s c)
              k,
        ),
      )
