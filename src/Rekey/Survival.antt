-- ===== src/Rekey/Survival.antt =====
-- src/rekey.rs, `rebuild`: the edited rows, after the batch.
use io_replica.Base.{
  ◌≡◌, ◌≢◌, refl, sym, ap, ◌∙◌, Bool, true, false, Option, some, List, [], ◌∷◌, ◌++◌, text_eq,
  if◌then◌else◌, arith, All, filter, of_branches, inl, inr, ◌⊎◌,
}
use mathlib.Core.Path.{subst}
use io_replica.Base.Map.{Map, get}
use io_replica.Base.Set.{Set, contains}
use io_replica.Placement.{Handle, CollectionId, Hash, Placement, Checkpoint, staged_edit, status_eq}
use io_replica.Remote.{RemoteItem}
use io_replica.Change.{WriteOp, set_checkpoint}
use io_replica.Sync.Merge.Effects.{after, after-append}
use io_replica.Rekey.Rows.{Resolved, is_stranded}
use io_replica.Rekey.Rebuild.{
  Batch, RekeyReport, is_spine, by_link_onto, rehome_all, resurrect_all, drops, settled, rebuild,
}
use io_replica.Rekey.Left.{IsDistinct, IsLeft}
use io_replica.Rekey.Carried.{resurrect_all-carried}
use io_replica.Rekey.Kept.{
  by_link_onto-old, rehome_all-IsKept, rehome_all-written, resurrect_all-IsKept,
}
use io_replica.Rekey.Edits.{stranded-staged}

-- Membership in the rows that are loaded.
abbrev pub Holds : List Placement → Placement → Type 0
Holds [] p = ⊥
Holds (q ∷ rows) p = (p ≡ q) ⊎ Holds rows p

Holds-All :
    (rows old : List Placement)
    → ((p : Placement) → Holds old p → Holds rows p)
    → All (Holds rows) old
Holds-All rows [] h = tt
Holds-All rows (p ∷ old) h = (h p (inl refl), Holds-All rows old (λ q m. h q (inr m)))

Holds-of_All :
    (Q : Placement → Type 0) (rows : List Placement) (p : Placement)
    → All Q rows
    → Holds rows p
    → Q p
Holds-of_All Q [] p a m = absurd m
Holds-of_All Q (q ∷ rows) p (x, a) (inl e) = subst Q (sym e) x
Holds-of_All Q (q ∷ rows) p (x, a) (inr m) = Holds-of_All Q rows p a m

Holds-first :
    (b : Bool) (p q : Placement) (rows : List Placement)
    → b ≡ true
    → p ≡ q
    → Holds (if b then q ∷ rows else rows) p
Holds-first true p q rows h e = inl e
Holds-first false p q rows h e = cc

Holds-filter :
    (rows : List Placement) (p : Placement)
    → Holds rows p
    → is_spine p ≡ true
    → Holds (filter is_spine rows) p
Holds-filter [] p m s = m
Holds-filter (q ∷ rows) p (inl e) s =
    Holds-first (is_spine q) p q (filter is_spine rows) (ap is_spine (sym e) ∙ s) e
Holds-filter (q ∷ rows) p (inr m) s =
    let rest = Holds-filter rows p m s in
    of_branches (λ l. Holds l p) (is_spine q) (q ∷ filter is_spine rows) (filter is_spine rows)
      (inr rest) rest

filter-All :
    (Q : Placement → Type 0) (rows : List Placement) → All Q rows → All Q (filter is_spine rows)
filter-All Q [] a = tt
filter-All Q (q ∷ rows) (x, a) =
    let rest = filter-All Q rows a in
    of_branches (All Q) (is_spine q) (q ∷ filter is_spine rows) (filter is_spine rows) (x, rest)
      rest

-- An empty batch has no handle written.
empty_written : (items : List RemoteItem) → All (λ i. contains [] i.handle ≡ false) items
unfolding contains
empty_written [] = tt
empty_written (i ∷ items) = (refl, empty_written items)

stranded-is_spine : (p : Placement) → is_stranded p ≡ true → is_spine p ≡ true
stranded-is_spine p s = ground arith

-- The drops leave what stands under a handle that is written.
after-drops :
    (collection : CollectionId) (written : Set) (old : List Placement) (h : Handle)
    (o : Option Placement)
    → contains written h ≡ true
    → after collection h (drops collection written old) o ≡ o
unfolding drops after
after-drops collection written [] h o w = refl
after-drops collection written (p ∷ old) h o w =
    ground (arith, after-drops collection written old h o w)

-- The batch leaves under a written handle what the loops over the members and the edits leave.
after-rebuild_written :
    (collection : CollectionId) (items : List RemoteItem) (resolved : Map Resolved)
    (loaded : List Placement) (checkpoint : Checkpoint) (report : RekeyReport) (h : Handle)
    (o : Option Placement)
    → let b = settled collection items resolved (filter is_spine loaded) report in
      contains b.written h ≡ true
      → after collection h (rebuild collection items resolved loaded checkpoint report).1 o
        ≡ after collection h b.writes o
unfolding rebuild after
after-rebuild_written collection items resolved loaded checkpoint report h o w =
    let old = filter is_spine loaded in
    let b = settled collection items resolved old report in go b.writes b.written w
  where
    go :
        (writes : List WriteOp) (written : Set)
        → contains written h ≡ true
        → after collection h
            ((writes ++ drops collection written (filter is_spine loaded))
              ++ set_checkpoint collection checkpoint ∷ [])
            o
          ≡ after collection h writes o
    go writes written w =
        let gone = drops collection written (filter is_spine loaded) in
        after-append collection h (writes ++ gone) (set_checkpoint collection checkpoint ∷ []) o
        ∙ after-append collection h writes gone o
        ∙ after-drops collection written (filter is_spine loaded) h (after collection h writes o) w

module _ (collection : CollectionId) (items : List RemoteItem) (resolved : Map Resolved)
    (loaded : List Placement) (checkpoint : Checkpoint) (report : RekeyReport)
    (stored : Handle → Option Placement)
    (one : (q r : Placement) → Holds loaded q → Holds loaded r → q.handle ≡ r.handle → q ≡ r)
    (home : All (λ q. q.collection ≡ collection) loaded) (distinct : IsDistinct items)
    (apart : (q : Placement)
      → Holds loaded q
      → is_stranded q ≡ true
      → All (λ i. i.handle ≢ q.handle) items) where
  at_home : (q : Placement) → Holds loaded q → q.collection ≡ collection
  at_home q y = Holds-of_All (λ r. r.collection ≡ collection) loaded q home y

  settled-IsLeft :
      (p : Placement)
      → Holds loaded p
      → is_stranded p ≡ true
      → let b = settled collection items resolved (filter is_spine loaded) report in
        IsLeft collection stored b.writes b.written p
  unfolding settled contains get
  settled-IsLeft p m s =
      let old = filter is_spine loaded in
      let empty : Batch = record {
        old_by_link = by_link_onto [] old;
        written = [];
        carried_over = [];
        writes = [];
        report = report;
      } in
      let b = rehome_all collection resolved items empty in
      let all_old = filter-All (Holds loaded) loaded (Holds-All loaded loaded (λ q h. h)) in
      let kept =
        resurrect_all-IsKept collection stored (Holds loaded) one at_home old b all_old
          (λ q y t c.
            rehome_all-written collection stored (Holds loaded) one at_home resolved items empty
              q.handle (apart q y t))
          (rehome_all-IsKept collection stored (Holds loaded) one at_home resolved items empty
            distinct (empty_written items)
            (
              by_link_onto-old collection stored (Holds loaded) one at_home old [] all_old
                  (λ l q g. cc),
              λ q y c. cc,
            )) in
      kept.1 p m (
        Holds-of_All
          (λ q. is_stranded q ≡ true → contains (resurrect_all old b).carried_over q.handle ≡ true)
          old p (resurrect_all-carried old b) (Holds-filter loaded p m (stranded-is_spine p s)) s)

  -- Let the loaded rows be of the collection, no two under one handle, and the new members under
  -- distinct handles, none of them that of a dirty or conflicted loaded row with a staged body.
  -- Then for each such row the batch of a rekey, whatever stood in the storage, leaves under
  -- some handle a row of the same link id that stages the same body.
  pub after-rebuild :
      (p : Placement)
      → Holds loaded p
      → is_stranded p ≡ true
      → let ops = (rebuild collection items resolved loaded checkpoint report).1 in
        (o : Hash) × (h : Handle) × (row : Placement) × (staged_edit p ≡ some o)
        × (after collection h ops (stored h) ≡ some row)
        × (row.link_id ≡ p.link_id)
        × (staged_edit row ≡ some o)
  after-rebuild p m s =
      let (o, e) = stranded-staged p s in
      let (h, row, w, a, (linked, staged)) = settled-IsLeft p m s in
      let tail =
        after-rebuild_written collection items resolved loaded checkpoint report h (stored h) w in
      (o, h, row, e, tail ∙ a, linked, staged o e)
