-- ===== src/Sync/Merge/Pulled.antt =====
-- src/sync.rs, `merge`: a member that nothing was changed of here.
use io_replica.Sync.Merge.Taken.{
  content_taken, flags_taken, pulled_flags_row-IsSettled, refreshed_row-IsPlain,
}
use io_replica.Sync.Merge.Effects.{IsKnown, IsPlain, after, after-append}
use mathlib.Core.Path.{subst}
use mathlib.Core.List.{append_assoc, append-nil}
use io_replica.Base.{
  ◌≡◌, ◌≢◌, refl, ◌∙◌, sym, inl, inr, Option, none, some, List, [], ◌∷◌, ◌++◌, arith, text_eq,
  option_eq, ◌⊎◌,
}
use io_replica.Flags.{flags_eq}
use io_replica.Placement.{Handle, CollectionId, Placement, status_eq}
use io_replica.Remote.{RemoteItem}
use io_replica.Change.{ChangeKind, WriteOp, upsert_placement, drop_placement, deleted}
use io_replica.Sync.Engine.{Sync, Candidate, emit, count_pulled}
use io_replica.Sync.Options.{vanished}
use io_replica.Sync.Rows.{
  pulled_row, refreshed_row, pulled_flags_row, pull_content, pull_flags, pull_add, drop,
}
use io_replica.Sync.Markers.{reconcile_flags, derive, adopt}
use io_replica.Sync.Merge.{merge, merge_present}
use io_replica.Sync.Merge.Cases.{present_cases}
use io_replica.Sync.Merge.Quiet.{IsSettled, pulled_row-IsSettled}

-- The two sides of a member call for nothing: neither holds it, or its row is settled.
abbrev pub AtRest : Option Placement → Option RemoteItem → Type 0
AtRest local remote =
    ((local ≡ none) × (remote ≡ none))
    ⊎ ((p : Placement) × (item : RemoteItem) × (local ≡ some p)
        × (remote ≡ some item)
        × IsSettled p item)

-- What the merge of a member that nothing was changed of here comes to: writes that leave the
-- rows of other members alone, and after which the member calls for nothing.
pub record IsPulled (collection : CollectionId) (c : Candidate) (s : Sync)
    (r : Sync × Option ChangeKind) : Type 0 where
  pub ops : List WriteOp
  pub nothing : r.1 ≡ none
  pub writes : r.0.writes ≡ s.writes ++ ops
  pub elsewhere : (h : Handle) (o : Option Placement) → h ≢ c.handle → after collection h ops o ≡ o
  pub rest : AtRest (after collection c.handle ops c.local) c.remote

-- Writes that leave one row under the member's handle, and no other row changed.
record Leaves (collection : CollectionId) (c : Candidate) (ops : List WriteOp) (q : Placement)
    : Type 0 where
  here : after collection c.handle ops c.local ≡ some q
  elsewhere : (h : Handle) (o : Option Placement) → h ≢ c.handle → after collection h ops o ≡ o

Leaves-upsert :
    (collection : CollectionId) (c : Candidate) (ops : List WriteOp) (q q' : Placement)
    → Leaves collection c ops q
    → q'.collection ≡ collection
    → q'.handle ≡ c.handle
    → Leaves collection c (ops ++ upsert_placement q' ∷ []) q'
unfolding after
Leaves-upsert collection c ops q q' l e f = record {
  here = after-append collection c.handle ops (upsert_placement q' ∷ []) c.local ∙ ground arith;
  elsewhere = λ h o n.
      after-append collection h ops (upsert_placement q' ∷ []) o
      ∙ ground (arith, l.elsewhere h o n);
}

-- The flag axis, on a row that nothing was changed of here and whose revision is the item's.
reconcile_flags-IsPulled :
    (collection : CollectionId) (c : Candidate) (s t : Sync) (q : Placement) (item : RemoteItem)
    (ops : List WriteOp)
    → c.remote ≡ some item
    → t.writes ≡ s.writes ++ ops
    → Leaves collection c ops q
    → (plain : IsPlain collection c.handle q)
    → (item.revision ≡ none) ⊎ (item.revision ≡ plain.base.revision)
    → IsKnown c.handle item
    → IsPulled collection c s (reconcile_flags q item derive t)
unfolding pull_flags
reconcile_flags-IsPulled collection c s t q item ops r w l h v k =
    let taken = flags_taken q h.base item t h.based h.status h.flags h.ordered k.ordered k.flags in
    elim (flags_eq.dec q.flags item.flags) [
      | yes f ↦
          let e : reconcile_flags q item derive t ≡ (t, none) = ground (arith, taken) in
          subst (IsPulled collection c s) (sym e) (record {
            ops = ops;
            nothing = refl;
            writes = w;
            elsewhere = l.elsewhere;
            rest = inr (
              q,
              item,
              l.here,
              r,
              record {
                base = h.base;
                based = h.based;
                status = h.status;
                flags = h.flags;
                listed = sym f;
                ordered = h.ordered;
                revision = v;
              },
            );
          })
      | no n ↦
          let q' = pulled_flags_row q item.flags in
          let m =
            Leaves-upsert collection c ops q q' l (unfold pulled_flags_row in h.home)
              (unfold pulled_flags_row in h.handle) in
          let e : reconcile_flags q item derive t ≡ (adopt q item.flags t, none) =
            ground (arith, taken) in
          subst (IsPulled collection c s) (sym e) (record {
            ops = ops ++ upsert_placement q' ∷ [];
            nothing = refl;
            writes = unfold adopt in rw w (append_assoc s.writes ops (upsert_placement q' ∷ []));
            elsewhere = m.elsewhere;
            rest =
                inr (
                  q',
                  item,
                  m.here,
                  r,
                  pulled_flags_row-IsSettled collection c.handle q item h k v,
                );
          })
    ]

-- The content axis, and the flag axis after it.
present_cases-IsPulled :
    (collection : CollectionId) (c : Candidate) (s : Sync) (p : Placement) (item : RemoteItem)
    → c.local ≡ some p
    → c.remote ≡ some item
    → IsPlain collection c.handle p
    → IsKnown c.handle item
    → IsPulled collection c s (merge_present p item s)
present_cases-IsPulled collection c s p item l r h k =
    let taken = content_taken p h.base item s h.based h.status in
    let own : Leaves collection c [] p =
      unfold after in record { here = l; elsewhere = λ x o n. refl } in
    present_cases (IsPulled collection c s) p item s
      (λ t change e. absurd (ground (arith, taken, e)))
      (λ t row e.
        let moved : (t ≡ (pull_content p item s).0) × (row ≡ refreshed_row p item) =
          ground (arith, taken, e) in
        let plain = refreshed_row-IsPlain collection c.handle p item h in
        rw (moved.0, moved.1)
          (reconcile_flags-IsPulled collection c s (pull_content p item s).0 (refreshed_row p item)
            item (upsert_placement (refreshed_row p item) ∷ []) r (unfold pull_content in refl)
            (Leaves-upsert collection c [] p (refreshed_row p item) own plain.0.home plain.0.handle)
            plain.0 (inr plain.1) k))
      (λ t e.
        let still : t ≡ s = ground (arith, taken, e) in
        rw still (
          reconcile_flags-IsPulled collection c s s p item [] r (sym (append-nil s.writes)) own h
            (ground (arith, taken, e)) k))

-- Either side of a candidate holds nothing, or what a member is that nothing was changed of here.
abbrev pub IsPlainSide : CollectionId → Handle → Option Placement → Type 0
IsPlainSide collection h none = Unit
IsPlainSide collection h (some p) = IsPlain collection h p

abbrev pub IsKnownSide : Handle → Option RemoteItem → Type 0
IsKnownSide h none = Unit
IsKnownSide h (some item) = IsKnown h item

merge_sides-IsPulled :
    (s : Sync) (h : Handle) (local : Option Placement) (remote : Option RemoteItem)
    → IsPlainSide s.collection h local
    → IsKnownSide h remote
    → IsPulled s.collection
        (record { handle = h; local = local; remote = remote })
        s
        (merge (record { handle = h; local = local; remote = remote }) s)
unfolding merge after
merge_sides-IsPulled s h none none l r = record {
  ops = [];
  nothing = refl;
  writes = sym (append-nil s.writes);
  elsewhere = λ k o n. refl;
  rest = inl (refl, refl);
}
merge_sides-IsPulled s h none (some item) l r =
    unfold pull_add in
    record {
      ops = upsert_placement (pulled_row s.collection item) ∷ [];
      nothing = refl;
      writes = refl;
      elsewhere = λ k o n. unfold pulled_row in ground (arith, r.handle, n);
      rest = inr (
        pulled_row s.collection item,
        item,
        unfold pulled_row in ground (arith, r.handle),
        refl,
        pulled_row-IsSettled s.collection item r.ordered,
      );
    }
merge_sides-IsPulled s h (some p) none l r =
    let e : merge (record { handle = h; local = some p; remote = none }) s
        ≡ (emit (vanished h) (count_pulled (drop h deleted s)), none) =
      ground (arith, l.status, l.based) in
    subst (IsPulled s.collection _ s) (sym e) (record {
      ops = drop_placement s.collection h deleted ∷ [];
      nothing = refl;
      writes = unfold drop in refl;
      elsewhere = λ k o n. ground (arith, n);
      rest = inl (ground arith, refl);
    })
merge_sides-IsPulled s h (some p) (some item) l r =
    let c : Candidate = record { handle = h; local = some p; remote = some item } in
    let e : merge c s ≡ merge_present p item s = ground (arith, l.status, l.based) in
    subst (IsPulled s.collection c s) (sym e)
      (present_cases-IsPulled s.collection c s p item refl refl l r)

-- The merge of a member that nothing was changed of here derives no change, writes about that
-- member only, and leaves it absent on both sides or settled against its item.
pub merge-IsPulled :
    (c : Candidate) (s : Sync)
    → IsPlainSide s.collection c.handle c.local
    → IsKnownSide c.handle c.remote
    → IsPulled s.collection c s (merge c s)
merge-IsPulled c s l r = merge_sides-IsPulled s c.handle c.local c.remote l r
