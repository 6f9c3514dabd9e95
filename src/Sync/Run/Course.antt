-- ===== src/Sync/Run/Course.antt =====
-- src/sync.rs, `merge_step`: the course of a run over a collection that nothing was changed of
-- here.
use mathlib.Core.Path.{subst}
use io_replica.Base.{
  ◌≡◌, ◌≢◌, sym, ap, ◌∙◌, true, Option, none, some, List, [], ◌∷◌, ◌++◌, arith, All, text_eq,
  Ordering,
}
use io_replica.Base.Strings.{cmp, cmp_refl}
use io_replica.Base.Map.{get}
use io_replica.Placement.{Handle, CollectionId, Placement, Checkpoint}
use io_replica.Remote.{RemoteItem}
use io_replica.Change.{set_checkpoint}
use io_replica.Coroutine.{yielded, wants_write}
use io_replica.Sync.Engine.{Sync, State, Merge, Join, Candidate}
use io_replica.Sync.Join.Order.{keyed}
use io_replica.Sync.Join.Pairs.{find_candidate}
use io_replica.Sync.Merge.{merge}
use io_replica.Sync.Merge.Writes.{merge-frame}
use io_replica.Sync.Merge.Pulled.{AtRest, IsPlainSide, IsKnownSide, IsPulled, merge-IsPulled}
use io_replica.Sync.Run.{merge_one, derive_change, hand_over, batch, ending, step}

-- What the rows are under each handle, once the writes that wait are written.
abbrev pub View : Type 0
View = Handle → Option Placement

-- A candidate of the walk that is still to be merged.
pub record IsReady (collection : CollectionId) (items : List RemoteItem) (view : View)
    (c : Candidate) : Type 0 where
  pub local : c.local ≡ view c.handle
  pub remote : c.remote ≡ get c.handle (keyed items)
  pub plain : IsPlainSide collection c.handle c.local
  pub known : IsKnownSide c.handle c.remote

-- The candidates left are still to be merged, and every other member is at rest.
pub record IsOnCourse (collection : CollectionId) (items : List RemoteItem) (view : View)
    (l : List Candidate) : Type 0 where
  pub ready : All (IsReady collection items view) l
  pub rest : (h : Handle) → find_candidate h l ≡ none → AtRest (view h) (get h (keyed items))

pub IsReady-elsewhere :
    (collection : CollectionId) (items : List RemoteItem) (view view' : View) (h : Handle)
    (l : List Candidate)
    → ((k : Handle) → k ≢ h → view' k ≡ view k)
    → All (λ d. cmp h d.handle ≡ Ordering.lt) l
    → All (IsReady collection items view) l
    → All (IsReady collection items view') l
IsReady-elsewhere collection items view view' h [] same above ready = tt
IsReady-elsewhere collection items view view' h (d ∷ l) same (a, b) (r, rs) = (
  record {
    local = r.local ∙ sym (same d.handle (ground (arith, a, cmp_refl h)));
    remote = r.remote;
    plain = r.plain;
    known = r.known;
  },
  IsReady-elsewhere collection items view view' h l same b rs,
)

-- The first candidate is merged.
pub IsOnCourse-after :
    (collection : CollectionId) (items : List RemoteItem) (view view' : View) (c : Candidate)
    (l : List Candidate)
    → ((k : Handle) → k ≢ c.handle → view' k ≡ view k)
    → AtRest (view' c.handle) c.remote
    → All (λ d. cmp c.handle d.handle ≡ Ordering.lt) l
    → IsOnCourse collection items view (c ∷ l)
    → IsOnCourse collection items view' l
IsOnCourse-after collection items view view' c l same rest above course = record {
  ready = IsReady-elsewhere collection items view view' c.handle l same above course.ready.1;
  rest = λ h e. elim (text_eq.dec h c.handle) [
    | yes p ↦ rw (p, sym course.ready.0.remote) rest
    | no n ↦ rw (same h n) (course.rest h (ground (arith, e, n)))
  ];
}

-- A run of the merge phase at a collection, with nothing to push.
pub record IsMerging (collection : CollectionId) (s : Sync) (m : Merge) : Type 0 where
  pub merging : s.merging ≡ some m
  pub complete : m.complete ≡ true
  pub pushes : s.pushes ≡ []
  pub held : s.next_checkpoint ≡ none
  pub home : s.collection ≡ collection

-- The run goes on with a join, after a merge.
abbrev pub moved : Merge → Join → Sync → Sync
moved m j s = record s { merging = some (record m { join = j }) }

pub merge_one-IsMerging :
    (collection : CollectionId) (s : Sync) (m : Merge) (j : Join) (c : Candidate)
    → IsMerging collection s m
    → (merge c (moved m j s)).1 ≡ none
    → (merge_one c (moved m j s) ≡ (merge c (moved m j s)).0)
      × IsMerging collection (merge_one c (moved m j s)) (record m { join = j })
unfolding merge_one derive_change
merge_one-IsMerging collection s m j c h e =
    let f = merge-frame c (moved m j s) in
    let same : merge_one c (moved m j s) ≡ (merge c (moved m j s)).0 = ground (arith, e) in
    (
      same,
      rw same (record {
        merging = ap (λ t. t.merging) f;
        complete = h.complete;
        pushes = ap (λ t. t.pushes) f ∙ h.pushes;
        held = ap (λ t. t.next_checkpoint) f ∙ h.held;
        home = ap (λ t. t.collection) f ∙ h.home;
      }),
    )

pub step_last :
    (s : Sync) (checkpoint : Checkpoint)
    → s.pushes ≡ []
    → step (record s { merging = none; next_checkpoint = some checkpoint }) ≡ (
      record s { merging = none; next_checkpoint = none; writes = []; state = State.pending_write },
      yielded (wants_write (s.writes ++ set_checkpoint s.collection checkpoint ∷ [])),
    )
unfolding step hand_over batch ending
step_last s checkpoint e = ground (arith, e)

pub hand_over_held :
    (s : Sync)
    → s.pushes ≡ []
    → s.next_checkpoint ≡ none
    → hand_over State.merging s
      ≡ (record s { writes = []; state = State.merging }, yielded (wants_write s.writes))
unfolding hand_over batch ending
hand_over_held s e f = ground (arith, e, f)

pub moved-IsPulled :
    (collection : CollectionId) (s : Sync) (m : Merge) (j : Join) (c : Candidate)
    → s.collection ≡ collection
    → IsPlainSide collection c.handle c.local
    → IsKnownSide c.handle c.remote
    → IsPulled collection c (moved m j s) (merge c (moved m j s))
moved-IsPulled collection s m j c h l r =
    subst (λ x. IsPulled x c (moved m j s) (merge c (moved m j s))) h
      (merge-IsPulled c (moved m j s) (rw h l) r)
