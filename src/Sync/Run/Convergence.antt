-- ===== src/Sync/Run/Convergence.antt =====
-- src/sync.rs under the driver of src/client.rs: what a sync makes of a collection that nothing
-- was changed of here.
use io_replica.Sync.Run.Course.{
  IsMerging, IsOnCourse, View, hand_over_held, merge_one-IsMerging, moved-IsPulled, moved,
  IsOnCourse-after, step_last,
}
use mathlib.Core.Path.{subst}
use io_replica.Base.{
  ℕ, zero, suc, ◌≡◌, ◌≤◌, refl, sym, ap, ◌∙◌, inl, inr, true, false, Option, none, some, List, [],
  ◌∷◌, ◌++◌, arith, length, leb, text_eq, Bool-cases,
}
use io_replica.Base.Map.{get}
use io_replica.Placement.{Handle, CollectionId}
use io_replica.Remote.{RemoteItem}
use io_replica.Change.{set_checkpoint}
use io_replica.Coroutine.{Arg, ok}
use io_replica.Client.{Seams, Client, run, service}
use io_replica.Sync.Options.{SyncReport}
use io_replica.Sync.Engine.{Sync, State, Merge, Join, Candidate}
use io_replica.Sync.Join.{next, join_size, kept}
use io_replica.Sync.Join.Loop.{next-size, next_empty}
use io_replica.Sync.Join.Order.{keyed}
use io_replica.Sync.Join.Pairs.{walk, IsAscending}
use io_replica.Sync.Merge.{merge}
use io_replica.Sync.Merge.Pulled.{AtRest, IsPulled}
use io_replica.Sync.Merge.Effects.{after, after-append}
use io_replica.Sync.Run.{
  write_chunk, merge_within, merge_one, merge_round, merge_step, hand_over, rows_left, resume,
}
use io_replica.Sync.Run.Agreement.{Answer, go_on, at_write}
use io_replica.Sync.Run.Quiescent.{merge_within_at_end, advance_found}
use io_replica.Sync.Run.Idle.{walk-next, walk_at_end}
use io_replica.Sync.Run.Resumes.{resume_merging}
use io_replica.Sync.Run.Stores.{RowStore}

module _ (S : Seams) (collection : CollectionId) (store : RowStore S collection)
    (items : List RemoteItem) (r : S.Remote) where
  -- The run ends with a report, and every member is at rest in the storage then.
  abbrev pub Converges : Option (Answer S) → Type 0
  Converges o =
      (report : SyncReport) × (t : S.Storage) × (o
        ≡ some (ok (report, record { storage = t; remote = r })))
      × store.IsValid t
      × ((h : Handle) → AtRest (store.row t h) (get h (keyed items)))

  -- What a storage will hold, once the writes that wait are written.
  abbrev pub IsViewed : S.Storage → Sync → View → Type 0
  IsViewed t s view = (h : Handle) → after collection h s.writes (store.row t h) ≡ view h

  abbrev pub client_at : S.Storage → Client S
  client_at t = record { storage = t; remote = r }

  Converges-at_end :
      (k : ℕ) (s : Sync) (m : Merge) (view : View) (t : S.Storage)
      → IsMerging collection s m
      → next m.join ≡ none
      → store.IsValid t
      → IsViewed t s view
      → IsOnCourse collection items view []
      → Converges (go_on S 1 (client_at t) (merge_within k s))
  unfolding after
  Converges-at_end k s m view t h e v w course =
      let ops = s.writes ++ set_checkpoint s.collection m.checkpoint ∷ [] in
      let u = store.write t ops v in
      let ended = merge_within_at_end k s m h.merging e ∙ step_last s m.checkpoint h.pushes in
      let seen : (x : Handle) → store.row u.0 x ≡ view x = λ x.
        u.3 x
        ∙ after-append collection x s.writes (set_checkpoint s.collection m.checkpoint ∷ [])
            (store.row t x)
        ∙ w x in
      (
        s.report,
        u.0,
        ap (go_on S 1 (client_at t)) ended
            ∙ at_write S 0 _ ops (client_at t) (ok u.0) u.1 refl h.pushes,
        u.2,
        λ x. rw (seen x) (course.rest x refl),
      )

  course_at_end :
      (n : ℕ) (m : Merge) {view : View}
      → next m.join ≡ none
      → IsOnCourse collection items view (walk n m.join)
      → IsOnCourse collection items view []
  course_at_end n m e course = rw (walk_at_end n m.join e) at course

  -- What a loop converges to over as many candidates as are left, in some number of rounds.
  abbrev pub ConvergesWithin : ℕ → Type 0
  ConvergesWithin n =
      (k : ℕ) (s : Sync) (m : Merge) (view : View) (t : S.Storage)
      → IsMerging collection s m
      → join_size m.join ≤ n
      → join_size m.join ≤ k
      → store.IsValid t
      → IsViewed t s view
      → IsAscending (walk n m.join)
      → IsOnCourse collection items view (walk n m.join)
      → (rounds : ℕ) × Converges (go_on S rounds (client_at t) (merge_within k s))

  at_batch :
      (n : ℕ) (s : Sync) (t u : S.Storage)
      → s.pushes ≡ []
      → s.next_checkpoint ≡ none
      → S.write t s.writes ≡ ok u
      → go_on S (suc n) (client_at t) (hand_over State.merging s)
        ≡ go_on S n (client_at u) (merge_step (record s { writes = []; state = State.merging }))
  unfolding run service
  at_batch n s t u e f w =
      let s' : Sync = record s { writes = []; state = State.merging } in
      let next : resume (some Arg.write) s' ≡ merge_step s' = resume_merging s' refl in
      rw (hand_over_held s e f, w, next) refl

  -- A batch that is full is written before the loop goes on.
  Converges-over_batch :
      (n k : ℕ) (s : Sync) (m : Merge) (view : View) (t : S.Storage)
      → IsMerging collection s m
      → join_size m.join ≤ n
      → join_size m.join ≤ k
      → store.IsValid t
      → IsViewed t s view
      → IsAscending (walk n m.join)
      → IsOnCourse collection items view (walk n m.join)
      → ConvergesWithin n
      → (rounds : ℕ) × Converges (
          go_on S rounds (client_at t) (elim (leb write_chunk (length s.writes)) [
            | true ↦ hand_over State.merging s
            | false ↦ merge_within k s
          ]))
  unfolding after
  Converges-over_batch n k s m view t h b c v w a course ih =
      elim (Bool-cases (leb write_chunk (length s.writes))) [
        | inr e ↦ rw e (ih k s m view t h b c v w a course)
        | inl e ↦
            let u = store.write t s.writes v in
            let s' : Sync = record s { writes = []; state = State.merging } in
            let still : IsMerging collection s' m = record {
              merging = h.merging;
              complete = h.complete;
              pushes = h.pushes;
              held = h.held;
              home = h.home;
            } in
            let later =
              ih (rows_left s.merging) s' m view u.0 still b (rw h.merging (omega arith)) u.2
                (λ x. u.3 x ∙ w x) a course in
            let next = at_batch later.0 s t u.0 h.pushes h.held u.1 in
            rw e (suc later.0, subst Converges (sym next) (unfold merge_step in later.1))
      ]

  Converges-round :
      (n k : ℕ) (s : Sync) (m : Merge) (view : View) (t : S.Storage) (c : Candidate) (j : Join)
      → IsMerging collection s m
      → join_size m.join ≤ suc n
      → join_size m.join ≤ suc k
      → store.IsValid t
      → IsViewed t s view
      → next m.join ≡ some (c, j)
      → IsAscending (c ∷ walk n j)
      → IsOnCourse collection items view (c ∷ walk n j)
      → ConvergesWithin n
      → (rounds : ℕ) × Converges (go_on S rounds (client_at t) (merge_within (suc k) s))
  Converges-round n k s m view t c j h b d v w e (above, a) course ih =
      let less = next-size m.join c j e in
      let ready = course.ready.0 in
      let pulled : IsPulled collection c (moved m j s) (merge c (moved m j s)) =
        moved-IsPulled collection s m j c h.home ready.plain ready.known in
      let one = merge_one-IsMerging collection s m j c h pulled.nothing in
      let view' : View = λ x. after collection x pulled.ops (view x) in
      let written : (merge_one c (moved m j s)).writes ≡ s.writes ++ pulled.ops =
        ap (λ u. u.writes) one.0 ∙ pulled.writes in
      let viewed : IsViewed t (merge_one c (moved m j s)) view' = λ x.
        ap (λ l. after collection x l (store.row t x)) written
        ∙ after-append collection x s.writes pulled.ops (store.row t x)
        ∙ ap (after collection x pulled.ops) (w x) in
      let on_course =
        IsOnCourse-after collection items view view' c (walk n j)
          (λ x n. pulled.elsewhere x (view x) n) (rw (sym ready.local) pulled.rest) above course in
      let found =
        Converges-over_batch n k (merge_one c (moved m j s)) (record m { join = j }) view' t one.1
          (omega arith) (omega arith) v viewed a on_course ih in
      let kept : kept m c ≡ some c = ground (arith, h.complete) in
      let stepped : merge_within (suc k) s ≡ merge_round (merge_within k) (moved m j s, some c) =
        unfold merge_within in
        ap (merge_round (merge_within k)) (advance_found s m c j h.merging e kept) in
      (found.0, subst (λ o. Converges (go_on S found.0 (client_at t) o)) (sym stepped) found.1)

  pub converges_within : (n : ℕ) → ConvergesWithin n
  converges_within n zero s m view t h b d v w a course =
      let e = next_empty m.join d in
      (1, Converges-at_end zero s m view t h e v w (course_at_end n m e course))
  converges_within zero (suc k) s m view t h b d v w a course =
      let e = next_empty m.join b in
      (1, Converges-at_end (suc k) s m view t h e v w (course_at_end zero m e course))
  converges_within (suc n) (suc k) s m view t h b d v w a course =
      go (next m.join) refl (converges_within n)
    where
      go :
          (o : Option (Candidate × Join))
          → next m.join ≡ o
          → ConvergesWithin n
          → (rounds : ℕ) × Converges (go_on S rounds (client_at t) (merge_within (suc k) s))
      go none e ih =
          (1, Converges-at_end (suc k) s m view t h e v w (course_at_end (suc n) m e course))
      go (some (c, j)) e ih =
          let split = walk-next n m.join c j e in
          Converges-round n k s m view t c j h b d v w e (rw split at a) (rw split at course) ih
