-- ===== src/Sync/Run/Termination.antt =====
-- src/sync.rs under the driver of src/client.rs: the end of a run.
use io_replica.Sync.Run.Resumes.{
  resume_enumerated, resume_loaded, resume_merging, resume_pushed, resume_written,
}
use io_replica.Base.{
  ℕ, zero, suc, ◌*◌, ◌≤◌, ◌≡◌, refl, ap, Bool, true, Option, none, some, List, arith, length, ◌⊎◌,
  inl, inr, if◌then◌else◌,
}
use io_replica.Base.Set.{from_list}
use io_replica.Placement.{CollectionId, Checkpoint}
use io_replica.Remote.{PushResult, RemoteSnapshot}
use io_replica.Change.{Change, WriteOp}
use io_replica.Coroutine.{
  Arg, ArgError, Result, ok, err, yielded, complete, Yield, wants_write, wants_push, wants_load,
  wants_enumerate, all, Loaded,
}
use io_replica.Client.{Seams, Client, ClientError, service, run, react, respond}
use io_replica.Client.Verbs.{sync}
use io_replica.Client.Laws.{answers, is_seam, IsReply, service-IsReply}
use io_replica.Sync.Options.{SyncOptions, SyncReport}
use io_replica.Sync.Engine.{Sync, State, Merge, new}
use io_replica.Sync.Join.{join_size, open_merge, prepare}
use io_replica.Sync.Run.{Outcome, resume, merge_step, on_push, on_written, on_load, rows_left}
use io_replica.Sync.Run.Progress.{
  IsWaiting, merging, writing, pushing, IsWaiting-mono, rank, merge_within-IsWaiting, merge_bound,
}
use io_replica.Sync.Run.Replies.{on_push-IsWaiting, on_written_lem}

merge_step-IsWaiting :
    (s : Sync) (m : Merge) → s.merging ≡ some m → IsWaiting (merge_bound s m) (merge_step s)
unfolding merge_step
merge_step-IsWaiting s m h =
    let enough : join_size m.join ≤ rows_left s.merging = rw h (omega arith) in
    merge_within-IsWaiting (rows_left s.merging) s m h enough

-- The merge that an enumerate opens.
opened : RemoteSnapshot → Sync → Merge
opened snapshot s = record {
  join = record { local = s.local; remote = prepare snapshot.items };
  vanished = from_list snapshot.vanished;
  complete = snapshot.complete;
  checkpoint = snapshot.checkpoint;
}

open_merge-merging :
    (snapshot : RemoteSnapshot) (s : Sync)
    → (open_merge snapshot s).merging ≡ some (opened snapshot s)
unfolding open_merge opened
open_merge-merging snapshot s = refl

abbrev cursor_of : Sync → Loaded → Option Checkpoint
cursor_of s loaded = if s.opts.full then none else loaded.checkpoint

on_load_lem :
    (loaded : Loaded) (s : Sync)
    → ((on_load loaded s).1 ≡ yielded (wants_enumerate s.collection (cursor_of s loaded)))
      × ((on_load loaded s).0.state ≡ State.pending_enumerate)
unfolding on_load
on_load_lem loaded s = (refl, refl)

module _ (S : Seams) where
  abbrev Answer : Type 0
  Answer = Result (SyncReport × Client S) (ClientError S ArgError)

  -- A run that reports, or that a seam has failed.
  abbrev pub is_sound : Answer → Bool
  is_sound (ok _) = true
  is_sound (err e) = is_seam S ArgError e

  abbrev pub Ends : Option Answer → Type 0
  Ends o = (r : Answer) × (o ≡ some r) × (is_sound r ≡ true)

  -- What the client does with a step, with a number of rounds to go.
  abbrev go_on : ℕ → Client S → Sync × Outcome → Option Answer
  go_on n = react S ArgError resume (λ b. run S ArgError resume n (some b))

  Ends-at_reply :
      (n : ℕ) (s : Sync) (y : Yield) (x : Result (Arg × Client S) (ClientError S ArgError))
      → IsReply S ArgError y x
      → ((a : Arg) (d : Client S) → answers y a ≡ true → Ends (go_on n d (resume (some a) s)))
      → Ends (respond S ArgError resume (λ b. run S ArgError resume (suc n) (some b)) s x)
  unfolding run
  Ends-at_reply n s y (ok (a, d)) reply next = next a d reply
  Ends-at_reply n s y (err e) reply next = (err e, refl, reply)

  Ends-at_yield :
      (n : ℕ) (s : Sync) (y : Yield) (c : Client S)
      → ((a : Arg) (d : Client S) → answers y a ≡ true → Ends (go_on n d (resume (some a) s)))
      → Ends (go_on (suc n) c (s, yielded y))
  Ends-at_yield n s y c next =
      Ends-at_reply n s y (service S ArgError y c) (service-IsReply S ArgError y c) next

  Ends-written :
      (n : ℕ) (s : Sync) (ops : List WriteOp) (c : Client S)
      → ((d : Client S) → Ends (go_on n d (resume (some Arg.write) s)))
      → Ends (go_on (suc n) c (s, yielded (wants_write ops)))
  Ends-written n s ops c next = Ends-at_yield n s (wants_write ops) c replied
    where
      replied :
          (a : Arg) (d : Client S)
          → answers (wants_write ops) a ≡ true
          → Ends (go_on n d (resume (some a) s))
      replied Arg.write d h = next d
      replied _ d h = cc

  Ends-pushed :
      (n : ℕ) (s : Sync) (collection : CollectionId) (changes : List Change) (c : Client S)
      → ((results : List PushResult) (d : Client S)
          → Ends (go_on n d (resume (some (Arg.push results)) s)))
      → Ends (go_on (suc n) c (s, yielded (wants_push collection changes)))
  Ends-pushed n s collection changes c next =
      Ends-at_yield n s (wants_push collection changes) c replied
    where
      replied :
          (a : Arg) (d : Client S)
          → answers (wants_push collection changes) a ≡ true
          → Ends (go_on n d (resume (some a) s))
      replied (Arg.push results) d h = next results d
      replied _ d h = cc

  -- A run that waits ends, within a round for each unit of its work.
  waiting-Ends : (n : ℕ) (r : Sync × Outcome) → IsWaiting n r → (c : Client S) → Ends (go_on n c r)
  waiting-Ends zero r (merging ops y e m h w) c = absurd (omega (arith, ap rank e))
  waiting-Ends zero r (writing ops y e h w) c = absurd (omega (arith, ap rank e))
  waiting-Ends zero r (pushing changes y e h w) c = absurd (omega (arith, ap rank e))
  waiting-Ends (suc n) (s, o) (merging ops y e m h w) c =
      let next =
        IsWaiting-mono {k = n} (merge_step s) (omega (arith, ap rank e, ap rows_left h))
          (merge_step-IsWaiting s m h) in
      rw y (
        Ends-written n s ops c
          (λ d. rw (resume_merging s e) (waiting-Ends n (merge_step s) next d)))
  waiting-Ends (suc n) (s, o) (pushing changes y e h w) c =
      let next = λ (results : List PushResult).
        IsWaiting-mono {k = n} (on_push results s) (omega (arith, ap rank e, ap rows_left h))
          (on_push-IsWaiting results s h) in
      rw y (
        Ends-pushed n s s.collection changes c (λ results d.
          rw (resume_pushed s results e) (waiting-Ends n (on_push results s) (next results) d)))
  waiting-Ends (suc n) (s, o) (writing ops y e h w) c = rw y (
      Ends-written n s ops c
        (λ d. rw (resume_written s e) (go d (on_written_lem s h) (waiting-Ends n (on_written s)))))
    where
      go :
          (d : Client S)
          → (IsWaiting (3 * length s.pushes) (on_written s))
            ⊎ ((on_written s).1 ≡ complete (ok s.report))
          → (IsWaiting n (on_written s) → (d : Client S) → Ends (go_on n d (on_written s)))
          → Ends (go_on n d (on_written s))
      go d (inl more) ih =
          ih (IsWaiting-mono (on_written s) (omega (arith, ap rank e, ap rows_left h)) more) d
      go d (inr done) ih = (ok (s.report, d), rw done refl, refl)

  some_reply :
      (s : Sync) (y : Yield) (x : Result (Arg × Client S) (ClientError S ArgError))
      → IsReply S ArgError y x
      → ((a : Arg) (d : Client S)
          → answers y a ≡ true
          → (n : ℕ) × Ends (go_on n d (resume (some a) s)))
      → (n : ℕ) × Ends (respond S ArgError resume (λ b. run S ArgError resume n (some b)) s x)
  unfolding run
  some_reply s y (ok (a, d)) reply next = let found = next a d reply in (suc found.0, found.1)
  some_reply s y (err e) reply next = (zero, (err e, refl, reply))

  some_yield :
      (s : Sync) (y : Yield) (c : Client S)
      → ((a : Arg) (d : Client S)
          → answers y a ≡ true
          → (n : ℕ) × Ends (go_on n d (resume (some a) s)))
      → (n : ℕ) × Ends (go_on n c (s, yielded y))
  some_yield s y c next =
      some_reply s y (service S ArgError y c) (service-IsReply S ArgError y c) next

  after_enumerate :
      (s : Sync) (collection : CollectionId) (cursor : Option Checkpoint) (c : Client S)
      → s.state ≡ State.pending_enumerate
      → (n : ℕ) × Ends (go_on n c (s, yielded (wants_enumerate collection cursor)))
  after_enumerate s collection cursor c e =
      some_yield s (wants_enumerate collection cursor) c replied
    where
      replied :
          (a : Arg) (d : Client S)
          → answers (wants_enumerate collection cursor) a ≡ true
          → (n : ℕ) × Ends (go_on n d (resume (some a) s))
      replied (Arg.enumerate snapshot) d h =
          let t = open_merge snapshot s in
          let n = merge_bound t (opened snapshot s) in
          (
            n,
            rw (resume_enumerated s snapshot e) (
                waiting-Ends n (merge_step t)
                  (merge_step-IsWaiting t (opened snapshot s) (open_merge-merging snapshot s)) d),
          )
      replied _ d h = cc

  after_load :
      (s : Sync) (collection : CollectionId) (c : Client S)
      → s.state ≡ State.pending_load
      → (n : ℕ) × Ends (go_on n c (s, yielded (wants_load collection all)))
  after_load s collection c e = some_yield s (wants_load collection all) c replied
    where
      replied :
          (a : Arg) (d : Client S)
          → answers (wants_load collection all) a ≡ true
          → (n : ℕ) × Ends (go_on n d (resume (some a) s))
      replied (Arg.load loaded) d h =
          let facts = on_load_lem loaded s in
          rw (resume_loaded s loaded e, facts.0)
            (after_enumerate (on_load loaded s).0 s.collection (cursor_of s loaded) d facts.1)
      replied _ d h = cc

  -- A sync that the client drives, over any storage and any remote, ends after finitely many
  -- rounds: with a report or with the error of a seam, never by a panic and never by a breach of
  -- the contract between coroutine and driver.
  pub sync_ends :
      (collection : CollectionId) (opts : SyncOptions) (c : Client S)
      → (n : ℕ) × (r : Answer) × (sync S n collection opts c ≡ some r) × (is_sound r ≡ true)
  unfolding sync run resume new
  sync_ends collection opts c =
      let s : Sync = record (new collection opts) { state = State.pending_load } in
      let found = after_load s collection c refl in (suc found.0, found.1.0, found.1.1, found.1.2)
