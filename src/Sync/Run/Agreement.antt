-- ===== src/Sync/Run/Agreement.antt =====
-- src/sync.rs under the driver of src/client.rs: a sync between sides that agree already.
use io_replica.Base.{
  ℕ, suc, ◌≡◌, refl, ◌∙◌, Option, none, some, List, [], ◌∷◌, map, arith, if◌then◌else◌,
}
use io_replica.Base.Map
use io_replica.Base.Map.{get, from_entries}
use io_replica.Base.Set.{from_list}
use io_replica.Placement.{Handle, CollectionId, Checkpoint}
use io_replica.Remote.{RemoteSnapshot}
use io_replica.Change.{WriteOp, set_checkpoint}
use io_replica.Coroutine.{
  Loaded, Arg, ArgError, Result, ok, err, all, yielded, wants_write, wants_load, wants_enumerate,
}
use io_replica.Client.{Seams, Client, ClientError, storage, run, react, service}
use io_replica.Client.Verbs.{sync}
use io_replica.Sync.Options.{SyncOptions, SyncReport, empty_report}
use io_replica.Sync.Engine.{Sync, State, Merge, new}
use io_replica.Sync.Join.{open_merge, prepare, join_size}
use io_replica.Sync.Join.Order.{keyed, prepare-IsSorted, get-prepare}
use io_replica.Sync.Run.{
  Outcome, resume, dispatch, merge_step, by_handle, on_load, on_written, hand_over, batch, ending,
  step, rows_left,
}
use io_replica.Sync.Run.Quiescent.{merge_within-Finishes}
use io_replica.Sync.Run.Idle.{IsIdle, walk-IsQuiet}
use io_replica.Sync.Run.Resumes.{resume_written}

-- Under every handle, what is loaded and what the remote reports call for nothing.
abbrev pub IsInSync : Loaded → RemoteSnapshot → Type 0
IsInSync loaded snapshot =
    (h : Handle)
    → IsIdle snapshot.complete (from_list snapshot.vanished) h
        (get h (from_entries (map by_handle loaded.placements))) (get h (keyed snapshot.items))

-- A run between the reply to its load and that to its enumerate.
abbrev pub loaded_run : Loaded → CollectionId → SyncOptions → Sync
loaded_run loaded collection opts = record (new collection opts) {
  local = from_entries (map by_handle loaded.placements);
  checkpoint = if opts.full then none else loaded.checkpoint;
  state = State.pending_enumerate;
}

-- A run that has written its checkpoint, and nothing else.
abbrev noted_run : Loaded → CollectionId → SyncOptions → Sync
noted_run loaded collection opts = record (loaded_run loaded collection opts) {
  local = [];
  state = State.pending_write;
}

merge_step_in_sync :
    (loaded : Loaded) (snapshot : RemoteSnapshot) (collection : CollectionId) (opts : SyncOptions)
    → IsInSync loaded snapshot
    → merge_step (open_merge snapshot (loaded_run loaded collection opts)) ≡ (
      noted_run loaded collection opts,
      yielded (wants_write (set_checkpoint collection snapshot.checkpoint ∷ [])),
    )
unfolding new open_merge merge_step step hand_over batch ending
merge_step_in_sync loaded snapshot collection opts idle =
    let t = open_merge snapshot (loaded_run loaded collection opts) in
    let m : Merge = record {
      join = record {
        local = (loaded_run loaded collection opts).local;
        remote = prepare snapshot.items;
      };
      vanished = from_list snapshot.vanished;
      complete = snapshot.complete;
      checkpoint = snapshot.checkpoint;
    } in
    let opened : t.merging ≡ some m = refl in
    let calm =
      walk-IsQuiet (join_size m.join) m (omega arith) (Map.from_entries-IsSorted _)
        (prepare-IsSorted snapshot.items) (λ h. rw (get-prepare h snapshot.items) (idle h)) in
    merge_within-Finishes (join_size m.join) (rows_left t.merging) t m opened (omega arith)
      (omega arith) refl calm
    ∙ refl

module _ (S : Seams) where
  abbrev pub Answer : Type 0
  Answer = Result {0, 0} (SyncReport × Client S) (ClientError S ArgError)

  -- The end of a run at its last write.
  abbrev pub noted : SyncReport → S.Remote → Result S.Storage S.StorageError → Answer
  noted report r (ok t) = ok (report, record { storage = t; remote = r })
  noted report r (err e) = err (storage e)

  abbrev pub go_on : ℕ → Client S → Sync × Outcome → Option Answer
  go_on n = react S ArgError resume (λ b. run S ArgError resume n (some b))

  pub at_write :
      (n : ℕ) (s : Sync) (ops : List WriteOp) (c : Client S) (x : Result S.Storage S.StorageError)
      → S.write c.storage ops ≡ x
      → s.state ≡ State.pending_write
      → s.pushes ≡ []
      → go_on (suc n) c (s, yielded (wants_write ops)) ≡ some (noted s.report c.remote x)
  unfolding run service on_written
  at_write n s ops c (ok t) e h p =
      let next : resume (some Arg.write) s ≡ on_written s = resume_written s h in
      ground (arith, e, next, p)
  at_write n s ops c (err x) e h p = ground (arith, e)

  pub at_enumerate :
      (n : ℕ) (s : Sync) (collection : CollectionId) (cursor : Option Checkpoint) (c : Client S)
      (snapshot : RemoteSnapshot) (r : S.Remote) (next : Sync × Outcome)
      → S.enumerate c.remote collection cursor ≡ ok (snapshot, r)
      → resume (some (Arg.enumerate snapshot)) s ≡ next
      → go_on (suc n) c (s, yielded (wants_enumerate collection cursor))
        ≡ go_on n (record c { remote = r }) next
  unfolding run service
  at_enumerate n s collection cursor c snapshot r next e f = rw (e, f) refl

  pub at_load :
      (n : ℕ) (s : Sync) (collection : CollectionId) (c : Client S) (loaded : Loaded)
      (next : Sync × Outcome)
      → S.load c.storage collection all ≡ ok loaded
      → resume (some (Arg.load loaded)) s ≡ next
      → go_on (suc n) c (s, yielded (wants_load collection all)) ≡ go_on n c next
  unfolding run service
  at_load n s collection c loaded next l f = rw (l, f) refl

  -- Where what is loaded and what is enumerated call for nothing under any handle (neither side
  -- holds a member, or a settled row is listed and not reported vanished by a delta, or a delta
  -- is silent about a clean row and does not report it vanished), a sync that the client drives
  -- ends within four rounds. It leaves the storage as the write of the new checkpoint alone
  -- does, the remote as the enumerate left it, and its report is empty; or it ends with the
  -- error of the storage at that write.
  pub sync_in_sync :
      (n : ℕ) (collection : CollectionId) (opts : SyncOptions) (c : Client S) (loaded : Loaded)
      (snapshot : RemoteSnapshot) (r : S.Remote)
      → S.load c.storage collection all ≡ ok loaded
      → S.enumerate c.remote collection (if opts.full then none else loaded.checkpoint)
        ≡ ok (snapshot, r)
      → IsInSync loaded snapshot
      → sync S (suc (suc (suc (suc n)))) collection opts c
        ≡ some (
            noted empty_report r
              (S.write c.storage (set_checkpoint collection snapshot.checkpoint ∷ [])))
  unfolding sync run resume dispatch new on_load
  sync_in_sync n collection opts c loaded snapshot r l e idle =
      at_load (suc (suc n)) (resume none (new collection opts)).0 collection c loaded _ l refl
      ∙ at_enumerate (suc n) (loaded_run loaded collection opts) collection _ c snapshot r _ e
          (merge_step_in_sync loaded snapshot collection opts idle)
      ∙ at_write n (noted_run loaded collection opts) _ (record c { remote = r }) _ refl refl refl
