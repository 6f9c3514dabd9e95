-- ===== src/Sync/Run/FlagPush.antt =====
-- src/sync.rs under the driver of src/client.rs: the sync that takes a change of flags, made
-- here, to the remote.
use io_replica.Base.{
  ℕ, suc, ◌≡◌, ◌≢◌, refl, sym, ◌∙◌, true, ◌&&◌, none, some, List, [], ◌∷◌, arith, All, map, text_eq,
  if◌then◌else◌,
}
use io_replica.Base.Map
use io_replica.Base.Map.{get, insert, from_entries}
use io_replica.Base.Set
use io_replica.Base.Set.{from_list}
use io_replica.Placement.{Handle, CollectionId, Placement, Checkpoint, status_eq}
use io_replica.Remote.{RemoteItem, RemoteSnapshot, PushResult, accepted}
use io_replica.Change.{Change, set_flags, new as new_change, upsert_placement, set_checkpoint}
use io_replica.Coroutine.{Arg, Loaded, ok, all, yielded, wants_write, wants_push}
use io_replica.Client.{Seams, Client, run, service}
use io_replica.Client.Verbs.{sync}
use io_replica.Sync.Options.{SyncOptions, empty_report, flags_changed}
use io_replica.Sync.Engine.{Sync, State, Candidate, new}
use io_replica.Sync.Merge.Quiet.{IsSettled, rebased_row-IsSettled}
use io_replica.Sync.Rows.{rebased_row, rebase}
use io_replica.Sync.Join.{open_merge, join_size}
use io_replica.Sync.Join.Order.{keyed, prepare-IsSorted, get-prepare}
use io_replica.Sync.Join.Pairs.{walk, find_candidate, paired, find_candidate-walk, walk-IsAscending}
use io_replica.Sync.Run.Idle.{IsIdle, IsQuiet, IsIdle-IsQuiet, of_each_found}
use io_replica.Sync.Run.Resumes.{resume_pushed}
use io_replica.Sync.Run.Settling.{opened}
use io_replica.Sync.Answers.{apply_results, accept, forget}
use io_replica.Sync.Run.{
  Outcome, resume, dispatch, merge_step, by_handle, on_load, on_push, hand_over, batch, ending,
  step, send_chunk, rows_left,
}
use io_replica.Sync.Run.Agreement.{loaded_run, go_on, at_load, at_enumerate, at_write, noted}
use io_replica.Sync.Run.Flagged.{IsFlagged, merge_within-Stages}

-- A run that has sent its one change of flags.
abbrev pub sent_run : Loaded → CollectionId → SyncOptions → Checkpoint → Placement → Sync
sent_run loaded collection opts checkpoint p = record (loaded_run loaded collection opts) {
  local = [];
  next_checkpoint = some checkpoint;
  pending_flag_pushes = (p.handle, p) ∷ [];
  in_flight = p.handle ∷ [];
  state = State.pending_push;
}

-- The same run, once the change is accepted and the row that settles it is handed over.
abbrev pub settled_run : Loaded → CollectionId → SyncOptions → Placement → Sync
settled_run loaded collection opts p = record (loaded_run loaded collection opts) {
  local = [];
  report = record empty_report { pushed = 1; events = flags_changed p.handle ∷ [] };
  state = State.pending_write;
}

on_push_accepted :
    (loaded : Loaded) (collection : CollectionId) (opts : SyncOptions) (checkpoint : Checkpoint)
    (p : Placement) (r : PushResult)
    → r.handle ≡ p.handle
    → r.outcome ≡ accepted
    → on_push (r ∷ []) (sent_run loaded collection opts checkpoint p) ≡ (
      settled_run loaded collection opts p,
      yielded (
          wants_write
            (upsert_placement (rebased_row p p.flags) ∷ set_checkpoint collection checkpoint ∷ [])),
    )
unfolding on_push apply_results accept rebase forget hand_over batch ending new get Map.remove
    Set.contains Set.remove
on_push_accepted loaded collection opts checkpoint p r e o = ground (arith, e, o)

-- Under every handle but the one given, what is loaded and what the remote reports call for
-- nothing; there, the row given is loaded and the item given reported.
pub record IsInSyncBut (loaded : Loaded) (snapshot : RemoteSnapshot) (p : Placement)
    (item : RemoteItem) : Type 0 where
  pub row : get p.handle (from_entries (map by_handle loaded.placements)) ≡ some p
  pub listed : get p.handle (keyed snapshot.items) ≡ some item
  pub flagged : IsFlagged p item
  pub complete : snapshot.complete ≡ true
  pub others :
      (h : Handle)
      → h ≢ p.handle
      → IsIdle snapshot.complete
          (from_list snapshot.vanished)
          h
          (get h (from_entries (map by_handle loaded.placements)))
          (get h (keyed snapshot.items))

merge_step_flagged :
    (loaded : Loaded) (snapshot : RemoteSnapshot) (collection : CollectionId) (opts : SyncOptions)
    (p : Placement) (item : RemoteItem)
    → IsInSyncBut loaded snapshot p item
    → opts.push && opts.rights.flags ≡ true
    → merge_step (open_merge snapshot (loaded_run loaded collection opts)) ≡ (
      sent_run loaded collection opts snapshot.checkpoint p,
      yielded (wants_push collection (new_change collection (set_flags p.handle p.flags) ∷ [])),
    )
unfolding new open_merge merge_step step send_chunk insert new_change
merge_step_flagged loaded snapshot collection opts p item h may =
    let t = open_merge snapshot (loaded_run loaded collection opts) in
    let m = opened loaded snapshot in
    let sorted = Map.from_entries-IsSorted (map by_handle loaded.placements) in
    let n = join_size m.join in
    let c : Candidate = record { handle = p.handle; local = some p; remote = some item } in
    let found : (x : Handle)
        → find_candidate x (walk n m.join)
          ≡ paired x (get x (from_entries (map by_handle loaded.placements)))
              (get x (keyed snapshot.items)) =
      λ x.
        find_candidate-walk n x m.join (omega arith) sorted (prepare-IsSorted snapshot.items)
        ∙ rw (get-prepare x snapshot.items) refl in
    let ascending = walk-IsAscending n m.join sorted (prepare-IsSorted snapshot.items) in
    let calm : All (λ d. d.handle ≢ p.handle → IsQuiet m d) (walk n m.join) =
      of_each_found (λ d. d.handle ≢ p.handle → IsQuiet m d) (walk n m.join) ascending
        (λ d e x. IsIdle-IsQuiet m d _ _ (h.others d.handle x) (sym (found d.handle) ∙ e)) in
    merge_within-Stages c p item refl refl h.flagged n (rows_left t.merging) t m refl (omega arith)
      (omega arith) refl may h.complete ascending calm (found p.handle ∙ rw (h.row, h.listed) refl)
    ∙ refl

module _ (S : Seams) where
  at_push :
      (n : ℕ) (s : Sync) (collection : CollectionId) (changes : List Change) (c : Client S)
      (results : List PushResult) (r : S.Remote) (next : Sync × Outcome)
      → S.push c.remote collection changes ≡ ok (results, r)
      → s.state ≡ State.pending_push
      → on_push results s ≡ next
      → go_on S (suc n) c (s, yielded (wants_push collection changes))
        ≡ go_on S n (record c { remote = r }) next
  unfolding run service
  at_push n s collection changes c results r next e h f =
      let resumed : resume (some (Arg.push results)) s ≡ next = resume_pushed s results h ∙ f in
      rw (e, resumed) refl

  -- What is loaded holds one row whose flags, and nothing else, were changed here; its item is as
  -- the row's base has it, and every other member calls for nothing.
  pub sync_flagged :
      (collection : CollectionId) (opts : SyncOptions) (c : Client S) (loaded : Loaded)
      (snapshot : RemoteSnapshot) (p : Placement) (item : RemoteItem) (result : PushResult)
      (r r' : S.Remote)
      → S.load c.storage collection all ≡ ok loaded
      → S.enumerate c.remote collection (if opts.full then none else loaded.checkpoint)
        ≡ ok (snapshot, r)
      → IsInSyncBut loaded snapshot p item
      → opts.push && opts.rights.flags ≡ true
      → S.push r collection (new_change collection (set_flags p.handle p.flags) ∷ [])
        ≡ ok (result ∷ [], r')
      → result.handle ≡ p.handle
      → result.outcome ≡ accepted
      → (sync S 5 collection opts c
          ≡ some (
              noted S
                (record empty_report { pushed = 1; events = flags_changed p.handle ∷ [] })
                r'
                (S.write c.storage (
                  upsert_placement (rebased_row p p.flags)
                  ∷ set_checkpoint collection snapshot.checkpoint
                  ∷ []))))
        × IsSettled (rebased_row p p.flags) (record item { flags = p.flags })
  unfolding sync run service resume dispatch new on_load
  sync_flagged collection opts c loaded snapshot p item result r r' l e h may push f o = (
    at_load S 3 (resume none (new collection opts)).0 collection c loaded _ l refl
        ∙ at_enumerate S 2 (loaded_run loaded collection opts) collection _ c snapshot r _ e
            (merge_step_flagged loaded snapshot collection opts p item h may)
        ∙ at_push 1 (sent_run loaded collection opts snapshot.checkpoint p) collection _
            (record c { remote = r }) (result ∷ []) r' _ push refl
            (on_push_accepted loaded collection opts snapshot.checkpoint p result f o)
        ∙ at_write S 0 (settled_run loaded collection opts p) _ (record c { remote = r' }) _ refl
            refl refl,
    rebased_row-IsSettled p (record item { flags = p.flags }) (ground (arith, h.flagged.status))
        h.flagged.ordered refl (ground (arith, h.flagged.based, h.flagged.revision)),
  )
