-- ===== src/Sync/Run/FlagTrip.antt =====
-- src/mutate.rs and src/sync.rs under the driver of src/client.rs: a change of flags made
-- offline, up to the sync that takes it to the remote.
use mathlib.Core.Logic.{if_pos, if_neg}
use io_replica.Base.{
  inr, ◌≡◌, ◌≢◌, refl, sym, ap, ◌∙◌, true, ◌&&◌, Option, some, [], ◌∷◌, arith, map, text_eq, ◌==◌,
  if◌then◌else◌,
}
use io_replica.Base.Map.{get, from_entries}
use io_replica.Base.Set.{from_list}
use io_replica.Flags.{Flags, unknown}
use io_replica.Flags.Laws.{IsOrdered}
use io_replica.Placement.{Handle, CollectionId, Placement, Checkpoint, status_eq}
use io_replica.Remote.{RemoteItem, RemoteSnapshot, PushResult, accepted}
use io_replica.Change.{upsert_placement, set_checkpoint, set_flags as to_flags, new as new_change}
use io_replica.Coroutine.{Loaded, ok}
use io_replica.Client.{Seams, run, service}
use io_replica.Client.Verbs.{sync, mutate}
use io_replica.Mutate.{
  set_flags, flagged_row, find, writes, new as new_mutate, resume as resume_mutate, on_load,
}
use io_replica.Sync.Options.{SyncOptions, empty_report, flags_changed}
use io_replica.Sync.Rows.{rebased_row, base_object}
use io_replica.Sync.Join.Order.{keyed}
use io_replica.Sync.Merge.Quiet.{IsSettled}
use io_replica.Sync.Merge.Effects.{after}
use io_replica.Sync.Merge.Pulled.{AtRest}
use io_replica.Sync.Run.{by_handle}
use io_replica.Sync.Run.Agreement.{noted, sync_in_sync}
use io_replica.Sync.Run.Settling.{AtRest-IsIdle, AtRest-IsInSync}
use io_replica.Sync.Run.Flagged.{IsFlagged}
use io_replica.Sync.Run.FlagPush.{IsInSyncBut, sync_flagged}
use io_replica.Sync.Run.Stores.{RowStore}

-- The row that a change of flags leaves of a settled one.
flagged_row-IsFlagged :
    (q : Placement) (item : RemoteItem) (flags : Flags)
    → IsSettled q item
    → q.object ≡ base_object q.base
    → q.flags ≢ unknown
    → flags ≢ unknown
    → IsOrdered flags
    → flags ≢ q.flags
    → IsFlagged (flagged_row q flags) item
unfolding flagged_row
flagged_row-IsFlagged q item flags h body known known' ordered differs = record {
  base = h.base;
  based = h.based;
  status = ground (arith, h.status);
  body = ground (arith, body, h.based);
  flags = ground (arith, differs, h.flags);
  known = known';
  ordered = ordered;
  base_known = ground (arith, known, h.flags);
  base_ordered = rw h.flags h.ordered;
  listed = h.listed ∙ sym h.flags;
  revision = h.revision;
}

module _ (S : Seams) (collection : CollectionId) (store : RowStore S collection) where
  -- A mutation of flags, as the storage keeps it.
  mutate_flags :
      (t : S.Storage) (r : S.Remote) (h : Handle) (flags : Flags) (q : Placement)
      → store.IsValid t
      → store.row t h ≡ some q
      → (u : S.Storage) × (mutate S 3 collection
            (set_flags h flags)
            (record { storage = t; remote = r })
          ≡ some (ok (tt, record { storage = u; remote = r })))
        × store.IsValid u
        × ((x : Handle)
            → store.row u x ≡ (if x == h then some (flagged_row q flags) else store.row t x))
  unfolding mutate run service resume_mutate new_mutate on_load writes after flagged_row
  mutate_flags t r h flags q v e =
      let l = store.load_one t h v in
      let home = store.housed t h q v e in
      let w = store.write t (upsert_placement (flagged_row q flags) ∷ []) v in
      let found : find h l.0.placements ≡ some q = l.2 ∙ e in
      (w.0, rw (l.1, found, w.1) refl, w.2, λ x. w.3 x ∙ ground (arith, home))

  -- Every member is at rest, and one has new flags in the storage.
  flagged-IsInSyncBut :
      (u : S.Storage) (p : Placement) (item : RemoteItem) (snapshot : RemoteSnapshot)
      (loaded : Loaded)
      → ((x : Handle) → get x (from_entries (map by_handle loaded.placements)) ≡ store.row u x)
      → store.row u p.handle ≡ some p
      → get p.handle (keyed snapshot.items) ≡ some item
      → IsFlagged p item
      → snapshot.complete ≡ true
      → ((x : Handle) → x ≢ p.handle → AtRest (store.row u x) (get x (keyed snapshot.items)))
      → IsInSyncBut loaded snapshot p item
  flagged-IsInSyncBut u p item snapshot loaded same row listed flagged complete rest = record {
    row = same p.handle ∙ row;
    listed = listed;
    flagged = flagged;
    complete = complete;
    others = λ x n.
        AtRest-IsIdle snapshot.complete (from_list snapshot.vanished) x _ _ complete
          (rw (same x) (rest x n));
  }

  -- What the storage holds before the change, and what the remote says and takes.
  module _ (opts : SyncOptions) (t : S.Storage) (r r' r'' : S.Remote) (flags : Flags)
      (q : Placement) (item : RemoteItem) (snapshot : RemoteSnapshot) (result : PushResult)
      (v : store.IsValid t) (row : store.row t q.handle ≡ some q)
      (listed : get q.handle (keyed snapshot.items) ≡ some item) (calm : IsSettled q item)
      (rest : (x : Handle) → x ≢ q.handle → AtRest (store.row t x) (get x (keyed snapshot.items)))
      (body : q.object ≡ base_object q.base) (known : q.flags ≢ unknown) (known' : flags ≢ unknown)
      (ordered : IsOrdered flags) (differs : flags ≢ q.flags)
      (enum : (cursor : Option Checkpoint) → S.enumerate r collection cursor ≡ ok (snapshot, r'))
      (complete : snapshot.complete ≡ true) (may : opts.push && opts.rights.flags ≡ true)
      (push : S.push r' collection (new_change collection (to_flags q.handle flags) ∷ [])
        ≡ ok (result ∷ [], r''))
      (at : result.handle ≡ q.handle) (taken : result.outcome ≡ accepted) where
    -- The mutation and the sync that pushes it.
    abbrev pub IsPushed : S.Storage → S.Storage → Placement → Type 0
    IsPushed u w p =
        (mutate S 3 collection (set_flags q.handle flags) (record { storage = t; remote = r })
          ≡ some (ok (tt, record { storage = u; remote = r })))
        × (sync S 5 collection opts (record { storage = u; remote = r })
            ≡ some (
                ok (
                  record empty_report { pushed = 1; events = flags_changed q.handle ∷ [] },
                  record { storage = w; remote = r'' },
                )))
        × (store.row w q.handle ≡ some p)
        × (p.flags ≡ flags)
        × IsSettled p (record item { flags = flags })
        × ((x : Handle) → x ≢ q.handle → store.row w x ≡ store.row t x)

    pushed : (u w : S.Storage) × (p : Placement) × IsPushed u w p × store.IsValid w
    unfolding after flagged_row rebased_row
    pushed =
        let home = store.housed t q.handle q v row in
        let m = mutate_flags t r q.handle flags q v row in
        let p = flagged_row q flags in
        let l = store.load m.0 m.2 in
        let flagged = flagged_row-IsFlagged q item flags calm body known known' ordered differs in
        let in_sync : IsInSyncBut l.0 snapshot p item =
          flagged-IsInSyncBut m.0 p item snapshot l.0 l.2 (m.3 q.handle ∙ ground arith) listed
            flagged complete (λ x n. rw (m.3 x, if_neg (text_eq.dec x q.handle) n) (rest x n)) in
        let synced =
          sync_flagged S collection opts (record { storage = m.0; remote = r }) l.0 snapshot p item
            result r' r'' l.1 (enum _) in_sync may push at taken in
        let w =
          store.write m.0
            (upsert_placement (rebased_row p p.flags)
              ∷ set_checkpoint collection snapshot.checkpoint
              ∷ [])
            m.2 in
        (
          m.0,
          w.0,
          rebased_row p p.flags,
          (
            m.1,
            synced.0
                ∙ ap
                    (λ x. some (
                      noted S
                        (record empty_report { pushed = 1; events = flags_changed q.handle ∷ [] })
                        r'' x))
                    w.1,
            w.3 q.handle ∙ ground (arith, home.0),
            refl,
            synced.1,
            λ x n. w.3 x ∙ ground (arith, m.3 x, n),
          ),
          w.2,
        )

    -- Let the storage keep what is written to it, and every member be at rest against a complete
    -- enumerate. A change of the flags of one member, whose row has known flags and the body of
    -- its base, to other known and ordered flags, made offline and then synced, where the first
    -- enumerate is the same whatever the cursor, the options permit flag pushes and the remote
    -- accepts that one change: the mutation ends within three rounds and leaves the remote as it
    -- was; the sync ends within five rounds, leaves the remote as the push of that one change
    -- does, and reports one push and the event of changed flags. The row of the member has the
    -- new flags then, settled against the item with these flags, and every other row is as it
    -- was. Where the next enumerate, whatever the cursor, is complete and shows that item with
    -- the new flags and the others as before, a further sync ends within four rounds with an
    -- empty report.
    pub mutate-sync_flags :
        (opts' : SyncOptions) (snapshot' : RemoteSnapshot) (r3 : S.Remote)
        → ((cursor : Option Checkpoint) → S.enumerate r'' collection cursor ≡ ok (snapshot', r3))
        → snapshot'.complete ≡ true
        → ((x : Handle)
            → get x (keyed snapshot'.items) ≡ (
                if x == q.handle
                then some (record item { flags = flags })
                else get x (keyed snapshot.items)))
        → (u w : S.Storage) × (p : Placement) × (z : S.Storage) × IsPushed u w p
          × (sync S 4 collection opts' (record { storage = w; remote = r'' })
              ≡ some (ok (empty_report, record { storage = z; remote = r3 })))
    mutate-sync_flags opts' snapshot' r3 enum' complete' items =
        let (u, w, p, (done, synced, here, same, settled, others), valid) = pushed in
        let l = store.load w valid in
        let again = store.write w (set_checkpoint collection snapshot'.checkpoint ∷ []) valid in
        let calm' : (x : Handle) → AtRest (store.row w x) (get x (keyed snapshot'.items)) = λ x.
          elim (text_eq.dec x q.handle) [
            | yes e ↦
                rw (items x, if_pos (text_eq.dec x q.handle) e)
                  (inr (p, record item { flags = flags }, rw e here, refl, settled))
            | no n ↦ rw (items x, if_neg (text_eq.dec x q.handle) n, others x n) (rest x n)
          ] in
        (
          u,
          w,
          p,
          again.0,
          (done, synced, here, same, settled, others),
          sync_in_sync S 0 collection opts' (record { storage = w; remote = r'' }) l.0 snapshot' r3
                l.1 (enum' _)
                (AtRest-IsInSync S collection store w l.0 snapshot'.items snapshot' l.2 refl
                  complete' calm')
              ∙ ap (λ x. some (noted S empty_report r3 x)) again.1,
        )
