-- ===== src/Sync/Run/Settling.antt =====
-- src/sync.rs under the driver of src/client.rs: two syncs of a collection that nothing was
-- changed of here.
use io_replica.Sync.Run.Start.{HasFlags, start-IsOnCourse}
use mathlib.Core.Path.{subst}
use io_replica.Base.{
  ℕ, suc, ◌≡◌, refl, sym, ◌∙◌, ap, inl, inr, Bool, true, none, some, Option, List, [], ◌∷◌, arith,
  All, map, text_eq,
}
use io_replica.Base.Map
use io_replica.Base.Map.{Map, get, from_entries}
use io_replica.Base.Set.{Set, from_list}
use io_replica.Placement.{Handle, CollectionId, Placement, Checkpoint}
use io_replica.Remote.{RemoteItem, RemoteSnapshot}
use io_replica.Change.{set_checkpoint}
use io_replica.Coroutine.{Loaded, ok}
use io_replica.Client.{Seams, Client, run, service}
use io_replica.Client.Verbs.{sync}
use io_replica.Sync.Options.{SyncOptions, SyncReport, empty_report}
use io_replica.Sync.Engine.{Merge, new}
use io_replica.Sync.Join.{open_merge, prepare, join_size}
use io_replica.Sync.Join.Order.{keyed, prepare-IsSorted}
use io_replica.Sync.Join.Pairs.{walk, walk-IsAscending}
use io_replica.Sync.Merge.Pulled.{IsPlainSide, AtRest}
use io_replica.Sync.Merge.Effects.{after}
use io_replica.Sync.Run.{by_handle, merge_step, rows_left, resume, dispatch, on_load}
use io_replica.Sync.Run.Idle.{IsIdle, absent, agreed}
use io_replica.Sync.Run.Agreement.{
  at_load, at_enumerate, loaded_run, IsInSync, sync_in_sync, noted, go_on,
}
use io_replica.Sync.Run.Stores.{RowStore}
use io_replica.Sync.Run.Convergence.{Converges, converges_within}
use io_replica.Sync.Run.Course.{IsOnCourse}

-- The merge that an enumerate opens on what was loaded.
abbrev pub opened : Loaded → RemoteSnapshot → Merge
opened loaded snapshot = record {
  join = record {
    local = from_entries (map by_handle loaded.placements);
    remote = prepare snapshot.items;
  };
  vanished = from_list snapshot.vanished;
  complete = snapshot.complete;
  checkpoint = snapshot.checkpoint;
}

pub AtRest-IsIdle :
    (complete : Bool) (vanished : Set) (h : Handle) (local : Option Placement)
    (remote : Option RemoteItem)
    → complete ≡ true
    → AtRest local remote
    → IsIdle complete vanished h local remote
AtRest-IsIdle complete vanished h local remote e (inl (p, q)) = absent p q
AtRest-IsIdle complete vanished h local remote e (inr (p, item, l, r, s)) =
    agreed p item l r s (inl e)

module _ (S : Seams) (collection : CollectionId) (store : RowStore S collection) where
  Converges-after_load :
      (opts : SyncOptions) (t : S.Storage) (r : S.Remote) (snapshot : RemoteSnapshot)
      (loaded : Loaded)
      → store.IsValid t
      → ((h : Handle) → get h (from_entries (map by_handle loaded.placements)) ≡ store.row t h)
      → snapshot.complete ≡ true
      → ((h : Handle) → IsPlainSide collection h (store.row t h))
      → All HasFlags snapshot.items
      → (rounds : ℕ) × Converges S collection store snapshot.items r (
          go_on S rounds
            (record { storage = t; remote = r })
            (merge_step (open_merge snapshot (loaded_run loaded collection opts))))
  unfolding new open_merge merge_step after
  Converges-after_load opts t r snapshot loaded v same complete plain flags =
      let s = open_merge snapshot (loaded_run loaded collection opts) in
      let m = opened loaded snapshot in
      let start : IsOnCourse collection snapshot.items (store.row t)
          (walk (join_size m.join) m.join) =
        start-IsOnCourse collection m snapshot.items (store.row t) refl
          (Map.from_entries-IsSorted (map by_handle loaded.placements)) same plain flags in
      converges_within S collection store snapshot.items r (join_size m.join) (rows_left s.merging)
        s m (store.row t) t
        (record { merging = refl; complete = complete; pushes = refl; held = refl; home = refl })
        (omega arith) (omega arith) v (λ h. refl)
        (walk-IsAscending (join_size m.join) m.join
          (Map.from_entries-IsSorted (map by_handle loaded.placements))
          (prepare-IsSorted snapshot.items))
        start

  -- The first of two syncs.
  sync_settles :
      (opts : SyncOptions) (t : S.Storage) (r r' : S.Remote) (snapshot : RemoteSnapshot)
      → store.IsValid t
      → ((cursor : Option Checkpoint) → S.enumerate r collection cursor ≡ ok (snapshot, r'))
      → snapshot.complete ≡ true
      → ((h : Handle) → IsPlainSide collection h (store.row t h))
      → All HasFlags snapshot.items
      → (rounds : ℕ) × Converges S collection store snapshot.items r'
          (sync S rounds collection opts (record { storage = t; remote = r }))
  unfolding sync run service resume dispatch new on_load
  sync_settles opts t r r' snapshot v e complete plain flags =
      let l = store.load t v in
      let c : Client S = record { storage = t; remote = r } in
      let found = Converges-after_load opts t r' snapshot l.0 v l.2 complete plain flags in
      (
        suc (suc (suc found.0)),
        subst (Converges S collection store snapshot.items r')
            (sym (
              at_load S (suc found.0) (resume none (new collection opts)).0 collection c l.0 _ l.1
                refl
              ∙ at_enumerate S found.0 (loaded_run l.0 collection opts) collection _ c snapshot r' _
                  (e _) refl))
            found.1,
      )

  pub AtRest-IsInSync :
      (t : S.Storage) (loaded : Loaded) (items : List RemoteItem) (snapshot : RemoteSnapshot)
      → ((h : Handle) → get h (from_entries (map by_handle loaded.placements)) ≡ store.row t h)
      → snapshot.items ≡ items
      → snapshot.complete ≡ true
      → ((h : Handle) → AtRest (store.row t h) (get h (keyed items)))
      → IsInSync loaded snapshot
  AtRest-IsInSync t loaded items snapshot same i complete rest h =
      AtRest-IsIdle snapshot.complete (from_list snapshot.vanished) h _ _ complete
        (rw (same h, i) (rest h))

  -- Let the storage keep what is written to it, and let each enumerate report, whatever the
  -- cursor, the whole collection, the same items both times, with known and ordered flags. Where
  -- every row is clean, with the flags of its base and under its own handle, a sync ends with a
  -- report and leaves every member absent on both sides or settled against its item; and a
  -- second sync ends within four rounds with an empty report and leaves every row as it was.
  pub sync_twice :
      (opts opts' : SyncOptions) (t : S.Storage) (r r' r'' : S.Remote)
      (snapshot snapshot' : RemoteSnapshot)
      → store.IsValid t
      → ((cursor : Option Checkpoint) → S.enumerate r collection cursor ≡ ok (snapshot, r'))
      → ((cursor : Option Checkpoint) → S.enumerate r' collection cursor ≡ ok (snapshot', r''))
      → snapshot.complete ≡ true
      → snapshot'.complete ≡ true
      → snapshot'.items ≡ snapshot.items
      → ((h : Handle) → IsPlainSide collection h (store.row t h))
      → All HasFlags snapshot.items
      → (rounds : ℕ) × (report : SyncReport) × (u v : S.Storage) × (sync S rounds collection opts
            (record { storage = t; remote = r })
          ≡ some (ok (report, record { storage = u; remote = r' })))
        × ((h : Handle) → AtRest (store.row u h) (get h (keyed snapshot.items)))
        × (sync S 4 collection opts' (record { storage = u; remote = r' })
            ≡ some (ok (empty_report, record { storage = v; remote = r'' })))
        × ((h : Handle) → store.row v h ≡ store.row u h)
  unfolding after
  sync_twice opts opts' t r r' r'' snapshot snapshot' v e e' k k' same plain flags =
      let first = sync_settles opts t r r' snapshot v e k plain flags in
      let u = first.1.1 in
      let l = store.load u first.1.3 in
      let noted_write =
        store.write u (set_checkpoint collection snapshot'.checkpoint ∷ []) first.1.3 in
      (
        first.0,
        first.1.0,
        u,
        noted_write.0,
        first.1.2,
        first.1.4,
        sync_in_sync S 0 collection opts' (record { storage = u; remote = r' }) l.0 snapshot' r''
              l.1 (e' _) (AtRest-IsInSync u l.0 snapshot.items snapshot' l.2 same k' first.1.4)
            ∙ ap (λ x. some (noted S empty_report r'' x)) noted_write.1,
        noted_write.3,
      )
