-- ===== src/Tests/Lifecycles.antt =====
-- The story of the example, and a sync over its storage and its server.
use mathlib.Core.Logic.{if_pos, if_neg}
use io_replica.Base.{
  ℕ, if◌then◌else◌, ◌==◌, ◌≢◌, ◌≡◌, refl, ◌⊎◌, inl, true, none, some, [], ◌∷◌, Text, text_eq, bytes,
  arith,
}
use io_replica.Base.Map.{get, insert, from_entries}
use io_replica.Placement.{Handle, Placement, Status}
use io_replica.Change.{set_checkpoint, drop_placement, deleted}
use io_replica.Client.{Client}
use io_replica.Client.Verbs.{sync, mutate}
use io_replica.Mutate.{set_flags}
use io_replica.Sync.Run.FlagTrip.{mutate-sync_flags}
use io_replica.Coroutine.{Loaded, ok, all}
use io_replica.Remote.{RemoteSnapshot, PushResult, accepted}
use io_replica.Sync.Options.{SyncReport, default, empty_report, flags_changed}
use io_replica.Sync.Merge.Quiet.{IsSettled}
use io_replica.Sync.Run.Agreement.{IsInSync, noted, sync_in_sync}
use io_replica.Sync.Run.Idle.{absent, agreed}
use io_replica.Lifecycle.Storage as Storage
use io_replica.Lifecycle.Storage.{MemStorage}
use io_replica.Lifecycle.Remote.{MemRemote}
use io_replica.Lifecycle.Remote as Remote
use io_replica.Lifecycle.Table.{get_at, same_key}
use io_replica.Lifecycle.Kept.{IsKept, found_in, load-write, mem_store}
use io_replica.Sync.Merge.Pulled.{AtRest, IsPlainSide}
use io_replica.Sync.Merge.Effects.{IsPlain, after}
use io_replica.Sync.Join.Order.{keyed}
use io_replica.Sync.Run.Settling.{sync_twice}
use io_replica.Lifecycle.Story.{mem, main, Story, Printed}
use io_replica.Tests.Data.{inbox, flagged, mail, listed, no_flags}

-- What the story prints.
printed :
    main 8
    ≡ some (
        some (record {
          pulled = 2;
          opened = 2;
          fetched = 1;
          deduped = 1;
          fetched_again = 0;
          stored = 1;
          downloads = 1;
          pushed = 1;
          server_flags = some (bytes "seen" ∷ []);
          pulled_later = 1;
          local_flags = some (bytes "flagged" ∷ []);
        }))
unfolding main sync io_replica.Client.run io_replica.Sync.Run.resume io_replica.Sync.Engine.new
    io_replica.Client.service Storage.load io_replica.Lifecycle.Remote.enumerate
    io_replica.Lifecycle.Story.server text_eq native.Mathlib.Decide.ℕ_discrete Storage.write
    io_replica.Client.Verbs.open_collection io_replica.Open.resume io_replica.Open.new
    io_replica.Client.Verbs.upgrade io_replica.Upgrade.Run.resume io_replica.Upgrade.Machine.new
    io_replica.Client.Verbs.mutate io_replica.Mutate.resume io_replica.Mutate.new
    io_replica.Flags.from_iter io_replica.Lifecycle.Table.get_at io_replica.Lifecycle.Remote.fetch
    io_replica.Lifecycle.Remote.push Storage.lookup_objects io_replica.Lifecycle.Table.cmp_key
    io_replica.Lifecycle.Table.same_key Storage.apply_op io_replica.Upgrade.Fetched.insert_fetched
    io_replica.Upgrade.Fetched.row_writes io_replica.Placement.status_eq io_replica.Base.option_eq
    io_replica.Upgrade.Fetched.establish io_replica.Change.hex io_replica.Flags.flags_eq
    io_replica.Flags.merge
printed = refl

abbrev clean_mail : Placement
clean_mail = mail (bytes "1") Status.clean no_flags

abbrev replica : Client mem
replica = record {
  storage = record {
    placements = ((inbox, bytes "1"), clean_mail) ∷ [];
    objects = [];
    checkpoints = [];
  };
  remote = record {
    collections =
        (inbox, (bytes "1", record { link = bytes "m"; flags = no_flags; body = 65 ∷ [] }) ∷ [])
        ∷ [];
    body_fetches = 0;
  };
}

abbrev its_rows : Loaded
its_rows = record { placements = clean_mail ∷ []; checkpoint = none }

abbrev its_snapshot : RemoteSnapshot
its_snapshot = record {
  items = listed (bytes "1") no_flags ∷ [];
  vanished = [];
  complete = true;
  checkpoint = bytes "cp";
}

clean_mail-IsSettled : IsSettled clean_mail (listed (bytes "1") no_flags)
clean_mail-IsSettled = record {
  base = record { flags = no_flags; revision = none; object = some (bytes "h") };
  based = refl;
  status = refl;
  flags = refl;
  listed = refl;
  ordered = tt;
  revision = inl refl;
}

its_rows-IsInSync : IsInSync its_rows its_snapshot
unfolding get from_entries
its_rows-IsInSync h = elim (text_eq.dec h (bytes "1")) [
  | yes e ↦
      agreed clean_mail (listed (bytes "1") no_flags) (ground arith) (ground arith)
        clean_mail-IsSettled (inl refl)
  | no n ↦ absent (ground arith) (ground arith)
]

sync_in_sync_example :
    sync mem 4 inbox default replica
    ≡ some (
        noted mem empty_report replica.remote
          (Storage.write replica.storage (set_checkpoint inbox (bytes "cp") ∷ [])))
unfolding Storage.load text_eq native.Mathlib.Decide.ℕ_discrete
    io_replica.Lifecycle.Remote.enumerate
sync_in_sync_example =
    sync_in_sync mem 0 inbox default replica its_rows its_snapshot replica.remote refl refl
      its_rows-IsInSync

-- The same replica, before a server on which the mail has been flagged.
abbrev flagged_server : MemRemote
flagged_server = record {
  collections =
      (inbox, (bytes "1", record { link = bytes "m"; flags = flagged; body = 65 ∷ [] }) ∷ []) ∷ [];
  body_fetches = 0;
}

abbrev flagged_snapshot : RemoteSnapshot
flagged_snapshot = record {
  items = listed (bytes "1") flagged ∷ [];
  vanished = [];
  complete = true;
  checkpoint = bytes "cp";
}

storage-IsKept : IsKept replica.storage
storage-IsKept = record { sorted = (tt, tt); housed = (refl, tt) }

clean_mail-IsPlain : IsPlain inbox (bytes "1") clean_mail
clean_mail-IsPlain = record {
  base = record { flags = no_flags; revision = none; object = some (bytes "h") };
  based = refl;
  status = refl;
  flags = refl;
  ordered = tt;
  home = refl;
  handle = refl;
}

its_row :
    (h : Handle)
    → (mem_store inbox).row replica.storage h ≡ (if h == bytes "1" then some clean_mail else none)
unfolding get_at same_key mem_store
its_row h = ground arith

rows-IsPlain : (h : Handle) → IsPlainSide inbox h ((mem_store inbox).row replica.storage h)
rows-IsPlain h = rw (its_row h) (elim (text_eq.dec h (bytes "1")) [
  | yes e ↦ rw (if_pos _ e) (rw e clean_mail-IsPlain)
  | no n ↦ rw (if_neg _ n) tt
])

load-write_example :
    (u : MemStorage) × (Storage.write replica.storage
        (set_checkpoint inbox (bytes "cp") ∷ drop_placement inbox (bytes "1") deleted ∷ [])
      ≡ ok u)
    × IsKept u
    × (found_in inbox (bytes "1") (Storage.load u inbox all)
        ≡ after inbox
            (bytes "1")
            (set_checkpoint inbox (bytes "cp") ∷ drop_placement inbox (bytes "1") deleted ∷ [])
            (found_in inbox (bytes "1") (Storage.load replica.storage inbox all)))
load-write_example =
    load-write replica.storage
      (set_checkpoint inbox (bytes "cp") ∷ drop_placement inbox (bytes "1") deleted ∷ []) inbox
      (bytes "1") storage-IsKept

sync_twice_example :
    (rounds : ℕ) × (report : SyncReport) × (u v : MemStorage) × (sync mem rounds inbox default
        (record { storage = replica.storage; remote = flagged_server })
      ≡ some (ok (report, record { storage = u; remote = flagged_server })))
    × ((h : Handle) → AtRest ((mem_store inbox).row u h) (get h (keyed flagged_snapshot.items)))
    × (sync mem 4 inbox default (record { storage = u; remote = flagged_server })
        ≡ some (ok (empty_report, record { storage = v; remote = flagged_server })))
    × ((h : Handle) → (mem_store inbox).row v h ≡ (mem_store inbox).row u h)
unfolding Remote.enumerate text_eq native.Mathlib.Decide.ℕ_discrete mem_store
sync_twice_example =
    sync_twice mem inbox (mem_store inbox) default default replica.storage flagged_server
      flagged_server flagged_server flagged_snapshot flagged_snapshot storage-IsKept
      (λ cursor. refl) (λ cursor. refl) refl refl refl rows-IsPlain ((ground arith, (tt, tt)), tt)

-- What the server holds once the mail is flagged there by a push.
abbrev accepted_flags : PushResult
accepted_flags = record { handle = bytes "1"; outcome = accepted; assigned = none; revision = none }

others-AtRest :
    (x : Handle)
    → x ≢ clean_mail.handle
    → AtRest ((mem_store inbox).row replica.storage x) (get x (keyed its_snapshot.items))
unfolding get
others-AtRest x n = rw (its_row x, if_neg (text_eq.dec x (bytes "1")) n) (inl (refl, refl))

flagged_items :
    (x : Handle)
    → get x (keyed flagged_snapshot.items) ≡ (
        if x == clean_mail.handle
        then some (listed (bytes "1") flagged)
        else get x (keyed its_snapshot.items))
unfolding get
flagged_items x = ground arith

mutate-sync_flags_example :
    (u w : MemStorage) × (p : Placement) × (z : MemStorage) × ((mutate mem 3 inbox
          (set_flags (bytes "1") flagged)
          replica
        ≡ some (ok (tt, record { storage = u; remote = replica.remote })))
      × (sync mem 5 inbox default (record { storage = u; remote = replica.remote })
          ≡ some (
              ok (
                record empty_report { pushed = 1; events = flags_changed (bytes "1") ∷ [] },
                record { storage = w; remote = flagged_server },
              )))
      × ((mem_store inbox).row w (bytes "1") ≡ some p)
      × (p.flags ≡ flagged)
      × IsSettled p (listed (bytes "1") flagged)
      × ((x : Handle)
          → x ≢ bytes "1"
          → (mem_store inbox).row w x ≡ (mem_store inbox).row replica.storage x))
    × (sync mem 4 inbox default (record { storage = w; remote = flagged_server })
        ≡ some (ok (empty_report, record { storage = z; remote = flagged_server })))
unfolding Remote.enumerate Remote.push get insert mem_store get_at same_key text_eq
    native.Mathlib.Decide.ℕ_discrete io_replica.Change.new
mutate-sync_flags_example =
    mutate-sync_flags mem inbox (mem_store inbox) default replica.storage replica.remote
      replica.remote flagged_server flagged clean_mail (listed (bytes "1") no_flags) its_snapshot
      accepted_flags storage-IsKept refl refl clean_mail-IsSettled others-AtRest refl (ground arith)
      (ground arith) (tt, tt) (ground arith) (λ cursor. refl) refl refl refl refl refl default
      flagged_snapshot flagged_server (λ cursor. refl) refl flagged_items
