-- ===== src/Tests/Data.antt =====
-- Small collections for the tests.
use io_replica.Base.{Option, none, some, List, [], ◌∷◌, Text, bytes, true}
use io_replica.Flags.{Flags, known}
use io_replica.Placement.{Placement, Status, full, SyncBase, Hash}
use io_replica.Remote.{RemoteItem, RemoteSnapshot, PushResult, accepted}
use io_replica.Change.{update, new as new_change}
use io_replica.Sync.Options.{default}
use io_replica.Sync.Engine.{Sync, new, Candidate, Join, Merge}

abbrev pub inbox : Text
inbox = bytes "inbox"

abbrev pub seen : Flags
seen = known (bytes "seen" ∷ [])

abbrev pub flagged : Flags
flagged = known (bytes "flagged" ∷ [])

abbrev pub no_flags : Flags
no_flags = known []

-- A mail as last synced, with the markers given.
abbrev pub base_of : Flags → Option SyncBase
base_of flags = some (record { flags = flags; revision = none; object = some (bytes "h") })

abbrev pub mail : Text → Status → Flags → Placement
mail handle status flags = record {
  collection = inbox;
  handle = handle;
  link_id = some (bytes "m");
  object = some (bytes "h");
  level = full;
  meta = none;
  sort_key = [];
  flags = flags;
  status = status;
  conflict_revision = none;
  conflict_object = none;
  base = base_of no_flags;
  origin = none;
}

abbrev pub listed : Text → Flags → RemoteItem
listed handle flags = record { handle = handle; flags = flags; revision = none }

abbrev pub snapshot : List RemoteItem → RemoteSnapshot
snapshot items = record { items = items; vanished = []; complete = true; checkpoint = 7 ∷ [] }

abbrev pub accept_of : Text → PushResult
accept_of handle = record { handle = handle; outcome = accepted; assigned = none; revision = none }

unfoldable pub fresh : Sync
unfolding new
fresh = new inbox default

-- A mail with a body that the last sync did not see, on top of the revision "v1".
abbrev pub base_v1 : SyncBase
base_v1 = record { flags = no_flags; revision = some (bytes "v1"); object = some (bytes "h") }

abbrev pub edited : Status → Placement
edited status = record (mail (bytes "1") status no_flags) {
  object = some (bytes "h2");
  base = some base_v1;
}

-- The edited mail, moved to another collection.
abbrev pub moved : Placement
moved = record (edited Status.tombstone) {
  origin = some (record { collection = bytes "archive"; handle = bytes "1" });
}

abbrev pub edit_hash : Hash
edit_hash = bytes "h2"

abbrev pub at_revision : Text → RemoteItem
at_revision revision = record { handle = bytes "1"; flags = no_flags; revision = some revision }

abbrev pub candidate : Placement → Option RemoteItem → Candidate
candidate p r = record { handle = p.handle; local = some p; remote = r }

-- A join with members on one side, on the other and on both.
abbrev pub two_sides : Join
two_sides = record {
  local = (bytes "1", edited Status.dirty) ∷ (bytes "2", mail (bytes "2") Status.clean seen) ∷ [];
  remote = listed (bytes "2") flagged ∷ listed (bytes "3") seen ∷ [];
}

abbrev pub delta : Merge
delta = record { join = two_sides; vanished = bytes "2" ∷ []; complete = true; checkpoint = 7 ∷ [] }

-- A run with one change derived and not yet pushed.
abbrev pub one_push : Sync
unfolding fresh
one_push = record fresh {
  pushes = new_change inbox (update (bytes "1") edit_hash (some (bytes "v1"))) ∷ [];
}

-- A run in which the content push of the edited mail is in flight.
abbrev pub in_flight : Sync
unfolding fresh
in_flight = record fresh {
  in_flight = bytes "1" ∷ [];
  pending_content_pushes = (bytes "1", edited Status.dirty) ∷ [];
}
