-- ===== src/Tests/Hubs.antt =====
-- The theorems on the hub, at a mail that two sources hold.
use io_replica.Base.{◌≡◌, refl, inl, inr, none, some, [], ◌∷◌, bytes, Text, false, arith}
use io_replica.Base.Map.{get}
use io_replica.Placement.{Placement, Status, full, SyncBase}
use io_replica.Change.{update, remove, upsert_placement, drop_placement, deleted, superseded}
use io_replica.Sync.Merge.{merge}
use io_replica.Hub.Items.{SourceId, SourceBinding, HubItem, Hub, manual}
use io_replica.Hub.Project.{project}
use io_replica.Hub.Absorb.{absorb}
use io_replica.Hub.Order.{IsOrdered}
use io_replica.Hub.Tables.{find_link}
use io_replica.Hub.RoundTrip.{project-absorb_conflict, project-absorb_settled}
use io_replica.Hub.Propagation.{merge-project-absorb}
use io_replica.Hub.Deletes.{project-superseded, merge-project-drop}
use io_replica.Tests.Data.{inbox, no_flags, mail, listed, fresh, edit_hash, base_of}

abbrev link : Text
link = bytes "m"

abbrev work : SourceId
work = bytes "a"

abbrev phone : SourceId
phone = bytes "b"

abbrev bound_at : Text → SourceBinding
bound_at handle = record {
  handle = handle;
  base = base_of no_flags;
  conflicted = false;
  conflict_revision = none;
  conflict_object = none;
  shared_object = some (bytes "h");
}

-- The mail as both sources last synced it.
abbrev shared_mail : HubItem
shared_mail = record {
  flags = no_flags;
  object = some (bytes "h");
  meta = none;
  sort_key = [];
  level = full;
  deleted = false;
  conflicted = false;
  conflict_object = none;
  sources = (work, bound_at (bytes "1")) ∷ (phone, bound_at (bytes "9")) ∷ [];
}

abbrev hub : Hub
hub = record { items = (link, shared_mail) ∷ []; conflict = manual }

abbrev hub-IsOrdered : IsOrdered hub
hub-IsOrdered = ((tt, tt), (((refl, tt), (tt, tt)), tt))

-- The mail with a new body at the first source.
abbrev rewritten : Placement
rewritten = record (mail (bytes "1") Status.clean no_flags) {
  object = some edit_hash;
  base = some (record { flags = no_flags; revision = none; object = some edit_hash });
}

abbrev disputed : Placement
disputed = mail (bytes "1") Status.conflict no_flags

project-absorb_conflict_example :
    (q : Placement) × (find_link link
        (project (absorb work (upsert_placement disputed ∷ []) hub) inbox work)
      ≡ some q)
    × (q.handle ≡ disputed.handle)
    × (q.status ≡ Status.conflict)
    × (q.base ≡ disputed.base)
    × (q.conflict_revision ≡ disputed.conflict_revision)
    × (q.conflict_object ≡ disputed.conflict_object)
project-absorb_conflict_example =
    project-absorb_conflict hub work inbox link disputed hub-IsOrdered refl refl

abbrev synced : Placement
synced = mail (bytes "1") Status.clean no_flags

abbrev mail_base : SyncBase
mail_base = record { flags = no_flags; revision = none; object = some (bytes "h") }

project-absorb_settled_example :
    (q : Placement) × (find_link link
        (project (absorb work (upsert_placement synced ∷ []) hub) inbox work)
      ≡ some q)
    × (q.handle ≡ synced.handle)
    × (q.status ≡ Status.clean)
    × (q.base ≡ some mail_base)
    × (q.flags ≡ synced.flags)
    × (q.object ≡ synced.object)
unfolding get
project-absorb_settled_example =
    project-absorb_settled hub work inbox link synced mail_base hub-IsOrdered refl refl refl refl
      refl (ground arith) (inr (shared_mail, ground arith, refl))

merge-project-absorb_example :
    (q : Placement) × (find_link link
        (project (absorb work (upsert_placement rewritten ∷ []) hub) inbox phone)
      ≡ some q)
    × (q.handle ≡ bytes "9")
    × ((merge
          (record {
            handle = q.handle;
            local = some q;
            remote = some (listed (bytes "9") no_flags);
          })
          fresh).1
        ≡ some (update q.handle edit_hash none))
unfolding get fresh
merge-project-absorb_example =
    merge-project-absorb hub work phone inbox link rewritten shared_mail (bound_at (bytes "9"))
      mail_base edit_hash fresh (listed (bytes "9") no_flags) hub-IsOrdered refl (ground arith)
      (ground arith) refl (ground arith) (ground arith) (ground arith) (ground arith) refl refl
      (ground arith) (inl refl) refl

project-superseded_example :
    find_link link
      (project (absorb work (drop_placement inbox (bytes "1") superseded ∷ []) hub) inbox phone)
    ≡ find_link link (project hub inbox phone)
unfolding get
project-superseded_example =
    project-superseded hub work phone inbox inbox link (bytes "1") shared_mail
      (bound_at (bytes "9")) hub-IsOrdered (ground arith) (ground arith) (ground arith)

merge-project-drop_example :
    (q : Placement) × (find_link link
        (project (absorb work (drop_placement inbox (bytes "1") deleted ∷ []) hub) inbox phone)
      ≡ some q)
    × ((merge
          (record {
            handle = bytes "9";
            local = some q;
            remote = some (listed (bytes "9") no_flags);
          })
          fresh).1
        ≡ some (remove (bytes "9") none (some link) none))
unfolding get fresh
merge-project-drop_example =
    merge-project-drop hub work phone inbox inbox link (bytes "1") shared_mail
      (bound_at (bytes "1")) (bound_at (bytes "9")) mail_base fresh (listed (bytes "9") no_flags)
      hub-IsOrdered (ground arith) (ground arith) (ground arith) refl (ground arith) refl (inl refl)
      refl
