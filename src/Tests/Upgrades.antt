-- ===== src/Tests/Upgrades.antt =====
-- The theorems on the upgrade, at two copies of one mail.
use io_replica.Base.{◌++◌, List, ◌≡◌, refl, ap, inl, none, some, [], ◌∷◌, bytes, Text, true, arith}
use io_replica.Base.Map.{get}
use io_replica.Placement.{Placement, Status, Handle, Object, probed, staged_edit}
use io_replica.Remote.{FetchedItem, inline, Tier}
use io_replica.Coroutine.{Arg, ArgError, Result}
use io_replica.Client.{Client, ClientError}
use io_replica.Client.Ends.{is_sound}
use io_replica.Client.Verbs.{upgrade}
use io_replica.Sync.Merge.{merge}
use io_replica.Sync.Merge.Quiet.{IsSettled}
use io_replica.Upgrade.Machine.{Upgrade, State, UpgradeReport, new}
use io_replica.Upgrade.Fetched.{apply_found, write_fetched, with_body, with_summary, mint}
use io_replica.Upgrade.Run.{resume}
use io_replica.Upgrade.Identity.{IsUnique, IsKeyed, IsPlain}
use io_replica.Upgrade.Written.{written, asked}
use io_replica.Upgrade.Claimed.{IsNamed}
use io_replica.Upgrade.Unique.{IsUpgradable, written-write_fetched}
use io_replica.Upgrade.Bounded.{IsBounded, resume-IsBounded}
use io_replica.Change.{WriteOp}
use io_replica.Upgrade.Progress.{Satisfies, apply_found-Satisfies}
use io_replica.Upgrade.Order.{Reordered, write_fetched-Reordered}
use io_replica.Upgrade.Quiet.{merge-with_body}
use io_replica.Upgrade.Ends.{upgrade_ends}
use io_replica.Tests.Data.{inbox, no_flags, mail, listed, fresh}
use io_replica.Tests.Drivers.{toy, toy_client}

-- A row whose identity no fetch has read yet.
abbrev unread : Text → Placement
unread handle = record (mail handle Status.clean no_flags) {
  link_id = none;
  object = none;
  level = probed;
}

abbrev copy_of : Text → FetchedItem
copy_of handle = record {
  handle = handle;
  link_id = bytes "m";
  meta = bytes "meta";
  sort_key = [];
  body = some (inline (bytes "h") (1 ∷ []));
  revision = none;
}

-- Both copies are fetched, in an order of the connection pool's.
abbrev fetching : Upgrade
fetching = record (new inbox (bytes "1" ∷ bytes "2" ∷ []) Tier.full) {
  placements = (bytes "1", unread (bytes "1")) ∷ (bytes "2", unread (bytes "2")) ∷ [];
  fetched = copy_of (bytes "2") ∷ copy_of (bytes "1") ∷ [];
  state = State.pending_fetch;
}

fetching-unread : (h : Handle) (p : Placement) → get h fetching.placements ≡ some p → p ≡ unread h
unfolding get new
fetching-unread h p g = ground arith

fetching-IsKeyed : IsKeyed fetching.placements
fetching-IsKeyed h p g = ap (λ q. q.handle) (fetching-unread h p g)

fetching-linkless :
    (h : Handle) (p : Placement) → get h fetching.placements ≡ some p → p.link_id ≡ none
fetching-linkless h p g = ap (λ q. q.link_id) (fetching-unread h p g)

copy_of-IsNamed : (handle : Text) → IsPlain handle → IsNamed (copy_of handle)
unfolding mint
copy_of-IsNamed handle plain = (plain, λ hint k p e. cc)

fetching-IsUpgradable : IsUpgradable fetching
unfolding new written
fetching-IsUpgradable = (
  ((refl, tt), (tt, tt)),
  fetching-IsKeyed,
  λ h k p q l g f a b. cc (fetching-linkless h p g, a),
  λ hint k h p plain g e. cc (fetching-linkless h p g, e),
  (copy_of-IsNamed (bytes "2") (λ e. cc, tt), (copy_of-IsNamed (bytes "1") (λ e. cc, tt), tt)),
  λ h p g. (p, g, refl),
)

written-write_fetched_example :
    IsUnique (written (asked (write_fetched fetching)) fetching.placements)
written-write_fetched_example = written-write_fetched fetching fetching-IsUpgradable

resume-IsBounded_example : IsBounded (resume (some (Arg.fetch (copy_of (bytes "2") ∷ []))) fetching)
unfolding new
resume-IsBounded_example =
    resume-IsBounded (some (Arg.fetch (copy_of (bytes "2") ∷ []))) fetching
      (fetching-IsKeyed, tt, λ e. cc)

write_fetched-Reordered_example :
    write_fetched (record fetching { fetched = copy_of (bytes "2") ∷ copy_of (bytes "1") ∷ [] })
    ≡ write_fetched (record fetching { fetched = copy_of (bytes "1") ∷ copy_of (bytes "2") ∷ [] })
write_fetched-Reordered_example =
    write_fetched-Reordered fetching (copy_of (bytes "2") ∷ copy_of (bytes "1") ∷ [])
      (copy_of (bytes "1") ∷ copy_of (bytes "2") ∷ [])
      (Reordered.swap (copy_of (bytes "2")) (copy_of (bytes "1")) (ground arith))

abbrev settled_mail : Placement
settled_mail = mail (bytes "1") Status.clean no_flags

abbrev settled : IsSettled settled_mail (listed (bytes "1") no_flags)
settled = record {
  base = record { flags = no_flags; revision = none; object = some (bytes "h") };
  based = refl;
  status = refl;
  flags = refl;
  listed = refl;
  ordered = tt;
  revision = inl refl;
}

abbrev stored : Object
stored = record { hash = bytes "h4"; size = 1 }

merge-with_body_example :
    (staged_edit (
        with_body stored
          (copy_of (bytes "1"))
          (with_summary (bytes "m") (copy_of (bytes "1")) settled_mail))
      ≡ none)
    × (merge
          (record {
            handle = bytes "1";
            local = some (
                with_body stored
                  (copy_of (bytes "1"))
                  (with_summary (bytes "m") (copy_of (bytes "1")) settled_mail));
            remote = some (listed (bytes "1") no_flags);
          })
          fresh
        ≡ (fresh, none))
merge-with_body_example =
    merge-with_body settled_mail (listed (bytes "1") no_flags) (bytes "m") stored
      (copy_of (bytes "1")) fresh settled (inl refl)

upgrade_ends_example :
    (r : Result (UpgradeReport × Client toy) (ClientError toy ArgError)) × (upgrade toy 6 inbox
        (bytes "1" ∷ [])
        Tier.full
        toy_client
      ≡ some r)
    × (is_sound toy r ≡ true)
upgrade_ends_example = upgrade_ends toy inbox (bytes "1" ∷ []) Tier.full toy_client

apply_found-Satisfies_example :
    (added : List WriteOp) × ((apply_found
        (copy_of (bytes "1"))
        (some (unread (bytes "1")))
        []
        fetching).1.ops
      ≡ fetching.ops ++ added)
    × Satisfies Tier.full (unread (bytes "1")) added
unfolding new
apply_found-Satisfies_example =
    apply_found-Satisfies (copy_of (bytes "1")) (unread (bytes "1")) [] fetching
      (inline (bytes "h") (1 ∷ [])) refl
