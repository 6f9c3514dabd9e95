-- ===== src/Tests/Rekeys.antt =====
-- The theorems on the rekey, at a mailbox that is renumbered.
use io_replica.Base.{
  ◌≡◌, ◌≢◌, All, refl, sym, ◌∙◌, inl, inr, ◌&&◌, not, none, some, List, [], ◌∷◌, bytes, true, arith,
  any, ◌==◌, text_eq,
}
use io_replica.Base.Map.{Map}
use io_replica.Placement.{Placement, Handle, Status, Hash, staged_edit}
use io_replica.Remote.{RemoteItem}
use io_replica.Change.{WriteOp}
use io_replica.Coroutine.{ArgError, Result}
use io_replica.Client.{Client, ClientError}
use io_replica.Client.Ends.{is_sound}
use io_replica.Client.Verbs.{rekey}
use io_replica.Sync.Merge.Effects.{after}
use io_replica.Sync.Merge.{merge}
use io_replica.Rekey.Rows.{Resolved, carry, is_stranded}
use io_replica.Rekey.Rebuild.{RekeyReport, empty_report, is_spine, rebuild}
use io_replica.Rekey.Handles.{is_dropped, is_upserted, is_dropped-rebuild}
use io_replica.Rekey.Survival.{Holds, after-rebuild}
use io_replica.Rekey.Merges.{merge-carry_clean}
use io_replica.Rekey.Ends.{rekey_ends}
use io_replica.Tests.Data.{inbox, no_flags, seen, mail, listed, fresh, edited}
use io_replica.Tests.Drivers.{toy, toy_client}

-- The edited mail, which the new handles know as "7", and one that is gone from them.
abbrev old_rows : List Placement
old_rows =
    edited Status.dirty
    ∷ record (mail (bytes "2") Status.clean no_flags) { link_id = some (bytes "n") }
    ∷ []

abbrev resolved : Map Resolved
resolved = (bytes "7", record { link_id = bytes "m"; meta = bytes "meta"; sort_key = [] }) ∷ []

abbrev new_items : List RemoteItem
new_items = listed (bytes "7") seen ∷ []

abbrev ops : List WriteOp
ops = (rebuild inbox new_items resolved old_rows (7 ∷ []) empty_report).1

is_dropped-rebuild_example : is_dropped (bytes "2") ops ≡ (
    not (is_upserted (bytes "2") ops) && any (λ p. is_spine p && (bytes "2" == p.handle)) old_rows)
is_dropped-rebuild_example =
    is_dropped-rebuild inbox new_items resolved old_rows (7 ∷ []) empty_report (bytes "2")

one_row : (q r : Placement) → Holds old_rows q → Holds old_rows r → q.handle ≡ r.handle → q ≡ r
one_row q r (inl a) (inl b) e = a ∙ sym b
one_row q r (inl a) (inr (inl b)) e = ground arith
one_row q r (inr (inl a)) (inl b) e = ground arith
one_row q r (inr (inl a)) (inr (inl b)) e = a ∙ sym b
one_row q r (inl a) (inr (inr x)) e = absurd x
one_row q r (inr (inl a)) (inr (inr x)) e = absurd x
one_row q r (inr (inr x)) m e = absurd x

apart :
    (q : Placement)
    → Holds old_rows q
    → is_stranded q ≡ true
    → All (λ i. i.handle ≢ q.handle) new_items
apart q (inl a) s = (ground arith, tt)
apart q (inr (inl a)) s = (ground arith, tt)
apart q (inr (inr x)) s = absurd x

after-rebuild_example :
    (o : Hash) × (h : Handle) × (row : Placement) × (staged_edit (edited Status.dirty) ≡ some o)
    × (after inbox h ops none ≡ some row)
    × (row.link_id ≡ some (bytes "m"))
    × (staged_edit row ≡ some o)
after-rebuild_example =
    after-rebuild inbox new_items resolved old_rows (7 ∷ []) empty_report (λ h. none) one_row
      (refl, (refl, tt)) (tt, tt) apart (edited Status.dirty) (inl refl) (ground arith)

merge-carry_clean_example :
    merge
      (record {
        handle = bytes "7";
        local =
            some
              (carry inbox (mail (bytes "1") Status.clean no_flags) (listed (bytes "7") seen) none);
        remote = some (listed (bytes "7") seen);
      })
      fresh
    ≡ (fresh, none)
merge-carry_clean_example =
    merge-carry_clean inbox (mail (bytes "1") Status.clean no_flags) (listed (bytes "7") seen) none
      (record { flags = no_flags; revision = none; object = some (bytes "h") }) fresh refl refl refl
      (λ e. cc) (λ e. cc) tt (tt, tt)

rekey_ends_example :
    (r : Result (RekeyReport × Client toy) (ClientError toy ArgError)) × (rekey toy 5 inbox
        toy_client
      ≡ some r)
    × (is_sound toy r ≡ true)
rekey_ends_example = rekey_ends toy inbox toy_client
