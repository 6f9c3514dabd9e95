-- ===== src/Rekey/Merges.antt =====
-- src/rekey.rs with src/sync.rs: a carried row at the first sync on its new handle.
use io_replica.Base.{
  ◌≡◌, ◌≢◌, refl, sym, ◌∙◌, ◌⊎◌, inl, inr, ◌&&◌, true, Option, none, some, arith, text_eq,
  option_eq,
}
use mathlib.Core.Path.{subst}
use io_replica.Flags.{flags_eq, unknown}
use io_replica.Flags.Laws.{IsOrdered, merge_unchanged}
use io_replica.Placement.{
  Placement, SyncBase, Hash, CollectionId, status_eq, clean, dirty, tombstone, staged_edit,
  staged_body,
}
use io_replica.Remote.{RemoteItem}
use io_replica.Change.{update, remove}
use io_replica.Sync.Engine.{Sync}
use io_replica.Sync.Merge.{merge, destination}
use io_replica.Sync.Merge.Dirty.{merge_dirty}
use io_replica.Sync.Merge.Deletes.{merge_deleted_unchanged}
use io_replica.Sync.Merge.Quiet.{merge_settled}
use io_replica.Rekey.Rows.{Resolved, carry, carried_flags, status_of, has_edit, base_object}
use io_replica.Rekey.Edits.{staged_edit-carry, has_edit-staged}

staged-object :
    (p : Placement) (o : Hash)
    → staged_edit p ≡ some o
    → (p.object ≡ some o) × (base_object p.base ≢ some o)
unfolding staged_edit staged_body
staged-object p o e = go p.object p.base e
  where
    go :
        (x : Option Hash) (b : Option SyncBase)
        → staged_body x b ≡ some o
        → (x ≡ some o) × (base_object b ≢ some o)
    go none b e = cc
    go (some x) none e = (e, λ h. cc)
    go (some x) (some b) e = ground arith

status_of-dirty :
    (p : Placement) (item : RemoteItem)
    → p.status ≡ dirty
    → has_edit p ≡ true
    → status_of p item ≡ dirty
unfolding status_of
status_of-dirty p item st e = ground arith

-- A dirty row with a staged body, carried over to a new member and merged against that member
-- where content pushes are permitted, derives the update of the body at the new handle, on the
-- revision observed.
merge-carry_edit :
    (collection : CollectionId) (old : Placement) (item : RemoteItem) (r : Option Resolved)
    (o : Hash) (s : Sync)
    → old.status ≡ dirty
    → staged_edit old ≡ some o
    → s.opts.push && s.opts.rights.content ≡ true
    → (merge
        (record {
          handle = item.handle;
          local = some (carry collection old item r);
          remote = some item;
        })
        s).1
      ≡ some (update item.handle o item.revision)
unfolding carry
merge-carry_edit collection old item r o s st e may =
    let (body, n) = staged-object old o e in
    merge_dirty
      (record {
        handle = item.handle;
        local = some (carry collection old item r);
        remote = some item;
      })
      s (carry collection old item r)
      (record { flags = item.flags; revision = item.revision; object = base_object old.base }) item
      o refl refl (status_of-dirty old item st (has_edit-staged old o e)) refl body n (inr refl) may

-- A tombstone without an edit to move, carried over to a new member and merged against it with
-- removes permitted, derives the remove of the new handle, on the revision observed.
merge-carry_tombstone :
    (collection : CollectionId) (old : Placement) (item : RemoteItem) (r : Option Resolved)
    (s : Sync)
    → old.status ≡ tombstone
    → (staged_edit old ≡ none) ⊎ (old.origin ≡ none)
    → s.opts.push && s.opts.rights.remove ≡ true
    → (merge
        (record {
          handle = item.handle;
          local = some (carry collection old item r);
          remote = some item;
        })
        s).1
      ≡ some (remove item.handle (destination old.origin) old.link_id item.revision)
unfolding carry status_of
merge-carry_tombstone collection old item r s st plain may =
    (merge_deleted_unchanged
      (record {
        handle = item.handle;
        local = some (carry collection old item r);
        remote = some item;
      })
      s (carry collection old item r)
      (record { flags = item.flags; revision = item.revision; object = base_object old.base }) item
      refl refl refl (ground arith) (inr refl) (staged_none plain) may).1
  where
    staged_none :
        (staged_edit old ≡ none) ⊎ (old.origin ≡ none)
        → (staged_edit (carry collection old item r) ≡ none) ⊎ (old.origin ≡ none)
    staged_none (inl e) = inl (staged_edit-carry collection old item r ∙ e)
    staged_none (inr e) = inr e

carried_flags-clean :
    (old : Placement) (item : RemoteItem) (base : SyncBase)
    → old.base ≡ some base
    → old.flags ≡ base.flags
    → base.flags ≢ unknown
    → item.flags ≢ unknown
    → IsOrdered base.flags
    → IsOrdered item.flags
    → carried_flags old item ≡ item.flags
unfolding carried_flags
carried_flags-clean old item base b f n k ordered listed =
    rw b (rw f (merge_unchanged base.flags item.flags ordered listed n k))

status_of-clean :
    (old : Placement) (item : RemoteItem)
    → old.status ≡ clean
    → carried_flags old item ≡ item.flags
    → status_of old item ≡ clean
unfolding status_of
status_of-clean old item st e = ground arith

-- A clean row with the flags of its base, carried over to a new member whose flags are known and
-- ordered, as are its own, merges against that member to nothing, and changes nothing of the
-- run.
pub merge-carry_clean :
    (collection : CollectionId) (old : Placement) (item : RemoteItem) (r : Option Resolved)
    (base : SyncBase) (s : Sync)
    → old.status ≡ clean
    → old.base ≡ some base
    → old.flags ≡ base.flags
    → base.flags ≢ unknown
    → item.flags ≢ unknown
    → IsOrdered base.flags
    → IsOrdered item.flags
    → merge
        (record {
          handle = item.handle;
          local = some (carry collection old item r);
          remote = some item;
        })
        s
      ≡ (s, none)
unfolding carry
merge-carry_clean collection old item r base s st b f n k ordered listed =
    let e = carried_flags-clean old item base b f n k ordered listed in
    merge_settled
      (record {
        handle = item.handle;
        local = some (carry collection old item r);
        remote = some item;
      })
      s (carry collection old item r) item refl refl
      (record {
        base = record {
          flags = item.flags;
          revision = item.revision;
          object = base_object old.base;
        };
        based = refl;
        status = status_of-clean old item st e;
        flags = sym e;
        listed = sym e;
        ordered = subst IsOrdered (sym e) listed;
        revision = inr refl;
      })
