-- ===== src/Rekey/Edits.antt =====
-- src/rekey.rs, `rebuild`: the staged edits, carried over or resurrected.
use io_replica.Base.{
  ◌≡◌, refl, true, not, ◌&&◌, Option, none, some, text_eq, option_eq, ◌==◌, arith, is_some,
  is_none_or,
}
use io_replica.Placement.{
  CollectionId, Hash, Placement, SyncBase, staged_body, staged_edit, status_eq,
}
use io_replica.Remote.{RemoteItem}
use io_replica.Rekey.Rows.{Resolved, carry, is_stranded, resurrected, has_edit}

-- A carried row stages what the old one did, whatever the new member is.
pub staged_edit-carry :
    (collection : CollectionId) (old : Placement) (item : RemoteItem) (r : Option Resolved)
    → staged_edit (carry collection old item r) ≡ staged_edit old
unfolding staged_edit carry
staged_edit-carry collection old item r = ground arith

pub staged_edit-resurrected :
    (p : Placement) (o : Hash) → staged_edit p ≡ some o → staged_edit (resurrected p) ≡ some o
unfolding staged_edit
staged_edit-resurrected p o e = ground arith

-- An edit that the tests of the source see is a staged one.
pub has_edit-staged : (p : Placement) (o : Hash) → staged_edit p ≡ some o → has_edit p ≡ true
unfolding staged_edit staged_body
has_edit-staged p o e = go p.object p.base e
  where
    go :
        (x : Option Hash) (b : Option SyncBase)
        → staged_body x b ≡ some o
        → (is_some x && is_none_or b (λ c. not (c.object == x))) ≡ true
    go none b e = cc
    go (some x) none e = refl
    go (some x) (some b) e = ground arith

-- A stranded row stages the body that it has.
pub stranded-staged : (p : Placement) → is_stranded p ≡ true → (o : Hash) × (staged_edit p ≡ some o)
unfolding staged_edit staged_body
stranded-staged p s = go p.object p.base (ground arith)
  where
    go :
        (x : Option Hash) (b : Option SyncBase)
        → (is_some x && is_none_or b (λ c. not (c.object == x))) ≡ true
        → (o : Hash) × (staged_body x b ≡ some o)
    go none b e = cc
    go (some x) none e = (x, refl)
    go (some x) (some b) e = (x, ground arith)
