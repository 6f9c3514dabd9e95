-- ===== src/Sync/Run/Flagged.antt =====
-- src/sync.rs, `merge_step`: one row whose flags were changed here, among rows that are settled.
use io_replica.Base.{
  ℕ, zero, suc, ◌≡◌, ◌≢◌, ◌≤◌, refl, sym, ap, ◌∙◌, true, false, ◌&&◌, Option, none, some, List, [],
  ◌∷◌, ◌++◌, arith, All, length, leb, text_eq, option_eq, Ordering, ◌⊎◌,
}
use io_replica.Base.Strings.{cmp, cmp_refl}
use io_replica.Base.Map.{insert}
use io_replica.Flags.{flags_eq, unknown, merge as merge_flags}
use io_replica.Flags.Laws.{IsOrdered, merge_unchanged, merge_comm}
use io_replica.Placement.{Placement, SyncBase, status_eq, dirty}
use io_replica.Remote.{RemoteItem}
use io_replica.Change.{set_flags, new as new_change}
use io_replica.Sync.Engine.{Sync, Merge, Join, Candidate}
use io_replica.Sync.Content.{reconcile_content, untouched}
use io_replica.Sync.Markers.{reconcile_flags, derive}
use io_replica.Sync.Join.{next, kept, join_size}
use io_replica.Sync.Join.Pairs.{walk, find_candidate, IsAscending}
use io_replica.Sync.Join.Loop.{next_empty, next-size}
use io_replica.Sync.Merge.{merge}
use io_replica.Sync.Run.{write_chunk, merge_within, merge_one, merge_round, derive_change}
use io_replica.Sync.Run.Idle.{IsQuiet, walk-next, walk_at_end}
use io_replica.Sync.Run.Quiescent.{
  finished, merge_within-Finishes, merge_within_quiet, advance_found, IsQuiet-join,
}

-- A dirty row whose flags, and nothing else, differ from those of its base, against an item that
-- still has the flags and the revision of the base.
pub record IsFlagged (p : Placement) (item : RemoteItem) : Type 0 where
  pub base : SyncBase
  pub based : p.base ≡ some base
  pub status : p.status ≡ dirty
  pub body : p.object ≡ base.object
  pub flags : p.flags ≢ base.flags
  pub known : p.flags ≢ unknown
  pub ordered : IsOrdered p.flags
  pub base_known : base.flags ≢ unknown
  pub base_ordered : IsOrdered base.flags
  pub listed : item.flags ≡ base.flags
  pub revision : (item.revision ≡ none) ⊎ (item.revision ≡ base.revision)

merge_kept :
    (p : Placement) (item : RemoteItem) (h : IsFlagged p item)
    → merge_flags h.base.flags p.flags h.base.flags ≡ p.flags
merge_kept p item h =
    merge_comm h.base.flags p.flags h.base.flags h.ordered h.base_ordered
    ∙ merge_unchanged h.base.flags p.flags h.base_ordered h.ordered h.base_known h.known

-- The run after the merge of such a row: the push is derived and held.
abbrev pub staged : Placement → Sync → Sync
staged p s = record s {
  pending_flag_pushes = insert p.handle p s.pending_flag_pushes;
  pushes = s.pushes ++ new_change s.collection (set_flags p.handle p.flags) ∷ [];
}

content_flagged :
    (p : Placement) (item : RemoteItem) (s : Sync)
    → IsFlagged p item
    → reconcile_content p item s ≡ (s, untouched)
unfolding reconcile_content
content_flagged p item s h = ground (arith, h.based, h.status, h.body, h.revision)

flags_flagged :
    (p : Placement) (item : RemoteItem) (s : Sync)
    → IsFlagged p item
    → s.opts.push && s.opts.rights.flags ≡ true
    → reconcile_flags p item derive s ≡ (
      record s { pending_flag_pushes = insert p.handle p s.pending_flag_pushes },
      some (set_flags p.handle p.flags),
    )
unfolding reconcile_flags
flags_flagged p item s h may =
    let merged = merge_kept p item h in
    rw (h.based, h.listed, merged) (ground (arith, h.flags, may))

merge_flagged :
    (c : Candidate) (s : Sync) (p : Placement) (item : RemoteItem)
    → c.local ≡ some p
    → c.remote ≡ some item
    → IsFlagged p item
    → s.opts.push && s.opts.rights.flags ≡ true
    → merge c s ≡ (
      record s { pending_flag_pushes = insert p.handle p s.pending_flag_pushes },
      some (set_flags p.handle p.flags),
    )
unfolding merge
merge_flagged c s p item l r h may =
    ground (arith, h.status, content_flagged p item s h, flags_flagged p item s h may)

merge_one_flagged :
    (c : Candidate) (s : Sync) (p : Placement) (item : RemoteItem)
    → c.local ≡ some p
    → c.remote ≡ some item
    → IsFlagged p item
    → s.opts.push && s.opts.rights.flags ≡ true
    → merge_one c s ≡ staged p s
unfolding merge_one derive_change
merge_one_flagged c s p item l r h may = rw (merge_flagged c s p item l r h may) refl

-- Behind the flagged member in the walk, every candidate is quiet.
quiet_behind :
    (m : Merge) (j : Join) (c : Candidate) (l : List Candidate)
    → All (λ d. cmp c.handle d.handle ≡ Ordering.lt) l
    → All (λ d. d.handle ≢ c.handle → IsQuiet m d) l
    → All (IsQuiet (record m { join = j })) l
quiet_behind m j c [] a q = tt
quiet_behind m j c (d ∷ l) (a, as') (q, qs) =
    (IsQuiet-join m j d (q (ground (arith, a, cmp_refl c.handle))), quiet_behind m j c l as' qs)

-- Ahead of it, they stay quiet as the join moves on.
quiet_ahead :
    (m : Merge) (j : Join) (c : Candidate) (l : List Candidate)
    → All (λ d. d.handle ≢ c.handle → IsQuiet m d) l
    → All (λ d. d.handle ≢ c.handle → IsQuiet (record m { join = j }) d) l
quiet_ahead m j c [] q = tt
quiet_ahead m j c (d ∷ l) (q, qs) = (λ n. IsQuiet-join m j d (q n), quiet_ahead m j c l qs)

module _ (c : Candidate) (p : Placement) (item : RemoteItem) (local : c.local ≡ some p)
    (remote : c.remote ≡ some item) (flagged : IsFlagged p item) where
  -- What the loop of `merge_step` comes to over a walk that meets the flagged member.
  abbrev pub Stages : ℕ → Type 0
  Stages n =
      (k : ℕ) (s : Sync) (m : Merge)
      → s.merging ≡ some m
      → join_size m.join ≤ n
      → join_size m.join ≤ k
      → leb write_chunk (length s.writes) ≡ false
      → s.opts.push && s.opts.rights.flags ≡ true
      → m.complete ≡ true
      → IsAscending (walk n m.join)
      → All (λ d. d.handle ≢ c.handle → IsQuiet m d) (walk n m.join)
      → find_candidate c.handle (walk n m.join) ≡ some c
      → merge_within k s ≡ finished (staged p s) m

  merge_within_flagged :
      (n k : ℕ) (s : Sync) (m : Merge) (j : Join)
      → s.merging ≡ some m
      → join_size m.join ≤ suc n
      → join_size m.join ≤ suc k
      → leb write_chunk (length s.writes) ≡ false
      → s.opts.push && s.opts.rights.flags ≡ true
      → m.complete ≡ true
      → next m.join ≡ some (c, j)
      → All (IsQuiet (record m { join = j })) (walk n j)
      → merge_within (suc k) s ≡ finished (staged p s) m
  merge_within_flagged n k s m j h b d w may whole e calm =
      let less = next-size m.join c j e in
      let t : Sync = record s { merging = some (record m { join = j }) } in
      let stays : kept m c ≡ some c = ground (arith, whole) in
      let merged = merge_one_flagged c t p item local remote flagged may in
      let stepped : merge_within (suc k) s ≡ merge_round (merge_within k) (t, some c) =
        unfold merge_within in
        ap (merge_round (merge_within k)) (advance_found s m c j h e stays) in
      let round : merge_round (merge_within k) (t, some c) ≡ merge_within k (staged p t) =
        ground (arith, merged, w) in
      stepped
      ∙ round
      ∙ merge_within-Finishes n k (staged p t) (record m { join = j }) refl (omega arith)
          (omega arith) w calm

  pub merge_within-Stages : (n : ℕ) → Stages n
  merge_within-Stages n zero s m h b d w may whole a q f =
      absurd (ground (arith, f, walk_at_end n m.join (next_empty m.join d)))
  merge_within-Stages zero (suc k) s m h b d w may whole a q f =
      absurd (ground (arith, f, walk_at_end zero m.join (next_empty m.join b)))
  merge_within-Stages (suc n) (suc k) s m h b d w may whole a q f =
      go (next m.join) refl (merge_within-Stages n)
    where
      at :
          (x : Candidate) (j : Join)
          → next m.join ≡ some (x, j)
          → IsAscending (x ∷ walk n j)
          → All (λ y. y.handle ≢ c.handle → IsQuiet m y) (x ∷ walk n j)
          → find_candidate c.handle (x ∷ walk n j) ≡ some c
          → Stages n
          → Dec (c.handle ≡ x.handle)
          → merge_within (suc k) s ≡ finished (staged p s) m
      at x j e a' q' f' ih (yes same) =
          let here : x ≡ c = ground (arith, f', same) in
          let above = a'.0 in
          merge_within_flagged n k s m j h b d w may whole (rw here at e)
            (quiet_behind m j c (walk n j) (rw here at above) q'.1)
      at x j e a' q' f' ih (no differs) =
          let less = next-size m.join x j e in
          let later : find_candidate c.handle (walk n j) ≡ some c = ground (arith, f', differs) in
          let round = merge_within_quiet k s m x j h d w e (q'.0 (λ s. differs (sym s))) in
          round.2
          ∙ ih round.0 (record s { merging = some (record m { join = j }) }) (record m { join = j })
              refl (omega arith) round.1 w may whole a'.1 (quiet_ahead m j c (walk n j) q'.1) later

      go :
          (o : Option (Candidate × Join))
          → next m.join ≡ o
          → Stages n
          → merge_within (suc k) s ≡ finished (staged p s) m
      go none e ih = absurd (ground (arith, f, walk_at_end (suc n) m.join e))
      go (some (x, j)) e ih =
          let split = walk-next n m.join x j e in
          at x j e (rw split at a) (rw split at q) (rw split at f) ih
            (text_eq.dec c.handle x.handle)
