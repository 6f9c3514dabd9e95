-- ===== src/Sync/Join/Deltas.antt =====
-- src/sync.rs, `next_candidate` and `merge`: members that the remote says nothing of.
use io_replica.Base.{
  ◌≡◌, ◌∙◌, refl, Bool, true, false, ◌&&◌, ◌||◌, none, some, arith, text_eq, option_eq,
  if◌then◌else◌,
}
use io_replica.Base.Set.{contains}
use io_replica.Placement.{Placement, SyncBase, status_eq, dirty, staged_edit, Hash}
use io_replica.Change.{add, update}
use io_replica.Sync.Engine.{Sync, Candidate, Join, Merge}
use io_replica.Sync.Join.{next, narrow, kept, next_candidate}
use io_replica.Sync.Join.Loop.{next_candidate-loop}
use io_replica.Sync.Merge.{merge}

-- Let the next row of the join be dirty, with a base, a staged body and no conflict revision,
-- and let the remote not list its member. Where the options permit adds and content pushes, the
-- search returns a candidate for it that merges to an add of the staged body if the listing is
-- complete or names the member as vanished, and to an update conditioned on the base revision if
-- not: what a delta says nothing of is not taken for deleted.
pub merge-next_candidate_edited :
    (m : Merge) (c : Candidate) (j : Join) (s : Sync) (p : Placement) (base : SyncBase)
    (object : Hash)
    → next m.join ≡ some (c, j)
    → c.local ≡ some p
    → c.remote ≡ none
    → p.status ≡ dirty
    → p.base ≡ some base
    → p.conflict_revision ≡ none
    → staged_edit p ≡ some object
    → s.opts.push && s.opts.rights.add ≡ true
    → s.opts.push && s.opts.rights.content ≡ true
    → (d : Candidate) × (next_candidate m ≡ (record m { join = j }, some d))
      × ((merge d s).1
          ≡ some (
              if m.complete || contains m.vanished c.handle
              then add c.handle p.link_id p.flags none (some object)
              else update p.handle object base.revision))
unfolding merge staged_edit narrow
merge-next_candidate_edited m c j s p base object n l r st b k e may_add may_push =
    go (m.complete || contains m.vanished c.handle) refl
  where
    go :
        (gone : Bool)
        → m.complete || contains m.vanished c.handle ≡ gone
        → (d : Candidate) × (next_candidate m ≡ (record m { join = j }, some d))
          × ((merge d s).1
              ≡ some (
                  if gone
                  then add c.handle p.link_id p.flags none (some object)
                  else update p.handle object base.revision))
    go true g = (
      record { handle = c.handle; local = c.local; remote = none },
      next_candidate-loop m
          ∙ (let here : kept m c ≡ some (record c { remote = none }) = ground arith in
              ground (arith, n, here)),
      ground arith,
    )
    go false g = (
      record {
        handle = c.handle;
        local = c.local;
        remote = some (record { handle = c.handle; flags = base.flags; revision = base.revision });
      },
      next_candidate-loop m
          ∙ (let here : kept m c
                  ≡ some (record c {
                    remote = some (record {
                      handle = c.handle;
                      flags = base.flags;
                      revision = base.revision;
                    });
                  }) =
                ground arith in
              ground (arith, n, here)),
      ground arith,
    )
