-- ===== src/Upgrade/Ends.antt =====
-- src/upgrade.rs under the driver of src/client.rs.
use io_replica.Base.{ℕ, suc, ◌≡◌, refl, true, some, List, [], ◌∷◌}
use io_replica.Placement.{CollectionId, Handle, LinkId}
use io_replica.Remote.{Tier}
use io_replica.Change.{WriteOp}
use io_replica.Coroutine.{
  Result, ok, Arg, ArgError, LoadScope, wants_load, wants_fetch, wants_lookup_object, wants_write,
  yielded,
}
use io_replica.Client.{Seams, Client, ClientError, run}
use io_replica.Client.Verbs.{upgrade}
use io_replica.Client.Laws.{answers}
use io_replica.Client.Ends.{is_sound, Ends, go_on, Ends-at_yield}
use io_replica.Upgrade.Machine.{Upgrade, UpgradeReport, State, new, pending_handles}
use io_replica.Upgrade.Fetched.{Outcome, claims_onto, sort_fetched, apply_items, write_fetched}
use io_replica.Upgrade.Run.{
  by_handle, lookup_links, want_lookup, pull_pending, on_load, link_all, fetch_rest, on_lookup,
  fresh_links, check_links, on_fetch, fold_holders, on_holders, resume,
}

module _ (S : Seams) where
  abbrev EndsIn : ℕ → Client S → Upgrade × Outcome → Type 0
  EndsIn n c r = Ends S resume (go_on S resume n c r)

  -- Once the writes are handed over, one round remains.
  writing-Ends :
      (n : ℕ) (ops : List WriteOp) (u : Upgrade) (c : Client S)
      → EndsIn (suc n) c (record u { state = State.pending_write }, yielded (wants_write ops))
  unfolding resume
  writing-Ends n ops u c =
      Ends-at_yield S resume n (record u { state = State.pending_write }) (wants_write ops) c
        replied
    where
      replied :
          (a : Arg) (d : Client S)
          → answers (wants_write ops) a ≡ true
          → EndsIn n d (resume (some a) (record u { state = State.pending_write }))
      replied Arg.write d h = (ok (u.report, d), refl, refl)
      replied _ d h = cc

  write_fetched-Ends : (n : ℕ) (u : Upgrade) (c : Client S) → EndsIn (suc n) c (write_fetched u)
  unfolding write_fetched
  write_fetched-Ends n u c =
      let applied =
        apply_items (sort_fetched u.fetched) (claims_onto [] u.placements)
          (record u { fetched = [] }) in
      writing-Ends n applied.ops (record applied { ops = [] }) c

  check_links-Ends :
      (n : ℕ) (fresh : List LinkId) (u : Upgrade) (c : Client S)
      → EndsIn (suc (suc n)) c (check_links fresh u)
  unfolding check_links resume on_holders
  check_links-Ends n [] u c = write_fetched-Ends (suc n) u c
  check_links-Ends n (link ∷ fresh) u c =
      Ends-at_yield S resume (suc n) (record u { state = State.pending_link_check })
        (wants_load u.collection (LoadScope.links (link ∷ fresh))) c replied
    where
      replied :
          (a : Arg) (d : Client S)
          → answers (wants_load u.collection (LoadScope.links (link ∷ fresh))) a ≡ true
          → EndsIn (suc n) d (resume (some a) (record u { state = State.pending_link_check }))
      replied (Arg.load loaded) d h =
          write_fetched-Ends n
            (record u {
              state = State.pending_link_check;
              placements = fold_holders loaded.placements u.placements;
            })
            d
      replied _ d h = cc

  fetching-Ends :
      (n : ℕ) (handles : List Handle) (tier : Tier) (u : Upgrade) (c : Client S)
      → EndsIn (suc (suc (suc n))) c (
        record u { state = State.pending_fetch },
        yielded (wants_fetch u.collection handles tier),
      )
  unfolding resume on_fetch
  fetching-Ends n handles tier u c =
      Ends-at_yield S resume (suc (suc n)) (record u { state = State.pending_fetch })
        (wants_fetch u.collection handles tier) c replied
    where
      replied :
          (a : Arg) (d : Client S)
          → answers (wants_fetch u.collection handles tier) a ≡ true
          → EndsIn (suc (suc n)) d (resume (some a) (record u { state = State.pending_fetch }))
      replied (Arg.fetch items) d h =
          check_links-Ends n (fresh_links u.placements items)
            (record u { state = State.pending_fetch; fetched = items }) d
      replied _ d h = cc

  fetch_rest-Ends : (r : List Handle × Upgrade) (c : Client S) → EndsIn 3 c (fetch_rest r)
  unfolding fetch_rest
  fetch_rest-Ends ([], u) c = writing-Ends 2 u.ops (record u { ops = [] }) c
  fetch_rest-Ends (h ∷ to_fetch, u) c = fetching-Ends 0 (h ∷ to_fetch) Tier.full u c

  want_lookup-Ends :
      (pending : List Handle) (fresh : List LinkId) (u : Upgrade) (c : Client S)
      → EndsIn 4 c (want_lookup pending fresh u)
  unfolding want_lookup resume on_lookup
  want_lookup-Ends pending [] u c = fetching-Ends 1 pending u.tier u c
  want_lookup-Ends pending (link ∷ fresh) u c =
      Ends-at_yield S resume 3 looking (wants_lookup_object (link ∷ fresh)) c replied
    where
      looking : Upgrade
      looking = record u { state = State.pending_lookup }

      replied :
          (a : Arg) (d : Client S)
          → answers (wants_lookup_object (link ∷ fresh)) a ≡ true
          → EndsIn 3 d (resume (some a) looking)
      replied (Arg.lookup_object known) d h =
          fetch_rest-Ends (link_all known u.placements (pending_handles looking) ([], looking)) d
      replied _ d h = cc

  pull_pending-Ends :
      (pending : List Handle) (tier : Tier) (u : Upgrade) (c : Client S)
      → EndsIn 4 c (pull_pending pending tier u)
  unfolding pull_pending
  pull_pending-Ends [] tier u c = (ok (u.report, c), refl, refl)
  pull_pending-Ends (h ∷ pending) Tier.meta u c = fetching-Ends 1 (h ∷ pending) u.tier u c
  pull_pending-Ends (h ∷ pending) Tier.full u c =
      want_lookup-Ends (h ∷ pending) (lookup_links (h ∷ pending) u.placements) u c

  -- An upgrade that the client drives, over any storage and any remote, ends within six rounds:
  -- with a report or with the error of a seam.
  pub upgrade_ends :
      (collection : CollectionId) (targets : List Handle) (tier : Tier) (c : Client S)
      → (r : Result (UpgradeReport × Client S) (ClientError S ArgError)) × (upgrade S 6 collection
            targets tier c
          ≡ some r)
        × (is_sound S r ≡ true)
  unfolding upgrade run resume new on_load
  upgrade_ends collection targets tier c =
      Ends-at_yield S resume 4 loading (wants_load collection (LoadScope.handles targets)) c replied
    where
      loading : Upgrade
      loading = record (new collection targets tier) { state = State.pending_load }

      replied :
          (a : Arg) (d : Client S)
          → answers (wants_load collection (LoadScope.handles targets)) a ≡ true
          → EndsIn 4 d (resume (some a) loading)
      replied (Arg.load loaded) d h =
          let filled = record loading { placements = by_handle loaded.placements } in
          pull_pending-Ends (pending_handles filled) tier filled d
      replied _ d h = cc
