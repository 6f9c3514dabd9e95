-- ===== src/Rekey/Ends.antt =====
-- src/rekey.rs under the driver of src/client.rs.
use io_replica.Base.{ℕ, suc, ◌≡◌, refl, true, none, some, List, map, any, is_some, [], of_branches}
use io_replica.Base.Map.{Map, from_entries}
use io_replica.Placement.{CollectionId, Checkpoint}
use io_replica.Remote.{RemoteSnapshot, Tier}
use io_replica.Change.{WriteOp}
use io_replica.Coroutine.{
  Result, ok, Arg, ArgError, all, wants_load, wants_enumerate, wants_fetch, wants_write, yielded,
}
use io_replica.Client.{Seams, Client, ClientError, run}
use io_replica.Client.Verbs.{rekey}
use io_replica.Client.Laws.{answers}
use io_replica.Client.Ends.{is_sound, Ends, go_on, Ends-at_yield}
use io_replica.Rekey.Rows.{Resolved}
use io_replica.Rekey.Rebuild.{RekeyReport, rebuild}
use io_replica.Rekey.Run.{
  Rekey, State, new, resume, hand_over, resolved_entry, write_batch, on_enumerate, on_fetch,
}

module _ (S : Seams) where
  write_batch-Ends :
      (n : ℕ) (resolved : Map Resolved) (checkpoint : Checkpoint) (k : Rekey) (c : Client S)
      → Ends S resume (go_on S resume (suc n) c (write_batch resolved (some checkpoint) k))
  unfolding write_batch resume
  write_batch-Ends n resolved checkpoint k c =
      let (report, writes) = rebuild k.collection k.items resolved k.old checkpoint k.report in
      Ends-at_yield S resume n (hand_over (report, writes) k).0 (wants_write writes) c
        (replied report writes)
    where
      replied :
          (report : RekeyReport) (writes : List WriteOp) (a : Arg) (d : Client S)
          → answers (wants_write writes) a ≡ true
          → Ends S resume (go_on S resume n d (resume (some a) (hand_over (report, writes) k).0))
      replied report writes Arg.write d h = (ok (report, d), refl, refl)
      replied report writes _ d h = cc

  on_enumerate-Ends :
      (snapshot : RemoteSnapshot) (k : Rekey) (c : Client S)
      → Ends S resume (go_on S resume 2 c (on_enumerate snapshot k))
  unfolding on_enumerate resume on_fetch
  on_enumerate-Ends snapshot k c =
      of_branches (λ r. Ends S resume (go_on S resume 2 c r)) (any (λ p. is_some p.link_id) k.old)
        (
          resolving,
          yielded (wants_fetch k.collection (map (λ i. i.handle) snapshot.items) Tier.meta),
        )
        (write_batch [] (some snapshot.checkpoint) listed)
        (Ends-at_yield S resume 1 resolving
          (wants_fetch k.collection (map (λ i. i.handle) snapshot.items) Tier.meta) c replied)
        (write_batch-Ends 1 [] snapshot.checkpoint listed c)
    where
      listed : Rekey
      listed = record k { items = snapshot.items; checkpoint = some snapshot.checkpoint }

      resolving : Rekey
      resolving = record listed { state = State.pending_fetch }

      replied :
          (a : Arg) (d : Client S)
          → answers (wants_fetch k.collection (map (λ i. i.handle) snapshot.items) Tier.meta) a
            ≡ true
          → Ends S resume (go_on S resume 1 d (resume (some a) resolving))
      replied (Arg.fetch fetched) d h =
          write_batch-Ends 0 (from_entries (map resolved_entry fetched)) snapshot.checkpoint
            resolving d
      replied _ d h = cc

  -- A rekey that the client drives, over any storage and any remote, ends within five rounds:
  -- with a report or with the error of a seam, never by a missing checkpoint.
  pub rekey_ends :
      (collection : CollectionId) (c : Client S)
      → (r : Result (RekeyReport × Client S) (ClientError S ArgError)) × (rekey S 5 collection c
          ≡ some r)
        × (is_sound S r ≡ true)
  unfolding rekey run resume new
  rekey_ends collection c = Ends-at_yield S resume 3 loading (wants_load collection all) c loaded
    where
      loading : Rekey
      loading = record (new collection) { state = State.pending_load }

      enumerated :
          (k : Rekey) (a : Arg) (d : Client S)
          → answers (wants_enumerate collection none) a ≡ true
          → Ends S resume
              (go_on S resume 2 d (resume (some a) (record k { state = State.pending_enumerate })))
      enumerated k (Arg.enumerate snapshot) d h =
          on_enumerate-Ends snapshot (record k { state = State.pending_enumerate }) d
      enumerated k _ d h = cc

      loaded :
          (a : Arg) (d : Client S)
          → answers (wants_load collection all) a ≡ true
          → Ends S resume (go_on S resume 3 d (resume (some a) loading))
      loaded (Arg.load rows) d h =
          let k = record loading { old = rows.placements } in
          Ends-at_yield S resume 2 (record k { state = State.pending_enumerate })
            (wants_enumerate collection none) d (enumerated k)
      loaded _ d h = cc
