-- ===== src/Mutate/Runs.antt =====
-- src/mutate.rs under the driver of src/client.rs.
use io_replica.Base.{
  ℕ, suc, ◌≡◌, refl, Bool, true, false, Option, none, some, List, any, inl, inr, Bool-cases,
}
use io_replica.Placement.{CollectionId, Placement, Handle}
use io_replica.Change.{WriteOp}
use io_replica.Coroutine.{Loaded, Result, ok, err, Arg, Yield, wants_load, wants_write, yielded}
use io_replica.Client.{
  Seams, Client, ClientError, storage, remote, coroutine, panic, run, react, respond, service,
}
use io_replica.Client.Verbs.{mutate}
use io_replica.Client.Laws.{answers, IsReply, service-IsReply}
use io_replica.Mutate.{
  Mutation, set_flags, remove, edit, copy, move, add, Mutate, State, MutateError, unknown_handle,
  link_exists, arg, new, resume, on_load, stage, stage_found, create_writes, writes, find, collides,
  scope, Outcome,
}

module _ (S : Seams) where
  -- A run that is done, that the mutation's own guards refused, or that a seam has failed.
  abbrev pub is_sound : Result {0, 0} (Unit × Client S) (ClientError S MutateError) → Bool
  is_sound (ok _) = true
  is_sound (err (storage _)) = true
  is_sound (err (remote _)) = true
  is_sound (err (coroutine (unknown_handle _))) = true
  is_sound (err (coroutine (link_exists _))) = true
  is_sound (err (coroutine (arg _))) = false
  is_sound (err panic) = false

  abbrev Ends : Option (Result {0, 0} (Unit × Client S) (ClientError S MutateError)) → Type 0
  Ends o =
      (r : Result {0, 0} (Unit × Client S) (ClientError S MutateError)) × (o ≡ some r)
      × (is_sound r ≡ true)

  abbrev go_on :
      ℕ
      → Client S
      → Mutate × Outcome
      → Option (Result {0, 0} (Unit × Client S) (ClientError S MutateError))
  go_on n = react S MutateError resume (λ a. run S MutateError resume n (some a))

  Ends-at_reply :
      (n : ℕ) (m : Mutate) (y : Yield) (x : Result (Arg × Client S) (ClientError S MutateError))
      → IsReply S MutateError y x
      → ((a : Arg) (d : Client S) → answers y a ≡ true → Ends (go_on n d (resume (some a) m)))
      → Ends (respond S MutateError resume (λ b. run S MutateError resume (suc n) (some b)) m x)
  unfolding run
  Ends-at_reply n m y (ok (a, d)) reply next = next a d reply
  Ends-at_reply n m y (err (storage e)) reply next = (err (storage e), refl, refl)
  Ends-at_reply n m y (err (remote e)) reply next = (err (remote e), refl, refl)
  Ends-at_reply n m y (err (coroutine e)) reply next = cc
  Ends-at_reply n m y (err panic) reply next = cc

  Ends-at_yield :
      (n : ℕ) (m : Mutate) (y : Yield) (c : Client S)
      → ((a : Arg) (d : Client S) → answers y a ≡ true → Ends (go_on n d (resume (some a) m)))
      → Ends (go_on (suc n) c (m, yielded y))
  Ends-at_yield n m y c next =
      Ends-at_reply n m y (service S MutateError y c) (service-IsReply S MutateError y c) next

  -- Once the writes are handed over, one round remains.
  stage-Ends : (ops : List WriteOp) (m : Mutate) (c : Client S) → Ends (go_on 1 c (stage ops m))
  unfolding stage resume
  stage-Ends ops m c =
      Ends-at_yield 0 (record m { state = State.pending_write }) (wants_write ops) c replied
    where
      replied :
          (a : Arg) (d : Client S)
          → answers (wants_write ops) a ≡ true
          → Ends (go_on 0 d (resume (some a) (record m { state = State.pending_write })))
      replied Arg.write d h = (ok (tt, d), refl, refl)
      replied _ d h = cc

  stage_found-Ends :
      (h : Handle) (found : Option Placement) (m : Mutate) (c : Client S)
      → Ends (go_on 1 c (stage_found h found m))
  unfolding stage_found stage
  stage_found-Ends h none m c = (err (coroutine (unknown_handle h)), refl, refl)
  stage_found-Ends h (some p) m c = stage-Ends (writes m.collection m.mutation p) m c

  on_load-Ends :
      (mutation : Mutation) (loaded : Loaded) (m : Mutate) (c : Client S)
      → Ends (go_on 1 c (on_load mutation loaded m))
  unfolding on_load stage stage_found create_writes
  on_load-Ends (add h link flags object body meta key) loaded m c =
      elim (Bool-cases (any (collides link) loaded.placements)) [
        | inl e ↦ rw e (err (coroutine (link_exists link)), refl, refl)
        | inr e ↦ rw e (stage-Ends (create_writes m.collection m.mutation) m c)
      ]
  on_load-Ends (set_flags h _) loaded m c = stage_found-Ends h (find h loaded.placements) m c
  on_load-Ends (remove h) loaded m c = stage_found-Ends h (find h loaded.placements) m c
  on_load-Ends (edit h _ _ _ _) loaded m c = stage_found-Ends h (find h loaded.placements) m c
  on_load-Ends (copy h _ _) loaded m c = stage_found-Ends h (find h loaded.placements) m c
  on_load-Ends (move h _ _) loaded m c = stage_found-Ends h (find h loaded.placements) m c

  -- A mutation that the client drives, over any storage and any remote, ends within three
  -- rounds: done, refused by its own guards, or with the error of a seam.
  pub mutate_ends :
      (collection : CollectionId) (mutation : Mutation) (c : Client S)
      → (r : Result {0, 0} (Unit × Client S) (ClientError S MutateError)) × (mutate S 3 collection
            mutation c
          ≡ some r)
        × (is_sound r ≡ true)
  unfolding mutate run resume new
  mutate_ends collection mutation c =
      Ends-at_yield 1 loading (wants_load collection (scope mutation)) c replied
    where
      loading : Mutate
      loading = record (new collection mutation) { state = State.pending_load }

      replied :
          (a : Arg) (d : Client S)
          → answers (wants_load collection (scope mutation)) a ≡ true
          → Ends (go_on 1 d (resume (some a) loading))
      replied (Arg.load loaded) d h = on_load-Ends mutation loaded loading d
      replied _ d h = cc
