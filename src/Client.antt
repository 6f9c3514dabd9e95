-- ===== src/Client.antt =====
-- src/client.rs: the blocking driver, over a storage and a remote that the consumer implements.
pub mod Laws
pub mod Ends
pub mod Verbs
use io_replica.Base.{ℕ, zero, suc, ◌≡◌, Option, none, some, List}
use io_replica.Base.Map.{Map}
use io_replica.Placement.{Handle, LinkId, CollectionId, Hash, Checkpoint}
use io_replica.Remote.{RemoteSnapshot, FetchedItem, PushResult, Tier}
use io_replica.Change.{Change, WriteOp}
use io_replica.Coroutine.{
  LoadScope, Loaded, Yield, wants_enumerate, wants_fetch, wants_push, wants_load,
  wants_lookup_object, wants_write, Arg, Result, ok, err, CoroutineState, yielded, complete,
  panicked,
}

-- What a consumer implements: `ReplicaStorage` and `ReplicaRemote`, over states of its own. A
-- method that takes `&mut self` hands its new state back.
pub record Seams : Type 1 where
  pub Storage : Type 0
  pub Remote : Type 0
  pub StorageError : Type 0
  pub RemoteError : Type 0
  pub load : Storage → CollectionId → LoadScope → Result Loaded StorageError
  pub lookup_objects : Storage → List LinkId → Result (Map Hash) StorageError
  pub write : Storage → List WriteOp → Result Storage StorageError
  pub enumerate :
      Remote → CollectionId → Option Checkpoint → Result (RemoteSnapshot × Remote) RemoteError
  pub fetch :
      Remote → CollectionId → List Handle → Tier → Result (List FetchedItem × Remote) RemoteError
  pub push : Remote → CollectionId → List Change → Result (List PushResult × Remote) RemoteError

-- `panic` is a run that an `expect` in the coroutine has ended.
pub data ClientError {ℓ} (S : Seams) (E : Type ℓ) : Type ℓ where
  storage : S.StorageError → ClientError S E
  remote : S.RemoteError → ClientError S E
  coroutine : E → ClientError S E
  panic : ClientError S E

-- `ReplicaClient`.
pub record Client (S : Seams) : Type 0 where
  pub storage : S.Storage
  pub remote : S.Remote

module _ (S : Seams) (E : Type 0) where
  from_remote :
      Client S → Result (Arg × S.Remote) S.RemoteError → Result (Arg × Client S) (ClientError S E)
  from_remote c (ok (a, r)) = ok (a, record c { remote = r })
  from_remote c (err e) = err (remote e)

  from_storage :
      Client S → Result (Arg × S.Storage) S.StorageError → Result (Arg × Client S) (ClientError S E)
  from_storage c (ok (a, s)) = ok (a, record c { storage = s })
  from_storage c (err e) = err (storage e)

  map_ok : {A B X : Type 0} → (A → B) → Result A X → Result B X
  map_ok f (ok a) = ok (f a)
  map_ok f (err e) = err e

  -- One arm of the `match` for each yield.
  unfoldable pub service : Yield → Client S → Result (Arg × Client S) (ClientError S E)
  unfolding from_remote from_storage map_ok
  service (wants_enumerate collection cursor) c =
      from_remote c
        (map_ok (λ (x, r). (Arg.enumerate x, r)) (S.enumerate c.remote collection cursor))
  service (wants_fetch collection handles tier) c =
      from_remote c (map_ok (λ (x, r). (Arg.fetch x, r)) (S.fetch c.remote collection handles tier))
  service (wants_push collection changes) c =
      from_remote c (map_ok (λ (x, r). (Arg.push x, r)) (S.push c.remote collection changes))
  service (wants_load collection scope) c =
      from_storage c (map_ok (λ x. (Arg.load x, c.storage)) (S.load c.storage collection scope))
  service (wants_lookup_object links) c =
      from_storage c
        (map_ok (λ x. (Arg.lookup_object x, c.storage)) (S.lookup_objects c.storage links))
  service (wants_write ops) c =
      from_storage c (map_ok (λ s. (Arg.write, s)) (S.write c.storage ops))

  module _ {C T : Type 0} (resume : Option Arg → C → C × CoroutineState Yield (Result T E)) where
    abbrev pub Ended : Type 0
    Ended = Option (Result (T × Client S) (ClientError S E))

    -- What the loop does with a step of the coroutine. The rounds to come are an argument.
    abbrev pub respond :
        (Arg → C → Client S → Ended) → C → Result (Arg × Client S) (ClientError S E) → Ended
    respond rest k (ok (a, c)) = rest a k c
    respond rest k (err e) = some (err e)

    abbrev pub react :
        (Arg → C → Client S → Ended) → Client S → C × CoroutineState Yield (Result T E) → Ended
    react rest c (k, complete (ok out)) = some (ok (out, c))
    react rest c (k, complete (err e)) = some (err (coroutine e))
    react rest c (k, yielded y) = respond rest k (service y c)
    react rest c (k, panicked) = some (err panic)

    -- `ReplicaClient::run`, for a number of rounds; `none` means that they did not suffice.
    unfoldable pub run : ℕ → Option Arg → C → Client S → Ended
    run zero a k c = none
    run (suc n) a k c = react (λ b. run n (some b)) c (resume a k)
