-- ===== src/Client/Verbs.antt =====
-- src/client.rs, the verbs: each runs a coroutine of its own, for a number of rounds.
use io_replica.Base.{ℕ, Option, none, List}
use io_replica.Placement.{Handle, CollectionId}
use io_replica.Remote.{Tier}
use io_replica.Coroutine.{Loaded, ArgError, Result}
use io_replica.Client.{Seams, Client, ClientError, run}
use io_replica.Sync.Options.{SyncOptions, SyncReport}
use io_replica.Sync.Engine.{new as new_sync}
use io_replica.Sync.Run.{resume as resume_sync}
use io_replica.Mutate.{Mutation, MutateError, new as new_mutate, resume as resume_mutate}
use io_replica.Open.{new as new_open, resume as resume_open}
use io_replica.Upgrade.Machine.{UpgradeReport, new as new_upgrade}
use io_replica.Upgrade.Run.{resume as resume_upgrade}
use io_replica.Rekey.Rebuild.{RekeyReport}
use io_replica.Rekey.Run.{new as new_rekey, resume as resume_rekey}

module _ (S : Seams) where
  -- What a verb that is given rounds enough hands back, with the client as it is then.
  abbrev pub Ran : Type 0 → Type 0 → Type 0
  Ran T E = Option (Result (T × Client S) (ClientError S E))

  -- `ReplicaClient::open`.
  unfoldable pub open_collection : ℕ → CollectionId → Client S → Ran Loaded ArgError
  open_collection rounds collection c =
      run S ArgError resume_open rounds none (new_open collection) c

  -- `ReplicaClient::upgrade`.
  unfoldable pub upgrade :
      ℕ → CollectionId → List Handle → Tier → Client S → Ran UpgradeReport ArgError
  upgrade rounds collection handles tier c =
      run S ArgError resume_upgrade rounds none (new_upgrade collection handles tier) c

  -- `ReplicaClient::mutate`.
  unfoldable pub mutate : ℕ → CollectionId → Mutation → Client S → Ran Unit MutateError
  mutate rounds collection mutation c =
      run S MutateError resume_mutate rounds none (new_mutate collection mutation) c

  -- `ReplicaClient::sync`.
  unfoldable pub sync : ℕ → CollectionId → SyncOptions → Client S → Ran SyncReport ArgError
  sync rounds collection opts c =
      run S ArgError resume_sync rounds none (new_sync collection opts) c

  -- `ReplicaClient::rekey`.
  unfoldable pub rekey : ℕ → CollectionId → Client S → Ran RekeyReport ArgError
  rekey rounds collection c = run S ArgError resume_rekey rounds none (new_rekey collection) c
