-- ===== src/Open/Runs.antt =====
-- src/open.rs under the driver of src/client.rs.
use io_replica.Base.{◌≡◌, some, arith}
use io_replica.Placement.{CollectionId}
use io_replica.Coroutine.{Loaded, ArgError, Result, ok, err, all}
use io_replica.Client.{Seams, Client, ClientError, storage, run, service}
use io_replica.Client.Verbs.{open_collection}
use io_replica.Open.{new, resume}

module _ (S : Seams) where
  -- What an open hands back, by what the storage answers to the one load.
  abbrev pub opened :
      Client S → Result Loaded S.StorageError → Result (Loaded × Client S) (ClientError S ArgError)
  opened c (ok loaded) = ok (loaded, c)
  opened c (err e) = err (storage e)

  -- An open that the client drives ends within two rounds with exactly what the storage answers
  -- to one load of the whole collection, the client as it was, or with the error of the storage.
  pub run_open :
      (collection : CollectionId) (c : Client S)
      → open_collection S 2 collection c ≡ some (opened c (S.load c.storage collection all))
  unfolding open_collection run resume new service
  run_open collection c = ground arith
