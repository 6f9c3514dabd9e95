-- ===== src/Sync/Run/Stores.antt =====
-- src/storage.rs: a storage that keeps what is written to it.
use io_replica.Base.{◌≡◌, Option, some, List, [], ◌∷◌, map}
use io_replica.Base.Map.{get, from_entries}
use io_replica.Placement.{Handle, CollectionId, Placement}
use io_replica.Change.{WriteOp}
use io_replica.Coroutine.{Loaded, ok, all, handles}
use io_replica.Mutate.{find}
use io_replica.Client.{Seams}
use io_replica.Sync.Merge.Effects.{after}
use io_replica.Sync.Run.{by_handle}

-- A storage whose writes succeed and are what a load of the collection, or of one row of it,
-- finds later: under each handle, the row that the operations written left there. Every row
-- stands under its own collection and handle.
pub record RowStore (S : Seams) (collection : CollectionId) : Type 1 where
  pub IsValid : S.Storage → Type 0
  pub row : S.Storage → Handle → Option Placement
  pub write :
      (t : S.Storage) (ops : List WriteOp)
      → IsValid t
      → (u : S.Storage) × (S.write t ops ≡ ok u)
        × IsValid u
        × ((h : Handle) → row u h ≡ after collection h ops (row t h))
  pub load :
      (t : S.Storage)
      → IsValid t
      → (loaded : Loaded) × (S.load t collection all ≡ ok loaded)
        × ((h : Handle) → get h (from_entries (map by_handle loaded.placements)) ≡ row t h)
  pub load_one :
      (t : S.Storage) (h : Handle)
      → IsValid t
      → (loaded : Loaded) × (S.load t collection (handles (h ∷ [])) ≡ ok loaded)
        × (find h loaded.placements ≡ row t h)
  pub housed :
      (t : S.Storage) (h : Handle) (p : Placement)
      → IsValid t
      → row t h ≡ some p
      → (p.collection ≡ collection) × (p.handle ≡ h)
