-- ===== src/Remote.antt =====
-- src/remote.rs: what the remote seam hands back.
use io_replica.Base.{ℕ, Bool, Option, List, Text}
use io_replica.Flags.{Flags}
use io_replica.Placement.{Handle, LinkId, Hash, Meta, SortKey, Checkpoint}

pub data Tier : Type 0 where
  meta full : Tier

pub record RemoteItem : Type 0 where
  pub handle : Handle
  pub flags : Flags
  pub revision : Option Text

pub record RemoteSnapshot : Type 0 where
  pub items : List RemoteItem
  pub vanished : List Handle
  pub complete : Bool
  pub checkpoint : Checkpoint

pub data FetchedBody : Type 0 where
  inline : Hash → List ℕ → FetchedBody
  persisted : Hash → ℕ → FetchedBody

pub record FetchedItem : Type 0 where
  pub handle : Handle
  pub link_id : LinkId
  pub meta : Meta
  pub sort_key : SortKey
  pub body : Option FetchedBody
  pub revision : Option Text

pub data PushOutcome : Type 0 where
  accepted rejected : PushOutcome

pub record PushResult : Type 0 where
  pub handle : Handle
  pub outcome : PushOutcome
  pub assigned : Option Handle
  pub revision : Option Text
