-- ===== src/Change.antt =====
-- src/change.rs: what is pushed to the remote and what is written to the storage. The key of a
-- change is the FNV-1a digest of its fields, on sixty-four bits with the wrap-around written out.
pub mod Splits
use Prim.Native.Nat.{bit_xor}
use mathlib.Core.List.{foldl}
use io_replica.Base.{
  ℕ, zero, suc, ◌+◌, ◌*◌, ◌/◌, ◌%◌, ◌^◌, ◌-◌, ◌≡◌, refl, arith, Option, none, some, List, [], ◌∷◌,
  ◌++◌, Text, bytes, ltb, length, length-append, if◌then◌else◌,
}
use io_replica.Flags.{Flags, unknown, known}
use io_replica.Placement.{Handle, LinkId, CollectionId, Hash, Checkpoint, Object, Origin, Placement}

-- `add` takes the handle, link id, flags, origin and body; `remove` the handle, destination, link
-- id and precondition; `set_flags` the handle and flags; `update` the handle, body and
-- precondition.
pub data ChangeKind : Type 0 where
  add : Handle → Option LinkId → Flags → Option Origin → Option Hash → ChangeKind
  remove : Handle → Option CollectionId → Option LinkId → Option Text → ChangeKind
  set_flags : Handle → Flags → ChangeKind
  update : Handle → Hash → Option Text → ChangeKind

-- The member that a change acts on.
abbrev pub kind_handle : ChangeKind → Handle
kind_handle (add h _ _ _ _) = h
kind_handle (remove h _ _ _) = h
kind_handle (set_flags h _) = h
kind_handle (update h _ _) = h

-- The state of a `ReplicaChangeDigest`.
abbrev pub Digest : Type 0
Digest = ℕ

abbrev pub offset : Digest
offset = 0xcbf29ce484222325

abbrev prime : ℕ
prime = 0x100000001b3

unfoldable fold_byte : Digest → ℕ → Digest
fold_byte d byte = (bit_xor d byte * prime) % 2 ^ 64

unfoldable pub field : Digest → Text → Digest
unfolding fold_byte
field d text = foldl fold_byte d (text ++ 0 ∷ [])

optional : Digest → Option Text → Digest
unfolding field
optional d (some text) = field (field d (bytes "1")) text
optional d none = field d (bytes "0")

-- `to_le_bytes` of a `usize`, in the given number of bytes.
le_bytes : ℕ → ℕ → Text
le_bytes zero n = []
le_bytes (suc k) n = (n % 256) ∷ le_bytes k (n / 256)

fold_flags : Digest → Flags → Digest
unfolding field le_bytes
fold_flags d unknown = field d (bytes "unknown")
fold_flags d (known flags) =
    foldl field (field (field d (bytes "known")) (le_bytes 8 (length flags))) flags

fold_origin : Digest → Option Origin → Digest
unfolding field
fold_origin d (some origin) = field (field (field d (bytes "1")) origin.collection) origin.handle
fold_origin d none = field d (bytes "0")

unfoldable pub fold_kind : Digest → ChangeKind → Digest
unfolding field optional fold_flags fold_origin
fold_kind d (add _ link flags origin object) =
    optional (fold_origin (fold_flags (optional (field d (bytes "add")) link) flags) origin) object
fold_kind d (remove _ to _ _) = optional (field d (bytes "remove")) to
fold_kind d (set_flags _ flags) = fold_flags (field d (bytes "set-flags")) flags
fold_kind d (update _ object _) = field (field d (bytes "update")) object

hex_digit : ℕ → ℕ
hex_digit n = if ltb n 10 then b'0' + n else b'a' + n - 10

-- The last digits of a number in lowercase hexadecimal, as many as are asked for.
unfoldable pub hex : ℕ → ℕ → Text
unfolding hex_digit
hex zero n = []
hex (suc k) n = hex k (n / 16) ++ hex_digit (n % 16) ∷ []

-- `ReplicaChangeKind::key`.
unfoldable pub key : CollectionId → ChangeKind → Text
unfolding field fold_kind hex
key collection kind = hex 16 (fold_kind (field (field offset collection) (kind_handle kind)) kind)

pub record Change : Type 0 where
  pub kind : ChangeKind
  pub key : Text

-- `ReplicaChange::new`.
unfoldable pub new : CollectionId → ChangeKind → Change
new collection kind = record { kind = kind; key = key collection kind }

-- `ReplicaChange::handle`.
abbrev pub change_handle : Change → Handle
change_handle c = kind_handle c.kind

pub data DropReason : Type 0 where
  deleted superseded : DropReason

pub data WriteOp : Type 0 where
  upsert_placement : Placement → WriteOp
  drop_placement : CollectionId → Handle → DropReason → WriteOp
  store_object : Object → Option (List ℕ) → WriteOp
  set_checkpoint : CollectionId → Checkpoint → WriteOp
