-- ===== src/Lifecycle/Remote.antt =====
-- examples/mailbox_lifecycle.rs, `MemRemote`, with `hash`.
use Prim.Native.Nat.{bit_xor}
use io_replica.Base.{
  ℕ, ◌+◌, ◌*◌, ◌%◌, ◌^◌, Bool, true, false, ◌&&◌, ◌||◌, ◌==◌, Eq, length, Option, none, some, List,
  [], ◌∷◌, ◌++◌, Text, bytes, map, if◌then◌else◌, unwrap_or, and_then,
}
use native.Mathlib.Decide.{ℕ_discrete}
use io_replica.Base.Map.{Map, get, insert}
use io_replica.Flags
use io_replica.Flags.{Flags}
use io_replica.Placement.{Handle, LinkId, CollectionId, Hash, Checkpoint}
use io_replica.Remote.{
  RemoteItem, RemoteSnapshot, FetchedItem, FetchedBody, inline, PushResult, accepted, Tier,
}
use io_replica.Change.{Change, set_flags, add, remove, update, hex}
use io_replica.Coroutine.{Result, ok, err}

instance nat_eq : Eq ℕ
nat_eq = record { dec = ℕ_discrete }

infixl 5 ◌>>=◌
abbrev ◌>>=◌ {ℓ κ} : {A : Type ℓ} {B : Type κ} → Option A → (A → Option B) → Option B
o >>= f = and_then o f

pub record ServerItem : Type 0 where
  pub link : LinkId
  pub flags : Flags
  pub body : List ℕ

pub record MemRemote : Type 0 where
  pub collections : Map (Map ServerItem)
  pub body_fetches : ℕ

-- `MemRemote::default`.
abbrev pub empty_remote : MemRemote
empty_remote = record { collections = []; body_fetches = 0 }

-- Where the server panics: an `unwrap` or an index of what is not there, an `unreachable!`. It has no
-- other error.
pub data Panic : Type 0 where
  panic : Panic

-- `MemRemote::seed`.
unfoldable pub seed : CollectionId → Handle → LinkId → Text → List ℕ → MemRemote → MemRemote
unfolding get insert
seed collection handle link subject body r =
    let item : ServerItem = record {
      link = link;
      flags = Flags.default;
      body = bytes "Subject: " ++ subject ++ 13 ∷ 10 ∷ 13 ∷ 10 ∷ body;
    } in
    let members = unwrap_or (get collection r.collections) [] in
    record r { collections = insert collection (insert handle item members) r.collections }

abbrev pub listed : Handle × ServerItem → RemoteItem
listed (handle, item) = record { handle = handle; flags = item.flags; revision = none }

-- `ReplicaRemote::enumerate`.
unfoldable pub enumerate :
    MemRemote → CollectionId → Option Checkpoint → Result (RemoteSnapshot × MemRemote) Panic
unfolding get
enumerate r collection cursor = ok (
  record {
    items = map listed (unwrap_or (get collection r.collections) []);
    vanished = [];
    complete = true;
    checkpoint = bytes "cp";
  },
  r,
)

hash_onto : ℕ → List ℕ → ℕ
hash_onto acc [] = acc
hash_onto acc (byte ∷ body) = hash_onto ((bit_xor acc byte * 1099511628211) % 2 ^ 64) body

unfoldable pub hash : List ℕ → Hash
unfolding hash_onto
hash body = hex 16 (hash_onto 1469598103934665603 body)

-- A line's end: no byte of the line is left, but for the carriage return of a line that no newline
-- follows.
ends_line : List ℕ → Bool
ends_line [] = false
ends_line (byte ∷ _) = byte == 10

line_onto : List ℕ → List ℕ
unfolding ends_line
line_onto [] = []
line_onto (byte ∷ body) =
    let rest = line_onto body in
    if byte == 10 || (byte == 13 && ends_line body) then [] else byte ∷ rest

-- `lines().next()` of a body, which is UTF-8 as `seed` formats it.
first_line : List ℕ → Option Text
unfolding line_onto
first_line [] = none
first_line (byte ∷ body) = some (line_onto (byte ∷ body))

fetched_body : Tier → List ℕ → Option FetchedBody
unfolding hash
fetched_body Tier.meta body = none
fetched_body Tier.full body = some (inline (hash body) body)

fetched_item : Tier → Handle → ServerItem → Text → FetchedItem
unfolding fetched_body
fetched_item tier handle item line = record {
  handle = handle;
  link_id = item.link;
  meta = line;
  sort_key = [];
  body = fetched_body tier item.body;
  revision = none;
}

abbrev downloads : Tier → ℕ
downloads Tier.meta = 0
downloads Tier.full = 1

fetch_each : Map ServerItem → Tier → List Handle → Option (List FetchedItem)
unfolding get first_line fetched_item
fetch_each members tier [] = some []
fetch_each members tier (handle ∷ handles) = do
  item ← get handle members
  line ← first_line item.body
  rest ← fetch_each members tier handles
  some (fetched_item tier handle item line ∷ rest)

or_panic {ℓ} : {A : Type ℓ} → Option A → Result A Panic
or_panic none = err panic
or_panic (some a) = ok a

-- `ReplicaRemote::fetch`.
unfoldable pub fetch :
    MemRemote → CollectionId → List Handle → Tier → Result (List FetchedItem × MemRemote) Panic
unfolding fetch_each or_panic get
fetch r collection handles tier = or_panic (do
  members ← get collection r.collections
  items ← fetch_each members tier handles
  some (items, record r { body_fetches = r.body_fetches + length handles * downloads tier }))

push_one : CollectionId → Change → MemRemote → Option (PushResult × MemRemote)
unfolding get insert
push_one collection change r = elim change.kind [
  | set_flags handle flags ↦ do
    members ← get collection r.collections
    item ← get handle members
    some (
      record { handle = handle; outcome = accepted; assigned = none; revision = none },
      record r {
        collections =
            insert collection (insert handle (record item { flags = flags }) members) r.collections;
      },
    )
  | add _ _ _ _ _ ↦ none
  | remove _ _ _ _ ↦ none
  | update _ _ _ ↦ none
]

push_each : CollectionId → List Change → MemRemote → Option (List PushResult × MemRemote)
unfolding push_one
push_each collection [] r = some ([], r)
push_each collection (change ∷ changes) r = do
  (result, r1) ← push_one collection change r
  (results, r2) ← push_each collection changes r1
  some (result ∷ results, r2)

-- `ReplicaRemote::push`.
unfoldable pub push :
    MemRemote → CollectionId → List Change → Result (List PushResult × MemRemote) Panic
unfolding push_each or_panic
push r collection changes = or_panic (push_each collection changes r)
