-- ===== src/Lifecycle/Story.antt =====
-- examples/mailbox_lifecycle.rs, `main`.
use io_replica.Base.{ℕ, Option, none, some, [], ◌∷◌, Text, bytes, length, and_then}
use io_replica.Base.Map.{get, insert}
use io_replica.Base.Set.{Set}
use io_replica.Flags.{Flags, markers, from_iter}
use io_replica.Remote.{Tier}
use io_replica.Coroutine.{ok, err}
use io_replica.Client.{Seams, Client}
use io_replica.Client.Verbs.{Ran, open_collection, upgrade, mutate, sync}
use io_replica.Mutate.{set_flags}
use io_replica.Sync.Options as Options
use io_replica.Lifecycle.Table.{get_at}
use io_replica.Lifecycle.Storage as Storage
use io_replica.Lifecycle.Storage.{MemStorage, empty_storage}
use io_replica.Lifecycle.Remote as Remote
use io_replica.Lifecycle.Remote.{MemRemote, ServerItem, Panic, empty_remote, seed}

abbrev pub mem : Seams
mem = record {
  Storage = MemStorage;
  Remote = MemRemote;
  StorageError = ⊥;
  RemoteError = Panic;
  load = Storage.load;
  lookup_objects = Storage.lookup_objects;
  write = Storage.write;
  enumerate = Remote.enumerate;
  fetch = Remote.fetch;
  push = Remote.push;
}

abbrev pub MemClient : Type 0
MemClient = Client mem

abbrev pub inbox : Text
inbox = bytes "inbox"

abbrev pub archive : Text
archive = bytes "archive"

-- The server before the first sync.
unfoldable pub server : MemRemote
unfolding seed get insert
server =
    let one =
      seed inbox (bytes "1") (bytes "msg-1") (bytes "Lunch tomorrow?") (bytes "Nope, Thursday!")
        empty_remote in
    let two =
      seed inbox (bytes "2") (bytes "msg-2") (bytes "Invoice #42") (bytes "Attached.") one in
    seed archive (bytes "9") (bytes "msg-1") (bytes "Lunch tomorrow?") (bytes "Nope, Thursday!") two

-- What `main` prints.
pub record Printed : Type 0 where
  pub pulled : ℕ
  pub opened : ℕ
  pub fetched : ℕ
  pub deduped : ℕ
  pub fetched_again : ℕ
  pub stored : ℕ
  pub downloads : ℕ
  pub pushed : ℕ
  pub server_flags : Option Set
  pub pulled_later : ℕ
  pub local_flags : Option Set

-- An outer `none` is a verb that was given too few rounds, an inner one an `unwrap` that panics.
abbrev pub Story : Type 0 → Type 0
Story A = Option (Option A)

infixl 5 ◌>>=◌
abbrev pub ◌>>=◌ : {A B : Type 0} → Story A → (A → Story B) → Story B
none >>= f = none
some none >>= f = some none
some (some a) >>= f = f a

abbrev pub unwrap : {T E : Type 0} → Ran mem T E → Story (T × MemClient)
unwrap none = none
unwrap (some (ok x)) = some (some x)
unwrap (some (err _)) = some none

-- The server's item of a collection, which `collections[..][..]` and the two `get_mut` look up.
member : Text → Text → MemRemote → Option ServerItem
unfolding get
member collection handle r = and_then (get collection r.collections) (get handle)

-- Another client sets the markers of an item.
set_remotely : Text → Text → Flags → MemRemote → Option MemRemote
unfolding get insert
set_remotely collection handle flags r = and_then (get collection r.collections) (λ members.
    and_then (get handle members) (λ item. some (record r {
      collections =
          insert collection (insert handle (record item { flags = flags }) members) r.collections;
    })))

unfoldable pub main : ℕ → Story Printed
unfolding member set_remotely
main rounds = do
  (first, c1) ←
      unwrap (
        sync mem rounds inbox Options.default (record { storage = empty_storage; remote = server }))
  (loaded, c2) ← unwrap (open_collection mem rounds inbox c1)
  (_, c3) ← unwrap (upgrade mem rounds inbox (bytes "1" ∷ bytes "2" ∷ []) Tier.meta c2)
  (detail, c4) ← unwrap (upgrade mem rounds inbox (bytes "1" ∷ []) Tier.full c3)
  (_, c5) ← unwrap (sync mem rounds archive Options.default c4)
  (_, c6) ← unwrap (upgrade mem rounds archive (bytes "9" ∷ []) Tier.meta c5)
  (copy, c7) ← unwrap (upgrade mem rounds archive (bytes "9" ∷ []) Tier.full c6)
  (_, c8) ←
      unwrap (mutate mem rounds inbox (set_flags (bytes "1") (from_iter (bytes "seen" ∷ []))) c7)
  (second, c9) ← unwrap (sync mem rounds inbox Options.default c8)
  seen ← some (member inbox (bytes "1") c9.remote)
  flagged ← some (set_remotely inbox (bytes "2") (from_iter (bytes "flagged" ∷ [])) c9.remote)
  (third, c10) ← unwrap (sync mem rounds inbox Options.default (record c9 { remote = flagged }))
  row ← some (get_at (inbox, bytes "2") c10.storage.placements)
  some (
      some (record {
        pulled = first.pulled;
        opened = length loaded.placements;
        fetched = detail.fetched;
        deduped = copy.deduped;
        fetched_again = copy.fetched;
        stored = length c7.storage.objects;
        downloads = c7.remote.body_fetches;
        pushed = second.pushed;
        server_flags = markers seen.flags;
        pulled_later = third.pulled;
        local_flags = markers row.flags;
      }))
