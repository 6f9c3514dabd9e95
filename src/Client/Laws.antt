-- ===== src/Client/Laws.antt =====
-- src/client.rs: the replies that the driver feeds back.
use io_replica.Base.{◌≡◌, refl, Bool, true, false}
use io_replica.Coroutine.{
  Yield, wants_enumerate, wants_fetch, wants_push, wants_load, wants_lookup_object, wants_write,
  Arg, Result, ok, err,
}
use io_replica.Client.{
  Seams, Client, ClientError, storage, remote, coroutine, panic, service, from_remote, from_storage,
  map_ok,
}

-- The pairing of yields and replies that `ReplicaYield` documents.
abbrev pub answers : Yield → Arg → Bool
answers (wants_enumerate _ _) (Arg.enumerate _) = true
answers (wants_fetch _ _ _) (Arg.fetch _) = true
answers (wants_push _ _) (Arg.push _) = true
answers (wants_load _ _) (Arg.load _) = true
answers (wants_lookup_object _) (Arg.lookup_object _) = true
answers (wants_write _) Arg.write = true
answers _ _ = false

module _ (S : Seams) (E : Type 0) where
  -- A seam failed: neither the coroutine nor its contract did.
  abbrev pub is_seam : ClientError S E → Bool
  is_seam (storage _) = true
  is_seam (remote _) = true
  is_seam (coroutine _) = false
  is_seam panic = false

  -- What a service hands over is a reply to the yield, or the error of a seam.
  abbrev pub IsReply : Yield → Result (Arg × Client S) (ClientError S E) → Type 0
  IsReply y (ok (a, c)) = answers y a ≡ true
  IsReply y (err e) = is_seam e ≡ true

  remote-IsReply :
      (y : Yield) (c : Client S) {X : Type 0} (f : X → Arg × S.Remote) (x : Result X S.RemoteError)
      → ((t : X) → answers y (f t).0 ≡ true)
      → IsReply y (from_remote S E c (map_ok S E f x))
  unfolding from_remote map_ok
  remote-IsReply y c f (ok t) h = h t
  remote-IsReply y c f (err e) h = refl

  storage-IsReply :
      (y : Yield) (c : Client S) {X : Type 0} (f : X → Arg × S.Storage)
      (x : Result X S.StorageError)
      → ((t : X) → answers y (f t).0 ≡ true)
      → IsReply y (from_storage S E c (map_ok S E f x))
  unfolding from_storage map_ok
  storage-IsReply y c f (ok t) h = h t
  storage-IsReply y c f (err e) h = refl

  -- What the driver gets for a yield is the reply that the yield asks for, or the error of a
  -- seam.
  pub service-IsReply : (y : Yield) (c : Client S) → IsReply y (service S E y c)
  unfolding service
  service-IsReply (wants_enumerate collection cursor) c =
      remote-IsReply (wants_enumerate collection cursor) c _ _ (λ t. refl)
  service-IsReply (wants_fetch collection handles tier) c =
      remote-IsReply (wants_fetch collection handles tier) c _ _ (λ t. refl)
  service-IsReply (wants_push collection changes) c =
      remote-IsReply (wants_push collection changes) c _ _ (λ t. refl)
  service-IsReply (wants_load collection scope) c =
      storage-IsReply (wants_load collection scope) c _ _ (λ t. refl)
  service-IsReply (wants_lookup_object links) c =
      storage-IsReply (wants_lookup_object links) c _ _ (λ t. refl)
  service-IsReply (wants_write ops) c = storage-IsReply (wants_write ops) c _ _ (λ t. refl)
