-- ===== src/Client/Ends.antt =====
-- src/client.rs: the runs of a coroutine whose only errors are those of the contract with its driver.
use io_replica.Base.{ℕ, suc, ◌≡◌, refl, Bool, true, false, Option, some}
use io_replica.Coroutine.{Result, ok, err, Arg, ArgError, Yield, CoroutineState, yielded}
use io_replica.Client.{
  Seams, Client, ClientError, storage, remote, coroutine, panic, run, react, respond, service,
}
use io_replica.Client.Laws.{answers, IsReply, service-IsReply}

module _ (S : Seams) where
  -- A run that is done, or that a seam has failed.
  abbrev pub is_sound {ℓ} : {T : Type ℓ} → Result {ℓ, 0} T (ClientError S ArgError) → Bool
  is_sound (ok _) = true
  is_sound (err (storage _)) = true
  is_sound (err (remote _)) = true
  is_sound (err (coroutine _)) = false
  is_sound (err panic) = false

  module _ {C T : Type 0}
      (resume : Option Arg → C → C × CoroutineState Yield (Result T ArgError)) where
    abbrev pub Ends : Option (Result {0, 0} (T × Client S) (ClientError S ArgError)) → Type 0
    Ends o =
        (r : Result {0, 0} (T × Client S) (ClientError S ArgError)) × (o ≡ some r)
        × (is_sound r ≡ true)

    abbrev pub go_on :
        ℕ
        → Client S
        → C × CoroutineState Yield (Result T ArgError)
        → Option (Result {0, 0} (T × Client S) (ClientError S ArgError))
    go_on n = react S ArgError resume (λ a. run S ArgError resume n (some a))

    Ends-at_reply :
        (n : ℕ) (k : C) (y : Yield) (x : Result (Arg × Client S) (ClientError S ArgError))
        → IsReply S ArgError y x
        → ((a : Arg) (d : Client S) → answers y a ≡ true → Ends (go_on n d (resume (some a) k)))
        → Ends (respond S ArgError resume (λ b. run S ArgError resume (suc n) (some b)) k x)
    unfolding run
    Ends-at_reply n k y (ok (a, d)) reply next = next a d reply
    Ends-at_reply n k y (err (storage e)) reply next = (err (storage e), refl, refl)
    Ends-at_reply n k y (err (remote e)) reply next = (err (remote e), refl, refl)
    Ends-at_reply n k y (err (coroutine e)) reply next = cc
    Ends-at_reply n k y (err panic) reply next = cc

    -- A yield ends where what follows each of its answers does.
    pub Ends-at_yield :
        (n : ℕ) (k : C) (y : Yield) (c : Client S)
        → ((a : Arg) (d : Client S) → answers y a ≡ true → Ends (go_on n d (resume (some a) k)))
        → Ends (go_on (suc n) c (k, yielded y))
    Ends-at_yield n k y c next =
        Ends-at_reply n k y (service S ArgError y c) (service-IsReply S ArgError y c) next
