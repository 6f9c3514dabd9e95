-- ===== src/Mutate/Guards.antt =====
-- src/mutate.rs, `resume`: when a mutation is refused, and when it is staged.
use io_replica.Base.{
  ◌≡◌, ◌≢◌, refl, ap, ◌∙◌, ◌⊎◌, Bool, true, false, Option, none, some, List, [], ◌∷◌, ◌++◌, ℕ,
  arith, All, any, text_eq, option_eq,
}
use io_replica.Flags.{Flags}
use io_replica.Placement.{Handle, LinkId, Meta, SortKey, Object, Placement, status_eq, tombstone}
use io_replica.Change.{upsert_placement, store_object}
use io_replica.Coroutine.{Loaded, Arg, err, yielded, wants_write, complete}
use io_replica.Mutate.{
  add, source_handle, Mutate, State, link_exists, unknown_handle, new_row, find, collides, resume,
}

any-append {ℓ} :
    {A : Type ℓ} (f : A → Bool) (xs ys : List A) (a : A) → f a ≡ true → any f (xs ++ a ∷ ys) ≡ true
any-append f [] ys a h = ground arith
any-append f (x ∷ xs) ys a h = ground (arith, any-append f xs ys a h)

collides_none :
    (link : LinkId) (l : List Placement)
    → All (λ p. (p.status ≡ tombstone) ⊎ (p.link_id ≢ some link)) l
    → any (collides link) l ≡ false
collides_none link [] h = refl
collides_none link (p ∷ l) (h, k) = ground (arith, collides_none link l k)

find-none : (h : Handle) (l : List Placement) → All (λ p. p.handle ≢ h) l → find h l ≡ none
find-none h [] n = refl
find-none h (p ∷ l) (n, k) = ground (arith, find-none h l k)

-- An add whose link id no live placement holds yields the writes of its body and of its pending
-- create.
resume_add_fresh :
    (m : Mutate) (h : Handle) (link : LinkId) (flags : Flags) (object : Object) (body : List ℕ)
    (meta : Option Meta) (key : SortKey) (loaded : Loaded)
    → m.state ≡ State.pending_load
    → m.mutation ≡ add h link flags object body meta key
    → All (λ p. (p.status ≡ tombstone) ⊎ (p.link_id ≢ some link)) loaded.placements
    → (resume (some (Arg.load loaded)) m).1
      ≡ yielded (
          wants_write (
            store_object object (some body)
            ∷ upsert_placement (new_row m.collection h link flags object meta key)
            ∷ []))
unfolding resume
resume_add_fresh m h link flags object body meta key loaded st e l =
    ground (arith, collides_none link loaded.placements l)

-- An add whose link id a live placement holds, wherever it stands among those loaded, completes
-- with the error that the link exists. The coroutine is not over, though: resumed once more with
-- a load in which no live placement holds the link id, it yields the writes of the body and of
-- the pending create.
pub resume_add_collides :
    (m : Mutate) (h : Handle) (link : LinkId) (flags : Flags) (object : Object) (body : List ℕ)
    (meta : Option Meta) (key : SortKey) (loaded again : Loaded) (before after : List Placement)
    (p : Placement)
    → m.state ≡ State.pending_load
    → m.mutation ≡ add h link flags object body meta key
    → loaded.placements ≡ before ++ p ∷ after
    → p.status ≢ tombstone
    → p.link_id ≡ some link
    → All (λ q. (q.status ≡ tombstone) ⊎ (q.link_id ≢ some link)) again.placements
    → ((resume (some (Arg.load loaded)) m).1 ≡ complete (err (link_exists link)))
      × ((resume (some (Arg.load again)) (resume (some (Arg.load loaded)) m).0).1
          ≡ yielded (
              wants_write (
                store_object object (some body)
                ∷ upsert_placement (new_row m.collection h link flags object meta key)
                ∷ [])))
unfolding resume
resume_add_collides m h link flags object body meta key loaded again before after p st e l n k
      free =
    let refused : resume (some (Arg.load loaded)) m ≡ (m, complete (err (link_exists link))) =
      ground (arith, any-append (collides link) before after p (ground arith)) in
    (
      ap (λ r. r.1) refused,
      ap (λ r. (resume (some (Arg.load again)) r.0).1) refused
          ∙ resume_add_fresh m h link flags object body meta key again st e free,
    )

-- A mutation of a handle that no loaded placement has completes with the error that names the
-- handle and leaves the coroutine as it was.
resume_unknown_handle :
    (m : Mutate) (h : Handle) (loaded : Loaded)
    → m.state ≡ State.pending_load
    → source_handle m.mutation ≡ some h
    → All (λ p. p.handle ≢ h) loaded.placements
    → resume (some (Arg.load loaded)) m ≡ (m, complete (err (unknown_handle h)))
unfolding resume
resume_unknown_handle m h loaded st e l = ground (arith, find-none h loaded.placements l)
