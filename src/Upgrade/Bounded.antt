-- ===== src/Upgrade/Bounded.antt =====
-- src/upgrade.rs, the coroutine: its writes, whatever it is resumed with.
use io_replica.Base.{◌≡◌, refl, sym, Bool, true, false, Option, none, some, List, [], ◌∷◌, All}
use mathlib.Core.Path.{subst}
use io_replica.Base.Map.{Map}
use io_replica.Placement.{Handle, Placement, Hash, LinkId}
use io_replica.Remote.{Tier}
use io_replica.Coroutine.{Loaded, Arg}
use io_replica.Upgrade.Machine.{Upgrade, State, pending_handles}
use io_replica.Upgrade.Fetched.{Outcome, claims_onto, sort_fetched, apply_items, write_fetched}
use io_replica.Upgrade.Run.{
  pull_pending, on_load, on_lookup, on_fetch, on_holders, dispatch, resume, by_handle, fold_holders,
  lookup_links, fresh_links, want_lookup, fetch_rest, link_all, check_links,
}
use io_replica.Upgrade.Identity.{IsKeyed}
use io_replica.Upgrade.Written.{asked}
use io_replica.Upgrade.Pull.{
  IsPull, IsPulling, apply_items-IsPulling, link_all-IsPulling, by_handle-IsKeyed, IsPull-grows,
  fold_holders-grows,
}

abbrev is_early : State → Bool
is_early State.start = true
is_early State.pending_load = true
is_early _ = false

-- A state whose rows stand under their handles and whose queued writes raise them.
abbrev pub IsTidy : Upgrade → Type 0
IsTidy u =
    IsKeyed u.placements × All (IsPull u.placements) u.ops × (is_early u.state ≡ true → u.ops ≡ [])

-- A step whose writes raise the rows loaded, and that comes to such a state again.
abbrev pub IsBounded : Upgrade × Outcome → Type 0
IsBounded (u, out) = IsTidy u × All (IsPull u.placements) (asked (u, out))

abbrev IsFilled : Upgrade → Type 0
IsFilled u = IsKeyed u.placements × All (IsPull u.placements) u.ops

IsPulling-IsFilled : (m : Map Placement) (u : Upgrade) → IsKeyed m → IsPulling m u → IsFilled u
IsPulling-IsFilled m u k (i, e) = subst (λ n. IsKeyed n × All (IsPull n) u.ops) (sym e) (k, i)

write_fetched-IsBounded : (u : Upgrade) → IsFilled u → IsBounded (write_fetched u)
unfolding write_fetched
write_fetched-IsBounded u (keyed, i) =
    let claimed = claims_onto [] u.placements in
    let items = sort_fetched u.fetched in
    let taken = record u { fetched = [] } in
    let (k, j) =
      IsPulling-IsFilled u.placements (apply_items items claimed taken) keyed
        (apply_items-IsPulling items claimed taken u.placements keyed (i, refl)) in
    ((k, tt, λ e. refl), j)

check_links-IsBounded :
    (fresh : List LinkId) (u : Upgrade) → IsFilled u → IsBounded (check_links fresh u)
unfolding check_links
check_links-IsBounded [] u h = write_fetched-IsBounded u h
check_links-IsBounded (link ∷ fresh) u (k, i) = ((k, i, λ e. cc), tt)

fetch_rest-IsBounded : (r : List Handle × Upgrade) → IsFilled r.1 → IsBounded (fetch_rest r)
unfolding fetch_rest
fetch_rest-IsBounded ([], u) (k, i) = ((k, tt, λ e. refl), i)
fetch_rest-IsBounded (h ∷ to_fetch, u) (k, i) = ((k, i, λ e. cc), tt)

on_lookup-IsBounded : (known : Map Hash) (u : Upgrade) → IsFilled u → IsBounded (on_lookup known u)
unfolding on_lookup
on_lookup-IsBounded known u (k, i) =
    let linked = link_all known u.placements (pending_handles u) ([], u) in
    fetch_rest-IsBounded linked (
      IsPulling-IsFilled u.placements linked.1 k
        (link_all-IsPulling known (pending_handles u) ([], u) u.placements k (i, refl)))

pull_pending-IsBounded :
    (pending : List Handle) (tier : Tier) (u : Upgrade)
    → IsFilled u
    → IsBounded (pull_pending pending tier u)
unfolding pull_pending want_lookup
pull_pending-IsBounded [] tier u (k, i) = ((k, i, λ e. cc), tt)
pull_pending-IsBounded (h ∷ pending) Tier.meta u (k, i) = ((k, i, λ e. cc), tt)
pull_pending-IsBounded (h ∷ pending) Tier.full u (k, i) =
    look (lookup_links (h ∷ pending) u.placements)
  where
    look : (links : List LinkId) → IsBounded (want_lookup (h ∷ pending) links u)
    look [] = ((k, i, λ e. cc), tt)
    look (link ∷ links) = ((k, i, λ e. cc), tt)

on_load-IsBounded : (loaded : Loaded) (u : Upgrade) → u.ops ≡ [] → IsBounded (on_load loaded u)
unfolding on_load
on_load-IsBounded loaded u e =
    let filled = record u { placements = by_handle loaded.placements } in
    pull_pending-IsBounded (pending_handles filled) filled.tier filled
      (by_handle-IsKeyed loaded.placements, subst (All (IsPull filled.placements)) (sym e) tt)

on_holders-IsBounded :
    (loaded : Loaded) (u : Upgrade) → IsFilled u → IsBounded (on_holders loaded u)
unfolding on_holders
on_holders-IsBounded loaded u (k, i) =
    let folded = fold_holders loaded.placements u.placements in
    let (keyed, grows) = fold_holders-grows loaded.placements u.placements k in
    write_fetched-IsBounded (record u { placements = folded })
      (keyed, IsPull-grows u.placements folded grows u.ops i)

-- In a state whose rows stand under their handles and whose queued writes only raise them, a
-- step of an upgrade, whatever it is resumed with, asks for such writes only and leaves such a
-- state: it drops nothing, moves no checkpoint, and rewrites only rows it has loaded, with their
-- flags, status, origin and conflict revision, and with the link id of those that had one.
pub resume-IsBounded : (arg : Option Arg) (u : Upgrade) → IsTidy u → IsBounded (resume arg u)
unfolding resume on_fetch
resume-IsBounded arg u (k, i, early) = go u.state arg early
  where
    go :
        (s : State) (arg : Option Arg)
        → (is_early s ≡ true → u.ops ≡ [])
        → IsBounded (dispatch s arg u)
    go State.start none e = ((k, i, e), tt)
    go State.pending_load (some (Arg.load loaded)) e = on_load-IsBounded loaded u (e refl)
    go State.pending_lookup (some (Arg.lookup_object known)) e = on_lookup-IsBounded known u (k, i)
    go State.pending_fetch (some (Arg.fetch items)) e =
        check_links-IsBounded (fresh_links u.placements items) (record u { fetched = items }) (k, i)
    go State.pending_link_check (some (Arg.load loaded)) e = on_holders-IsBounded loaded u (k, i)
    go State.pending_write (some Arg.write) e = ((k, i, λ h. cc), tt)
    go _ (some _) _ = ((k, i, early), tt)
    go _ none _ = ((k, i, early), tt)
