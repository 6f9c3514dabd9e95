-- ===== src/Upgrade/Unique.antt =====
-- src/upgrade.rs, `write_fetched`: the table that a batch leaves, and the link ids in it.
use io_replica.Base.{◌≡◌, ◌∙◌, some, List, [], ◌∷◌, arith, All}
use io_replica.Base.Map
use io_replica.Base.Map.{Map, get, insert, get-insert}
use io_replica.Placement.{Handle, Placement, status_eq}
use io_replica.Remote.{FetchedItem}
use io_replica.Change.{WriteOp}
use io_replica.Upgrade.Machine.{Upgrade}
use io_replica.Upgrade.Fetched.{Claims, claims_onto, insert_fetched, sort_fetched, write_fetched}
use io_replica.Upgrade.Written.{written, asked}
use io_replica.Upgrade.Identity.{
  IsKeyed, IsUnique, IsClaimed, IsClaimed-IsUnique, claims_onto-IsClaimed, IsMintedOwn,
  claims_onto-IsOwned,
}
use io_replica.Upgrade.Claimed.{IsNamed, apply_items-IsClaimed}

insert_fetched-All :
    (P : FetchedItem → Type 0) (a : FetchedItem) (items : List FetchedItem)
    → P a
    → All P items
    → All P (insert_fetched a items)
unfolding insert_fetched
insert_fetched-All P a [] p h = (p, tt)
insert_fetched-All P a (b ∷ items) p (q, h) = ground (arith, insert_fetched-All P a items p h)

sort_fetched-All :
    (P : FetchedItem → Type 0) (items : List FetchedItem) → All P items → All P (sort_fetched items)
unfolding sort_fetched
sort_fetched-All P [] h = tt
sort_fetched-All P (a ∷ items) (p, h) =
    insert_fetched-All P a (sort_fetched items) p (sort_fetched-All P items h)

-- A batch that leaves every row the link id it had.
abbrev pub KeepsLinks : List WriteOp → Map Placement → Type 0
KeepsLinks ops m =
    (h : Handle) (p : Placement)
    → get h (written ops m) ≡ some p
    → (q : Placement) × (get h m ≡ some q) × (q.link_id ≡ p.link_id)

KeepsLinks-IsClaimed :
    (claimed : Claims) (ops : List WriteOp) (m : Map Placement)
    → KeepsLinks ops m
    → IsClaimed claimed m
    → IsClaimed claimed (written ops m)
KeepsLinks-IsClaimed claimed ops m keeps c h p link g e =
    let (q, f, same) = keeps h p g in c h q link f (same ∙ e)

-- The rows that are loaded, and the items that were fetched, as the identity check relies on them.
abbrev pub IsUpgradable : Upgrade → Type 0
IsUpgradable u =
    Map.IsSorted u.placements
    × IsKeyed u.placements
    × IsUnique u.placements
    × IsMintedOwn u.placements
    × All IsNamed u.fetched
    × KeepsLinks u.ops u.placements

-- Where the rows loaded stand in order under their own handles, no two hold one link id and none
-- holds a key minted for another handle without a "#", where the writes queued before leave
-- every row its link id, and where the fetched handles hold no "#" and their hints are no keys
-- minted for other such handles, no two rows hold one link id either once the batch of the fetch
-- is written.
pub written-write_fetched :
    (u : Upgrade) → IsUpgradable u → IsUnique (written (asked (write_fetched u)) u.placements)
unfolding write_fetched written
written-write_fetched u (sorted, keyed, unique, own, named, keeps) =
    let claimed = claims_onto [] u.placements in
    let c = claims_onto-IsClaimed u.placements sorted keyed unique in
    let (end, d) =
      apply_items-IsClaimed (sort_fetched u.fetched) claimed (record u { fetched = [] }) keyed
        (sort_fetched-All IsNamed u.fetched named)
        (
          c,
          claims_onto-IsOwned u.placements sorted keyed own,
          KeepsLinks-IsClaimed claimed u.ops u.placements keeps c,
        ) in
    IsClaimed-IsUnique end (written (asked (write_fetched u)) u.placements) d
