-- ===== src/Rekey/Carried.antt =====
-- src/rekey.rs, `rebuild`: the loop over the edits carries every edit over.
use io_replica.Base.{
  ◌≡◌, refl, Bool, true, false, not, ◌&&◌, List, [], ◌∷◌, text_eq, if◌then◌else◌, arith, All,
  of_branches,
}
use io_replica.Base.Set.{contains, contains-insert}
use io_replica.Placement.{Handle, Placement}
use io_replica.Rekey.Rows.{is_stranded}
use io_replica.Rekey.Rebuild.{Batch, resurrect, resurrect_all}

-- Nothing that was carried over is forgotten.
resurrect_all-grows :
    (old : List Placement) (b : Batch) (h : Handle)
    → contains b.carried_over h ≡ true
    → contains (resurrect_all old b).carried_over h ≡ true
unfolding resurrect_all
resurrect_all-grows [] b h c = c
resurrect_all-grows (p ∷ old) b h c =
    let rescued = not (contains b.carried_over p.handle) && is_stranded p in
    resurrect_all-grows old (if rescued then resurrect p b else b) h (
      of_branches (λ d. contains d.carried_over h ≡ true) rescued (resurrect p b) b
        (ground (arith, contains-insert h p.handle b.carried_over)) c)

rescued-carried :
    (p : Placement) (b : Batch) (known edited : Bool)
    → contains b.carried_over p.handle ≡ known
    → edited ≡ true
    → contains (if not known && edited then resurrect p b else b).carried_over p.handle ≡ true
rescued-carried p b true edited e h = e
rescued-carried p b false true e h =
    ground (arith, contains-insert p.handle p.handle b.carried_over)
rescued-carried p b false false e h = cc

pub resurrect_all-carried :
    (old : List Placement) (b : Batch)
    → All
        (λ p. is_stranded p ≡ true → contains (resurrect_all old b).carried_over p.handle ≡ true)
        old
unfolding resurrect_all
resurrect_all-carried [] b = tt
resurrect_all-carried (p ∷ old) b =
    let rescued = not (contains b.carried_over p.handle) && is_stranded p in
    let next = if rescued then resurrect p b else b in
    (
      λ s.
          resurrect_all-grows old next p.handle
            (rescued-carried p b (contains b.carried_over p.handle) (is_stranded p) refl s),
      resurrect_all-carried old next,
    )
