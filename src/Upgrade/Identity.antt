-- ===== src/Upgrade/Identity.antt =====
-- src/upgrade.rs, `write_fetched`: who holds which link id, once a batch is written.
use io_replica.Base.{
  ℕ, ◌≡◌, ◌≢◌, refl, sym, ◌∙◌, ◌⊎◌, inl, inr, true, Option, none, some, [], ◌∷◌, ◌++◌, Text,
  text_eq, option_eq, ◌==◌, if◌then◌else◌, arith, All, is_some, Option-cases,
}
use mathlib.Core.Path.{subst}
use io_replica.Base.Map
use io_replica.Base.Map.{Map, get, insert, get-insert, get_of_IsAbove}
use io_replica.Placement.{Handle, LinkId, Placement}
use io_replica.Upgrade.Fetched.{mint, Claims, claim, claims_onto}

tail_eq : {x y : ℕ} {a b : Text} → x ∷ a ≡ y ∷ b → a ≡ b
tail_eq e = cc

-- A handle without the separator of a minted key.
abbrev pub IsPlain : Handle → Type 0
IsPlain = All (λ c. c ≢ b'#')

IsPlain-not_split : (b k : Text) → ¬ IsPlain (b ++ b'#' ∷ k)
IsPlain-not_split [] k (n, _) = n refl
IsPlain-not_split (x ∷ b) k (_, p) = IsPlain-not_split b k p

split_plain :
    (a b : Text) (h k : Handle) → IsPlain h → IsPlain k → a ++ b'#' ∷ h ≡ b ++ b'#' ∷ k → h ≡ k
split_plain [] [] h k p q e = cc
split_plain [] (y ∷ b) h k p q e = absurd (IsPlain-not_split b k (subst IsPlain (tail_eq e) p))
split_plain (x ∷ a) [] h k p q e =
    absurd (IsPlain-not_split a h (subst IsPlain (sym (tail_eq e)) q))
split_plain (x ∷ a) (y ∷ b) h k p q e = split_plain a b h k p q (tail_eq e)

pub mint-inj : (a b : LinkId) (h k : Handle) → IsPlain h → IsPlain k → mint a h ≡ mint b k → h ≡ k
unfolding mint
mint-inj a b h k p q e = split_plain a b h k p q cc

-- Every row stands under its own handle.
abbrev pub IsKeyed : Map Placement → Type 0
IsKeyed m = (h : Handle) (p : Placement) → get h m ≡ some p → p.handle ≡ h

-- No two rows hold one link id.
abbrev pub IsUnique : Map Placement → Type 0
IsUnique m =
    (h k : Handle) (p q : Placement) (link : LinkId)
    → get h m ≡ some p
    → get k m ≡ some q
    → p.link_id ≡ some link
    → q.link_id ≡ some link
    → h ≡ k

get-claim :
    (l : LinkId) (o : Option LinkId) (h : Handle) (c : Claims)
    → get l (claim o h c) ≡ (if o == some l then some h else get l c)
get-claim l none h c = ground arith
get-claim l (some k) h c = rw (get-insert l k h c) (ground arith)

claims_onto-some :
    (m : Map Placement) (c : Claims) (link : LinkId)
    → is_some (get link c) ≡ true
    → is_some (get link (claims_onto c m)) ≡ true
unfolding claims_onto
claims_onto-some [] c link s = s
claims_onto-some ((j, p) ∷ m) c link s =
    claims_onto-some m (claim p.link_id p.handle c) link
      (rw (get-claim link p.link_id p.handle c) (ground arith))

claims_onto_complete :
    (m : Map Placement) (c : Claims) (h : Handle) (p : Placement) (link : LinkId)
    → get h m ≡ some p
    → p.link_id ≡ some link
    → is_some (get link (claims_onto c m)) ≡ true
unfolding claims_onto get
claims_onto_complete [] c h p link e l = cc
claims_onto_complete ((j, q) ∷ m) c h p link e l = elim (text_eq.dec h j) [
  | yes s ↦
      claims_onto-some m (claim q.link_id q.handle c) link
        (rw (get-claim link q.link_id q.handle c) (ground arith))
  | no n ↦ claims_onto_complete m (claim q.link_id q.handle c) h p link (ground arith) l
]

-- Where a claim comes from.
abbrev HasHolder : Map Placement → LinkId → Handle → Type 0
HasHolder m link h =
    (k : Handle) × (p : Placement) × (get k m ≡ some p) × (p.link_id ≡ some link) × (p.handle ≡ h)

claims_onto_sound :
    (m : Map Placement) (c : Claims) (link : LinkId) (h : Handle)
    → Map.IsSorted m
    → get link (claims_onto c m) ≡ some h
    → (get link c ≡ some h) ⊎ HasHolder m link h
unfolding claims_onto get
claims_onto_sound [] c link h s e = inl e
claims_onto_sound ((j, q) ∷ m) c link h (a, s) e =
    elim (claims_onto_sound m (claim q.link_id q.handle c) link h s e) [
      | inl f ↦ claimed_here f
      | inr (k, p, g, l, w) ↦ inr (k, p, above k p g, l, w)
    ]
  where
    above : (k : Handle) (p : Placement) → get k m ≡ some p → get k ((j, q) ∷ m) ≡ some p
    above k p g = let nothing = get_of_IsAbove j m a in ground arith

    claimed_here :
        get link (claim q.link_id q.handle c) ≡ some h
        → (get link c ≡ some h) ⊎ HasHolder ((j, q) ∷ m) link h
    claimed_here f = elim (option_eq.dec q.link_id (some link)) [
      | yes s ↦ inr (j, q, ground arith, s, ground (arith, get-claim link q.link_id q.handle c))
      | no n ↦ inl (ground (arith, get-claim link q.link_id q.handle c))
    ]

-- Every link id that a row of the table holds is claimed by the row's handle.
abbrev pub IsClaimed : Claims → Map Placement → Type 0
IsClaimed claimed m =
    (h : Handle) (p : Placement) (link : LinkId)
    → get h m ≡ some p
    → p.link_id ≡ some link
    → get link claimed ≡ some h

pub IsClaimed-IsUnique : (claimed : Claims) (m : Map Placement) → IsClaimed claimed m → IsUnique m
IsClaimed-IsUnique claimed m c h k p q link g f l n = cc (c h p link g l, c k q link f n)

-- The claims that the loop starts with.
pub claims_onto-IsClaimed :
    (m : Map Placement) → Map.IsSorted m → IsKeyed m → IsUnique m → IsClaimed (claims_onto [] m) m
unfolding get
claims_onto-IsClaimed m s keyed unique h p link g l =
    elim (Option-cases (get link (claims_onto [] m))) [
      | inl e ↦ cc (claims_onto_complete m [] h p link g l)
      | inr (k, e) ↦ owner k e (claims_onto_sound m [] link k s e)
    ]
  where
    owner :
        (k : Handle)
        → get link (claims_onto [] m) ≡ some k
        → (get link [] ≡ some k) ⊎ HasHolder m link k
        → get link (claims_onto [] m) ≡ some h
    owner k e (inl f) = cc
    owner k e (inr (j, q, f, n, w)) = cc (unique h j p q link g f l n, keyed j q f)

-- A minted key is claimed by no handle but its own.
abbrev pub IsOwned : Claims → Type 0
IsOwned claimed =
    (hint : LinkId) (k h : Handle) → IsPlain k → get (mint hint k) claimed ≡ some h → h ≡ k

-- A new claim, of a link id that nobody else claims.
pub insert-IsClaimed :
    (claimed : Claims) (m : Map Placement) (link : LinkId) (h : Handle)
    → (get link claimed ≡ none) ⊎ (get link claimed ≡ some h)
    → IsClaimed claimed m
    → IsClaimed (insert link h claimed) m
insert-IsClaimed claimed m link h free c k p l g e =
    let old = c k p l g e in
    elim free [
      | inl f ↦ ground (arith, get-insert l link h claimed)
      | inr f ↦ ground (arith, get-insert l link h claimed)
    ]

pub insert-IsOwned :
    (claimed : Claims) (link : LinkId) (h : Handle)
    → ((hint : LinkId) (k : Handle) → IsPlain k → link ≡ mint hint k → h ≡ k)
    → IsOwned claimed
    → IsOwned (insert link h claimed)
insert-IsOwned claimed link h own o hint k j plain e = elim (text_eq.dec (mint hint k) link) [
  | yes s ↦ ground (arith, get-insert (mint hint k) link h claimed, own hint k plain (sym s))
  | no n ↦ o hint k j plain (ground (arith, get-insert (mint hint k) link h claimed))
]

-- A row written under a handle that claims what the row holds.
pub insert_row-IsClaimed :
    (claimed : Claims) (m : Map Placement) (h : Handle) (q : Placement)
    → ((link : LinkId) → q.link_id ≡ some link → get link claimed ≡ some h)
    → IsClaimed claimed m
    → IsClaimed claimed (insert h q m)
insert_row-IsClaimed claimed m h q own c k p link g e = elim (text_eq.dec k h) [
  | yes s ↦ ground (arith, get-insert k h q m, own link)
  | no n ↦ c k p link (ground (arith, get-insert k h q m)) e
]

-- No row holds a key that is minted for another handle.
abbrev pub IsMintedOwn : Map Placement → Type 0
IsMintedOwn m =
    (hint : LinkId) (k h : Handle) (p : Placement)
    → IsPlain k
    → get h m ≡ some p
    → p.link_id ≡ some (mint hint k)
    → h ≡ k

pub claims_onto-IsOwned :
    (m : Map Placement) → Map.IsSorted m → IsKeyed m → IsMintedOwn m → IsOwned (claims_onto [] m)
unfolding get
claims_onto-IsOwned m s keyed own hint k h plain e =
    owner (claims_onto_sound m [] (mint hint k) h s e)
  where
    owner : (get (mint hint k) [] ≡ some h) ⊎ HasHolder m (mint hint k) h → h ≡ k
    owner (inl f) = cc
    owner (inr (j, p, g, l, w)) = sym w ∙ keyed j p g ∙ own hint k j p plain g l
