-- ===== src/Change/Splits.antt =====
-- src/change.rs, `ReplicaChangeDigest`: where one field ends and the next begins.
use io_replica.Base.{◌≡◌, refl, ap, ◌∙◌, sym, List, [], ◌∷◌, ◌++◌, Text}
use mathlib.Core.List.{foldl, append_assoc}
use io_replica.Flags.{Flags}
use io_replica.Change.{Digest, set_flags, field, fold_byte, fold_kind, offset, hex, key}

foldl-append {ℓ κ} :
    {A : Type ℓ} {B : Type κ} (f : B → A → B) (b : B) (l m : List A)
    → foldl f b (l ++ m) ≡ foldl f (foldl f b l) m
foldl-append f b [] m = refl
foldl-append f b (a ∷ l) m = foldl-append f (f b a) l m

-- Two fields fold as one does that holds a zero byte between them.
field-field : (d : Digest) (a b : Text) → field (field d a) b ≡ field d (a ++ 0 ∷ b)
unfolding field
field-field d a b =
    sym (foldl-append fold_byte d (a ++ 0 ∷ []) (b ++ 0 ∷ []))
    ∙ ap (foldl fold_byte d)
        (append_assoc a (0 ∷ []) (b ++ 0 ∷ []) ∙ sym (append_assoc a (0 ∷ b) (0 ∷ [])))

field_split :
    (d : Digest) (a b c : Text) → field (field d (a ++ 0 ∷ b)) c ≡ field (field d a) (b ++ 0 ∷ c)
field_split d a b c =
    field-field d (a ++ 0 ∷ b) c
    ∙ ap (field d) (append_assoc a (0 ∷ b) (0 ∷ c))
    ∙ sym (field-field d a (b ++ 0 ∷ c))

-- A flag change has the same key under two pairs of collection and handle that are the same
-- bytes, parted at different zero bytes.
pub key_split :
    (collection rest handle : Text) (flags : Flags)
    → key (collection ++ 0 ∷ rest) (set_flags handle flags)
      ≡ key collection (set_flags (rest ++ 0 ∷ handle) flags)
unfolding key fold_kind
key_split collection rest handle flags =
    ap (λ d. hex 16 (fold_kind d (set_flags handle flags)))
      (field_split offset collection rest handle)
