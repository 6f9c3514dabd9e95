-- ===== src/Tests/Keys.antt =====
-- The theorems on the key of a change, at small changes.
use io_replica.Base.{◌≡◌, ◌∷◌, ◌++◌, bytes}
use io_replica.Change.{key, set_flags}
use io_replica.Change.Splits.{key_split}
use io_replica.Tests.Data.{seen}

key_split_example :
    key (bytes "a" ++ 0 ∷ bytes "b") (set_flags (bytes "c") seen)
    ≡ key (bytes "a") (set_flags (bytes "b" ++ 0 ∷ bytes "c") seen)
key_split_example = key_split (bytes "a") (bytes "b") (bytes "c") seen
