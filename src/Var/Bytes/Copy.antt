-- ===== src/Var/Bytes/Copy.antt =====
-- A value copied over the memory it is written to.
use alpha_odpi.Prelude.{
  ℕ, ◌≤◌, ◌≡◌, refl, ◌∙◌, List, [], ◌∷◌, ◌++◌, Option, none, some, length, take, drop, arith,
  length-append, length-drop,
}
use alpha_odpi.Var.Chunks.{block_of, bytes_of}
use alpha_odpi.Var.Chunks.Received.{take-append_left}
use alpha_odpi.Var.Bytes.{copy_to}

pub length-copy :
    (value block : List ℕ)
    → length value ≤ length block
    → length (value ++ drop (length value) block) ≡ length block
length-copy value block h =
    length-append value (drop (length value) block)
    ∙ omega (arith, length-drop (length value) block)

pub copied-length :
    (value : List ℕ) (o : Option (List ℕ))
    → length value ≤ length (block_of o)
    → length (block_of (copy_to value o)) ≡ length (block_of o)
copied-length value none h = refl
copied-length value (some block) h = length-copy value block h

pub copied-take :
    (value : List ℕ) (o : Option (List ℕ))
    → length value ≤ length (block_of o)
    → take (length value) (block_of (copy_to value o)) ≡ value
copied-take [] none h = refl
copied-take (b ∷ bs) none h = absurd (omega arith)
copied-take value (some block) h = take-append_left value (drop (length value) block)

pub bytes_of-copied :
    (value : List ℕ) (o : Option (List ℕ))
    → length value ≤ length (block_of o)
    → bytes_of (copy_to value o) (length value) ≡ value
bytes_of-copied [] none h = refl
bytes_of-copied (b ∷ bs) none h = absurd (omega arith)
bytes_of-copied value (some block) h = take-append_left value (drop (length value) block)
