-- ===== src/Var/Chunks/Sound.antt =====
-- Chunks that are as large as they say, and how much memory they have together: src/dpiVar.c.
use alpha_odpi.Prelude.{
  ℕ, zero, suc, ◌+◌, ◌^◌, ◌≤◌, ◌<◌, ◌≡◌, refl, ◌⊎◌, inl, inr, List, [], ◌∷◌, ◌++◌, Option, none,
  some, length, take, drop, set, get_or, replicate, arith, length-append, length-drop, length-take,
}
use alpha_odpi.Var.Chunks.{Chunk, block_of, bytes_of, empty_chunk, chunk_size, total_allocated}

-- The memory of a chunk has the size that is noted, and is none or that of a chunk at least.
abbrev pub IsSound : Chunk → Type 0
IsSound c =
    (length (block_of c.memory) ≡ c.allocated_length)
    × ((c.memory ≡ none) ⊎ (chunk_size ≤ c.allocated_length))

abbrev pub AllSound : List Chunk → Type 0
AllSound [] = Unit
AllSound (c ∷ cs) = IsSound c × AllSound cs

-- The sum of the sizes, which does not wrap.
abbrev pub total : List Chunk → ℕ
total [] = 0
total (c ∷ cs) = c.allocated_length + total cs

pub AllSound-append : (cs ds : List Chunk) → AllSound cs → AllSound ds → AllSound (cs ++ ds)
AllSound-append [] ds h k = k
AllSound-append (c ∷ cs) ds h k = (h.0, AllSound-append cs ds h.1 k)

pub AllSound-replicate : (n : ℕ) → AllSound (replicate n empty_chunk)
AllSound-replicate zero = tt
AllSound-replicate (suc n) = ((refl, inl refl), AllSound-replicate n)

pub AllSound-set :
    (cs : List Chunk) (i : ℕ) (c : Chunk) → AllSound cs → IsSound c → AllSound (set cs i c)
AllSound-set [] i c h k = tt
AllSound-set (d ∷ cs) zero c h k = (k, h.1)
AllSound-set (d ∷ cs) (suc i) c h k = (h.0, AllSound-set cs i c h.1 k)

pub AllSound-get : (cs : List Chunk) (i : ℕ) → AllSound cs → IsSound (get_or cs i empty_chunk)
AllSound-get [] i h = (refl, inl refl)
AllSound-get (c ∷ cs) zero h = h.0
AllSound-get (c ∷ cs) (suc i) h = AllSound-get cs i h.1

pub total-append : (cs ds : List Chunk) → total (cs ++ ds) ≡ total cs + total ds
total-append [] ds = omega arith
total-append (c ∷ cs) ds = omega (arith, total-append cs ds)

pub total-replicate : (n : ℕ) → total (replicate n empty_chunk) ≡ 0
total-replicate zero = refl
total-replicate (suc n) = omega (arith, total-replicate n)

pub total-set :
    (cs : List Chunk) (i : ℕ) (c : Chunk)
    → i < length cs
    → total (set cs i c) + (get_or cs i empty_chunk).allocated_length
      ≡ total cs + c.allocated_length
total-set [] i c h = absurd (omega arith)
total-set (d ∷ cs) zero c h = omega arith
total-set (d ∷ cs) (suc i) c h = omega (arith, total-set cs i c (omega arith))

pub total-take : (k : ℕ) (cs : List Chunk) → total (take k cs) ≤ total cs
total-take zero cs = omega arith
total-take (suc k) [] = omega arith
total-take (suc k) (c ∷ cs) = omega (arith, total-take k cs)

-- The sum that the source takes is this one, unless it wraps.
pub total_allocated-total : (cs : List Chunk) → total cs < 2 ^ 32 → total_allocated cs ≡ total cs
total_allocated-total [] h = refl
total_allocated-total (c ∷ cs) h = omega (arith, total_allocated-total cs (omega arith))

pub bytes_of-le : (o : Option (List ℕ)) (n : ℕ) → length (bytes_of o n) ≤ length (block_of o)
bytes_of-le none n = omega arith
bytes_of-le (some block) n = omega (arith, length-take n block)

-- A piece that is written over the beginning of a chunk.
abbrev pub written_chunk : List ℕ → Chunk → Chunk
written_chunk piece c = record c {
  memory = some (piece ++ drop (length piece) (block_of c.memory));
  chunk_length = length piece;
}

pub written_chunk-IsSound :
    (p : List ℕ) (c : Chunk)
    → IsSound c
    → length p ≤ c.allocated_length
    → chunk_size ≤ c.allocated_length
    → IsSound (written_chunk p c)
written_chunk-IsSound p c h b l = (
  omega (
    arith,
    length-append p (drop (length p) (block_of c.memory)),
    length-drop (length p) (block_of c.memory),
    h.0,
  ),
  inr l,
)
