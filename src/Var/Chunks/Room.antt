-- ===== src/Var/Chunks/Room.antt =====
-- The room that dpiVar__allocateDynamicBytes of src/dpiVar.c makes for a value.
use alpha_odpi.Prelude.{
  ℕ, zero, suc, ◌+◌, ◌-◌, ◌%◌, ◌^◌, ◌≤◌, ◌<◌, ◌≡◌, refl, sym, ◌∙◌, subst, List, [], ◌∷◌, Option,
  none, some, ◌==◌, ltb, length, get_or, set, replicate, arith, Bool-cases, inl, inr, length-set,
  length-replicate, get_or-set_self,
}
use alpha_odpi.Error.{Result, ok, err, dpi, no_memory}
use alpha_odpi.Var.Chunks.{
  Chunk, DynamicBytes, Memory, block_of, empty_chunk, allocate_chunks, with_block, chunk_size,
  rounded_up, at_chunk, size_first, allocate_dynamic_bytes,
}

-- A block has the size that it is asked with.
pub record Sizes (m : Memory) : Type 0 where
  pub sized : (n : ℕ) (block : List ℕ) → m.for_bytes n ≡ some block → length block ≡ n

abbrev pub first : DynamicBytes → Chunk
first d = get_or d.chunks 0 empty_chunk

-- The first chunk is as large as it says, and the array of chunks too.
pub record Sized (d : DynamicBytes) : Type 0 where
  pub of_array : length d.chunks ≡ d.allocated_chunks
  pub of_first : length (block_of (first d).memory) ≡ (first d).allocated_length

-- There is no memory, or there is room for `size` bytes in the first chunk.
pub data Roomy (size : ℕ) : DynamicBytes × Result (Unit {0}) → Type 0 where
  refused : (d : DynamicBytes) → Roomy size (d, err (dpi no_memory))
  roomy :
      (d : DynamicBytes)
      → Sized d
      → 0 < length d.chunks
      → size ≤ (first d).allocated_length
      → Roomy size (d, ok tt)

set-get_or_first : (cs : List Chunk) → set cs 0 (get_or cs 0 empty_chunk) ≡ cs
set-get_or_first [] = refl
set-get_or_first (c ∷ cs) = refl

get_or-replicate : (n : ℕ) → get_or (replicate n empty_chunk) 0 empty_chunk ≡ empty_chunk
get_or-replicate zero = refl
get_or-replicate (suc n) = refl

-- A multiple of the size of a chunk is not less than the number that is rounded.
rounded_up-ge : (size : ℕ) → size ≤ 2 ^ 32 - chunk_size → size ≤ rounded_up size
rounded_up-ge size h = omega arith

module _ (m : Memory) (sizes : Sizes m) (size : ℕ) (bound : size ≤ 2 ^ 32 - chunk_size) where
  with_block-Roomy :
      (d : DynamicBytes) (c : Chunk) (o : Option (List ℕ))
      → m.for_bytes (rounded_up size) ≡ o
      → length d.chunks ≡ d.allocated_chunks
      → 0 < length d.chunks
      → Roomy size (at_chunk 0 d (with_block (rounded_up size) o c))
  with_block-Roomy d c none e l p = refused _
  with_block-Roomy d c (some block) e l p =
      let c' = record c { memory = some block; allocated_length = rounded_up size } in
      let placed : get_or (set d.chunks 0 c') 0 empty_chunk ≡ c' =
        get_or-set_self d.chunks 0 _ _ p in
      let same : length (set d.chunks 0 c') ≡ length d.chunks = length-set d.chunks 0 _ in
      roomy _
        (record {
          of_array = same ∙ l;
          of_first =
              subst (λ (k : Chunk). length (block_of k.memory) ≡ k.allocated_length) (sym placed)
                (sizes.sized _ block e);
        })
        (omega arith)
        (subst (λ (k : Chunk). size ≤ k.allocated_length) (sym placed) (rounded_up-ge size bound))

  size_first-Roomy :
      (d : DynamicBytes) → Sized d → 0 < length d.chunks → Roomy size (size_first m size (d, ok tt))
  size_first-Roomy d s p = elim (Bool-cases (ltb (first d).allocated_length size)) [
    | inl t ↦ rw t (with_block-Roomy d (first d) _ refl s.of_array p)
    | inr f ↦ rw f (
        subst (λ (cs : List Chunk). Roomy size (record d { chunks = cs }, ok tt))
          (sym (set-get_or_first d.chunks)) (roomy d s p (ground arith)))
  ]

  allocate_chunks-Roomy :
      (d : DynamicBytes)
      → d.allocated_chunks ≡ 0
      → Roomy size (size_first m size (allocate_chunks m (record d { num_chunks = 0 })))
  allocate_chunks-Roomy d e =
      let n = (d.allocated_chunks + 8) % 2 ^ 32 in
      let many : length (replicate (n - 0) empty_chunk) ≡ n =
        length-replicate (n - 0) empty_chunk ∙ omega arith in
      elim (Bool-cases m.for_chunks) [
        | inl t ↦ rw t (
            size_first-Roomy _
              (record {
                of_array = many;
                of_first =
                    subst (λ (k : Chunk). length (block_of k.memory) ≡ k.allocated_length)
                      (sym (get_or-replicate (n - 0))) refl;
              })
              (omega (arith, many)))
        | inr f ↦ rw f (refused _)
      ]

  -- For a size of at most 2^32 - 65536, with an allocator whose blocks have the size asked for, and
  -- chunks that are as large as they say: the call fails for want of memory, or it succeeds and
  -- there is a first chunk as large as it says, with room for the size.
  pub allocate_dynamic_bytes-Roomy :
      (d : DynamicBytes) → Sized d → Roomy size (allocate_dynamic_bytes m size d)
  unfolding allocate_dynamic_bytes
  allocate_dynamic_bytes-Roomy d s = elim (Bool-cases (d.allocated_chunks == 0)) [
    | inl t ↦ rw t (allocate_chunks-Roomy d (ground arith))
    | inr f ↦ rw f (
        size_first-Roomy _ (record { of_array = s.of_array; of_first = s.of_first })
          (ground (arith, s.of_array)))
  ]
