-- ===== src/Var/Lob/Read.antt =====
-- What dpiVar__setBytesFromLob of src/dpiVar.c reads, and where to.
use alpha_odpi.Prelude.{
  ℕ, ◌-◌, ◌%◌, ◌^◌, ◌≤◌, ◌<◌, ◌≡◌, refl, sym, ap, ◌∙◌, subst, false, List, [], Option, none, some,
  ltb, length, set, get_or, arith, Bool-cases, inl, inr, length-set, get_or-set_self,
}
use alpha_odpi.Error.{Error, Result, ok, err, dpi, no_memory}
use alpha_odpi.Var.Chunks.{Chunk, DynamicBytes, Memory, block_of, empty_chunk, bytes_of, chunk_size}
use alpha_odpi.Var.Chunks.Room.{
  Sizes, Sized, Roomy, refused, roomy, first, allocate_dynamic_bytes-Roomy,
}
use alpha_odpi.Var.Bytes.{copy_to}
use alpha_odpi.Var.Bytes.Copy.{copied-length, bytes_of-copied}
use alpha_odpi.Var.Lob.{
  LobKind, clob, nclob, binary, Lob, length_in_bytes, read_chunk, with_length, with_bytes,
  with_room, with_lob_length, set_bytes_from_lob,
}

-- The client reads no more than the size that it is given.
pub record Reads (lob : Lob) : Type 0 where
  pub within :
      (n size : ℕ) (value : List ℕ) → lob.read_bytes n size ≡ ok value → length value ≤ size

-- An error; or an empty value; or the bytes that the client has read, in memory that has room for them.
pub data Read (lob : Lob) : DynamicBytes × Result (List ℕ) → Type 0 where
  failed : (d : DynamicBytes) (e : Error) → Read lob (d, err e)
  empty : (d : DynamicBytes) → lob.get_length ≡ ok 0 → Sized d → Read lob (d, ok [])
  filled :
      (d : DynamicBytes) (n : ℕ) (value : List ℕ)
      → lob.get_length ≡ ok n
      → lob.read_bytes n (length_in_bytes lob lob.kind n) ≡ ok value
      → length value ≤ length (block_of (first d).memory)
      → bytes_of (first d).memory (first d).chunk_length ≡ value
      → Sized d
      → Read lob (d, ok value)

no_bytes : (o : Option (List ℕ)) → bytes_of o 0 ≡ []
no_bytes none = refl
no_bytes (some block) = refl

length_in_bytes-zero : (lob : Lob) (kind : LobKind) → length_in_bytes lob kind 0 ≡ 0
length_in_bytes-zero lob clob = omega arith
length_in_bytes-zero lob nclob = omega arith
length_in_bytes-zero lob binary = refl

module _ (m : Memory) (sizes : Sizes m) (lob : Lob) (reads : Reads lob) where
  filled-Read :
      (d : DynamicBytes) (n : ℕ) (r : Result (List ℕ))
      → lob.get_length ≡ ok n
      → lob.read_bytes n (length_in_bytes lob lob.kind n) ≡ r
      → Sized d
      → 0 < length d.chunks
      → length_in_bytes lob lob.kind n ≤ (first d).allocated_length
      → length_in_bytes lob lob.kind n < 2 ^ 32
      → Read lob (with_bytes d r)
  filled-Read d n (err e) f g s p b l = failed d e
  filled-Read d n (ok value) f g s p b l =
      let c = read_chunk value (first d) in
      let placed : get_or (set d.chunks 0 c) 0 empty_chunk ≡ c = get_or-set_self d.chunks 0 c _ p in
      let short = reads.within n (length_in_bytes lob lob.kind n) value g in
      let fits : length value ≤ length (block_of (first d).memory) = omega (arith, s.of_first) in
      let size : length value % 2 ^ 32 ≡ length value = omega arith in
      let given : bytes_of (copy_to value (first d).memory) (length value % 2 ^ 32) ≡ value =
        ap (bytes_of (copy_to value (first d).memory)) size
        ∙ bytes_of-copied value (first d).memory fits in
      subst (λ (v : List ℕ). Read lob (record d { chunks = set d.chunks 0 c }, ok v)) (sym given)
        (filled (record d { chunks = set d.chunks 0 c }) n value f g
          (subst (λ (k : Chunk). length value ≤ length (block_of k.memory)) (sym placed)
            (omega (arith, copied-length value (first d).memory fits)))
          (subst (λ (k : Chunk). bytes_of k.memory k.chunk_length ≡ value) (sym placed) given)
          (record {
            of_array = length-set d.chunks 0 c ∙ s.of_array;
            of_first =
                subst (λ (k : Chunk). length (block_of k.memory) ≡ k.allocated_length) (sym placed)
                  (copied-length value (first d).memory fits ∙ s.of_first);
          }))

  -- No bytes are read of a LOB of length 0.
  empty-Read :
      (d : DynamicBytes) (size : ℕ)
      → lob.get_length ≡ ok 0
      → size ≡ 0
      → Sized d
      → 0 < length d.chunks
      → Read lob (with_length size d)
  empty-Read d size f z s p =
      let c = record (first d) { chunk_length = size % 2 ^ 32 } in
      let placed : get_or (set d.chunks 0 c) 0 empty_chunk ≡ c = get_or-set_self d.chunks 0 c _ p in
      let none_read : bytes_of (first d).memory (size % 2 ^ 32) ≡ [] =
        ap (λ n. bytes_of (first d).memory (n % 2 ^ 32)) z ∙ no_bytes (first d).memory in
      subst (λ (v : List ℕ). Read lob (record d { chunks = set d.chunks 0 c }, ok v))
        (sym none_read)
        (empty (record d { chunks = set d.chunks 0 c }) f
          (record {
            of_array = length-set d.chunks 0 c ∙ s.of_array;
            of_first =
                subst (λ (k : Chunk). length (block_of k.memory) ≡ k.allocated_length) (sym placed)
                  s.of_first;
          }))

  with_room-Read :
      (n : ℕ) (x : DynamicBytes × Result (Unit {0}))
      → lob.get_length ≡ ok n
      → length_in_bytes lob lob.kind n < 2 ^ 32
      → Roomy (length_in_bytes lob lob.kind n) x
      → Read lob (with_room lob n (length_in_bytes lob lob.kind n) x)
  with_room-Read n _ f l (refused d) = failed d (dpi no_memory)
  with_room-Read n _ f l (roomy d s p b) = elim (Bool-cases (ltb 0 n)) [
    | inl t ↦ rw t (filled-Read d n _ f refl s p b l)
    | inr t ↦
        let z : n ≡ 0 = ground arith in
        rw t (
          empty-Read d _ (f ∙ ap ok z)
            (ap (length_in_bytes lob lob.kind) z ∙ length_in_bytes-zero lob lob.kind) s p)
  ]

  with_lob_length-Read :
      (d : DynamicBytes) (r : Result ℕ)
      → lob.get_length ≡ r
      → Sized d
      → ((n : ℕ) → r ≡ ok n → length_in_bytes lob lob.kind n ≤ 2 ^ 32 - chunk_size)
      → Read lob (with_lob_length m lob d r)
  with_lob_length-Read d (err e) f s k = failed d e
  with_lob_length-Read d (ok n) f s k =
      let size = length_in_bytes lob lob.kind n in
      let few : size ≤ 2 ^ 32 - chunk_size = k n refl in
      let same : size % 2 ^ 32 ≡ size = omega arith in
      let within : ltb (2 ^ 32 - 1) size ≡ false = ground arith in
      rw (within, same)
        (with_room-Read n _ f (omega arith) (allocate_dynamic_bytes-Roomy m sizes size few d s))

  -- With an allocator whose blocks have the size asked for, chunks that are as large as they say, a
  -- client that reads no more bytes than the size it is given, and a LOB of which all characters,
  -- each of the most bytes that it may have, take at most 2^32 - 65536 bytes: the call fails; or
  -- the LOB is empty, and so is the value; or the value is what the client reads of the LOB for its
  -- whole length, the first chunk holds it, and the memory of this chunk has room for it.
  pub set_bytes_from_lob-Read :
      (d : DynamicBytes)
      → Sized d
      → ((n : ℕ) → lob.get_length ≡ ok n → length_in_bytes lob lob.kind n ≤ 2 ^ 32 - chunk_size)
      → Read lob (set_bytes_from_lob m lob d)
  unfolding set_bytes_from_lob
  set_bytes_from_lob-Read d s k = with_lob_length-Read d lob.get_length refl s k
