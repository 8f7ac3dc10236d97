-- ===== src/Var/Chunks.antt =====
-- Bytes of a length that is not known before, which the client writes into chunks: dpiDynamicBytes of
-- src/dpiImpl.h and the functions of src/dpiVar.c on them.
pub mod Sound
pub mod Received
pub mod Pieces
pub mod Room
use alpha_odpi.Prelude.{
  ℕ, ◌+◌, ◌-◌, ◌*◌, ◌/◌, ◌%◌, ◌^◌, Bool, true, false, List, [], ◌∷◌, ◌++◌, Option, none, some, ◌==◌,
  ltb, length, take, drop, set, get_or, replicate, if◌then◌else◌,
}
use alpha_odpi.Error.{Result, ok, err, dpi, no_memory}

-- `DPI_DYNAMIC_BYTES_CHUNK_SIZE`
abbrev pub chunk_size : ℕ
chunk_size = 65536

-- `dpiDynamicBytesChunk`, with the memory at `ptr`.
pub record Chunk : Type 0 where
  pub memory : Option (List ℕ)
  pub chunk_length : ℕ
  pub allocated_length : ℕ

-- `dpiDynamicBytes`
pub record DynamicBytes : Type 0 where
  pub num_chunks : ℕ
  pub allocated_chunks : ℕ
  pub chunks : List Chunk

-- The allocator: whether there is memory for an array of chunks, and blocks of bytes.
pub record Memory : Type 0 where
  pub for_chunks : Bool
  pub for_bytes : ℕ → Option (List ℕ)

abbrev pub empty_chunk : Chunk
empty_chunk = record { memory = none; chunk_length = 0; allocated_length = 0 }

-- `dpiVar__allocateChunks`
abbrev pub allocate_chunks : Memory → DynamicBytes → DynamicBytes × Result (Unit {0})
allocate_chunks m d =
    let n = (d.allocated_chunks + 8) % 2 ^ 32 in
    if m.for_chunks
    then (
      record d {
        chunks = take d.num_chunks d.chunks ++ replicate (n - d.num_chunks) empty_chunk;
        allocated_chunks = n;
      },
      ok tt,
    )
    else (d, err (dpi no_memory))

abbrev pub with_block : ℕ → Option (List ℕ) → Chunk → Chunk × Result (Unit {0})
with_block n none c = (record c { memory = none; allocated_length = n }, err (dpi no_memory))
with_block n (some block) c = (record c { memory = some block; allocated_length = n }, ok tt)

-- `(size + DPI_DYNAMIC_BYTES_CHUNK_SIZE - 1) & ~(DPI_DYNAMIC_BYTES_CHUNK_SIZE - 1)` of a uint32_t.
abbrev pub rounded_up : ℕ → ℕ
rounded_up size = (size + (chunk_size - 1)) % 2 ^ 32 / chunk_size * chunk_size

-- What is done to the chunk at place `i`.
abbrev pub at_chunk :
    ℕ → DynamicBytes → Chunk × Result (Unit {0}) → DynamicBytes × Result (Unit {0})
at_chunk i d (c, r) = (record d { chunks = set d.chunks i c }, r)

abbrev pub sized_chunk : Memory → ℕ → Chunk → Chunk × Result (Unit {0})
sized_chunk m size c =
    if ltb c.allocated_length size
    then with_block (rounded_up size) (m.for_bytes (rounded_up size)) c
    else (c, ok tt)

abbrev pub size_first :
    Memory → ℕ → DynamicBytes × Result (Unit {0}) → DynamicBytes × Result (Unit {0})
size_first m size (d, err e) = (d, err e)
size_first m size (d, ok u) = at_chunk 0 d (sized_chunk m size (get_or d.chunks 0 empty_chunk))

-- `dpiVar__allocateDynamicBytes`
unfoldable pub allocate_dynamic_bytes : Memory → ℕ → DynamicBytes → DynamicBytes × Result (Unit {0})
allocate_dynamic_bytes m size d =
    let d' = record d { num_chunks = 0 } in
    size_first m size (if d.allocated_chunks == 0 then allocate_chunks m d' else (d', ok tt))

-- The chunk that a callback gives to the client, and its length.
abbrev pub new_chunk : Memory → Option (List ℕ) → Chunk → Chunk × Result (Unit {0})
new_chunk m none c = with_block chunk_size (m.for_bytes chunk_size) c
new_chunk m (some block) c = (c, ok tt)

abbrev pub given_chunk : DynamicBytes → Chunk × Result (Unit {0}) → DynamicBytes × Result (Unit {0})
given_chunk d (c, err e) = (record d { chunks = set d.chunks d.num_chunks c }, err e)
given_chunk d (c, ok u) = (
  record d {
    num_chunks = (d.num_chunks + 1) % 2 ^ 32;
    chunks = set d.chunks d.num_chunks (record c { chunk_length = c.allocated_length });
  },
  ok tt,
)

abbrev pub next_chunk : Memory → DynamicBytes × Result (Unit {0}) → DynamicBytes × Result (Unit {0})
next_chunk m (d, err e) = (d, err e)
next_chunk m (d, ok u) =
    let c = get_or d.chunks d.num_chunks empty_chunk in given_chunk d (new_chunk m c.memory c)

-- `dpiVar__defineCallback`: the client is given the last chunk, in which it writes.
unfoldable pub define_callback : Memory → DynamicBytes → DynamicBytes × Result (Unit {0})
define_callback m d =
    next_chunk m (if d.num_chunks == d.allocated_chunks then allocate_chunks m d else (d, ok tt))

abbrev pub block_of : Option (List ℕ) → List ℕ
block_of none = []
block_of (some block) = block

-- The bytes of a block up to a length.
abbrev pub bytes_of : Option (List ℕ) → ℕ → List ℕ
bytes_of none n = []
bytes_of (some block) n = take n block

-- `determine total allocated size of all chunks`
abbrev pub total_allocated : List Chunk → ℕ
total_allocated [] = 0
total_allocated (c ∷ cs) = (total_allocated cs + c.allocated_length) % 2 ^ 32

-- `copy memory from chunks to consolidated chunk`
abbrev pub all_bytes : List Chunk → List ℕ
all_bytes [] = []
all_bytes (c ∷ cs) = bytes_of c.memory c.chunk_length ++ all_bytes cs

-- What a caller is given: the bytes; or nothing that is defined, after a copy that has run past the end
-- of its block.
pub data Given : Type 0 where
  given_bytes : List ℕ → Given
  overrun : Given

abbrev pub consolidated : DynamicBytes → ℕ → Option (List ℕ) → DynamicBytes × Result Given
consolidated d n none = (d, err (dpi no_memory))
consolidated d n (some block) =
    let bytes = all_bytes (take d.num_chunks d.chunks) in
    let emptied = replicate d.num_chunks empty_chunk ++ drop d.num_chunks d.chunks in
    if ltb (length block) (length bytes) then (d, ok overrun) else (
      record d {
        num_chunks = 1;
        chunks = set emptied 0 (record {
          memory = some (bytes ++ drop (length bytes) block);
          chunk_length = length bytes;
          allocated_length = n;
        });
      },
      ok (given_bytes bytes),
    )

-- `dpiVar__setBytesFromDynamicBytes`, with the bytes that the caller is given.
unfoldable pub set_bytes_from_dynamic_bytes : Memory → DynamicBytes → DynamicBytes × Result Given
set_bytes_from_dynamic_bytes m d =
    if d.num_chunks == 1
    then (let c = get_or d.chunks 0 empty_chunk in
        (d, ok (given_bytes (bytes_of c.memory c.chunk_length))))
    else (let n = total_allocated (take d.num_chunks d.chunks) in consolidated d n (m.for_bytes n))
