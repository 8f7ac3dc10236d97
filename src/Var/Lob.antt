-- ===== src/Var/Lob.antt =====
-- The bytes of a LOB as the value of a variable: dpiVar__setBytesFromLob of src/dpiVar.c.
pub mod Read
mod Tests
use alpha_odpi.Prelude.{
  ℕ, ◌*◌, ◌-◌, ◌%◌, ◌^◌, List, [], ◌∷◌, ◌++◌, Option, none, some, ltb, length, take, drop, set,
  get_or, if◌then◌else◌,
}
use alpha_odpi.Error.{Result, ok, err, dpi, not_supported}
use alpha_odpi.Var.Chunks.{
  Chunk, DynamicBytes, Memory, empty_chunk, bytes_of, allocate_dynamic_bytes,
}
use alpha_odpi.Var.Bytes.{copy_to}

-- The character set of the text of a LOB, if it has text.
pub data LobKind : Type 0 where
  clob nclob binary : LobKind

-- A LOB, the bytes of a character of both character sets, and of the client the length of the LOB and
-- dpiLob__readBytes, which is given the length to read and the size of the buffer, and fills it.
pub record Lob : Type 0 where
  pub kind : LobKind
  pub max_bytes_per_character : ℕ
  pub nmax_bytes_per_character : ℕ
  pub get_length : Result ℕ
  pub read_bytes : ℕ → ℕ → Result (List ℕ)

-- `lengthInBytes`, a uint64_t.
abbrev pub length_in_bytes : Lob → LobKind → ℕ → ℕ
length_in_bytes lob clob n = n * lob.max_bytes_per_character % 2 ^ 64
length_in_bytes lob nclob n = n * lob.nmax_bytes_per_character % 2 ^ 64
length_in_bytes lob binary n = n

-- The first chunk, with the bytes that were read into it.
abbrev pub read_chunk : List ℕ → Chunk → Chunk
read_chunk value c = record c {
  memory = copy_to value c.memory;
  chunk_length = length value % 2 ^ 32;
}

-- `dynBytes->chunks->length = (uint32_t) lengthReadInBytes;`
abbrev pub with_length : ℕ → DynamicBytes → DynamicBytes × Result (List ℕ)
with_length n d =
    let c = record (get_or d.chunks 0 empty_chunk) { chunk_length = n % 2 ^ 32 } in
    (record d { chunks = set d.chunks 0 c }, ok (bytes_of c.memory c.chunk_length))

abbrev pub with_bytes : DynamicBytes → Result (List ℕ) → DynamicBytes × Result (List ℕ)
with_bytes d (err e) = (d, err e)
with_bytes d (ok value) =
    let c = read_chunk value (get_or d.chunks 0 empty_chunk) in
    (record d { chunks = set d.chunks 0 c }, ok (bytes_of c.memory c.chunk_length))

abbrev pub with_room :
    Lob → ℕ → ℕ → DynamicBytes × Result (Unit {0}) → DynamicBytes × Result (List ℕ)
with_room lob n size (d, err e) = (d, err e)
with_room lob n size (d, ok u) =
    if ltb 0 n then with_bytes d (lob.read_bytes n size) else with_length size d

abbrev pub with_lob_length : Memory → Lob → DynamicBytes → Result ℕ → DynamicBytes × Result (List ℕ)
with_lob_length m lob d (err e) = (d, err e)
with_lob_length m lob d (ok n) =
    let size = length_in_bytes lob lob.kind n in
    if ltb (2 ^ 32 - 1) size
    then (d, err (dpi not_supported))
    else with_room lob n size (allocate_dynamic_bytes m (size % 2 ^ 32) d)

-- `dpiVar__setBytesFromLob`, with the bytes that the caller is given.
unfoldable pub set_bytes_from_lob : Memory → Lob → DynamicBytes → DynamicBytes × Result (List ℕ)
unfolding allocate_dynamic_bytes
set_bytes_from_lob m lob d = with_lob_length m lob d lob.get_length
