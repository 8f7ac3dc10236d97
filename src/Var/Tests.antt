-- ===== src/Var/Tests.antt =====
-- A value that comes in three pieces, and values that are set over others.
use alpha_odpi.Prelude.{
  ℕ, Bool, ◌^◌, ◌≡◌, refl, true, false, List, [], ◌∷◌, some, length, replicate, arith,
  length-replicate, ◌∙◌, sym, ap,
}
use alpha_odpi.Error.{Result, ok, err, dpi, buffer_size_too_small}
use alpha_odpi.OracleType.{bytes_value}
use alpha_odpi.Var.Chunks.{DynamicBytes, Memory, allocate_dynamic_bytes}
use alpha_odpi.Var.Chunks.Pieces.{Supplies, Whole, receive_all, whole, whole-receive_all}
use alpha_odpi.Var.Chunks.Room.{Sizes, Roomy, allocate_dynamic_bytes-Roomy}
use alpha_odpi.Var.Bytes.{Row, Var, check_bytes, empty_row, set_from_bytes}
use alpha_odpi.Var.Bytes.Stored.{Outcome, set_from_bytes-Outcome}
use alpha_odpi.Error.{Ensures}
use alpha_odpi.Version.{check_client_version}
use alpha_odpi.OracleType.Codes.{oracle_type_varchar}
use alpha_odpi.OracleType.Table.{entry, get_from_num}
use alpha_odpi.Var.Allocate.{Request, Surroundings, NewVar, allocate_var, size_in_bytes_of}
use alpha_odpi.Var.Allocate.Width.{Made, allocate_var-Made}

abbrev zeroes : ℕ → List ℕ
zeroes n = replicate n 0

abbrev memory : Memory
memory = record { for_chunks = true; for_bytes = λ n. some (zeroes n) }

abbrev nothing_held : DynamicBytes
nothing_held = record { num_chunks = 0; allocated_chunks = 0; chunks = [] }

memory-Supplies : Supplies memory zeroes
memory-Supplies = record {
  of_chunks = refl;
  of_bytes = λ n. refl;
  sized = λ n. length-replicate n 0;
}

whole-receive_all_example : Whole (1 ∷ 2 ∷ 3 ∷ 4 ∷ []) (
    whole memory
      (receive_all memory ((1 ∷ 2 ∷ []) ∷ (3 ∷ []) ∷ (4 ∷ []) ∷ []) (nothing_held, ok tt)))
whole-receive_all_example =
    whole-receive_all memory zeroes memory-Supplies 0 nothing_held (1 ∷ 2 ∷ [])
      ((3 ∷ []) ∷ (4 ∷ []) ∷ [])
      (record {
        counted = refl;
        placed = refl;
        within = omega arith;
        received = tt;
        sound = tt;
        bounded = omega arith;
      })
      (omega arith, (omega arith, (omega arith, tt))) (omega arith)

memory-Sizes : Sizes memory
memory-Sizes = record {
  sized =
      λ n block e. let same : zeroes n ≡ block = cc in sym (ap length same) ∙ length-replicate n 0;
}

allocate_dynamic_bytes-Roomy_example :
    Roomy 70000 (allocate_dynamic_bytes memory 70000 nothing_held)
allocate_dynamic_bytes-Roomy_example =
    allocate_dynamic_bytes-Roomy memory memory-Sizes 70000 (omega arith) nothing_held
      (record { of_array = refl; of_first = refl })

-- A string of at most four bytes.
abbrev short_string : Var
short_string = record {
  native_type = bytes_value;
  type_size_in_bytes = 0;
  size_in_bytes = 4;
  has_temp_buffer = false;
  is_utf16 = false;
  max_array_size = 1;
  rows = record empty_row { memory = some (7 ∷ 7 ∷ 7 ∷ 7 ∷ []); actual_length = some 0 } ∷ [];
}

abbrev no_lob : ℕ → List ℕ → Result (Unit {0})
no_lob lob value = ok tt

abbrev rows_left : Var × Result (Unit {0}) → List Row × Result (Unit {0})
rows_left (v, r) = (v.rows, r)

five_bytes :
    rows_left
      (set_from_bytes no_lob memory (ok tt) short_string 0 (some (1 ∷ 2 ∷ 3 ∷ 4 ∷ 5 ∷ [])) 5)
    ≡ (short_string.rows, err (dpi buffer_size_too_small))
unfolding set_from_bytes
five_bytes = refl

set_from_bytes-Outcome_example :
    Outcome no_lob short_string 0
      (1 ∷ 2 ∷ 3 ∷ [])
      (check_bytes (ok tt) short_string 0 (some (1 ∷ 2 ∷ 3 ∷ [])) 3)
      (set_from_bytes no_lob memory (ok tt) short_string 0 (some (1 ∷ 2 ∷ 3 ∷ [])) 3)
set_from_bytes-Outcome_example =
    set_from_bytes-Outcome no_lob memory memory-Sizes (ok tt) short_string 0 (some (1 ∷ 2 ∷ 3 ∷ []))
      3 (refl, refl)

-- Characters of at most four bytes.
abbrev utf8 : Surroundings
utf8 = record {
  platform_size = λ t. 8;
  client_version = record { version_num = 21; release_num = 3 };
  max_bytes_per_character = 4;
  nmax_bytes_per_character = 2;
  handle_alloc = ok tt;
  object_type_check = ok tt;
  init_buffer = ok tt;
}

abbrev varchar : ℕ → Request
varchar n = record {
  oracle_type_num = oracle_type_varchar;
  native_type = bytes_value;
  max_array_size = 10;
  size = n;
  size_is_bytes = false;
  is_array = false;
}

abbrev rows_of : Result NewVar → Result (Bool × ℕ)
rows_of (ok v) = ok (v.is_dynamic, v.row_size)
rows_of (err e) = err e

many_characters : rows_of (allocate_var utf8 (varchar 20000)) ≡ ok (true, 0)
unfolding allocate_var get_from_num entry check_client_version size_in_bytes_of
many_characters = refl

-- 2^30 characters of 4 bytes count as rows of 0 bytes, which are not dynamic.
too_many_characters : rows_of (allocate_var utf8 (varchar (2 ^ 30))) ≡ ok (false, 0)
unfolding allocate_var get_from_num entry check_client_version size_in_bytes_of
too_many_characters = refl

allocate_var-Made_example : Ensures (Made utf8 (varchar 20000)) (allocate_var utf8 (varchar 20000))
allocate_var-Made_example = allocate_var-Made utf8 (varchar 20000) (omega arith) (omega arith)
