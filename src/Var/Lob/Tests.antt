-- ===== src/Var/Lob/Tests.antt =====
-- A LOB of three characters, and one that is too long for the sizes of 32 bits.
use alpha_odpi.Prelude.{
  ℕ, ◌-◌, ◌^◌, ◌≡◌, ◌≤◌, refl, sym, ap, ◌∙◌, subst, true, List, [], ◌∷◌, some, length, replicate,
  take, arith, length-replicate, length-take,
}
use alpha_odpi.Error.{ok}
use alpha_odpi.Var.Chunks.{DynamicBytes, Memory, allocate_dynamic_bytes}
use alpha_odpi.Var.Chunks.Room.{Sizes, first}
use alpha_odpi.Var.Lob.{Lob, clob, set_bytes_from_lob}
use alpha_odpi.Var.Lob.Read.{Reads, Read, set_bytes_from_lob-Read}

abbrev zeroes : ℕ → List ℕ
zeroes n = replicate n 0

abbrev memory : Memory
memory = record { for_chunks = true; for_bytes = λ n. some (zeroes n) }

memory-Sizes : Sizes memory
memory-Sizes = record {
  sized =
      λ n block e. let same : zeroes n ≡ block = cc in sym (ap length same) ∙ length-replicate n 0;
}

abbrev nothing_held : DynamicBytes
nothing_held = record { num_chunks = 0; allocated_chunks = 0; chunks = [] }

-- The text takes four bytes: its second character is one of two.
abbrev text : List ℕ
text = 65 ∷ 195 ∷ 169 ∷ 66 ∷ []

abbrev three_characters : Lob
three_characters = record {
  kind = clob;
  max_bytes_per_character = 4;
  nmax_bytes_per_character = 2;
  get_length = ok 3;
  read_bytes = λ n size. ok (take size text);
}

three_characters-Reads : Reads three_characters
three_characters-Reads = record {
  within = λ n size value e.
      let same : take size text ≡ value = cc in
      subst (λ (v : List ℕ). length v ≤ size) same (omega (arith, length-take size text));
}

-- For 2^32 - 1 bytes, no memory is asked for.
wraps : (first (allocate_dynamic_bytes memory (2 ^ 32 - 1) nothing_held).0).allocated_length ≡ 0
unfolding allocate_dynamic_bytes
wraps = refl

set_bytes_from_lob-Read_example :
    Read three_characters (set_bytes_from_lob memory three_characters nothing_held)
set_bytes_from_lob-Read_example =
    set_bytes_from_lob-Read memory memory-Sizes three_characters three_characters-Reads nothing_held
      (record { of_array = refl; of_first = refl }) (λ n e. let same : 3 ≡ n = cc in omega arith)
