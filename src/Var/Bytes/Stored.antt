-- ===== src/Var/Bytes/Stored.antt =====
-- What dpiVar_setFromBytes of src/dpiVar.c leaves: the value, or a reason.
use alpha_odpi.Prelude.{
  ℕ, ◌*◌, ◌≤◌, ◌<◌, ◌≡◌, refl, sym, ap, ◌∙◌, subst, Bool, true, false, not, ◌&&◌, ◌||◌, List,
  Option, none, some, ltb, length, take, set, get_or, if◌then◌else◌, arith, Bool-cases, inl, inr,
  length-set, length-take, get_or-set_self,
}
use alpha_odpi.Error.{
  Error, Result, ok, err, dpi, no_memory, fail_if-ok, after_ok, buffer_size_too_small,
}
use alpha_odpi.Var.Chunks.{
  Chunk, DynamicBytes, Memory, block_of, given_bytes, empty_chunk, bytes_of,
  set_bytes_from_dynamic_bytes,
}
use alpha_odpi.Var.Chunks.Received.{take-append_left}
use alpha_odpi.Var.Chunks.Room.{
  Sizes, Sized, Roomy, refused, roomy, first, allocate_dynamic_bytes-Roomy,
}
use alpha_odpi.Var.Bytes.Copy.{length-copy, copied-length, copied-take, bytes_of-copied}
use alpha_odpi.Var.Bytes.{
  Row, Var, number_as_text_chars, max_var_buffer_size, is_given, is_too_long, filled_chunk,
  filled_bytes, with_dynamic, into_buffer, in_place, set_value, empty_row, at_row, check_bytes,
  if_checked, set_from_bytes,
}

-- The room of a value that has no dynamic bytes.
abbrev pub room : Var → ℕ
room v =
    if v.has_temp_buffer
    then (if v.is_utf16 then number_as_text_chars * 2 else number_as_text_chars)
    else v.size_in_bytes

-- The memory of a row is as large as it is taken for.
abbrev pub HasRoom : Var → Row → Option DynamicBytes → Type 0
HasRoom v r (some d) = Sized d
HasRoom v r none = (is_given r.memory ≡ true) × (length (block_of r.memory) ≡ room v)

-- The chunks give the value back.
abbrev pub GivesBack : List ℕ → Option DynamicBytes → Type 0
GivesBack value none = Unit
GivesBack value (some d) =
    (m : Memory) → set_bytes_from_dynamic_bytes m d ≡ (d, ok (given_bytes value))

pub record Holds (v : Var) (value : List ℕ) (r : Row) : Type 0 where
  pub not_null : r.is_null ≡ false
  pub size : r.value_length ≡ length value
  pub holds : take (length value) (block_of r.memory) ≡ value
  pub room : HasRoom v r r.dynamic_bytes
  pub gives_back : GivesBack value r.dynamic_bytes

-- What becomes of a row without a LOB.
pub data Filled (v : Var) (value : List ℕ) (r : Row) : Row × Result (Unit {0}) → Type 0 where
  too_long :
      is_too_long v r (length value) ≡ true → Filled v value r (r, err (dpi buffer_size_too_small))
  out_of_memory :
      (d : DynamicBytes)
      → Filled v value r (record r { dynamic_bytes = some d }, err (dpi no_memory))
  filled : (r' : Row) → Holds v value r' → Filled v value r (r', ok tt)

fits_room :
    (temp utf16 : Bool) (n size : ℕ)
    → (temp && utf16 && ltb (number_as_text_chars * 2) n
        || temp && not utf16 && ltb number_as_text_chars n
        || not temp && ltb size n)
      ≡ false
    → n
      ≤ (if temp then (if utf16 then number_as_text_chars * 2 else number_as_text_chars) else size)
fits_room true true n size h = ground arith
fits_room true false n size h = ground arith
fits_room false utf16 n size h = ground arith

given_back :
    {value : List ℕ} (m : Memory) (d : DynamicBytes)
    → d.num_chunks ≡ 1
    → bytes_of (first d).memory (first d).chunk_length ≡ value
    → set_bytes_from_dynamic_bytes m d ≡ (d, ok (given_bytes value))
unfolding set_bytes_from_dynamic_bytes
given_back m d n e = rw (n, e) refl

module _ (v : Var) (value : List ℕ) where
  in_place-Holds :
      (r : Row) (o : Option (List ℕ))
      → r.memory ≡ o
      → r.dynamic_bytes ≡ none
      → is_given o ≡ true
      → length (block_of o) ≡ room v
      → length value ≤ room v
      → Holds v value (in_place v value r)
  in_place-Holds r none e n g l b = cc
  in_place-Holds r (some block) e n g l b = record {
    not_null = refl;
    size = refl;
    holds = rw e (take-append_left value _);
    room = rw (n, e) (refl, length-copy value block (omega (arith, l)) ∙ l);
    gives_back = rw n tt;
  }

  filled_bytes-Holds :
      (r : Row) (d : DynamicBytes)
      → Sized d
      → 0 < length d.chunks
      → length value ≤ (first d).allocated_length
      → Holds v value (with_dynamic value r (d, ok tt)).0
  filled_bytes-Holds r d s p b =
      let c = filled_chunk value (first d) in
      let placed : get_or (set d.chunks 0 c) 0 empty_chunk ≡ c = get_or-set_self d.chunks 0 c _ p in
      let fits : length value ≤ length (block_of (first d).memory) = omega (arith, s.of_first) in
      record {
        not_null = refl;
        size = refl;
        holds =
            subst (λ (k : Chunk). take (length value) (block_of k.memory) ≡ value) (sym placed)
              (copied-take value (first d).memory fits);
        room = record {
          of_array = length-set d.chunks 0 c ∙ s.of_array;
          of_first =
              subst (λ (k : Chunk). length (block_of k.memory) ≡ k.allocated_length) (sym placed)
                (copied-length value (first d).memory fits ∙ s.of_first);
        };
        gives_back = λ m. given_back m (filled_bytes value d) refl (
            ap (λ (k : Chunk). bytes_of k.memory k.chunk_length) placed
            ∙ bytes_of-copied value (first d).memory fits);
      }

  with_dynamic-Filled :
      (r : Row) (x : DynamicBytes × Result (Unit {0}))
      → Roomy (length value) x
      → Filled v value r (with_dynamic value r x)
  with_dynamic-Filled r _ (refused d) = out_of_memory d
  with_dynamic-Filled r _ (roomy d s p b) = filled _ (filled_bytes-Holds r d s p b)

-- What becomes of the variable: a check refuses the value, or the LOB at the position takes it, or the
-- memory there.
pub data Outcome (set_lob : ℕ → List ℕ → Result (Unit {0})) (v : Var) (pos : ℕ) (value : List ℕ)
    (checks : Result (Unit {0})) : Var × Result (Unit {0}) → Type 0 where
  refused_by : (e : Error) → checks ≡ err e → Outcome set_lob v pos value checks (v, err e)
  in_lob :
      (lob : ℕ)
      → (get_or v.rows pos empty_row).reference ≡ some lob
      → Outcome set_lob v pos value checks (
          at_row v pos
            (record (get_or v.rows pos empty_row) { is_null = false }, set_lob lob value))
  in_memory :
      (x : Row × Result (Unit {0}))
      → Filled v value (get_or v.rows pos empty_row) x
      → Outcome set_lob v pos value checks (at_row v pos x)

length-bytes_of : (o : Option (List ℕ)) (n : ℕ) → length (bytes_of o n) ≤ n
length-bytes_of none n = omega arith
length-bytes_of (some block) n = omega (arith, length-take n block)

module _ (m : Memory) (sizes : Sizes m) (v : Var) (value : List ℕ) where
  into_buffer-Filled :
      (r : Row) (o : Option DynamicBytes)
      → r.dynamic_bytes ≡ o
      → is_too_long v r (length value) ≡ false
      → length value ≤ max_var_buffer_size
      → HasRoom v r o
      → Filled v value r (into_buffer m v value r o)
  into_buffer-Filled r (some d) e f b h =
      with_dynamic-Filled v value r _
        (allocate_dynamic_bytes-Roomy m sizes (length value) (omega arith) d h)
  into_buffer-Filled r none e f b (g, l) =
      let short : length value ≤ room v =
        fits_room v.has_temp_buffer v.is_utf16 (length value) v.size_in_bytes (
          subst
            (λ (o : Option DynamicBytes).
              (v.has_temp_buffer && v.is_utf16 && ltb (number_as_text_chars * 2) (length value)
                || v.has_temp_buffer && not v.is_utf16 && ltb number_as_text_chars (length value)
                || not (is_given o) && not v.has_temp_buffer && ltb v.size_in_bytes (length value))
              ≡ false)
            e f) in
      filled _ (in_place-Holds v value r r.memory refl e g l short)

  set_value-Filled :
      (set_lob : ℕ → List ℕ → Result (Unit {0})) (r : Row)
      → length value ≤ max_var_buffer_size
      → HasRoom v r r.dynamic_bytes
      → Filled v value r (set_value set_lob m v value r none)
  set_value-Filled set_lob r b h = elim (Bool-cases (is_too_long v r (length value))) [
    | inl t ↦ rw t (too_long t)
    | inr f ↦ rw f (into_buffer-Filled r r.dynamic_bytes refl f b h)
  ]

  set_value-Outcome :
      (set_lob : ℕ → List ℕ → Result (Unit {0})) (pos : ℕ) (checks : Result (Unit {0}))
      (o : Option ℕ)
      → (get_or v.rows pos empty_row).reference ≡ o
      → length value ≤ max_var_buffer_size
      → HasRoom v (get_or v.rows pos empty_row) (get_or v.rows pos empty_row).dynamic_bytes
      → Outcome set_lob v pos value checks
          (at_row v pos (set_value set_lob m v value (get_or v.rows pos empty_row) o))
  set_value-Outcome set_lob pos checks (some lob) e b h = in_lob lob e
  set_value-Outcome set_lob pos checks none e b h =
      in_memory _ (set_value-Filled set_lob (get_or v.rows pos empty_row) b h)

check_bytes-bound :
    (started : Result (Unit {0})) (v : Var) (pos : ℕ) (value : Option (List ℕ)) (n : ℕ)
    → check_bytes started v pos value n ≡ ok tt
    → n ≤ max_var_buffer_size
check_bytes-bound started v pos value n h =
    let within : ltb max_var_buffer_size n ≡ false = fail_if-ok _ _ (after_ok _ _ h) in ground arith

module _ (set_lob : ℕ → List ℕ → Result (Unit {0})) (m : Memory) (sizes : Sizes m) where
  if_checked-Outcome :
      (v : Var) (pos : ℕ) (value : Option (List ℕ)) (n : ℕ) (checks c : Result (Unit {0}))
      → checks ≡ c
      → (c ≡ ok tt → n ≤ max_var_buffer_size)
      → HasRoom v (get_or v.rows pos empty_row) (get_or v.rows pos empty_row).dynamic_bytes
      → Outcome set_lob v pos (bytes_of value n) checks (
          if_checked c v (
            at_row v pos (
              set_value set_lob m v
                (bytes_of value n)
                (get_or v.rows pos empty_row)
                (get_or v.rows pos empty_row).reference)))
  if_checked-Outcome v pos value n checks (err e) f b h = refused_by e f
  if_checked-Outcome v pos value n checks (ok tt) f b h =
      set_value-Outcome m sizes v (bytes_of value n) set_lob pos checks _ refl
        (omega (arith, length-bytes_of value n, b refl)) h

  -- With an allocator whose blocks have the size asked for, and at the position memory as large as
  -- the variable takes it for: the call of dpiVar_setFromBytes fails as its checks do and changes
  -- nothing; or it does as the LOB at the position does, if there is one; or it fails because the
  -- value is too long for the variable, and changes nothing, or because there is no memory; or it
  -- succeeds and the value at the position is not NULL, has the bytes and the length given, its
  -- memory is as large as before it is taken for, and dynamic bytes give the value back.
  pub set_from_bytes-Outcome :
      (started : Result (Unit {0})) (v : Var) (pos : ℕ) (value : Option (List ℕ)) (n : ℕ)
      → HasRoom v (get_or v.rows pos empty_row) (get_or v.rows pos empty_row).dynamic_bytes
      → Outcome set_lob v pos
          (bytes_of value n)
          (check_bytes started v pos value n)
          (set_from_bytes set_lob m started v pos value n)
  unfolding set_from_bytes
  set_from_bytes-Outcome started v pos value n h =
      if_checked-Outcome v pos value n _ _ refl (check_bytes-bound started v pos value n) h
