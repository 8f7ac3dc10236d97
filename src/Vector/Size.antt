-- ===== src/Vector/Size.antt =====
-- The size of the memory in which a vector keeps its values: src/dpiVector.c.
use alpha_odpi.Prelude.{
  ℕ, ◌+◌, ◌*◌, ◌/◌, ◌≤◌, ◌≡◌, refl, sym, ap, ◌∙◌, subst, inl, inr, Bool, true, false, List, Option,
  some, none, ◌==◌, if◌then◌else◌, length, arith, Bool-cases,
}
use alpha_odpi.Error.{Result, ok, err}
use alpha_odpi.Vector.{
  Vector, VectorInfo, VectorClient, Memory, Step, ◌after◌, ◌then◌, load, get_vector_value, buffer,
  num_elements, size_of_format, format_float32, format_float64, format_int8, format_binary,
  read_attr, sized, read_format, read_dimension, set_size, read_property, read_sparse_dimension,
  has_indices, allocate_indices, prepare_sparse, load_values, load_sparse, load_property, load_size,
  load_dimension, populate, vector_to_array, vector_to_sparse_array, to_sparse, load_missing,
  has_dimensions,
}
use alpha_odpi.Vector.Cache.{with_info-ok}

-- The bits of a value in a format.
abbrev pub bits_of : ℕ → ℕ
bits_of format =
    if format == format_float32
    then 32
    else (if format == format_float64 then 64 else (if format == format_int8 then 8 else 1))

-- The bytes that the values take: in a dense vector bits are packed, in a sparse one a value takes whole
-- bytes.
abbrev pub bytes_needed : Bool → ℕ → ℕ → ℕ → ℕ
bytes_needed true format n m = m * ((bits_of format + 7) / 8)
bytes_needed false format n m = n * bits_of format / 8

-- The allocator gives memory of the size that is asked for.
pub record Allocates (memory : Memory) : Type 0 where
  pub indices_size :
      (members : ℕ) (block : List ℕ)
      → memory.for_indices members ≡ some block
      → length block ≡ members
  pub dimensions_size :
      (members size : ℕ) (block : List ℕ)
      → memory.for_dimensions members size ≡ some block
      → length block ≡ members * size

-- The client writes within memory in which the values have room, and keeps the counts that it told.
pub record Writes {V : Type 0} (client : VectorClient V) : Type 0 where
  pub array_size :
      (v : V) (format n : ℕ) (block : List ℕ)
      → bytes_needed false format n 0 ≤ length block
      → ((client.to_array v format n block).0.0 ≡ n)
        × (length (client.to_array v format n block).0.1 ≡ length block)
  pub sparse_size :
      (v : V) (format n m : ℕ) (indices block : List ℕ)
      → m ≤ length indices
      → bytes_needed true format n m ≤ length block
      → ((client.to_sparse_array v format n m indices block).0.0 ≡ m)
        × (length (client.to_sparse_array v format n m indices block).0.2 ≡ length block)

distinct_tests : true ≡ false → ⊥
distinct_tests e = cc

abbrev elements : Bool → ℕ → ℕ → ℕ → ℕ
elements sparse format n m = if sparse then m else (if format == format_binary then n / 8 else n)

-- Values of a known size.
abbrev HasRoom : ℕ → ℕ → Type 0
HasRoom format size =
    (sparse : Bool) (n m : ℕ) → elements sparse format n m * size ≡ bytes_needed sparse format n m

float32_room : HasRoom format_float32 4
float32_room true n m = omega arith
float32_room false n m = omega arith

float64_room : HasRoom format_float64 8
float64_room true n m = omega arith
float64_room false n m = omega arith

int8_room : HasRoom format_int8 1
int8_room true n m = omega arith
int8_room false n m = omega arith

binary_room : HasRoom format_binary 1
binary_room true n m = omega arith
binary_room false n m = omega arith

of_format :
    (format k n size : ℕ)
    → format ≡ k
    → size_of_format k ≡ some n
    → HasRoom k n
    → size_of_format format ≡ some size
    → HasRoom format size
of_format format k n size e s r h =
    let same : ◌≡◌ {A = Option ℕ} (some n) (some size) = sym s ∙ ap size_of_format (sym e) ∙ h in
    let k' : n ≡ size = cc in subst (λ f. HasRoom f size) (sym e) (subst (λ z. HasRoom k z) k' r)

format-HasRoom : (format size : ℕ) → size_of_format format ≡ some size → HasRoom format size
format-HasRoom format size h = elim (Bool-cases (format == format_binary)) [
  | inl t ↦ of_format format format_binary 1 size (ground arith) refl binary_room h
  | inr a ↦ elim (Bool-cases (format == format_float32)) [
    | inl t ↦ of_format format format_float32 4 size (ground arith) refl float32_room h
    | inr b ↦ elim (Bool-cases (format == format_float64)) [
      | inl t ↦ of_format format format_float64 8 size (ground arith) refl float64_room h
      | inr c ↦ elim (Bool-cases (format == format_int8)) [
        | inl t ↦ of_format format format_int8 1 size (ground arith) refl int8_room h
        | inr d ↦
            let unknown : size_of_format format ≡ none = rw (a, b, c, d) refl in
            let absent : ◌≡◌ {A = Option ℕ} none (some size) = sym unknown ∙ h in
            absurd (none_some absent)
      ]
    ]
  ]
]
  where
    none_some : {n : ℕ} → ◌≡◌ {A = Option ℕ} none (some n) → ⊥
    none_some e = cc

module _ {V : Type 0} where
  abbrev needed : Vector V → ℕ
  needed v = bytes_needed v.is_sparse v.format v.num_dimensions v.num_sparse_values

  -- The memory has room for every value, and no more.
  abbrev FitsValues : Vector V → Type 0
  FitsValues v = length (buffer v.dimensions) ≡ needed v

  -- The size of a value is that of the format.
  abbrev HasSize : Vector V → Type 0
  HasSize v = size_of_format v.format ≡ some v.dimension_size

  -- There is an index for every value of a sparse vector.
  record IsPrepared (v : Vector V) : Type 0 where
    size : HasSize v
    indices : v.is_sparse ≡ true → length (buffer v.sparse_indices) ≡ v.num_sparse_values

  after-ok :
      (g : Step V) (Q R : Vector V → Type 0) (x : Vector V × Result (Unit {0}))
      → (x.1 ≡ ok tt → Q x.0)
      → ((w : Vector V) → Q w → (g w).1 ≡ ok tt → R (g w).0)
      → (g after x).1 ≡ ok tt
      → R (g after x).0
  after-ok g Q R (v, ok tt) q h e = h v (q refl) e
  after-ok g Q R (v, err x) q h e = cc

  elements-needed : (v : Vector V) → HasSize v → num_elements v * v.dimension_size ≡ needed v
  elements-needed v h =
      format-HasRoom v.format v.dimension_size h v.is_sparse v.num_dimensions v.num_sparse_values

  sized-HasSize :
      (o : Option ℕ) (v : Vector V)
      → size_of_format v.format ≡ o
      → (sized o v).1 ≡ ok tt
      → HasSize (sized o v).0
  sized-HasSize none v f e = cc
  sized-HasSize (some n) v f e = f

  read_attr-keeps :
      (P : Vector V → Type 0) (r : Result ℕ) (store : ℕ → Vector V) (v : Vector V)
      → ((n : ℕ) → P (store n))
      → (read_attr r store v).1 ≡ ok tt
      → P (read_attr r store v).0
  read_attr-keeps P (ok n) store v h e = h n
  read_attr-keeps P (err x) store v h e = cc

  module _ (client : VectorClient V) (memory : Memory) (writes : Writes client)
      (allocates : Allocates memory) where
    abbrev Keeps : Vector V → Vector V × Result (Unit {0}) → Type 0
    Keeps v r = r.1 ≡ ok tt → FitsValues r.0

    array-Keeps :
        (v : Vector V)
        → v.is_sparse ≡ false
        → FitsValues v
        → Keeps v (vector_to_array client memory v)
    array-Keeps v t h e =
        let dense : needed v ≡ bytes_needed false v.format v.num_dimensions 0 =
          ap (λ b. bytes_needed b v.format v.num_dimensions v.num_sparse_values) t in
        let (m, n) =
          writes.array_size v.handle v.format v.num_dimensions (buffer v.dimensions)
            (omega (arith, h, dense)) in
        rw (m, n) h

    sparse-Keeps :
        (v : Vector V) (r : Result (Unit {0}))
        → v.is_sparse ≡ true
        → IsPrepared v
        → FitsValues v
        → Keeps v (to_sparse client memory after (v, r))
    sparse-Keeps v (err x) t p h e = cc
    sparse-Keeps v (ok tt) t p h e =
        let dense : needed v ≡ bytes_needed true v.format v.num_dimensions v.num_sparse_values =
          ap (λ b. bytes_needed b v.format v.num_dimensions v.num_sparse_values) t in
        let (m, n) =
          writes.sparse_size v.handle v.format v.num_dimensions v.num_sparse_values
            (buffer v.sparse_indices) (buffer v.dimensions) (omega (arith, p.indices t))
            (omega (arith, h, dense)) in
        rw (m, n) h

    populate-Keeps :
        (v : Vector V) → IsPrepared v → FitsValues v → Keeps v (populate client memory v)
    populate-Keeps v p h = choose v.is_sparse refl
      where
        choose :
            (t : Bool)
            → v.is_sparse ≡ t
            → Keeps v (
                if t
                then vector_to_sparse_array client memory v
                else vector_to_array client memory v)
        choose true e = sparse-Keeps v _ e p h
        choose false e = array-Keeps v e h

    allocated-Keeps :
        (v : Vector V) (block : Option (List ℕ))
        → IsPrepared v
        → memory.for_dimensions (num_elements v) v.dimension_size ≡ block
        → Keeps v (populate client memory after has_dimensions block v)
    allocated-Keeps v none p e h = cc
    allocated-Keeps v (some block) p e h =
        populate-Keeps (record v { dimensions = some block })
          (record { size = p.size; indices = p.indices })
          (allocates.dimensions_size _ _ block e ∙ elements-needed v p.size) h

    has_indices-IsPrepared :
        (v : Vector V) (block : Option (List ℕ))
        → HasSize v
        → memory.for_indices v.num_sparse_values ≡ block
        → (has_indices block v).1 ≡ ok tt
        → IsPrepared (has_indices block v).0
    has_indices-IsPrepared v none s e h = cc
    has_indices-IsPrepared v (some block) s e h = record {
      size = s;
      indices = λ t. allocates.indices_size _ block e;
    }

    prepare_sparse-IsPrepared :
        (v : Vector V)
        → HasSize v
        → (prepare_sparse client memory v).1 ≡ ok tt
        → IsPrepared (prepare_sparse client memory v).0
    prepare_sparse-IsPrepared v s = choose v.is_sparse refl
      where
        no_indices : Vector V
        no_indices = record v { num_sparse_values = 0; sparse_indices = none }

        prepared : Bool → Vector V × Result (Unit {0})
        prepared t =
            if t
            then (allocate_indices client memory after read_sparse_dimension client memory v)
            else (no_indices, ok tt)

        choose : (t : Bool) → v.is_sparse ≡ t → (prepared t).1 ≡ ok tt → IsPrepared (prepared t).0
        choose true e h =
            after-ok (allocate_indices client memory) HasSize IsPrepared
              (read_sparse_dimension client memory v)
              (read_attr-keeps HasSize (client.sparse_dimension v.handle) _ v (λ n. s))
              (λ w q. has_indices-IsPrepared w _ q refl) h
        choose false e h = record {
          size = s;
          indices = λ t. let both : true ≡ false = sym t ∙ e in absurd (distinct_tests both);
        }

    load_sparse-Keeps : (v : Vector V) → HasSize v → Keeps v (load_sparse client memory v)
    load_sparse-Keeps v s =
        after-ok (load_values client memory) IsPrepared FitsValues (prepare_sparse client memory v)
          (prepare_sparse-IsPrepared v s) (λ w p. allocated-Keeps w _ p refl)

    load_property-Keeps : (v : Vector V) → HasSize v → Keeps v (load_property client memory v)
    load_property-Keeps v s =
        after-ok (load_sparse client memory) HasSize FitsValues (read_property client memory v)
          (read_attr-keeps HasSize (client.property v.handle) _ v (λ n. s)) load_sparse-Keeps

    load_size-Keeps : (v : Vector V) → Keeps v (load_size client memory v)
    load_size-Keeps v =
        after-ok (load_property client memory) HasSize FitsValues (set_size client memory v)
          (sized-HasSize (size_of_format v.format) v refl) load_property-Keeps

    load_dimension-Keeps : (v : Vector V) → Keeps v (load_dimension client memory v)
    load_dimension-Keeps v =
        after-ok (load_size client memory) (λ _. Unit) FitsValues (read_dimension client memory v)
          (λ _. tt) (λ w _. load_size-Keeps w)

    load-Keeps : (v : Vector V) → Keeps v (load client memory v)
    unfolding load
    load-Keeps v =
        after-ok (load_dimension client memory) (λ _. Unit) FitsValues (read_format client memory v)
          (λ _. tt) (λ w _. load_dimension-Keeps w)

    -- When a vector whose values are not kept yet is read, the memory that is asked for has exactly
    -- the bytes that its values need: in a dense vector the bits of each value by its format,
    -- packed, and in a sparse one whole bytes for each value that is stored. The allocator gives
    -- the size asked for; the client is only relied on where the values, and in a sparse vector the
    -- indices, have room in what it is given.
    pub get_vector_value-Fits :
        (v v' : Vector V) (info : VectorInfo)
        → v.dimensions ≡ none
        → get_vector_value client memory v ≡ (v', ok info)
        → length (buffer info.dimensions)
          ≡ bytes_needed info.is_sparse info.format info.num_dimensions info.num_sparse_values
    unfolding get_vector_value
    get_vector_value-Fits v v' info n e =
        let (r, same) =
          with_info-ok client memory (load_missing client memory v.dimensions v) v' info e in
        let loaded : load client memory v ≡ (v', ok tt) =
          sym (ap (λ d. load_missing client memory d v) n) ∙ r in
        let fits = subst FitsValues (ap (λ x. x.0) loaded) (load-Keeps v (ap (λ x. x.1) loaded)) in
        subst
          (λ (i : VectorInfo).
            length (buffer i.dimensions)
            ≡ bytes_needed i.is_sparse i.format i.num_dimensions i.num_sparse_values)
          same fits
