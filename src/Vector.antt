-- ===== src/Vector.antt =====
-- `dpiVector__getValue` of src/dpiVector.c: the values of a vector are read once and kept.
pub mod Calls
pub mod Cache
pub mod Size
mod Tests
use alpha_odpi.Prelude.{
  ℕ, ◌/◌, ◌%◌, ◌==◌, ltb, Bool, true, false, not, List, [], Option, some, none, if◌then◌else◌,
  length,
}
use alpha_odpi.Error.{
  Result, ok, err, dpi, fail_if, ◌>>◌, ◌>>=◌, no_memory, unsupported_vector_format,
  null_pointer_parameter,
}
use alpha_odpi.Handle.{Base}
use alpha_odpi.Handle.Types.{vector_handle}
use alpha_odpi.Handle.Public.{start_public_fn}
use alpha_odpi.Version.{VersionInfo, check_client_version}

-- The formats of a vector in include/dpi.h.
abbrev pub format_float32 : ℕ
format_float32 = 2

abbrev pub format_float64 : ℕ
format_float64 = 3

abbrev pub format_int8 : ℕ
format_int8 = 4

abbrev pub format_binary : ℕ
format_binary = 5

-- `dpiVector`: the descriptor has state `V`; a buffer holds bytes, one of indices holds numbers.
pub record Vector (V : Type 0) : Type 0 where
  pub base : Option Base
  pub handle : V
  pub format : ℕ
  pub is_sparse : Bool
  pub num_dimensions : ℕ
  pub num_sparse_values : ℕ
  pub dimension_size : ℕ
  pub sparse_indices : Option (List ℕ)
  pub dimensions : Option (List ℕ)

-- `dpiVectorInfo`
pub record VectorInfo : Type 0 where
  pub format : ℕ
  pub num_dimensions : ℕ
  pub dimension_size : ℕ
  pub dimensions : Option (List ℕ)
  pub is_sparse : Bool
  pub num_sparse_values : ℕ
  pub sparse_indices : Option (List ℕ)

-- The client's calls on the descriptor: four attributes, and the four functions that copy the
-- values. A buffer that is filled is given as it was allocated, and given back with its answer.
pub record VectorClient (V : Type 0) : Type 0 where
  pub data_format : V → Result ℕ
  pub dimension : V → Result ℕ
  pub property : V → Result ℕ
  pub sparse_dimension : V → Result ℕ
  pub to_array : V → ℕ → ℕ → List ℕ → (ℕ × List ℕ) × Result (Unit {0})
  pub to_sparse_array : V → ℕ → ℕ → ℕ → List ℕ → List ℕ → (ℕ × List ℕ × List ℕ) × Result (Unit {0})
  pub from_array : V → VectorInfo → V × Result (Unit {0})
  pub from_sparse_array : V → VectorInfo → V × Result (Unit {0})
  pub version : VersionInfo

-- The allocator's answers: for so many indices, and for so many members of a size. The memory is not
-- cleared.
pub record Memory : Type 0 where
  pub for_indices : ℕ → Option (List ℕ)
  pub for_dimensions : ℕ → ℕ → Option (List ℕ)

-- A part of a function that may change the vector before it fails.
abbrev pub Step : Type 0 → Type 0
Step V = Vector V → Vector V × Result (Unit {0})

abbrev pub size_of_format : ℕ → Option ℕ
size_of_format format =
    if format == format_binary
    then some 1
    else if format == format_float32
    then some 4
    else if format == format_float64
    then some 8
    else if format == format_int8
    then some 1
    else none

abbrev pub buffer : Option (List ℕ) → List ℕ
buffer none = []
buffer (some block) = block

module _ {V : Type 0} where
  infixr 4 ◌then◌
  infixr 4 ◌after◌
  abbrev pub ◌after◌ : Step V → Vector V × Result (Unit {0}) → Vector V × Result (Unit {0})
  f after (v, err e) = (v, err e)
  f after (v, ok u) = f v

  -- A part behind another, unless that fails.
  abbrev pub ◌then◌ : Step V → Step V → Step V
  (f then g) v = g after f v

  abbrev pub read_attr : Result ℕ → (ℕ → Vector V) → Vector V → Vector V × Result (Unit {0})
  read_attr (err e) store v = (v, err e)
  read_attr (ok n) store v = (store n, ok tt)

  abbrev pub sized : Option ℕ → Step V
  sized none v = (v, err (dpi unsupported_vector_format))
  sized (some n) v = (record v { dimension_size = n }, ok tt)

  -- `numElements`: of the values that are there, or of the bytes of bits.
  abbrev pub num_elements : Vector V → ℕ
  num_elements v =
      if v.is_sparse
      then v.num_sparse_values
      else if v.format == format_binary
      then v.num_dimensions / 8
      else v.num_dimensions

  abbrev pub has_indices : Option (List ℕ) → Step V
  has_indices none v = (record v { sparse_indices = none }, err (dpi no_memory))
  has_indices (some block) v = (record v { sparse_indices = some block }, ok tt)

  abbrev pub has_dimensions : Option (List ℕ) → Step V
  has_dimensions none v = (record v { dimensions = none }, err (dpi no_memory))
  has_dimensions (some block) v = (record v { dimensions = some block }, ok tt)

  -- The information that is given out.
  abbrev pub info_of : Vector V → VectorInfo
  info_of v = record {
    format = v.format;
    num_dimensions = v.num_dimensions;
    dimension_size = v.dimension_size;
    dimensions = v.dimensions;
    is_sparse = v.is_sparse;
    num_sparse_values = v.num_sparse_values;
    sparse_indices = v.sparse_indices;
  }

module _ {V : Type 0} (client : VectorClient V) (memory : Memory) where
  abbrev pub read_format : Step V
  read_format v = read_attr (client.data_format v.handle) (λ n. record v { format = n }) v

  abbrev pub read_dimension : Step V
  read_dimension v = read_attr (client.dimension v.handle) (λ n. record v { num_dimensions = n }) v

  abbrev pub set_size : Step V
  set_size v = sized (size_of_format v.format) v

  -- The second of the flags tells that the vector is sparse.
  abbrev pub read_property : Step V
  read_property v =
      read_attr (client.property v.handle) (λ flags. record v { is_sparse = flags / 2 % 2 == 1 }) v

  abbrev pub read_sparse_dimension : Step V
  read_sparse_dimension v =
      read_attr (client.sparse_dimension v.handle) (λ n. record v { num_sparse_values = n }) v

  abbrev pub allocate_indices : Step V
  allocate_indices v = has_indices (memory.for_indices v.num_sparse_values) v

  abbrev pub prepare_sparse : Step V
  prepare_sparse v =
      if v.is_sparse
      then (read_sparse_dimension then allocate_indices) v
      else (record v { num_sparse_values = 0; sparse_indices = none }, ok tt)

  abbrev pub allocate_dimensions : Step V
  allocate_dimensions v = has_dimensions (memory.for_dimensions (num_elements v) v.dimension_size) v

  -- `dpiOci__vectorToArray`
  abbrev pub vector_to_array : Step V
  vector_to_array v =
      let ((n, block), r) =
        client.to_array v.handle v.format v.num_dimensions (buffer v.dimensions) in
      (record v { num_dimensions = n; dimensions = some block }, r)

  abbrev pub to_sparse : Step V
  to_sparse v =
      let ((n, indices, block), r) =
        client.to_sparse_array v.handle v.format v.num_dimensions v.num_sparse_values
          (buffer v.sparse_indices) (buffer v.dimensions) in
      (
        record v { num_sparse_values = n; sparse_indices = some indices; dimensions = some block },
        r,
      )

  -- `dpiOci__vectorToSparseArray`
  abbrev pub vector_to_sparse_array : Step V
  vector_to_sparse_array v = to_sparse after (v, check_client_version client.version 23 7)

  abbrev pub populate : Step V
  populate v = if v.is_sparse then vector_to_sparse_array v else vector_to_array v

  -- What is done unless the values are kept, from its end to its beginning.
  abbrev pub load_values : Step V
  load_values = allocate_dimensions then populate

  abbrev pub load_sparse : Step V
  load_sparse = prepare_sparse then load_values

  abbrev pub load_property : Step V
  load_property = read_property then load_sparse

  abbrev pub load_size : Step V
  load_size = set_size then load_property

  abbrev pub load_dimension : Step V
  load_dimension = read_dimension then load_size

  unfoldable pub load : Step V
  unfolding check_client_version
  load = read_format then load_dimension

  abbrev pub load_missing : Option (List ℕ) → Step V
  load_missing none v = load v
  load_missing (some block) v = (v, ok tt)

  abbrev pub with_info : Vector V × Result (Unit {0}) → Vector V × Result VectorInfo
  with_info (v, err e) = (v, err e)
  with_info (v, ok u) = (v, ok (info_of v))

  -- `dpiVector__getValue`
  unfoldable pub get_vector_value : Vector V → Vector V × Result VectorInfo
  unfolding load
  get_vector_value v = with_info (load_missing v.dimensions v)
