-- ===== src/Vector/Tests.antt =====
-- A vector of three FLOAT32 values, and the theorems on vectors at it.
use alpha_odpi.Prelude.{
  ℕ, ◌*◌, ◌≡◌, refl, true, false, [], ◌∷◌, some, none, replicate, length, length-replicate, ap, ◌∙◌,
  sym,
}
use alpha_odpi.Error.{ok, err, oracle}
use alpha_odpi.Handle.Types.{vector_handle}
use alpha_odpi.Handle.Public.{start_public_fn}
use alpha_odpi.Vector.{
  Vector, VectorInfo, VectorClient, Memory, get_vector_value, load, info_of, buffer, format_float32,
}
use alpha_odpi.Vector.Calls.{get_value, set_value}
use alpha_odpi.Vector.Cache.{gets, sets, answers, same_for, get_vector_value-answers}
use alpha_odpi.Vector.Size.{Allocates, bytes_needed, Writes, get_vector_value-Fits}

-- The descriptor is the byte that all bytes of the values have.
abbrev client : VectorClient ℕ
client = record {
  data_format = λ v. ok format_float32;
  dimension = λ v. ok 3;
  property = λ v. ok 0;
  sparse_dimension = λ v. ok 0;
  to_array = λ v format n block. ((n, replicate (length block) v), ok tt);
  to_sparse_array = λ v format n m indices block. ((m, indices, block), ok tt);
  from_array = λ v info. (9, ok tt);
  from_sparse_array = λ v info. (9, ok tt);
  version = record { version_num = 23; release_num = 7 };
}

abbrev memory : Memory
memory = record {
  for_indices = λ n. some (replicate n 255);
  for_dimensions = λ n size. some (replicate (n * size) 255);
}

abbrev vector_of : ℕ → Vector ℕ
vector_of v = record {
  base = some (record {
    handle_type = vector_handle;
    check_int = 0x6c3dd6e9;
    ref_count = 1;
    has_env = true;
  });
  handle = v;
  format = 0;
  is_sparse = false;
  num_dimensions = 0;
  num_sparse_values = 0;
  dimension_size = 0;
  sparse_indices = none;
  dimensions = none;
}

abbrev read_vector : ℕ → Vector ℕ
read_vector v = record (vector_of v) {
  format = format_float32;
  num_dimensions = 3;
  dimension_size = 4;
  dimensions = some (replicate 12 7);
}

abbrev sevens : VectorInfo
sevens = info_of (read_vector 7)

read : get_vector_value client memory (vector_of 7) ≡ (read_vector 7, ok sevens)
unfolding get_vector_value load
read = refl

-- A new value is taken by the descriptor, but the kept one is given out.
stale :
    let v = read_vector 7 in
    let w = (set_value client memory (ok tt) (some sevens) v).0 in
    (w.handle ≡ 9) × ((get_value client memory (ok tt) true w).1 ≡ ok sevens)
unfolding set_value get_value get_vector_value start_public_fn
stale = (refl, refl)

-- When the values cannot be copied the call fails, and the next one gives out memory that was never
-- written.
abbrev failing : VectorClient ℕ
failing = record client { to_array = λ v format n block. ((n, block), err (oracle 3113)) }

unread :
    let (w, r) = get_value failing memory (ok tt) true (vector_of 7) in
    (r ≡ err (oracle 3113))
    × ((get_value failing memory (ok tt) true w).1
        ≡ ok (record sevens { dimensions = some (replicate 12 255) }))
unfolding get_value get_vector_value load start_public_fn
unread = (refl, refl)

live : start_public_fn (ok tt) (vector_of 7).base vector_handle ≡ ok tt
unfolding start_public_fn
live = refl

get_vector_value-answers_example :
    answers client memory (gets ∷ sets (some sevens) ∷ gets ∷ []) (read_vector 7)
    ≡ same_for client memory (gets ∷ sets (some sevens) ∷ gets ∷ []) sevens
get_vector_value-answers_example =
    get_vector_value-answers client memory (gets ∷ sets (some sevens) ∷ gets ∷ []) (vector_of 7)
      (read_vector 7) sevens read live

client-Writes : Writes client
client-Writes = record {
  array_size = λ v format n block fits. (refl, length-replicate (length block) v);
  sparse_size = λ v format n m indices block some_index fits. (refl, refl);
}

memory-Allocates : Allocates memory
memory-Allocates = record {
  indices_size = λ n block e.
      let same : replicate n 255 ≡ block = cc in ap length (sym same) ∙ length-replicate n 255;
  dimensions_size = λ n size block e.
      let same : replicate (n * size) 255 ≡ block = cc in
      ap length (sym same) ∙ length-replicate (n * size) 255;
}

get_vector_value-Fits_example :
    length (buffer sevens.dimensions)
    ≡ bytes_needed sevens.is_sparse sevens.format sevens.num_dimensions sevens.num_sparse_values
get_vector_value-Fits_example =
    get_vector_value-Fits client memory client-Writes memory-Allocates (vector_of 7) (read_vector 7)
      sevens refl read
