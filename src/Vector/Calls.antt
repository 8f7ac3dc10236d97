-- ===== src/Vector/Calls.antt =====
-- The public calls of src/dpiVector.c, and what they use of src/dpiOci.c.
use alpha_odpi.Prelude.{Bool, true, false, not, Option, none, some, if◌then◌else◌}
use alpha_odpi.Error.{Result, ok, err, dpi, fail_if, ◌>>◌, null_pointer_parameter}
use alpha_odpi.Handle.Types.{vector_handle}
use alpha_odpi.Handle.Public.{start_public_fn}
use alpha_odpi.Version.{check_client_version}
use alpha_odpi.Vector.{Vector, VectorInfo, VectorClient, Memory, Step, ◌after◌, get_vector_value}

module _ {V : Type 0} (client : VectorClient V) (memory : Memory) where
  abbrev pub if_checked {ℓ} :
      {A : Type ℓ}
      → Result (Unit {0})
      → (Vector V → Vector V × Result A)
      → Vector V
      → Vector V × Result A
  if_checked (err e) f v = (v, err e)
  if_checked (ok u) f v = f v

  abbrev pub check_vector : Result (Unit {0}) → Bool → Vector V → Result (Unit {0})
  check_vector init info v =
      start_public_fn init v.base vector_handle >> fail_if (not info) null_pointer_parameter

  -- `dpiVector_getValue`: the flag tells that the pointer is not NULL.
  unfoldable pub get_value : Result (Unit {0}) → Bool → Vector V → Vector V × Result VectorInfo
  unfolding get_vector_value start_public_fn
  get_value init info v = if_checked (check_vector init info v) (get_vector_value client memory) v

  abbrev pub vector_from_array : VectorInfo → Step V
  vector_from_array info v =
      let (s, r) = client.from_array v.handle info in (record v { handle = s }, r)

  abbrev pub from_sparse : VectorInfo → Step V
  from_sparse info v =
      let (s, r) = client.from_sparse_array v.handle info in (record v { handle = s }, r)

  -- `dpiOci__vectorFromSparseArray`
  abbrev pub vector_from_sparse_array : VectorInfo → Step V
  vector_from_sparse_array info v =
      from_sparse info after (v, check_client_version client.version 23 7)

  abbrev pub set_vector : Option VectorInfo → Step V
  set_vector none v = (v, err (dpi null_pointer_parameter))
  set_vector (some info) v =
      if info.is_sparse then vector_from_sparse_array info v else vector_from_array info v

  abbrev pub is_given : Option VectorInfo → Bool
  is_given none = false
  is_given (some info) = true

  -- `dpiVector_setValue`
  unfoldable pub set_value : Result (Unit {0}) → Option VectorInfo → Step V
  unfolding start_public_fn check_client_version
  set_value init info v = if_checked (check_vector init (is_given info) v) (set_vector info) v
