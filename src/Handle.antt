-- ===== src/Handle.antt =====
-- src/dpiGen.c: the checks that every call makes of its handle, and the count of references.
pub mod Types
pub mod Public
pub mod Counting
pub mod Pooled
mod Tests
use alpha_odpi.Prelude.{
  ℕ, ◌+◌, ◌-◌, ◌%◌, ◌^◌, Bool, true, false, not, ◌&&◌, ◌||◌, Option, none, some, ◌==◌,
  if◌then◌else◌,
}
use alpha_odpi.Prelude.Int.{ℤ, pos, negsuc}
use alpha_odpi.Error.{Result, ok, err, dpi, no_memory, invalid_handle}
use alpha_odpi.Handle.Types.{HandleType, type_index, type_def, context_handle}

-- `dpiBaseType`: `typeDef` as the type whose entry it points to, and whether `env` is not NULL.
pub record Base : Type 0 where
  pub handle_type : HandleType
  pub check_int : ℕ
  pub ref_count : ℕ
  pub has_env : Bool

-- An `int` added to an `unsigned`.
abbrev pub to_u32 : ℤ → ℕ
to_u32 (pos n) = n % 2 ^ 32
to_u32 (negsuc n) = 2 ^ 32 - 1 - n % 2 ^ 32

abbrev pub is_type : HandleType → HandleType → Bool
is_type t u = type_index t == type_index u

-- `dpiGen__allocate`: the answers of the allocator for the handle and for the environment, which is
-- asked if none is given and the type is not that of a context.
unfoldable pub allocate : HandleType → Bool → Bool → Bool → Result Base
allocate t env memory env_memory =
    let needs_env = not env && not (is_type t context_handle) in
    if not memory
    then err (dpi no_memory)
    else if needs_env && not env_memory
    then err (dpi no_memory)
    else ok (record {
      handle_type = t;
      check_int = (type_def t).check_int;
      ref_count = 1;
      has_env = env || needs_env;
    })

-- `dpiGen__checkHandle`; a NULL pointer is `none`.
unfoldable pub check_handle : Option Base → HandleType → Result (Unit {0})
check_handle none t = err (dpi invalid_handle)
check_handle (some h) t =
    if not (is_type h.handle_type t) || not (h.check_int == (type_def t).check_int)
    then err (dpi invalid_handle)
    else ok tt

-- `dpiGen__setRefCount`: the handle, and whether its free routine is called.
unfoldable pub set_ref_count : ℤ → Base → Base × Bool
set_ref_count increment h =
    let count = (h.ref_count + to_u32 increment) % 2 ^ 32 in
    (record h { ref_count = count; check_int = if count == 0 then 0 else h.check_int }, count == 0)
