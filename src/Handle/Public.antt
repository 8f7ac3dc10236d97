-- ===== src/Handle/Public.antt =====
-- The beginning and the end of every public call, and the calls that count references: src/dpiGen.c,
-- and `dpiError__initHandle` of src/dpiError.c.
use alpha_odpi.Prelude.{ℕ, ◌+◌, Bool, Option, none, some, if◌then◌else◌}
use alpha_odpi.Prelude.Int.{ℤ, pos, negsuc}
use alpha_odpi.Error.{Result, ok, err, ◌>>◌}
use alpha_odpi.HandlePool.{HandlePool, acquire, release}
use alpha_odpi.Handle.{Base, check_handle, set_ref_count}
use alpha_odpi.Handle.Types.{HandleType}

-- `dpiGen__startPublicFn`: `init_error` is the answer of `dpiGlobal__initError`.
unfoldable pub start_public_fn : Result (Unit {0}) → Option Base → HandleType → Result (Unit {0})
unfolding check_handle
start_public_fn init_error h t = init_error >> check_handle h t

-- A handle, and how many times its free routine was called.
pub record Counted : Type 0 where
  pub base : Base
  pub frees : ℕ

abbrev pub counted : Counted → ℤ → Counted
counted s increment =
    let (h, freed) = set_ref_count increment s.base in
    record { base = h; frees = if freed then s.frees + 1 else s.frees }

abbrev pub if_started : Result (Unit {0}) → Counted → ℤ → Counted × Result (Unit {0})
if_started (err e) s increment = (s, err e)
if_started (ok u) s increment = (counted s increment, ok tt)

-- `dpiGen__addRef` and `dpiGen__release`.
unfoldable pub change_ref :
    ℤ → Result (Unit {0}) → HandleType → Counted → Counted × Result (Unit {0})
unfolding start_public_fn set_ref_count
change_ref increment init_error t s =
    if_started (start_public_fn init_error (some s.base) t) s increment

abbrev pub add_ref : Result (Unit {0}) → HandleType → Counted → Counted × Result (Unit {0})
add_ref = change_ref (pos 1)

abbrev pub release_ref : Result (Unit {0}) → HandleType → Counted → Counted × Result (Unit {0})
release_ref = change_ref (negsuc 0)

-- The `dpiError` of a call, and the error handles of its environment.
pub record CallError (H : Type 0) : Type 0 where
  pub handle : Option H
  pub pool : HandlePool H

module _ {H : Type 0} where
  -- OCIHandleAlloc gives a handle, or fails.
  abbrev pub with_new : HandlePool H → Result H → CallError H × Result (Unit {0})
  with_new pool (ok h) = (record { handle = some h; pool = pool }, ok tt)
  with_new pool (err x) = (record { handle = none; pool = pool }, err x)

  abbrev pub with_acquired :
      HandlePool H × Result (Option H) → Result H → CallError H × Result (Unit {0})
  with_acquired (pool, ok (some h)) allocated = (record { handle = some h; pool = pool }, ok tt)
  with_acquired (pool, ok none) allocated = with_new pool allocated
  with_acquired (pool, err x) allocated = (record { handle = none; pool = pool }, err x)

  -- `dpiError__initHandle`: the answers of the allocator and of OCIHandleAlloc.
  unfoldable pub init_handle : Bool → Result H → CallError H → CallError H × Result (Unit {0})
  init_handle memory allocated e = with_acquired (acquire memory e.pool) allocated

  abbrev pub put_back : HandlePool H → Option H → CallError H
  put_back pool none = record { handle = none; pool = pool }
  put_back pool (some h) =
      let (pool', cleared) = release pool (some h) in record { handle = cleared; pool = pool' }

  -- `dpiGen__endPublicFn`
  unfoldable pub end_public_fn : CallError H → CallError H
  end_public_fn e = put_back e.pool e.handle
