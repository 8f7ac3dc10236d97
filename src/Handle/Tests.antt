-- ===== src/Handle/Tests.antt =====
-- A handle's life, and the theorems on handles at concrete ones.
use alpha_odpi.Prelude.{◌≡◌, refl, true, [], ◌∷◌, none, some, arith}
use alpha_odpi.Error.{ok, err, dpi, invalid_handle}
use alpha_odpi.HandlePool.{HandlePool}
use alpha_odpi.HandlePool.Queue.{IsValid}
use alpha_odpi.Handle.{Base, allocate, check_handle}
use alpha_odpi.Handle.Types.{stmt_handle, var_handle}
use alpha_odpi.Handle.Public.{Counted, init_handle, end_public_fn, change_ref}
use alpha_odpi.Handle.Counting.{adds, releases, run, apply, count, frees_of, allocate-run}
use alpha_odpi.Handle.Pooled.{Pooled, init_handle-Pooled}

abbrev new_stmt : Base
new_stmt = record {
  handle_type = stmt_handle;
  check_int = 0x31b02b2e;
  ref_count = 1;
  has_env = true;
}

allocate_stmt : allocate stmt_handle true true true ≡ ok new_stmt
unfolding allocate
allocate_stmt = refl

wrong_type : check_handle (some new_stmt) var_handle ≡ err (dpi invalid_handle)
unfolding check_handle
wrong_type = refl

-- The third release comes when the handle was freed.
life :
    (run
      (apply stmt_handle)
      (adds ∷ releases ∷ releases ∷ releases ∷ [])
      (record { base = new_stmt; frees = 0 })).1
    ≡ ok tt ∷ ok tt ∷ ok tt ∷ err (dpi invalid_handle) ∷ []
unfolding change_ref
life = refl

allocate-run_example :
    let os = adds ∷ releases ∷ releases ∷ releases ∷ [] in
    let s : Counted = record { base = new_stmt; frees = 0 } in
    ((run (apply stmt_handle) os s).1 ≡ (run count os 1).1)
    × ((run (apply stmt_handle) os s).0.frees ≡ frees_of (run count os 1).0)
allocate-run_example =
    allocate-run stmt_handle true true true new_stmt (adds ∷ releases ∷ releases ∷ releases ∷ [])
      allocate_stmt (omega arith)

-- Handle 5 waits in slot 7.
abbrev one_waiting : HandlePool Base
one_waiting = record {
  handles = none ∷ none ∷ none ∷ none ∷ none ∷ none ∷ none ∷ some new_stmt ∷ [];
  num_slots = 8;
  num_used_slots = 1;
  acquire_pos = 7;
  release_pos = 0;
}

one_waiting-IsValid : IsValid one_waiting
one_waiting-IsValid = omega arith

init_handle-Pooled_example :
    let (e, r) = init_handle true (ok new_stmt) (record { handle = none; pool = one_waiting }) in
    Pooled one_waiting new_stmt (end_public_fn e, r)
init_handle-Pooled_example =
    init_handle-Pooled one_waiting new_stmt one_waiting-IsValid (omega arith) (omega arith)
