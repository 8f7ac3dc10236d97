-- ===== src/Stmt/Tests.antt =====
-- Runs of the fetch path on a cursor that counts its rows, and the theorems on it.
use alpha_odpi.Prelude.{
  ℕ, ◌-◌, ◌≡◌, refl, true, false, [], ◌∷◌, none, some, ltb, if◌then◌else◌, arith, inl,
}
use alpha_odpi.Error.{ok}
use alpha_odpi.Stmt.{Var, Client, no_data, fetched}
use alpha_odpi.Stmt.Fetch.{World, fetch, fetch_rows}
use alpha_odpi.Stmt.Ready.{IsReady, Serves}
use alpha_odpi.Prelude.Int.{pos}
use alpha_odpi.Stmt.{fetch_prior}
use alpha_odpi.Stmt.Scroll.{scroll}
use alpha_odpi.Stmt.Scroll.Within.{prior_row, fetch_times-scroll}
use alpha_odpi.Stmt.Rows.One.{Delivers, fetch-Delivers, fetch_times, fetch_times-numbers}
use alpha_odpi.Stmt.Rows.Many.{DeliversRows, fetch_rows-DeliversRows}

-- The rows that remain, and those of the last fetch.
record Cursor : Type 0 where
  remaining : ℕ
  last : ℕ

abbrev wide_var : Var
wide_var = record {
  max_array_size = 100;
  requires_pre_fetch = false;
  type_requires_pre_fetch = true;
}

abbrev counting : Client Cursor
counting = record {
  start = λ s. ok tt;
  connected = λ s. ok tt;
  stmt_type = λ s. ok 1;
  stmt_is_returning = λ s. ok false;
  param_count = λ s. ok 2;
  rows_fetched = λ s. ok s.last;
  current_position = λ s. ok 0;
  fetch = λ s n mode offset. (
    record { remaining = s.remaining - n; last = if ltb s.remaining n then s.remaining else n },
    if ltb s.remaining n then no_data else fetched,
  );
  allocate_vars = λ s n. ok tt;
  allocate_info = λ s n. ok tt;
  query_info = λ s pos. ok tt;
  allocate = λ s i n. ok wide_var;
  define = λ s i v. ok tt;
  extended_pre_fetch = λ s i. ok tt;
  get_value = λ s i j. ok tt;
}

counting-Serves : Serves counting (λ s. s.remaining)
counting-Serves = record {
  starts = λ s. refl;
  connects = λ s. refl;
  pre_fetches = λ s i. refl;
  converts = λ s i j. refl;
  moves = λ s n. refl;
  answers = λ s n. refl;
  counts = λ s n. refl;
}

-- An executed query over five rows, two at a time.
abbrev five_rows : World Cursor
five_rows = record {
  stmt = record {
    has_handle = true;
    parent_has_handle = none;
    statement_type = 1;
    is_returning = false;
    fetch_array_size = 2;
    buffer_row_count = 0;
    buffer_row_index = 2;
    row_count = 0;
    buffer_min_row = 0;
    has_rows_to_fetch = true;
    has_query_info = true;
    query_vars = some wide_var ∷ [];
  };
  cursor = record { remaining = 5; last = 0 };
}

five_rows-IsReady : IsReady five_rows.stmt
five_rows-IsReady = record {
  handle = refl;
  parent = refl;
  typed = omega arith;
  described = refl;
  vars = (omega arith, tt);
  size_pos = omega arith;
  size = omega arith;
  held = omega arith;
  aligned = inl (omega arith);
}

fetch-Delivers_example :
    Delivers counting
      (λ s. s.remaining)
      five_rows
      (fetch counting true five_rows).0
      (fetch counting true five_rows).1
    × IsReady (fetch counting true five_rows).0.stmt
fetch-Delivers_example =
    fetch-Delivers counting (λ s. s.remaining) counting-Serves five_rows five_rows-IsReady
      (omega arith)

fetch_times-numbers_example :
    fetch_times counting (λ s. s.remaining) 7 five_rows
    ≡ some 1 ∷ some 2 ∷ some 3 ∷ some 4 ∷ some 5 ∷ none ∷ none ∷ []
fetch_times-numbers_example =
    fetch_times-numbers counting (λ s. s.remaining) counting-Serves 2 five_rows five_rows-IsReady
      (omega arith)

fetch_rows-DeliversRows_example :
    DeliversRows counting
      (λ s. s.remaining)
      10
      five_rows
      (fetch_rows counting true five_rows 10).0
      (fetch_rows counting true five_rows 10).1
    × IsReady (fetch_rows counting true five_rows 10).0.stmt
fetch_rows-DeliversRows_example =
    fetch_rows-DeliversRows counting (λ s. s.remaining) counting-Serves 10 five_rows
      five_rows-IsReady (omega arith)

-- The first two rows are in the buffers and were delivered.
abbrev two_delivered : World Cursor
two_delivered = record {
  stmt = record five_rows.stmt {
    buffer_row_count = 2;
    buffer_row_index = 2;
    row_count = 2;
    buffer_min_row = 1;
  };
  cursor = record { remaining = 3; last = 2 };
}

two_delivered-IsReady : IsReady two_delivered.stmt
two_delivered-IsReady = record {
  handle = refl;
  parent = refl;
  typed = omega arith;
  described = refl;
  vars = (omega arith, tt);
  size_pos = omega arith;
  size = omega arith;
  held = omega arith;
  aligned = inl (omega arith);
}

-- The row before the last delivered one is row 1: from there, five rows come, and then none.
fetch_times-scroll_example :
    let (w', r) = scroll counting fetch_prior (pos 0) (pos 0) two_delivered in
    (r ≡ ok tt)
    × (w'.cursor ≡ two_delivered.cursor)
    × (fetch_times counting (λ s. s.remaining) 6 w'
        ≡ some 1 ∷ some 2 ∷ some 3 ∷ some 4 ∷ some 5 ∷ none ∷ [])
fetch_times-scroll_example =
    fetch_times-scroll counting (λ s. s.remaining) counting-Serves two_delivered
      two_delivered-IsReady 1 (omega arith) (omega arith) (omega arith) (omega arith) fetch_prior
      (pos 0) (pos 0) 1 (prior_row (omega arith)) (omega arith, omega arith)
      (omega arith, omega arith) (omega arith)
