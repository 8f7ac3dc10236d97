-- ===== src/Stmt.antt =====
-- src/dpiStmt.c: a statement, and what its calls use of the Oracle Client and of the variables.
pub mod Vars
pub mod Fetch
pub mod Ready
pub mod Rows
pub mod Scroll
mod Tests
use alpha_odpi.Prelude.{ℕ, ◌+◌, ◌%◌, ◌^◌, Bool, true, false, List, [], Option, none, some}
use alpha_odpi.Prelude.Int.{ℤ}
use alpha_odpi.Error.{Result, ok, err, Error}

-- `dpiVar`, as far as a fetch reads it: `buffer.maxArraySize`, `requiresPreFetch` and
-- `type->requiresPreFetch`.
pub record Var : Type 0 where
  pub max_array_size : ℕ
  pub requires_pre_fetch : Bool
  pub type_requires_pre_fetch : Bool

-- `dpiStmt`, the fields of the fetch path: `has_handle` tells that `handle` is not NULL,
-- `parent_has_handle` the same of the parent, if there is one, `has_query_info` that `queryInfo`
-- is not NULL; `query_vars` has `numQueryVars` entries, a NULL entry is `none`.
pub record Stmt : Type 0 where
  pub has_handle : Bool
  pub parent_has_handle : Option Bool
  pub statement_type : ℕ
  pub is_returning : Bool
  pub fetch_array_size : ℕ
  pub buffer_row_count : ℕ
  pub buffer_row_index : ℕ
  pub row_count : ℕ
  pub buffer_min_row : ℕ
  pub has_rows_to_fetch : Bool
  pub has_query_info : Bool
  pub query_vars : List (Option Var)

-- `DPI_STMT_TYPE_SELECT`, `DPI_DEFAULT_FETCH_ARRAY_SIZE`
abbrev pub select_type : ℕ
select_type = 1

abbrev pub default_fetch_array_size : ℕ
default_fetch_array_size = 100

-- `dpiFetchMode`; any other number is `other`.
pub data FetchMode : Type 0 where
  fetch_next fetch_first fetch_last fetch_prior fetch_absolute fetch_relative other : FetchMode

-- `status` of OCIStmtFetch2: OCI_NO_DATA, an error, or success.
pub data FetchStatus : Type 0 where
  fetched no_data : FetchStatus
  fetch_failed : Error → FetchStatus

-- The calls that a fetch makes outside of src/dpiStmt.c, on the state `S` of the client's cursor.
pub record Client (S : Type 0) : Type 0 where
  -- `dpiGen__startPublicFn`, `dpiConn__checkConnected`
  pub start : S → Result (Unit {0})
  pub connected : S → Result (Unit {0})
  -- attributes of the statement handle
  pub stmt_type : S → Result ℕ
  pub stmt_is_returning : S → Result Bool
  pub param_count : S → Result ℕ
  pub rows_fetched : S → Result ℕ
  pub current_position : S → Result ℕ
  -- OCIStmtFetch2
  pub fetch : S → ℕ → FetchMode → ℤ → S × FetchStatus
  -- the two allocations, and the description, of the query variables
  pub allocate_vars : S → ℕ → Result (Unit {0})
  pub allocate_info : S → ℕ → Result (Unit {0})
  pub query_info : S → ℕ → Result (Unit {0})
  -- `dpiVar__allocate` for a column, `dpiStmt__define`, `dpiVar__extendedPreFetch` and
  -- `dpiVar__getValue`
  pub allocate : S → ℕ → ℕ → Result Var
  pub define : S → ℕ → Var → Result (Unit {0})
  pub extended_pre_fetch : S → ℕ → Result (Unit {0})
  pub get_value : S → ℕ → ℕ → Result (Unit {0})

-- A call that changes `X` before it fails leaves it changed.
infixl 5 ◌then◌
abbrev pub ◌then◌ {ℓ κ μ} :
    {X : Type ℓ} {A : Type κ} {B : Type μ} → X × Result A → (X → A → X × Result B) → X × Result B
(x, ok a) then f = f x a
(x, err e) then f = (x, err e)

-- `uint32_t` and `uint64_t` values
abbrev pub u32 : ℕ → ℕ
u32 n = n % 2 ^ 32

abbrev pub u64 : ℕ → ℕ
u64 n = n % 2 ^ 64
