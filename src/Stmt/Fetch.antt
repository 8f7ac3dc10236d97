-- ===== src/Stmt/Fetch.antt =====
-- `dpiStmt_fetch` and `dpiStmt_fetchRows` of src/dpiStmt.c, and what they call.
use alpha_odpi.Prelude.{
  ℕ, ◌+◌, ◌-◌, Bool, true, false, ◌&&◌, ◌||◌, not, Option, none, some, ltb, leb, ◌==◌,
  if◌then◌else◌,
}
use alpha_odpi.Prelude.Int.{ℤ, pos}
use alpha_odpi.Error.{Result, ok, err, fail_if, ◌>>◌, stmt_closed, null_pointer_parameter}
use alpha_odpi.Stmt.{
  Stmt, Client, FetchMode, fetch_next, fetch_last, FetchStatus, fetched, no_data, fetch_failed,
  ◌then◌, select_type, u32, u64,
}
use alpha_odpi.Stmt.Vars.{before_fetch, post_fetch}

-- `*bufferRowIndex`, `*numRowsFetched` and `*moreRows`
pub record Rows : Type 0 where
  pub buffer_row_index : ℕ
  pub num_rows_fetched : ℕ
  pub more_rows : Bool

-- The statement and the client's cursor.
pub record World (S : Type 0) : Type 0 where
  pub stmt : Stmt
  pub cursor : S

abbrev pub with_stmt : {S A : Type 0} → World S → Stmt × Result A → World S × Result A
with_stmt w (stmt, r) = (record w { stmt = stmt }, r)

-- `stmt->parentStmt && !stmt->parentStmt->handle`
abbrev pub parent_closed : Option Bool → Bool
parent_closed none = false
parent_closed (some h) = not h

abbrev pub is_last : FetchMode → Bool
is_last fetch_last = true
is_last _ = false

-- `dpiOci__stmtFetch2` of src/dpiOci.c, behind the call of the client.
abbrev pub note_status : FetchMode → FetchStatus → Stmt → Stmt × Result (Unit {0})
note_status mode no_data stmt = (record stmt { has_rows_to_fetch = false }, ok tt)
note_status mode (fetch_failed e) stmt =
    if is_last mode then (record stmt { has_rows_to_fetch = false }, ok tt) else (stmt, err e)
note_status mode fetched stmt = (record stmt { has_rows_to_fetch = not (is_last mode) }, ok tt)

-- The buffers hold the rows that follow those delivered so far.
abbrev pub note_rows : Stmt → ℕ → Stmt
note_rows stmt n = record stmt {
  buffer_row_count = n;
  buffer_min_row = u64 (stmt.row_count + 1);
  buffer_row_index = 0;
}

-- The rest of `dpiStmt_fetch`: the index of the row in the buffers, or `*found = 0`.
abbrev pub deliver : Stmt → Stmt × Option ℕ
deliver stmt = if leb stmt.buffer_row_count stmt.buffer_row_index then (stmt, none) else (
  record stmt {
    buffer_row_index = u32 (stmt.buffer_row_index + 1);
    row_count = u64 (stmt.row_count + 1);
  },
  some stmt.buffer_row_index,
)

-- The rest of `dpiStmt_fetchRows`.
abbrev pub deliver_rows : ℕ → Stmt → Stmt × Rows
deliver_rows max_rows stmt =
    if leb stmt.buffer_row_count stmt.buffer_row_index
    then (stmt, record { buffer_row_index = 0; num_rows_fetched = 0; more_rows = false })
    else let held = stmt.buffer_row_count - stmt.buffer_row_index in
      let n = if ltb max_rows held then max_rows else held in
      (
        record stmt {
          buffer_row_index = u32 (stmt.buffer_row_index + n);
          row_count = u64 (stmt.row_count + n);
        },
        record {
          buffer_row_index = stmt.buffer_row_index;
          num_rows_fetched = n;
          more_rows = if ltb max_rows held then true else stmt.has_rows_to_fetch;
        },
      )

module _ {S : Type 0} (client : Client S) where
  -- `dpiStmt__init`
  abbrev pub init : S → Stmt → Stmt × Result (Unit {0})
  init s stmt = (stmt, client.stmt_type s) then λ stmt' t.
      if t == select_type
      then (record stmt' { statement_type = t; has_rows_to_fetch = true }, ok tt)
      else (record stmt' { statement_type = t }, client.stmt_is_returning s) then λ stmt'' b.
          (record stmt'' { is_returning = b }, ok tt)

  -- `dpiStmt__check`
  unfoldable pub check : World S → World S × Result (Unit {0})
  check w = with_stmt w (
      (
        w.stmt,
        client.start w.cursor
            >> fail_if (not w.stmt.has_handle || parent_closed w.stmt.parent_has_handle) stmt_closed
            >> client.connected w.cursor,
      )
      then λ stmt _. if stmt.statement_type == 0 then init w.cursor stmt else (stmt, ok tt))

  unfoldable pub stmt_fetch2 : World S → ℕ → FetchMode → ℤ → World S × Result (Unit {0})
  stmt_fetch2 w n mode offset =
      let (s, status) = client.fetch w.cursor n mode offset in
      with_stmt (record w { cursor = s }) (note_status mode status w.stmt)

  -- `dpiStmt__fetch`
  unfoldable pub refill : World S → World S × Result (Unit {0})
  unfolding stmt_fetch2
  refill w = with_stmt w (before_fetch client w.cursor w.stmt) then λ w' _.
      stmt_fetch2 w' w'.stmt.fetch_array_size fetch_next (pos 0) then λ w' _.
      (w', client.rows_fetched w'.cursor) then λ w' n.
      with_stmt w' (post_fetch client w'.cursor (note_rows w'.stmt n))

  -- Both calls refill buffers that are used up, if more rows may come.
  unfoldable pub ensure_rows : World S → World S × Result (Unit {0})
  ensure_rows w =
      if leb w.stmt.buffer_row_count w.stmt.buffer_row_index && w.stmt.has_rows_to_fetch
      then refill w
      else (w, ok tt)

  -- `dpiStmt_fetch`; the flag tells that no pointer of the caller is NULL.
  unfoldable pub fetch : Bool → World S → World S × Result (Option ℕ)
  fetch pointers w = check w then λ w' _.
      (w', fail_if (not pointers) null_pointer_parameter) then λ w' _. ensure_rows w' then λ w' _.
      let (stmt, r) = deliver w'.stmt in (record w' { stmt = stmt }, ok r)

  -- `dpiStmt_fetchRows`
  unfoldable pub fetch_rows : Bool → World S → ℕ → World S × Result Rows
  fetch_rows pointers w max_rows = check w then λ w' _.
      (w', fail_if (not pointers) null_pointer_parameter) then λ w' _. ensure_rows w' then λ w' _.
      let (stmt, r) = deliver_rows max_rows w'.stmt in (record w' { stmt = stmt }, ok r)
