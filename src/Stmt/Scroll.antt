-- ===== src/Stmt/Scroll.antt =====
-- `dpiStmt_scroll` of src/dpiStmt.c.
pub mod Within
use alpha_odpi.Prelude.{
  ℕ, ◌+◌, ◌-◌, ◌%◌, ◌^◌, ◌≤◌, ◌<◌, ◌≡◌, refl, Bool, true, false, not, ◌&&◌, Option, none, some, ltb,
  leb, ◌==◌, if◌then◌else◌, arith, inr,
}
use alpha_odpi.Prelude.Int.{ℤ, pos, negsuc}
use alpha_odpi.Error.{Result, ok, err, dpi, not_supported, scroll_out_of_rs}
use alpha_odpi.Stmt.{
  Stmt, Client, FetchMode, fetch_next, fetch_prior, fetch_first, fetch_last, fetch_absolute,
  fetch_relative, other, ◌then◌, u32, u64,
}
use alpha_odpi.Stmt.Vars.{before_fetch, post_fetch}
use alpha_odpi.Stmt.Fetch.{World, with_stmt, check, is_last, stmt_fetch2}
use alpha_odpi.Stmt.Ready.{IsReady, Serves, check-ready}

-- An `int32_t` as a `uint64_t`, and back.
abbrev pub to_u64 : ℤ → ℕ
to_u64 (pos n) = n % 2 ^ 64
to_u64 (negsuc n) = 2 ^ 64 - 1 - n % 2 ^ 64

abbrev pub to_int32 : ℕ → ℤ
to_int32 n =
    if ltb (n % 2 ^ 32) (2 ^ 31) then pos (n % 2 ^ 32) else negsuc (2 ^ 32 - 1 - n % 2 ^ 32)

-- `desiredRow`; none for a mode that is not supported.
unfoldable pub desired_row : Stmt → FetchMode → ℤ → ℤ → Option ℕ
desired_row stmt fetch_next offset shift = some (u64 (stmt.row_count + to_u64 shift + 1))
desired_row stmt fetch_prior offset shift =
    some (u64 (stmt.row_count + to_u64 shift + (2 ^ 64 - 1)))
desired_row stmt fetch_first offset shift = some 1
desired_row stmt fetch_last offset shift = some 0
desired_row stmt fetch_absolute offset shift = some (to_u64 offset)
desired_row stmt fetch_relative offset shift =
    some (u64 (stmt.row_count + to_u64 shift + to_u64 offset))
desired_row stmt other offset shift = none

-- The offset that the client is given: for a relative move it counts from the last row fetched.
abbrev pub client_offset : Stmt → FetchMode → ℤ → ℕ → ℤ
client_offset stmt fetch_relative offset desired =
    to_int32
      (u64 (desired + 2 ^ 64 - u64 (stmt.buffer_min_row + stmt.buffer_row_count + (2 ^ 64 - 1))))
client_offset stmt _ offset desired = offset

abbrev pub in_buffers : Stmt → FetchMode → ℕ → Bool
in_buffers stmt mode desired =
    not (is_last mode)
    && leb stmt.buffer_min_row desired
    && ltb desired (u64 (stmt.buffer_min_row + stmt.buffer_row_count))

-- The buffers already hold the row.
abbrev pub move_within : Stmt → ℕ → Stmt
move_within stmt desired = record stmt {
  buffer_row_index = u32 (desired - stmt.buffer_min_row);
  row_count = desired - 1;
}

abbrev pub is_first : FetchMode → Bool
is_first fetch_first = true
is_first _ = false

-- What is noted behind a fetch of no rows.
abbrev pub note_outside : FetchMode → Stmt → Stmt × Result (Unit {0})
note_outside mode stmt =
    if not (is_first mode) && not (is_last mode) then (stmt, err (dpi scroll_out_of_rs)) else (
      record stmt {
        has_rows_to_fetch = false;
        row_count = 0;
        buffer_row_index = 0;
        buffer_min_row = 0;
      },
      ok tt,
    )

-- `currentPosition - stmt->bufferRowCount` is a `uint32_t`.
abbrev pub note_position : Stmt → ℕ → Stmt
note_position stmt position =
    let rows = u32 (position + 2 ^ 32 - stmt.buffer_row_count) in
    record stmt { row_count = rows; buffer_min_row = u64 (rows + 1); buffer_row_index = 0 }

module _ {S : Type 0} (client : Client S) where
  -- The cursor is moved by the client.
  unfoldable pub fetch_at : FetchMode → ℤ → World S → World S × Result (Unit {0})
  unfolding stmt_fetch2
  fetch_at mode offset w = with_stmt w (before_fetch client w.cursor w.stmt) then λ w' _.
      stmt_fetch2 client w' (if is_last mode then 1 else w'.stmt.fetch_array_size) mode offset
      then λ w' _. (w', client.rows_fetched w'.cursor) then λ w' n.
          let stmt = record w'.stmt { buffer_row_count = n } in
          if n == 0
          then with_stmt w' (note_outside mode stmt)
          else (record w' { stmt = stmt }, client.current_position w'.cursor) then λ w'' position.
              with_stmt w'' (post_fetch client w''.cursor (note_position w''.stmt position))

  abbrev pub scroll_to : FetchMode → ℤ → World S → ℕ → World S × Result (Unit {0})
  scroll_to mode offset w desired =
      if ltb desired 1 && not (is_last mode)
      then (record w { stmt = record w.stmt { buffer_row_count = 0 } }, err (dpi scroll_out_of_rs))
      else if in_buffers w.stmt mode desired
      then (record w { stmt = move_within w.stmt desired }, ok tt)
      else fetch_at mode (client_offset w.stmt mode offset desired) w

  abbrev pub scroll_or_fail : FetchMode → ℤ → World S → Option ℕ → World S × Result (Unit {0})
  scroll_or_fail mode offset w none = (w, err (dpi not_supported))
  scroll_or_fail mode offset w (some desired) = scroll_to mode offset w desired

  -- `dpiStmt_scroll`
  unfoldable pub scroll : FetchMode → ℤ → ℤ → World S → World S × Result (Unit {0})
  unfolding fetch_at desired_row
  scroll mode offset shift w = check client w then λ w' _.
      scroll_or_fail mode offset w' (desired_row w'.stmt mode offset shift)
