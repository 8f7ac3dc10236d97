-- ===== src/Stmt/Scroll/Within.antt =====
-- Scrolling to a row that is in the buffers: `dpiStmt_scroll` of src/dpiStmt.c and the fetches behind it.
use alpha_odpi.Prelude.{
  ℕ, ◌+◌, ◌-◌, ◌^◌, ◌≤◌, ◌<◌, ◌≡◌, refl, sym, ap, subst, ◌∙◌, true, false, ◌++◌, none, some, ltb,
  leb, if◌then◌else◌, arith, inr, replicate,
}
use alpha_odpi.Prelude.Int.{ℤ, pos, negsuc, pos_part, neg_part}
use alpha_odpi.Error.{ok}
use alpha_odpi.Stmt.{
  Stmt, Client, FetchMode, fetch_next, fetch_prior, fetch_first, fetch_absolute, fetch_relative,
  u32, u64,
}
use alpha_odpi.Stmt.Fetch.{World, is_last}
use alpha_odpi.Stmt.Ready.{IsReady, Serves, check-ready}
use alpha_odpi.Stmt.Rows.{left}
use alpha_odpi.Stmt.Rows.One.{fetch_times, numbers, fetch_times-left}
use alpha_odpi.Stmt.Scroll.{to_u64, desired_row, move_within, scroll}

-- An integer of 32 bits.
abbrev pub IsInt32 : ℤ → Type 0
IsInt32 z = (pos_part z < 2 ^ 31) × (neg_part z ≤ 2 ^ 31)

-- Row `d` is meant by a mode, an offset and a shift of the count, from a count of rows: the next row or
-- the one before, counted from the shifted count; the first; the one with a number; or the one so many
-- rows away from the shifted count.
pub data Means (offset shift : ℤ) (count d : ℕ) : FetchMode → Type 0 where
  next_row : d + neg_part shift ≡ count + pos_part shift + 1 → Means offset shift count d fetch_next
  prior_row :
      d + neg_part shift + 1 ≡ count + pos_part shift → Means offset shift count d fetch_prior
  first_row : d ≡ 1 → Means offset shift count d fetch_first
  absolute_row : offset ≡ pos d → Means offset shift count d fetch_absolute
  relative_row :
      d + neg_part shift + neg_part offset ≡ count + pos_part shift + pos_part offset
      → Means offset shift count d fetch_relative

Means-not_last :
    (offset shift : ℤ) (count d : ℕ) (mode : FetchMode)
    → Means offset shift count d mode
    → is_last mode ≡ false
Means-not_last offset shift count d _ (next_row e) = refl
Means-not_last offset shift count d _ (prior_row e) = refl
Means-not_last offset shift count d _ (first_row e) = refl
Means-not_last offset shift count d _ (absolute_row e) = refl
Means-not_last offset shift count d _ (relative_row e) = refl

-- The sums of 64 bits come to this row.
desired_row-Means :
    (stmt : Stmt) (offset shift : ℤ) (d : ℕ) (mode : FetchMode)
    → Means offset shift stmt.row_count d mode
    → IsInt32 offset
    → IsInt32 shift
    → d < 2 ^ 64
    → desired_row stmt mode offset shift ≡ some d
unfolding desired_row
desired_row-Means stmt offset (pos n) d _ (next_row e) o s b = ap some (omega (arith, s.0, s.1))
desired_row-Means stmt offset (negsuc n) d _ (next_row e) o s b = ap some (omega (arith, s.0, s.1))
desired_row-Means stmt offset (pos n) d _ (prior_row e) o s b = ap some (omega (arith, s.0, s.1))
desired_row-Means stmt offset (negsuc n) d _ (prior_row e) o s b = ap some (omega (arith, s.0, s.1))
desired_row-Means stmt offset shift d _ (first_row e) o s b = ap some (sym e)
desired_row-Means stmt offset shift d _ (absolute_row e) o s b =
    ap (λ z. some (to_u64 z)) e ∙ ap some (omega arith)
desired_row-Means stmt (pos m) (pos n) d _ (relative_row e) o s b =
    ap some (omega (arith, s.0, s.1, o.0, o.1))
desired_row-Means stmt (pos m) (negsuc n) d _ (relative_row e) o s b =
    ap some (omega (arith, s.0, s.1, o.0, o.1))
desired_row-Means stmt (negsuc m) (pos n) d _ (relative_row e) o s b =
    ap some (omega (arith, s.0, s.1, o.0, o.1))
desired_row-Means stmt (negsuc m) (negsuc n) d _ (relative_row e) o s b =
    ap some (omega (arith, s.0, s.1, o.0, o.1))

module _ {S : Type 0} (client : Client S) (remaining : S → ℕ) (serves : Serves client remaining)
    (w : World S) (ready : IsReady w.stmt) (d : ℕ) (first_held : w.stmt.buffer_min_row ≤ d)
    (last_held : d < w.stmt.buffer_min_row + w.stmt.buffer_row_count)
    (bound : w.stmt.buffer_min_row + w.stmt.buffer_row_count < 2 ^ 64) (positive : 0 < d) where
  index : u32 (d - w.stmt.buffer_min_row) ≡ d - w.stmt.buffer_min_row
  index = ground (arith, ready.held)

  abbrev moved : World S
  moved = record w { stmt = move_within w.stmt d }

  moved-IsReady : IsReady moved.stmt
  moved-IsReady = record {
    handle = ready.handle;
    parent = ready.parent;
    typed = ready.typed;
    described = ready.described;
    vars = ready.vars;
    size_pos = ready.size_pos;
    size = ready.size;
    held = ready.held;
    aligned = inr (omega (arith, index));
  }

  scroll-moved :
      (mode : FetchMode) (offset shift : ℤ)
      → is_last mode ≡ false
      → desired_row w.stmt mode offset shift ≡ some d
      → scroll client mode offset shift w ≡ (moved, ok tt)
  unfolding scroll
  scroll-moved mode offset shift l e =
      let behind : ltb d 1 ≡ false = ground arith in
      let after : leb w.stmt.buffer_min_row d ≡ true = ground arith in
      let before : ltb d (u64 (w.stmt.buffer_min_row + w.stmt.buffer_row_count)) ≡ true =
        ground arith in
      rw (check-ready client remaining serves w ready, e, behind, l, after, before) refl

  -- The rows from the one that is meant on: those in the buffers, and those behind the cursor.
  abbrev rows_from : ℕ
  rows_from =
      w.stmt.buffer_min_row
      + w.stmt.buffer_row_count
      - d
      + (if w.stmt.has_rows_to_fetch then remaining w.cursor else 0)

  -- A statement that is ready is scrolled, with a client that keeps its promises, to a row from 1
  -- on that lies in the buffers: the first, the one of a number, or the one behind, before or at a
  -- distance from the current one, which is the row count with rowCountOffset added. Both offsets
  -- have 32 bits, and the rows from there on and the end of the buffers are numbered below 2^64.
  -- The call succeeds without moving the cursor of the client, and the fetches from then on deliver
  -- that row and those after it, each with its number, in the buffers and behind the cursor, and
  -- then none.
  pub fetch_times-scroll :
      (mode : FetchMode) (offset shift : ℤ) (k : ℕ)
      → Means offset shift w.stmt.row_count d mode
      → IsInt32 offset
      → IsInt32 shift
      → d + rows_from < 2 ^ 64
      → let (w', r) = scroll client mode offset shift w in
        (r ≡ ok tt)
        × (w'.cursor ≡ w.cursor)
        × (fetch_times client remaining (rows_from + k) w'
            ≡ numbers client remaining d rows_from ++ replicate k none)
  fetch_times-scroll mode offset shift k m o s b =
      let desired = desired_row-Means w.stmt offset shift d mode m o s (omega arith) in
      let same_left : left client remaining moved ≡ rows_from = omega (arith, index) in
      let number : d - 1 + 1 ≡ d = omega arith in
      let fetches : fetch_times client remaining (rows_from + k) moved
          ≡ numbers client remaining d rows_from ++ replicate k none =
        subst
          (λ n.
            fetch_times client remaining (rows_from + k) moved
            ≡ numbers client remaining n rows_from ++ replicate k none)
          number
          (fetch_times-left client remaining serves (rows_from + k) rows_from k moved refl same_left
            moved-IsReady (omega arith)) in
      rw
        (scroll-moved mode offset shift (Means-not_last offset shift w.stmt.row_count d mode m)
          desired)
        (refl, refl, fetches)
