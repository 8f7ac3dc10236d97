-- ===== src/Stmt/Rows/Many.antt =====
-- Which rows `dpiStmt_fetchRows` of src/dpiStmt.c delivers.
use alpha_odpi.Prelude.{
  ℕ, ◌+◌, ◌-◌, ◌≤◌, ◌<◌, ◌≡◌, refl, ◌⊎◌, inl, inr, Bool, true, false, ltb, leb, if◌then◌else◌,
  arith, ◌∙◌, ◌^◌, Bool-cases, sym,
}
use alpha_odpi.Error.{Result, ok}
use alpha_odpi.Stmt.{Stmt, Client, ◌then◌, u64, u32}
use alpha_odpi.Stmt.Fetch.{World, Rows, ensure_rows, deliver_rows, fetch_rows}
use alpha_odpi.Stmt.Ready.{IsReady, Serves, check-ready}
use alpha_odpi.Stmt.Rows.{left, Ensured, ensure_rows-Ensured}

-- Behind the last row of the buffers nothing is left, unless more rows may come.
emptied :
    (count index behind : ℕ) (more : Bool)
    → index < count
    → count < 2 ^ 32
    → (more ≡ true) ⊎ (count - u32 (index + (count - index)) + (if more then behind else 0) ≡ 0)
emptied count index behind true h k = inl refl
emptied count index behind false h k = inr (ground arith)

module _ {S : Type 0} (client : Client S) (remaining : S → ℕ) where
  -- What `dpiStmt_fetchRows` delivers: as many rows as asked for, or those in the buffers.
  pub data DeliversRows (max_rows : ℕ) (w w' : World S) : Result Rows → Type 0 where
    rows :
        (r : Rows)
        → r.num_rows_fetched ≤ max_rows
        → r.buffer_row_index + r.num_rows_fetched ≤ w'.stmt.buffer_row_count
        → (r.num_rows_fetched ≡ max_rows) ⊎ (0 < r.num_rows_fetched)
        → w'.stmt.buffer_min_row + r.buffer_row_index ≡ w.stmt.row_count + 1
        → w'.stmt.row_count ≡ w.stmt.row_count + r.num_rows_fetched
        → left client remaining w' + r.num_rows_fetched ≡ left client remaining w
        → (r.more_rows ≡ true) ⊎ (left client remaining w' ≡ 0)
        → DeliversRows max_rows w w' (ok r)
    no_rows :
        (r : Rows)
        → r.num_rows_fetched ≡ 0
        → r.more_rows ≡ false
        → left client remaining w ≡ 0
        → w'.stmt.row_count ≡ w.stmt.row_count
        → DeliversRows max_rows w w' (ok r)

  module _ (serves : Serves client remaining) where
    advanced-IsReady :
        (stmt : Stmt) (n : ℕ)
        → IsReady stmt
        → stmt.buffer_row_index + n ≤ stmt.buffer_row_count
        → stmt.buffer_row_index < stmt.buffer_row_count
        → stmt.row_count + n < 2 ^ 64
        → IsReady (record stmt {
          buffer_row_index = u32 (stmt.buffer_row_index + n);
          row_count = u64 (stmt.row_count + n);
        })
    advanced-IsReady stmt n v h k b = record {
      handle = v.handle;
      parent = v.parent;
      typed = v.typed;
      described = v.described;
      vars = v.vars;
      size_pos = v.size_pos;
      size = v.size;
      held = v.held;
      aligned = inr (ground (arith, v.aligned, v.held));
    }

    deliver_rows-DeliversRows :
        (max_rows : ℕ) (w w' : World S)
        → Ensured client remaining w w'
        → w.stmt.row_count + left client remaining w + 1 < 2 ^ 64
        → let q = record w' { stmt = (deliver_rows max_rows w'.stmt).0 } in
          DeliversRows max_rows w q (ok (deliver_rows max_rows w'.stmt).1) × IsReady q.stmt
    deliver_rows-DeliversRows max_rows w w' v b =
        elim (Bool-cases (leb w'.stmt.buffer_row_count w'.stmt.buffer_row_index)) [
          | inl e ↦
              let nothing : left client remaining w' ≡ 0 = ground (arith, v.waiting) in
              rw e (no_rows _ refl refl (sym v.same_left ∙ nothing) v.same_count, v.ready)
          | inr e ↦
              elim (Bool-cases
                (ltb max_rows (w'.stmt.buffer_row_count - w'.stmt.buffer_row_index))) [
                  | inl f ↦
                      rw (e, f)
                        (
                          rows _ (omega arith) (ground arith) (inl refl)
                              (ground (arith, v.ready.aligned, v.same_count))
                              (ground (arith, v.same_count, v.same_left))
                              (ground (arith, v.same_left, v.ready.held)) (inl refl),
                          advanced-IsReady w'.stmt max_rows v.ready (ground arith) (ground arith)
                              (ground (arith, v.same_count, v.same_left)),
                        )
                  | inr f ↦
                      rw (e, f)
                        (
                          rows _ (ground arith) (ground arith) (inr (ground arith))
                              (ground (arith, v.ready.aligned, v.same_count))
                              (ground (arith, v.same_count, v.same_left))
                              (ground (arith, v.same_left, v.ready.held))
                              (emptied w'.stmt.buffer_row_count w'.stmt.buffer_row_index
                                (remaining w'.cursor) w'.stmt.has_rows_to_fetch (ground arith)
                                v.ready.held),
                          advanced-IsReady w'.stmt
                              (w'.stmt.buffer_row_count - w'.stmt.buffer_row_index) v.ready
                              (ground arith) (ground arith)
                              (ground (arith, v.same_count, v.same_left)),
                        )
                ]
        ]

    -- For a statement that is ready (open, executed, described, with its variables in place and
    -- large enough) and a client that keeps its promises without failures, and a row count below
    -- 2^64 at the last row, a call of dpiStmt_fetchRows delivers a range within the buffers that
    -- starts at the row that follows those delivered, of at most the number asked for and at least
    -- one if any is asked for, counts them, and tells that there are no more rows only if none is
    -- to come; or it delivers none, tells so, and none was to come. The statement stays ready.
    pub fetch_rows-DeliversRows :
        (max_rows : ℕ) (w : World S)
        → IsReady w.stmt
        → w.stmt.row_count + left client remaining w + 1 < 2 ^ 64
        → let (w', r) = fetch_rows client true w max_rows in
          DeliversRows max_rows w w' r × IsReady w'.stmt
    unfolding fetch_rows
    fetch_rows-DeliversRows max_rows w v b =
        let (e, h) = ensure_rows-Ensured client remaining serves w v (omega arith) in
        rw (check-ready client remaining serves w v, e)
          (deliver_rows-DeliversRows max_rows w (ensure_rows client w).0 h b)
