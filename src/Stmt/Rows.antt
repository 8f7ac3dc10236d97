-- ===== src/Stmt/Rows.antt =====
-- The rows of a statement that are to come, and how src/dpiStmt.c keeps one in the buffers.
pub mod One
pub mod Many
use alpha_odpi.Prelude.{
  ℕ, zero, suc, ◌+◌, ◌-◌, ◌≤◌, ◌<◌, ◌≡◌, refl, ◌⊎◌, inl, inr, Bool, true, false, List, [], ◌∷◌,
  ◌++◌, Option, none, some, ltb, leb, if◌then◌else◌, arith, ◌∙◌, ap, ap₂, ◌^◌, Bool-cases, sym,
  ◌&&◌, not, replicate,
}
use alpha_odpi.Error.{Result, ok, err}
use alpha_odpi.Stmt.{Stmt, Client, ◌then◌, u64, u32}
use alpha_odpi.Stmt.Vars.{post_fetch}
use alpha_odpi.Stmt.Fetch.{
  World, Rows, refill, ensure_rows, deliver, deliver_rows, fetch, fetch_rows,
}
use alpha_odpi.Stmt.Ready.{
  IsReady, Serves, check-ready, refill-ready, convert_vars-ready, moved, short, given,
}

module _ {S : Type 0} (client : Client S) (remaining : S → ℕ) where
  -- The rows that are to come: those in the buffers, and those behind the cursor.
  abbrev pub left : World S → ℕ
  left w =
      w.stmt.buffer_row_count
      - w.stmt.buffer_row_index
      + (if w.stmt.has_rows_to_fetch then remaining w.cursor else 0)

  -- A row waits in the buffers, or there is none to come.
  pub record Ensured (w w' : World S) : Type 0 where
    pub ready : IsReady w'.stmt
    pub same_left : left w' ≡ left w
    pub same_count : w'.stmt.row_count ≡ w.stmt.row_count
    pub waiting : (left w' ≡ 0) ⊎ (w'.stmt.buffer_row_index < w'.stmt.buffer_row_count)

  module _ (serves : Serves client remaining) where
    refill_waits :
        (w : World S)
        → 0 < w.stmt.fetch_array_size
        → (given client remaining serves w
              - 0
              + (if not (short client remaining serves w)
                  then remaining (moved client remaining serves w)
                  else 0)
            ≡ 0)
          ⊎ (0 < given client remaining serves w)
    refill_waits w h = elim (Bool-cases (ltb 0 (remaining w.cursor))) [
      | inl e ↦ inr (ground arith)
      | inr e ↦ inl (ground arith)
    ]

    refill-Ensured :
        (w : World S)
        → IsReady w.stmt
        → w.stmt.row_count + 1 < 2 ^ 64
        → w.stmt.buffer_row_count ≤ w.stmt.buffer_row_index
        → w.stmt.has_rows_to_fetch ≡ true
        → Ensured w (refill client w).0
    unfolding post_fetch
    refill-Ensured w v b used more = rw (refill-ready client remaining serves w v) (record {
      ready = record {
        handle = v.handle;
        parent = v.parent;
        typed = v.typed;
        described = v.described;
        vars =
            (convert_vars-ready client remaining serves (moved client remaining serves w)
              w.stmt.fetch_array_size 0 (given client remaining serves w) w.stmt.query_vars
              v.vars).1;
        size_pos = v.size_pos;
        size = v.size;
        held = ground (arith, v.size);
        aligned = inr (ground arith);
      };
      same_left = ground (arith, serves.moves w.cursor w.stmt.fetch_array_size, used, more);
      same_count = refl;
      waiting = refill_waits w v.size_pos;
    })

    ensure_rows-refill :
        (w : World S)
        → leb w.stmt.buffer_row_count w.stmt.buffer_row_index ≡ true
        → w.stmt.has_rows_to_fetch ≡ true
        → ensure_rows client w ≡ refill client w
    unfolding ensure_rows
    ensure_rows-refill w e more =
        ap (λ b. if b then refill client w else (w, ok tt)) (ap₂ (λ b c. b && c) e more)

    ensure_rows-idle :
        (w : World S)
        → (leb w.stmt.buffer_row_count w.stmt.buffer_row_index && w.stmt.has_rows_to_fetch) ≡ false
        → ensure_rows client w ≡ (w, ok tt)
    unfolding ensure_rows
    ensure_rows-idle w e = ap (λ b. if b then refill client w else (w, ok tt)) e

    idle-Ensured :
        (w : World S)
        → IsReady w.stmt
        → (left w ≡ 0) ⊎ (w.stmt.buffer_row_index < w.stmt.buffer_row_count)
        → Ensured w w
    idle-Ensured w v h = record { ready = v; same_left = refl; same_count = refl; waiting = h }

    pub ensure_rows-Ensured :
        (w : World S)
        → IsReady w.stmt
        → w.stmt.row_count + 1 < 2 ^ 64
        → ((ensure_rows client w).1 ≡ ok tt) × Ensured w (ensure_rows client w).0
    ensure_rows-Ensured w v b =
        elim (Bool-cases (leb w.stmt.buffer_row_count w.stmt.buffer_row_index)) [
          | inl e ↦ elim (Bool-cases w.stmt.has_rows_to_fetch) [
            | inl more ↦ rw (ensure_rows-refill w e more) (
              ap (λ r. r.1) (refill-ready client remaining serves w v),
              refill-Ensured w v b (ground arith) more,
            )
            | inr done ↦
                rw (ensure_rows-idle w (ap₂ (λ b c. b && c) e done))
                  (refl, idle-Ensured w v (inl (ground arith)))
          ]
          | inr e ↦
              rw (ensure_rows-idle w (ap (λ b. b && w.stmt.has_rows_to_fetch) e))
                (refl, idle-Ensured w v (inr (ground arith)))
        ]
