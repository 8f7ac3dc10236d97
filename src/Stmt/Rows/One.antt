-- ===== src/Stmt/Rows/One.antt =====
-- Which rows `dpiStmt_fetch` of src/dpiStmt.c delivers.
use alpha_odpi.Prelude.{
  ℕ, zero, suc, ◌+◌, ◌<◌, ◌≡◌, refl, inl, inr, true, List, [], ◌∷◌, ◌++◌, Option, none, some, leb,
  arith, ◌∙◌, ap, ap₂, ◌^◌, Bool-cases, sym, replicate,
}
use alpha_odpi.Error.{Result, ok, err}
use alpha_odpi.Stmt.{Client}
use alpha_odpi.Stmt.Fetch.{World, ensure_rows, deliver, fetch}
use alpha_odpi.Stmt.Ready.{IsReady, Serves, check-ready}
use alpha_odpi.Stmt.Rows.{left, Ensured, ensure_rows-Ensured}

module _ {S : Type 0} (client : Client S) (remaining : S → ℕ) where
  -- What one call of `dpiStmt_fetch` delivers: the row that follows, in the buffers, or none.
  pub data Delivers (w w' : World S) : Result (Option ℕ) → Type 0 where
    row :
        (i : ℕ)
        → i < w'.stmt.buffer_row_count
        → w'.stmt.buffer_min_row + i ≡ w.stmt.row_count + 1
        → w'.stmt.row_count ≡ w.stmt.row_count + 1
        → left client remaining w' + 1 ≡ left client remaining w
        → Delivers w w' (ok (some i))
    no_row :
        left client remaining w ≡ 0
        → left client remaining w' ≡ 0
        → w'.stmt.row_count ≡ w.stmt.row_count
        → Delivers w w' (ok none)

  module _ (serves : Serves client remaining) where
    deliver-Delivers :
        (w w' : World S)
        → Ensured client remaining w w'
        → w.stmt.row_count + 1 < 2 ^ 64
        → let q = record w' { stmt = (deliver w'.stmt).0 } in
          Delivers w q (ok (deliver w'.stmt).1) × IsReady q.stmt
    deliver-Delivers w w' v b =
        elim (Bool-cases (leb w'.stmt.buffer_row_count w'.stmt.buffer_row_index)) [
          | inl e ↦
              let nothing : left client remaining w' ≡ 0 = ground (arith, v.waiting) in
              rw e (no_row (sym v.same_left ∙ nothing) nothing v.same_count, v.ready)
          | inr e ↦ rw e (
            row w'.stmt.buffer_row_index (ground arith)
                (ground (arith, v.ready.aligned, v.same_count)) (ground (arith, v.same_count))
                (ground (arith, v.same_left, v.ready.held)),
            record {
              handle = v.ready.handle;
              parent = v.ready.parent;
              typed = v.ready.typed;
              described = v.ready.described;
              vars = v.ready.vars;
              size_pos = v.ready.size_pos;
              size = v.ready.size;
              held = v.ready.held;
              aligned = inr (ground (arith, v.ready.aligned, v.ready.held, v.same_count));
            },
          )
        ]

    -- For a statement that is ready (open, executed, described, with its variables in place and
    -- large enough) and a client that keeps its promises without failures, and a row count below
    -- 2^64 - 1, a call of dpiStmt_fetch either delivers an index within the buffers, at which the
    -- row stands that follows those delivered, counts it and leaves one row less to come, or finds
    -- no row, which happens only if none was to come; the statement stays ready.
    pub fetch-Delivers :
        (w : World S)
        → IsReady w.stmt
        → w.stmt.row_count + 1 < 2 ^ 64
        → let (w', r) = fetch client true w in Delivers w w' r × IsReady w'.stmt
    unfolding fetch
    fetch-Delivers w v b =
        let (e, h) = ensure_rows-Ensured client remaining serves w v b in
        rw (check-ready client remaining serves w v, e)
          (deliver-Delivers w (ensure_rows client w).0 h b)

  -- The number of the row in the buffers to which a call points.
  abbrev pub row_number : World S → Result (Option ℕ) → Option ℕ
  row_number w (ok (some i)) = some (w.stmt.buffer_min_row + i)
  row_number w (ok none) = none
  row_number w (err e) = none

  -- The rows to which `n` calls of `dpiStmt_fetch` point.
  unfoldable pub fetch_times : ℕ → World S → List (Option ℕ)
  fetch_times zero w = []
  fetch_times (suc n) w = let (w', r) = fetch client true w in row_number w' r ∷ fetch_times n w'

  -- `n` numbers from `k` on
  abbrev pub numbers : ℕ → ℕ → List (Option ℕ)
  numbers k zero = []
  numbers k (suc n) = some k ∷ numbers (k + 1) n

  module _ (serves : Serves client remaining) where
    delivered_row :
        (n k : ℕ) (w w' : World S) (r : Result (Option ℕ)) (rest : List (Option ℕ))
        → Delivers w w' r
        → left client remaining w ≡ suc n
        → (left client remaining w' ≡ n
            → w'.stmt.row_count ≡ w.stmt.row_count + 1
            → rest ≡ numbers (w.stmt.row_count + 1 + 1) n ++ replicate k none)
        → row_number w' r ∷ rest ≡ numbers (w.stmt.row_count + 1) (suc n) ++ replicate k none
    delivered_row n k w w' r rest (row i b a c l) e h = ap₂ (◌∷◌) (ap some a) (h (omega arith) c)
    delivered_row n k w w' r rest (no_row a b c) e h = absurd (omega arith)

    delivered_none :
        (k : ℕ) (w w' : World S) (r : Result (Option ℕ)) (rest : List (Option ℕ))
        → Delivers w w' r
        → left client remaining w ≡ 0
        → (left client remaining w' ≡ 0
            → w'.stmt.row_count ≡ w.stmt.row_count
            → rest ≡ replicate k none)
        → row_number w' r ∷ rest ≡ none ∷ replicate k none
    delivered_none k w w' r rest (row i b a c l) e h = absurd (omega arith)
    delivered_none k w w' r rest (no_row a b c) e h = ap (◌∷◌ none) (h b c)

    pub fetch_times-left :
        (t n k : ℕ) (w : World S)
        → t ≡ n + k
        → left client remaining w ≡ n
        → IsReady w.stmt
        → w.stmt.row_count + n + 1 < 2 ^ 64
        → fetch_times t w ≡ numbers (w.stmt.row_count + 1) n ++ replicate k none
    unfolding fetch_times
    fetch_times-left zero zero zero w h e v b = refl
    fetch_times-left zero zero (suc k) w h e v b = absurd (omega arith)
    fetch_times-left zero (suc n) k w h e v b = absurd (omega arith)
    fetch_times-left (suc t) zero zero w h e v b = absurd (omega arith)
    fetch_times-left (suc t) zero (suc k) w h e v b =
        let (d, ready) = fetch-Delivers serves w v (omega arith) in
        delivered_none k w (fetch client true w).0 (fetch client true w).1 _ d e λ l c.
          fetch_times-left t zero k (fetch client true w).0 (omega arith) l ready (omega arith)
    fetch_times-left (suc t) (suc n) k w h e v b =
        let (d, ready) = fetch-Delivers serves w v (omega arith) in
        delivered_row n k w (fetch client true w).0 (fetch client true w).1 _ d e λ l c.
          fetch_times-left t n k (fetch client true w).0 (omega arith) l ready (omega arith)
          ∙ ap (λ m. numbers (m + 1) n ++ replicate k none) c

    -- Fetching every row: for a statement that is ready (open, executed, described, with its
    -- variables in place and large enough) and a client that keeps its promises without failures,
    -- as many calls of dpiStmt_fetch as there are rows to come, in the buffers and behind the
    -- cursor, point one after the other at the rows that follow those delivered so far, each once
    -- and in order, and any further calls find none; while the row count stays below 2^64.
    pub fetch_times-numbers :
        (k : ℕ) (w : World S)
        → IsReady w.stmt
        → w.stmt.row_count + left client remaining w + 1 < 2 ^ 64
        → fetch_times (left client remaining w + k) w
          ≡ numbers (w.stmt.row_count + 1) (left client remaining w) ++ replicate k none
    fetch_times-numbers k w v b =
        fetch_times-left (left client remaining w + k) (left client remaining w) k w refl refl v b
