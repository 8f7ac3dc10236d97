-- ===== src/Stmt/Vars.antt =====
-- What src/dpiStmt.c does with the query variables around a fetch.
use alpha_odpi.Prelude.{
  ℕ, zero, suc, ◌+◌, true, false, List, [], ◌∷◌, Option, none, some, ltb, ◌==◌, if◌then◌else◌,
  replicate, length,
}
use alpha_odpi.Error.{Result, ok, err, fail_if, ◌>>◌, array_size_too_small}
use alpha_odpi.Stmt.{Stmt, Var, Client, ◌then◌}

-- `dpiStmt__clearQueryVars`
abbrev pub clear_query_vars : Stmt → Stmt
clear_query_vars stmt = record stmt { has_query_info = false; query_vars = [] }

module _ {S : Type 0} (client : Client S) where
  -- The loop over `dpiStmt__getQueryInfo`: columns `pos` and on.
  unfoldable pub describe : S → ℕ → ℕ → Result (Unit {0})
  describe s pos zero = ok tt
  describe s pos (suc n) = client.query_info s pos >> describe s (pos + 1) n

  -- `dpiStmt__createQueryVars`, behind the attribute that tells the number of columns.
  abbrev pub size_query_vars : S → ℕ → Stmt → Stmt × Result (Unit {0})
  size_query_vars s n stmt =
      if n == length stmt.query_vars
      then (stmt, ok tt)
      else (clear_query_vars stmt, client.allocate_vars s n) then λ stmt' _.
          (stmt', client.allocate_info s n) then λ stmt'' _.
          allocated (record stmt'' { has_query_info = true; query_vars = replicate n none })
            (describe s 1 n)
    where
      allocated : Stmt → Result (Unit {0}) → Stmt × Result (Unit {0})
      allocated stmt' (ok tt) = (stmt', ok tt)
      allocated stmt' (err e) = (clear_query_vars stmt', err e)

  unfoldable pub create_query_vars : S → Stmt → Stmt × Result (Unit {0})
  unfolding describe
  create_query_vars s stmt = (stmt, client.param_count s) then λ stmt' n.
      size_query_vars s n stmt' then λ stmt'' _. (
        record stmt'' { buffer_row_index = stmt''.fetch_array_size; has_rows_to_fetch = true },
        ok tt,
      )

  -- The checks of one variable in `dpiStmt__beforeFetch`.
  abbrev pub check_var : S → ℕ → ℕ → Var → Result (Unit {0})
  check_var s size i v =
      fail_if (ltb v.max_array_size size) array_size_too_small
      >> (if v.requires_pre_fetch then client.extended_pre_fetch s i else ok tt)

  -- A round of its loop: a missing variable is allocated and defined first.
  abbrev pub prepare_var : S → ℕ → ℕ → Option Var → Option Var × Result (Unit {0})
  prepare_var s size i (some v) = (some v, check_var s size i v)
  prepare_var s size i none = (none, client.allocate s i size) then λ _ v.
      (none, client.define s (i + 1) v) then λ _ _. (some v, check_var s size i v)

  unfoldable pub prepare_vars :
      S → ℕ → ℕ → List (Option Var) → List (Option Var) × Result (Unit {0})
  prepare_vars s size i [] = ([], ok tt)
  prepare_vars s size i (v ∷ vs) =
      let (v', r) = prepare_var s size i v in
      (v' ∷ vs, r) then λ _ _. let (vs', r') = prepare_vars s size (i + 1) vs in (v' ∷ vs', r')

  abbrev pub prepare_all : S → Stmt → Stmt × Result (Unit {0})
  prepare_all s stmt =
      let (vs, r) = prepare_vars s stmt.fetch_array_size 0 stmt.query_vars in
      (record stmt { query_vars = vs }, r)

  -- `dpiStmt__beforeFetch`
  unfoldable pub before_fetch : S → Stmt → Stmt × Result (Unit {0})
  unfolding create_query_vars prepare_vars
  before_fetch s stmt =
      if stmt.has_query_info
      then prepare_all s stmt
      else create_query_vars s stmt then λ stmt' _. prepare_all s stmt'

  -- The rows of one variable in `dpiStmt__postFetch`, `n` of them from row `j` on.
  unfoldable pub convert_rows : S → ℕ → ℕ → ℕ → Var → Var × Result (Unit {0})
  convert_rows s i j zero v = (v, ok tt)
  convert_rows s i j (suc n) v = (v, client.get_value s i j) then λ v' _.
      convert_rows s i (j + 1) n
        (if v'.type_requires_pre_fetch then record v' { requires_pre_fetch = true } else v')

  unfoldable pub convert_vars :
      S → ℕ → ℕ → List (Option Var) → List (Option Var) × Result (Unit {0})
  unfolding convert_rows
  convert_vars s i n [] = ([], ok tt)
  convert_vars s i n (none ∷ vs) = let (vs', r) = convert_vars s (i + 1) n vs in (none ∷ vs', r)
  convert_vars s i n (some v ∷ vs) =
      let (v', r) = convert_rows s i 0 n v in
      (some v' ∷ vs, r) then λ _ _.
      let (vs', r') = convert_vars s (i + 1) n vs in (some v' ∷ vs', r')

  -- `dpiStmt__postFetch`; behind `dpiStmt__beforeFetch` no variable is missing.
  unfoldable pub post_fetch : S → Stmt → Stmt × Result (Unit {0})
  unfolding convert_vars
  post_fetch s stmt =
      let (vs, r) = convert_vars s 0 stmt.buffer_row_count stmt.query_vars in
      (record stmt { query_vars = vs }, r)
