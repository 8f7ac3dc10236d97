-- ===== src/Stmt/Ready.antt =====
-- A statement whose variables are in place, and a cursor that keeps its promises: then a fetch of
-- src/dpiStmt.c succeeds.
use alpha_odpi.Prelude.{
  ℕ, zero, suc, ◌+◌, ◌-◌, ◌≤◌, ◌<◌, ◌≡◌, ◌≢◌, refl, ◌⊎◌, Bool, true, false, List, [], ◌∷◌, Option,
  none, some, ltb, ◌==◌, if◌then◌else◌, arith, ◌∙◌, ◌^◌, not,
}
use alpha_odpi.Prelude.Int.{pos}
use alpha_odpi.Error.{Result, ok}
use alpha_odpi.Stmt.{Stmt, Var, Client, ◌then◌, fetch_next, fetched, no_data}
use alpha_odpi.Stmt.Vars.{prepare_vars, convert_rows, convert_vars, before_fetch, post_fetch}
use alpha_odpi.Stmt.Fetch.{World, check, stmt_fetch2, refill, parent_closed, note_rows, note_status}

-- Every variable is there, with room for as many rows.
abbrev pub AreReady : ℕ → List (Option Var) → Type 0
AreReady size [] = Unit
AreReady size (none ∷ vs) = ⊥
AreReady size (some v ∷ vs) = (size ≤ v.max_array_size) × AreReady size vs

-- The statement is open, executed and described; a row that waits in the buffers is the one that
-- follows those delivered.
pub record IsReady (stmt : Stmt) : Type 0 where
  pub handle : stmt.has_handle ≡ true
  pub parent : parent_closed stmt.parent_has_handle ≡ false
  pub typed : stmt.statement_type ≢ 0
  pub described : stmt.has_query_info ≡ true
  pub vars : AreReady stmt.fetch_array_size stmt.query_vars
  pub size_pos : 0 < stmt.fetch_array_size
  pub size : stmt.fetch_array_size < 2 ^ 32
  pub held : stmt.buffer_row_count < 2 ^ 32
  pub aligned :
      (stmt.buffer_row_count ≤ stmt.buffer_row_index)
      ⊎ (stmt.buffer_min_row + stmt.buffer_row_index ≡ stmt.row_count + 1)

-- What the calls outside promise while nothing fails: OCIStmtFetch2 moves the cursor over the rows
-- asked for, or over those that remain, and answers OCI_NO_DATA in the second case.
pub record Serves {S : Type 0} (client : Client S) (remaining : S → ℕ) : Type 0 where
  pub starts : (s : S) → client.start s ≡ ok tt
  pub connects : (s : S) → client.connected s ≡ ok tt
  pub pre_fetches : (s : S) (i : ℕ) → client.extended_pre_fetch s i ≡ ok tt
  pub converts : (s : S) (i j : ℕ) → client.get_value s i j ≡ ok tt
  pub moves : (s : S) (n : ℕ) → remaining (client.fetch s n fetch_next (pos 0)).0 ≡ remaining s - n
  pub answers :
      (s : S) (n : ℕ)
      → (client.fetch s n fetch_next (pos 0)).1 ≡ (if ltb (remaining s) n then no_data else fetched)
  pub counts :
      (s : S) (n : ℕ)
      → client.rows_fetched (client.fetch s n fetch_next (pos 0)).0
        ≡ ok (if ltb (remaining s) n then remaining s else n)

if_same : (b : Bool) (r : Result (Unit {0})) → (if b then r else r) ≡ r
if_same true r = refl
if_same false r = refl

module _ {S : Type 0} (client : Client S) (remaining : S → ℕ)
    (serves : Serves client remaining) where
  prepare_vars-ready :
      (s : S) (size i : ℕ) (vs : List (Option Var))
      → AreReady size vs
      → prepare_vars client s size i vs ≡ (vs, ok tt)
  unfolding prepare_vars
  prepare_vars-ready s size i [] h = refl
  prepare_vars-ready s size i (none ∷ vs) h = absurd h
  prepare_vars-ready s size i (some v ∷ vs) (h, hs) =
      let enough : ltb v.max_array_size size ≡ false = ground arith in
      rw
        (
          enough,
          serves.pre_fetches s i,
          if_same v.requires_pre_fetch (ok tt),
          prepare_vars-ready s size (i + 1) vs hs,
        )
        refl

  -- A statement that is ready passes the checks.
  pub check-ready : (w : World S) → IsReady w.stmt → check client w ≡ (w, ok tt)
  unfolding check
  check-ready w v =
      let typed : (w.stmt.statement_type == 0) ≡ false = ground (arith, v.typed) in
      rw (serves.starts w.cursor, v.handle, v.parent, serves.connects w.cursor, typed) refl

  pub before_fetch-ready :
      (s : S) (stmt : Stmt) → IsReady stmt → before_fetch client s stmt ≡ (stmt, ok tt)
  unfolding before_fetch
  before_fetch-ready s stmt v =
      rw (v.described, prepare_vars-ready s stmt.fetch_array_size 0 stmt.query_vars v.vars) refl

  convert_rows-ready :
      (s : S) (i j n : ℕ) (v : Var)
      → ((convert_rows client s i j n v).1 ≡ ok tt)
        × ((convert_rows client s i j n v).0.max_array_size ≡ v.max_array_size)
  unfolding convert_rows
  convert_rows-ready s i j zero v = (refl, refl)
  convert_rows-ready s i j (suc n) v =
      let v' = if v.type_requires_pre_fetch then record v { requires_pre_fetch = true } else v in
      let (e, k) = convert_rows-ready s i (j + 1) n v' in
      rw (serves.converts s i j) (e, k ∙ kept v.type_requires_pre_fetch)
    where
      kept :
          (b : Bool)
          → (if b then record v { requires_pre_fetch = true } else v).max_array_size
            ≡ v.max_array_size
      kept true = refl
      kept false = refl

  pub convert_vars-ready :
      (s : S) (size i n : ℕ) (vs : List (Option Var))
      → AreReady size vs
      → ((convert_vars client s i n vs).1 ≡ ok tt) × AreReady size (convert_vars client s i n vs).0
  unfolding convert_vars
  convert_vars-ready s size i n [] h = (refl, tt)
  convert_vars-ready s size i n (none ∷ vs) h = absurd h
  convert_vars-ready s size i n (some v ∷ vs) (h, hs) =
      let (e, k) = convert_rows-ready s i 0 n v in
      let (e', hs') = convert_vars-ready s size (i + 1) n vs hs in rw e (e', (omega arith, hs'))

  pub post_fetch-ready :
      (s : S) (stmt : Stmt)
      → AreReady stmt.fetch_array_size stmt.query_vars
      → (post_fetch client s stmt).1 ≡ ok tt
  unfolding post_fetch
  post_fetch-ready s stmt h =
      (convert_vars-ready s stmt.fetch_array_size 0 stmt.buffer_row_count stmt.query_vars h).0

  -- The cursor behind a fetch of the statement's size, and how many rows it gives.
  abbrev pub moved : World S → S
  moved w = (client.fetch w.cursor w.stmt.fetch_array_size fetch_next (pos 0)).0

  abbrev pub short : World S → Bool
  short w = ltb (remaining w.cursor) w.stmt.fetch_array_size

  abbrev pub given : World S → ℕ
  given w = if short w then remaining w.cursor else w.stmt.fetch_array_size

  note_status_next :
      (b : Bool) (stmt : Stmt)
      → note_status fetch_next (if b then no_data else fetched) stmt
        ≡ (record stmt { has_rows_to_fetch = not b }, ok tt)
  note_status_next true stmt = refl
  note_status_next false stmt = refl

  stmt_fetch2-ready :
      (w : World S)
      → stmt_fetch2 client w w.stmt.fetch_array_size fetch_next (pos 0) ≡ (
        record { stmt = record w.stmt { has_rows_to_fetch = not (short w) }; cursor = moved w },
        ok tt,
      )
  unfolding stmt_fetch2
  stmt_fetch2-ready w =
      rw (serves.answers w.cursor w.stmt.fetch_array_size, note_status_next (short w) w.stmt) refl

  -- The statement behind its refill, before the values are converted.
  abbrev pub noted : World S → Stmt
  noted w = note_rows (record w.stmt { has_rows_to_fetch = not (short w) }) (given w)

  pub refill-ready :
      (w : World S)
      → IsReady w.stmt
      → refill client w
        ≡ (record { stmt = (post_fetch client (moved w) (noted w)).0; cursor = moved w }, ok tt)
  unfolding refill
  refill-ready w v =
      rw
        (
          before_fetch-ready w.cursor w.stmt v,
          stmt_fetch2-ready w,
          serves.counts w.cursor w.stmt.fetch_array_size,
          post_fetch-ready (moved w) (noted w) v.vars,
        )
        refl
