-- ===== src/Handle/Counting.antt =====
-- What the public calls that count references do to a handle, over any sequence of them.
use alpha_odpi.Prelude.{
  ℕ, zero, suc, ◌+◌, ◌%◌, ◌^◌, ◌<◌, ◌≡◌, refl, Bool, true, false, List, [], ◌∷◌, length, arith,
  ◌==◌, if◌then◌else◌, some, ap₂,
}
use alpha_odpi.Prelude.Int.{ℤ, pos, negsuc}
use alpha_odpi.Error.{Result, ok, err, dpi, invalid_handle}
use alpha_odpi.Handle.{Base, allocate, to_u32, check_handle, set_ref_count}
use alpha_odpi.Handle.Types.{
  HandleType, type_index, type_def, conn_handle, pool_handle, stmt_handle, var_handle, lob_handle,
  object_handle, object_type_handle, object_attr_handle, subscr_handle, deq_options_handle,
  enq_options_handle, msg_props_handle, rowid_handle, context_handle, soda_coll_handle,
  soda_coll_cursor_handle, soda_db_handle, soda_doc_handle, soda_doc_cursor_handle, queue_handle,
  json_handle, vector_handle,
}
use alpha_odpi.Handle.Public.{Counted, counted, change_ref, add_ref, release_ref}

pub data Op : Type 0 where
  adds releases : Op

abbrev pub apply : HandleType → Op → Counted → Counted × Result (Unit {0})
apply t adds = add_ref (ok tt) t
apply t releases = release_ref (ok tt) t

-- The calls one after the other: where they lead, and what each answers.
abbrev pub run {ℓ} :
    {X : Type ℓ} → (Op → X → X × Result (Unit {0})) → List Op → X → X × List (Result (Unit {0}))
run f [] x = (x, [])
run f (o ∷ os) x = let (y, r) = f o x in let (z, rs) = run f os y in (z, r ∷ rs)

-- What is promised of them: a number of references, and no call on a handle that has none.
abbrev pub count : Op → ℕ → ℕ × Result (Unit {0})
count o zero = (0, err (dpi invalid_handle))
count adds (suc n) = (suc (suc n), ok tt)
count releases (suc n) = (n, ok tt)

abbrev pub check_of : HandleType → ℕ → ℕ
check_of t zero = 0
check_of t (suc n) = (type_def t).check_int

abbrev pub frees_of : ℕ → ℕ
frees_of zero = 1
frees_of (suc n) = 0

-- The check integer is in place as long as there are references, and the free routine was called
-- if and when there are none.
pub record IsCounted (t : HandleType) (s : Counted) (n : ℕ) : Type 0 where
  pub typed : s.base.handle_type ≡ t
  pub number : s.base.ref_count ≡ n
  pub checked : s.base.check_int ≡ check_of t n
  pub freed : s.frees ≡ frees_of n

-- No type has the check integer of a handle that was freed.
check_int_pos : (t : HandleType) → (0 == (type_def t).check_int) ≡ false
check_int_pos conn_handle = refl
check_int_pos pool_handle = refl
check_int_pos stmt_handle = refl
check_int_pos var_handle = refl
check_int_pos lob_handle = refl
check_int_pos object_handle = refl
check_int_pos object_type_handle = refl
check_int_pos object_attr_handle = refl
check_int_pos subscr_handle = refl
check_int_pos deq_options_handle = refl
check_int_pos enq_options_handle = refl
check_int_pos msg_props_handle = refl
check_int_pos rowid_handle = refl
check_int_pos context_handle = refl
check_int_pos soda_coll_handle = refl
check_int_pos soda_coll_cursor_handle = refl
check_int_pos soda_db_handle = refl
check_int_pos soda_doc_handle = refl
check_int_pos soda_doc_cursor_handle = refl
check_int_pos queue_handle = refl
check_int_pos json_handle = refl
check_int_pos vector_handle = refl

eq_self : (n : ℕ) → (n == n) ≡ true
eq_self n = ground arith

check_handle-live :
    (t : HandleType) (h : Base)
    → h.handle_type ≡ t
    → h.check_int ≡ (type_def t).check_int
    → check_handle (some h) t ≡ ok tt
unfolding check_handle
check_handle-live t h e f = rw (e, f, eq_self (type_index t), eq_self (type_def t).check_int) refl

check_handle-freed :
    (t : HandleType) (h : Base)
    → h.handle_type ≡ t
    → h.check_int ≡ 0
    → check_handle (some h) t ≡ err (dpi invalid_handle)
unfolding check_handle
check_handle-freed t h e f = rw (e, f, eq_self (type_index t), check_int_pos t) refl

count-le : (o : Op) (n k : ℕ) → n + suc k < 2 ^ 32 → (count o n).0 + k < 2 ^ 32
count-le adds zero k h = omega arith
count-le releases zero k h = omega arith
count-le adds (suc n) k h = omega arith
count-le releases (suc n) k h = omega arith

set_ref_count-IsCounted :
    (t : HandleType) (s : Counted) (n m : ℕ) (increment : ℤ)
    → IsCounted t s (suc n)
    → (suc n + to_u32 increment) % 2 ^ 32 ≡ m
    → IsCounted t (counted s increment) m
unfolding set_ref_count
set_ref_count-IsCounted t s n m increment v e = record {
  typed = v.typed;
  number = rw (v.number, e) refl;
  checked = rw (v.number, e, v.checked) (kept m);
  freed = rw (v.number, e, v.freed) (free m);
}
  where
    kept : (k : ℕ) → (if k == 0 then 0 else (type_def t).check_int) ≡ check_of t k
    kept zero = refl
    kept (suc k) = ground arith

    free : (k : ℕ) → (if k == 0 then 0 + 1 else 0) ≡ frees_of k
    free zero = refl
    free (suc k) = ground arith

apply-IsCounted :
    (t : HandleType) (o : Op) (s : Counted) (n : ℕ)
    → IsCounted t s n
    → n + 1 < 2 ^ 32
    → ((apply t o s).1 ≡ (count o n).1) × IsCounted t (apply t o s).0 (count o n).0
unfolding change_ref
apply-IsCounted t adds s zero v b = rw (check_handle-freed t s.base v.typed v.checked) (refl, v)
apply-IsCounted t releases s zero v b = rw (check_handle-freed t s.base v.typed v.checked) (refl, v)
apply-IsCounted t adds s (suc n) v b =
    rw (check_handle-live t s.base v.typed v.checked)
      (refl, set_ref_count-IsCounted t s n (suc (suc n)) (pos 1) v (omega arith))
apply-IsCounted t releases s (suc n) v b =
    rw (check_handle-live t s.base v.typed v.checked)
      (refl, set_ref_count-IsCounted t s n n (negsuc 0) v (omega arith))

-- Any sequence of calls that count references, on a handle with `n` of them.
run-count :
    (t : HandleType) (os : List Op) (s : Counted) (n : ℕ)
    → IsCounted t s n
    → n + length os < 2 ^ 32
    → ((run (apply t) os s).1 ≡ (run count os n).1)
      × IsCounted t (run (apply t) os s).0 (run count os n).0
run-count t [] s n v b = (refl, v)
run-count t (o ∷ os) s n v b =
    let (e, w) = apply-IsCounted t o s n v (omega arith) in
    let (f, x) = run-count t os (apply t o s).0 (count o n).0 w (count-le o n (length os) b) in
    (ap₂ (◌∷◌) e f, x)

allocated-IsCounted :
    (t : HandleType) (env memory env_memory : Bool) (h : Base)
    → allocate t env memory env_memory ≡ ok h
    → IsCounted t (record { base = h; frees = 0 }) 1
unfolding allocate
allocated-IsCounted t env memory env_memory h e = record {
  typed = ground arith;
  number = ground arith;
  checked = ground arith;
  freed = refl;
}

-- After an allocation that succeeds, any sequence of additions and releases of a reference through
-- the public calls (fewer than 2^32 in all) answers as a counter does that starts at 1: a call
-- succeeds while references are left and changes their number by one, and fails as a call on an
-- invalid handle once there are none. The free routine was called once if no reference is left, and
-- not at all otherwise.
pub allocate-run :
    (t : HandleType) (env memory env_memory : Bool) (h : Base) (os : List Op)
    → allocate t env memory env_memory ≡ ok h
    → length os + 1 < 2 ^ 32
    → ((run (apply t) os (record { base = h; frees = 0 })).1 ≡ (run count os 1).1)
      × ((run (apply t) os (record { base = h; frees = 0 })).0.frees ≡ frees_of (run count os 1).0)
allocate-run t env memory env_memory h os e b =
    let (f, v) =
      run-count t os (record { base = h; frees = 0 }) 1
        (allocated-IsCounted t env memory env_memory h e) (omega arith) in
    (f, v.freed)
