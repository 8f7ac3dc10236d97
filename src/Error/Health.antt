-- ===== src/Error/Health.antt =====
-- When an error tells that its session is dead.
use alpha_odpi.Prelude.{
  ℕ, ◌≡◌, ◌<◌, refl, ◌⊎◌, inl, inr, Bool, true, false, not, ◌&&◌, ◌||◌, List, Option, none, some,
  ltb, if◌then◌else◌, Bool-cases, arith, ap, ap₂, subst, sym,
}
use alpha_odpi.Error.{ErrorNum, conn_closed, call_timeout}
use alpha_odpi.Number.Scan.{Charset}
use alpha_odpi.Error.Buffer.{Buffer, wrap}
use alpha_odpi.Error.Oci.{
  Answers, Session, Status, success_with_info, failed, no_data, invalid, unexpected, set_from_oci,
  with_error, with_session, check_session, unify, is_among, dead_codes, timeout_codes, after_server,
  is_failure, server_lost, fetched,
}

-- The session is lost, by its server or by the code of the error.
abbrev IsLost : Answers → ℕ → Session → Type 0
IsLost a code s =
    ((s.has_server_handle ≡ true)
      × ((is_failure a.server_failure ≡ true) ⊎ (a.server_normal ≡ false)))
    ⊎ (is_among code dead_codes ≡ true)

-- The code tells of a timeout of calls, and there is one.
abbrev IsTimeout : Answers → ℕ → Type 0
IsTimeout a code = (is_among code timeout_codes ≡ true) × (0 < a.timeout)

-- What an error with a code does to a session that was neither being created nor dead, and to the
-- buffer: the session is found dead, or the call has timed out, or the error stays as it is.
pub data Judged (a : Answers) (code : ℕ) (s : Session) : Option Session → Buffer → Type 0 where
  found_dead :
      (b : Buffer)
      → IsLost a code s
      → b.error_num ≡ some conn_closed
      → b.code ≡ 0
      → Judged a code s (some (record s { dead = true })) b
  timed_out :
      (b : Buffer)
      → ¬ IsLost a code s
      → IsTimeout a code
      → b.error_num ≡ some call_timeout
      → b.code ≡ 0
      → Judged a code s (some (record s { dead = false })) b
  alive :
      (b : Buffer)
      → ¬ IsLost a code s
      → ¬ IsTimeout a code
      → b.code ≡ code
      → Judged a code s (some (record s { dead = false })) b

module _ (format : ErrorNum → List ℕ) (cs : Charset) (copied : Bool) (a : Answers) where
  not-IsLost :
      (s : Session) (code : ℕ)
      → (server_lost a s || is_among code dead_codes) ≡ false
      → ¬ IsLost a code s
  not-IsLost s code h (inl (e, inl f)) = ground arith
  not-IsLost s code h (inl (e, inr f)) = ground arith
  not-IsLost s code h (inr e) = ground arith

  is_lost :
      (s : Session) (code : ℕ)
      → (server_lost a s || is_among code dead_codes) ≡ true
      → IsLost a code s
  is_lost s code h = ground arith

  -- The buffer is the one of the error, unless the session is lost.
  abbrev checked_buffer : Session → Buffer → Buffer
  checked_buffer s b = if s.has_server_handle then after_server a.server_failure b else b

  same_buffer : (s : Session) (b : Buffer) → server_lost a s ≡ false → checked_buffer s b ≡ b
  same_buffer s b h = choose s.has_server_handle a.server_failure h
    where
      choose :
          (t : Bool) (o : Option Buffer)
          → (t && (is_failure o || not a.server_normal)) ≡ false
          → (if t then after_server o b else b) ≡ b
      choose false o h = refl
      choose true none h = refl
      choose true (some c) h = cc

  unify-Judged :
      (s : Session) (b b' : Buffer) (bad : Bool)
      → (bad ≡ true → IsLost a b.code s)
      → (bad ≡ false → (b' ≡ b) × ¬ IsLost a b.code s)
      → Judged a b.code s
          (some (record s { dead = bad }))
          (unify format copied a (record s { dead = bad }) b')
  unfolding unify wrap
  unify-Judged s b b' true l k = found_dead _ (l refl) refl refl
  unify-Judged s b b' false l k =
      let (same, kept) = k refl in
      elim (Bool-cases (is_among b.code timeout_codes && ltb 0 a.timeout)) [
        | inl t ↦ rw (same, t) (timed_out _ kept (ground arith, ground arith) refl refl)
        | inr t ↦ rw (same, t) (alive b kept (λ h. ground arith) refl)
      ]

  -- The checks of a session.
  with_session-Judged :
      (s : Session) (b : Buffer)
      → s.creating ≡ false
      → s.dead ≡ false
      → let (conn, b') = with_session format copied a (some s) b in Judged a b.code s conn b'
  unfolding check_session
  with_session-Judged s b g k =
      let open_session : (s.creating || s.dead) ≡ false = ap₂ (λ x y. x || y) g k in
      rw open_session (
        unify-Judged s b (checked_buffer s b) _ (is_found (Bool-cases (server_lost a s)))
          (is_kept (Bool-cases (server_lost a s))))
    where
      is_found :
          (server_lost a s ≡ true) ⊎ (server_lost a s ≡ false)
          → (server_lost a s || is_among (checked_buffer s b).code dead_codes) ≡ true
          → IsLost a b.code s
      is_found (inl t) h = is_lost s b.code (ap (λ x. x || is_among b.code dead_codes) t)
      is_found (inr t) h = is_lost s b.code (
          subst (λ (c : Buffer). (server_lost a s || is_among c.code dead_codes) ≡ true)
            (same_buffer s b t) h)

      is_kept :
          (server_lost a s ≡ true) ⊎ (server_lost a s ≡ false)
          → (server_lost a s || is_among (checked_buffer s b).code dead_codes) ≡ false
          → (checked_buffer s b ≡ b) × ¬ IsLost a b.code s
      is_kept (inl t) h = ground arith
      is_kept (inr t) h = (
        same_buffer s b t,
        not-IsLost s b.code (
            subst (λ (c : Buffer). (server_lost a s || is_among c.code dead_codes) ≡ false)
              (same_buffer s b t) h),
      )

  abbrev recoverable_error : ℕ → List ℕ → Buffer → Buffer
  recoverable_error code message b = record (fetched cs code message b) {
    is_recoverable = a.recoverable;
  }

  abbrev JudgedError : Status → Session → Buffer → ℕ → Option (ℕ × List ℕ) → Type 0
  JudgedError status s b code e =
      let (conn, b', done) = with_error format cs copied a status (some s) e b in
      Judged a code s conn b' × (done ≡ false)

  -- For an error of the client that could be fetched, on a session that is neither dead nor being
  -- created: the call fails. If the state of the server handle cannot be read or is not normal, or
  -- the code is one of the fatal ones, the session is marked dead and the error is wrapped as a
  -- closed connection. Otherwise the session stays alive: if a timeout is set and the code tells of
  -- one, the error is wrapped as a call timeout, and if not, it keeps its code.
  pub set_from_oci-Judged :
      (status : Status) (s : Session) (b : Buffer) (code : ℕ) (message : List ℕ)
      → (status ≡ failed) ⊎ (status ≡ no_data)
      → a.error ≡ some (code, message)
      → s.creating ≡ false
      → s.dead ≡ false
      → let (conn, b', done) = set_from_oci format true cs copied a status (some s) b in
        Judged a code s conn b' × (done ≡ false)
  unfolding set_from_oci
  set_from_oci-Judged failed s b code message h e g k =
      subst (JudgedError failed s b code) (sym e)
        (with_session-Judged s (recoverable_error code message b) g k, refl)
  set_from_oci-Judged no_data s b code message h e g k =
      subst (JudgedError no_data s b code) (sym e)
        (with_session-Judged s (recoverable_error code message b) g k, refl)
  set_from_oci-Judged success_with_info s b code message h e g k = absurd (ground arith)
  set_from_oci-Judged invalid s b code message h e g k = absurd (ground arith)
  set_from_oci-Judged (unexpected n) s b code message h e g k = absurd (ground arith)

  with_error-success :
      (status : Status) (conn : Option Session) (e : Option (ℕ × List ℕ)) (b : Buffer)
      → let (conn', b', done) = with_error format cs copied a status conn e b in
        done ≡ true → (status ≡ success_with_info) × (conn' ≡ conn) × (b'.is_warning ≡ true)
  with_error-success status conn none b h = cc
  with_error-success success_with_info conn (some (code, message)) b h = (refl, refl, refl)
  with_error-success failed conn (some (code, message)) b h = cc
  with_error-success no_data conn (some (code, message)) b h = cc
  with_error-success invalid conn (some (code, message)) b h = cc
  with_error-success (unexpected n) conn (some (code, message)) b h = cc

  -- An error of the client counts as a success only if its status is success with information; then
  -- the session is unchanged and the buffer holds a warning.
  set_from_oci-success :
      (initialised : Bool) (status : Status) (conn : Option Session) (b : Buffer)
      → (set_from_oci format initialised cs copied a status conn b).2 ≡ true
      → (status ≡ success_with_info)
        × ((set_from_oci format initialised cs copied a status conn b).0 ≡ conn)
        × ((set_from_oci format initialised cs copied a status conn b).1.is_warning ≡ true)
  unfolding set_from_oci
  set_from_oci-success initialised status conn b h =
      ground (arith, with_error-success status conn a.error b)

  -- An error on a session that is dead leaves it dead and otherwise as it is.
  set_from_oci-dead :
      (initialised : Bool) (status : Status) (s : Session) (b : Buffer)
      → s.dead ≡ true
      → (set_from_oci format initialised cs copied a status (some s) b).0 ≡ some s
  unfolding set_from_oci
  set_from_oci-dead initialised status s b h = ground arith
