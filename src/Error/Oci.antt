-- ===== src/Error/Oci.antt =====
-- `dpiError__setFromOCI` of src/dpiError.c, and `dpiOci__errorGet` of src/dpiOci.c, which fetches
-- the error.
use alpha_odpi.Prelude.{
  ℕ, ◌+◌, ◌*◌, Bool, true, false, not, ◌&&◌, ◌||◌, List, [], ◌∷◌, Option, none, some, ltb, leb,
  ◌==◌, if◌then◌else◌,
}
use alpha_odpi.Error.{
  ErrorNum, conn_closed, call_timeout, invalid_handle, err_not_initialized,
  unexpected_oci_return_value, get_failed,
}
use alpha_odpi.Number.Scan.{Charset, single_byte, utf16_little, utf16_big, units}
use alpha_odpi.Error.Buffer.{Buffer, set_error, wrap}

-- `isspace` in the C locale
abbrev pub is_space : ℕ → Bool
is_space c = (leb 9 c && leb c 13) || c == 32

-- The length of a message without trailing spaces: the loop back from its end, which stops at the
-- first character.
unfoldable pub trimmed_length : List ℕ → ℕ
trimmed_length [] = 0
trimmed_length (c ∷ []) = 1
trimmed_length (c ∷ d ∷ cs) =
    let rest = trimmed_length (d ∷ cs) in if rest == 1 && is_space d then 1 else rest + 1

-- The loop over the units of UTF-16 text up to the first zero: `numChars` at the end.
unfoldable pub trimmed_units : ℕ → ℕ → List ℕ → ℕ
trimmed_units i num [] = num
trimmed_units i num (u ∷ us) =
    if u == 0
    then num
    else trimmed_units (i + 1) (if ltb 127 u || not (is_space u) then i + 1 else num) us

-- `status` of a call of the client
pub data Status : Type 0 where
  success_with_info failed no_data invalid : Status
  unexpected : ℕ → Status

-- The connection, as far as an error concerns it.
pub record Session : Type 0 where
  pub creating : Bool
  pub dead : Bool
  pub has_server_handle : Bool

-- What the client answers while an error is set: the error itself, with its code and the bytes of
-- its message up to the terminating zero;
-- whether it is recoverable; the state of the server, or the buffer that a failing call leaves; and
-- the call timeout, 0 where it cannot be read or the client is older than 18.
pub record Answers : Type 0 where
  pub error : Option (ℕ × List ℕ)
  pub recoverable : Bool
  pub server_normal : Bool
  pub server_failure : Option Buffer
  pub timeout : ℕ

-- The codes that tell of a dead session.
abbrev pub dead_codes : List ℕ
dead_codes =
    22 ∷ 28 ∷ 31 ∷ 45 ∷ 378 ∷ 602 ∷ 603 ∷ 609 ∷ 1012 ∷ 1041 ∷ 1043 ∷ 1089 ∷ 1092 ∷ 2396 ∷ 3113
    ∷ 3114 ∷ 3122 ∷ 3135 ∷ 12153 ∷ 12537 ∷ 12547 ∷ 12570 ∷ 12583 ∷ 27146 ∷ 28511 ∷ 56600 ∷ []

abbrev pub timeout_codes : List ℕ
timeout_codes = 3136 ∷ 3156 ∷ 12161 ∷ []

abbrev pub is_among : ℕ → List ℕ → Bool
is_among c [] = false
is_among c (d ∷ ds) = c == d || is_among c ds

-- The buffer behind the call that asks for the state of the server.
abbrev pub after_server : Option Buffer → Buffer → Buffer
after_server none b = b
after_server (some c) b = c

abbrev pub is_failure : Option Buffer → Bool
is_failure none = false
is_failure (some b) = true

-- The state of the server cannot be read, or is not the normal one.
abbrev pub server_lost : Answers → Session → Bool
server_lost a s = s.has_server_handle && (is_failure a.server_failure || not a.server_normal)

-- The check of a session that is neither being created nor dead.
unfoldable pub check_session : Answers → Session → Buffer → Session × Buffer
check_session a s b =
    let b' = if s.has_server_handle then after_server a.server_failure b else b in
    (record s { dead = server_lost a s || is_among b'.code dead_codes }, b')

-- The messages that take the place of the client's.
unfoldable pub unify : (ErrorNum → List ℕ) → Bool → Answers → Session → Buffer → Buffer
unify format copied a s b =
    if s.dead
    then wrap conn_closed (format conn_closed) copied b
    else if is_among b.code timeout_codes && ltb 0 a.timeout
    then wrap call_timeout (format call_timeout) copied b
    else b

abbrev pub with_session :
    (ErrorNum → List ℕ) → Bool → Answers → Option Session → Buffer → Option Session × Buffer
with_session format copied a none b = (none, b)
with_session format copied a (some s) b =
    if s.creating || s.dead
    then (some s, b)
    else let (s', b') = check_session a s b in (some s', unify format copied a s' b')

-- `messageLength`: the bytes of the message without trailing spaces.
abbrev pub message_bytes : Charset → List ℕ → ℕ
message_bytes single_byte message = trimmed_length message
message_bytes utf16_little message = trimmed_units 0 0 (units (λ a b. a + 256 * b) message) * 2
message_bytes utf16_big message = trimmed_units 0 0 (units (λ a b. 256 * a + b) message) * 2

-- The error as it was fetched. The number that the buffer has is kept: it is 0 from the start of the
-- call.
abbrev pub fetched : Charset → ℕ → List ℕ → Buffer → Buffer
fetched cs code message b = record b {
  code = code;
  message = message;
  message_length = message_bytes cs message;
}

abbrev pub with_error :
    (ErrorNum → List ℕ)
    → Charset
    → Bool
    → Answers
    → Status
    → Option Session
    → Option (ℕ × List ℕ)
    → Buffer
    → Option Session × Buffer × Bool
with_error format cs copied a status conn none b =
    (conn, set_error get_failed (format get_failed) b, false)
with_error format cs copied a success_with_info conn (some (code, message)) b =
    (conn, record (fetched cs code message b) { is_warning = true }, true)
with_error format cs copied a status conn (some (code, message)) b =
    let b' = record (fetched cs code message b) { is_recoverable = a.recoverable } in
    let (conn', b'') = with_session format copied a conn b' in (conn', b'', false)

abbrev pub is_unexpected : Status → Bool
is_unexpected (unexpected n) = true
is_unexpected status = false

abbrev pub is_invalid : Status → Bool
is_invalid invalid = true
is_invalid status = false

-- `dpiError__setFromOCI`, on an error that is not NULL and has a handle if `initialised` says so:
-- the connection, the buffer, and whether the call counts as a success.
unfoldable pub set_from_oci :
    (ErrorNum → List ℕ)
    → Bool
    → Charset
    → Bool
    → Answers
    → Status
    → Option Session
    → Buffer
    → Option Session × Buffer × Bool
unfolding trimmed_units trimmed_length
set_from_oci format initialised cs copied a status conn b =
    if is_invalid status
    then (conn, set_error invalid_handle (format invalid_handle) b, false)
    else if not initialised
    then (conn, set_error err_not_initialized (format err_not_initialized) b, false)
    else if is_unexpected status
    then (conn, set_error unexpected_oci_return_value (format unexpected_oci_return_value) b, false)
    else with_error format cs copied a status conn a.error b
