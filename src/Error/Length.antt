-- ===== src/Error/Length.antt =====
-- The length of what the error buffer holds.
use alpha_odpi.Prelude.{
  ℕ, ◌+◌, ◌-◌, ◌*◌, ◌≤◌, ◌<◌, Bool, true, false, not, ◌&&◌, ◌||◌, List, [], ◌∷◌, Option, none, some,
  length, take, arith, length-take, length-append, ◌==◌, ltb, if◌then◌else◌, inl, inr, Bool-cases,
}
use alpha_odpi.Error.{
  ErrorNum, conn_closed, call_timeout, get_failed, invalid_handle, err_not_initialized,
  unexpected_oci_return_value,
}
use alpha_odpi.Number.Scan.{Charset, single_byte, utf16_little, utf16_big, units}
use alpha_odpi.Error.Buffer.{
  Buffer, set_error, wrap, max_error_size, append_original, print_within, until_zero,
}
use alpha_odpi.Error.Oci.{
  success_with_info, failed, no_data, invalid, unexpected, Answers, Session, Status, set_from_oci,
  with_error, with_session, check_session, unify, fetched, trimmed_length, trimmed_units, is_space,
  message_bytes, after_server, is_among, timeout_codes, is_invalid, unexpected, is_unexpected,
}

-- The length that is noted is not beyond the message, and leaves room for the terminating zero.
pub record Fits (b : Buffer) : Type 0 where
  pub noted : b.message_length ≤ length b.message
  pub terminated : b.message_length < max_error_size

pub set_error-Fits :
    (num : ErrorNum) (formatted : List ℕ) (b : Buffer) → Fits (set_error num formatted b)
unfolding set_error
set_error-Fits num formatted b = record {
  noted = omega arith;
  terminated = omega (arith, length-take (3072 - 1) formatted);
}

length-append_original :
    (text original : List ℕ)
    → length (append_original (print_within max_error_size text) original) < max_error_size
length-append_original text original = omega (
  arith,
  length-append (print_within max_error_size text) (
      print_within (max_error_size - length (print_within max_error_size text))
        (10 ∷ until_zero original)),
  length-take (3072 - 1) text,
  length-take (3072 - length (print_within max_error_size text) - 1) (10 ∷ until_zero original),
)

pub wrap-Fits :
    (num : ErrorNum) (formatted : List ℕ) (copied : Bool) (b : Buffer)
    → Fits (wrap num formatted copied b)
unfolding wrap
wrap-Fits num formatted true b = record {
  noted = omega arith;
  terminated = length-append_original formatted (take b.message_length b.message);
}
wrap-Fits num formatted false b = record {
  noted = omega arith;
  terminated = omega (arith, length-take (3072 - 1) formatted);
}

trimmed_length-le : (cs : List ℕ) → trimmed_length cs ≤ length cs
unfolding trimmed_length
trimmed_length-le [] = omega arith
trimmed_length-le (c ∷ []) = omega arith
trimmed_length-le (c ∷ d ∷ cs) = ground (arith, trimmed_length-le (d ∷ cs))

trimmed_units-le :
    (i num : ℕ) (us : List ℕ) → num ≤ i + length us → trimmed_units i num us ≤ i + length us
unfolding trimmed_units
trimmed_units-le i num [] h = omega arith
trimmed_units-le i num (u ∷ us) h = elim (Bool-cases (u == 0)) [
  | inl e ↦ rw e h
  | inr e ↦ rw e (
      omega (
        arith,
        trimmed_units-le (i + 1) (if ltb 127 u || not (is_space u) then i + 1 else num) us
            (ground arith),
      ))
]

length-units : (f : ℕ → ℕ → ℕ) (bs : List ℕ) → 2 * length (units f bs) ≤ length bs
length-units f [] = omega arith
length-units f (a ∷ []) = omega arith
length-units f (a ∷ b ∷ bs) = omega (arith, length-units f bs)

units-le : (f : ℕ → ℕ → ℕ) (bs : List ℕ) → trimmed_units 0 0 (units f bs) * 2 ≤ length bs
units-le f bs = omega (arith, trimmed_units-le 0 0 (units f bs) (omega arith), length-units f bs)

message_bytes-le : (cs : Charset) (message : List ℕ) → message_bytes cs message ≤ length message
message_bytes-le single_byte message = trimmed_length-le message
message_bytes-le utf16_little message = units-le (λ a b. a + 256 * b) message
message_bytes-le utf16_big message = units-le (λ a b. 256 * a + b) message

abbrev pub error_size : Option (ℕ × List ℕ) → ℕ
error_size none = 0
error_size (some (code, message)) = length message

abbrev pub FailureFits : Option Buffer → Type 0
FailureFits none = Unit
FailureFits (some b) = Fits b

-- The texts that the client gives keep to the buffer.
pub record AreWithin (a : Answers) : Type 0 where
  pub error_within : error_size a.error < max_error_size
  pub failure_within : FailureFits a.server_failure

module _ (format : ErrorNum → List ℕ) (cs : Charset) (copied : Bool) (a : Answers) where
  after_server-Fits :
      (f : Option Buffer) (b : Buffer) → FailureFits f → Fits b → Fits (after_server f b)
  after_server-Fits none b h v = v
  after_server-Fits (some c) b h v = h

  check_session-Fits :
      (s : Session) (b : Buffer) → AreWithin a → Fits b → Fits (check_session a s b).1
  unfolding check_session
  check_session-Fits s b w v = elim (Bool-cases s.has_server_handle) [
    | inl e ↦ rw e (after_server-Fits a.server_failure b w.failure_within v)
    | inr e ↦ rw e v
  ]

  unify-Fits : (s : Session) (b : Buffer) → Fits b → Fits (unify format copied a s b)
  unfolding unify
  unify-Fits s b v = elim (Bool-cases s.dead) [
    | inl e ↦ rw e (wrap-Fits conn_closed (format conn_closed) copied b)
    | inr e ↦ elim (Bool-cases (is_among b.code timeout_codes && ltb 0 a.timeout)) [
      | inl f ↦ rw (e, f) (wrap-Fits call_timeout (format call_timeout) copied b)
      | inr f ↦ rw (e, f) v
    ]
  ]

  with_session-Fits :
      (conn : Option Session) (b : Buffer)
      → AreWithin a
      → Fits b
      → Fits (with_session format copied a conn b).1
  with_session-Fits none b w v = v
  with_session-Fits (some s) b w v = elim (Bool-cases (s.creating || s.dead)) [
    | inl e ↦ rw e v
    | inr e ↦
        rw e
          (unify-Fits (check_session a s b).0 (check_session a s b).1 (check_session-Fits s b w v))
  ]

  fetched-Fits :
      (code : ℕ) (message : List ℕ) (b : Buffer)
      → length message < max_error_size
      → Fits (fetched cs code message b)
  fetched-Fits code message b h = record {
    noted = message_bytes-le cs message;
    terminated = omega (arith, message_bytes-le cs message);
  }

  recovered :
      (code : ℕ) (message : List ℕ) (b : Buffer)
      → length message < max_error_size
      → Fits (record (fetched cs code message b) { is_recoverable = a.recoverable })
  recovered code message b h =
      let v = fetched-Fits code message b h in record { noted = v.noted; terminated = v.terminated }

  with_error-Fits :
      (status : Status) (conn : Option Session) (e : Option (ℕ × List ℕ)) (b : Buffer)
      → AreWithin a
      → error_size e < max_error_size
      → Fits (with_error format cs copied a status conn e b).1
  with_error-Fits status conn none b w h = set_error-Fits get_failed (format get_failed) b
  with_error-Fits success_with_info conn (some (code, message)) b w h =
      let v = fetched-Fits code message b h in record { noted = v.noted; terminated = v.terminated }
  with_error-Fits failed conn (some (code, message)) b w h =
      with_session-Fits conn _ w (recovered code message b h)
  with_error-Fits no_data conn (some (code, message)) b w h =
      with_session-Fits conn _ w (recovered code message b h)
  with_error-Fits invalid conn (some (code, message)) b w h =
      with_session-Fits conn _ w (recovered code message b h)
  with_error-Fits (unexpected n) conn (some (code, message)) b w h =
      with_session-Fits conn _ w (recovered code message b h)

  -- With a client that ends every message with a zero within the error buffer (for UTF-16, a
  -- message of whole units), the length that is noted for any error is at most that of the message
  -- in the buffer and below 3072, the size of the buffer.
  pub set_from_oci-Fits :
      (initialised : Bool) (status : Status) (conn : Option Session) (b : Buffer)
      → AreWithin a
      → Fits (set_from_oci format initialised cs copied a status conn b).1
  unfolding set_from_oci
  set_from_oci-Fits initialised status conn b w = elim (Bool-cases (is_invalid status)) [
    | inl e ↦ rw e (set_error-Fits invalid_handle (format invalid_handle) b)
    | inr e ↦ elim (Bool-cases initialised) [
      | inr f ↦ rw (e, f) (set_error-Fits err_not_initialized (format err_not_initialized) b)
      | inl f ↦ elim (Bool-cases (is_unexpected status)) [
        | inl g ↦
            rw (e, f, g)
              (set_error-Fits unexpected_oci_return_value (format unexpected_oci_return_value) b)
        | inr g ↦ rw (e, f, g) (with_error-Fits status conn a.error b w w.error_within)
      ]
    ]
  ]
