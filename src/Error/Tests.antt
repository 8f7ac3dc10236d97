-- ===== src/Error/Tests.antt =====
-- The messages, and the theorems on errors at concrete ones.
use alpha_odpi.Prelude.{ℕ, ◌≡◌, refl, inl, true, false, List, [], ◌∷◌, arith, none, some}
use alpha_odpi.Error.{ErrorNum}
use alpha_odpi.Number.Scan.{single_byte, utf16_little}
use alpha_odpi.Error.Buffer.{Buffer, wrap}
use alpha_odpi.Error.Oci.{Answers, Session, success_with_info, failed, set_from_oci}
use alpha_odpi.Error.Length.{Fits, AreWithin, set_from_oci-Fits}
use alpha_odpi.Error.Oci.{check_session, unify}
use alpha_odpi.Error.Health.{Judged, set_from_oci-Judged}

-- The client tells that the server closed the connection: ORA-03113.
abbrev lost : Answers
lost = record {
  error = some (3113, 69 ∷ 79 ∷ 70 ∷ 10 ∷ []);
  recoverable = true;
  server_normal = true;
  server_failure = none;
  timeout = 0;
}

abbrev open_session : Session
open_session = record { creating = false; dead = false; has_server_handle = true }

abbrev no_error : Buffer
no_error = record {
  code = 0;
  offset = 0;
  error_num = none;
  message = [];
  message_length = 0;
  is_recoverable = false;
  is_warning = false;
}

abbrev closed_text : ErrorNum → List ℕ
closed_text e = 68 ∷ 80 ∷ 73 ∷ []

-- The message of the client, less its line feed, is kept behind that of the library.
lost_message :
    (set_from_oci closed_text true single_byte true lost failed
      (some open_session)
      no_error).1.message
    ≡ 68 ∷ 80 ∷ 73 ∷ 10 ∷ 69 ∷ 79 ∷ 70 ∷ []
unfolding set_from_oci wrap check_session unify
lost_message = refl

-- In UTF-16 it is cut off at its first zero byte.
lost_utf16 :
    (set_from_oci closed_text true utf16_little true
      (record lost { error = some (3113, 69 ∷ 0 ∷ 79 ∷ 0 ∷ []) })
      failed
      (some open_session)
      no_error).1.message
    ≡ 68 ∷ 80 ∷ 73 ∷ 10 ∷ 69 ∷ []
unfolding set_from_oci wrap check_session unify
lost_utf16 = refl

lost-AreWithin : AreWithin lost
lost-AreWithin = record { error_within = omega arith; failure_within = tt }

set_from_oci-Fits_example :
    Fits (set_from_oci closed_text true single_byte true lost failed (some open_session) no_error).1
set_from_oci-Fits_example =
    set_from_oci-Fits closed_text single_byte true lost true failed (some open_session) no_error
      lost-AreWithin

set_from_oci-Judged_example :
    let (conn, b', done) =
      set_from_oci closed_text true single_byte true lost failed (some open_session) no_error in
    Judged lost 3113 open_session conn b' × (done ≡ false)
set_from_oci-Judged_example =
    set_from_oci-Judged closed_text single_byte true lost failed open_session no_error 3113
      (69 ∷ 79 ∷ 70 ∷ 10 ∷ []) (inl refl) refl refl refl

succeeds :
    (set_from_oci closed_text true single_byte true lost success_with_info none no_error).2 ≡ true
unfolding set_from_oci
succeeds = refl
