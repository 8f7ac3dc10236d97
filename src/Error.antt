-- ===== src/Error.antt =====
-- The error numbers of dpiImpl.h, and results that carry one in place of a value.
pub mod Messages
pub mod Buffer
pub mod Oci
pub mod Length
pub mod Health
pub mod Numbered
mod Tests
use alpha_odpi.Prelude.{ℕ, Bool, true, false, ◌≡◌, refl}

-- `dpiErrorNum`, in the order of the enumeration; `DPI_ERR_MAX` is a bound and no error.
pub data ErrorNum : Type 0 where
  no_err no_memory invalid_handle err_not_initialized get_failed create_env convert_text
        query_not_executed unhandled_data_type invalid_array_position not_connected conn_not_in_pool
        invalid_proxy not_supported unhandled_conversion array_size_too_big invalid_date
        value_is_null array_size_too_small buffer_size_too_small version_not_supported
        invalid_oracle_type wrong_attr not_collection invalid_index no_object_type invalid_charset
        scroll_out_of_rs query_position_invalid no_row_fetched tls_error array_size_zero
        ext_auth_with_credentials cannot_get_row_offset conn_is_external trans_id_too_large
        branch_id_too_large column_fetch stmt_closed lob_closed invalid_charset_id
        invalid_oci_number invalid_number number_no_repr number_string_too_long
        null_pointer_parameter load_library load_symbol oracle_client_too_old nls_env_var_get
        ptr_length_mismatch nan wrong_type buffer_size_too_large no_edition_with_conn_class
        no_bind_vars_in_ddl subscr_closed no_edition_with_new_password unexpected_oci_return_value
        exec_mode_only_for_dml array_var_not_supported events_mode_required oracle_db_too_old
        call_timeout soda_cursor_closed ext_auth_invalid_proxy queue_no_payload
        queue_wrong_payload_type oracle_client_unsupported missing_sharding_key context_not_created
        os unhandled_json_node_type unhandled_json_scalar_type unhandled_conversion_to_json
        oracle_client_too_old_multi conn_closed token_based_auth pool_token_based_auth
        standalone_token_based_auth unsupported_vector_format soda_doc_is_json soda_doc_is_not_json
        not_a_query param_size_too_large :
      ErrorNum

-- What a failing call leaves in the error buffer: a number set by `dpiError__set`, or the code of
-- an Oracle error that `dpiError__setFromOCI` has fetched.
pub data Error : Type 0 where
  dpi : ErrorNum → Error
  oracle : ℕ → Error

-- `DPI_SUCCESS` with what the call returns through its pointers, or `DPI_FAILURE`.
pub data Result {ℓ} (A : Type ℓ) : Type ℓ where
  ok : A → Result A
  err : Error → Result A

infixl 5 ◌>>=◌ ◌>>◌
-- What follows a call behind its test for a failure.
abbrev pub ◌>>=◌ {ℓ κ} :
    {Value : Type ℓ} {Next : Type κ} → Result Value → (Value → Result Next) → Result Next
err failure >>= next = err failure
ok value >>= next = next value

abbrev pub ◌>>◌ {ℓ} : {Next : Type ℓ} → Result (Unit {0}) → Result Next → Result Next
err failure >> next = err failure
ok tt >> next = next

-- `if (failed) return dpiError__set(error, action, e);`
abbrev pub fail_if : Bool → ErrorNum → Result (Unit {0})
fail_if true e = err (dpi e)
fail_if false e = ok tt

-- Every value that is returned has the property.
abbrev pub Ensures {ℓ κ} : {A : Type ℓ} → (A → Type κ) → Result A → Type κ
Ensures P (ok a) = P a
Ensures P (err e) = Unit

pub Ensures->>= {ℓ κ μ ν} :
    {A : Type ℓ} {B : Type κ} (P : A → Type μ) (Q : B → Type ν) (m : Result A) (f : A → Result B)
    → Ensures P m
    → ((a : A) → P a → Ensures Q (f a))
    → Ensures Q (m >>= f)
Ensures->>= P Q (ok a) f h k = k a h
Ensures->>= P Q (err e) f h k = tt

pub Ensures-fail_if {ℓ κ} :
    {B : Type ℓ} (Q : B → Type κ) (b : Bool) (e : ErrorNum) (r : Result B)
    → (b ≡ false → Ensures Q r)
    → Ensures Q (fail_if b e >> r)
Ensures-fail_if Q true e r h = tt
Ensures-fail_if Q false e r h = h refl

pub before_ok : (a b : Result (Unit {0})) → a >> b ≡ ok tt → a ≡ ok tt
before_ok (err e) b h = cc
before_ok (ok tt) b h = refl

pub after_ok : (a b : Result (Unit {0})) → a >> b ≡ ok tt → b ≡ ok tt
after_ok (err e) b h = cc
after_ok (ok tt) b h = h

pub fail_if-ok : (b : Bool) (e : ErrorNum) → fail_if b e ≡ ok tt → b ≡ false
fail_if-ok true e h = cc
fail_if-ok false e h = refl

pub Ensures-if_ok {ℓ κ} :
    {B : Type ℓ} (Q : B → Type κ) (m : Result (Unit {0})) (r : Result B)
    → (m ≡ ok tt → Ensures Q r)
    → Ensures Q (m >> r)
Ensures-if_ok Q (err e) r h = tt
Ensures-if_ok Q (ok tt) r h = h refl

pub Ensures-any {ℓ} : {A : Type ℓ} (r : Result A) → Ensures (λ _. Unit {0}) r
Ensures-any (ok a) = tt
Ensures-any (err e) = tt
