-- ===== src/Error/Messages.antt =====
-- The messages of the errors: `dpiErrorMessages` of src/dpiErrorMessages.h, and the enumeration by
-- which they are read.
use Prim.Native.String.{String}
use alpha_odpi.Prelude.{ℕ, List, [], ◌∷◌}
use alpha_odpi.Error.{
  ErrorNum, no_err, no_memory, invalid_handle, err_not_initialized, get_failed, create_env,
  convert_text, query_not_executed, unhandled_data_type, invalid_array_position, not_connected,
  conn_not_in_pool, invalid_proxy, not_supported, unhandled_conversion, array_size_too_big,
  invalid_date, value_is_null, array_size_too_small, buffer_size_too_small, version_not_supported,
  invalid_oracle_type, wrong_attr, not_collection, invalid_index, no_object_type, invalid_charset,
  scroll_out_of_rs, query_position_invalid, no_row_fetched, tls_error, array_size_zero,
  ext_auth_with_credentials, cannot_get_row_offset, conn_is_external, trans_id_too_large,
  branch_id_too_large, column_fetch, stmt_closed, lob_closed, invalid_charset_id,
  invalid_oci_number, invalid_number, number_no_repr, number_string_too_long,
  null_pointer_parameter, load_library, load_symbol, oracle_client_too_old, nls_env_var_get,
  ptr_length_mismatch, nan, wrong_type, buffer_size_too_large, no_edition_with_conn_class,
  no_bind_vars_in_ddl, subscr_closed, no_edition_with_new_password, unexpected_oci_return_value,
  exec_mode_only_for_dml, array_var_not_supported, events_mode_required, oracle_db_too_old,
  call_timeout, soda_cursor_closed, ext_auth_invalid_proxy, queue_no_payload,
  queue_wrong_payload_type, oracle_client_unsupported, missing_sharding_key, context_not_created,
  os, unhandled_json_node_type, unhandled_json_scalar_type, unhandled_conversion_to_json,
  oracle_client_too_old_multi, conn_closed, token_based_auth, pool_token_based_auth,
  standalone_token_based_auth, unsupported_vector_format, soda_doc_is_json, soda_doc_is_not_json,
  not_a_query, param_size_too_large,
}

-- `errorNum - DPI_ERR_NO_ERR`
abbrev pub error_index : ErrorNum → ℕ
error_index no_err = 0
error_index no_memory = 1
error_index invalid_handle = 2
error_index err_not_initialized = 3
error_index get_failed = 4
error_index create_env = 5
error_index convert_text = 6
error_index query_not_executed = 7
error_index unhandled_data_type = 8
error_index invalid_array_position = 9
error_index not_connected = 10
error_index conn_not_in_pool = 11
error_index invalid_proxy = 12
error_index not_supported = 13
error_index unhandled_conversion = 14
error_index array_size_too_big = 15
error_index invalid_date = 16
error_index value_is_null = 17
error_index array_size_too_small = 18
error_index buffer_size_too_small = 19
error_index version_not_supported = 20
error_index invalid_oracle_type = 21
error_index wrong_attr = 22
error_index not_collection = 23
error_index invalid_index = 24
error_index no_object_type = 25
error_index invalid_charset = 26
error_index scroll_out_of_rs = 27
error_index query_position_invalid = 28
error_index no_row_fetched = 29
error_index tls_error = 30
error_index array_size_zero = 31
error_index ext_auth_with_credentials = 32
error_index cannot_get_row_offset = 33
error_index conn_is_external = 34
error_index trans_id_too_large = 35
error_index branch_id_too_large = 36
error_index column_fetch = 37
error_index stmt_closed = 38
error_index lob_closed = 39
error_index invalid_charset_id = 40
error_index invalid_oci_number = 41
error_index invalid_number = 42
error_index number_no_repr = 43
error_index number_string_too_long = 44
error_index null_pointer_parameter = 45
error_index load_library = 46
error_index load_symbol = 47
error_index oracle_client_too_old = 48
error_index nls_env_var_get = 49
error_index ptr_length_mismatch = 50
error_index nan = 51
error_index wrong_type = 52
error_index buffer_size_too_large = 53
error_index no_edition_with_conn_class = 54
error_index no_bind_vars_in_ddl = 55
error_index subscr_closed = 56
error_index no_edition_with_new_password = 57
error_index unexpected_oci_return_value = 58
error_index exec_mode_only_for_dml = 59
error_index array_var_not_supported = 60
error_index events_mode_required = 61
error_index oracle_db_too_old = 62
error_index call_timeout = 63
error_index soda_cursor_closed = 64
error_index ext_auth_invalid_proxy = 65
error_index queue_no_payload = 66
error_index queue_wrong_payload_type = 67
error_index oracle_client_unsupported = 68
error_index missing_sharding_key = 69
error_index context_not_created = 70
error_index os = 71
error_index unhandled_json_node_type = 72
error_index unhandled_json_scalar_type = 73
error_index unhandled_conversion_to_json = 74
error_index oracle_client_too_old_multi = 75
error_index conn_closed = 76
error_index token_based_auth = 77
error_index pool_token_based_auth = 78
error_index standalone_token_based_auth = 79
error_index unsupported_vector_format = 80
error_index soda_doc_is_json = 81
error_index soda_doc_is_not_json = 82
error_index not_a_query = 83
error_index param_size_too_large = 84

abbrev pub error_messages : List String
error_messages =
    "DPI-1000: no error" ∷ "DPI-1001: out of memory" ∷ "DPI-1002: invalid %s handle"
    ∷ "DPI-1003: OCI error handle is not initialized" ∷ "DPI-1004: unable to get error message"
    ∷ "DPI-1005: unable to acquire Oracle environment handle"
    ∷ "DPI-1006: unable to convert text to session character set"
    ∷ "DPI-1007: no query has been executed" ∷ "DPI-1008: data type %d is not supported"
    ∷ "DPI-1009: zero-based position %u is not valid with max array size of %u"
    ∷ "DPI-1010: not connected" ∷ "DPI-1011: connection was not acquired from a session pool"
    ∷ "DPI-1012: proxy authentication is not possible with homogeneous pools"
    ∷ "DPI-1013: not supported"
    ∷ "DPI-1014: conversion between Oracle type %d and native type %d is not implemented"
    ∷ "DPI-1015: array size of %u is too large" ∷ "DPI-1016: invalid date"
    ∷ "DPI-1017: value is null" ∷ "DPI-1018: array size of %u is too small"
    ∷ "DPI-1019: buffer size of %u is too small"
    ∷ "DPI-1020: application requires ODPI-C %d (min %d.%d) but is using a shared library at version %d.%d"
    ∷ "DPI-1021: Oracle type %u is invalid"
    ∷ "DPI-1022: attribute %.*s is not part of object type %.*s.%.*s"
    ∷ "DPI-1023: object %.*s.%.*s is not a collection"
    ∷ "DPI-1024: element at index %d does not exist"
    ∷ "DPI-1025: no object type specified for object variable"
    ∷ "DPI-1026: invalid character set %s"
    ∷ "DPI-1027: scroll operation would go out of the result set"
    ∷ "DPI-1028: query position %u is invalid" ∷ "DPI-1029: no row currently fetched"
    ∷ "DPI-1030: unable to get or set error structure for thread local storage"
    ∷ "DPI-1031: array size cannot be zero"
    ∷ "DPI-1032: user name and password cannot be set when using external authentication"
    ∷ "DPI-1033: unable to get row offset"
    ∷ "DPI-1034: connection created from external handle cannot be closed"
    ∷ "DPI-1035: size of the transaction ID is %u and cannot exceed %u"
    ∷ "DPI-1036: size of the branch ID is %u and cannot exceed %u"
    ∷ "DPI-1037: column at array position %u fetched with error %u"
    ∷ "DPI-1039: statement was already closed" ∷ "DPI-1040: LOB was already closed"
    ∷ "DPI-1041: invalid character set id %d" ∷ "DPI-1042: invalid OCI number"
    ∷ "DPI-1043: invalid number" ∷ "DPI-1044: value cannot be represented as an Oracle number"
    ∷ "DPI-1045: strings converted to numbers can only be up to 172 characters long"
    ∷ "DPI-1046: parameter %s cannot be a NULL pointer"
    ∷ "DPI-1047: Cannot locate a %s-bit Oracle Client library: \"%s\". See %s for help"
    ∷ "DPI-1049: symbol %s not found in OCI library"
    ∷ "DPI-1050: Oracle Client library is at version %d.%d but version %d.%d or higher is needed"
    ∷ "DPI-1052: unable to get NLS environment variable"
    ∷ "DPI-1053: parameter %s cannot be a NULL pointer while corresponding length parameter is non-zero"
    ∷ "DPI-1055: value is not a number (NaN) and cannot be used in Oracle numbers"
    ∷ "DPI-1056: found object of type %.*s.%.*s when expecting object of type %.*s.%.*s"
    ∷ "DPI-1057: buffer size of %u is too large (max %u)"
    ∷ "DPI-1058: edition not supported with connection class"
    ∷ "DPI-1059: bind variables are not supported in DDL statements"
    ∷ "DPI-1060: subscription was already closed"
    ∷ "DPI-1061: edition is not supported when a new password is specified"
    ∷ "DPI-1062: unexpected OCI return value %d in function %s"
    ∷ "DPI-1063: modes DPI_MODE_EXEC_BATCH_ERRORS and DPI_MODE_EXEC_ARRAY_DML_ROWCOUNTS can only be used with insert, update, delete and merge statements"
    ∷ "DPI-1064: array variables are not supported with dpiStmt_executeMany()"
    ∷ "DPI-1065: events mode is required to subscribe to events in the database"
    ∷ "DPI-1066: Oracle Database is at version %d.%d but version %d.%d or higher is needed"
    ∷ "DPI-1067: call timeout of %u ms exceeded with ORA-%05d"
    ∷ "DPI-1068: SODA cursor was already closed"
    ∷ "DPI-1069: proxy user name must be enclosed in [] when using external authentication"
    ∷ "DPI-1070: no payload provided in message properties"
    ∷ "DPI-1071: payload type in message properties must match the payload type of the queue"
    ∷ "DPI-1072: the Oracle Client library version is unsupported"
    ∷ "DPI-1073: sharding key is required when specifying a super sharding key"
    ∷ "DPI-1074: ODPI-C context not created" ∷ "DPI-1075: OS error: %s"
    ∷ "DPI-1076: JSON node type %d is not supported"
    ∷ "DPI-1077: JSON scalar type %d is not supported"
    ∷ "DPI-1078: native type %d with Oracle type %d is not supported by JSON"
    ∷ "DPI-1079: Oracle Client library is at version %d.%d but either version %d.%d (or later DBRU) or version %d.%d (or higher) is needed"
    ∷ "DPI-1080: connection was closed by ORA-%05d"
    ∷ "DPI-1081: invalid dpiAccessToken structure. The token must contain a value"
    ∷ "DPI-1082: invalid connection pool configuration for token based authentication. Both homogeneous and externalAuth fields in the dpiPoolCreateParams structure must be set to 1"
    ∷ "DPI-1083: invalid standalone connection configuration for token based authentication. The externalAuth field in the dpiConnCreateParams structure must be set to 1"
    ∷ "DPI-1084: unsupported vector format %d"
    ∷ "DPI-1085: SODA document has JSON content. Call dpiJson_getJsonContent() instead."
    ∷ "DPI-1086: SODA document does not have JSON content. Call dpiJson_getContent() instead."
    ∷ "DPI-1087: not a query" ∷ "DPI-1088: parameter %s size of %u is too large (max %u)" ∷ []
