-- ===== src/Error/Buffer.antt =====
-- The error buffer of a call: `dpiError__set`, `dpiError__wrap` and `dpiError__getInfo` of
-- src/dpiError.c. `formatted` stands for the text that vsnprintf makes of a message and its
-- arguments, as far as it would be without a limit; no text holds a zero.
use alpha_odpi.Prelude.{
  ℕ, ◌-◌, Bool, true, false, not, ◌&&◌, List, [], ◌∷◌, ◌++◌, Option, none, some, length, take, ◌==◌,
  if◌then◌else◌,
}
use alpha_odpi.Error.{ErrorNum, conn_closed}
use alpha_odpi.Error.Messages.{error_index}

-- `DPI_MAX_ERROR_SIZE`
abbrev pub max_error_size : ℕ
max_error_size = 3072

-- `dpiErrorBuffer`, without the names of the function, the action and the encoding; an error number
-- of 0 is `none`. The message is the text up to its length.
pub record Buffer : Type 0 where
  pub code : ℕ
  pub offset : ℕ
  pub error_num : Option ErrorNum
  pub message : List ℕ
  pub message_length : ℕ
  pub is_recoverable : Bool
  pub is_warning : Bool

-- `vsnprintf` into a buffer of a size: the last byte is the terminating zero.
abbrev pub print_within : ℕ → List ℕ → List ℕ
print_within size text = take (size - 1) text

-- `dpiError__set`, on an error that is not NULL.
unfoldable pub set_error : ErrorNum → List ℕ → Buffer → Buffer
set_error num formatted b =
    let message = print_within max_error_size formatted in
    record {
      code = 0;
      offset = 0;
      error_num = some num;
      message = message;
      message_length = length message;
      is_recoverable = false;
      is_warning = false;
    }

-- `%.*s` prints no more than is in front of a zero.
abbrev pub until_zero : List ℕ → List ℕ
until_zero [] = []
until_zero (c ∷ cs) = if c == 0 then [] else c ∷ until_zero cs

-- The message, a line feed and the message that was there, in the space that is left.
abbrev pub append_original : List ℕ → List ℕ → List ℕ
append_original message original =
    message ++ print_within (max_error_size - length message) (10 ∷ until_zero original)

-- `dpiError__wrap`: `copied` is the answer of the allocator for the copy of the message.
unfoldable pub wrap : ErrorNum → List ℕ → Bool → Buffer → Buffer
wrap num formatted copied b =
    let message = print_within max_error_size formatted in
    let whole =
      if copied then append_original message (take b.message_length b.message) else message in
    record b { code = 0; error_num = some num; message = whole; message_length = length whole }

-- `sqlState`
pub data SqlState : Type 0 where
  base_table_not_found disconnect_error success general_error : SqlState

abbrev pub is_error : ErrorNum → Option ErrorNum → Bool
is_error e none = false
is_error e (some f) = error_index f == error_index e

abbrev pub has_number : Option ErrorNum → Bool
has_number none = false
has_number (some e) = true

-- The choice of `sqlState` in `dpiError__getInfo`: "42S02", "01002", "00000" or "HY000".
unfoldable pub sql_state : Buffer → SqlState
sql_state b =
    if b.code == 12154
    then base_table_not_found
    else if is_error conn_closed b.error_num
    then disconnect_error
    else if b.code == 0 && not (has_number b.error_num)
    then success
    else general_error
