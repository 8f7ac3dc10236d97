-- ===== src/Options.antt =====
-- The options and properties of Advanced Queuing, kept by the client as attributes of descriptors:
-- what src/dpiDeqOptions.c, src/dpiEnqOptions.c and src/dpiMsgProps.c have in common.
pub mod Attributes
pub mod Deq
pub mod Enq
pub mod Msg
pub mod RoundTrip
mod Tests
use alpha_odpi.Prelude.{
  ℕ, ◌+◌, Bool, true, false, not, ◌&&◌, List, Option, none, some, length, ltb, if◌then◌else◌,
}
use alpha_odpi.Error.{
  Result, ok, err, dpi, fail_if, ◌>>◌, null_pointer_parameter, param_size_too_large,
}
use alpha_odpi.Handle.{Base}
use alpha_odpi.Handle.Types.{HandleType}
use alpha_odpi.Handle.Public.{start_public_fn}

-- The value of an attribute: the bits of a number, or bytes.
pub data AttrValue : Type 0 where
  number : ℕ → AttrValue
  text : List ℕ → AttrValue

-- The client's calls on a descriptor with state `S`: OCIAttrGet, OCIAttrSet and OCIRawAssignBytes.
pub record AttrClient (S : Type 0) : Type 0 where
  pub attr_get : S → ℕ → Result AttrValue
  pub attr_set : S → ℕ → AttrValue → S × Result (Unit {0})
  pub raw_assign : List ℕ → Result (List ℕ)

-- `dpiDeqOptions`, `dpiEnqOptions` or `dpiMsgProps`: a pointer that is NULL has no base; `msgIdRaw`.
pub record Options (S : Type 0) : Type 0 where
  pub base : Option Base
  pub descriptor : S
  pub msg_id_raw : Option (List ℕ)

abbrev pub as_text : Option (List ℕ) → Option AttrValue
as_text none = none
as_text (some bytes) = some (text bytes)

-- The length that comes with a pointer is that of the bytes at it.
abbrev pub text_length : Option (List ℕ) → ℕ
text_length none = 0
text_length (some bytes) = length bytes

abbrev pub is_null : Option AttrValue → Bool
is_null none = true
is_null (some v) = false

module _ {S : Type 0} (client : AttrClient S) (init : Result (Unit {0})) (t : HandleType) where
  -- `dpiDeqOptions__getAttrValue` and the like: the flags tell that a pointer is not NULL, `init` is
  -- the answer of `dpiGlobal__initError`.
  unfoldable pub get_attr_value : ℕ → Bool → Bool → Options S → Result AttrValue
  unfolding start_public_fn
  get_attr_value attribute value value_length o =
      start_public_fn init o.base t
      >> fail_if (not value) null_pointer_parameter
      >> fail_if (not value_length) null_pointer_parameter
      >> client.attr_get o.descriptor attribute

  -- The checks of `dpiDeqOptions__setAttrValue` and the like.
  abbrev pub check_value : Option AttrValue → ℕ → ℕ → Options S → Result (Unit {0})
  check_value value value_length max_length o =
      start_public_fn init o.base t
      >> fail_if (is_null value) null_pointer_parameter
      >> fail_if (ltb 0 max_length && ltb max_length value_length) param_size_too_large

  abbrev pub assign :
      ℕ → Option AttrValue → Result (Unit {0}) → Options S → Options S × Result (Unit {0})
  assign attribute value (err e) o = (o, err e)
  assign attribute none (ok u) o = (o, err (dpi null_pointer_parameter))
  assign attribute (some v) (ok u) o =
      let (s, r) = client.attr_set o.descriptor attribute v in (record o { descriptor = s }, r)

  unfoldable pub set_attr_value :
      ℕ → Option AttrValue → ℕ → ℕ → Options S → Options S × Result (Unit {0})
  unfolding start_public_fn
  set_attr_value attribute value value_length max_length o =
      assign attribute value (check_value value value_length max_length o) o
