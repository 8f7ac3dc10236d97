-- ===== src/Queue.antt =====
-- src/dpiQueue.c: how messages are put into a queue and taken out of it.
pub mod Enqueue
pub mod Delivery
pub mod Dequeue
mod Tests
use alpha_odpi.Prelude.{
  ℕ, Bool, true, false, not, ◌&&◌, ◌||◌, List, [], ◌∷◌, Option, none, some, ◌==◌, set, ◌+◌,
  if◌then◌else◌,
}
use alpha_odpi.Error.{
  Result, ok, err, dpi, fail_if, ◌>>◌, queue_no_payload, queue_wrong_payload_type, wrong_type,
}
use alpha_odpi.Handle.{Base}

-- `dpiObject`: the type's descriptor, and the pointers to the instance and its indicator.
pub record Object : Type 0 where
  pub tdo : ℕ
  pub instance_pointer : ℕ
  pub indicator_pointer : ℕ

-- `dpiMsgProps`: a payload that is NULL is `none`; that of JSON by the handle of its `dpiJson`.
pub record MsgProps : Type 0 where
  pub base : Base
  pub props_handle : ℕ
  pub payload_obj : Option Object
  pub payload_raw : Option ℕ
  pub payload_json : Option ℕ
  pub msg_id_raw : Option ℕ

-- What a pointer in the array of instances points to.
pub data Instance : Type 0 where
  object_at json_at raw_at : ℕ → Instance

-- An indicator of an object, or a place in the array of scalar indicators.
pub data Indicator : Type 0 where
  of_object scalar : ℕ → Indicator

-- A place in the arrays `handles`, `instances`, `indicators` and `msgIds`.
pub record Entry : Type 0 where
  pub message : ℕ
  pub payload : Instance
  pub indicator : Indicator
  pub msg_id : Option ℕ

-- `dpiQueue` with its `dpiQueueBuffer`: the descriptor of the type of its payload, or `none`;
-- whether the connection has a handle and is not closing.
pub record Queue : Type 0 where
  pub base : Option Base
  pub connected : Bool
  pub payload_tdo : Option ℕ
  pub is_json : Bool
  pub has_enq_options : Bool
  pub num_elements : ℕ
  pub entries : List Entry

abbrev pub given : {A : Type 0} → Option A → Bool
given none = false
given (some a) = true

abbrev pub other_type : Option ℕ → Option Object → Bool
other_type none object = false
other_type (some tdo) none = false
other_type (some tdo) (some object) = not (tdo == object.tdo)

-- `perform checks`
unfoldable pub check_payload : Queue → MsgProps → Result (Unit {0})
check_payload q p =
    fail_if (not (given p.payload_obj) && not (given p.payload_raw) && not (given p.payload_json))
      queue_no_payload
    >> fail_if
        ((q.is_json && not (given p.payload_json))
          || (given q.payload_tdo && not (given p.payload_obj))
          || (not q.is_json && not (given q.payload_tdo) && not (given p.payload_raw)))
        queue_wrong_payload_type
    >> fail_if (other_type q.payload_tdo p.payload_obj) wrong_type

-- The instance and the indicator; a NULL payload, which the checks do not let through, is 0.
abbrev pub raw_payload : Option ℕ → Option ℕ → ℕ → Instance × Indicator
raw_payload (some json) raw i = (json_at json, scalar i)
raw_payload none (some raw) i = (raw_at raw, scalar i)
raw_payload none none i = (raw_at 0, scalar i)

abbrev pub object_payload : Option Object → Instance × Indicator
object_payload none = (object_at 0, of_object 0)
object_payload (some o) = (object_at o.instance_pointer, of_object o.indicator_pointer)

abbrev pub payload_of : Option ℕ → MsgProps → ℕ → Instance × Indicator
payload_of none p i = raw_payload p.payload_json p.payload_raw i
payload_of (some tdo) p i = object_payload p.payload_obj

-- `set OCI arrays`
abbrev pub entry_of : Queue → ℕ → MsgProps → Entry
entry_of q i p =
    let (instance_of, indicator_of) = payload_of q.payload_tdo p i in
    record {
      message = p.props_handle;
      payload = instance_of;
      indicator = indicator_of;
      msg_id = p.msg_id_raw;
    }

abbrev pub if_valid :
    Result (Unit {0}) → List Entry → List Entry × Result (Unit {0}) → List Entry × Result (Unit {0})
if_valid (err e) es rest = (es, err e)
if_valid (ok u) es rest = rest

-- `populate buffer`, from place `i` on.
unfoldable pub fill : Queue → ℕ → List MsgProps → List Entry → List Entry × Result (Unit {0})
unfolding check_payload
fill q i [] es = (es, ok tt)
fill q i (p ∷ ps) es =
    let rest = fill q (i + 1) ps (set es i (entry_of q i p)) in if_valid (check_payload q p) es rest
