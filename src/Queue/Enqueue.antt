-- ===== src/Queue/Enqueue.antt =====
-- `dpiQueue__enq` and the public calls that use it, of src/dpiQueue.c.
use alpha_odpi.Prelude.{
  ℕ, Bool, true, not, List, [], ◌∷◌, Option, none, some, ◌==◌, ltb, take, length, if◌then◌else◌,
}
use alpha_odpi.Error.{
  Result, ok, err, dpi, fail_if, ◌>>◌, no_memory, not_connected, null_pointer_parameter,
}
use alpha_odpi.Handle.{check_handle}
use alpha_odpi.Handle.Types.{queue_handle, msg_props_handle}
use alpha_odpi.Handle.Public.{start_public_fn}
use alpha_odpi.Queue.{Queue, MsgProps, Entry, fill}

-- The client with state `S`: the descriptors of the types of RAW and JSON payloads, and OCIAQEnq and
-- OCIAQEnqArray, which read as many places of the arrays and give back the ids of the messages.
pub record QueueClient (S : Type 0) : Type 0 where
  pub json_tdo : Result ℕ
  pub raw_tdo : Result ℕ
  pub aq_enq : S → ℕ → List Entry → S × Result (List (Option ℕ))
  pub aq_enq_array : S → ℕ → List Entry → S × Result (List (Option ℕ))

-- What else may fail: the creation of the options, and the arrays of a new buffer, `none` if one of
-- them cannot be allocated.
pub record Resources : Type 0 where
  pub new_options : Result (Unit {0})
  pub new_buffer : ℕ → Option (List Entry)

-- `create enqueue options, if necessary`
abbrev pub with_options : Result (Unit {0}) → Queue → Queue × Result (Unit {0})
with_options (err e) q = (q, err e)
with_options (ok u) q = (record q { has_enq_options = true }, ok tt)

abbrev pub ensure_options : Resources → Queue → Queue × Result (Unit {0})
ensure_options r q = if q.has_enq_options then (q, ok tt) else with_options r.new_options q

-- `dpiQueue__allocateBuffer`
abbrev pub allocate_buffer : Option (List Entry) → ℕ → Queue → Queue × Result (Unit {0})
allocate_buffer none n q = (record q { num_elements = n; entries = [] }, err (dpi no_memory))
allocate_buffer (some es) n q = (record q { num_elements = n; entries = es }, ok tt)

-- `allocate buffer, if necessary`
abbrev pub ensure_buffer : Resources → ℕ → Queue × Result (Unit {0}) → Queue × Result (Unit {0})
ensure_buffer r n (q, err e) = (q, err e)
ensure_buffer r n (q, ok u) =
    if ltb q.num_elements n then allocate_buffer (r.new_buffer n) n q else (q, ok tt)

abbrev pub filled : Queue → List Entry × Result (Unit {0}) → Queue × Result (Unit {0})
filled q (es, x) = (record q { entries = es }, x)

abbrev pub populate_buffer : List MsgProps → Queue × Result (Unit {0}) → Queue × Result (Unit {0})
populate_buffer ps (q, err e) = (q, err e)
populate_buffer ps (q, ok u) = filled q (fill q 0 ps q.entries)

-- `dpiQueue__check`
abbrev pub check_queue : Result (Unit {0}) → Queue → Result (Unit {0})
check_queue init q =
    start_public_fn init q.base queue_handle >> fail_if (not q.connected) not_connected

module _ {S : Type 0} (client : QueueClient S) where
  -- `dpiQueue__getPayloadTDO`
  abbrev pub get_payload_tdo : Option ℕ → Bool → Result ℕ
  get_payload_tdo (some tdo) is_json = ok tdo
  get_payload_tdo none is_json = if is_json then client.json_tdo else client.raw_tdo

  -- `transfer message ids back to message properties`
  abbrev pub transfer : List (Option ℕ) → List MsgProps → List MsgProps
  transfer [] ps = ps
  transfer (id ∷ ids) [] = []
  transfer (id ∷ ids) (p ∷ ps) = record p { msg_id_raw = id } ∷ transfer ids ps

  abbrev pub transferred : List MsgProps → S × Result (List (Option ℕ)) → S × Result (List MsgProps)
  transferred ps (s, err e) = (s, err e)
  transferred ps (s, ok ids) = (s, ok (transfer ids ps))

  -- `perform enqueue`
  abbrev pub perform : List MsgProps → List Entry → Result ℕ → S → S × Result (List MsgProps)
  perform ps es (err e) s = (s, err e)
  perform ps es (ok tdo) s = transferred ps (
      if length ps == 1
      then client.aq_enq s tdo (take 1 es)
      else client.aq_enq_array s tdo (take (length ps) es))

  abbrev pub performed :
      List MsgProps → S → Queue × Result (Unit {0}) → (S × Queue) × Result (List MsgProps)
  performed ps s (q, err e) = ((s, q), err e)
  performed ps s (q, ok u) =
      let (s', x) = perform ps q.entries (get_payload_tdo q.payload_tdo q.is_json) s in ((s', q), x)

  -- `dpiQueue__enq`
  unfoldable pub enq : Resources → List MsgProps → S → Queue → (S × Queue) × Result (List MsgProps)
  unfolding fill
  enq r [] s q = ((s, q), ok [])
  enq r (p ∷ ps) s q =
      performed (p ∷ ps) s
        (populate_buffer (p ∷ ps) (ensure_buffer r (length (p ∷ ps)) (ensure_options r q)))

  -- The loop that checks the handles of the messages.
  abbrev pub check_props : List MsgProps → Result (Unit {0})
  check_props [] = ok tt
  check_props (p ∷ ps) =
      let rest = check_props ps in check_handle (some p.base) msg_props_handle >> rest

  abbrev pub if_checked :
      Result (Unit {0})
      → Resources
      → List MsgProps
      → S
      → Queue
      → (S × Queue) × Result (List MsgProps)
  if_checked (err e) r ps s q = ((s, q), err e)
  if_checked (ok u) r ps s q = enq r ps s q

  -- `dpiQueue_enqMany`: the flag tells that the pointer is not NULL.
  unfoldable pub enq_many :
      Result (Unit {0})
      → Bool
      → Resources
      → List MsgProps
      → S
      → Queue
      → (S × Queue) × Result (List MsgProps)
  unfolding enq start_public_fn
  enq_many init props r ps s q =
      if_checked
        (check_queue init q >> fail_if (not props) null_pointer_parameter >> check_props ps) r ps s
        q

  -- `dpiQueue_enqOne`
  unfoldable pub enq_one :
      Result (Unit {0}) → Resources → MsgProps → S → Queue → (S × Queue) × Result (List MsgProps)
  unfolding enq start_public_fn
  enq_one init r p s q =
      if_checked (check_queue init q >> check_handle (some p.base) msg_props_handle) r (p ∷ []) s q
