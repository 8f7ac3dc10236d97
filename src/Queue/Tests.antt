-- ===== src/Queue/Tests.antt =====
-- Two messages that are put into a queue of raw bytes.
use alpha_odpi.Prelude.{
  ℕ, ◌+◌, ◌++◌, ◌≡◌, refl, true, false, List, [], ◌∷◌, Option, none, some, replicate, map,
}
use alpha_odpi.Error.{ok, err, dpi, queue_no_payload}
use alpha_odpi.Handle.{Base}
use alpha_odpi.Handle.Types.{msg_props_handle, queue_handle}
use alpha_odpi.Handle.Public.{start_public_fn}
use alpha_odpi.Queue.{
  Queue, MsgProps, Entry, entry_of, raw_at, json_at, scalar, check_payload, fill,
}
use alpha_odpi.Queue.Enqueue.{QueueClient, Resources, enq, enq_one}
use alpha_odpi.Queue.Delivery.{delivered, check_all, enq-delivered}

abbrev base_of : Base
base_of = record {
  handle_type = msg_props_handle;
  check_int = 0xa2b75506;
  ref_count = 1;
  has_env = true;
}

abbrev message : ℕ → Option ℕ → Option ℕ → MsgProps
message handle raw json = record {
  base = base_of;
  props_handle = handle;
  payload_obj = none;
  payload_raw = raw;
  payload_json = json;
  msg_id_raw = none;
}

abbrev raw_queue : Queue
raw_queue = record {
  base = some (record base_of { handle_type = queue_handle; check_int = 0x54904ba2 });
  connected = true;
  payload_tdo = none;
  is_json = false;
  has_enq_options = false;
  num_elements = 0;
  entries = [];
}

abbrev unwritten : Entry
unwritten = record { message = 0; payload = raw_at 0; indicator = scalar 0; msg_id = none }

abbrev resources : Resources
resources = record { new_options = ok tt; new_buffer = λ n. some (replicate n unwritten) }

-- The client keeps what it is given, and gives a message the id 1000 above its handle.
abbrev ids : List Entry → List (Option ℕ)
ids es = map (λ (e : Entry). some (e.message + 1000)) es

abbrev client : QueueClient (List Entry)
client = record {
  json_tdo = ok 1;
  raw_tdo = ok 2;
  aq_enq = λ s tdo es. (s ++ es, ok (ids es));
  aq_enq_array = λ s tdo es. (s ++ es, ok (ids es));
}

abbrev two : List MsgProps
two = message 1 (some 11) none ∷ message 2 (some 12) none ∷ []

two_sent :
    (enq client resources two [] raw_queue).0.0
    ≡ entry_of raw_queue 0 (message 1 (some 11) none)
      ∷ entry_of raw_queue 1 (message 2 (some 12) none)
      ∷ []
unfolding enq fill check_payload
two_sent = refl

-- The first message without a payload stops the call before the client is given any.
no_payload :
    let ((s, q), x) =
      enq client resources (message 1 (some 11) none ∷ message 2 none none ∷ []) [] raw_queue in
    (s ≡ []) × (x ≡ err (dpi queue_no_payload))
unfolding enq fill check_payload
no_payload = (refl, refl)

-- A message with both payloads passes the checks of a queue of raw bytes, but its JSON is sent.
json_sent :
    (enq client resources (message 1 (some 11) (some 7) ∷ []) [] raw_queue).0.0
    ≡ record unwritten { message = 1; payload = json_at 7 } ∷ []
unfolding enq fill check_payload
json_sent = refl

one_sent :
    (enq_one client (ok tt) resources (message 1 (some 11) none) [] raw_queue).1
    ≡ ok (record (message 1 (some 11) none) { msg_id_raw = some 1001 } ∷ [])
unfolding enq_one enq fill check_payload start_public_fn
one_sent = refl

enq-delivered_example :
    let ((s', q'), x) = enq client resources two [] raw_queue in
    (s', x) ≡ delivered client raw_queue two (check_all raw_queue two) []
enq-delivered_example =
    enq-delivered client resources raw_queue (message 1 (some 11) none)
      (message 2 (some 12) none ∷ []) [] (replicate 2 unwritten) refl refl refl refl
