-- ===== src/Queue/Dequeue.antt =====
-- `dpiQueue__deq` and the public calls that use it, of src/dpiQueue.c.
pub mod Places
pub mod Order
mod Tests
use alpha_odpi.Prelude.{
  ℕ, zero, suc, Bool, true, false, not, ◌&&◌, List, [], ◌∷◌, Option, none, some, ◌==◌, ltb, take,
  length, if◌then◌else◌,
}
use alpha_odpi.Error.{
  Error, Result, ok, err, dpi, oracle, fail_if, ◌>>◌, no_memory, null_pointer_parameter,
}
use alpha_odpi.Handle.Public.{start_public_fn}
use alpha_odpi.Queue.{Object, MsgProps, Queue}
use alpha_odpi.Queue.Enqueue.{check_queue}

-- The places of the arrays `handles`, `instances` and `msgIds` that the client reads and writes.
pub record Slot : Type 0 where
  pub message : ℕ
  pub instance_pointer : Option ℕ
  pub msg_id : Option ℕ

-- One place of the arrays of `dpiQueueBuffer`: the properties that wait in it, and what the client sees.
pub record Place : Type 0 where
  pub props : Option MsgProps
  pub slot : Slot

-- `dpiQueue` as messages are taken out of it: its arrays are `places`.
pub record DeqQueue : Type 0 where
  pub queue : Queue
  pub has_deq_options : Bool
  pub places : List Place

-- The client with state `S`: what is made for a message, dpiQueue__getPayloadTDO, the version of the
-- server, and OCIAQDeq and OCIAQDeqArray, of which the latter also tells the number of messages.
pub record DeqClient (S : Type 0) : Type 0 where
  pub new_options : Result (Unit {0})
  pub new_places : ℕ → Option (List Place)
  pub new_props : S → S × Result MsgProps
  pub new_object : S → S × Result Object
  pub new_json : S → S × Result ℕ
  pub payload_tdo : Option ℕ → Bool → Result ℕ
  pub server_version : S → S × Result ℕ
  pub aq_deq : S → ℕ → Slot → (S × Slot) × Result (Unit {0})
  pub aq_deq_array : S → ℕ → List Slot → (S × List Slot) × ℕ × Result (Unit {0})

-- `create dequeue options, if necessary`
abbrev pub with_deq_options : Result (Unit {0}) → DeqQueue → DeqQueue × Result (Unit {0})
with_deq_options (err e) q = (q, err e)
with_deq_options (ok u) q = (record q { has_deq_options = true }, ok tt)

abbrev pub allocate_places : Option (List Place) → ℕ → DeqQueue → DeqQueue × Result (Unit {0})
allocate_places none n q =
    (record q { queue = record q.queue { num_elements = n }; places = [] }, err (dpi no_memory))
allocate_places (some ps) n q =
    (record q { queue = record q.queue { num_elements = n }; places = ps }, ok tt)

abbrev pub if_room :
    Option (List Place) → ℕ → DeqQueue × Result (Unit {0}) → DeqQueue × Result (Unit {0})
if_room ps n (q, err e) = (q, err e)
if_room ps n (q, ok u) = if ltb q.queue.num_elements n then allocate_places ps n q else (q, ok tt)

abbrev pub is_given : {A : Type 0} → Option A → Bool
is_given none = false
is_given (some a) = true

module _ {S : Type 0} (client : DeqClient S) where
  -- `create new message properties, if applicable`
  abbrev pub get_props : Option MsgProps → S → S × Result MsgProps
  get_props none s = client.new_props s
  get_props (some p) s = (s, ok p)

  abbrev pub with_object : MsgProps → S × Result Object → S × (MsgProps × Result (Unit {0}))
  with_object p (s, err e) = (s, (p, err e))
  with_object p (s, ok object) = (s, (record p { payload_obj = some object }, ok tt))

  -- `create payload object, if applicable`
  abbrev pub get_object : Bool → MsgProps → S → S × (MsgProps × Result (Unit {0}))
  get_object wanted p s =
      if wanted && not (is_given p.payload_obj)
      then with_object p (client.new_object s)
      else (s, (p, ok tt))

  abbrev pub with_json : MsgProps → S × Result ℕ → S × (MsgProps × Result (Unit {0}))
  with_json p (s, err e) = (s, (p, err e))
  with_json p (s, ok json) = (s, (record p { payload_json = some json }, ok tt))

  -- `create JSON payload object, if applicable`
  abbrev pub get_json :
      Bool → S × (MsgProps × Result (Unit {0})) → S × (MsgProps × Result (Unit {0}))
  get_json is_json (s, (p, err e)) = (s, (p, err e))
  get_json is_json (s, (p, ok u)) =
      if is_json then with_json p (client.new_json s) else (s, (p, ok tt))

  abbrev pub instance_of : Option Object → Option ℕ
  instance_of none = none
  instance_of (some object) = some object.instance_pointer

  -- `set OCI arrays`
  abbrev pub slot_of : Queue → MsgProps → Slot
  slot_of q p = record {
    message = p.props_handle;
    instance_pointer =
        if is_given q.payload_tdo
        then instance_of p.payload_obj
        else (if q.is_json then p.payload_json else p.payload_raw);
    msg_id = p.msg_id_raw;
  }

  abbrev pub in_slot :
      Queue → Slot → S × (MsgProps × Result (Unit {0})) → S × (Place × Result (Unit {0}))
  in_slot q old (s, (p, err e)) = (s, (record { props = some p; slot = old }, err e))
  in_slot q old (s, (p, ok u)) = (s, (record { props = some p; slot = slot_of q p }, ok tt))

  abbrev pub with_props : Queue → Place → S × Result MsgProps → S × (Place × Result (Unit {0}))
  with_props q place (s, err e) = (s, (place, err e))
  with_props q place (s, ok p) =
      in_slot q place.slot (get_json q.is_json (get_object (is_given q.payload_tdo) p s))

  abbrev pub fill_place : Queue → Place → S → S × (Place × Result (Unit {0}))
  fill_place q place s = with_props q place (get_props place.props s)

  -- `populate buffer`
  unfoldable pub populate :
      Queue → ℕ → List Place → S → Result (Unit {0}) → S × (List Place × Result (Unit {0}))
  populate q n ps s (err e) = (s, (ps, err e))
  populate q zero ps s (ok u) = (s, (ps, ok tt))
  populate q (suc n) [] s (ok u) = (s, ([], ok tt))
  populate q (suc n) (p ∷ ps) s (ok u) =
      let (s', (p', r)) = fill_place q p s in
      let (s'', (ps', r')) = populate q n ps s' r in (s'', (p' ∷ ps', r'))

  -- The number of messages and the status after one of them.
  abbrev pub counted_after : Result (Unit {0}) → ℕ × Result (Unit {0}) → ℕ × Result (Unit {0})
  counted_after (err e) (n, r) = (0, err e)
  counted_after (ok u) (n, r) = (suc n, r)

  -- The loop that takes one message after the other, until one cannot be taken.
  unfoldable pub deq_each :
      ℕ → ℕ → List Place → S → Result (Unit {0}) → (S × List Place) × ℕ × Result (Unit {0})
  deq_each tdo n ps s (err e) = ((s, ps), 0, err e)
  deq_each tdo zero ps s (ok u) = ((s, ps), 0, ok tt)
  deq_each tdo (suc n) [] s (ok u) = ((s, []), 0, ok tt)
  deq_each tdo (suc n) (p ∷ ps) s (ok u) =
      let ((s', slot), r) = client.aq_deq s tdo p.slot in
      let ((s'', ps'), k, x) = deq_each tdo n ps s' r in
      let (k', x') = counted_after r (k, x) in ((s'', record p { slot = slot } ∷ ps'), k', x')

  abbrev pub slots : List Place → List Slot
  slots [] = []
  slots (p ∷ ps) = p.slot ∷ slots ps

  abbrev pub with_slots : List Slot → List Place → List Place
  with_slots [] ps = ps
  with_slots (slot ∷ ss) [] = []
  with_slots (slot ∷ ss) (p ∷ ps) = record p { slot = slot } ∷ with_slots ss ps

  abbrev pub deq_array : ℕ → ℕ → List Place → S → (S × List Place) × ℕ × Result (Unit {0})
  deq_array tdo n ps s =
      let ((s', ss), x, r) = client.aq_deq_array s tdo (slots (take n ps)) in
      ((s', with_slots ss ps), x, r)

  -- `if (status < 0) *numProps = 0;`
  abbrev pub one_if_taken : Result (Unit {0}) → ℕ × Result (Unit {0})
  one_if_taken (err e) = (0, err e)
  one_if_taken (ok u) = (1, ok tt)

  abbrev pub deq_first : ℕ → List Place → S → (S × List Place) × ℕ × Result (Unit {0})
  deq_first tdo [] s = ((s, []), 1, ok tt)
  deq_first tdo (p ∷ ps) s =
      let ((s', slot), r) = client.aq_deq s tdo p.slot in
      let (n, x) = one_if_taken r in ((s', record p { slot = slot } ∷ ps), n, x)

  -- `perform dequeue`: the version of the server decides whether messages of JSON are taken one by one.
  abbrev pub perform_deq :
      Bool → ℕ → ℕ → List Place → S → ℕ → (S × List Place) × ℕ × Result (Unit {0})
  perform_deq is_json tdo n ps s version =
      if n == 1
      then deq_first tdo ps s
      else (if is_json && ltb version 23 then deq_each tdo n ps s (ok tt) else deq_array tdo n ps s)

  -- `transfer message properties to destination array`
  abbrev pub received : Queue → Slot → MsgProps → MsgProps
  received q slot p =
      if q.is_json
      then record p { payload_json = slot.instance_pointer; msg_id_raw = slot.msg_id }
      else (if is_given q.payload_tdo
          then record p { msg_id_raw = slot.msg_id }
          else record p { payload_raw = slot.instance_pointer; msg_id_raw = slot.msg_id })

  abbrev pub transfer_one : Queue → Slot → Option MsgProps → List MsgProps → List MsgProps
  transfer_one q slot none rest = rest
  transfer_one q slot (some p) rest = received q slot p ∷ rest

  abbrev pub transfer_props : Queue → ℕ → List Place → List MsgProps
  transfer_props q zero ps = []
  transfer_props q (suc n) [] = []
  transfer_props q (suc n) (p ∷ ps) = transfer_one q p.slot p.props (transfer_props q n ps)

  -- `queue->buffer.props[i] = NULL;`
  abbrev pub emptied : ℕ → List Place → List Place
  emptied zero ps = ps
  emptied (suc n) [] = []
  emptied (suc n) (p ∷ ps) = record p { props = none } ∷ emptied n ps

  abbrev pub is_time_out : Error → Bool
  is_time_out (dpi e) = false
  is_time_out (oracle code) = code == 25228

  abbrev pub give : DeqQueue → S → List Place → ℕ → (S × DeqQueue) × ℕ × Result (List MsgProps)
  give q s ps n = ((s, record q { places = emptied n ps }), n, ok (transfer_props q.queue n ps))

  -- The messages are handed over, also those that came before the time was out.
  abbrev pub settle :
      DeqQueue
      → (S × List Place) × ℕ × Result (Unit {0})
      → (S × DeqQueue) × ℕ × Result (List MsgProps)
  settle q ((s, ps), n, ok u) = give q s ps n
  settle q ((s, ps), n, err e) =
      if is_time_out e then give q s ps n else ((s, record q { places = ps }), n, err e)

  abbrev pub with_version :
      DeqQueue → ℕ → ℕ → List Place → S × Result ℕ → (S × DeqQueue) × ℕ × Result (List MsgProps)
  with_version q tdo n ps (s, err e) = ((s, record q { places = ps }), n, err e)
  with_version q tdo n ps (s, ok version) =
      settle q (perform_deq q.queue.is_json tdo n ps s version)

  abbrev pub with_tdo :
      DeqQueue → ℕ → List Place → S → Result ℕ → (S × DeqQueue) × ℕ × Result (List MsgProps)
  with_tdo q n ps s (err e) = ((s, record q { places = ps }), n, err e)
  with_tdo q n ps s (ok tdo) = with_version q tdo n ps (client.server_version s)

  abbrev pub with_places :
      DeqQueue
      → ℕ
      → S × (List Place × Result (Unit {0}))
      → (S × DeqQueue) × ℕ × Result (List MsgProps)
  with_places q n (s, (ps, err e)) = ((s, record q { places = ps }), n, err e)
  with_places q n (s, (ps, ok u)) =
      with_tdo q n ps s (client.payload_tdo q.queue.payload_tdo q.queue.is_json)

  abbrev pub with_room :
      ℕ → S → DeqQueue × Result (Unit {0}) → (S × DeqQueue) × ℕ × Result (List MsgProps)
  with_room n s (q, err e) = ((s, q), n, err e)
  with_room n s (q, ok u) = with_places q n (populate q.queue n q.places s (ok tt))

  -- `dpiQueue__deq`, with the number of messages that it leaves.
  unfoldable pub deq : ℕ → S → DeqQueue → (S × DeqQueue) × ℕ × Result (List MsgProps)
  unfolding populate deq_each
  deq n s q = with_room n s (
      if_room (client.new_places n) n
        (if q.has_deq_options then (q, ok tt) else with_deq_options client.new_options q))

  abbrev pub if_allowed :
      Result (Unit {0}) → ℕ → S → DeqQueue → (S × DeqQueue) × ℕ × Result (List MsgProps)
  if_allowed (err e) n s q = ((s, q), n, err e)
  if_allowed (ok u) n s q = deq n s q

  -- `dpiQueue_deqMany`: the flags tell that the pointers are not NULL.
  unfoldable pub deq_many :
      Result (Unit {0})
      → Bool
      → Bool
      → ℕ
      → S
      → DeqQueue
      → (S × DeqQueue) × ℕ × Result (List MsgProps)
  unfolding deq start_public_fn
  deq_many init num_props props n s q =
      if_allowed
        (check_queue init q.queue
          >> fail_if (not num_props) null_pointer_parameter
          >> fail_if (not props) null_pointer_parameter)
        n s q

  abbrev pub head_of : List MsgProps → Option MsgProps
  head_of [] = none
  head_of (p ∷ ps) = some p

  -- `if (numProps == 0) *props = NULL;`
  abbrev pub first_props :
      (S × DeqQueue) × ℕ × Result (List MsgProps) → (S × DeqQueue) × Result (Option MsgProps)
  first_props (s, n, err e) = (s, err e)
  first_props (s, n, ok ps) = (s, ok (if n == 0 then none else head_of ps))

  -- `dpiQueue_deqOne`
  unfoldable pub deq_one :
      Result (Unit {0}) → Bool → S → DeqQueue → (S × DeqQueue) × Result (Option MsgProps)
  unfolding deq start_public_fn
  deq_one init props s q =
      first_props
        (if_allowed (check_queue init q.queue >> fail_if (not props) null_pointer_parameter) 1 s q)
