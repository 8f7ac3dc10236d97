-- ===== src/Queue/Dequeue/Tests.antt =====
-- A queue of JSON on a server of release 19, in which two messages wait when three are asked for.
use alpha_odpi.Prelude.{
  ℕ, suc, ◌≡◌, refl, ap, inl, inr, true, false, List, [], ◌∷◌, Option, none, some, replicate,
  length, map, arith,
}
use alpha_odpi.Error.{Result, ok, err, oracle}
use alpha_odpi.Handle.Types.{msg_props_handle}
use alpha_odpi.Queue.{MsgProps}
use alpha_odpi.Queue.Dequeue.{Slot, Place, DeqQueue, DeqClient, deq, populate, deq_each}
use alpha_odpi.Queue.Dequeue.Places.{Message, Serves, TakesFirst, TakesMany}
use alpha_odpi.Queue.Dequeue.Order.{TakenInOrder, deq-TakenInOrder}

abbrev fresh_props : MsgProps
fresh_props = record {
  base = record {
    handle_type = msg_props_handle;
    check_int = 0xa2b75506;
    ref_count = 1;
    has_env = true;
  };
  props_handle = 1;
  payload_obj = none;
  payload_raw = none;
  payload_json = none;
  msg_id_raw = none;
}

abbrev free_place : Place
free_place = record {
  props = none;
  slot = record { message = 0; instance_pointer = none; msg_id = none };
}

abbrev Pending : Type 0
Pending = List Message

abbrev take_one : Pending → Slot → (Pending × Slot) × Result (Unit {0})
take_one [] slot = (([], slot), err (oracle 25228))
take_one (m ∷ ms) slot = ((ms, record slot { instance_pointer = m.payload; msg_id = m.id }), ok tt)

abbrev take_many : Pending → List Slot → (Pending × List Slot) × ℕ × Result (Unit {0})
take_many ms [] = ((ms, []), 0, ok tt)
take_many [] (slot ∷ ss) = (([], slot ∷ ss), 0, err (oracle 25228))
take_many (m ∷ ms) (slot ∷ ss) =
    let ((ms', ss'), k, r) = take_many ms ss in
    ((ms', record slot { instance_pointer = m.payload; msg_id = m.id } ∷ ss'), suc k, r)

abbrev client : DeqClient Pending
client = record {
  new_options = ok tt;
  new_places = λ n. some (replicate n free_place);
  new_props = λ s. (s, ok fresh_props);
  new_object = λ s. (s, ok (record { tdo = 1; instance_pointer = 2; indicator_pointer = 3 }));
  new_json = λ s. (s, ok 4);
  payload_tdo = λ tdo is_json. ok 5;
  server_version = λ s. (s, ok 19);
  aq_deq = λ s tdo slot. take_one s slot;
  aq_deq_array = λ s tdo ss. take_many s ss;
}

abbrev json_queue : DeqQueue
json_queue = record {
  queue = record {
    base = none;
    connected = true;
    payload_tdo = none;
    is_json = true;
    has_enq_options = false;
    num_elements = 0;
    entries = [];
  };
  has_deq_options = false;
  places = [];
}

abbrev message : ℕ → Message
message n = record { payload = some n; id = some (suc n) }

-- Two messages are handed over, and the third place keeps its properties.
abbrev left :
    (Pending × DeqQueue) × ℕ × Result (List MsgProps) → Pending × ℕ × List (Option MsgProps)
left ((s, d), n, r) = (s, n, map (λ (p : Place). p.props) d.places)

two_of_three :
    left (deq client 3 (message 10 ∷ message 20 ∷ []) json_queue)
    ≡ ([], 2, none ∷ none ∷ some (record fresh_props { payload_json = some 4 }) ∷ [])
unfolding deq populate deq_each
two_of_three = refl

one_taken : (ms : Pending) (slot : Slot) → TakesFirst client (λ s. s) ms (take_one ms slot)
one_taken [] slot = (refl, refl)
one_taken (m ∷ ms) slot = (refl, refl, refl)

many_taken :
    (ms : Pending) (ss : List Slot) → TakesMany client (λ s. s) (length ss) ms (take_many ms ss)
many_taken ms [] = (refl, refl, omega arith, refl, inl refl)
many_taken [] (slot ∷ ss) = (refl, refl, omega arith, refl, inr refl)
many_taken (m ∷ ms) (slot ∷ ss) =
    let rest = many_taken ms ss in
    (rest.0, ap suc rest.1, omega (arith, rest.2), ap (λ ns. m ∷ ns) rest.3, rest.4)

client-Serves : Serves client (λ s. s)
client-Serves = record {
  options = tt;
  props = λ s. (refl, tt);
  json = λ s. (refl, tt);
  tdo = λ is_json. tt;
  version = λ s. (refl, tt);
  one = λ s tdo slot. one_taken s slot;
  array = λ s tdo ss. many_taken s ss;
}

deq-TakenInOrder_example :
    TakenInOrder client
      (λ s. s)
      client-Serves
      true
      3
      (message 10 ∷ message 20 ∷ [])
      (deq client 3 (message 10 ∷ message 20 ∷ []) json_queue)
deq-TakenInOrder_example =
    deq-TakenInOrder client (λ s. s) client-Serves json_queue refl refl 3 (replicate 3 free_place)
      refl refl (message 10 ∷ message 20 ∷ [])
