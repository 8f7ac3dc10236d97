-- ===== src/Queue/Dequeue/Places.antt =====
-- The places that dpiQueue__deq of src/dpiQueue.c fills before it takes messages, and the client's laws.
use alpha_odpi.Prelude.{
  ℕ, zero, suc, ◌≤◌, min, ◌≡◌, refl, ap, ◌∙◌, ◌⊎◌, Bool, true, false, List, [], ◌∷◌, map, Option,
  none, some, take, drop, length, if◌then◌else◌, arith,
}
use alpha_odpi.Error.{Result, ok, err, oracle}
use alpha_odpi.Queue.{MsgProps, Queue}
use alpha_odpi.Queue.Dequeue.{
  Slot, Place, DeqClient, is_given, get_props, get_object, get_json, with_json, in_slot, with_props,
  fill_place, populate,
}

-- A message as the client has it.
pub record Message : Type 0 where
  pub payload : Option ℕ
  pub id : Option ℕ

-- What the caller sees of properties that it is given.
abbrev pub seen : Bool → MsgProps → Message
seen is_json p = record {
  payload = if is_json then p.payload_json else p.payload_raw;
  id = p.msg_id_raw;
}

abbrev pub of_slot : Slot → Message
of_slot slot = record { payload = slot.instance_pointer; id = slot.msg_id }

abbrev pub IsOk : {A : Type 0} → Result A → Type 0
IsOk (ok a) = Unit
IsOk (err e) = ⊥

-- There is no error, or that of a wait that is over.
abbrev pub IsOver : Result (Unit {0}) → Type 0
IsOver r = (r ≡ ok tt) ⊎ (r ≡ err (oracle 25228))

module _ {S : Type 0} (client : DeqClient S) (pending : S → List Message) where
  -- Something is made, and no message is lost.
  abbrev pub IsMade : {A : Type 0} → S → S × Result A → Type 0
  IsMade s (s', r) = (pending s' ≡ pending s) × IsOk r

  -- The first message is taken, if there is one.
  abbrev pub TakesFirst : List Message → (S × Slot) × Result (Unit {0}) → Type 0
  TakesFirst [] ((s, slot), r) = (pending s ≡ []) × (r ≡ err (oracle 25228))
  TakesFirst (m ∷ ms) ((s, slot), r) = (pending s ≡ ms) × (of_slot slot ≡ m) × (r ≡ ok tt)

  -- As many messages as there are slots, or as there are.
  abbrev pub TakesMany : ℕ → List Message → (S × List Slot) × ℕ × Result (Unit {0}) → Type 0
  TakesMany n ms ((s, ss), k, r) =
      (pending s ≡ drop n ms)
      × (length ss ≡ n)
      × (k ≡ min n (length ms))
      × (map of_slot (take k ss) ≡ take n ms)
      × IsOver r

  -- The client takes the messages in their order, and fails only when there are none.
  pub record Serves : Type 0 where
    pub options : IsOk client.new_options
    pub props : (s : S) → IsMade s (client.new_props s)
    pub json : (s : S) → IsMade s (client.new_json s)
    pub tdo : (is_json : Bool) → IsOk (client.payload_tdo none is_json)
    pub version : (s : S) → IsMade s (client.server_version s)
    pub one : (s : S) (tdo : ℕ) (slot : Slot) → TakesFirst (pending s) (client.aq_deq s tdo slot)
    pub array :
        (s : S) (tdo : ℕ) (ss : List Slot)
        → TakesMany (length ss) (pending s) (client.aq_deq_array s tdo ss)

-- The first places have properties.
abbrev pub AllGiven : ℕ → List Place → Type 0
AllGiven zero ps = Unit
AllGiven (suc n) [] = ⊥
AllGiven (suc n) (p ∷ ps) = (is_given p.props ≡ true) × AllGiven n ps

module _ {S : Type 0} (client : DeqClient S) (pending : S → List Message)
    (serves : Serves client pending) (q : Queue) (plain : q.payload_tdo ≡ none) where
  abbrev IsFilled : S → S × (Place × Result (Unit {0})) → Type 0
  IsFilled s (s', (p, r)) = (pending s' ≡ pending s) × (r ≡ ok tt) × (is_given p.props ≡ true)

  abbrev HasProps : S → S × (MsgProps × Result (Unit {0})) → Type 0
  HasProps s (s', (p, r)) = (pending s' ≡ pending s) × (r ≡ ok tt)

  with_json-HasProps :
      (p : MsgProps) (s : S) (x : S × Result ℕ)
      → IsMade client pending s x
      → HasProps s (with_json client p x)
  with_json-HasProps p s (s', err e) (h, f) = absurd f
  with_json-HasProps p s (s', ok json) (h, f) = (h, refl)

  get_json-HasProps :
      (is_json : Bool) (p : MsgProps) (s : S) → HasProps s (get_json client is_json (s, (p, ok tt)))
  get_json-HasProps true p s = with_json-HasProps p s (client.new_json s) (serves.json s)
  get_json-HasProps false p s = (refl, refl)

  in_slot-IsFilled :
      (s : S) (old : Slot) (x : S × (MsgProps × Result (Unit {0})))
      → HasProps s x
      → IsFilled s (in_slot client q old x)
  in_slot-IsFilled s old (s', (p, err e)) (h, f) = cc
  in_slot-IsFilled s old (s', (p, ok u)) (h, f) = (h, refl, refl)

  no_object-IsFilled :
      (wanted : Bool) (p : MsgProps) (s : S) (old : Slot)
      → wanted ≡ false
      → IsFilled s (in_slot client q old (get_json client q.is_json (get_object client wanted p s)))
  no_object-IsFilled true p s old e = cc
  no_object-IsFilled false p s old e = in_slot-IsFilled s old _ (get_json-HasProps q.is_json p s)

  with_props-IsFilled :
      (s : S) (place : Place) (x : S × Result MsgProps)
      → IsMade client pending s x
      → IsFilled s (with_props client q place x)
  with_props-IsFilled s place (s', err e) (h, f) = absurd f
  with_props-IsFilled s place (s', ok p) (h, f) =
      let f = no_object-IsFilled (is_given q.payload_tdo) p s' place.slot (ap is_given plain) in
      (f.0 ∙ h, f.1, f.2)

  get_props-IsMade : (o : Option MsgProps) (s : S) → IsMade client pending s (get_props client o s)
  get_props-IsMade none s = serves.props s
  get_props-IsMade (some p) s = (refl, tt)

  abbrev pub Ready : ℕ → S → S × (List Place × Result (Unit {0})) → Type 0
  Ready n s (s', (ps, r)) = (pending s' ≡ pending s) × (r ≡ ok tt) × AllGiven n ps

  pub populate-Ready :
      (n : ℕ) (ps : List Place) (s : S) (r : Result (Unit {0}))
      → r ≡ ok tt
      → n ≤ length ps
      → Ready n s (populate client q n ps s r)
  unfolding populate
  populate-Ready n ps s (err e) g h = cc
  populate-Ready zero ps s (ok u) g h = (refl, refl, tt)
  populate-Ready (suc n) [] s (ok u) g h = absurd (omega arith)
  populate-Ready (suc n) (p ∷ ps) s (ok u) g h =
      let x = fill_place client q p s in
      let f = with_props-IsFilled s p _ (get_props-IsMade p.props s) in
      let rest = populate-Ready n ps x.0 x.1.1 f.1 (omega arith) in
      (rest.0 ∙ f.0, rest.1, (f.2, rest.2))
