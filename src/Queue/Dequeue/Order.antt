-- ===== src/Queue/Dequeue/Order.antt =====
-- Messages are taken out of a queue in its order, in whichever way src/dpiQueue.c takes them.
use alpha_odpi.Prelude.{
  ℕ, zero, suc, ◌≤◌, min, ◌≡◌, refl, sym, ap, ap₂, ◌∙◌, subst, inl, inr, Bool, true, false, ◌&&◌,
  List, [], ◌∷◌, map, Option, none, some, ◌==◌, ltb, take, drop, length, if◌then◌else◌, arith,
  Bool-cases, length-take,
}
use alpha_odpi.Error.{Result, ok, err, oracle}
use alpha_odpi.Queue.{MsgProps, Queue}
use alpha_odpi.Queue.Dequeue.{
  Slot, Place, DeqQueue, DeqClient, with_deq_options, if_room, is_given, counted_after, deq_each,
  slots, with_slots, deq_array, one_if_taken, deq_first, perform_deq, received, transfer_one,
  transfer_props, settle, with_version, with_tdo, with_places, with_room, deq,
}
use alpha_odpi.Queue.Dequeue.Places.{
  Message, seen, of_slot, IsOk, IsOver, TakesFirst, TakesMany, Serves, AllGiven, Ready,
  populate-Ready,
}

module _ {S : Type 0} (client : DeqClient S) (pending : S → List Message)
    (serves : Serves client pending) (q : Queue) (plain : q.payload_tdo ≡ none) where
  -- So many messages are taken, in their order, with the properties that wait for them.
  abbrev InOrder : ℕ → List Message → (S × List Place) × ℕ × Result (Unit {0}) → Type 0
  InOrder n ms ((s, ps), k, r) =
      (pending s ≡ drop n ms)
      × (k ≡ min n (length ms))
      × (map (seen q.is_json) (transfer_props client q k ps) ≡ take n ms)
      × IsOver r

  seen-received :
      (slot : Slot) (p : MsgProps) → seen q.is_json (received client q slot p) ≡ of_slot slot
  seen-received slot p = elim (Bool-cases q.is_json) [
    | inl t ↦ rw t refl
    | inr f ↦ rw (f, plain) refl
  ]

  transfer_one-seen :
      (slot : Slot) (o : Option MsgProps) (rest : List MsgProps)
      → is_given o ≡ true
      → map (seen q.is_json) (transfer_one client q slot o rest)
        ≡ of_slot slot ∷ map (seen q.is_json) rest
  transfer_one-seen slot none rest g = cc
  transfer_one-seen slot (some p) rest g =
      ap (λ m. m ∷ map (seen q.is_json) rest) (seen-received slot p)

  each_taken :
      (tdo n : ℕ) (p : Place) (ps : List Place)
      → is_given p.props ≡ true
      → ((s : S) → InOrder n (pending s) (deq_each client tdo n ps s (ok tt)))
      → (ms : List Message) (x : (S × Slot) × Result (Unit {0})) → TakesFirst client pending ms x
      → InOrder (suc n) ms (
          let ((s', slot), r) = x in
          let ((s'', ps'), k, y) = deq_each client tdo n ps s' r in
          let (k', y') = counted_after client r (k, y) in
          ((s'', record p { slot = slot } ∷ ps'), k', y'))
  unfolding deq_each
  each_taken tdo n p ps g ih [] ((s', slot), ok u) (e, f) = cc
  each_taken tdo n p ps g ih [] ((s', slot), err c) (e, f) = (e, omega arith, refl, inr f)
  each_taken tdo n p ps g ih (m ∷ ms) ((s', slot), err c) (e, f, r) = cc
  each_taken tdo n p ps g ih (m ∷ ms) ((s', slot), ok u) (e, f, r) =
      let rest =
        subst (λ (ns : List Message). InOrder n ns (deq_each client tdo n ps s' (ok tt))) e
          (ih s') in
      (
        rest.0,
        omega (arith, rest.1),
        transfer_one-seen slot p.props _ g ∙ ap₂ (◌∷◌) f rest.2,
        rest.3,
      )

  deq_each-InOrder :
      (tdo n : ℕ) (ps : List Place) (s : S)
      → n ≤ length ps
      → AllGiven n ps
      → InOrder n (pending s) (deq_each client tdo n ps s (ok tt))
  unfolding deq_each
  deq_each-InOrder tdo zero ps s h g = (refl, omega arith, refl, inl refl)
  deq_each-InOrder tdo (suc n) [] s h g = absurd (omega arith)
  deq_each-InOrder tdo (suc n) (p ∷ ps) s h g =
      each_taken tdo n p ps g.0 (λ s'. deq_each-InOrder tdo n ps s' (omega arith) g.1) (pending s)
        (client.aq_deq s tdo p.slot) (serves.one s tdo p.slot)

  deq_first-InOrder :
      (tdo : ℕ) (ps : List Place) (s : S)
      → 1 ≤ length ps
      → AllGiven 1 ps
      → InOrder 1 (pending s) (deq_first client tdo ps s)
  deq_first-InOrder tdo [] s h g = absurd (omega arith)
  deq_first-InOrder tdo (p ∷ ps) s h g =
      one_taken (pending s) (client.aq_deq s tdo p.slot) (serves.one s tdo p.slot)
    where
      one_taken :
          (ms : List Message) (x : (S × Slot) × Result (Unit {0}))
          → TakesFirst client pending ms x
          → InOrder 1 ms (
            (x.0.0, record p { slot = x.0.1 } ∷ ps),
            (one_if_taken client x.1).0,
            (one_if_taken client x.1).1,
          )
      one_taken [] ((s', slot), ok u) (e, f) = cc
      one_taken [] ((s', slot), err c) (e, f) = (e, omega arith, refl, inr f)
      one_taken (m ∷ ms) ((s', slot), err c) (e, f, r) = cc
      one_taken (m ∷ ms) ((s', slot), ok u) (e, f, r) =
          (e, omega arith, transfer_one-seen slot p.props [] g.0 ∙ ap (λ x. x ∷ []) f, inl refl)

  transfer_props-with_slots :
      (n k : ℕ) (ps : List Place) (ss : List Slot)
      → k ≤ n
      → length ss ≡ n
      → AllGiven n ps
      → map (seen q.is_json) (transfer_props client q k (with_slots client ss ps))
        ≡ map of_slot (take k ss)
  transfer_props-with_slots n zero ps ss h l g = refl
  transfer_props-with_slots n (suc k) ps [] h l g = absurd (omega arith)
  transfer_props-with_slots zero (suc k) ps (slot ∷ ss) h l g = absurd (omega arith)
  transfer_props-with_slots (suc n) (suc k) [] (slot ∷ ss) h l g = absurd g
  transfer_props-with_slots (suc n) (suc k) (p ∷ ps) (slot ∷ ss) h l g =
      transfer_one-seen slot p.props _ g.0
      ∙ ap (λ ms. of_slot slot ∷ ms)
          (transfer_props-with_slots n k ps ss (omega arith) (omega arith) g.1)

  length-slots : (ps : List Place) → length (slots client ps) ≡ length ps
  length-slots [] = refl
  length-slots (p ∷ ps) = ap suc (length-slots ps)

  deq_array-InOrder :
      (tdo n : ℕ) (ps : List Place) (s : S)
      → n ≤ length ps
      → AllGiven n ps
      → InOrder n (pending s) (deq_array client tdo n ps s)
  deq_array-InOrder tdo n ps s h g =
      let size : length (slots client (take n ps)) ≡ n =
        length-slots (take n ps) ∙ omega (arith, length-take n ps) in
      let x = client.aq_deq_array s tdo (slots client (take n ps)) in
      let f : TakesMany client pending n (pending s) x =
        subst (λ k. TakesMany client pending k (pending s) x) size
          (serves.array s tdo (slots client (take n ps))) in
      (f.0, f.2, transfer_props-with_slots n _ ps _ (omega (arith, f.2)) f.1 g ∙ f.3, f.4)

  perform_deq-InOrder :
      (is_json : Bool) (tdo n version : ℕ) (ps : List Place) (s : S)
      → n ≤ length ps
      → AllGiven n ps
      → InOrder n (pending s) (perform_deq client is_json tdo n ps s version)
  perform_deq-InOrder is_json tdo n version ps s h g = elim (Bool-cases (n == 1)) [
    | inl t ↦
        let e : 1 ≡ n = ground arith in
        rw t (
          subst (λ k. InOrder k (pending s) (deq_first client tdo ps s)) e
            (deq_first-InOrder tdo ps s (omega arith) (subst (λ k. AllGiven k ps) (sym e) g)))
    | inr f ↦ elim (Bool-cases (is_json && ltb version 23)) [
      | inl t ↦ rw (f, t) (deq_each-InOrder tdo n ps s h g)
      | inr e ↦ rw (f, e) (deq_array-InOrder tdo n ps s h g)
    ]
  ]

AllGiven-length : (n : ℕ) (ps : List Place) → AllGiven n ps → n ≤ length ps
AllGiven-length zero ps g = omega arith
AllGiven-length (suc n) [] g = absurd g
AllGiven-length (suc n) (p ∷ ps) g = omega (arith, AllGiven-length n ps g.1)

module _ {S : Type 0} (client : DeqClient S) (pending : S → List Message)
    (serves : Serves client pending) where
  -- The caller is given so many messages, in their order, and the others wait.
  pub data TakenInOrder (is_json : Bool) (n : ℕ) (ms : List Message)
      : (S × DeqQueue) × ℕ × Result (List MsgProps) → Type 0 where
    taken :
        (s : S) (d : DeqQueue) (k : ℕ) (ps : List MsgProps)
        → pending s ≡ drop n ms
        → k ≡ min n (length ms)
        → map (seen is_json) ps ≡ take n ms
        → TakenInOrder is_json n ms ((s, d), k, ok ps)

  module _ (d : DeqQueue) (plain : d.queue.payload_tdo ≡ none) (n : ℕ) where
    settle-TakenInOrder :
        (ms : List Message) (x : (S × List Place) × ℕ × Result (Unit {0}))
        → InOrder client pending serves d.queue plain n ms x
        → TakenInOrder d.queue.is_json n ms (settle client d x)
    settle-TakenInOrder ms ((s, ps), k, ok u) (e, f, g, h) = taken _ _ _ _ e f g
    settle-TakenInOrder ms ((s, ps), k, err c) (e, f, g, inl h) = cc
    settle-TakenInOrder ms ((s, ps), k, err c) (e, f, g, inr h) =
        let over : c ≡ oracle 25228 = cc in rw over (taken _ _ _ _ e f g)

    with_version-TakenInOrder :
        (tdo : ℕ) (ps : List Place) (ms : List Message) (x : S × Result ℕ)
        → (pending x.0 ≡ ms) × IsOk x.1
        → AllGiven n ps
        → TakenInOrder d.queue.is_json n ms (with_version client d tdo n ps x)
    with_version-TakenInOrder tdo ps ms (s, err e) (h, f) g = absurd f
    with_version-TakenInOrder tdo ps ms (s, ok version) (h, f) g = settle-TakenInOrder ms _ (
        subst
          (λ (ns : List Message).
            InOrder client pending serves d.queue plain n ns
              (perform_deq client d.queue.is_json tdo n ps s version))
          h
          (perform_deq-InOrder client pending serves d.queue plain d.queue.is_json tdo n version ps
            s (AllGiven-length n ps g) g))

    with_tdo-TakenInOrder :
        (ps : List Place) (s : S) (ms : List Message) (tdo : Result ℕ)
        → IsOk tdo
        → pending s ≡ ms
        → AllGiven n ps
        → TakenInOrder d.queue.is_json n ms (with_tdo client d n ps s tdo)
    with_tdo-TakenInOrder ps s ms (err e) o h g = absurd o
    with_tdo-TakenInOrder ps s ms (ok tdo) o h g =
        let v = serves.version s in
        with_version-TakenInOrder tdo ps ms (client.server_version s) (v.0 ∙ h, v.1) g

    with_places-TakenInOrder :
        (ms : List Message) (s : S) (x : S × (List Place × Result (Unit {0})))
        → pending s ≡ ms
        → Ready client pending serves d.queue plain n s x
        → TakenInOrder d.queue.is_json n ms (with_places client d n x)
    with_places-TakenInOrder ms s (s', (ps, err e)) h (f, r, g) = cc
    with_places-TakenInOrder ms s (s', (ps, ok u)) h (f, r, g) =
        with_tdo-TakenInOrder ps s' ms _
          (subst (λ o. IsOk (client.payload_tdo o d.queue.is_json)) (sym plain)
            (serves.tdo d.queue.is_json))
          (f ∙ h) g

    with_room-TakenInOrder :
        (s : S)
        → n ≤ length d.places
        → TakenInOrder d.queue.is_json n (pending s) (with_room client n s (d, ok tt))
    with_room-TakenInOrder s l =
        with_places-TakenInOrder (pending s) s _ refl
          (populate-Ready client pending serves d.queue plain n d.places s (ok tt) refl l)

  module _ (d : DeqQueue) (plain : d.queue.payload_tdo ≡ none)
      (placed : length d.places ≡ d.queue.num_elements) (n : ℕ) (fresh : List Place)
      (memory : client.new_places n ≡ some fresh) (size : length fresh ≡ n) (s : S) where
    if_room-TakenInOrder :
        (b : Bool)
        → TakenInOrder d.queue.is_json n (pending s) (
            with_room client n s
              (if_room (client.new_places n) n (record d { has_deq_options = b }, ok tt)))
    if_room-TakenInOrder b = elim (Bool-cases (ltb d.queue.num_elements n)) [
      | inl t ↦
          rw (t, memory)
            (with_room-TakenInOrder
              (record d {
                has_deq_options = b;
                queue = record d.queue { num_elements = n };
                places = fresh;
              })
              plain n s (omega arith))
      | inr f ↦
          rw f (with_room-TakenInOrder (record d { has_deq_options = b }) plain n s (ground arith))
    ]

    options-TakenInOrder :
        (b : Bool) (o : Result (Unit {0}))
        → IsOk o
        → TakenInOrder d.queue.is_json n (pending s) (
            with_room client n s
              (if_room (client.new_places n) n (if b then (d, ok tt) else with_deq_options o d)))
    options-TakenInOrder true o f = if_room-TakenInOrder d.has_deq_options
    options-TakenInOrder false (err c) f = absurd f
    options-TakenInOrder false (ok u) f = if_room-TakenInOrder true

    -- For a queue of raw bytes or of JSON whose buffer has the places that are counted, with memory
    -- at hand and a client that takes waiting messages in their order and fails only with the error
    -- of a wait that is over: a call that asks for n messages succeeds with the first n that wait,
    -- or with all if there are fewer, in their order, each with its payload and id; the number of
    -- messages is theirs, and the others still wait. This holds for one message, for the loop that
    -- servers before version 23 need for JSON, and for an array.
    pub deq-TakenInOrder : TakenInOrder d.queue.is_json n (pending s) (deq client n s d)
    unfolding deq
    deq-TakenInOrder = options-TakenInOrder d.has_deq_options client.new_options serves.options
