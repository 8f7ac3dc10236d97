-- ===== src/Queue/Delivery.antt =====
-- Which messages the client is given when messages are put into a queue: src/dpiQueue.c.
use alpha_odpi.Prelude.{
  ℕ, suc, ◌+◌, ◌≤◌, ◌<◌, ◌≡◌, refl, sym, ap, ◌∙◌, inl, inr, Bool, true, false, List, [], ◌∷◌, ◌++◌,
  some, ◌==◌, ltb, set, take, length, if◌then◌else◌, arith, Bool-cases, take-set, length-set,
  append-nil, append_assoc,
}
use alpha_odpi.Error.{Result, ok, err, ◌>>◌}
use alpha_odpi.Queue.{Queue, MsgProps, Entry, check_payload, entry_of, if_valid, fill}
use alpha_odpi.Queue.Enqueue.{
  QueueClient, Resources, ensure_options, ensure_buffer, populate_buffer, filled, get_payload_tdo,
  transferred, perform, performed, enq, with_options,
}

-- The messages one after the other: the first check that fails.
abbrev pub check_all : Queue → List MsgProps → Result (Unit {0})
check_all q [] = ok tt
check_all q (p ∷ ps) = let rest = check_all q ps in check_payload q p >> rest

-- What is to be sent.
abbrev pub entries_of : Queue → ℕ → List MsgProps → List Entry
entries_of q i [] = []
entries_of q i (p ∷ ps) = entry_of q i p ∷ entries_of q (i + 1) ps

-- The buffer holds what is to be sent, if every message is valid.
record Filled (q : Queue) (i : ℕ) (ps : List MsgProps) (es : List Entry) (valid : Result (Unit {0}))
    (r : List Entry × Result (Unit {0})) : Type 0 where
  checked : r.1 ≡ valid
  sent : valid ≡ ok tt → take (i + length ps) r.0 ≡ take i es ++ entries_of q i ps

if_valid-Filled :
    (q : Queue) (i : ℕ) (p : MsgProps) (ps : List MsgProps) (es : List Entry)
    (valid r : Result (Unit {0})) (rest : List Entry × Result (Unit {0}))
    → i < length es
    → Filled q (i + 1) ps (set es i (entry_of q i p)) valid rest
    → Filled q i (p ∷ ps) es (r >> valid) (if_valid r es rest)
if_valid-Filled q i p ps es valid (err e) rest h f = record { checked = refl; sent = λ g. cc }
if_valid-Filled q i p ps es valid (ok tt) rest h f = record {
  checked = f.checked;
  sent = λ e.
      let next : i + 1 ≡ suc i = omega arith in
      ap (λ n. take n rest.0) (omega arith)
      ∙ f.sent e
      ∙ ap (λ n. take n (set es i (entry_of q i p)) ++ entries_of q (i + 1) ps) next
      ∙ ap (λ xs. xs ++ entries_of q (i + 1) ps) (take-set i es (entry_of q i p) h)
      ∙ append_assoc (take i es) (entry_of q i p ∷ []) (entries_of q (i + 1) ps);
}

fill-Filled :
    (q : Queue) (i : ℕ) (ps : List MsgProps) (es : List Entry)
    → i + length ps ≤ length es
    → Filled q i ps es (check_all q ps) (fill q i ps es)
unfolding fill
fill-Filled q i [] es h = record {
  checked = refl;
  sent = λ e. ap (λ n. take n es) (omega arith) ∙ sym (append-nil (take i es));
}
fill-Filled q i (p ∷ ps) es h =
    if_valid-Filled q i p ps es (check_all q ps) (check_payload q p) _ (omega arith) (
      fill-Filled q (i + 1) ps (set es i (entry_of q i p))
        (omega (arith, length-set es i (entry_of q i p))))

-- The queue with options of its own and a buffer that has room for `n` messages.
data Prepared (q : Queue) (n : ℕ) : Queue × Result (Unit {0}) → Type 0 where
  prepared :
      (b : Bool) (m : ℕ) (es : List Entry)
      → n ≤ length es
      → Prepared q n (record q { has_enq_options = b; num_elements = m; entries = es }, ok tt)

module _ (r : Resources) (q : Queue) (n : ℕ) (fresh : List Entry)
    (places : length q.entries ≡ q.num_elements) (options : r.new_options ≡ ok tt)
    (memory : r.new_buffer n ≡ some fresh) (size : length fresh ≡ n) where
  ensure_buffer-Prepared :
      (b : Bool) → Prepared q n (ensure_buffer r n (record q { has_enq_options = b }, ok tt))
  ensure_buffer-Prepared b = elim (Bool-cases (ltb q.num_elements n)) [
    | inl t ↦ rw (t, memory) (prepared b n fresh (omega arith))
    | inr f ↦ rw f (prepared b q.num_elements q.entries (ground arith))
  ]

  ensure_options-Prepared : Prepared q n (ensure_buffer r n (ensure_options r q))
  ensure_options-Prepared = choose q.has_enq_options
    where
      choose :
          (b : Bool)
          → Prepared q n (
              ensure_buffer r n (
                if b
                then (record q { has_enq_options = b }, ok tt)
                else with_options r.new_options q))
      choose true = ensure_buffer-Prepared true
      choose false = rw options (ensure_buffer-Prepared true)

module _ (q : Queue) where
  same_check :
      (b : Bool) (m : ℕ) (es : List Entry) (ps : List MsgProps)
      → check_all (record q { has_enq_options = b; num_elements = m; entries = es }) ps
        ≡ check_all q ps
  unfolding check_payload
  same_check b m es [] = refl
  same_check b m es (p ∷ ps) = ap (λ rest. check_payload q p >> rest) (same_check b m es ps)

  same_entries :
      (b : Bool) (m i : ℕ) (es : List Entry) (ps : List MsgProps)
      → entries_of (record q { has_enq_options = b; num_elements = m; entries = es }) i ps
        ≡ entries_of q i ps
  same_entries b m i es [] = refl
  same_entries b m i es (p ∷ ps) =
      ap (λ rest. entry_of q i p ∷ rest) (same_entries b m (i + 1) es ps)

module _ {S : Type 0} (client : QueueClient S) where
  -- What is promised: the client is given the messages that are sent, or nothing.
  abbrev pub deliver : List MsgProps → List Entry → Result ℕ → S → S × Result (List MsgProps)
  deliver ps es (err e) s = (s, err e)
  deliver ps es (ok tdo) s =
      transferred client ps
        (if length ps == 1 then client.aq_enq s tdo es else client.aq_enq_array s tdo es)

  abbrev pub delivered : Queue → List MsgProps → Result (Unit {0}) → S → S × Result (List MsgProps)
  delivered q ps (err e) s = (s, err e)
  delivered q ps (ok u) s =
      deliver ps (entries_of q 0 ps) (get_payload_tdo client q.payload_tdo q.is_json) s

  abbrev outcome : (S × Queue) × Result (List MsgProps) → S × Result (List MsgProps)
  outcome ((s, q), x) = (s, x)

  perform-deliver :
      (ps : List MsgProps) (es : List Entry) (tdo : Result ℕ) (s : S)
      → perform client ps es tdo s ≡ deliver ps (take (length ps) es) tdo s
  perform-deliver ps es (err e) s = refl
  perform-deliver ps es (ok tdo) s = elim (Bool-cases (length ps == 1)) [
    | inl t ↦
        let one : 1 ≡ length ps = ground arith in
        rw t (ap (λ n. transferred client ps (client.aq_enq s tdo (take n es))) one)
    | inr f ↦ rw f refl
  ]

  performed-delivered :
      (q : Queue) (ps : List MsgProps) (s : S) (es : List Entry) (valid : Result (Unit {0}))
      (x : List Entry × Result (Unit {0}))
      → Filled q 0 ps es valid x
      → outcome (performed client ps s (filled q x)) ≡ delivered q ps valid s
  performed-delivered q ps s es valid (es', err e) f = ap (λ v. delivered q ps v s) f.checked
  performed-delivered q ps s es valid (es', ok tt) f =
      perform-deliver ps es' _ s
      ∙ ap (λ xs. deliver ps xs (get_payload_tdo client q.payload_tdo q.is_json) s)
          (ap (λ n. take n es') (omega arith) ∙ f.sent (sym f.checked))
      ∙ ap (λ v. delivered q ps v s) f.checked

  same_delivered :
      (q : Queue) (b : Bool) (m : ℕ) (es : List Entry) (ps : List MsgProps) (s : S)
      (v : Result (Unit {0}))
      → delivered (record q { has_enq_options = b; num_elements = m; entries = es }) ps v s
        ≡ delivered q ps v s
  same_delivered q b m es ps s (err e) = refl
  same_delivered q b m es ps s (ok u) =
      ap (λ xs. deliver ps xs (get_payload_tdo client q.payload_tdo q.is_json) s)
        (same_entries q b m 0 es ps)

  Prepared-delivered :
      (q : Queue) (ps : List MsgProps) (s : S) (x : Queue × Result (Unit {0}))
      → Prepared q (length ps) x
      → outcome (performed client ps s (populate_buffer ps x)) ≡ delivered q ps (check_all q ps) s
  Prepared-delivered q ps s x (prepared b m es h) =
      let q' : Queue = record q { has_enq_options = b; num_elements = m; entries = es } in
      performed-delivered q' ps s es (check_all q' ps) _ (fill-Filled q' 0 ps es (omega arith))
      ∙ same_delivered q b m es ps s (check_all q' ps)
      ∙ ap (λ v. delivered q ps v s) (same_check q b m es ps)

  -- For a list of at least one message, with a buffer that has the places that are counted, options
  -- that can be created and memory for the messages at hand: if a message fails a check, the call
  -- fails with the error of the first that does and the client is not called. Otherwise the client
  -- is called once, with the entries of the messages in their order, whatever the buffer held
  -- before, and the messages come back with the ids that it gave; or the call fails as the client
  -- does.
  pub enq-delivered :
      (r : Resources) (q : Queue) (p : MsgProps) (ps : List MsgProps) (s : S) (fresh : List Entry)
      → length q.entries ≡ q.num_elements
      → r.new_options ≡ ok tt
      → r.new_buffer (length (p ∷ ps)) ≡ some fresh
      → length fresh ≡ length (p ∷ ps)
      → let ((s', q'), x) = enq client r (p ∷ ps) s q in
        (s', x) ≡ delivered q (p ∷ ps) (check_all q (p ∷ ps)) s
  unfolding enq
  enq-delivered r q p ps s fresh h o m e =
      Prepared-delivered q (p ∷ ps) s _
        (ensure_options-Prepared r q (length (p ∷ ps)) fresh h o m e)
