-- ===== src/HandleList/Slots.antt =====
-- What the calls of src/dpiHandleList.c do to the slots.
use alpha_odpi.Prelude.{
  zero, suc, ℕ, ◌+◌, ◌-◌, ◌^◌, ◌<◌, ◌≡◌, ◌≢◌, refl, Bool, true, false, List, [], ◌∷◌, ◌++◌, Option,
  none, some, length, set, get_or, take, replicate, arith, ℕ_discrete, ◌∙◌, ap, sym, ltb, ◌==◌,
  length-set, get_or-set_self, get_or-set_ne, get_or-append_replicate, length-append, get_or-beyond,
  append-nil, ap₂, length-replicate,
}
use alpha_odpi.Error.{ok}
use alpha_odpi.HandleList.{
  HandleList, is_free, advance, add_u32, find_slot, add_to_new_slot, add_to_free_slot, add_handle,
  remove_handle,
}
use alpha_odpi.HandleList.Count.{used, used-set-some, used-set-none, used-append-free, used-le}
use alpha_odpi.HandleList.Search.{find_slot-free, advance-lt}

module _ {H : Type 0} where
  -- The counts agree with the array, and the search starts within it.
  pub record IsValid (l : HandleList H) : Type 0 where
    pub whole : length l.handles ≡ l.num_slots
    pub counted : l.num_used_slots ≡ used l.handles
    pub position : l.current_pos < l.num_slots
    pub bounded : l.num_slots < 2 ^ 32

  abbrev pub handle_at : HandleList H → ℕ → Option H
  handle_at l i = get_or l.handles i none

  -- From `l` to `m` the handle `h` came into slot `i`, which was free, and no other slot changed.
  pub record Added (l m : HandleList H) (h : H) (i : ℕ) : Type 0 where
    pub within : i < m.num_slots
    pub was_free : handle_at l i ≡ none
    pub holds : handle_at m i ≡ some h
    pub others : (j : ℕ) → j ≢ i → handle_at m j ≡ handle_at l j
    pub valid : IsValid m

  none_of_is_free : (o : Option H) → is_free o ≡ true → o ≡ none
  none_of_is_free none h = refl
  none_of_is_free (some a) h = cc

  take-whole : (hs : List (Option H)) (n : ℕ) → length hs ≡ n → take n hs ≡ hs
  take-whole [] zero h = refl
  take-whole [] (suc n) h = refl
  take-whole (x ∷ hs) zero h = absurd (omega arith)
  take-whole (x ∷ hs) (suc n) h = ap (◌∷◌ x) (take-whole hs n (omega arith))

  -- A handle put into a free slot of the array, which may have grown by free slots.
  put-Added :
      (l : HandleList H) (h : H) (i extra next : ℕ)
      → IsValid l
      → l.num_slots + extra < 2 ^ 32
      → i < l.num_slots + extra
      → next < l.num_slots + extra
      → handle_at l i ≡ none
      → Added l
          (record {
            handles = set (l.handles ++ replicate extra none) i (some h);
            num_slots = l.num_slots + extra;
            num_used_slots = l.num_used_slots + 1;
            current_pos = next;
          })
          h
          i
  put-Added l h i extra next v b lt nx free = record {
    within = lt;
    was_free = free;
    holds = get_or-set_self hs i (some h) none (omega (arith, long));
    others = λ j ne.
        get_or-set_ne hs i j (some h) none (λ e. ne (sym e))
        ∙ get_or-append_replicate l.handles extra j none;
    valid = record {
      whole = length-set hs i (some h) ∙ long;
      counted = counts;
      position = nx;
      bounded = b;
    };
  }
    where
      hs : List (Option H)
      hs = l.handles ++ replicate extra none

      long : length hs ≡ l.num_slots + extra
      long =
          length-append l.handles (replicate extra none)
          ∙ ap₂ ◌+◌ v.whole (length-replicate extra none)

      counts : l.num_used_slots + 1 ≡ used (set hs i (some h))
      counts = omega (
        arith,
        used-set-some hs i h (omega (arith, long))
            (get_or-append_replicate l.handles extra i none ∙ free),
        used-append-free l.handles extra,
        v.counted,
      )

  list_eq :
      (hs ks : List (Option H)) (a b c d e f : ℕ)
      → hs ≡ ks
      → a ≡ b
      → c ≡ d
      → e ≡ f
      → ◌≡◌ {A = HandleList H}
          (record { handles = hs; num_slots = a; num_used_slots = c; current_pos = e })
          (record { handles = ks; num_slots = b; num_used_slots = d; current_pos = f })
  list_eq hs ks a b c d e f p q r s =
      λ i. record { handles = p i; num_slots = q i; num_used_slots = r i; current_pos = s i }

  abbrev put : HandleList H → H → ℕ → ℕ → ℕ → HandleList H
  put l h i extra next = record {
    handles = set (l.handles ++ replicate extra none) i (some h);
    num_slots = l.num_slots + extra;
    num_used_slots = l.num_used_slots + 1;
    current_pos = next;
  }

  add_to_new_slot-Added :
      (l : HandleList H) (h : H)
      → IsValid l
      → l.num_slots + 8 < 2 ^ 32
      → l.num_used_slots ≡ l.num_slots
      → (m : HandleList H) × (add_to_new_slot l h ≡ (l.num_slots + 1, m)) × Added l m h l.num_slots
  unfolding add_to_new_slot
  add_to_new_slot-Added l h v b full = (
    put l h l.num_slots 8 (l.num_slots + 1),
    λ i. (slot i, same i),
    put-Added l h l.num_slots 8 (l.num_slots + 1) v b (omega arith) (omega arith)
        (get_or-beyond l.handles l.num_slots none (omega (arith, v.whole))),
  )
    where
      slot : add_u32 l.num_used_slots 1 ≡ l.num_slots + 1
      slot = omega arith

      eight : add_u32 l.num_slots 8 - l.num_slots ≡ 8
      eight = omega arith

      same : (add_to_new_slot l h).1 ≡ put l h l.num_slots 8 (l.num_slots + 1)
      same =
          list_eq _ _ _ _ _ _ _ _ (rw (eight, take-whole l.handles l.num_slots v.whole, full))
            (omega arith) (omega arith) (omega arith)

  add_to_free_slot-Added :
      (l : HandleList H) (h : H)
      → IsValid l
      → l.num_used_slots ≢ l.num_slots
      → let i = find_slot l.handles l.num_slots l.num_slots l.current_pos in
        (m : HandleList H) × (add_to_free_slot l h ≡ (i + 1, m)) × Added l m h i
  unfolding add_to_free_slot
  add_to_free_slot-Added l h v spare = (
    put l h i 0 (advance l.num_slots i),
    λ k. (slot k, same k),
    put-Added l h i 0 (advance l.num_slots i) v (omega (arith, v.bounded)) (omega (arith, found.1))
        (omega (arith, advance-lt l.num_slots i found.1 v.bounded))
        (none_of_is_free (handle_at l i) found.0),
  )
    where
      i : ℕ
      i = find_slot l.handles l.num_slots l.num_slots l.current_pos

      found : (is_free (handle_at l i) ≡ true) × (i < l.num_slots)
      found =
          find_slot-free l.handles l.num_slots v.bounded l.current_pos v.position v.whole
            (omega (arith, used-le l.handles, v.counted, v.whole))

      slot : add_u32 i 1 ≡ i + 1
      slot = omega (arith, found.1, v.bounded)

      same : (add_to_free_slot l h).1 ≡ put l h i 0 (advance l.num_slots i)
      same =
          list_eq _ _ _ _ _ _ _ _ (rw append-nil) (omega arith)
            (omega (arith, used-le l.handles, v.counted, v.whole, v.bounded)) refl

  -- An addition to a valid list of fewer than 2^32 - 8 slots, with memory at hand if every slot is
  -- used, succeeds: the handle comes into a slot that was free, whose number counted from 1 is
  -- returned, no other slot changes, and the list stays valid.
  pub add_handle-Added :
      (allocated : Bool) (l : HandleList H) (h : H)
      → IsValid l
      → l.num_slots + 8 < 2 ^ 32
      → (l.num_used_slots ≡ l.num_slots → allocated ≡ true)
      → (i : ℕ) × (m : HandleList H) × (add_handle allocated l h ≡ ok (i + 1, m)) × Added l m h i
  unfolding add_handle
  add_handle-Added allocated l h v b memory = elim (ℕ_discrete l.num_used_slots l.num_slots) [
    | yes full ↦
        let (m, e, a) = add_to_new_slot-Added l h v b full in
        let test : (l.num_used_slots == l.num_slots) ≡ true = ground arith in
        (l.num_slots, m, rw (test, memory full, e), a)
    | no spare ↦
        let (m, e, a) = add_to_free_slot-Added l h v spare in
        let test : (l.num_used_slots == l.num_slots) ≡ false = ground arith in
        (find_slot l.handles l.num_slots l.num_slots l.current_pos, m, rw (test, e), a)
  ]

  -- From `l` to `m` slot `i` was freed, and no other slot changed.
  pub record Removed (l m : HandleList H) (i : ℕ) : Type 0 where
    pub freed : handle_at m i ≡ none
    pub others : (j : ℕ) → j ≢ i → handle_at m j ≡ handle_at l j
    pub valid : IsValid m

  lt_of_handle_at :
      (hs : List (Option H)) (i : ℕ) (h : H) → get_or hs i none ≡ some h → i < length hs
  lt_of_handle_at [] i h e = cc
  lt_of_handle_at (x ∷ hs) zero h e = omega arith
  lt_of_handle_at (x ∷ hs) (suc i) h e = omega (arith, lt_of_handle_at hs i h e)

  -- The removal of a used slot of a valid list empties that slot, changes no other, and keeps the
  -- list valid.
  pub remove_handle-Removed :
      (l : HandleList H) (i : ℕ) (h : H)
      → IsValid l
      → handle_at l i ≡ some h
      → Removed l (remove_handle l (i + 1)) i
  unfolding remove_handle
  remove_handle-Removed l i h v e =
      let test : ltb 0 (i + 1) ≡ true = ground arith in
      let slot : i + 1 - 1 ≡ i = omega arith in
      let count = used-set-none l.handles i h e in
      rw (test, slot)
        (record {
          freed = get_or-set_self l.handles i none none (lt_of_handle_at l.handles i h e);
          others = λ j ne. get_or-set_ne l.handles i j none none (λ q. ne (sym q));
          valid = record {
            whole = length-set l.handles i none ∙ v.whole;
            counted = omega (arith, count, v.counted, used-le l.handles, v.whole, v.bounded);
            position = v.position;
            bounded = v.bounded;
          };
        })
