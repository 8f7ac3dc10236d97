-- ===== src/HandlePool/Queue.antt =====
-- The pool of src/dpiHandlePool.c as the queue of the handles that wait in it, oldest first.
use alpha_odpi.Prelude.{
  suc, ℕ, ◌+◌, ◌-◌, ◌≤◌, refl, ◌^◌, ◌<◌, ◌≡◌, ◌≢◌, Bool, true, false, List, [], ◌∷◌, ◌++◌, Option,
  none, length, get_or, replicate, take, arith, ap, ap₂, sym, ◌∙◌, ltb, leb, ◌==◌, if◌then◌else◌,
  ℕ_discrete, length-set, get_or-set_self, Bool-cases, inl, inr, length-append, ◌⊎◌, length-take,
  length-replicate,
}
use alpha_odpi.Error.{Result, ok, err, dpi, no_memory}
use alpha_odpi.HandlePool.{
  HandlePool, advance, add_u32, take_out, count_new, grow, acquire, release,
}
use alpha_odpi.HandlePool.Ring.{entries, entries-set, entries-snoc, length-entries, place}

module _ {H : Type 0} where
  pub record IsValid (p : HandlePool H) : Type 0 where
    pub whole : length p.handles ≡ p.num_slots
    pub acquires : p.acquire_pos < p.num_slots
    pub releases : p.release_pos < p.num_slots
    pub bounded : p.num_slots < 2 ^ 32

  -- From `acquirePos` up to `releasePos`; none where they are equal.
  abbrev pub waiting : HandlePool H → ℕ
  waiting p =
      if leb p.acquire_pos p.release_pos
      then p.release_pos - p.acquire_pos
      else p.release_pos + p.num_slots - p.acquire_pos

  unfoldable pub queue : HandlePool H → List (Option H)
  queue p = entries p.handles p.num_slots p.acquire_pos (waiting p)

  pub length-queue : (p : HandlePool H) → length (queue p) ≡ waiting p
  unfolding queue
  length-queue p = length-entries p.handles p.num_slots p.acquire_pos (waiting p)

  queue_empty : (p : HandlePool H) → p.acquire_pos ≡ p.release_pos → queue p ≡ []
  unfolding queue entries
  queue_empty p e =
      let k : waiting p ≡ 0 = ground arith in ap (entries p.handles p.num_slots p.acquire_pos) k

  take_out-IsValid : (p : HandlePool H) → IsValid p → IsValid (take_out p).0
  unfolding take_out
  take_out-IsValid p v = record {
    whole = length-set p.handles p.acquire_pos none ∙ v.whole;
    acquires = ground arith;
    releases = v.releases;
    bounded = v.bounded;
  }

  -- The oldest handle leaves the queue.
  take_out-queue :
      (p : HandlePool H)
      → IsValid p
      → p.acquire_pos ≢ p.release_pos
      → queue p ≡ (take_out p).1 ∷ queue (take_out p).0
  unfolding queue take_out entries
  take_out-queue p v ne =
      ap (entries p.handles p.num_slots p.acquire_pos) more
      ∙ ap (◌∷◌ (get_or p.handles p.acquire_pos none)) (sym kept)
    where
      q : HandlePool H
      q = (take_out p).0

      more : waiting p ≡ suc (waiting q)
      more = ground (arith, v.acquires, v.releases, v.bounded)

      kept :
          entries q.handles p.num_slots q.acquire_pos (waiting q)
          ≡ entries p.handles p.num_slots (advance p.num_slots p.acquire_pos) (waiting q)
      kept =
          entries-set p.handles p.num_slots (advance p.num_slots p.acquire_pos) (waiting q)
            (p.num_slots - 1) p.acquire_pos none (take_out-IsValid p v).acquires v.bounded
            (ground (arith, v.acquires, v.releases, v.bounded)) (omega (arith, v.acquires))
            (ground (arith, v.acquires, v.bounded))

  release-IsValid : (p : HandlePool H) (h : Option H) → IsValid p → IsValid (release p h).0
  unfolding release
  release-IsValid p h v = record {
    whole = length-set p.handles p.release_pos h ∙ v.whole;
    acquires = v.acquires;
    releases = ground arith;
    bounded = v.bounded;
  }

  -- The released handle joins the queue at its end, if a slot stays free behind it.
  queue-release_room :
      (p : HandlePool H) (h : Option H)
      → IsValid p
      → waiting p + 1 < p.num_slots
      → queue (release p h).0 ≡ queue p ++ (h ∷ [])
  unfolding queue release
  queue-release_room p h v room =
      ap (entries q.handles p.num_slots p.acquire_pos) more
      ∙ entries-snoc q.handles p.num_slots p.acquire_pos (waiting p) v.acquires v.bounded
          (omega arith)
      ∙ ap₂ (λ xs x. xs ++ (x ∷ [])) kept last
    where
      q : HandlePool H
      q = (release p h).0

      here : p.release_pos ≡ place p.num_slots p.acquire_pos (waiting p)
      here = ground (arith, v.acquires, v.releases, v.bounded)

      more : waiting q ≡ suc (waiting p)
      more = ground (arith, v.acquires, v.releases, v.bounded)

      kept :
          entries q.handles p.num_slots p.acquire_pos (waiting p)
          ≡ entries p.handles p.num_slots p.acquire_pos (waiting p)
      kept =
          entries-set p.handles p.num_slots p.acquire_pos (waiting p) (waiting p) p.release_pos h
            v.acquires v.bounded (omega arith) (omega arith) here

      last : get_or q.handles (place p.num_slots p.acquire_pos (waiting p)) none ≡ h
      last =
          ap (λ i. get_or q.handles i none) (sym here)
          ∙ get_or-set_self p.handles p.release_pos h none (omega (arith, v.releases, v.whole))

  release_full_meets :
      (p : HandlePool H) (h : Option H)
      → IsValid p
      → waiting p + 1 ≡ p.num_slots
      → (release p h).0.acquire_pos ≡ (release p h).0.release_pos
  unfolding release
  release_full_meets p h v full = ground (arith, v.acquires, v.releases, v.bounded)

  -- With all slots but one occupied, the released handle fills the last one, and then the pool
  -- takes itself for empty.
  queue-release_full :
      (p : HandlePool H) (h : Option H)
      → IsValid p
      → waiting p + 1 ≡ p.num_slots
      → queue (release p h).0 ≡ []
  queue-release_full p h v full = queue_empty (release p h).0 (release_full_meets p h v full)

  counted-IsValid :
      (allocated : Bool) (p : HandlePool H)
      → IsValid p
      → p.num_slots + 8 < 2 ^ 32
      → IsValid (count_new allocated p).0
  unfolding count_new
  counted-IsValid allocated p v b =
      elim (Bool-cases (ltb p.num_slots (add_u32 p.num_used_slots 1))) [
        | inr e ↦ rw (e, count_new) (same v)
        | inl e ↦ elim (Bool-cases allocated) [
          | inl a ↦ rw (e, a) grown
          | inr a ↦ rw (e, a) (same v)
        ]
      ]
    where
      same : IsValid p → IsValid (record p { num_used_slots = add_u32 p.num_used_slots 1 })
      same w = record {
        whole = w.whole;
        acquires = w.acquires;
        releases = w.releases;
        bounded = w.bounded;
      }

      grown : IsValid (grow (record p { num_used_slots = add_u32 p.num_used_slots 1 }))
      grown = record {
        whole =
            length-append (take p.num_slots p.handles)
              (replicate (add_u32 p.num_slots 8 - p.num_slots) none)
            ∙ omega (
              arith,
              length-take p.num_slots p.handles,
              length-replicate {A = Option H} (add_u32 p.num_slots 8 - p.num_slots) none,
              v.whole,
            );
        acquires = omega (arith, v.acquires);
        releases = omega (arith, v.releases);
        bounded = omega arith;
      }

  abbrev pub grows : Bool → HandlePool H → Result (Option H)
  grows allocated p =
      if ltb p.num_slots (add_u32 p.num_used_slots 1)
      then if allocated then ok none else err (dpi no_memory)
      else ok none

  count_new-answer :
      (allocated : Bool) (p : HandlePool H) → (count_new allocated p).1 ≡ grows allocated p
  unfolding count_new
  count_new-answer allocated p = ground arith

  count_new-queue :
      (allocated : Bool) (p : HandlePool H)
      → p.acquire_pos ≡ p.release_pos
      → queue (count_new allocated p).0 ≡ []
  unfolding count_new
  count_new-queue allocated p e = queue_empty (count_new allocated p).0 (ground arith)

  -- What an acquisition does to the queue: it takes the oldest handle out, or, where none waits,
  -- leaves it empty and returns no handle. It fails where a new slot is wanted and memory is out.
  pub data Acquires (allocated : Bool) (p q : HandlePool H) : Result (Option H) → Type 0 where
    taken : (h : Option H) → queue p ≡ h ∷ queue q → Acquires allocated p q (ok h)
    created :
        (r : Result (Option H))
        → queue p ≡ []
        → queue q ≡ []
        → r ≡ grows allocated p
        → Acquires allocated p q r

  -- The pool is a queue: an acquisition in a valid pool, with fewer than 2^32 - 8 slots, takes the
  -- oldest waiting handle; if none waits, none waits afterwards and the answer is the one to create
  -- a handle, or the failure to allocate. The pool stays valid.
  pub acquire-Acquires :
      (allocated : Bool) (p : HandlePool H)
      → IsValid p
      → p.num_slots + 8 < 2 ^ 32
      → let (q, r) = acquire allocated p in Acquires allocated p q r × IsValid q
  unfolding acquire
  acquire-Acquires allocated p v b = elim (ℕ_discrete p.acquire_pos p.release_pos) [
    | yes e ↦
        let test : (p.acquire_pos == p.release_pos) ≡ true = ground arith in
        rw test (
          created _ (queue_empty p e) (count_new-queue allocated p e)
              (count_new-answer allocated p),
          counted-IsValid allocated p v b,
        )
    | no ne ↦
        let test : (p.acquire_pos == p.release_pos) ≡ false = ground arith in
        rw test (taken (take_out p).1 (take_out-queue p v ne), take_out-IsValid p v)
  ]

  -- An acquisition makes the array no smaller.
  pub acquire-num_slots :
      (allocated : Bool) (p : HandlePool H)
      → p.num_slots + 8 < 2 ^ 32
      → p.num_slots ≤ (acquire allocated p).0.num_slots
  unfolding acquire take_out count_new grow
  acquire-num_slots allocated p b = ground arith

  -- With memory at hand, a pool in which none waits asks for a new handle.
  pub grows-true : (p : HandlePool H) → grows true p ≡ ok none
  grows-true p = ground arith

  -- The caller's pointer is cleared.
  pub release-cleared : (p : HandlePool H) (h : Option H) → (release p h).1 ≡ none
  unfolding release
  release-cleared p h = refl

  -- A released handle joins the end of the queue of a valid pool, unless it fills the last free
  -- slot: then no handle waits any more. The pool stays valid.
  pub queue-release :
      (p : HandlePool H) (h : Option H)
      → IsValid p
      → let q = (release p h).0 in
        (queue q ≡ (if waiting p + 1 == p.num_slots then [] else queue p ++ (h ∷ []))) × IsValid q
  queue-release p h v = (split (Bool-cases (waiting p + 1 == p.num_slots)), release-IsValid p h v)
    where
      less : waiting p < p.num_slots
      less = ground (arith, v.acquires, v.releases)

      split :
          ((waiting p + 1 == p.num_slots) ≡ true) ⊎ ((waiting p + 1 == p.num_slots) ≡ false)
          → queue (release p h).0
            ≡ (if waiting p + 1 == p.num_slots then [] else queue p ++ (h ∷ []))
      split (inl e) = ground (arith, queue-release_full p h v)
      split (inr e) = ground (arith, queue-release_room p h v)

  -- In a valid pool in which all but one of the slots hold waiting handles, a release leaves no
  -- handle waiting, and the next acquisition, with memory at hand, asks for a new handle.
  pub acquire-release_full :
      (p : HandlePool H) (h : Option H)
      → IsValid p
      → waiting p + 1 ≡ p.num_slots
      → (queue (release p h).0 ≡ []) × ((acquire true (release p h).0).1 ≡ ok none)
  unfolding acquire
  acquire-release_full p h v full = (
    queue-release_full p h v full,
    ground (arith, count_new-answer true (release p h).0, release_full_meets p h v full),
  )
