-- ===== src/Handle/Pooled.antt =====
-- The error handle of a public call comes from the pool of its environment and goes back there.
use alpha_odpi.Prelude.{
  ◌+◌, ◌^◌, ◌≤◌, ◌<◌, ◌≡◌, refl, ◌⊎◌, inl, inr, true, false, List, [], ◌∷◌, ◌++◌, Option, none,
  some, length, arith, ap, ◌∙◌, sym, ◌==◌,
}
use alpha_odpi.Error.{Result, ok, err}
use alpha_odpi.HandlePool.{HandlePool, acquire, release}
use alpha_odpi.HandlePool.Queue.{
  IsValid, queue, waiting, acquire-num_slots, grows-true, Acquires, taken, created,
  acquire-Acquires, queue-release, release-cleared, length-queue,
}
use alpha_odpi.Handle.Public.{CallError, with_acquired, init_handle, end_public_fn}

module _ {H : Type 0} where
  -- What waits is less than the array, so that a handle that was taken out fits again.
  waiting-queue :
      (q : HandlePool H) (h : Option H) (p : HandlePool H)
      → queue p ≡ h ∷ queue q
      → waiting p ≡ waiting q + 1
  waiting-queue q h p e = sym (length-queue p) ∙ ap length e ∙ omega (arith, length-queue q)

  waiting-lt : (p : HandlePool H) → IsValid p → waiting p < p.num_slots
  waiting-lt p v = ground (arith, v.acquires, v.releases)

  release-room :
      (q : HandlePool H) (h : Option H)
      → IsValid q
      → waiting q + 1 < q.num_slots
      → queue (release q h).0 ≡ queue q ++ (h ∷ [])
  release-room q h v b =
      let room : (waiting q + 1 == q.num_slots) ≡ false = ground arith in
      (queue-release q h v).0 ∙ rw room refl

  -- What a call without an error of its own leaves: its answer, no error handle, and a pool in which
  -- the handle that it used waits last, whether it waited first or was created.
  pub data Pooled (p : HandlePool H) (new : H) : CallError H × Result (Unit {0}) → Type 0 where
    reused :
        (h : H) (pool : HandlePool H)
        → IsValid pool
        → (rest : List (Option H)) → queue p ≡ some h ∷ rest
        → queue pool ≡ rest ++ (some h ∷ [])
        → Pooled p new (record { handle = none; pool = pool }, ok tt)
    created_new :
        (pool : HandlePool H)
        → IsValid pool
        → (rest : List (Option H)) → (queue p ≡ rest) ⊎ (queue p ≡ none ∷ rest)
        → queue pool ≡ rest ++ (some new ∷ [])
        → Pooled p new (record { handle = none; pool = pool }, ok tt)

  abbrev after_call : CallError H × Result (Unit {0}) → CallError H × Result (Unit {0})
  after_call (e, r) = (end_public_fn e, r)

  returned :
      (p q : HandlePool H) (r : Result (Option H)) (new : H)
      → Acquires true p q r
      → IsValid p
      → IsValid q
      → p.num_slots ≤ q.num_slots
      → 1 < p.num_slots
      → Pooled p new (after_call (with_acquired (q, r) (ok new)))
  unfolding end_public_fn
  returned p q r new (taken (some h) e) v w n b =
      let k : waiting q + 1 < q.num_slots =
        omega (arith, waiting-queue q (some h) p e, waiting-lt p v) in
      rw (release-cleared q (some h)) (
        reused h (release q (some h)).0 (queue-release q (some h) w).1 (queue q) e
          (release-room q (some h) w k))
  returned p q r new (taken none e) v w n b =
      let k : waiting q + 1 < q.num_slots =
        omega (arith, waiting-queue q none p e, waiting-lt p v) in
      rw (release-cleared q (some new)) (
        created_new (release q (some new)).0 (queue-release q (some new) w).1 (queue q) (inr e)
          (release-room q (some new) w k))
  returned p q (ok none) new (created r e f g) v w n b =
      let k : waiting q + 1 < q.num_slots = omega (arith, sym (length-queue q) ∙ ap length f) in
      rw (release-cleared q (some new)) (
        created_new (release q (some new)).0 (queue-release q (some new) w).1 (queue q)
          (inl (e ∙ sym f)) (release-room q (some new) w k))
  returned p q (ok (some h)) new (created r e f g) v w n b = absurd (cc (g ∙ grows-true p))
  returned p q (err x) new (created r e f g) v w n b = absurd (cc (g ∙ grows-true p))

  -- A call without an error of its own, on an environment whose pool of error handles is valid and
  -- has between 2 and 2^32 - 8 slots, with memory at hand and a new handle if it is asked for,
  -- succeeds and leaves a valid pool: the handle that waited first, or the new one, now waits last,
  -- behind the others in their order.
  pub init_handle-Pooled :
      (p : HandlePool H) (new : H)
      → IsValid p
      → p.num_slots + 8 < 2 ^ 32
      → 1 < p.num_slots
      → let (e, r) = init_handle true (ok new) (record { handle = none; pool = p }) in
        Pooled p new (end_public_fn e, r)
  unfolding init_handle
  init_handle-Pooled p new v b k =
      let (a, w) = acquire-Acquires true p v b in
      returned p (acquire true p).0 (acquire true p).1 new a v w (acquire-num_slots true p b) k
