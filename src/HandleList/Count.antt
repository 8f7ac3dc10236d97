-- ===== src/HandleList/Count.antt =====
-- The number of used slots, against `numUsedSlots` of src/dpiHandleList.c.
use alpha_odpi.Prelude.{
  zero, suc, ℕ, ◌+◌, ◌≤◌, ◌<◌, ◌≡◌, refl, false, List, [], ◌∷◌, ◌++◌, Option, none, some, length,
  set, get_or, replicate, arith,
}
use alpha_odpi.HandleList.{is_free}

module _ {H : Type 0} where
  abbrev pub used : List (Option H) → ℕ
  used [] = 0
  used (none ∷ hs) = used hs
  used (some h ∷ hs) = suc (used hs)

  pub used-le : (hs : List (Option H)) → used hs ≤ length hs
  used-le [] = omega arith
  used-le (none ∷ hs) = omega (arith, used-le hs)
  used-le (some h ∷ hs) = omega (arith, used-le hs)

  pub used-set-some :
      (hs : List (Option H)) (i : ℕ) (h : H)
      → i < length hs
      → get_or hs i none ≡ none
      → used (set hs i (some h)) ≡ used hs + 1
  used-set-some [] i h k e = absurd (omega arith)
  used-set-some (none ∷ hs) zero h k e = omega arith
  used-set-some (some x ∷ hs) zero h k e = cc
  used-set-some (none ∷ hs) (suc i) h k e = used-set-some hs i h (omega arith) e
  used-set-some (some x ∷ hs) (suc i) h k e = omega (arith, used-set-some hs i h (omega arith) e)

  pub used-set-none :
      (hs : List (Option H)) (i : ℕ) (h : H)
      → get_or hs i none ≡ some h
      → used (set hs i none) + 1 ≡ used hs
  used-set-none [] i h e = cc
  used-set-none (none ∷ hs) zero h e = cc
  used-set-none (some x ∷ hs) zero h e = omega arith
  used-set-none (none ∷ hs) (suc i) h e = used-set-none hs i h e
  used-set-none (some x ∷ hs) (suc i) h e = omega (arith, used-set-none hs i h e)

  pub used-append-free : (hs : List (Option H)) (n : ℕ) → used (hs ++ replicate n none) ≡ used hs
  used-append-free [] zero = refl
  used-append-free [] (suc n) = used-append-free [] n
  used-append-free (none ∷ hs) n = used-append-free hs n
  used-append-free (some h ∷ hs) n = omega (arith, used-append-free hs n)

  -- Slots that are all used are as many as there are.
  pub used-full :
      (hs : List (Option H))
      → ((i : ℕ) → i < length hs → is_free (get_or hs i none) ≡ false)
      → used hs ≡ length hs
  used-full [] h = refl
  used-full (none ∷ hs) h = cc (h 0 (omega arith))
  used-full (some x ∷ hs) h = omega (arith, used-full hs (λ i k. h (suc i) (omega arith)))
