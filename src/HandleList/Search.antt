-- ===== src/HandleList/Search.antt =====
-- The search for a free slot in `dpiHandleList__addHandle`, src/dpiHandleList.c.
use native.Mathlib.Nat.{add-zero, mod-eq_of_lt, mod-eq-sub-mod}
use alpha_odpi.Prelude.{
  zero, suc, ℕ, ◌+◌, ◌-◌, ◌%◌, ◌^◌, ◌<◌, ◌≡◌, ◌⊎◌, inl, inr, true, false, List, Option, none,
  length, get_or, arith, Bool-cases, dec_lt, ℕ_discrete, ◌∙◌, ap, sym,
}
use alpha_odpi.HandleList.{is_free, advance, find_slot}
use alpha_odpi.HandleList.Count.{used, used-full}

pub advance-lt : (n pos : ℕ) → pos < n → n < 2 ^ 32 → advance n pos < n
advance-lt n pos h k = ground arith

advance-mod : (n pos j : ℕ) → pos < n → n < 2 ^ 32 → (advance n pos + j) % n ≡ (pos + suc j) % n
advance-mod n pos j h k = elim (ℕ_discrete (pos + 1) n) [
  | yes e ↦
      let wraps : advance n pos ≡ 0 = ground arith in
      let whole : pos + suc j ≡ n + j = omega arith in
      rw (wraps, whole)
        (ap (λ x. x % n) (omega arith) ∙ sym (mod-eq-sub-mod {n = n + j} {m = n} (omega arith)))
  | no e ↦
      let steps : advance n pos ≡ pos + 1 = ground arith in rw steps (ap (λ x. x % n) (omega arith))
]

module _ {H : Type 0} (hs : List (Option H)) (n : ℕ) (bounded : n < 2 ^ 32) where
  -- The search stops in a free slot, or has seen a used slot in each round.
  find_slot-cases :
      (rounds pos : ℕ)
      → pos < n
      → ((is_free (get_or hs (find_slot hs n rounds pos) none) ≡ true)
          × (find_slot hs n rounds pos < n))
        ⊎ ((j : ℕ) → j < rounds → is_free (get_or hs ((pos + j) % n) none) ≡ false)
  unfolding find_slot
  find_slot-cases zero pos h = inr (λ j k. absurd (omega arith))
  find_slot-cases (suc rounds) pos h = elim (Bool-cases (is_free (get_or hs pos none))) [
    | inl e ↦ inl (rw e (e, h))
    | inr e ↦ rw e (later e (find_slot-cases rounds (advance n pos) (advance-lt n pos h bounded)))
  ]
    where
      seen :
          is_free (get_or hs pos none) ≡ false
          → ((j : ℕ) → j < rounds → is_free (get_or hs ((advance n pos + j) % n) none) ≡ false)
          → (j : ℕ) → j < suc rounds
          → is_free (get_or hs ((pos + j) % n) none) ≡ false
      seen e f zero k = rw (add-zero, mod-eq_of_lt h) e
      seen e f (suc j) k = rw (← advance-mod n pos j h bounded) (f j (omega arith))

      later :
          is_free (get_or hs pos none) ≡ false
          → ((is_free (get_or hs (find_slot hs n rounds (advance n pos)) none) ≡ true)
              × (find_slot hs n rounds (advance n pos) < n))
            ⊎ ((j : ℕ) → j < rounds → is_free (get_or hs ((advance n pos + j) % n) none) ≡ false)
          → ((is_free (get_or hs (find_slot hs n rounds (advance n pos)) none) ≡ true)
              × (find_slot hs n rounds (advance n pos) < n))
            ⊎ ((j : ℕ) → j < suc rounds → is_free (get_or hs ((pos + j) % n) none) ≡ false)
      later e (inl found) = inl found
      later e (inr f) = inr (seen e f)

  -- Every slot is reached within as many rounds as there are slots, wherever the search begins.
  reached : (pos i : ℕ) → pos < n → i < n → (j : ℕ) × (j < n) × ((pos + j) % n ≡ i)
  reached pos i h k = elim (dec_lt i pos) [
    | yes b ↦ (
      i + n - pos,
      omega arith,
      ap (λ x. x % n) (omega arith)
          ∙ mod-eq-sub-mod {n = i + n} {m = n} (omega arith)
          ∙ ap (λ x. x % n) (omega arith)
          ∙ mod-eq_of_lt k,
    )
    | no b ↦ (i - pos, omega arith, ap (λ x. x % n) (omega arith) ∙ mod-eq_of_lt k)
  ]

  -- With a slot to spare, the search stops in a free one.
  pub find_slot-free :
      (pos : ℕ)
      → pos < n
      → length hs ≡ n
      → used hs < n
      → (is_free (get_or hs (find_slot hs n n pos) none) ≡ true) × (find_slot hs n n pos < n)
  find_slot-free pos h whole spare = elim (find_slot-cases n pos h) [
    | inl found ↦ found
    | inr f ↦ absurd (omega (arith, used-full hs λ i k. all_used f i (omega arith)))
  ]
    where
      all_used :
          ((j : ℕ) → j < n → is_free (get_or hs ((pos + j) % n) none) ≡ false)
          → (i : ℕ) → i < n
          → is_free (get_or hs i none) ≡ false
      all_used f i k = let (j, b, e) = reached pos i h k in rw (← e) (f j b)
