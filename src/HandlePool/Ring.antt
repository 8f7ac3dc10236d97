-- ===== src/HandlePool/Ring.antt =====
-- The slots of src/dpiHandlePool.c from `acquirePos` on, going round at the end.
use alpha_odpi.Prelude.{
  zero, suc, ℕ, ◌+◌, ◌-◌, ◌^◌, ◌≤◌, ◌<◌, ◌≡◌, refl, List, [], ◌∷◌, ◌++◌, Option, none, length, set,
  get_or, arith, ap, ap₂, sym, ◌∙◌, ltb, if◌then◌else◌, get_or-set_ne,
}
use alpha_odpi.HandlePool.{advance}

-- `k` places on from `a`, of `n`
abbrev pub place : ℕ → ℕ → ℕ → ℕ
place n a k = if ltb (a + k) n then a + k else a + k - n

pub place-advance :
    (n a k : ℕ) → a < n → k < n → n < 2 ^ 32 → place n (advance n a) k ≡ place n a (suc k)
place-advance n a k h l b = ground arith

module _ {H : Type 0} where
  unfoldable pub entries : List (Option H) → ℕ → ℕ → ℕ → List (Option H)
  entries hs n a zero = []
  entries hs n a (suc k) = get_or hs a none ∷ entries hs n (advance n a) k

  pub length-entries : (hs : List (Option H)) (n a k : ℕ) → length (entries hs n a k) ≡ k
  unfolding entries
  length-entries hs n a zero = refl
  length-entries hs n a (suc k) = ap suc (length-entries hs n (advance n a) k)

  -- A slot behind the entries is not among them.
  pub entries-set :
      (hs : List (Option H)) (n a k j r : ℕ) (v : Option H)
      → a < n
      → n < 2 ^ 32
      → k ≤ j
      → j < n
      → r ≡ place n a j
      → entries (set hs r v) n a k ≡ entries hs n a k
  unfolding entries
  entries-set hs n a zero j r v h b l m e = refl
  entries-set hs n a (suc k) zero r v h b l m e = absurd (omega arith)
  entries-set hs n a (suc k) (suc j) r v h b l m e =
      ap₂ ◌∷◌ (get_or-set_ne hs r a v none (rw e (ground arith))) (
        entries-set hs n (advance n a) k j r v (ground arith) b (omega arith) (omega arith)
          (e ∙ sym (place-advance n a j h (omega arith) b)))

  -- One more entry is the one in the next place.
  pub entries-snoc :
      (hs : List (Option H)) (n a k : ℕ)
      → a < n
      → n < 2 ^ 32
      → k < n
      → entries hs n a (suc k) ≡ entries hs n a k ++ (get_or hs (place n a k) none ∷ [])
  unfolding entries
  entries-snoc hs n a zero h b l = ap (λ i. get_or hs i none ∷ []) (ground arith)
  entries-snoc hs n a (suc k) h b l = ap (◌∷◌ (get_or hs a none)) (
      entries-snoc hs n (advance n a) k (ground arith) b (omega arith)
      ∙ ap (λ i. entries hs n (advance n a) k ++ (get_or hs i none ∷ []))
          (place-advance n a k h (omega arith) b))
