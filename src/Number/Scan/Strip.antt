-- ===== src/Number/Scan/Strip.antt =====
-- Stripping trailing zeroes in `dpiUtils__parseNumberString`, src/dpiUtils.c.
use alpha_odpi.Prelude.{
  ℕ, zero, suc, ◌≡◌, ◌≢◌, refl, ◌∙◌, sym, ap, List, [], ◌∷◌, ◌++◌, reverse, append-nil,
  append_assoc, replicate, arith, ℕ_discrete,
}
use mathlib.Core.List.{reverse-append, reverse-reverse, reverse-cons}
use alpha_odpi.Number.Digits.{last_digit, first_digit, is_empty}
use alpha_odpi.Number.Scan.{strip, drop_zeroes, false}

first_digit-append :
    (ds : List ℕ) (d e : ℕ)
    → first_digit ((ds ++ (d ∷ [])) ++ (e ∷ [])) ≡ first_digit (ds ++ (d ∷ []))
first_digit-append [] d e = refl
first_digit-append (x ∷ ds) d e = refl

pub first_digit-reverse : (ds : List ℕ) → first_digit (reverse ds) ≡ last_digit ds
first_digit-reverse [] = refl
first_digit-reverse (d ∷ []) = refl
first_digit-reverse (d ∷ e ∷ ds) =
    ap first_digit (reverse-cons d (e ∷ ds) ∙ ap (λ x. x ++ (d ∷ [])) (reverse-cons e ds))
    ∙ first_digit-append (reverse ds) e d
    ∙ ap first_digit (sym (reverse-cons e ds))
    ∙ first_digit-reverse (e ∷ ds)

drop_zeroes_none : (ds : List ℕ) → first_digit ds ≢ 0 → drop_zeroes ds ≡ ds
unfolding drop_zeroes
drop_zeroes_none [] h = refl
drop_zeroes_none (d ∷ ds) h = ground arith

-- Digits that do not end in a zero are kept.
pub strip_none : (ds : List ℕ) → last_digit ds ≢ 0 → strip ds ≡ ds
unfolding strip
strip_none ds h =
    ap reverse (drop_zeroes_none (reverse ds) (rw (first_digit-reverse ds) h)) ∙ reverse-reverse ds

strip-snoc : (ds : List ℕ) → strip (ds ++ (0 ∷ [])) ≡ strip ds
unfolding strip
strip-snoc ds = rw (reverse-append ds (0 ∷ []))

pub replicate-snoc : (a k : ℕ) → a ∷ replicate k a ≡ replicate k a ++ (a ∷ [])
replicate-snoc a zero = refl
replicate-snoc a (suc k) = ap (◌∷◌ a) (replicate-snoc a k)

-- Zeroes at the end are not.
pub strip-append-zeroes : (ds : List ℕ) (k : ℕ) → strip (ds ++ replicate k 0) ≡ strip ds
strip-append-zeroes ds zero = ap strip (append-nil ds)
strip-append-zeroes ds (suc k) =
    ap strip (ap (◌++◌ ds) (replicate-snoc 0 k) ∙ sym (append_assoc ds (replicate k 0) (0 ∷ [])))
    ∙ strip-snoc (ds ++ replicate k 0)
    ∙ strip-append-zeroes ds k

is_empty-snoc : (ds : List ℕ) (d : ℕ) → is_empty (ds ++ (d ∷ [])) ≡ false
is_empty-snoc [] d = refl
is_empty-snoc (e ∷ ds) d = refl

reverse-replicate : (k : ℕ) → reverse {A = ℕ} (replicate k 0) ≡ replicate k 0
reverse-replicate zero = refl
reverse-replicate (suc k) =
    reverse-cons 0 (replicate k 0)
    ∙ ap (λ x. x ++ (0 ∷ [])) (reverse-replicate k)
    ∙ sym (replicate-snoc 0 k)

drop_zeroes-split : (ds : List ℕ) → (k : ℕ) × (ds ≡ replicate k 0 ++ drop_zeroes ds)
unfolding drop_zeroes
drop_zeroes-split [] = (0, refl)
drop_zeroes-split (d ∷ ds) = elim (ℕ_discrete d 0) [
  | yes h ↦ let (k, e) = drop_zeroes-split ds in (suc k, rw h (ap (◌∷◌ 0) e))
  | no h ↦ (0, ground arith)
]

drop_zeroes-first :
    (ds : List ℕ) → is_empty (drop_zeroes ds) ≡ false → first_digit (drop_zeroes ds) ≢ 0
unfolding drop_zeroes
drop_zeroes-first [] h = cc
drop_zeroes-first (d ∷ ds) h = ground (arith, drop_zeroes-first ds)

-- Only zeroes are stripped.
pub strip-split : (ds : List ℕ) → (k : ℕ) × (ds ≡ strip ds ++ replicate k 0)
unfolding strip
strip-split ds =
    let (k, e) = drop_zeroes-split (reverse ds) in
    (
      k,
      sym (reverse-reverse ds)
          ∙ ap reverse e
          ∙ reverse-append (replicate k 0) (drop_zeroes (reverse ds))
          ∙ ap (◌++◌ (reverse (drop_zeroes (reverse ds)))) (reverse-replicate k),
    )

is_empty-reverse : (ds : List ℕ) → is_empty (reverse ds) ≡ is_empty ds
is_empty-reverse [] = refl
is_empty-reverse (d ∷ ds) = ap is_empty (reverse-cons d ds) ∙ is_empty-snoc (reverse ds) d

-- What is left does not end in a zero.
pub strip-last : (ds : List ℕ) → is_empty (strip ds) ≡ false → last_digit (strip ds) ≢ 0
unfolding strip
strip-last ds h =
    rw (← first_digit-reverse (reverse (drop_zeroes (reverse ds))), reverse-reverse)
      (drop_zeroes-first (reverse ds) (sym (is_empty-reverse (drop_zeroes (reverse ds))) ∙ h))
