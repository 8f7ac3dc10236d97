-- ===== src/Var/Chunks/Received.antt =====
-- Chunks whose first ones hold pieces of a value.
use alpha_odpi.Prelude.{
  ℕ, zero, suc, ◌≤◌, ◌<◌, ◌≡◌, refl, sym, ap, ap₂, subst, List, [], ◌∷◌, ◌++◌, length, take, set,
  get_or, arith, length-append,
}
use alpha_odpi.Var.Chunks.{Chunk, bytes_of, empty_chunk, all_bytes}
use alpha_odpi.Var.Chunks.Sound.{AllSound, total, bytes_of-le}

abbrev pub concat : List (List ℕ) → List ℕ
concat [] = []
concat (p ∷ ps) = p ++ concat ps

pub take-length : {A : Type 0} (xs : List A) (n : ℕ) → length xs ≤ n → take n xs ≡ xs
take-length [] zero h = refl
take-length [] (suc n) h = refl
take-length (x ∷ xs) zero h = absurd (omega arith)
take-length (x ∷ xs) (suc n) h = ap (λ ys. x ∷ ys) (take-length xs n (omega arith))

pub take-append_left : {A : Type 0} (xs ys : List A) → take (length xs) (xs ++ ys) ≡ xs
take-append_left [] ys = refl
take-append_left (x ∷ xs) ys = ap (λ zs. x ∷ zs) (take-append_left xs ys)

-- The first chunks hold the pieces.
abbrev pub Received : List Chunk → List (List ℕ) → Type 0
Received cs [] = Unit
Received [] (p ∷ ps) = ⊥
Received (c ∷ cs) (p ∷ ps) = (bytes_of c.memory c.chunk_length ≡ p) × Received cs ps

pub Received-append :
    (cs extra : List Chunk) (ps : List (List ℕ)) → Received cs ps → Received (cs ++ extra) ps
Received-append cs extra [] h = tt
Received-append [] extra (p ∷ ps) h = absurd h
Received-append (c ∷ cs) extra (p ∷ ps) h = (h.0, Received-append cs extra ps h.1)

pub Received-set_beyond :
    (cs : List Chunk) (ps : List (List ℕ)) (i : ℕ) (c : Chunk)
    → Received cs ps
    → length ps ≤ i
    → Received (set cs i c) ps
Received-set_beyond cs [] i c h l = tt
Received-set_beyond [] (p ∷ ps) i c h l = absurd h
Received-set_beyond (d ∷ cs) (p ∷ ps) zero c h l = absurd (omega arith)
Received-set_beyond (d ∷ cs) (p ∷ ps) (suc i) c h l =
    (h.0, Received-set_beyond cs ps i c h.1 (omega arith))

pub Received-snoc :
    (cs : List Chunk) (ps : List (List ℕ)) (c : Chunk) (p : List ℕ)
    → Received cs ps
    → length ps < length cs
    → bytes_of c.memory c.chunk_length ≡ p
    → Received (set cs (length ps) c) (ps ++ (p ∷ []))
Received-snoc [] [] c p h l e = absurd (omega arith)
Received-snoc [] (q ∷ ps) c p h l e = absurd h
Received-snoc (d ∷ cs) [] c p h l e = (e, tt)
Received-snoc (d ∷ cs) (q ∷ ps) c p h l e = (h.0, Received-snoc cs ps c p h.1 (omega arith) e)

pub snoc_at :
    (cs : List Chunk) (ps : List (List ℕ)) (c : Chunk) (p : List ℕ) (i : ℕ)
    → i ≡ length ps
    → Received cs ps
    → length ps < length cs
    → bytes_of c.memory c.chunk_length ≡ p
    → Received (set cs i c) (ps ++ (p ∷ []))
snoc_at cs ps c p i e h l f =
    subst (λ j. Received (set cs j c) (ps ++ (p ∷ []))) (sym e) (Received-snoc cs ps c p h l f)

pub all_bytes-Received :
    (cs : List Chunk) (ps : List (List ℕ))
    → Received cs ps
    → all_bytes (take (length ps) cs) ≡ concat ps
all_bytes-Received cs [] h = refl
all_bytes-Received [] (p ∷ ps) h = absurd h
all_bytes-Received (c ∷ cs) (p ∷ ps) h = ap₂ (◌++◌) h.0 (all_bytes-Received cs ps h.1)

pub first_piece :
    (p : List ℕ) (cs : List Chunk)
    → Received cs (p ∷ [])
    → bytes_of (get_or cs 0 empty_chunk).memory (get_or cs 0 empty_chunk).chunk_length ≡ p
first_piece p [] h = absurd h
first_piece p (c ∷ cs) h = h.0

-- The pieces take no more than the memory of their chunks.
pub length-concat_le :
    (cs : List Chunk) (ps : List (List ℕ))
    → AllSound cs
    → Received cs ps
    → length (concat ps) ≤ total (take (length ps) cs)
length-concat_le cs [] h r = omega arith
length-concat_le [] (p ∷ ps) h r = absurd r
length-concat_le (c ∷ cs) (p ∷ ps) h r = omega (
  arith,
  length-append p (concat ps),
  ap length r.0,
  bytes_of-le c.memory c.chunk_length,
  h.0.0,
  length-concat_le cs ps h.1 r.1,
)
