-- ===== src/Error/Numbered.antt =====
-- The messages of src/dpiErrorMessages.h carry the numbers of the errors.
use Prim.Native.String.{String}
use Prim.Native.Char.{code}
use alpha_odpi.Prelude.{
  ℕ, zero, suc, ◌+◌, ◌-◌, ◌*◌, ltb, ltb→lt, ◌/◌, ◌%◌, ◌<◌, ◌≡◌, refl, Bool, true, false, ◌&&◌, List,
  [], ◌∷◌, length, arith, get_or, ◌==◌,
}
use alpha_odpi.Error.Messages.{error_messages}

abbrev codes : String → List ℕ
codes String.[] = []
codes (String.◌∷◌ c s) = code c ∷ codes s

abbrev pub starts_with : List ℕ → List ℕ → Bool
starts_with [] text = true
starts_with (c ∷ cs) [] = false
starts_with (c ∷ cs) (d ∷ ds) = c == d && starts_with cs ds

-- "DPI-", the four digits of a number, and ": ".
abbrev pub header : ℕ → List ℕ
header n =
    b'D'
    ∷ b'P'
    ∷ b'I'
    ∷ b'-'
    ∷ (b'0' + n / 1000)
    ∷ (b'0' + n / 100 % 10)
    ∷ (b'0' + n / 10 % 10)
    ∷ (b'0' + n % 10)
    ∷ b':'
    ∷ b' '
    ∷ []

abbrev pub message_at : List String → ℕ → List ℕ
message_at ms i = codes (get_or ms i "")

-- The number in a message: its fifth to eighth characters.
abbrev pub number_in : List ℕ → ℕ
number_in text =
    1000 * (get_or text 4 0 - b'0')
    + 100 * (get_or text 5 0 - b'0')
    + 10 * (get_or text 6 0 - b'0')
    + (get_or text 7 0 - b'0')

abbrev pub has_header : List ℕ → Bool
has_header text = starts_with (header (number_in text)) text

-- Each message has a header, with a number above `n` and those in front of it.
all_numbered : ℕ → List String → Bool
all_numbered n [] = true
all_numbered n (m ∷ ms) =
    has_header (codes m) && ltb n (number_in (codes m)) && all_numbered (number_in (codes m)) ms

error_messages_numbered : all_numbered 999 error_messages ≡ true
unfolding all_numbered
error_messages_numbered = refl

record Numbered (n : ℕ) (m : String) (ms : List String) : Type 0 where
  headed : has_header (codes m) ≡ true
  above : n < number_in (codes m)
  others : all_numbered (number_in (codes m)) ms ≡ true

all_numbered-parts :
    (n : ℕ) (m : String) (ms : List String) → all_numbered n (m ∷ ms) ≡ true → Numbered n m ms
unfolding all_numbered
all_numbered-parts n m ms h =
    split (has_header (codes m)) (ltb n (number_in (codes m)))
      (all_numbered (number_in (codes m)) ms) refl refl refl h
  where
    split :
        (x y z : Bool)
        → has_header (codes m) ≡ x
        → ltb n (number_in (codes m)) ≡ y
        → all_numbered (number_in (codes m)) ms ≡ z
        → (x && y && z) ≡ true
        → Numbered n m ms
    split true true true a b c k = record {
      headed = a;
      above = ltb→lt n (number_in (codes m)) b;
      others = c;
    }
    split true true false a b c k = absurd (ground arith)
    split true false z a b c k = absurd (ground arith)
    split false y z a b c k = absurd (ground arith)

numbered_at :
    (n i : ℕ) (ms : List String)
    → all_numbered n ms ≡ true
    → i < length ms
    → (has_header (message_at ms i) ≡ true) × (n < number_in (message_at ms i))
numbered_at n i [] h b = absurd (omega arith)
numbered_at n zero (m ∷ ms) h b = let v = all_numbered-parts n m ms h in (v.headed, v.above)
numbered_at n (suc i) (m ∷ ms) h b =
    let v = all_numbered-parts n m ms h in
    let (a, c) = numbered_at (number_in (codes m)) i ms v.others (omega arith) in
    (a, later n (number_in (codes m)) (number_in (message_at ms i)) v.above c)
  where
    later : (x y z : ℕ) → x < y → y < z → x < z
    later x y z p q = omega arith

ascending :
    (n i j : ℕ) (ms : List String)
    → all_numbered n ms ≡ true
    → i < j
    → j < length ms
    → number_in (message_at ms i) < number_in (message_at ms j)
ascending n i j [] h l b = absurd (omega arith)
ascending n i zero (m ∷ ms) h l b = absurd (omega arith)
ascending n zero (suc j) (m ∷ ms) h l b =
    let v = all_numbered-parts n m ms h in
    (numbered_at (number_in (codes m)) j ms v.others (omega arith)).1
ascending n (suc i) (suc j) (m ∷ ms) h l b =
    let v = all_numbered-parts n m ms h in
    ascending (number_in (codes m)) i j ms v.others (omega arith) (omega arith)

-- Of any two messages of the table, both begin with DPI-, four digits, a colon and a space, and the
-- earlier one has the smaller number.
error_messages-ascending :
    (i j : ℕ)
    → i < j
    → j < length error_messages
    → (has_header (message_at error_messages i) ≡ true)
      × (has_header (message_at error_messages j) ≡ true)
      × (number_in (message_at error_messages i) < number_in (message_at error_messages j))
error_messages-ascending i j l b = (
  (numbered_at 999 i error_messages error_messages_numbered (omega arith)).0,
  (numbered_at 999 j error_messages error_messages_numbered b).0,
  ascending 999 i j error_messages error_messages_numbered l b,
)
