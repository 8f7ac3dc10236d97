-- ===== src/Options/Tests.antt =====
-- The dequeue options with a client that keeps its attributes in a list.
use alpha_odpi.Prelude.{
  ℕ, ◌≡◌, refl, Bool, true, false, List, [], ◌∷◌, some, none, ◌==◌, if◌then◌else◌, Bool-cases, inl,
  inr,
}
use alpha_odpi.Error.{Result, ok, err, oracle}
use alpha_odpi.Handle.Types.{deq_options_handle}
use alpha_odpi.Handle.Public.{start_public_fn}
use alpha_odpi.Options.{
  get_attr_value, set_attr_value, AttrClient, AttrValue, number, text, Options,
}
use alpha_odpi.Options.RoundTrip.{
  Keeps, Setting, sets_wait, sets_mode, calls, calls-get, Reads, latest,
}
use alpha_odpi.Options.Deq.{get_wait, set_wait, set_mode}

abbrev Kept : Type 0
Kept = List (ℕ × AttrValue)

abbrev find : Kept → ℕ → Result AttrValue
find [] b = err (oracle 24315)
find ((a, v) ∷ s) b = if a == b then ok v else find s b

-- A wait of more than 1000 seconds is refused.
abbrev accepts : ℕ → AttrValue → Bool
accepts a (text bytes) = true
accepts a (number n) = if n == 1001 then false else true

abbrev client : AttrClient Kept
client = record {
  attr_get = find;
  attr_set = λ s a v. if accepts a v then ((a, v) ∷ s, ok tt) else (s, err (oracle 24315));
  raw_assign = λ bytes. ok bytes;
}

client-Keeps : Keeps client accepts
client-Keeps = record {
  get-set = λ s a b v. elim (Bool-cases (accepts a v)) [ inl t ↦ rw t refl | inr f ↦ rw f refl ];
}

abbrev new_options : Options Kept
new_options = record {
  base = some (record {
    handle_type = deq_options_handle;
    check_int = 0x70ee498d;
    ref_count = 1;
    has_env = true;
  });
  descriptor = [];
  msg_id_raw = none;
}

abbrev three : List Setting
three = sets_wait 10 ∷ sets_mode 2 ∷ sets_wait 1001 ∷ []

-- The refused wait does not replace the first.
wait_kept : get_wait client (ok tt) true (calls client three new_options) ≡ ok (number 10)
unfolding get_wait get_attr_value set_wait set_mode set_attr_value start_public_fn
wait_kept = refl

live : start_public_fn (ok tt) (new_options.base) deq_options_handle ≡ ok tt
unfolding start_public_fn
live = refl

calls-get_example :
    Reads client (calls client three new_options) (λ a. latest accepts three a (find [] a))
calls-get_example = calls-get client accepts client-Keeps three new_options live
