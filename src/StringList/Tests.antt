-- ===== src/StringList/Tests.antt =====
-- Lists of strings at concrete ones.
use alpha_odpi.Prelude.{
  ◌≡◌, refl, true, [], ◌∷◌, ◌++◌, some, none, replicate, length, length-replicate, ap, ◌∙◌, sym,
  arith,
}
use alpha_odpi.Error.{ok}
use alpha_odpi.StringList.{StringList, Memory, add_element, free}
use alpha_odpi.StringList.Elements.{Allocates, Holds, add_element-Holds}

abbrev memory : Memory
memory = record {
  for_lengths = λ n. some (replicate n 0);
  for_strings = λ n. some (replicate n none);
  for_string = λ n. true;
}

abbrev empty : StringList
empty = record { num_strings = 0; strings = none; string_lengths = none; num_allocated = 0 }

empty-Holds : Holds [] empty
empty-Holds = record {
  count = refl;
  room = omega arith;
  strings_room = refl;
  lengths_room = refl;
  strings_held = refl;
  lengths_held = refl;
}

memory-Allocates : Allocates memory
memory-Allocates = record {
  lengths_size = λ n block e.
      let same : replicate n 0 ≡ block = cc in ap length (sym same) ∙ length-replicate n 0;
  strings_size = λ n block e.
      let same : replicate n none ≡ block = cc in ap length (sym same) ∙ length-replicate n none;
}

first_place : (add_element memory (5 ∷ 6 ∷ []) empty).0.num_allocated ≡ 64
unfolding add_element
first_place = refl

-- A failure leaves the larger count of places behind, so that the next string finds no array.
no_array :
    let failed = (add_element (record memory { for_lengths = λ n. none }) (5 ∷ []) empty).0 in
    let (l, r) = add_element memory (5 ∷ []) failed in
    (r ≡ ok tt) × (l.num_strings ≡ 1) × (l.strings ≡ some [])
unfolding add_element
no_array = (refl, refl, refl)

add_element-Holds_example :
    Holds ([] ++ ((5 ∷ 6 ∷ []) ∷ [])) (add_element memory (5 ∷ 6 ∷ []) empty).0
unfolding add_element
add_element-Holds_example =
    add_element-Holds memory memory-Allocates [] (5 ∷ 6 ∷ []) empty empty-Holds (omega arith) refl

-- A list that was freed holds nothing, if the caller starts to count the places anew.
freed : Holds [] (record (free (add_element memory (5 ∷ 6 ∷ []) empty).0) { num_allocated = 0 })
unfolding free
freed = record {
  count = refl;
  room = omega arith;
  strings_room = refl;
  lengths_room = refl;
  strings_held = refl;
  lengths_held = refl;
}
