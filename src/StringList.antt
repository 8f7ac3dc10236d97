-- ===== src/StringList.antt =====
-- src/dpiStringList.c: a list of strings that grows by 64 places at a time.
pub mod Elements
mod Tests
use alpha_odpi.Prelude.{
  ℕ, ◌+◌, ◌%◌, ◌^◌, ◌≤◌, Bool, true, false, List, [], ◌++◌, Option, none, some, length, take, drop,
  set, leb, if◌then◌else◌,
}
use alpha_odpi.Error.{Result, ok, err, dpi, no_memory}

-- `dpiStringList` with the count of the places that are allocated, which the callers keep beside it.
-- A place of the array of pointers that was not written is `none`.
pub record StringList : Type 0 where
  pub num_strings : ℕ
  pub strings : Option (List (Option (List ℕ)))
  pub string_lengths : Option (List ℕ)
  pub num_allocated : ℕ

-- The allocator's answers for the two arrays and for the copy of the string.
pub record Memory : Type 0 where
  pub for_lengths : ℕ → Option (List ℕ)
  pub for_strings : ℕ → Option (List (Option (List ℕ)))
  pub for_string : ℕ → Bool

module _ {A : Type 0} where
  -- The places at a pointer; there are none at NULL.
  abbrev pub places : Option (List A) → List A
  places none = []
  places (some block) = block

  -- What `memcpy` leaves in new memory.
  abbrev pub copied : ℕ → Option (List A) → List A → List A
  copied n none fresh = fresh
  copied n (some block) fresh = take n block ++ drop n fresh

abbrev pub grow_strings :
    Option (List (Option (List ℕ))) → StringList → StringList × Result (Unit {0})
grow_strings none l = (l, err (dpi no_memory))
grow_strings (some fresh) l =
    (record l { strings = some (copied l.num_strings l.strings fresh) }, ok tt)

abbrev pub grow_lengths : Memory → Option (List ℕ) → StringList → StringList × Result (Unit {0})
grow_lengths memory none l = (l, err (dpi no_memory))
grow_lengths memory (some fresh) l =
    grow_strings (memory.for_strings l.num_allocated)
      (record l { string_lengths = some (copied l.num_strings l.string_lengths fresh) })

-- `allocate more space in the array, if needed`
abbrev pub more_space : Memory → StringList → StringList × Result (Unit {0})
more_space memory l =
    if leb l.num_allocated l.num_strings
    then (let n = (l.num_allocated + 64) % 2 ^ 32 in
        grow_lengths memory (memory.for_lengths n) (record l { num_allocated = n }))
    else (l, ok tt)

-- `add a copy of the string to the list`
abbrev pub append_copy : List ℕ → StringList → StringList
append_copy value l = record l {
  num_strings = (l.num_strings + 1) % 2 ^ 32;
  strings = some (set (places l.strings) l.num_strings (some value));
  string_lengths = some (set (places l.string_lengths) l.num_strings (length value));
}

abbrev pub add_copy :
    Memory → List ℕ → StringList × Result (Unit {0}) → StringList × Result (Unit {0})
add_copy memory value (l, err e) = (l, err e)
add_copy memory value (l, ok u) =
    if memory.for_string (length value)
    then (append_copy value l, ok tt)
    else (l, err (dpi no_memory))

-- `dpiStringList__addElement`
unfoldable pub add_element : Memory → List ℕ → StringList → StringList × Result (Unit {0})
add_element memory value l = add_copy memory value (more_space memory l)

-- `dpiStringList__free`: the count of places stays with the caller.
unfoldable pub free : StringList → StringList
free l = record l { num_strings = 0; strings = none; string_lengths = none }
