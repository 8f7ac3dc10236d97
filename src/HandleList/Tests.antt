-- ===== src/HandleList/Tests.antt =====
-- Runs of the list, and the theorems at concrete lists.
use alpha_odpi.Prelude.{ℕ, ◌+◌, ◌≡◌, refl, true, false, [], ◌∷◌, none, some, replicate, arith}
use alpha_odpi.Error.{ok}
use alpha_odpi.HandleList.{HandleList, add_handle, remove_handle, create}
use alpha_odpi.HandleList.Slots.{IsValid, Added, Removed, add_handle-Added, remove_handle-Removed}
use alpha_odpi.HandleList.History.{here, next, adds, removes, Reach-IsValid}

-- Slot 1 is free, and the search begins behind it.
abbrev one_free : HandleList ℕ
one_free = record {
  handles = some 10 ∷ none ∷ some 12 ∷ [];
  num_slots = 3;
  num_used_slots = 2;
  current_pos = 2;
}

abbrev new_list : HandleList ℕ
new_list = record { handles = replicate 8 none; num_slots = 8; num_used_slots = 0; current_pos = 0 }

abbrev after_add : HandleList ℕ
after_add = record {
  handles = some 5 ∷ replicate 7 none;
  num_slots = 8;
  num_used_slots = 1;
  current_pos = 1;
}

add_wraps :
    add_handle false one_free 20
    ≡ ok (
      2,
      record {
        handles = some 10 ∷ some 20 ∷ some 12 ∷ [];
        num_slots = 3;
        num_used_slots = 3;
        current_pos = 2;
      },
    )
unfolding add_handle
add_wraps = refl

one_free-IsValid : IsValid one_free
one_free-IsValid = record {
  whole = refl;
  counted = refl;
  position = omega arith;
  bounded = omega arith;
}

add_handle-Added_example :
    (i : ℕ) × (m : HandleList ℕ) × (add_handle false one_free 20 ≡ ok (i + 1, m))
    × Added one_free m 20 i
add_handle-Added_example =
    add_handle-Added false one_free 20 one_free-IsValid (omega arith) (λ e. absurd (omega arith))

remove_handle-Removed_example : Removed one_free (remove_handle one_free 3) 2
remove_handle-Removed_example = remove_handle-Removed one_free 2 12 one_free-IsValid refl

create-new : create {H = ℕ} true true ≡ ok new_list
unfolding create
create-new = refl

first_add : add_handle true new_list 5 ≡ ok (1, after_add)
unfolding add_handle
first_add = refl

Reach-IsValid_example : IsValid (remove_handle after_add 1)
Reach-IsValid_example =
    Reach-IsValid create-new
      (next (next here (adds true 5 1 (omega arith) first_add)) (removes 0 5 refl))
