-- ===== src/HandleList.antt =====
-- src/dpiHandleList.c: the open statements, LOBs and objects of a connection, each in a slot. The
-- mutex is held from the first read to the last write of a call, so a call is one step.
pub mod Count
pub mod Search
pub mod Slots
pub mod History
mod Tests
use alpha_odpi.Prelude.{
  ℕ, zero, suc, ◌+◌, ◌-◌, ◌%◌, ◌^◌, Bool, true, false, List, [], ◌∷◌, ◌++◌, Option, none, some, ltb,
  ◌==◌, if◌then◌else◌, set, get_or, take, replicate,
}
use alpha_odpi.Error.{Result, ok, err, dpi, no_memory}

-- `dpiHandleList`; a NULL entry of `handles` is `none`.
pub record HandleList (H : Type 0) : Type 0 where
  pub handles : List (Option H)
  pub num_slots : ℕ
  pub num_used_slots : ℕ
  pub current_pos : ℕ

-- `uint32_t` sums and differences
abbrev pub add_u32 : ℕ → ℕ → ℕ
add_u32 a b = (a + b) % 2 ^ 32

abbrev pub sub_u32 : ℕ → ℕ → ℕ
sub_u32 a b = (a + 2 ^ 32 - b) % 2 ^ 32

abbrev pub is_free {ℓ} : {A : Type ℓ} → Option A → Bool
is_free none = true
is_free (some a) = false

-- `currentPos++`, and back to 0 at the end
abbrev pub advance : ℕ → ℕ → ℕ
advance n pos = if add_u32 pos 1 == n then 0 else add_u32 pos 1

module _ {H : Type 0} where
  -- The `for` loop: at most as many rounds as there are slots.
  pub find_slot : List (Option H) → ℕ → ℕ → ℕ → ℕ
  find_slot hs n zero pos = pos
  find_slot hs n (suc rounds) pos =
      let rest = find_slot hs n rounds (advance n pos) in
      if is_free (get_or hs pos none) then pos else rest

  -- A new array, cleared, into which the old slots are copied.
  abbrev pub grow : List (Option H) → ℕ → ℕ → List (Option H)
  grow hs old new = take old hs ++ replicate (new - old) none

  pub add_to_new_slot : HandleList H → H → ℕ × HandleList H
  add_to_new_slot l h = (
    add_u32 l.num_used_slots 1,
    record {
      handles = set (grow l.handles l.num_slots (add_u32 l.num_slots 8)) l.num_used_slots (some h);
      num_slots = add_u32 l.num_slots 8;
      num_used_slots = add_u32 l.num_used_slots 1;
      current_pos = add_u32 l.num_used_slots 1;
    },
  )

  pub add_to_free_slot : HandleList H → H → ℕ × HandleList H
  unfolding find_slot
  add_to_free_slot l h =
      let pos = find_slot l.handles l.num_slots l.num_slots l.current_pos in
      (
        add_u32 pos 1,
        record l {
          handles = set l.handles pos (some h);
          num_used_slots = add_u32 l.num_used_slots 1;
          current_pos = advance l.num_slots pos;
        },
      )

  -- `allocated` is the answer of the allocator, which is asked if every slot is used. The result
  -- is the slot number, counted from 1, and the list; a failing call leaves the list as it was.
  pub add_handle : Bool → HandleList H → H → Result (ℕ × HandleList H)
  unfolding add_to_new_slot add_to_free_slot
  add_handle allocated l h =
      if l.num_used_slots == l.num_slots
      then if allocated then ok (add_to_new_slot l h) else err (dpi no_memory)
      else ok (add_to_free_slot l h)

  -- `dpiHandleList__create`: the answers for the structure and for its slots.
  pub create : Bool → Bool → Result (HandleList H)
  create structure slots =
      if structure
      then if slots
        then ok (record {
          handles = replicate 8 none;
          num_slots = 8;
          num_used_slots = 0;
          current_pos = 0;
        })
        else err (dpi no_memory)
      else err (dpi no_memory)

  pub remove_handle : HandleList H → ℕ → HandleList H
  remove_handle l slot_num =
      if ltb 0 slot_num
      then record l {
        handles = set l.handles (slot_num - 1) none;
        num_used_slots = sub_u32 l.num_used_slots 1;
      }
      else l
