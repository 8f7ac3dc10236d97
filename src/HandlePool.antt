-- ===== src/HandlePool.antt =====
-- src/dpiHandlePool.c: the error handles of an environment that wait for their next use. The mutex
-- is held over each call, so a call is one step.
pub mod Ring
pub mod Queue
mod Tests
use alpha_odpi.Prelude.{
  ℕ, zero, suc, ◌+◌, ◌-◌, ◌%◌, ◌^◌, Bool, true, false, List, [], ◌∷◌, ◌++◌, Option, none, some, ltb,
  ◌==◌, if◌then◌else◌, set, get_or, take, replicate,
}
use alpha_odpi.Error.{Result, ok, err, dpi, no_memory}

-- `dpiHandlePool`; a NULL entry of `handles` is `none`.
pub record HandlePool (H : Type 0) : Type 0 where
  pub handles : List (Option H)
  pub num_slots : ℕ
  pub num_used_slots : ℕ
  pub acquire_pos : ℕ
  pub release_pos : ℕ

-- `uint32_t` sums
abbrev pub add_u32 : ℕ → ℕ → ℕ
add_u32 a b = (a + b) % 2 ^ 32

-- `pos++`, and back to 0 at the end
abbrev pub advance : ℕ → ℕ → ℕ
advance n pos = if add_u32 pos 1 == n then 0 else add_u32 pos 1

module _ {H : Type 0} where
  -- The branch that takes a handle out.
  pub take_out : HandlePool H → HandlePool H × Option H
  take_out p = (
    record p {
      handles = set p.handles p.acquire_pos none;
      acquire_pos = advance p.num_slots p.acquire_pos;
    },
    get_or p.handles p.acquire_pos none,
  )

  -- A new array, cleared, into which the old slots are copied.
  pub grow : HandlePool H → HandlePool H
  grow p = record p {
    handles = take p.num_slots p.handles ++ replicate (add_u32 p.num_slots 8 - p.num_slots) none;
    num_slots = add_u32 p.num_slots 8;
  }

  -- The branch that counts a handle which the caller is to create.
  pub count_new : Bool → HandlePool H → HandlePool H × Result (Option H)
  unfolding grow
  count_new allocated p =
      let q = record p { num_used_slots = add_u32 p.num_used_slots 1 } in
      if ltb p.num_slots (add_u32 p.num_used_slots 1)
      then if allocated then (grow q, ok none) else (q, err (dpi no_memory))
      else (q, ok none)

  -- `allocated` is the answer of the allocator, should it be asked. A failing call keeps the count
  -- that it has raised.
  pub acquire : Bool → HandlePool H → HandlePool H × Result (Option H)
  unfolding take_out count_new
  acquire allocated p =
      if p.acquire_pos == p.release_pos
      then count_new allocated p
      else let (q, h) = take_out p in (q, ok h)

  -- `dpiHandlePool__create`: the answers for the structure and for its slots.
  pub create : Bool → Bool → Result (HandlePool H)
  create structure slots =
      if structure
      then if slots
        then ok (record {
          handles = replicate 8 none;
          num_slots = 8;
          num_used_slots = 0;
          acquire_pos = 0;
          release_pos = 0;
        })
        else err (dpi no_memory)
      else err (dpi no_memory)

  -- The caller's pointer to the handle is cleared.
  pub release : HandlePool H → Option H → HandlePool H × Option H
  release p handle = (
    record p {
      handles = set p.handles p.release_pos handle;
      release_pos = advance p.num_slots p.release_pos;
    },
    none,
  )
