-- ===== src/HandlePool/Tests.antt =====
-- Runs of the pool, and the theorems at concrete pools.
use alpha_odpi.Prelude.{zero, suc, ℕ, ◌≡◌, refl, true, List, [], ◌∷◌, none, some, replicate, arith}
use alpha_odpi.Error.{ok}
use alpha_odpi.HandlePool.{HandlePool, acquire, release, create}
use alpha_odpi.HandlePool.Ring.{entries}
use alpha_odpi.HandlePool.Queue.{
  IsValid, queue, Acquires, acquire-Acquires, queue-release, acquire-release_full,
}

-- Handles 1 and 2 wait, from slot 7 on.
abbrev two_waiting : HandlePool ℕ
two_waiting = record {
  handles = some 2 ∷ none ∷ none ∷ none ∷ none ∷ none ∷ none ∷ some 1 ∷ [];
  num_slots = 8;
  num_used_slots = 3;
  acquire_pos = 7;
  release_pos = 1;
}

-- Eight handles were created, and seven of them came back.
abbrev seven_waiting : HandlePool ℕ
seven_waiting = record {
  handles = some 1 ∷ some 2 ∷ some 3 ∷ some 4 ∷ some 5 ∷ some 6 ∷ some 7 ∷ none ∷ [];
  num_slots = 8;
  num_used_slots = 8;
  acquire_pos = 0;
  release_pos = 7;
}

abbrev acquire_times : ℕ → HandlePool ℕ → HandlePool ℕ
acquire_times zero p = p
acquire_times (suc n) p = acquire_times n (acquire true p).0

abbrev release_all : List ℕ → HandlePool ℕ → HandlePool ℕ
release_all [] p = p
release_all (h ∷ hs) p = release_all hs (release p (some h)).0

abbrev empty_pool : HandlePool ℕ
empty_pool = record {
  handles = replicate 8 none;
  num_slots = 8;
  num_used_slots = 0;
  acquire_pos = 0;
  release_pos = 0;
}

create-empty : create {H = ℕ} true true ≡ ok empty_pool
unfolding create
create-empty = refl

-- The full pool comes about from eight calls at a time.
seven_waiting_reached :
    release_all (1 ∷ 2 ∷ 3 ∷ 4 ∷ 5 ∷ 6 ∷ 7 ∷ []) (acquire_times 8 empty_pool) ≡ seven_waiting
unfolding acquire release
seven_waiting_reached = refl

two_waiting-IsValid : IsValid two_waiting
two_waiting-IsValid = omega arith

seven_waiting-IsValid : IsValid seven_waiting
seven_waiting-IsValid = omega arith

acquire-Acquires_example :
    Acquires true two_waiting (acquire true two_waiting).0 (acquire true two_waiting).1
    × IsValid (acquire true two_waiting).0
acquire-Acquires_example = acquire-Acquires true two_waiting two_waiting-IsValid (omega arith)

queue-release_example :
    (queue (release two_waiting (some 3)).0 ≡ some 1 ∷ some 2 ∷ some 3 ∷ [])
    × IsValid (release two_waiting (some 3)).0
unfolding queue entries
queue-release_example = queue-release two_waiting (some 3) two_waiting-IsValid

acquire-release_full_example :
    (queue (release seven_waiting (some 8)).0 ≡ [])
    × ((acquire true (release seven_waiting (some 8)).0).1 ≡ ok none)
acquire-release_full_example =
    acquire-release_full seven_waiting (some 8) seven_waiting-IsValid refl
