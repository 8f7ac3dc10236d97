-- ===== src/HandleList/History.antt =====
-- Any sequence of calls of src/dpiHandleList.c that frees only used slots.
use alpha_odpi.Prelude.{
  ℕ, ◌+◌, ◌^◌, ◌<◌, ◌≡◌, refl, Bool, true, false, some, ap, sym, ◌∙◌, subst, arith,
}
use alpha_odpi.Error.{Result, ok, err}
use alpha_odpi.HandleList.{HandleList, add_handle, create, remove_handle}
use alpha_odpi.HandleList.Slots.{IsValid, handle_at, add_handle-Added, remove_handle-Removed}

module _ {H : Type 0} where
  pub data Step (l : HandleList H) : HandleList H → Type 0 where
    adds :
        {m : HandleList H} (allocated : Bool) (h : H) (slot_num : ℕ)
        → l.num_slots + 8 < 2 ^ 32
        → add_handle allocated l h ≡ ok (slot_num, m)
        → Step l m
    removes : (i : ℕ) (h : H) → handle_at l i ≡ some h → Step l (remove_handle l (i + 1))

  pub data Reach (l : HandleList H) : HandleList H → Type 0 where
    here : Reach l l
    next : {m n : HandleList H} → Reach l m → Step m n → Reach l n

  list_or : HandleList H → Result (ℕ × HandleList H) → HandleList H
  list_or l (ok (i, m)) = m
  list_or l (err e) = l

  memory_needed :
      (allocated : Bool) (l : HandleList H) (h : H) {slot_num : ℕ} {m : HandleList H}
      → add_handle allocated l h ≡ ok (slot_num, m)
      → l.num_used_slots ≡ l.num_slots
      → allocated ≡ true
  unfolding add_handle
  memory_needed true l h e full = refl
  memory_needed false l h e full = ground arith

  Step-IsValid : {l m : HandleList H} → Step l m → IsValid l → IsValid m
  unfolding list_or
  Step-IsValid {l} {m} (adds allocated h slot_num b e) v =
      let (i, m', e', a) = add_handle-Added allocated l h v b (memory_needed allocated l h e) in
      subst IsValid (ap (list_or l) (sym e' ∙ e)) a.valid
  Step-IsValid {l} (removes i h e) v = (remove_handle-Removed l i h v e).valid

  value_or : HandleList H → Result (HandleList H) → HandleList H
  value_or l (ok m) = m
  value_or l (err e) = l

  create-IsValid : {l : HandleList H} → create true true ≡ ok l → IsValid l
  unfolding create value_or
  create-IsValid {l} e =
      subst IsValid (ap (value_or l) e)
        (record { whole = refl; counted = refl; position = omega arith; bounded = omega arith })

  -- From a newly created list on, after any sequence of additions (below 2^32 slots) and of
  -- removals of used slots, the count of used slots is the number of used slots of the array, the
  -- array has as many entries as the list has slots, and the search position lies within it.
  pub Reach-IsValid : {l m : HandleList H} → create true true ≡ ok l → Reach l m → IsValid m
  Reach-IsValid e here = create-IsValid e
  Reach-IsValid e (next r s) = Step-IsValid s (Reach-IsValid e r)
