-- ===== src/StringList/Elements.antt =====
-- What a list of strings holds after strings were added: src/dpiStringList.c.
use alpha_odpi.Prelude.{
  take-set, map-append, ℕ, zero, suc, ◌+◌, ◌%◌, ◌^◌, ◌≤◌, ◌<◌, ◌≡◌, refl, sym, ap, ◌∙◌, Bool, true,
  false, List, [], ◌∷◌, ◌++◌, map, Option, none, some, length, take, drop, set, leb, if◌then◌else◌,
  arith, Bool-cases, inl, inr, append-nil, length-take, length-drop, length-append, length-set,
}
use alpha_odpi.Error.{Result, ok, err, dpi, no_memory}
use alpha_odpi.StringList.{
  StringList, Memory, places, copied, grow_strings, grow_lengths, more_space, append_copy, add_copy,
  add_element,
}

-- The allocator gives as many places as are asked for.
pub record Allocates (memory : Memory) : Type 0 where
  pub lengths_size : (n : ℕ) (block : List ℕ) → memory.for_lengths n ≡ some block → length block ≡ n
  pub strings_size :
      (n : ℕ) (block : List (Option (List ℕ)))
      → memory.for_strings n ≡ some block
      → length block ≡ n

module _ {A : Type 0} where
  take-copied :
      (n : ℕ) (xs ys : List A) → n ≤ length xs → take n (take n xs ++ drop n ys) ≡ take n xs
  take-copied zero xs ys h = refl
  take-copied (suc n) [] ys h = absurd (omega arith)
  take-copied (suc n) (x ∷ xs) [] h =
      ap (λ zs. x ∷ zs) (rw (append-nil (take n xs)) (take-take n xs))
    where
      take-take : (m : ℕ) (zs : List A) → take m (take m zs) ≡ take m zs
      take-take zero zs = refl
      take-take (suc m) [] = refl
      take-take (suc m) (z ∷ zs) = ap (λ ws. z ∷ ws) (take-take m zs)
  take-copied (suc n) (x ∷ xs) (y ∷ ys) h = ap (λ zs. x ∷ zs) (take-copied n xs ys (omega arith))

  length-copied :
      (n : ℕ) (old : Option (List A)) (fresh : List A)
      → n ≤ length (places old)
      → n ≤ length fresh
      → length (copied n old fresh) ≡ length fresh
  length-copied n none fresh h k = refl
  length-copied n (some xs) fresh h k =
      length-append (take n xs) (drop n fresh)
      ∙ omega (arith, length-take n xs, length-drop n fresh)

  kept-copied :
      (n : ℕ) (old : Option (List A)) (fresh : List A)
      → n ≤ length (places old)
      → take n (copied n old fresh) ≡ take n (places old)
  kept-copied zero none fresh h = refl
  kept-copied (suc n) none fresh h = absurd (omega arith)
  kept-copied n (some xs) fresh h = take-copied n xs fresh h

-- The list holds the values: both arrays have the places that are allocated.
pub record Holds (values : List (List ℕ)) (l : StringList) : Type 0 where
  pub count : l.num_strings ≡ length values
  pub room : l.num_strings ≤ l.num_allocated
  pub strings_room : length (places l.strings) ≡ l.num_allocated
  pub lengths_room : length (places l.string_lengths) ≡ l.num_allocated
  pub strings_held : take l.num_strings (places l.strings) ≡ map some values
  pub lengths_held : take l.num_strings (places l.string_lengths) ≡ map length values

module _ (memory : Memory) (allocates : Allocates memory) where
  -- There is room for one more.
  abbrev HasRoom : List (List ℕ) → StringList → Type 0
  HasRoom values l = Holds values l × (l.num_strings < l.num_allocated)

  grow_strings-HasRoom :
      (values : List (List ℕ)) (l : StringList) (n : ℕ) (lengths : List ℕ)
      (block : Option (List (Option (List ℕ))))
      → Holds values l
      → l.num_strings < n
      → length lengths ≡ n
      → memory.for_strings n ≡ block
      → let (l', r) = grow_strings block (record l {
        num_allocated = n;
        string_lengths = some (copied l.num_strings l.string_lengths lengths);
      }) in
        r ≡ ok tt → HasRoom values l'
  grow_strings-HasRoom values l n lengths none h k m e r = cc
  grow_strings-HasRoom values l n lengths (some block) h k m e r =
      let size = allocates.strings_size n block e in
      (
        record {
          count = h.count;
          room = omega arith;
          strings_room =
              length-copied l.num_strings l.strings block (omega (arith, h.room, h.strings_room))
                (omega arith)
              ∙ size;
          lengths_room =
              length-copied l.num_strings l.string_lengths lengths
                (omega (arith, h.room, h.lengths_room)) (omega arith)
              ∙ m;
          strings_held =
              kept-copied l.num_strings l.strings block (omega (arith, h.room, h.strings_room))
              ∙ h.strings_held;
          lengths_held =
              kept-copied l.num_strings l.string_lengths lengths
                (omega (arith, h.room, h.lengths_room))
              ∙ h.lengths_held;
        },
        k,
      )

  grow_lengths-HasRoom :
      (values : List (List ℕ)) (l : StringList) (n : ℕ) (block : Option (List ℕ))
      → Holds values l
      → l.num_strings < n
      → memory.for_lengths n ≡ block
      → let (l', r) = grow_lengths memory block (record l { num_allocated = n }) in
        r ≡ ok tt → HasRoom values l'
  grow_lengths-HasRoom values l n none h k e r = cc
  grow_lengths-HasRoom values l n (some block) h k e r =
      grow_strings-HasRoom values l n block _ h k (allocates.lengths_size n block e) refl r

  more_space-HasRoom :
      (values : List (List ℕ)) (l : StringList)
      → Holds values l
      → length values + 64 < 2 ^ 32
      → (more_space memory l).1 ≡ ok tt
      → HasRoom values (more_space memory l).0
  more_space-HasRoom values l h b = elim (Bool-cases (leb l.num_allocated l.num_strings)) [
    | inl t ↦ rw t (λ r.
        grow_lengths-HasRoom values l ((l.num_allocated + 64) % 2 ^ 32) _ h
          (ground (arith, h.room, h.count)) refl r)
    | inr f ↦ rw f (λ r. (h, ground arith))
  ]

  append_copy-Holds :
      (values : List (List ℕ)) (value : List ℕ) (l : StringList)
      → length values + 64 < 2 ^ 32
      → HasRoom values l
      → Holds (values ++ (value ∷ [])) (append_copy value l)
  append_copy-Holds values value l b (h, k) =
      let next : (l.num_strings + 1) % 2 ^ 32 ≡ suc l.num_strings = omega (arith, h.count) in
      let strings = places l.strings in
      let lengths = places l.string_lengths in
      record {
        count = omega (arith, h.count, length-append values (value ∷ []));
        room = omega (arith, h.room);
        strings_room = length-set strings l.num_strings (some value) ∙ h.strings_room;
        lengths_room = length-set lengths l.num_strings (length value) ∙ h.lengths_room;
        strings_held =
            ap (λ n. take n (set strings l.num_strings (some value))) next
            ∙ take-set l.num_strings strings (some value) (omega (arith, h.strings_room))
            ∙ ap (λ xs. xs ++ (some value ∷ [])) h.strings_held
            ∙ sym (map-append some values (value ∷ []));
        lengths_held =
            ap (λ n. take n (set lengths l.num_strings (length value))) next
            ∙ take-set l.num_strings lengths (length value) (omega (arith, h.lengths_room))
            ∙ ap (λ xs. xs ++ (length value ∷ [])) h.lengths_held
            ∙ sym (map-append length values (value ∷ []));
      }

  add_copy-Holds :
      (values : List (List ℕ)) (value : List ℕ) (r : StringList × Result (Unit {0}))
      → length values + 64 < 2 ^ 32
      → (r.1 ≡ ok tt → HasRoom values r.0)
      → (add_copy memory value r).1 ≡ ok tt
      → Holds (values ++ (value ∷ [])) (add_copy memory value r).0
  add_copy-Holds values value (l, err x) b h e = cc
  add_copy-Holds values value (l, ok tt) b h e = choose (memory.for_string (length value)) e
    where
      branch : Bool → StringList × Result (Unit {0})
      branch t = if t then (append_copy value l, ok tt) else (l, err (dpi no_memory))

      choose : (t : Bool) → (branch t).1 ≡ ok tt → Holds (values ++ (value ∷ [])) (branch t).0
      choose true r = append_copy-Holds values value l b (h refl)
      choose false r = cc

  -- An addition that succeeds, to a list that holds some strings, leaves a list that holds these
  -- and the new one behind them, with their lengths, in arrays that have the places that are
  -- counted as allocated; the allocator gives the places asked for, and there are fewer than 2^32 -
  -- 64 strings.
  pub add_element-Holds :
      (values : List (List ℕ)) (value : List ℕ) (l : StringList)
      → Holds values l
      → length values + 64 < 2 ^ 32
      → (add_element memory value l).1 ≡ ok tt
      → Holds (values ++ (value ∷ [])) (add_element memory value l).0
  unfolding add_element
  add_element-Holds values value l h b =
      add_copy-Holds values value (more_space memory l) b (more_space-HasRoom values l h b)
