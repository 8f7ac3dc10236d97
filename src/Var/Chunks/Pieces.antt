-- ===== src/Var/Chunks/Pieces.antt =====
-- A value that the client writes in pieces comes back whole: src/dpiVar.c.
use alpha_odpi.Prelude.{
  ℕ, suc, ◌+◌, ◌-◌, ◌*◌, ◌%◌, ◌^◌, ◌≤◌, ◌<◌, ◌≡◌, refl, sym, ap, ◌∙◌, subst, true, false, List, [],
  ◌∷◌, ◌++◌, Option, none, some, ◌==◌, ltb, length, take, drop, set, get_or, replicate,
  if◌then◌else◌, arith, Bool-cases, inl, inr, length-append, length-set, length-replicate,
  length-take, length-drop, append-nil, append_assoc, get_or-set_self,
}
use alpha_odpi.Error.{Result, ok, err}
use alpha_odpi.Var.Chunks.{
  Chunk, DynamicBytes, Memory, Given, given_bytes, empty_chunk, allocate_chunks, chunk_size,
  new_chunk, given_chunk, next_chunk, define_callback, all_bytes, total_allocated, consolidated,
  set_bytes_from_dynamic_bytes,
}
use alpha_odpi.Var.Chunks.Sound.{
  IsSound, AllSound, total, AllSound-append, AllSound-replicate, AllSound-set, AllSound-get,
  total-append, total-replicate, total-set, total-take, total_allocated-total, written_chunk,
  written_chunk-IsSound,
}
use alpha_odpi.Var.Chunks.Received.{
  concat, take-length, take-append_left, Received, Received-append, Received-set_beyond,
  Received-snoc, snoc_at, all_bytes-Received, first_piece, length-concat_le,
}

-- The allocator has memory: a block for every size.
pub record Supplies (m : Memory) (block : ℕ → List ℕ) : Type 0 where
  pub of_chunks : m.for_chunks ≡ true
  pub of_bytes : (n : ℕ) → m.for_bytes n ≡ some (block n)
  pub sized : (n : ℕ) → length (block n) ≡ n

-- The client writes a piece into the chunk that it was given last, and its length.
abbrev pub write_piece : List ℕ → DynamicBytes → DynamicBytes
write_piece piece d = record d {
  chunks =
      set d.chunks (d.num_chunks - 1)
        (written_chunk piece (get_or d.chunks (d.num_chunks - 1) empty_chunk));
}

abbrev pub if_given : List ℕ → DynamicBytes × Result (Unit {0}) → DynamicBytes × Result (Unit {0})
if_given piece (d, err e) = (d, err e)
if_given piece (d, ok u) = (write_piece piece d, ok tt)

abbrev pub receive : Memory → List ℕ → DynamicBytes → DynamicBytes × Result (Unit {0})
receive m piece d = if_given piece (define_callback m d)

-- The pieces one after the other, as long as there are chunks, and then the whole value.
abbrev pub whole : Memory → DynamicBytes × Result (Unit {0}) → DynamicBytes × Result Given
whole m (d, err e) = (d, err e)
whole m (d, ok u) = set_bytes_from_dynamic_bytes m d

abbrev pub receive_all :
    Memory → List (List ℕ) → DynamicBytes × Result (Unit {0}) → DynamicBytes × Result (Unit {0})
receive_all m [] x = x
receive_all m (p ∷ ps) (d, err e) = (d, err e)
receive_all m (p ∷ ps) (d, ok u) = receive_all m ps (receive m p d)

-- The structure holds the pieces, and counts its chunks, which have not more memory than `limit` and that
-- of a chunk for each piece.
pub record Holds (limit : ℕ) (ps : List (List ℕ)) (d : DynamicBytes) : Type 0 where
  pub counted : d.num_chunks ≡ length ps
  pub placed : length d.chunks ≡ d.allocated_chunks
  pub within : d.num_chunks ≤ d.allocated_chunks
  pub received : Received d.chunks ps
  pub sound : AllSound d.chunks
  pub bounded : total d.chunks ≤ limit + chunk_size * length ps

-- The whole value is given, and held as one piece.
abbrev pub Whole : List ℕ → DynamicBytes × Result Given → Type 0
Whole bytes (d, r) =
    (r ≡ ok (given_bytes bytes)) × (d.num_chunks ≡ 1) × Received d.chunks (bytes ∷ [])

-- Each piece is one that a chunk has room for.
abbrev pub AllFit : List (List ℕ) → Type 0
AllFit [] = Unit
AllFit (p ∷ ps) = (length p ≤ chunk_size) × AllFit ps

module _ (m : Memory) (block : ℕ → List ℕ) (supplies : Supplies m block) (limit : ℕ) where
  -- There is a place for one more.
  abbrev HasPlace : List (List ℕ) → DynamicBytes × Result (Unit {0}) → Type 0
  HasPlace ps (d, r) = Holds limit ps d × (d.num_chunks < d.allocated_chunks) × (r ≡ ok tt)

  allocate_chunks-HasPlace :
      (ps : List (List ℕ)) (d : DynamicBytes)
      → Holds limit ps d
      → d.num_chunks ≡ d.allocated_chunks
      → length ps + 8 < 2 ^ 32
      → HasPlace ps (allocate_chunks m d)
  allocate_chunks-HasPlace ps d h e b =
      let n : (d.allocated_chunks + 8) % 2 ^ 32 ≡ d.num_chunks + 8 = omega (arith, h.counted) in
      let more = replicate ((d.allocated_chunks + 8) % 2 ^ 32 - d.num_chunks) empty_chunk in
      let none_more : total more ≡ 0 =
        total-replicate ((d.allocated_chunks + 8) % 2 ^ 32 - d.num_chunks) in
      let whole_array : take d.num_chunks d.chunks ≡ d.chunks =
        take-length d.chunks d.num_chunks (omega (arith, h.placed)) in
      rw supplies.of_chunks (
        record {
          counted = h.counted;
          placed =
              length-append (take d.num_chunks d.chunks) more
              ∙ omega (
                arith,
                length-take d.num_chunks d.chunks,
                h.placed,
                length-replicate ((d.allocated_chunks + 8) % 2 ^ 32 - d.num_chunks) empty_chunk,
              );
          within = omega arith;
          received =
              subst (λ cs. Received (cs ++ more) ps) (sym whole_array)
                (Received-append d.chunks more ps h.received);
          sound =
              subst (λ cs. AllSound (cs ++ more)) (sym whole_array)
                (AllSound-append d.chunks more h.sound (AllSound-replicate _));
          bounded =
              subst (λ cs. total (cs ++ more) ≤ limit + chunk_size * length ps) (sym whole_array)
                (omega (arith, total-append d.chunks more, none_more, h.bounded));
        },
        omega arith,
        refl,
      )

  ensure-HasPlace :
      (ps : List (List ℕ)) (d : DynamicBytes)
      → Holds limit ps d
      → length ps + 8 < 2 ^ 32
      → HasPlace ps (if d.num_chunks == d.allocated_chunks then allocate_chunks m d else (d, ok tt))
  ensure-HasPlace ps d h b = elim (Bool-cases (d.num_chunks == d.allocated_chunks)) [
    | inl t ↦
        let e : d.num_chunks ≡ d.allocated_chunks = ground arith in
        rw t (allocate_chunks-HasPlace ps d h e b)
    | inr f ↦ rw f (h, ground (arith, h.within), refl)
  ]

  abbrev HoldsNext : List (List ℕ) → DynamicBytes × Result (Unit {0}) → Type 0
  HoldsNext ps (d, r) = Holds limit ps d × (r ≡ ok tt)

  -- A chunk that can be given, in the place of an old one.
  record IsGiven (old : Chunk) (x : Chunk × Result (Unit {0})) : Type 0 where
    sound : IsSound x.0
    room : chunk_size ≤ x.0.allocated_length
    grown : x.0.allocated_length ≤ old.allocated_length + chunk_size
    succeeds : x.1 ≡ ok tt

  new_chunk-IsGiven :
      (o : Option (List ℕ)) (c : Chunk) → c.memory ≡ o → IsSound c → IsGiven c (new_chunk m o c)
  new_chunk-IsGiven none c e h = rw (supplies.of_bytes chunk_size) (record {
    sound = (supplies.sized chunk_size, inr (omega arith));
    room = omega arith;
    grown = omega arith;
    succeeds = refl;
  })
  new_chunk-IsGiven (some b) c e (s, inl n) = cc
  new_chunk-IsGiven (some b) c e (s, inr l) = record {
    sound = (s, inr l);
    room = l;
    grown = omega arith;
    succeeds = refl;
  }

  written-Holds :
      (ps : List (List ℕ)) (p : List ℕ) (d : DynamicBytes) (c : Chunk)
      → Holds limit ps d
      → IsGiven (get_or d.chunks d.num_chunks empty_chunk) (c, ok tt)
      → length p ≤ chunk_size
      → d.num_chunks < d.allocated_chunks
      → length ps + 8 < 2 ^ 32
      → HoldsNext (ps ++ (p ∷ [])) (if_given p (given_chunk d (c, ok tt)))
  written-Holds ps p d c h g f l b =
      let n : (d.num_chunks + 1) % 2 ^ 32 ≡ suc (length ps) = omega (arith, h.counted) in
      let i = (d.num_chunks + 1) % 2 ^ 32 - 1 in
      let at : d.num_chunks ≡ i = omega (arith, h.counted) in
      let c' = record c { chunk_length = c.allocated_length } in
      let cs = set d.chunks d.num_chunks c' in
      let size : length cs ≡ length d.chunks = length-set d.chunks _ _ in
      let sound : AllSound cs = AllSound-set d.chunks d.num_chunks c' h.sound g.sound in
      let there : get_or cs i empty_chunk ≡ c' =
        subst (λ j. get_or cs j empty_chunk ≡ c') at
          (get_or-set_self d.chunks d.num_chunks c' _ (omega (arith, h.placed))) in
      let room : (get_or cs i empty_chunk).allocated_length ≡ c.allocated_length =
        ap (λ (k : Chunk). k.allocated_length) there in
      let k = written_chunk p (get_or cs i empty_chunk) in
      (
        record {
          counted = omega (arith, length-append ps (p ∷ []));
          placed = length-set cs i k ∙ size ∙ h.placed;
          within = omega arith;
          received =
              snoc_at cs ps k p i (omega arith)
                (Received-set_beyond d.chunks ps d.num_chunks _ h.received
                  (omega (arith, h.counted)))
                (omega (arith, h.placed, h.counted)) (take-append_left p _);
          sound = AllSound-set cs i k sound (
              written_chunk-IsSound p (get_or cs i empty_chunk) (AllSound-get cs i sound)
                (omega (arith, g.room)) (omega (arith, g.room)));
          bounded = omega (
            arith,
            length-append ps (p ∷ []),
            total-set d.chunks d.num_chunks c' (omega (arith, h.placed)),
            total-set cs i k (omega (arith, h.placed, size, h.counted)),
            g.grown,
            h.bounded,
          );
        },
        refl,
      )

  given_chunk-Holds :
      (ps : List (List ℕ)) (p : List ℕ) (d : DynamicBytes) (x : Chunk × Result (Unit {0}))
      → IsGiven (get_or d.chunks d.num_chunks empty_chunk) x
      → Holds limit ps d
      → length p ≤ chunk_size
      → d.num_chunks < d.allocated_chunks
      → length ps + 8 < 2 ^ 32
      → HoldsNext (ps ++ (p ∷ [])) (if_given p (given_chunk d x))
  given_chunk-Holds ps p d (c, err e) g h f l b = let failed = g.succeeds in cc
  given_chunk-Holds ps p d (c, ok tt) g h f l b = written-Holds ps p d c h g f l b

  next_chunk-Holds :
      (ps : List (List ℕ)) (p : List ℕ) (x : DynamicBytes × Result (Unit {0}))
      → HasPlace ps x
      → length p ≤ chunk_size
      → length ps + 8 < 2 ^ 32
      → HoldsNext (ps ++ (p ∷ [])) (if_given p (next_chunk m x))
  next_chunk-Holds ps p (d, err e) (h, l, r) f b = cc
  next_chunk-Holds ps p (d, ok tt) (h, l, r) f b =
      let c = get_or d.chunks d.num_chunks empty_chunk in
      given_chunk-Holds ps p d (new_chunk m c.memory c)
        (new_chunk-IsGiven c.memory c refl (AllSound-get d.chunks d.num_chunks h.sound)) h f l b

  receive-Holds :
      (ps : List (List ℕ)) (p : List ℕ) (d : DynamicBytes)
      → Holds limit ps d
      → length p ≤ chunk_size
      → length ps + 8 < 2 ^ 32
      → HoldsNext (ps ++ (p ∷ [])) (receive m p d)
  unfolding define_callback
  receive-Holds ps p d h f b = next_chunk-Holds ps p _ (ensure-HasPlace ps d h b) f b

  receive_all-Holds :
      (ps qs : List (List ℕ)) (x : DynamicBytes × Result (Unit {0}))
      → HoldsNext ps x
      → AllFit qs
      → length ps + length qs + 8 < 2 ^ 32
      → HoldsNext (ps ++ qs) (receive_all m qs x)
  receive_all-Holds ps [] (d, r) (h, e) f b =
      (subst (λ (qs : List (List ℕ)). Holds limit qs d) (sym (append-nil ps)) h, e)
  receive_all-Holds ps (q ∷ qs) (d, err e) (h, g) f b = cc
  receive_all-Holds ps (q ∷ qs) (d, ok tt) (h, g) f b =
      subst (λ (rs : List (List ℕ)). HoldsNext rs (receive_all m qs (receive m q d)))
        (append_assoc ps (q ∷ []) qs)
        (receive_all-Holds (ps ++ (q ∷ [])) qs (receive m q d)
          (receive-Holds ps q d h f.0 (omega arith)) f.1 (omega (arith, length-append ps (q ∷ []))))

  consolidated-Whole :
      (ps : List (List ℕ)) (d : DynamicBytes) (n : ℕ)
      → Holds limit ps d
      → 0 < length d.chunks
      → length (concat ps) ≤ n
      → Whole (concat ps) (consolidated d n (m.for_bytes n))
  consolidated-Whole ps d n h l b =
      let same : all_bytes (take d.num_chunks d.chunks) ≡ concat ps =
        ap (λ k. all_bytes (take k d.chunks)) h.counted
        ∙ all_bytes-Received d.chunks ps h.received in
      let bytes = all_bytes (take d.num_chunks d.chunks) in
      let enough : ltb (length (block n)) (length bytes) ≡ false =
        ground (arith, supplies.sized n, ap length same) in
      let places = replicate d.num_chunks empty_chunk ++ drop d.num_chunks d.chunks in
      let some_place : 0 < length places = omega (
        arith,
        length-append (replicate d.num_chunks empty_chunk) (drop d.num_chunks d.chunks),
        length-replicate d.num_chunks empty_chunk,
        length-drop d.num_chunks d.chunks,
      ) in
      rw (supplies.of_bytes n, enough)
        (
          ap (λ v. ok (given_bytes v)) same,
          refl,
          Received-snoc places [] _ _ tt some_place (take-append_left bytes _ ∙ same),
        )

  set_bytes-Whole :
      (ps : List (List ℕ)) (d : DynamicBytes)
      → Holds limit ps d
      → 0 < length ps
      → limit + chunk_size * length ps < 2 ^ 32
      → Whole (concat ps) (set_bytes_from_dynamic_bytes m d)
  unfolding set_bytes_from_dynamic_bytes
  set_bytes-Whole [] d h l b = absurd (omega arith)
  set_bytes-Whole (p ∷ []) d h l b =
      let one : (d.num_chunks == 1) ≡ true = ground (arith, h.counted) in
      rw one (
        ap (λ v. ok (given_bytes v)) (first_piece p d.chunks h.received ∙ sym (append-nil p)),
        h.counted,
        subst (λ (bytes : List ℕ). Received d.chunks (bytes ∷ [])) (sym (append-nil p)) h.received,
      )
  set_bytes-Whole (p ∷ q ∷ ps) d h l b =
      let several : (d.num_chunks == 1) ≡ false = ground (arith, h.counted) in
      let used = take d.num_chunks d.chunks in
      let small : total used < 2 ^ 32 =
        omega (arith, total-take d.num_chunks d.chunks, h.bounded) in
      let pieces : length (concat (p ∷ q ∷ ps)) ≤ total used =
        subst (λ k. length (concat (p ∷ q ∷ ps)) ≤ total (take k d.chunks)) (sym h.counted)
          (length-concat_le d.chunks (p ∷ q ∷ ps) h.sound h.received) in
      rw several (
        consolidated-Whole (p ∷ q ∷ ps) d (total_allocated used) h
          (omega (arith, h.counted, h.within, h.placed))
          (omega (arith, pieces, total_allocated-total used small)))

  whole-Whole :
      (ps : List (List ℕ)) (x : DynamicBytes × Result (Unit {0}))
      → HoldsNext ps x
      → 0 < length ps
      → limit + chunk_size * length ps < 2 ^ 32
      → Whole (concat ps) (whole m x)
  whole-Whole ps (d, err e) (h, r) l b = cc
  whole-Whole ps (d, ok tt) (h, r) l b = set_bytes-Whole ps d h l b

  -- With memory for every chunk, a client writes any number of pieces from one on, each of at most
  -- 65536 bytes, into the chunks that the callback gives. None of the chunks is used before, and
  -- those that have memory say how long it is. The memory of all of them and a chunk for each piece
  -- stay below 2^32 bytes. Then dpiVar__setBytesFromDynamicBytes succeeds with the pieces one after
  -- the other as the value, and copies no byte past a block.
  pub whole-receive_all :
      (d : DynamicBytes) (p : List ℕ) (ps : List (List ℕ))
      → Holds limit [] d
      → AllFit (p ∷ ps)
      → limit + chunk_size * length (p ∷ ps) < 2 ^ 32
      → Whole (concat (p ∷ ps)) (whole m (receive_all m (p ∷ ps) (d, ok tt)))
  whole-receive_all d p ps h f b =
      whole-Whole (p ∷ ps) (receive_all m (p ∷ ps) (d, ok tt))
        (receive_all-Holds [] (p ∷ ps) (d, ok tt) (h, refl) f (omega arith)) (omega arith) b
