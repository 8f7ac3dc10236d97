-- ===== src/Vector/Cache.antt =====
-- The values that a vector keeps, over any sequence of calls: src/dpiVector.c.
use alpha_odpi.Prelude.{
  ℕ, ◌≡◌, refl, sym, ap, ◌∙◌, subst, Bool, true, false, List, [], ◌∷◌, Option, some, none,
  if◌then◌else◌,
}
use alpha_odpi.Error.{◌>>◌, Result, ok, err}
use alpha_odpi.Handle.Types.{vector_handle}
use alpha_odpi.Handle.Public.{start_public_fn}
use alpha_odpi.Vector.{
  Vector, VectorInfo, VectorClient, Memory, Step, ◌after◌, ◌then◌, load, get_vector_value, info_of,
  buffer, read_format, read_dimension, set_size, read_property, prepare_sparse, load_values,
  load_sparse, load_property, load_size, load_dimension, allocate_dimensions, populate,
  vector_to_array, vector_to_sparse_array, to_sparse, with_info, load_missing,
}
use alpha_odpi.Vector.Calls.{
  get_value, set_value, set_vector, vector_from_sparse_array, vector_from_array, from_sparse,
  if_checked, check_vector, is_given,
}

-- A call on a vector: a reading, or a new value.
pub data Access : Type 0 where
  gets : Access
  sets : Option VectorInfo → Access

module _ {V : Type 0} where
  -- What holds behind a part holds behind it and what went before.
  pub then-ok :
      (f g : Step V) (P : Vector V → Type 0)
      → ((w : Vector V) → (g w).1 ≡ ok tt → P (g w).0)
      → (v : Vector V) → ((f then g) v).1 ≡ ok tt
      → P ((f then g) v).0
  then-ok f g P h v e = behind (f v) e
    where
      behind : (r : Vector V × Result (Unit {0})) → (g after r).1 ≡ ok tt → P (g after r).0
      behind (w, ok tt) e = h w e
      behind (w, err x) e = cc

module _ {V : Type 0} (client : VectorClient V) (memory : Memory) where
  abbrev HasValues : Vector V → Type 0
  HasValues v = v.dimensions ≡ some (buffer v.dimensions)

  to_sparse-HasValues :
      (v : Vector V) (r : Result (Unit {0}))
      → (to_sparse client memory after (v, r)).1 ≡ ok tt
      → HasValues (to_sparse client memory after (v, r)).0
  to_sparse-HasValues v (ok tt) e = refl
  to_sparse-HasValues v (err x) e = cc

  populate-HasValues :
      (v : Vector V) → (populate client memory v).1 ≡ ok tt → HasValues (populate client memory v).0
  populate-HasValues v = choose v.is_sparse
    where
      chosen : Bool → Vector V × Result (Unit {0})
      chosen t =
          if t then vector_to_sparse_array client memory v else vector_to_array client memory v

      choose : (t : Bool) → (chosen t).1 ≡ ok tt → HasValues (chosen t).0
      choose true e = to_sparse-HasValues v _ e
      choose false e = refl

  load-HasValues :
      (v : Vector V) → (load client memory v).1 ≡ ok tt → HasValues (load client memory v).0
  unfolding load
  load-HasValues = steps read_format load_dimension (
      steps read_dimension load_size (
        steps set_size load_property (
          steps read_property load_sparse (
            steps prepare_sparse load_values
              (steps allocate_dimensions populate populate-HasValues)))))
    where
      Part : Type 0
      Part = VectorClient V → Memory → Step V

      Reads : Part → Type 0
      Reads f = (w : Vector V) → (f client memory w).1 ≡ ok tt → HasValues (f client memory w).0

      steps :
          (f g : Part)
          → Reads g
          → (v : Vector V) → ((f client memory then g client memory) v).1 ≡ ok tt
          → HasValues ((f client memory then g client memory) v).0
      steps f g h = then-ok (f client memory) (g client memory) HasValues h

  -- The vector keeps `info`, of a handle that is open.
  record Kept (info : VectorInfo) (v : Vector V) : Type 0 where
    same : info_of v ≡ info
    here : HasValues v
    live : start_public_fn (ok tt) v.base vector_handle ≡ ok tt

  load_missing-HasValues :
      (kept : Option (List ℕ)) (v : Vector V)
      → v.dimensions ≡ kept
      → (load_missing client memory kept v).1 ≡ ok tt
      → HasValues (load_missing client memory kept v).0
  load_missing-HasValues none v e h = load-HasValues v h
  load_missing-HasValues (some block) v e h = rw e refl

  pub with_info-ok :
      (r : Vector V × Result (Unit {0})) (v : Vector V) (info : VectorInfo)
      → with_info client memory r ≡ (v, ok info)
      → (r ≡ (v, ok tt)) × (info_of v ≡ info)
  with_info-ok (w, ok tt) v info e =
      let inner : info_of w ≡ info = cc in
      (ap (λ r. (r.0, ok tt)) e, ap info_of (sym (ap (λ r. r.0) e)) ∙ inner)
  with_info-ok (w, err x) v info e = cc

  get_vector_value-Kept :
      (v v' : Vector V) (info : VectorInfo)
      → get_vector_value client memory v ≡ (v', ok info)
      → start_public_fn (ok tt) v'.base vector_handle ≡ ok tt
      → Kept info v'
  unfolding get_vector_value
  get_vector_value-Kept v v' info e live =
      let (r, same) = with_info-ok (load_missing client memory v.dimensions v) v' info e in
      record {
        same = same;
        here =
            subst (λ w. HasValues w) (ap (λ x. x.0) r)
              (load_missing-HasValues v.dimensions v refl (ap (λ x. x.1) r));
        live = live;
      }

  get_value-Kept :
      (v : Vector V) (info : VectorInfo)
      → Kept info v
      → get_value client memory (ok tt) true v ≡ (v, ok info)
  unfolding get_value get_vector_value
  get_value-Kept v info k =
      ap (λ r. if_checked client memory r (get_vector_value client memory) v)
        (ap (λ r. r >> ok tt) k.live)
      ∙ ap (λ d. with_info client memory (load_missing client memory d v)) k.here
      ∙ ap (λ i. (v, ok i)) k.same

  handle-Kept :
      (info : VectorInfo) (v : Vector V) (h : V) → Kept info v → Kept info (record v { handle = h })
  handle-Kept info v h k = record { same = k.same; here = k.here; live = k.live }

  from_sparse-Kept :
      (info new : VectorInfo) (v : Vector V) (r : Result (Unit {0}))
      → Kept info v
      → Kept info (from_sparse client memory new after (v, r)).0
  from_sparse-Kept info new v (ok tt) k = handle-Kept info v _ k
  from_sparse-Kept info new v (err x) k = k

  set_vector-Kept :
      (info : VectorInfo) (new : Option VectorInfo) (v : Vector V)
      → Kept info v
      → Kept info (set_vector client memory new v).0
  set_vector-Kept info none v k = k
  set_vector-Kept info (some new) v k = choose new.is_sparse
    where
      choose :
          (t : Bool)
          → Kept info
              (if t
                then vector_from_sparse_array client memory new v
                else vector_from_array client memory new v).0
      choose true = from_sparse-Kept info new v _ k
      choose false = handle-Kept info v _ k

  set_value-Kept :
      (info : VectorInfo) (new : Option VectorInfo) (v : Vector V)
      → Kept info v
      → Kept info (set_value client memory (ok tt) new v).0
  unfolding set_value
  set_value-Kept info new v k =
      choose (check_vector client memory (ok tt) (is_given client memory new) v)
    where
      choose :
          (r : Result (Unit {0}))
          → Kept info (if_checked client memory r (set_vector client memory new) v).0
      choose (ok tt) = set_vector-Kept info new v k
      choose (err x) = k

  -- What the readings among the calls answer.
  abbrev pub answers : List Access → Vector V → List (Result VectorInfo)
  answers [] v = []
  answers (gets ∷ cs) v = let (w, r) = get_value client memory (ok tt) true v in r ∷ answers cs w
  answers (sets new ∷ cs) v = answers cs (set_value client memory (ok tt) new v).0

  -- The same for every reading.
  abbrev pub same_for : List Access → VectorInfo → List (Result VectorInfo)
  same_for [] info = []
  same_for (gets ∷ cs) info = ok info ∷ same_for cs info
  same_for (sets new ∷ cs) info = same_for cs info

  Kept-answers :
      (cs : List Access) (v : Vector V) (info : VectorInfo)
      → Kept info v
      → answers cs v ≡ same_for cs info
  Kept-answers [] v info k = refl
  Kept-answers (gets ∷ cs) v info k =
      ap (λ (r : Vector V × Result VectorInfo). r.1 ∷ answers cs r.0) (get_value-Kept v info k)
      ∙ ap (λ rs. ok info ∷ rs) (Kept-answers cs v info k)
  Kept-answers (sets new ∷ cs) v info k = Kept-answers cs _ info (set_value-Kept info new v k)

  -- After the values of a vector were read, and while its handle is valid, every reading in any
  -- sequence of readings and settings of new values answers with the information of the first,
  -- whatever was set in between.
  pub get_vector_value-answers :
      (cs : List Access) (v v' : Vector V) (info : VectorInfo)
      → get_vector_value client memory v ≡ (v', ok info)
      → start_public_fn (ok tt) v'.base vector_handle ≡ ok tt
      → answers cs v' ≡ same_for cs info
  get_vector_value-answers cs v v' info e live =
      Kept-answers cs v' info (get_vector_value-Kept v v' info e live)
