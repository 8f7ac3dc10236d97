-- ===== src/Options/RoundTrip.antt =====
-- The dequeue options as settings that are kept: src/dpiDeqOptions.c.
use alpha_odpi.Prelude.{
  ℕ, ◌≡◌, refl, ◌∙◌, ap, Bool, true, ◌&&◌, List, [], ◌∷◌, Option, none, some, length, ltb, ◌==◌,
  if◌then◌else◌, Bool-cases, inl, inr,
}
use alpha_odpi.Error.{Result, ok}
use alpha_odpi.Handle.Types.{deq_options_handle}
use alpha_odpi.Handle.Public.{start_public_fn}
use alpha_odpi.Options.{
  AttrClient, AttrValue, number, text, Options, get_attr_value, set_attr_value, assign, as_text,
  text_length,
}
use alpha_odpi.Options.Attributes.{
  consumer_name_attr, correlation_attr, deq_mode_attr, deqcond_attr, msg_delivery_mode_attr,
  navigation_attr, transformation_attr, visibility_attr, wait_attr,
}
use alpha_odpi.Options.Deq.{
  get_condition, get_consumer_name, get_correlation, get_mode, get_navigation, get_transformation,
  get_visibility, get_wait, set_condition, set_consumer_name, set_correlation, set_delivery_mode,
  set_mode, set_navigation, set_transformation, set_visibility, set_wait,
}

-- What OCIAttrSet and OCIAttrGet promise of a descriptor: a value that is not refused is kept until
-- the next one of the attribute, and the other attributes stay.
pub record Keeps {S : Type 0} (client : AttrClient S) (accepts : ℕ → AttrValue → Bool)
    : Type 0 where
  pub get-set :
      (s : S) (a b : ℕ) (v : AttrValue)
      → client.attr_get (client.attr_set s a v).0 b
        ≡ (if accepts a v && a == b then ok v else client.attr_get s b)

-- A call of a setter of the dequeue options.
pub data Setting : Type 0 where
  sets_condition sets_consumer_name sets_correlation sets_transformation : Option (List ℕ) → Setting
  sets_delivery_mode sets_mode sets_navigation sets_visibility sets_wait : ℕ → Setting

abbrev pub within : ℕ → ℕ → Option (List ℕ) → Option (ℕ × AttrValue)
within limit attribute none = none
within limit attribute (some bytes) =
    if ltb limit (length bytes) then none else some (attribute, text bytes)

-- The attribute and the value that a setting means, if it is valid: a name has 128 bytes at most.
abbrev pub meant : Setting → Option (ℕ × AttrValue)
meant (sets_condition none) = none
meant (sets_condition (some bytes)) = some (deqcond_attr, text bytes)
meant (sets_consumer_name v) = within 128 consumer_name_attr v
meant (sets_correlation v) = within 128 correlation_attr v
meant (sets_transformation v) = within 128 transformation_attr v
meant (sets_delivery_mode n) = some (msg_delivery_mode_attr, number n)
meant (sets_mode n) = some (deq_mode_attr, number n)
meant (sets_navigation n) = some (navigation_attr, number n)
meant (sets_visibility n) = some (visibility_attr, number n)
meant (sets_wait n) = some (wait_attr, number n)

module _ (accepts : ℕ → AttrValue → Bool) where
  abbrev pub kept : Option (ℕ × AttrValue) → ℕ → Result AttrValue → Result AttrValue
  kept none b r = r
  kept (some (a, v)) b r = if accepts a v && a == b then ok v else r

  -- The last valid value that the settings gave an attribute, or else the value it had.
  abbrev pub latest : List Setting → ℕ → Result AttrValue → Result AttrValue
  latest [] b r = r
  latest (c ∷ cs) b r = latest cs b (kept (meant c) b r)

module _ {S : Type 0} (client : AttrClient S) where
  abbrev call : Setting → Options S → Options S
  call (sets_condition v) o = (set_condition client (ok tt) v o).0
  call (sets_consumer_name v) o = (set_consumer_name client (ok tt) v o).0
  call (sets_correlation v) o = (set_correlation client (ok tt) v o).0
  call (sets_transformation v) o = (set_transformation client (ok tt) v o).0
  call (sets_delivery_mode n) o = (set_delivery_mode client (ok tt) n o).0
  call (sets_mode n) o = (set_mode client (ok tt) n o).0
  call (sets_navigation n) o = (set_navigation client (ok tt) n o).0
  call (sets_visibility n) o = (set_visibility client (ok tt) n o).0
  call (sets_wait n) o = (set_wait client (ok tt) n o).0

  abbrev pub calls : List Setting → Options S → Options S
  calls [] o = o
  calls (c ∷ cs) o = calls cs (call c o)

  abbrev value_of : Options S → ℕ → Result AttrValue
  value_of o b = client.attr_get o.descriptor b

  -- What the getters answer.
  abbrev pub Reads : Options S → (ℕ → Result AttrValue) → Type 0
  Reads o value =
      (get_condition client (ok tt) true true o ≡ value deqcond_attr)
      × (get_consumer_name client (ok tt) true true o ≡ value consumer_name_attr)
      × (get_correlation client (ok tt) true true o ≡ value correlation_attr)
      × (get_mode client (ok tt) true o ≡ value deq_mode_attr)
      × (get_navigation client (ok tt) true o ≡ value navigation_attr)
      × (get_transformation client (ok tt) true true o ≡ value transformation_attr)
      × (get_visibility client (ok tt) true o ≡ value visibility_attr)
      × (get_wait client (ok tt) true o ≡ value wait_attr)

  module _ (accepts : ℕ → AttrValue → Bool) (keeps : Keeps client accepts) where
    -- The options after a setting: still the same handle, with the value that is meant.
    abbrev Set : Option (ℕ × AttrValue) → Options S → Options S → Type 0
    Set c o o' = (o'.base ≡ o.base) × ((b : ℕ) → value_of o' b ≡ kept accepts c b (value_of o b))

    abbrev to_descriptor : ℕ → Option AttrValue → Result (Unit {0}) → Options S → Options S
    to_descriptor a v r o = (assign client (ok tt) deq_options_handle a v r o).0

    assigned-Set :
        (a : ℕ) (v : AttrValue) (o : Options S)
        → Set (some (a, v)) o (to_descriptor a (some v) (ok tt) o)
    assigned-Set a v o = (refl, λ b. keeps.get-set o.descriptor a b v)

    module _ (o : Options S)
        (live : start_public_fn (ok tt) o.base deq_options_handle ≡ ok tt) where
      number-Set :
          (a n : ℕ)
          → Set
              (some (a, number n))
              o
              (set_attr_value client (ok tt) deq_options_handle a (some (number n)) 0 0 o).0
      unfolding set_attr_value
      number-Set a n = rw live (assigned-Set a (number n) o)

      text-Set :
          (a limit : ℕ) (value : Option (List ℕ))
          → ltb 0 limit ≡ true
          → Set
              (within limit a value)
              o
              (set_attr_value client
                (ok tt)
                deq_options_handle
                a
                (as_text value)
                (text_length value)
                limit
                o).0
      unfolding set_attr_value
      text-Set a limit none p = rw live (refl, λ b. refl)
      text-Set a limit (some bytes) p = elim (Bool-cases (ltb limit (length bytes))) [
        | inl q ↦ rw (live, p, q) (refl, λ b. refl)
        | inr q ↦ rw (live, p, q) (assigned-Set a (text bytes) o)
      ]

      condition-Set :
          (value : Option (List ℕ))
          → Set
              (meant (sets_condition value))
              o
              (set_attr_value client
                (ok tt)
                deq_options_handle
                deqcond_attr
                (as_text value)
                (text_length value)
                0
                o).0
      unfolding set_attr_value
      condition-Set none = rw live (refl, λ b. refl)
      condition-Set (some bytes) = rw live (assigned-Set deqcond_attr (text bytes) o)

      call-Set : (c : Setting) → Set (meant c) o (call c o)
      unfolding set_condition set_consumer_name set_correlation set_transformation set_delivery_mode
          set_mode set_navigation set_visibility set_wait set_attr_value
      call-Set (sets_condition v) = condition-Set v
      call-Set (sets_consumer_name v) = text-Set consumer_name_attr 128 v refl
      call-Set (sets_correlation v) = text-Set correlation_attr 128 v refl
      call-Set (sets_transformation v) = text-Set transformation_attr 128 v refl
      call-Set (sets_delivery_mode n) = number-Set msg_delivery_mode_attr n
      call-Set (sets_mode n) = number-Set deq_mode_attr n
      call-Set (sets_navigation n) = number-Set navigation_attr n
      call-Set (sets_visibility n) = number-Set visibility_attr n
      call-Set (sets_wait n) = number-Set wait_attr n

    calls-latest :
        (cs : List Setting) (o : Options S)
        → start_public_fn (ok tt) o.base deq_options_handle ≡ ok tt
        → (start_public_fn (ok tt) (calls cs o).base deq_options_handle ≡ ok tt)
          × ((b : ℕ) → value_of (calls cs o) b ≡ latest accepts cs b (value_of o b))
    calls-latest [] o live = (live, λ b. refl)
    calls-latest (c ∷ cs) o live =
        let (same, read) = call-Set o live c in
        let (live', reads) = calls-latest cs (call c o) (rw same live) in
        (live', λ b. reads b ∙ ap (latest accepts cs b) (read b))

    -- With a client that keeps what it accepts, after any sequence of calls of the nine setters on
    -- open dequeue options, each of the eight getters answers with the last valid value that was
    -- set for its attribute and that the client accepted, or else with the value from before: a
    -- NULL text and a name of more than 128 bytes change nothing.
    pub calls-get :
        (cs : List Setting) (o : Options S)
        → start_public_fn (ok tt) o.base deq_options_handle ≡ ok tt
        → Reads (calls cs o) (λ a. latest accepts cs a (client.attr_get o.descriptor a))
    unfolding get_condition get_consumer_name get_correlation get_mode get_navigation
        get_transformation get_visibility get_wait get_attr_value
    calls-get cs o live =
        let (live', reads) = calls-latest cs o live in
        let read : (a : ℕ)
            → get_attr_value client (ok tt) deq_options_handle a true true (calls cs o)
              ≡ latest accepts cs a (value_of o a) =
          λ a. rw live' (reads a) in
        (read _, read _, read _, read _, read _, read _, read _, read _)
