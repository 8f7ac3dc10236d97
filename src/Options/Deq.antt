-- ===== src/Options/Deq.antt =====
-- The dequeue options of src/dpiDeqOptions.c, but for the message id.
use alpha_odpi.Prelude.{ℕ, Bool, true, List, Option, some}
use alpha_odpi.Error.{Result}
use alpha_odpi.Handle.Types.{deq_options_handle}
use alpha_odpi.Options.{
  AttrClient, AttrValue, number, Options, get_attr_value, set_attr_value, as_text, text_length,
}
use alpha_odpi.Options.Attributes.{
  consumer_name_attr, correlation_attr, deq_mode_attr, deqcond_attr, msg_delivery_mode_attr,
  navigation_attr, transformation_attr, visibility_attr, wait_attr,
}

module _ {S : Type 0} (client : AttrClient S) (init : Result (Unit {0})) where
  unfoldable pub get_condition : Bool → Bool → Options S → Result AttrValue
  unfolding get_attr_value
  get_condition value value_length o =
      get_attr_value client init deq_options_handle deqcond_attr value value_length o

  unfoldable pub get_consumer_name : Bool → Bool → Options S → Result AttrValue
  unfolding get_attr_value
  get_consumer_name value value_length o =
      get_attr_value client init deq_options_handle consumer_name_attr value value_length o

  unfoldable pub get_correlation : Bool → Bool → Options S → Result AttrValue
  unfolding get_attr_value
  get_correlation value value_length o =
      get_attr_value client init deq_options_handle correlation_attr value value_length o

  unfoldable pub get_mode : Bool → Options S → Result AttrValue
  unfolding get_attr_value
  get_mode value o = get_attr_value client init deq_options_handle deq_mode_attr value true o

  unfoldable pub get_navigation : Bool → Options S → Result AttrValue
  unfolding get_attr_value
  get_navigation value o =
      get_attr_value client init deq_options_handle navigation_attr value true o

  unfoldable pub get_transformation : Bool → Bool → Options S → Result AttrValue
  unfolding get_attr_value
  get_transformation value value_length o =
      get_attr_value client init deq_options_handle transformation_attr value value_length o

  unfoldable pub get_visibility : Bool → Options S → Result AttrValue
  unfolding get_attr_value
  get_visibility value o =
      get_attr_value client init deq_options_handle visibility_attr value true o

  unfoldable pub get_wait : Bool → Options S → Result AttrValue
  unfolding get_attr_value
  get_wait value o = get_attr_value client init deq_options_handle wait_attr value true o

  unfoldable pub set_condition : Option (List ℕ) → Options S → Options S × Result (Unit {0})
  unfolding set_attr_value
  set_condition value o =
      set_attr_value client init deq_options_handle deqcond_attr (as_text value) (text_length value)
        0 o

  unfoldable pub set_consumer_name : Option (List ℕ) → Options S → Options S × Result (Unit {0})
  unfolding set_attr_value
  set_consumer_name value o =
      set_attr_value client init deq_options_handle consumer_name_attr (as_text value)
        (text_length value) 128 o

  unfoldable pub set_correlation : Option (List ℕ) → Options S → Options S × Result (Unit {0})
  unfolding set_attr_value
  set_correlation value o =
      set_attr_value client init deq_options_handle correlation_attr (as_text value)
        (text_length value) 128 o

  unfoldable pub set_delivery_mode : ℕ → Options S → Options S × Result (Unit {0})
  unfolding set_attr_value
  set_delivery_mode value o =
      set_attr_value client init deq_options_handle msg_delivery_mode_attr (some (number value)) 0 0
        o

  unfoldable pub set_mode : ℕ → Options S → Options S × Result (Unit {0})
  unfolding set_attr_value
  set_mode value o =
      set_attr_value client init deq_options_handle deq_mode_attr (some (number value)) 0 0 o

  unfoldable pub set_navigation : ℕ → Options S → Options S × Result (Unit {0})
  unfolding set_attr_value
  set_navigation value o =
      set_attr_value client init deq_options_handle navigation_attr (some (number value)) 0 0 o

  unfoldable pub set_transformation : Option (List ℕ) → Options S → Options S × Result (Unit {0})
  unfolding set_attr_value
  set_transformation value o =
      set_attr_value client init deq_options_handle transformation_attr (as_text value)
        (text_length value) 128 o

  unfoldable pub set_visibility : ℕ → Options S → Options S × Result (Unit {0})
  unfolding set_attr_value
  set_visibility value o =
      set_attr_value client init deq_options_handle visibility_attr (some (number value)) 0 0 o

  unfoldable pub set_wait : ℕ → Options S → Options S × Result (Unit {0})
  unfolding set_attr_value
  set_wait value o =
      set_attr_value client init deq_options_handle wait_attr (some (number value)) 0 0 o
