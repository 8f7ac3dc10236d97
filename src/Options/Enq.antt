-- ===== src/Options/Enq.antt =====
-- The enqueue options of src/dpiEnqOptions.c.
use alpha_odpi.Prelude.{ℕ, Bool, true, List, Option, some}
use alpha_odpi.Error.{Result}
use alpha_odpi.Handle.Types.{enq_options_handle}
use alpha_odpi.Options.{
  AttrClient, AttrValue, number, Options, get_attr_value, set_attr_value, as_text, text_length,
}
use alpha_odpi.Options.Attributes.{msg_delivery_mode_attr, transformation_attr, visibility_attr}

module _ {S : Type 0} (client : AttrClient S) (init : Result (Unit {0})) where
  unfoldable pub get_transformation : Bool → Bool → Options S → Result AttrValue
  unfolding get_attr_value
  get_transformation value value_length o =
      get_attr_value client init enq_options_handle transformation_attr value value_length o

  unfoldable pub get_visibility : Bool → Options S → Result AttrValue
  unfolding get_attr_value
  get_visibility value o =
      get_attr_value client init enq_options_handle visibility_attr value true o

  unfoldable pub set_delivery_mode : ℕ → Options S → Options S × Result (Unit {0})
  unfolding set_attr_value
  set_delivery_mode value o =
      set_attr_value client init enq_options_handle msg_delivery_mode_attr (some (number value)) 0 0
        o

  unfoldable pub set_transformation : Option (List ℕ) → Options S → Options S × Result (Unit {0})
  unfolding set_attr_value
  set_transformation value o =
      set_attr_value client init enq_options_handle transformation_attr (as_text value)
        (text_length value) 0 o

  unfoldable pub set_visibility : ℕ → Options S → Options S × Result (Unit {0})
  unfolding set_attr_value
  set_visibility value o =
      set_attr_value client init enq_options_handle visibility_attr (some (number value)) 0 0 o
