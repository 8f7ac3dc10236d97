-- ===== src/Options/Msg.antt =====
-- The properties of a message, those of src/dpiMsgProps.c that are attributes of its descriptor.
use alpha_odpi.Prelude.{ℕ, Bool, true, List, Option, some}
use alpha_odpi.Error.{Result}
use alpha_odpi.Handle.Types.{msg_props_handle}
use alpha_odpi.Options.{
  AttrClient, AttrValue, number, Options, get_attr_value, set_attr_value, as_text, text_length,
}
use alpha_odpi.Options.Attributes.{
  attempts_attr, correlation_attr, delay_attr, exception_queue_attr, expiration_attr,
  msg_delivery_mode_attr, msg_state_attr, priority_attr,
}

module _ {S : Type 0} (client : AttrClient S) (init : Result (Unit {0})) where
  unfoldable pub get_correlation : Bool → Bool → Options S → Result AttrValue
  unfolding get_attr_value
  get_correlation value value_length o =
      get_attr_value client init msg_props_handle correlation_attr value value_length o

  unfoldable pub get_delay : Bool → Options S → Result AttrValue
  unfolding get_attr_value
  get_delay value o = get_attr_value client init msg_props_handle delay_attr value true o

  unfoldable pub get_delivery_mode : Bool → Options S → Result AttrValue
  unfolding get_attr_value
  get_delivery_mode value o =
      get_attr_value client init msg_props_handle msg_delivery_mode_attr value true o

  unfoldable pub get_exception_q : Bool → Bool → Options S → Result AttrValue
  unfolding get_attr_value
  get_exception_q value value_length o =
      get_attr_value client init msg_props_handle exception_queue_attr value value_length o

  unfoldable pub get_expiration : Bool → Options S → Result AttrValue
  unfolding get_attr_value
  get_expiration value o = get_attr_value client init msg_props_handle expiration_attr value true o

  unfoldable pub get_num_attempts : Bool → Options S → Result AttrValue
  unfolding get_attr_value
  get_num_attempts value o = get_attr_value client init msg_props_handle attempts_attr value true o

  unfoldable pub get_priority : Bool → Options S → Result AttrValue
  unfolding get_attr_value
  get_priority value o = get_attr_value client init msg_props_handle priority_attr value true o

  unfoldable pub get_state : Bool → Options S → Result AttrValue
  unfolding get_attr_value
  get_state value o = get_attr_value client init msg_props_handle msg_state_attr value true o

  unfoldable pub set_correlation : Option (List ℕ) → Options S → Options S × Result (Unit {0})
  unfolding set_attr_value
  set_correlation value o =
      set_attr_value client init msg_props_handle correlation_attr (as_text value)
        (text_length value) 0 o

  unfoldable pub set_delay : ℕ → Options S → Options S × Result (Unit {0})
  unfolding set_attr_value
  set_delay value o =
      set_attr_value client init msg_props_handle delay_attr (some (number value)) 0 0 o

  unfoldable pub set_exception_q : Option (List ℕ) → Options S → Options S × Result (Unit {0})
  unfolding set_attr_value
  set_exception_q value o =
      set_attr_value client init msg_props_handle exception_queue_attr (as_text value)
        (text_length value) 128 o

  unfoldable pub set_expiration : ℕ → Options S → Options S × Result (Unit {0})
  unfolding set_attr_value
  set_expiration value o =
      set_attr_value client init msg_props_handle expiration_attr (some (number value)) 0 0 o

  unfoldable pub set_priority : ℕ → Options S → Options S × Result (Unit {0})
  unfolding set_attr_value
  set_priority value o =
      set_attr_value client init msg_props_handle priority_attr (some (number value)) 0 0 o
