-- ===== src/Options/Attributes.antt =====
-- The attributes of the descriptors of Advanced Queuing: DPI_OCI_ATTR_* of src/dpiImpl.h.
use alpha_odpi.Prelude.{ℕ}

abbrev pub visibility_attr : ℕ
visibility_attr = 47

abbrev pub consumer_name_attr : ℕ
consumer_name_attr = 50

abbrev pub deq_mode_attr : ℕ
deq_mode_attr = 51

abbrev pub navigation_attr : ℕ
navigation_attr = 52

abbrev pub wait_attr : ℕ
wait_attr = 53

abbrev pub priority_attr : ℕ
priority_attr = 55

abbrev pub delay_attr : ℕ
delay_attr = 56

abbrev pub expiration_attr : ℕ
expiration_attr = 57

abbrev pub correlation_attr : ℕ
correlation_attr = 58

abbrev pub attempts_attr : ℕ
attempts_attr = 59

abbrev pub exception_queue_attr : ℕ
exception_queue_attr = 61

abbrev pub msg_state_attr : ℕ
msg_state_attr = 63

abbrev pub deqcond_attr : ℕ
deqcond_attr = 146

abbrev pub transformation_attr : ℕ
transformation_attr = 196

abbrev pub msg_delivery_mode_attr : ℕ
msg_delivery_mode_attr = 407
