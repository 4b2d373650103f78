-- ===== src/Message.antt =====
-- common/message.go: the message that all device-facing protocols share.
use iothub.Base.{[], Option, none, Str, Dict}
use iothub.Base.Int.{ℤ}

-- time.Time: the zero time, or nanoseconds since 1970.
pub data Time : Type 0 where
  zero_time : Time
  at : ℤ → Time

-- What stands in `TransportOptions`: an int, or a value of another type.
pub data TransportOption : Type 0 where
  int : ℤ → TransportOption
  other : TransportOption

-- A nil map and an empty one behave alike here, so both are the empty list.
pub record Message : Type 0 where
  pub message_id : Str
  pub to : Str
  pub expiry_time : Option Time
  pub enqueued_time : Option Time
  pub correlation_id : Str
  pub user_id : Str
  pub connection_device_id : Str
  pub connection_device_generation_id : Str
  pub connection_auth_method : Str
  pub message_source : Str
  pub payload : Str
  pub properties : Dict Str
  pub transport_options : Dict TransportOption

abbrev pub empty_message : Message
empty_message = record {
  message_id = [];
  to = [];
  expiry_time = none;
  enqueued_time = none;
  correlation_id = [];
  user_id = [];
  connection_device_id = [];
  connection_device_generation_id = [];
  connection_auth_method = [];
  message_source = [];
  payload = [];
  properties = [];
  transport_options = [];
}
