-- ===== src/Amqp.antt =====
-- common/commonamqp/message.go: messages of the AMQP protocol and the shared ones, both ways. Of
-- amqp.Message only the fields that the code reads and writes are kept; a value in one of its maps
-- is a string, a time, an int32, a slice of strings, or something else; each has the text that
-- fmt.Sprint gives it.
pub mod Laws
mod Tests
use iothub.Base.{
  ℕ, Bool, true, false, List, [], ◌∷◌, Option, none, some, Str, codes, str_eq, insert, map, Dict,
  Outcome, ok, fail, panic, ◌>>=◌, if◌then◌else◌,
}
use iothub.Base.Int.{ℤ}
use iothub.Message.{Message, Time, zero_time, empty_message}

pub data Value : Type 0 where
  text : Str → Value
  time : Time → Str → Value
  int32 : ℤ → Str → Value
  strings : List Str → Str → Value
  opaque : Str → Value

-- The value section of a message, which may be of any type.
pub data Body : Type 0 where
  absent : Body
  text_body : Str → Body
  table : Dict Value → Body
  other_body : Body

pub record MessageProperties : Type 0 where
  pub to : Str
  pub reply_to : Str
  pub user_id : Str
  pub message_id : Option Value
  pub correlation_id : Option Value
  pub absolute_expiry_time : Time

-- A key of the annotations is a string, or a value of another type (`none`).
pub record AmqpMessage : Type 0 where
  pub data_parts : List Str
  pub value : Body
  pub properties : Option MessageProperties
  pub annotations : List (Option Str × Value)
  pub application_properties : Dict Value

-- `v.(string)`, which panics on another type.
unfoldable pub as_string : Value → Outcome Str
as_string (text s) = ok s
as_string (time t s) = panic
as_string (int32 n s) = panic
as_string (strings l s) = panic
as_string (opaque s) = panic

-- `v.(time.Time)` with its test dropped: the zero time for another type.
unfoldable pub as_time : Value → Time
as_time (time t s) = t
as_time (text s) = zero_time
as_time (int32 n s) = zero_time
as_time (strings l s) = zero_time
as_time (opaque s) = zero_time

-- fmt.Sprint(v)
unfoldable pub sprint : Value → Str
sprint (text s) = s
sprint (time t s) = s
sprint (int32 n s) = s
sprint (strings l s) = s
sprint (opaque s) = s

-- A nil id is left out, and another one must be a string.
unfoldable pub id_string : Option Value → Outcome Str
unfolding as_string
id_string none = ok []
id_string (some v) = as_string v

unfoldable pub read_properties : Option MessageProperties → Message → Outcome Message
unfolding id_string
read_properties none m = ok m
read_properties (some p) m = do
  mid ← id_string p.message_id
  cid ← id_string p.correlation_id
  ok (record m {
    user_id = p.user_id;
    message_id = mid;
    correlation_id = cid;
    to = p.to;
    expiry_time = some p.absolute_expiry_time;
  })

-- One annotation. A key that is not a string falls to the default case, whose `k.(string)` panics.
unfoldable pub read_annotation : Option Str → Value → Message → Outcome Message
unfolding as_string as_time sprint
read_annotation none v m = panic
read_annotation (some k) v m =
    if str_eq k (codes "iothub-enqueuedtime")
    then ok (record m { enqueued_time = some (as_time v) })
    else if str_eq k (codes "iothub-connection-device-id")
    then (do s ← as_string v; ok (record m { connection_device_id = s }))
    else if str_eq k (codes "iothub-connection-auth-generation-id")
    then (do s ← as_string v; ok (record m { connection_device_generation_id = s }))
    else if str_eq k (codes "iothub-connection-auth-method")
    then (do s ← as_string v; ok (record m { connection_auth_method = s }))
    else if str_eq k (codes "iothub-message-source")
    then (do s ← as_string v; ok (record m { message_source = s }))
    else ok (record m { properties = insert k (sprint v) m.properties })

unfoldable pub read_annotations : List (Option Str × Value) → Message → Outcome Message
unfolding read_annotation
read_annotations [] m = ok m
read_annotations ((k, v) ∷ rest) m = do m' ← read_annotation k v m; read_annotations rest m'

unfoldable pub read_application : Dict Value → Message → Outcome Message
unfolding as_string
read_application [] m = ok m
read_application ((k, v) ∷ rest) m = do
  s ← as_string v
  read_application rest (record m { properties = insert k s m.properties })

-- `msg.Data[0]` panics where there is no data.
unfoldable pub first_part : List Str → Outcome Str
first_part [] = panic
first_part (b ∷ bs) = ok b

unfoldable pub from_amqp_message : AmqpMessage → Outcome Message
unfolding first_part read_properties read_annotations read_application
from_amqp_message msg = do
  payload ← first_part msg.data_parts
  m ← read_properties msg.properties (record empty_message { payload = payload })
  m' ← read_annotations msg.annotations m
  read_application msg.application_properties m'

-- `*msg.ExpiryTime` panics on nil.
unfoldable pub to_amqp_message : Message → Outcome AmqpMessage
to_amqp_message msg = elim msg.expiry_time [
  | none ↦ panic
  | some t ↦ ok (record {
    data_parts = msg.payload ∷ [];
    value = absent;
    properties = some (record {
      to = msg.to;
      reply_to = [];
      user_id = msg.user_id;
      message_id = some (text msg.message_id);
      correlation_id = some (text msg.correlation_id);
      absolute_expiry_time = t;
    });
    annotations = [];
    application_properties = map (λ e. (e.0, text e.1)) msg.properties;
  })
]
