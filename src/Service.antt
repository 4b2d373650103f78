-- ===== src/Service.antt =====
-- iotservice/client.go and iotservice/registry.go: the keys, connection strings and tokens of
-- devices, the options of a cloud-to-device message, and the calls of the REST interface, over the
-- HTTP request that is given as `exchange`.
pub mod Rest
pub mod Connect
pub mod Feedback
pub mod New
pub mod Sending
pub mod Laws
mod Tests
use iothub.Base.{
  ℕ, Bool, true, false, List, [], ◌∷◌, ◌++◌, Option, none, some, Str, codes, str_eq, is_blank,
  insert, Dict, Outcome, ok, fail, panic, Error, ◌>>=◌, if◌then◌else◌, ◌==◌, ◌&&◌, ◌||◌,
  no_symmetric_key, unknown_ack, empty_device_id, empty_method_name, empty_payload, nil_payload,
  bad_response, external,
}
use iothub.Base.Int.{ℤ}
use iothub.Message.{Message, Time, empty_message}
use iothub.Sas.{Credentials, no_credentials, Crypto, sas}
use iothub.Amqp.{AmqpMessage, to_amqp_message}

pub record SymmetricKey : Type 0 where
  pub primary_key : Str
  pub secondary_key : Str

pub record X509Thumbprint : Type 0 where
  pub primary_thumbprint : Str
  pub secondary_thumbprint : Str

-- The constants of AuthType.
abbrev pub auth_sas : Str
auth_sas = codes "sas"

abbrev pub auth_self_signed : Str
auth_self_signed = codes "selfSigned"

abbrev pub auth_ca : Str
auth_ca = codes "certificateAuthority"

pub record Authentication : Type 0 where
  pub symmetric_key : Option SymmetricKey
  pub x509_thumbprint : Option X509Thumbprint
  pub type : Str

-- Device, without the fields that only the hub fills in.
pub record Device : Type 0 where
  pub device_id : Str
  pub authentication : Option Authentication

key_of : Bool → Option SymmetricKey → Outcome Str
key_of secondary none = fail no_symmetric_key
key_of secondary (some k) = if secondary then ok k.secondary_key else ok k.primary_key

unfoldable pub device_key : Device → Bool → Outcome Str
unfolding key_of
device_key device secondary = elim device.authentication [
  | none ↦ fail no_symmetric_key
  | some a ↦ key_of secondary a.symmetric_key
]

unfoldable pub connection_string : Str → Str → Str → Str
connection_string host device key =
    codes "HostName="
    ++ (host ++ (codes ";DeviceId=" ++ (device ++ (codes ";SharedAccessKey=" ++ key))))

-- DeviceConnectionString; a nil device is `none`.
unfoldable pub device_connection_string : Credentials → Option Device → Bool → Outcome Str
unfolding device_key connection_string
device_connection_string creds none secondary = panic
device_connection_string creds (some device) secondary = do
  key ← device_key device secondary
  ok (connection_string creds.host_name device.device_id key)

unfoldable pub device_sas : Crypto → ℤ → Credentials → Option Device → ℤ → Bool → Outcome Str
unfolding device_key sas
device_sas crypto clock creds none duration secondary = panic
device_sas crypto clock creds (some device) duration secondary = do
  key ← device_key device secondary
  sas crypto clock
      (record no_credentials {
        host_name = creds.host_name;
        device_id = device.device_id;
        shared_access_key = key;
      })
      creds.host_name duration

pub data SendOption : Type 0 where
  with_send_message_id : Str → SendOption
  with_send_correlation_id : Str → SendOption
  with_send_user_id : Str → SendOption
  with_send_ack : Str → SendOption
  with_sent_expiry_time : Time → SendOption
  with_send_property : Str → Str → SendOption
  with_send_properties : Dict Str → SendOption

unfoldable pub add_all : Dict Str → Dict Str → Dict Str
add_all [] m = m
add_all ((k, v) ∷ p) m = add_all p (insert k v m)

unfoldable pub is_ack : Str → Bool
is_ack s =
    str_eq s (codes "none")
    || str_eq s (codes "positive")
    || str_eq s (codes "negative")
    || str_eq s (codes "full")

unfoldable pub apply_ack : Str → Message → Outcome Message
unfolding is_ack
apply_ack s msg =
    if is_blank s
    then ok msg
    else if is_ack s
    then ok (record msg { properties = insert (codes "iothub-ack") s msg.properties })
    else fail unknown_ack

unfoldable pub apply_option : SendOption → Message → Outcome Message
unfolding apply_ack add_all
apply_option (with_send_message_id mid) msg = ok (record msg { message_id = mid })
apply_option (with_send_correlation_id cid) msg = ok (record msg { correlation_id = cid })
apply_option (with_send_user_id uid) msg = ok (record msg { user_id = uid })
apply_option (with_send_ack s) msg = apply_ack s msg
apply_option (with_sent_expiry_time t) msg = ok (record msg { expiry_time = some t })
apply_option (with_send_property k v) msg =
    ok (record msg { properties = insert k v msg.properties })
apply_option (with_send_properties m) msg =
    ok (record msg { properties = add_all m msg.properties })

unfoldable pub apply_options : List SendOption → Message → Outcome Message
unfolding apply_option
apply_options [] msg = ok msg
apply_options (o ∷ os) msg = do msg' ← apply_option o msg; apply_options os msg'

-- SendEvent up to the link: the message that is given to AMQP, with the ends of ConnectToAMQP
-- and NewSender given.
unfoldable pub event_message :
    Outcome (Unit {0})
    → Outcome (Unit {0})
    → Str
    → Option Str
    → List SendOption
    → Outcome AmqpMessage
unfolding apply_options to_amqp_message
event_message connected link device none opts =
    if is_blank device then fail empty_device_id else fail nil_payload
event_message connected link device (some payload) opts =
    if is_blank device then fail empty_device_id else (do
      u ← connected
      msg ← apply_options opts (record empty_message {
        payload = payload;
        to = codes "/devices/" ++ (device ++ codes "/messages/devicebound");
      })
      u' ← link
      to_amqp_message msg)

-- What `call` makes of a response: its status and body, and whether the caller wants an object.
unfoldable pub read_response {ℓ} : {V : Type ℓ} → Option (Str → Outcome V) → V → ℕ → Str → Outcome V
read_response none empty status body =
    if status == 204
    then ok empty
    else if status == 200
    then fail (external (codes "json: Unmarshal(nil)"))
    else fail bad_response
read_response (some unmarshal) empty status body =
    if status == 200 then unmarshal body else fail bad_response
