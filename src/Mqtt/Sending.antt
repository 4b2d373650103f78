-- ===== src/Mqtt/Sending.antt =====
-- iotdevice/transport/mqtt/mqtt.go, Send: a device-to-cloud message as a topic and a payload.
pub mod Attributes
pub mod Laws
use iothub.Base.{
  ℕ, Bool, true, false, List, [], ◌∷◌, ◌++◌, Option, none, some, Str, codes, is_blank, Dict, lookup,
  insert, map, Outcome, ok, fail, panic, Error, invalid_qos, if◌then◌else◌, ◌||◌, ◌==◌,
}
use iothub.Base.Int.{ℤ, pos, negsuc}
use iothub.Go.Query.{Values, encode}
use iothub.Message.{Message, Time, zero_time, at, TransportOption, int, other}
use iothub.Mqtt.Transport.{Broker, Transport, Ran, send}
use iothub.Mqtt.Requests.{default_qos}

abbrev pub put_if : Str → Str → Dict Str → Dict Str
put_if k v u = if is_blank v then u else insert k v u

-- `q.(int)` panics on a value of another type.
unfoldable pub message_qos : Dict TransportOption → Outcome ℕ
message_qos options = elim (lookup (codes "qos") options) [
  | none ↦ ok default_qos
  | some (int (pos n)) ↦ if n == 0 || n == 1 then ok n else fail invalid_qos
  | some (int (negsuc n)) ↦ fail invalid_qos
  | some other ↦ panic
]

module _ (format_time : ℤ → Str) where
  pub put_expiry : Option Time → Dict Str → Dict Str
  put_expiry none u = u
  put_expiry (some zero_time) u = u
  put_expiry (some (at t)) u = insert (codes "$.exp") (format_time t) u

  pub put_all : Dict Str → Dict Str → Dict Str
  put_all [] u = u
  put_all ((k, v) ∷ p) u = put_all p (insert k v u)

  -- The attributes of a message, system properties first; each has one value. `format_time` is
  -- UTC().Format(time.RFC3339).
  unfoldable pub attributes : Message → Dict Str
  unfolding put_expiry put_all
  attributes msg = put_all msg.properties (
      put_expiry msg.expiry_time (
        put_if (codes "$.to") msg.to (
          put_if (codes "$.uid") msg.user_id (
            put_if (codes "$.cid") msg.correlation_id (put_if (codes "$.mid") msg.message_id [])))))

  abbrev one_value : Dict Str → Values
  one_value = map (λ e. (e.0, e.1 ∷ []))

  unfoldable pub event_topic : Str → Message → Str
  unfolding attributes encode
  event_topic did msg =
      codes "devices/"
      ++ (did ++ (codes "/messages/events/" ++ encode (one_value (attributes msg))))

  module _ {World : Type 0} (broker : Broker World) where
    pub publish_with : Str → Str → Transport World → Outcome ℕ → Ran World (Unit {0})
    publish_with topic payload tr (ok qos) = send broker topic qos payload tr
    publish_with topic payload tr (fail e) = (tr, fail e)
    publish_with topic payload tr panic = (tr, panic)

    unfoldable pub send_message : Message → Transport World → Ran World (Unit {0})
    unfolding event_topic message_qos publish_with
    send_message msg tr =
        publish_with (event_topic tr.did msg) msg.payload tr (message_qos msg.transport_options)
