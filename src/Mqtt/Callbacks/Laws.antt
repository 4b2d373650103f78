-- ===== src/Mqtt/Callbacks/Laws.antt =====
-- A direct method call, from its topic to the topic of its response, and an event, from its topic to
-- the subscriptions.
use iothub.Go.Decimal.{format, format_int}
use iothub.Base.{
  codes, ◌++◌, ℕ, ◌≤◌, ◌≡◌, refl, ap, ◌∙◌, not_connected, Bool, true, Str, Outcome, ok, fail, panic,
  if◌then◌else◌, ◌∷◌, Dict, HasDistinctKeys, All, Option,
}
use iothub.Base.Int.{pos}
use iothub.Go.Decimal.{max_int}
use iothub.Device.Methods as Methods
use iothub.Device.Methods.{Json, MethodMux}
use iothub.Mqtt.Topics.{method_response_topic}
use iothub.Mqtt.Topics.Laws.{method_topic, IsMethodName, parse_direct_method_topic-method_topic}
use iothub.Mqtt.Transport.{Broker, Transport, Ran, send}
use iothub.Mqtt.Requests.{default_qos}
use iothub.Message.{Message, Time}
use iothub.Device.Mux as Fan
use iothub.Device.Mux.{Mux}
use iothub.Mqtt.Topics.{parse_event_message}
use iothub.Mqtt.Topics.Cloud.{IsPlainEntry, IsPlainDevice, cloud_topic}
use iothub.Mqtt.Topics.Events.{HasTime, IsMessageOf, parse_event_message-cloud_topic}
use iothub.Mqtt.Callbacks.{on_event, on_direct_method, called, answer_with, logged}

if_of_true : {A : Type 0} (c : Bool) (x y : A) → c ≡ true → (if c then x else y) ≡ x
if_of_true c x y h = rw h refl

module _ {World Object : Type 0} (broker : Broker World) (json : Json Object)
    (authority_ok : Str → Bool) where
  response_sent :
      (rid rc : ℕ) (b : Str) (tr : Transport World)
      → tr.connected ≡ true
      → (answer_with broker json authority_ok (pos rid) (ok (rc, b)) tr).0 ≡ record tr {
        world = (broker.publish (method_response_topic rc (pos rid)) default_qos b tr.world).0;
      }
  unfolding answer_with send logged
  response_sent rid rc b tr on =
      let p : World × Outcome (Unit {0}) =
        broker.publish (method_response_topic rc (pos rid)) default_qos b tr.world in
      ap (λ (q : Ran World (Unit {0})). (logged broker json authority_ok q).0)
        (if_of_true tr.connected (record tr { world = p.0 }, p.1) (tr, fail not_connected) on)
      ∙ settled p
    where
      settled :
          (p : World × Outcome (Unit {0}))
          → (logged broker json authority_ok (record tr { world = p.0 }, p.1)).0
            ≡ record tr { world = p.0 }
      settled (w, ok u) = refl
      settled (w, fail e) = refl
      settled (w, panic) = refl

  -- On a connected transport, a call of a method whose name is not blank and holds none of '/', '#',
  -- '?', '%', '+' and ':', under an id that fits an int, which the dispatcher answers with a status and
  -- a body, has one effect: the body is published with QoS 1 to the topic that ends in the status and
  -- "/?$rid=" with the id of the call, both in decimal.
  pub on_direct_method-published :
      (mux : MethodMux Object) (name payload b : Str) (rid rc : ℕ) (tr : Transport World)
      → IsMethodName name
      → rid ≤ max_int
      → tr.connected ≡ true
      → Methods.dispatch json name payload mux ≡ ok (rc, b)
      → (on_direct_method broker json authority_ok mux (method_topic name rid) payload tr).0
        ≡ record tr {
          world =
              (broker.publish
                (codes "$iothub/methods/res/" ++ (format rc ++ (codes "/?$rid=" ++ format rid)))
                1
                b
                tr.world).0;
        }
  unfolding on_direct_method called method_response_topic format_int
  on_direct_method-published mux name payload b rid rc tr named bound on answered =
      rw (parse_direct_method_topic-method_topic authority_ok name rid named bound)
        (rw answered (response_sent rid rc b tr on))

on_event_of :
    (parse_time : Str → Option Time) (topic payload : Str) (mux : Mux Message) (e : Message)
    → parse_event_message parse_time topic payload ≡ ok e
    → on_event parse_time topic payload mux ≡ ok (Fan.dispatch e mux)
unfolding on_event
on_event_of parse_time topic payload mux e h = rw (on_event, h) refl

-- An incoming message on a cloud-to-device topic is dispatched when the device's name holds none of
-- '$', '%' and '+', and the attributes in the topic stand for themselves in a query, have distinct
-- keys, a system's key first, and an expiry time that can be parsed, if any. The dispatched message has
-- the payload; its id, correlation id, user id, recipient and expiry time are those of the
-- attributes, or empty; and every other key has the value in its properties that it has among the
-- attributes.
pub on_event-dispatched :
    (parse_time : Str → Option Time) (did name v payload : Str) (m : Dict Str) (mux : Mux Message)
    → IsPlainDevice did
    → All IsPlainEntry ((b'$' ∷ b'.' ∷ name, v) ∷ m)
    → HasDistinctKeys ((b'$' ∷ b'.' ∷ name, v) ∷ m)
    → All (HasTime parse_time) ((b'$' ∷ b'.' ∷ name, v) ∷ m)
    → (e : Message) × (on_event parse_time
          (cloud_topic did ((b'$' ∷ b'.' ∷ name, v) ∷ m))
          payload
          mux
        ≡ ok (Fan.dispatch e mux))
      × IsMessageOf parse_time ((b'$' ∷ b'.' ∷ name, v) ∷ m) payload e
on_event-dispatched parse_time did name v payload m mux d h k t =
    let (e, parsed, said) =
      parse_event_message-cloud_topic parse_time did name v payload m d h k t in
    (
      e,
      on_event_of parse_time (cloud_topic did ((b'$' ∷ b'.' ∷ name, v) ∷ m)) payload mux e parsed,
      said,
    )
