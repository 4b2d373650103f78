-- ===== src/Mqtt/Callbacks.antt =====
-- iotdevice/transport/mqtt/mqtt.go: what the transport does with the messages of its subscriptions,
-- over the dispatchers of the device client, and the two twin calls over `request`. An error of a
-- callback is only logged.
pub mod Laws
mod Tests
use iothub.Base.{ℕ, Bool, List, [], Option, Str, Outcome, ok, fail, panic, Error}
use iothub.Base.Int.{ℤ}
use iothub.Message.{Message, Time}
use iothub.Device.Mux as Fan
use iothub.Device.Mux.{Mux, twin_dispatch}
use iothub.Device.Methods as Methods
use iothub.Device.Methods.{Json, MethodMux}
use iothub.Mqtt.Topics.{
  parse_event_message, parse_direct_method_topic, method_response_topic, twin_get_topic,
  twin_patch_topic,
}
use iothub.Mqtt.Transport.{Broker, Transport, Response, Ran, send}
use iothub.Mqtt.Requests.{Wake, default_qos, begin_request, finish_request}

-- subEvents
unfoldable pub on_event : (Str → Option Time) → Str → Str → Mux Message → Outcome (Mux Message)
unfolding parse_event_message Fan.dispatch
on_event parse_time topic payload mux = elim (parse_event_message parse_time topic payload) [
  | ok msg ↦ ok (Fan.dispatch msg mux)
  | fail e ↦ ok mux
  | panic ↦ panic
]

-- subTwinUpdates
unfoldable pub on_twin_update : {Twin : Type 0} → (Str → Option Twin) → Str → Mux Twin → Mux Twin
unfolding twin_dispatch
on_twin_update unmarshal payload mux = twin_dispatch unmarshal payload mux

module _ {World Object : Type 0} (broker : Broker World) (json : Json Object)
    (authority_ok : Str → Bool) where
  logged : Ran World (Unit {0}) → Ran World (Unit {0})
  logged (tr, ok u) = (tr, ok u)
  logged (tr, fail e) = (tr, ok tt)
  logged (tr, panic) = (tr, panic)

  answer_with : ℤ → Outcome (ℕ × Str) → Transport World → Ran World (Unit {0})
  unfolding logged send method_response_topic
  answer_with rid (ok (rc, b)) tr =
      logged (send broker (method_response_topic rc rid) default_qos b tr)
  answer_with rid (fail e) tr = (tr, ok tt)
  answer_with rid panic tr = (tr, panic)

  called : MethodMux Object → Str → Outcome (Str × ℤ) → Transport World → Ran World (Unit {0})
  unfolding answer_with Methods.dispatch
  called mux payload (ok (method, rid)) tr =
      answer_with rid (Methods.dispatch json method payload mux) tr
  called mux payload (fail e) tr = (tr, ok tt)
  called mux payload panic tr = (tr, panic)

  -- subDirectMethods
  unfoldable pub on_direct_method :
      MethodMux Object → Str → Str → Transport World → Ran World (Unit {0})
  unfolding called parse_direct_method_topic
  on_direct_method mux topic payload tr =
      called mux payload (parse_direct_method_topic authority_ok topic) tr

-- RetrieveTwinProperties and UpdateTwinProperties, each cut in two around the wait of `request`.
module _ {World : Type 0} where
  unfoldable pub begin_retrieve : Broker World → Transport World → Ran World ℕ
  unfolding begin_request twin_get_topic
  begin_retrieve broker tr = begin_request broker twin_get_topic [] tr

  body_of : Ran World Response → Ran World Str
  body_of (tr, ok r) = (tr, ok r.body)
  body_of (tr, fail e) = (tr, fail e)
  body_of (tr, panic) = (tr, panic)

  unfoldable pub finish_retrieve : ℕ → Wake → Transport World → Ran World Str
  unfolding body_of finish_request
  finish_retrieve rid wake tr = body_of (finish_request rid wake tr)

  unfoldable pub begin_update : Broker World → Str → Transport World → Ran World ℕ
  unfolding begin_request twin_patch_topic
  begin_update broker b tr = begin_request broker twin_patch_topic b tr

  version_of : Ran World Response → Ran World ℤ
  version_of (tr, ok r) = (tr, ok r.ver)
  version_of (tr, fail e) = (tr, fail e)
  version_of (tr, panic) = (tr, panic)

  unfoldable pub finish_update : ℕ → Wake → Transport World → Ran World ℤ
  unfolding version_of finish_request
  finish_update rid wake tr = version_of (finish_request rid wake tr)
