-- ===== src/Mqtt/Callbacks/Tests.antt =====
-- A device with one method, which a hub calls, and with a message from the cloud.
use iothub.Base.{
  Option, ◌≡◌, refl, arith, true, false, List, [], ◌∷◌, ◌++◌, none, some, Str, codes, lookup,
  str_eq, ok,
}
use iothub.Go.Decimal.{format}
use iothub.Device.Methods as Methods
use iothub.Device.Methods.{Json, MethodMux}
use iothub.Mqtt.Topics.Laws.{method_topic}
use iothub.Mqtt.Transport.{Broker, Transport}
use iothub.Message.{Message, Time}
use iothub.Device.Mux as Fan
use iothub.Device.Mux.Steps.{init}
use iothub.Go.Url.{query_escape}
use iothub.Go.Query.{pair, join_amp}
use iothub.Mqtt.Topics.Cloud.{cloud_topic}
use iothub.Mqtt.Topics.Events.{IsMessageOf}
use iothub.Mqtt.Callbacks.{on_direct_method, on_event}
use iothub.Mqtt.Callbacks.Laws.{on_direct_method-published, on_event-dispatched}

-- The outer state is the list of what was published, topic and body.
abbrev recorder : Broker (List Str)
recorder = record {
  connect = λ did w. (w, ok tt);
  subscribe = λ topic w. (w, ok tt);
  publish = λ topic qos b w. (w ++ topic ∷ b ∷ [], ok tt);
  is_connected = λ w. true;
  disconnect = λ w. w;
}

abbrev online : Transport (List Str)
online = record {
  connected = true;
  did = codes "devnull";
  rid = 6;
  subs = [];
  done = false;
  resp = none;
  has_logger = false;
  debug = false;
  world = [];
}

abbrev plain_json : Json Str
plain_json = record {
  unmarshal = λ s. ok (some s);
  marshal = λ o. ok o;
  empty = codes "{}";
  quote_error = λ e. codes "{error}";
}

abbrev echoing : MethodMux Str
echoing = record { table = some ((codes "echo", λ o. ok o) ∷ []) }

echo_answers :
    Methods.dispatch plain_json (codes "echo") (codes "{1}") echoing ≡ ok (200, codes "{1}")
unfolding Methods.dispatch lookup str_eq
echo_answers = refl

on_direct_method-published_example :
    (on_direct_method recorder plain_json
      (λ s. true)
      echoing
      (method_topic (codes "echo") 7)
      (codes "{1}")
      online).0
    ≡ record online {
      world =
          (codes "$iothub/methods/res/" ++ (format 200 ++ (codes "/?$rid=" ++ format 7)))
          ∷ codes "{1}"
          ∷ [];
    }
on_direct_method-published_example =
    on_direct_method-published recorder plain_json (λ s. true) echoing (codes "echo") (codes "{1}")
      (codes "{1}") 7 200 online
      (record {
        not_blank = λ e. cc;
        no_slash = omega arith;
        plain_path = record {
          no_hash = omega arith;
          no_question = omega arith;
          no_percent = omega arith;
          no_plus = omega arith;
          no_colon = omega arith;
        };
      })
      (omega arith) refl echo_answers

abbrev device_topic : Str
device_topic =
    cloud_topic (codes "d")
      ((codes "$.to", codes "/devices/d/messages/deviceBound") ∷ (codes "a", codes "b c") ∷ [])

-- The topic is that of the comment on parseCloudToDeviceTopic.
device_topic_shown :
    device_topic
    ≡ codes "devices/d/messages/devicebound/%24.to=%2Fdevices%2Fd%2Fmessages%2FdeviceBound&a=b+c"
unfolding pair join_amp query_escape
device_topic_shown = refl

abbrev no_time : Str → Option Time
no_time s = none

on_event-dispatched_example :
    (e : Message) × (on_event no_time device_topic (codes "hi") init ≡ ok (Fan.dispatch e init))
    × IsMessageOf no_time
        ((codes "$.to", codes "/devices/d/messages/deviceBound") ∷ (codes "a", codes "b c") ∷ [])
        (codes "hi")
        e
on_event-dispatched_example =
    on_event-dispatched no_time (codes "d") (codes "to") (codes "/devices/d/messages/deviceBound")
      (codes "hi") ((codes "a", codes "b c") ∷ []) init
      (record { no_dollar = omega arith; no_percent = omega arith; no_plus = omega arith })
      (ground arith, (ground arith, tt)) (unfold lookup str_eq in (refl, (refl, tt)))
      (unfold str_eq in ((λ e. cc), ((λ e. cc), tt)))
