-- ===== src/Mqtt/Tests.antt =====
-- The inputs of iotdevice/transport/mqtt/mqtt_test.go, and each property of the transport at one.
use iothub.Base.{
  Dict, ℕ, ◌+◌, ◌%◌, ◌^◌, ◌≡◌, refl, ◌↔◌, ◌⊎◌, Bool, true, false, List, [], ◌∷◌, ◌++◌, none, some,
  Str, codes, arith, ok, fail, panic, external, if◌then◌else◌, ◌==◌, str_eq, lookup, insert, cut,
  has_prefix, drop_prefix, trim_right, trim,
}
use iothub.Base.Int.{ℤ, pos}
use iothub.Go.Decimal.{atoi}
use iothub.Go.Url.{unescape, parse}
use iothub.Go.Query.{parse_query, query, values}
use iothub.Go.Query.Pieces.{singles}
use iothub.Message.{Message, int, empty_message}
use iothub.Mqtt.Topics.{parse_direct_method_topic, parse_twin_props_topic}
use iothub.Mqtt.Topics.Laws.{twin_response}
use iothub.Mqtt.Transport.{Broker, sub_direct_methods, Transport, on_connect, send}
use iothub.Mqtt.Transport.Laws.{AreAccepted, on_connect_no_logger}
use iothub.Mqtt.Requests.{
  waiting, received, got, enable_twin_responses, begin_request, finish_request, on_twin_response,
}
use iothub.Mqtt.Requests.Laws.{
  response_query, appended, on_twin_response-received, finish_request_lem, begin_request_lem,
}
use iothub.Mqtt.Sending.{event_topic}
use iothub.Mqtt.Sending.Attributes.{attribute_of, IsOfBytes}
use iothub.Mqtt.Sending.Laws.{event_topic-attributes}

abbrev any_authority : Str → Bool
any_authority s = true

parse_direct_method_topic_test :
    parse_direct_method_topic any_authority (codes "$iothub/methods/POST/add/?$rid=666")
    ≡ ok (codes "add", pos 666)
unfolding parse_direct_method_topic unescape parse query values atoi insert lookup str_eq cut
    has_prefix drop_prefix trim_right
parse_direct_method_topic_test = refl

parse_twin_props_topic_test :
    parse_twin_props_topic any_authority (codes "$iothub/twin/res/200/?$rid=12&$version=4")
    ≡ ok (pos 200, pos 12, pos 4)
unfolding parse_twin_props_topic unescape parse query values atoi insert lookup str_eq cut
    has_prefix drop_prefix trim
parse_twin_props_topic_test = refl

-- A hub that keeps the topics that it was given, and refuses subscriptions to direct methods.
abbrev recorder : Broker (List Str)
recorder = record {
  connect = λ did w. (w, ok tt);
  subscribe = λ topic w.
      if str_eq topic (codes "$iothub/methods/POST/#")
      then (w, fail (external (codes "refused")))
      else (w ++ topic ∷ [], ok tt);
  publish = λ topic qos b w. (w ++ topic ∷ [], ok tt);
  is_connected = λ w. true;
  disconnect = λ w. w;
}

abbrev online : Transport (List Str)
online = record {
  connected = true;
  did = codes "devnull";
  rid = 6;
  subs = sub_direct_methods ∷ [];
  done = false;
  resp = some (record { rid = 6; received = [] } ∷ []);
  has_logger = false;
  debug = false;
  world = [];
}

abbrev ask : ℕ → Str
ask rid = codes "$iothub/twin/GET/"

begin_request-online : (begin_request recorder ask [] online).1 ≡ ok 7
unfolding begin_request send enable_twin_responses
begin_request-online = refl

begin_request_lem_example :
    (7 ≡ (6 + 1) % 2 ^ 32)
    × ((other : ℕ)
        → received other (waiting (begin_request recorder ask [] online).0)
          ≡ (if 7 == other then some [] else received other (waiting online)))
begin_request_lem_example = begin_request_lem recorder ask [] online 7 begin_request-online

finish_request_lem_example :
    (received 6 (
        waiting
          (finish_request 6 (got (record { code = pos 404; body = []; ver = pos 0 })) online).0)
      ≡ (if 6 == 6 then none else received 6 (waiting online)))
    × ((finish_request 6 (got (record { code = pos 404; body = []; ver = pos 0 })) online).1
        ≡ ok (record { code = pos 404; body = []; ver = pos 0 }))
finish_request_lem_example =
    finish_request_lem 6 6 (got (record { code = pos 404; body = []; ver = pos 0 })) online

on_twin_response-received_example :
    received 6 (
      waiting (
        on_twin_response any_authority
          (twin_response 200 (response_query 6 (some 4)))
          (codes "{}")
          online))
    ≡ (if 6 == 6
        then appended
            (record { code = pos 200; body = codes "{}"; ver = pos 4 })
            (received 6 (waiting online))
        else received 6 (waiting online))
on_twin_response-received_example =
    on_twin_response-received any_authority (codes "{}") 200 6 6 (some 4) online (omega arith)
      (omega arith) (omega arith)

on_connect_no_logger_example :
    (((on_connect recorder online).1 ≡ ok tt)
      ↔ AreAccepted recorder online (sub_direct_methods ∷ []))
    × (((on_connect recorder online).1 ≡ ok tt) ⊎ ((on_connect recorder online).1 ≡ panic))
on_connect_no_logger_example = on_connect_no_logger recorder online refl refl

abbrev plain_time : ℤ → Str
plain_time t = codes "time"

abbrev greeting : Message
greeting = record empty_message {
  message_id = codes "m1";
  payload = codes "hello";
  properties = (codes "a b", codes "1&2") ∷ [];
  transport_options = (codes "qos", int (pos 0)) ∷ [];
}

greeting-IsOfBytes : IsOfBytes plain_time greeting
greeting-IsOfBytes = record {
  message_id_bytes = ground arith;
  correlation_id_bytes = tt;
  user_id_bytes = tt;
  to_bytes = tt;
  expiry_bytes = tt;
  properties_bytes = ground arith;
}

event_topic-attributes_example :
    (q : Str) × (m : Dict Str) × (event_topic plain_time (codes "d") greeting
      ≡ (codes "devices/" ++ (codes "d" ++ codes "/messages/events/")) ++ q)
    × (parse_query q ≡ some (singles m))
    × ((k : Str) → lookup k m ≡ attribute_of plain_time greeting k)
event_topic-attributes_example =
    event_topic-attributes plain_time (codes "d") greeting greeting-IsOfBytes
      (unfold lookup in (refl, tt))
