-- ===== src/Mqtt/Port/Tests.antt =====
-- A client over MQTT whose hub answers two requests out of order.
use iothub.Base.{
  ◌||◌, ◌≡◌, refl, arith, true, false, List, [], ◌∷◌, ◌++◌, none, Str, codes, Outcome, ok, ◌>>=◌,
}
use iothub.Creds.{Creds, x509_creds}
use iothub.Device.Client.{Client, connected, retrieve_twin_state}
use iothub.Device.New.{fresh_client}
use iothub.Mqtt.Transport.{Broker, Transport, sub, send}
use iothub.Mqtt.Requests.{begin_request, enable_twin_responses}
use iothub.Mqtt.Requests.{finish_request, on_twin_response, elapsed}
use iothub.Mqtt.Topics.{twin_get_topic}
use iothub.Mqtt.Topics.Laws.{twin_response, rid_field}
use iothub.Mqtt.Transport.{on_connect, connect_transport}
use iothub.Mqtt.Requests.WellFormed.{response_subs, IsWellFormed}
use iothub.Mqtt.Requests.Steps.{
  here, next, connects, requests, hears, wakes, reconnects, History, has_table, asked,
  History-IsWellFormed,
}
use iothub.Mqtt.Callbacks.{begin_retrieve}
use iothub.Mqtt.Port.{with_logger, with_debug, new, mqtt_port}
use iothub.Mqtt.Port.Laws.{
  Answer, AreInts, meant_for, first_body, hub_answers, retrieve_twin_state-first,
}

-- The outer state is the list of what was published, topic and body.
abbrev recorder : Broker (List Str)
recorder = record {
  connect = λ did w. (w, ok tt);
  subscribe = λ topic w. (w, ok tt);
  publish = λ topic qos b w. (w ++ topic ∷ b ∷ [], ok tt);
  is_connected = λ w. true;
  disconnect = λ w. w;
}

-- A hub that was given nothing yet.
abbrev initial : List Str
initial = []

options_apply_in_turn :
    new (with_logger false ∷ with_debug true ∷ with_logger true ∷ []) initial
    ≡ record (new [] initial) { has_logger = true; debug = true }
unfolding new
options_apply_in_turn = refl

abbrev online : Transport (List Str)
online = record {
  connected = true;
  did = codes "d";
  rid = 6;
  subs = [];
  done = false;
  resp = none;
  has_logger = false;
  debug = false;
  world = [];
}

abbrev device : Client (Transport (List Str)) Str Str
device = fresh_client online

abbrev device_creds : Creds
device_creds = x509_creds (codes "d") (codes "h.net")

-- A late answer to request 6 is in front of the two to request 7.
abbrev answers : List Answer
answers =
    record { status = 200; id = 6; payload = codes "{6}" }
    ∷ record { status = 200; id = 7; payload = codes "{7}" }
    ∷ record { status = 404; id = 7; payload = codes "{}" }
    ∷ []

answers-AreInts : AreInts answers
answers-AreInts = (
  record { status_bound = omega arith; id_bound = omega arith },
  (
    record { status_bound = omega arith; id_bound = omega arith },
    (record { status_bound = omega arith; id_bound = omega arith }, tt),
  ),
)

-- The desired and the reported state are the same text here.
abbrev both : Str → Outcome (Str × Str)
both b = ok (b, b)

retrieve_twin_state-first_example :
    (retrieve_twin_state
      (mqtt_port (hub_answers (λ s. true) answers) recorder (λ t. []) device_creds)
      both
      connected
      device).1
    ≡ (first_body (meant_for 7 answers) >>= both)
unfolding begin_retrieve begin_request enable_twin_responses sub send fresh_client
retrieve_twin_state-first_example =
    retrieve_twin_state-first recorder (λ s. true) (λ t. []) device_creds both answers 7 device
      answers-AreInts refl

first_answer : (first_body (meant_for 7 answers) >>= both) ≡ ok (codes "{7}", codes "{7}")
unfolding meant_for
first_answer = refl

abbrev unconnected : Transport (List Str)
unconnected = record online { connected = false }

unconnected-IsWellFormed : IsWellFormed unconnected
unfolding response_subs
unconnected-IsWellFormed = record {
  offline = λ off. (refl, refl);
  responses = refl;
  table = record { distinct = tt; small = tt };
}

-- A connection, a request, its response, a reconnection, and the request's end.
abbrev lived : Transport (List Str)
lived =
    (finish_request 7 elapsed
      (on_connect recorder (
        on_twin_response (λ s. true) (twin_response 200 (rid_field 7)) (codes "{}")
          (begin_request recorder twin_get_topic []
            (connect_transport recorder (codes "d") unconnected).0).0)).0).0

abbrev life : History recorder (λ s. true) unconnected lived
life =
    next
      (next
        (next (next (next here (connects (codes "d"))) (requests twin_get_topic []))
          (hears (twin_response 200 (rid_field 7)) (codes "{}")))
        reconnects)
      (wakes 7 elapsed)

History-IsWellFormed_example :
    IsWellFormed lived
    × (has_table lived ≡ (has_table unconnected || asked recorder (λ s. true) life))
History-IsWellFormed_example =
    History-IsWellFormed recorder (λ s. true) life unconnected-IsWellFormed
