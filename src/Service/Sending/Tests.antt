-- ===== src/Service/Sending/Tests.antt =====
-- A hub that keeps the messages that were sent over its links.
use iothub.Base.{
  ◌≡◌, refl, false, List, [], ◌∷◌, ◌++◌, none, some, codes, ok, Str, Dict, lookup, str_eq,
}
use iothub.Base.Int.{pos}
use iothub.Message.{at, empty_message}
use iothub.Sas.{no_credentials, Crypto}
use iothub.Amqp.{AmqpMessage, absent, from_amqp_message}
use iothub.Eventhub as Eh
use iothub.Eventhub.{Peer, no_detach}
use iothub.Service.{
  SendOption, with_send_message_id, with_sent_expiry_time, with_send_property,
  with_send_correlation_id, with_send_ack,
}
use iothub.Service.Connect.{Client}
use iothub.Service.Sending.{send_event}
use iothub.Service.Sending.Options.{last_value, property_of}
use iothub.Service.Sending.Laws.{beside, over_link, send_event-sends}

abbrev nothing_received : AmqpMessage
nothing_received = record {
  data_parts = [];
  value = absent;
  properties = none;
  annotations = [];
  application_properties = [];
}

abbrev keeping : Peer (List AmqpMessage)
keeping = record {
  random = λ n w. (w, ok []);
  dial = λ a u w. (w, ok 1);
  detach = λ e. no_detach;
  new_session = λ c w. (w, ok 1);
  new_sender = λ s o w. (w, ok 1);
  new_receiver = λ s o w. (w, ok 1);
  send = λ l m w. (w ++ m ∷ [], ok tt);
  receive = λ l w. (w, ok nothing_received);
  accept = λ m w. w;
  close_link = λ l w. w;
  close_session = λ s w. (w, ok tt);
  close_connection = λ c w. (w, ok tt);
}

abbrev plain_crypto : Crypto
plain_crypto = record {
  base64_decode = λ s. some s;
  base64_encode = λ s. codes "sig";
  hmac_sha256 = λ k s. k;
}

abbrev hub_link : Eh.Client
hub_link = record { conn = 1; sess = 1; done = false }

abbrev online : Client
online = record { conn = some hub_link; done = false; creds = no_credentials }

abbrev options : List SendOption
options =
    with_send_message_id (codes "m0")
    ∷ with_sent_expiry_time (at (pos 9))
    ∷ with_send_property (codes "a") (codes "b")
    ∷ with_send_correlation_id (codes "c1")
    ∷ with_send_ack (codes "full")
    ∷ with_send_message_id (codes "m1")
    ∷ []

send_event-sends_example :
    (a : AmqpMessage) × (props : Dict Str) × (send_event keeping plain_crypto
        (pos 0)
        (codes "d")
        (some (codes "hi"))
        options
        online
        []
      ≡ beside online (over_link keeping hub_link a []))
    × (from_amqp_message a
        ≡ ok (record empty_message {
          payload = codes "hi";
          to = codes "/devices/d/messages/devicebound";
          message_id = codes "m1";
          correlation_id = codes "c1";
          expiry_time = some (at (pos 9));
          properties = props;
        }))
    × ((k : Str) → lookup k props ≡ last_value (property_of k) options)
unfolding str_eq
send_event-sends_example =
    send_event-sends keeping plain_crypto (pos 0) (codes "d") (codes "hi") options online hub_link
      [] (at (pos 9)) refl refl (refl, tt) refl
