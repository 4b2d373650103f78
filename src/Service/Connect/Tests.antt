-- ===== src/Service/Connect/Tests.antt =====
-- A hub that counts its connections and redirects, and the properties of the connections at it.
use iothub.Base.{
  ℕ, ◌+◌, ◌-◌, ◌≡◌, refl, true, false, [], ◌∷◌, none, some, codes, ok, fail, external, lookup,
  str_eq, index, has_prefix,
}
use iothub.Base.Int.{pos}
use iothub.Sas.{Credentials, no_credentials, Crypto}
use iothub.Amqp.{AmqpMessage, absent, text, int32}
use iothub.Eventhub.{detached_for, Peer}
use iothub.Service.Connect.{Client, connect_to_amqp, connect_to_event_hub}
use iothub.Service.Connect.Leak.{CountsConnections, connect_to_event_hub-connections}

abbrev accepted : AmqpMessage
accepted = record {
  data_parts = [];
  value = absent;
  properties = none;
  annotations = [];
  application_properties = (codes "status-code", int32 (pos 200) (codes "200")) ∷ [];
}

-- Links to "$cbs" are answered, any other is detached with the address of the event hub.
abbrev redirecting : Peer ℕ
redirecting = record {
  random = λ n w. (w, ok []);
  dial = λ a u w. (w + 1, ok w);
  detach = λ e. detached_for true (
      (codes "address", text (codes "amqps://eh.net:5671/grp/"))
      ∷ (codes "hostname", text (codes "eh.net"))
      ∷ []);
  new_session = λ c w. (w, ok 1);
  new_sender = λ s o w. (w, ok 1);
  new_receiver = λ s o w. (w, ok 1);
  send = λ l m w. (w, ok tt);
  receive = λ l w. (w, fail (external (codes "moved")));
  accept = λ m w. w;
  close_link = λ l w. w;
  close_session = λ s w. (w, ok tt);
  close_connection = λ c w. (w - 1, ok tt);
}

abbrev answering : Peer ℕ
answering = record redirecting { receive = λ l w. (w, ok accepted) }

abbrev plain_crypto : Crypto
plain_crypto = record {
  base64_decode = λ s. some s;
  base64_encode = λ s. codes "sig";
  hmac_sha256 = λ k s. k;
}

abbrev service_creds : Credentials
service_creds = record no_credentials {
  host_name = codes "h.azure-devices.net";
  shared_access_key_name = codes "svc";
  shared_access_key = codes "a2V5";
}

abbrev fresh : Client
fresh = record { conn = none; done = false; creds = service_creds }

connected : (connect_to_amqp answering plain_crypto (pos 0) fresh 0).1 ≡ ok tt
unfolding connect_to_amqp lookup str_eq
connected = refl

redirecting-CountsConnections : CountsConnections redirecting (λ w. w)
redirecting-CountsConnections = record {
  dial = λ a u. record { opened = λ w c e. refl; refused = λ w no_conn. absurd (no_conn w refl) };
  close_connection = λ c w. refl;
  new_session = λ c. record { at = λ w. refl };
  close_session = λ s. record { at = λ w. refl };
  new_receiver = λ s o. record { at = λ w. refl };
  close_link = λ l w. refl;
  receive = λ l. record { at = λ w. refl };
}

moved_to :
    (connect_to_event_hub redirecting plain_crypto (pos 0) service_creds 0).1 ≡ ok (1, codes "grp")
unfolding connect_to_event_hub lookup str_eq index has_prefix
moved_to = refl

connect_to_event_hub-connections_example :
    (connect_to_event_hub redirecting plain_crypto (pos 0) service_creds 0).0 ≡ 2
connect_to_event_hub-connections_example =
    connect_to_event_hub-connections redirecting plain_crypto (pos 0) (λ w. w)
      redirecting-CountsConnections service_creds 0 (1, codes "grp") moved_to
