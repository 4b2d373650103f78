-- ===== src/Service/Rest/Tests.antt =====
-- A hub that answers every request, and the properties of the REST calls at it.
use iothub.Base.{ℕ, ◌≡◌, refl, [], ◌∷◌, none, some, Str, codes, lookup, ok, fail, external}
use iothub.Base.Int.{pos}
use iothub.Sas.{no_credentials, Crypto}
use iothub.Eventhub.{no_detach, Peer}
use iothub.Service.Rest.{Rest, call}
use iothub.Service.Rest.Registry.{get_device}
use iothub.Service.Rest.Calls.{Exchanged, call-Exchanged}

abbrev silent : Peer ℕ
silent = record {
  random = λ n w. (w, ok (1 ∷ 2 ∷ []));
  dial = λ a u w. (w, ok 1);
  detach = λ e. no_detach;
  new_session = λ c w. (w, ok 1);
  new_sender = λ s o w. (w, ok 1);
  new_receiver = λ s o w. (w, ok 1);
  send = λ l m w. (w, ok tt);
  receive = λ l w. (w, fail (external (codes "nothing")));
  accept = λ m w. w;
  close_link = λ l w. w;
  close_session = λ s w. (w, ok tt);
  close_connection = λ c w. (w, ok tt);
}

abbrev plain_crypto : Crypto
plain_crypto = record {
  base64_decode = λ s. some s;
  base64_encode = λ s. codes "sig";
  hmac_sha256 = λ k s. k;
}

abbrev hub : Rest ℕ
hub = record {
  crypto = plain_crypto;
  clock = pos 0;
  creds = record no_credentials { host_name = codes "hub.net"; shared_access_key = codes "a2V5" };
  peer = silent;
  http = record {
    new_request = λ m u. ok tt;
    exchange = λ r w. (w, ok (record { status = 200; body = r.uri }));
  };
}

abbrev device_uri : Str
device_uri = codes "https://hub.net/devices/a%2Fb?api-version=2018-01-16"

get_device_a_b : (get_device hub (λ s. ok s) [] (codes "a/b") 0).1 ≡ ok device_uri
unfolding get_device call
get_device_a_b = refl

call_a_b :
    (call hub (codes "GET") (codes "devices/a%2Fb") [] none (some (λ s. ok s)) [] 0).1
    ≡ ok device_uri
unfolding call
call_a_b = refl

call-Exchanged_example :
    Exchanged hub (codes "GET") (codes "devices/a%2Fb") none (some (λ s. ok s)) [] device_uri
call-Exchanged_example =
    call-Exchanged hub (codes "GET") (codes "devices/a%2Fb") [] none (some (λ s. ok s)) []
      device_uri 0 (unfold lookup in refl) call_a_b
