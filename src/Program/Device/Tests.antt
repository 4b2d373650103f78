-- ===== src/Program/Device/Tests.antt =====
-- A command line that sends a message over a transport that records what it is given.
use iothub.Base.{
  ℕ, true, ◌≡◌, refl, false, List, [], ◌∷◌, ◌++◌, none, some, Str, codes, Dict, ok, fail,
  no_connection_string, odd_arguments, bad_input, lookup, insert, str_eq, split, cut,
}
use iothub.Base.Int.{ℤ, pos}
use iothub.Message.{Message, int, empty_message}
use iothub.Cli.Arguments.{arguments}
use iothub.Device.Client.{Port, Client, connected}
use iothub.Device.New.{fresh_client}
use iothub.Program.Device.{Settings, Console, send, wrap, twin_state}
use iothub.Program.Device.Table.{ask}
use iothub.Mqtt.Transport as Mqtt
use iothub.Mqtt.Transport.{Broker, Transport}
use iothub.Mqtt.Requests.{Wake, elapsed}
use iothub.Mqtt.Port.{new}

-- The outer state is the list of the messages that were sent.
abbrev recorder : Port (List Message)
recorder = record {
  connect = λ w. (w, ok tt);
  subscribe_events = λ w. (w, ok tt);
  subscribe_twin_updates = λ w. (w, ok tt);
  register_direct_methods = λ w. (w, ok tt);
  retrieve_twin_properties = λ w. (w, ok (codes "{}"));
  update_twin_properties = λ b w. (w, ok (pos 1));
  send = λ msg w. (w ++ msg ∷ [], ok tt);
  close = λ w. (w, ok tt);
}

abbrev silent : Console (List Message)
silent = record { print = λ line w. w }

abbrev flags : Settings
flags = record {
  debug = false;
  compress = false;
  quite = false;
  transport = codes "mqtt";
  mid = codes "m1";
  cid = codes "c1";
  qos = pos 1;
  tls_cert = [];
  tls_key = [];
  device_id = [];
  hostname = [];
}

abbrev two_keys : Dict Str
two_keys = (codes "a", codes "1") ∷ (codes "b", codes "2") ∷ []

abbrev idle_client : Client (List Message) Str Str
idle_client = fresh_client []

abbrev sent_message : Message
sent_message = record empty_message {
  payload = codes "hi";
  properties = two_keys;
  message_id = codes "m1";
  correlation_id = codes "c1";
  transport_options = (codes "qos", int (pos 1)) ∷ [];
}

-- The whole program, from the connection string to the message.
send_by_string :
    wrap {Twin = Str} {Object = Str}
      (λ crt key. ok tt)
      false
      (codes "HostName=h.net;DeviceId=d;SharedAccessKey=a2V5")
      (codes "mqtt")
      (λ creds tr. recorder)
      flags
      (λ port. send port silent flags connected (codes "hi" ∷ arguments two_keys))
      []
    ≡ (sent_message ∷ [], ok tt)
unfolding wrap send arguments lookup insert str_eq split cut
send_by_string = refl

-- Without a connection string and without a certificate nothing is tried.
no_authentication_given :
    wrap {Twin = Str} {Object = Str}
      (λ crt key. ok tt)
      false
      []
      (codes "mqtt")
      (λ creds tr. recorder)
      flags
      (λ port. send port silent flags connected (codes "hi" ∷ []))
      []
    ≡ ([], fail no_connection_string)
unfolding wrap
no_authentication_given = refl

null_deletes :
    twin_state ((codes "a", codes "null") ∷ (codes "b", codes "2") ∷ [])
    ≡ (codes "a", none) ∷ (codes "b", some (codes "2")) ∷ []
unfolding twin_state str_eq
null_deletes = refl

-- A hint, the payload, and the answer from the standard input.
hinting : Console (List Str)
hinting = record { print = λ line w. w ++ line ∷ [] }

answered :
    ask (λ o. ok o) (λ s. ok s) hinting (λ w. (w, ok (codes "{2}"))) false (codes "{1}") [] ≡ (
      codes "Payload: {1}" ∷ codes "Enter json response: " ∷ [],
      record { result = ok (codes "{2}"); reported = none },
    )
unfolding ask hinting
answered = refl

-- The error of the answer's JSON goes to the method's caller, a text of its own to the program.
unreadable :
    ask {Object = Str}
      (λ o. ok o)
      (λ s. fail odd_arguments)
      hinting
      (λ w. (w, ok (codes "x")))
      true
      (codes "{1}")
      []
    ≡ (codes "{1}" ∷ [], record { result = fail odd_arguments; reported = some bad_input })
unfolding ask hinting
unreadable = refl

-- A hub that keeps the topics that it was given.
abbrev hub : Broker (List Str)
hub = record {
  connect = λ did w. (w, ok tt);
  subscribe = λ topic w. (w, ok tt);
  publish = λ topic qos b w. (w ++ topic ∷ [], ok tt);
  is_connected = λ w. true;
  disconnect = λ w. w;
}

abbrev over_mqtt : Client (Transport (List Str)) Str Str
over_mqtt = fresh_client (record (new [] []) { connected = true; did = codes "d" })

abbrev no_pause : ℕ → Transport (List Str) → Transport (List Str) × Wake
no_pause rid tr = (tr, elapsed)

abbrev no_console : Console (Transport (List Str))
no_console = record { print = λ line tr. tr }

abbrev timeless : ℤ → Str
timeless t = []
