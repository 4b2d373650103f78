-- ===== src/Program/Device/Laws.antt =====
-- What the commands hand to the transport.
use iothub.Base.{◌≡◌, refl, [], ◌∷◌, Str, codes, Dict, HasDistinctKeys, insert, Outcome, ok}
use iothub.Message.{int, empty_message}
use iothub.Cli.{put_pairs}
use iothub.Cli.Arguments.{arguments, Apart-nil, put_pairs-arguments, args_to_map-arguments}
use iothub.Device.Client.{
  Port, Client, connected, check_connection, add_all, apply_option, apply_options, send_event,
  event_checked,
}
use iothub.Program.Device.{Settings, Console, send, sent_with}

put_pairs-add_all : (d m : Dict Str) → put_pairs (arguments d) m ≡ ok (add_all d m)
unfolding put_pairs arguments add_all
put_pairs-add_all [] m = refl
put_pairs-add_all ((k, v) ∷ d) m = put_pairs-add_all d (insert k v m)

add_all_of_distinct : (d : Dict Str) → HasDistinctKeys d → add_all d [] ≡ d
add_all_of_distinct d h =
    let whole = put_pairs-arguments d [] h (Apart-nil d) in
    let sum = put_pairs-add_all d [] in cc (whole, sum)

-- A result of the transport's call, and the client behind it.
abbrev pub left_in :
    {World Twin Object : Type 0}
    → Client World Twin Object
    → World × Outcome (Unit {0})
    → Client World Twin Object × Outcome (Unit {0})
left_in c (w, r) = (record c { world = w }, r)

sent_with-message :
    {World Twin Object : Type 0} (port : Port World) (console : Console World) (s : Settings)
    (payload : Str) (d : Dict Str) (c : Client World Twin Object)
    → HasDistinctKeys d
    → sent_with port console s connected payload d c
      ≡ left_in c (
          port.send
            (record empty_message {
              payload = payload;
              properties = d;
              message_id = s.mid;
              correlation_id = s.cid;
              transport_options = (codes "qos", int s.qos) ∷ [];
            })
            c.world)
unfolding sent_with send_event event_checked check_connection apply_options apply_option insert
sent_with-message port console s payload d c h = rw (add_all_of_distinct d h) refl

-- On a client that is connected, `send` with a payload and words that alternate between distinct
-- keys and values gives the transport one message: with the payload, exactly these properties and
-- the ids and the QoS of the flags; and it ends as the transport's call does.
pub send-message :
    {World Twin Object : Type 0} (port : Port World) (console : Console World) (s : Settings)
    (payload : Str) (d : Dict Str) (c : Client World Twin Object)
    → HasDistinctKeys d
    → send port console s connected (payload ∷ arguments d) c
      ≡ left_in c (
          port.send
            (record empty_message {
              payload = payload;
              properties = d;
              message_id = s.mid;
              correlation_id = s.cid;
              transport_options = (codes "qos", int s.qos) ∷ [];
            })
            c.world)
unfolding send arguments
send-message port console s payload [] c h = sent_with-message port console s payload [] c tt
send-message port console s payload ((k, v) ∷ d) c h =
    let parsed = args_to_map-arguments ((k, v) ∷ d) h in
    rw parsed (sent_with-message port console s payload ((k, v) ∷ d) c h)
