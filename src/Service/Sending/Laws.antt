-- ===== src/Service/Sending/Laws.antt =====
-- SendEvent, from its options to the message on the link.
use iothub.Base.{
  ◌≡◌, refl, List, [], ◌++◌, some, Str, codes, is_blank, false, lookup, none, Option, Dict, Outcome,
  ok, ◌>>=◌, ap, ◌∙◌, sym,
}
use iothub.Base.Int.{ℤ}
use iothub.Message.{Message, Time, empty_message}
use iothub.Sas.{Crypto}
use iothub.Amqp.{AmqpMessage, to_amqp_message, from_amqp_message}
use iothub.Amqp.Laws.{from_amqp_message-to_amqp_message, to_amqp_message_ok_iff}
use iothub.Act as Act
use iothub.Act.{Act, lift, with_closed}
use iothub.Eventhub as Eh
use iothub.Eventhub.{Peer, no_options}
use iothub.Service.{SendOption, apply_options}
use iothub.Service.Sending.Options.{
  later, given, last_value, message_id_of, correlation_id_of, user_id_of, expiry_time_of,
  property_of, AreAccepted, apply_options-OptionsSay,
}
use iothub.Service.Connect.{Client, connect_to_amqp}
use iothub.Service.Sending.{addressed, send_over, sent_by, event_after, send_event}

-- A result of calls on the connection, and the client beside what they leave.
abbrev pub beside :
    {World : Type 0} → Client → World × Outcome (Unit {0}) → (Client × World) × Outcome (Unit {0})
beside c (w, r) = ((c, w), r)

module _ {World : Type 0} (peer : Peer World) where
  -- One message over a link of its own.
  abbrev pub over_link : Eh.Client → AmqpMessage → Act World (Unit {0})
  over_link eh a =
      with_closed
        (peer.new_sender eh.sess (record no_options { target = codes "/messages/devicebound" }))
        peer.close_link (λ out. peer.send out a)

  send_over-link :
      (msg : Message) (a : AmqpMessage) (eh : Eh.Client) (w : World)
      → to_amqp_message msg ≡ ok a
      → send_over peer msg eh w ≡ over_link eh a w
  unfolding send_over
  send_over-link msg a eh w e =
      ap
        (λ (r : Outcome AmqpMessage).
          with_closed
            (peer.new_sender eh.sess (record no_options { target = codes "/messages/devicebound" }))
            peer.close_link (λ out. Act.◌>>=◌ (lift r) (λ m. peer.send out m)) w)
        e

  module _ (crypto : Crypto) (clock : ℤ) where
    send_event-over_link :
        (device payload : Str) (opts : List SendOption) (c : Client) (eh : Eh.Client) (w : World)
        (msg : Message) (a : AmqpMessage)
        → c.conn ≡ some eh
        → is_blank device ≡ false
        → apply_options opts (addressed device payload) ≡ ok msg
        → to_amqp_message msg ≡ ok a
        → send_event peer crypto clock device (some payload) opts c w ≡ beside c (over_link eh a w)
    unfolding send_event event_after sent_by
    send_event-over_link device payload opts c eh w msg a on named made e =
        let again : connect_to_amqp peer crypto clock c w ≡ ((c, w), ok tt) =
          unfold connect_to_amqp in rw on refl in
        rw named (
          rw (made, again)
            (ap (sent_by peer c w (ok msg)) on ∙ ap (beside c) (send_over-link msg a eh w e)))

    later-none : {A : Type 0} (o : Option A) → later o none ≡ o
    later-none none = refl
    later-none (some a) = refl

    -- SendEvent of a connected client, with a device's name and options whose acknowledgements are known
    -- and that give an expiry time, opens one link, sends one AMQP message over it, and closes it; and it
    -- ends as these calls do. The AMQP message is read back as one with the payload, addressed to the
    -- device. Its message id, correlation id, user id and expiry time are each the one of the last option
    -- of that kind, an id that no option gives being empty; and each of its properties is the one of the
    -- last option that gives it, with an acknowledgement that is not empty as property "iothub-ack".
    pub send_event-sends :
        (device payload : Str) (opts : List SendOption) (c : Client) (eh : Eh.Client) (w : World)
        (t : Time)
        → c.conn ≡ some eh
        → is_blank device ≡ false
        → AreAccepted opts
        → last_value expiry_time_of opts ≡ some t
        → (a : AmqpMessage) × (props : Dict Str) × (send_event peer crypto clock device
              (some payload)
              opts
              c
              w
            ≡ beside c (over_link eh a w))
          × (from_amqp_message a
              ≡ ok (record empty_message {
                payload = payload;
                user_id = given (last_value user_id_of opts) [];
                message_id = given (last_value message_id_of opts) [];
                correlation_id = given (last_value correlation_id_of opts) [];
                to = codes "/devices/" ++ (device ++ codes "/messages/devicebound");
                expiry_time = some t;
                properties = props;
              }))
          × ((k : Str) → lookup k props ≡ last_value (property_of k) opts)
    unfolding addressed lookup
    send_event-sends device payload opts c eh w t on named accepted expires =
        let (msg, made, said) = apply_options-OptionsSay opts (addressed device payload) accepted in
        let timed : msg.expiry_time ≡ some t = said.expiry_time ∙ ap (λ o. later o none) expires in
        let (a, converted) = (to_amqp_message_ok_iff msg).0.1 (t, timed) in
        (
          a,
          msg.properties,
          send_event-over_link device payload opts c eh w msg a on named made converted,
          ap (λ r. r >>= from_amqp_message) (sym converted)
              ∙ from_amqp_message-to_amqp_message msg t timed (said.distinct tt)
              ∙ rw (said.payload, said.to, said.user_id, said.message_id, said.correlation_id) refl,
          λ k. said.properties k ∙ later-none (last_value (property_of k) opts),
        )
