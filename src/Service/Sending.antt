-- ===== src/Service/Sending.antt =====
-- iotservice/client.go: SendEvent as a whole, over the connection that ConnectToAMQP makes.
pub mod Options
pub mod Laws
mod Tests
use iothub.Base.{
  List, ◌++◌, Option, none, some, Str, codes, is_blank, Outcome, ok, fail, panic, empty_device_id,
  nil_payload, if◌then◌else◌,
}
use iothub.Base.Int.{ℤ}
use iothub.Message.{Message, empty_message}
use iothub.Sas.{Crypto}
use iothub.Amqp.{to_amqp_message}
use iothub.Act.{Act, lift, ◌>>=◌, with_closed}
use iothub.Eventhub as Eh
use iothub.Eventhub.{Peer, no_options}
use iothub.Service.{SendOption, apply_options}
use iothub.Service.Connect.{Client, connect_to_amqp}

unfoldable pub addressed : Str → Str → Message
addressed device payload = record empty_message {
  payload = payload;
  to = codes "/devices/" ++ (device ++ codes "/messages/devicebound");
}

module _ {World : Type 0} (peer : Peer World) where
  -- A new link for the message, closed by a deferred call.
  unfoldable pub send_over : Message → Eh.Client → Act World (Unit {0})
  unfolding with_closed to_amqp_message
  send_over msg eh =
      with_closed
        (peer.new_sender eh.sess (record no_options { target = codes "/messages/devicebound" }))
        peer.close_link (λ out. do m ← lift (to_amqp_message msg); peer.send out m)

  sent_by :
      Client → World → Outcome Message → Option Eh.Client → (Client × World) × Outcome (Unit {0})
  unfolding send_over
  sent_by c w (fail e) conn = ((c, w), fail e)
  sent_by c w panic conn = ((c, w), panic)
  sent_by c w (ok msg) none = ((c, w), panic)
  sent_by c w (ok msg) (some eh) = let (w', r) = send_over msg eh w in ((c, w'), r)

  event_after :
      Outcome Message
      → (Client × World) × Outcome (Unit {0})
      → (Client × World) × Outcome (Unit {0})
  unfolding sent_by
  event_after msg ((c, w), ok u) = sent_by c w msg c.conn
  event_after msg (s, fail e) = (s, fail e)
  event_after msg (s, panic) = (s, panic)

  -- SendEvent; a nil payload is `none`.
  unfoldable pub send_event :
      Crypto
      → ℤ
      → Str
      → Option Str
      → List SendOption
      → Client
      → World
      → (Client × World) × Outcome (Unit {0})
  unfolding addressed apply_options event_after connect_to_amqp
  send_event crypto clock device none opts c w =
      ((c, w), if is_blank device then fail empty_device_id else fail nil_payload)
  send_event crypto clock device (some payload) opts c w =
      if is_blank device
      then ((c, w), fail empty_device_id)
      else event_after (apply_options opts (addressed device payload))
          (connect_to_amqp peer crypto clock c w)
