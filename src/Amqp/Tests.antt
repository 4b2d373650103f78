-- ===== src/Amqp/Tests.antt =====
-- A message with an expiry time and one without, over AMQP.
use iothub.Base.{◌≡◌, refl, [], ◌∷◌, some, codes, ok, ◌>>=◌, lookup, str_eq}
use iothub.Base.Int.{pos}
use iothub.Message.{Message, at, empty_message}
use iothub.Amqp.{from_amqp_message, to_amqp_message}
use iothub.Amqp.Laws.{from_amqp_message-to_amqp_message}

abbrev command : Message
command = record empty_message {
  message_id = codes "m1";
  to = codes "/devices/d/messages/devicebound";
  expiry_time = some (at (pos 7));
  payload = codes "reboot";
  properties = (codes "iothub-ack", codes "full") ∷ (codes "a", codes "b") ∷ [];
}

from_amqp_message-to_amqp_message_example :
    (to_amqp_message command >>= from_amqp_message) ≡ ok command
unfolding lookup str_eq
from_amqp_message-to_amqp_message_example =
    from_amqp_message-to_amqp_message command (at (pos 7)) refl (refl, (refl, tt))
