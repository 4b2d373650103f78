-- ===== src/Program/Device/Publishing.antt =====
-- The command `send` over MQTT, from the words of the command line to the topic on the wire.
use iothub.Base.{[], ◌∷◌, Str, codes, Dict}
use iothub.Message.{Message, int, empty_message}
use iothub.Creds.{Creds}
use iothub.Device.Client.{Client}
use iothub.Mqtt.Transport as Mqtt
use iothub.Mqtt.Transport.{Transport}
use iothub.Program.Device.{Settings}

-- The message that the flags and the words of `send` make.
abbrev pub message_of : Settings → Str → Dict Str → Message
message_of s payload d = record empty_message {
  payload = payload;
  properties = d;
  message_id = s.mid;
  correlation_id = s.cid;
  transport_options = (codes "qos", int s.qos) ∷ [];
}
