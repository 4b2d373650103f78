-- ===== src/Service/Tests.antt =====
-- A device's connection string, and messages with and without an expiry time.
use iothub.Base.{◌≡◌, refl, ◌≢◌, false, [], ◌∷◌, none, some, Str, codes, ok, arith}
use iothub.Sas.{Credentials, no_credentials, parse_connection_string}
use iothub.Amqp.{AmqpMessage, absent}
use iothub.Service.{
  Device, auth_sas, device_connection_string, device_key, event_message, with_send_ack,
}
use iothub.Service.Laws.{
  parse_connection_string-device_connection_string, event_message_needs_expiry,
}

abbrev hub : Credentials
hub = record no_credentials {
  host_name = codes "test.azure-devices.net";
  shared_access_key = codes "hub=";
}

abbrev thermostat : Device
thermostat = record {
  device_id = codes "thermostat";
  authentication = some (record {
    symmetric_key = some (record { primary_key = codes "cHJp="; secondary_key = codes "c2Vj" });
    x509_thumbprint = none;
    type = auth_sas;
  });
}

abbrev thermostat_string : Str
thermostat_string =
    codes "HostName=test.azure-devices.net;DeviceId=thermostat;SharedAccessKey=cHJp="

thermostat_made : device_connection_string hub (some thermostat) false ≡ ok thermostat_string
unfolding device_connection_string
thermostat_made = refl

thermostat_key : device_key thermostat false ≡ ok (codes "cHJp=")
unfolding device_key
thermostat_key = refl

parse_connection_string-device_connection_string_example :
    parse_connection_string thermostat_string
    ≡ ok (record no_credentials {
      host_name = codes "test.azure-devices.net";
      device_id = codes "thermostat";
      shared_access_key = codes "cHJp=";
    })
parse_connection_string-device_connection_string_example =
    parse_connection_string-device_connection_string hub thermostat false (codes "cHJp=")
      thermostat_string thermostat_key thermostat_made (omega arith) (omega arith) (omega arith)

abbrev some_message : AmqpMessage
some_message = record {
  data_parts = codes "hi" ∷ [];
  value = absent;
  properties = none;
  annotations = [];
  application_properties = [];
}

event_message_needs_expiry_example :
    event_message
      (ok tt)
      (ok tt)
      (codes "d")
      (some (codes "hi"))
      (with_send_ack (codes "full") ∷ [])
    ≢ ok some_message
event_message_needs_expiry_example =
    event_message_needs_expiry (ok tt) (ok tt) (codes "d") (some (codes "hi"))
      (with_send_ack (codes "full") ∷ []) some_message (tt, tt)
