-- ===== src/Creds/Tests.antt =====
-- The service's connection string for a device, and the token that the device signs with it.
use iothub.Base.{◌≡◌, refl, false, [], none, some, Str, codes, ok, arith, ◌>>=◌}
use iothub.Base.Int.{pos}
use iothub.Sas.{Credentials, no_credentials, Crypto}
use iothub.Service.{Device, auth_sas, device_connection_string, device_key, device_sas}
use iothub.Creds.{new_sas_credentials, token, hour}
use iothub.Creds.Laws.{token-device_sas}

abbrev plain_crypto : Crypto
plain_crypto = record {
  base64_decode = λ s. some s;
  base64_encode = λ s. codes "sig";
  hmac_sha256 = λ k s. k;
}

abbrev hub : Credentials
hub = record no_credentials { host_name = codes "hub.net" }

abbrev lamp : Device
lamp = record {
  device_id = codes "lamp";
  authentication = some (record {
    symmetric_key = some (record { primary_key = codes "a2V5"; secondary_key = [] });
    x509_thumbprint = none;
    type = auth_sas;
  });
}

abbrev lamp_string : Str
lamp_string = codes "HostName=hub.net;DeviceId=lamp;SharedAccessKey=a2V5"

lamp_made : device_connection_string hub (some lamp) false ≡ ok lamp_string
unfolding device_connection_string
lamp_made = refl

lamp_key : device_key lamp false ≡ ok (codes "a2V5")
unfolding device_key
lamp_key = refl

token-device_sas_example :
    (new_sas_credentials lamp_string >>= λ c. token plain_crypto (pos 0) c (codes "hub.net") hour)
    ≡ device_sas plain_crypto (pos 0) hub (some lamp) hour false
token-device_sas_example =
    token-device_sas plain_crypto (pos 0) hub lamp false hour (codes "a2V5") lamp_string lamp_key
      lamp_made (omega arith) (omega arith) (omega arith)
