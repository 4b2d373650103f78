-- ===== src/Device/New/Laws.antt =====
-- What a new client authenticates with.
use iothub.Base.{◌≡◌, refl, Bool, [], ◌∷◌, some, Str, Lacks, Outcome, ok}
use iothub.Sas.{Credentials, no_credentials}
use iothub.Service.{Device, device_key, device_connection_string}
use iothub.Service.Laws.{parse_connection_string-device_connection_string}
use iothub.Creds.{sas_creds, new_sas_credentials}
use iothub.Device.New.{
  with_transport, with_connection_string, apply_option, apply_options, configure, new_client,
  fresh_client,
}

-- A device whose connection string the service client made can make a client with it, which has the
-- hub's name, the device's id and the device's key, and the given transport; the names and the key
-- are without semicolons.
pub new_client-device_connection_string :
    {Tr World Twin Object : Type 0} (load : Str → Str → Outcome (Unit {0})) (debug : Bool)
    (transport : Tr) (w : World) (creds : Credentials) (device : Device) (secondary : Bool)
    (key s : Str)
    → device_key device secondary ≡ ok key
    → device_connection_string creds (some device) secondary ≡ ok s
    → Lacks b';' creds.host_name
    → Lacks b';' device.device_id
    → Lacks b';' key
    → new_client {Twin = Twin} {Object = Object} load debug
        (with_transport (some transport) ∷ with_connection_string s ∷ [])
        w
      ≡ ok (
        (
          sas_creds (record no_credentials {
            host_name = creds.host_name;
            device_id = device.device_id;
            shared_access_key = key;
          }),
          transport,
          debug,
        ),
        fresh_client w,
      )
unfolding new_client configure apply_options apply_option new_sas_credentials
new_client-device_connection_string load debug transport w creds device secondary key s found made h
      d k =
    rw
      (parse_connection_string-device_connection_string creds device secondary key s found made h d
        k)
      refl
