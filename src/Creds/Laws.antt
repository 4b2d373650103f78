-- ===== src/Creds/Laws.antt =====
-- The credentials that a device reads from the service's connection string.
use iothub.Base.{◌≡◌, Bool, some, Str, Lacks, ok, sym, ◌>>=◌}
use iothub.Base.Int.{ℤ}
use iothub.Sas.{Credentials, no_credentials, Crypto, sas}
use iothub.Service.{Device, device_key, device_connection_string, device_sas}
use iothub.Service.Laws.{parse_connection_string-device_connection_string}
use iothub.Creds.{new_sas_credentials, token}

module _ (crypto : Crypto) (clock : ℤ) where
  device_sas_of :
      (creds : Credentials) (device : Device) (secondary : Bool) (duration : ℤ) (key : Str)
      → device_key device secondary ≡ ok key
      → device_sas crypto clock creds (some device) duration secondary
        ≡ sas crypto clock
            (record no_credentials {
              host_name = creds.host_name;
              device_id = device.device_id;
              shared_access_key = key;
            })
            creds.host_name
            duration
  unfolding device_sas
  device_sas_of creds device secondary duration key found = rw found

  -- With no semicolon in the hub's name, the device's or the key, a device that logs in with the
  -- connection string that the service made for it signs, for the hub's name, the same token as the
  -- service's DeviceSAS does at the same time.
  pub token-device_sas :
      (creds : Credentials) (device : Device) (secondary : Bool) (duration : ℤ) (key s : Str)
      → device_key device secondary ≡ ok key
      → device_connection_string creds (some device) secondary ≡ ok s
      → Lacks b';' creds.host_name
      → Lacks b';' device.device_id
      → Lacks b';' key
      → (new_sas_credentials s >>= λ c. token crypto clock c creds.host_name duration)
        ≡ device_sas crypto clock creds (some device) duration secondary
  unfolding new_sas_credentials token
  token-device_sas creds device secondary duration key s found made h d k =
      rw
        (parse_connection_string-device_connection_string creds device secondary key s found made h
          d k)
        (sym (device_sas_of creds device secondary duration key found))
