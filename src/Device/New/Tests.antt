-- ===== src/Device/New/Tests.antt =====
-- A device that connects with the string that the service client made for it.
use iothub.Base.{none, ℕ, ◌≡◌, refl, arith, false, [], ◌∷◌, some, Str, codes, ok}
use iothub.Sas.{Credentials, no_credentials}
use iothub.Service.{Device, auth_sas, device_key, device_connection_string}
use iothub.Creds.{sas_creds}
use iothub.Device.New.{with_transport, with_connection_string, new_client, fresh_client}
use iothub.Device.New.Laws.{new_client-device_connection_string}

abbrev hub : Credentials
hub = record no_credentials {
  host_name = codes "test.azure-devices.net";
  shared_access_key = codes "hub=";
}

abbrev thermostat : Device
thermostat = record {
  device_id = codes "thermostat";
  authentication = some (record {
    symmetric_key = some (record { primary_key = codes "cHJp="; secondary_key = codes "c2Vj" });
    x509_thumbprint = none;
    type = auth_sas;
  });
}

abbrev thermostat_string : Str
thermostat_string =
    codes "HostName=test.azure-devices.net;DeviceId=thermostat;SharedAccessKey=cHJp="

thermostat_made : device_connection_string hub (some thermostat) false ≡ ok thermostat_string
unfolding device_connection_string
thermostat_made = refl

thermostat_key : device_key thermostat false ≡ ok (codes "cHJp=")
unfolding device_key
thermostat_key = refl

thermostat_client :
    new_client {Tr = Str} {World = ℕ} {Twin = Str} {Object = Str}
      (λ crt key. ok tt)
      false
      (with_transport (some (codes "mqtt")) ∷ with_connection_string thermostat_string ∷ [])
      0
    ≡ ok (
      (
        sas_creds (record no_credentials {
          host_name = codes "test.azure-devices.net";
          device_id = codes "thermostat";
          shared_access_key = codes "cHJp=";
        }),
        codes "mqtt",
        false,
      ),
      fresh_client 0,
    )
thermostat_client =
    new_client-device_connection_string (λ crt key. ok tt) false (codes "mqtt") 0 hub thermostat
      false (codes "cHJp=") thermostat_string thermostat_key thermostat_made (omega arith)
      (omega arith) (omega arith)
