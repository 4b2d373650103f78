-- ===== src/Service/New/Tests.antt =====
-- Clients made with and without credentials, and with the default HTTP client.
use iothub.Base.{
  ◌≡◌, refl, ℕ, false, [], ◌∷◌, none, some, codes, ok, fail, credentials_required, split, cut,
  str_eq,
}
use iothub.Sas.{Credentials, no_credentials}
use iothub.Service.New.{with_connection_string, with_credentials, with_http_client, new_client}

abbrev hub : Credentials
hub = record no_credentials { host_name = codes "h.net"; shared_access_key = codes "a2V5" }

by_string :
    new_client {H = ℕ} 0
      (with_connection_string (codes "HostName=h.net;SharedAccessKey=a2V5;DeviceId=") ∷ [])
    ≡ ok (record { conn = none; done = false; creds = hub }, 0, false)
unfolding new_client split cut str_eq
by_string = refl

last_http_client :
    new_client {H = ℕ} 0
      (with_credentials (some hub) ∷ with_http_client (some 1) ∷ with_http_client (some 2) ∷ [])
    ≡ ok (record { conn = none; done = false; creds = hub }, 2, false)
unfolding new_client
last_http_client = refl

without_credentials : new_client {H = ℕ} 0 (with_credentials none ∷ []) ≡ fail credentials_required
unfolding new_client
without_credentials = refl
