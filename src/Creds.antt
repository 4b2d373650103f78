-- ===== src/Creds.antt =====
-- iotdevice/creds.go: the credentials of a device, and the name and password that the MQTT
-- transport's Connect logs in with.
pub mod Laws
mod Tests
use iothub.Base.{
  Bool, true, false, [], ◌∷◌, ◌++◌, Str, codes, Outcome, ok, fail, panic, ◌>>=◌,
  token_not_supported, if◌then◌else◌,
}
use iothub.Base.Int.{ℤ, pos}
use iothub.Sas.{Credentials, Crypto, parse_connection_string, sas}

-- transport.Credentials by its two implementations; the certificate only serves TLS.
pub data Creds : Type 0 where
  sas_creds : Credentials → Creds
  x509_creds : Str → Str → Creds

unfoldable pub new_sas_credentials : Str → Outcome Creds
unfolding parse_connection_string
new_sas_credentials cs = do creds ← parse_connection_string cs; ok (sas_creds creds)

unfoldable pub new_x509_credentials : Str → Str → Outcome Creds
new_x509_credentials device host = ok (x509_creds device host)

unfoldable pub device_id : Creds → Str
device_id (sas_creds c) = c.device_id
device_id (x509_creds device host) = device

unfoldable pub hostname : Creds → Str
hostname (sas_creds c) = c.host_name
hostname (x509_creds device host) = host

unfoldable pub is_sas : Creds → Bool
is_sas (sas_creds c) = true
is_sas (x509_creds device host) = false

abbrev pub api_version : Str
api_version = codes "2018-01-16"

abbrev pub hour : ℤ
hour = pos 3600000000000

module _ (crypto : Crypto) (clock : ℤ) where
  unfoldable pub token : Creds → Str → ℤ → Outcome Str
  unfolding sas
  token (sas_creds c) uri duration = sas crypto clock c uri duration
  token (x509_creds device host) uri duration = fail token_not_supported

  -- An error of Token panics.
  pub password : Outcome Str → Outcome Str
  password (ok t) = ok t
  password (fail e) = panic
  password panic = panic

  -- The credentials provider of Connect.
  unfoldable pub login : Creds → Outcome (Str × Str)
  unfolding device_id hostname is_sas token password
  login c =
      let username =
        hostname c ++ (codes "/" ++ (device_id c ++ (codes "/api-version=" ++ api_version))) in
      if is_sas c
      then (do p ← password (token c (hostname c) hour); ok (username, p))
      else ok (username, [])
