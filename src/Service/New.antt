-- ===== src/Service/New.antt =====
-- iotservice/client.go, NewClient and its options, and NewSymmetricKey. `H` is the type of HTTP
-- clients, and the loggers are left out.
mod Tests
use iothub.Base.{
  Bool, false, List, [], ◌∷◌, Option, none, some, Str, Outcome, ok, fail, credentials_required,
  ◌>>=◌,
}
use iothub.Sas.{Credentials, Crypto, parse_connection_string}
use iothub.Eventhub.{Peer}
use iothub.Service.Connect.{Client}

pub data ClientOption (H : Type 0) : Type 0 where
  with_connection_string : Str → ClientOption H
  with_credentials : Option Credentials → ClientOption H
  with_http_client : Option H → ClientOption H
  with_debug : Bool → ClientOption H

-- The fields of the client that the options set.
pub record Setup (H : Type 0) : Type 0 where
  pub creds : Option Credentials
  pub http : Option H
  pub debug : Bool

module _ {H : Type 0} where
  unfoldable pub apply_option : ClientOption H → Setup H → Outcome (Setup H)
  unfolding parse_connection_string
  apply_option (with_connection_string cs) s = do
    creds ← parse_connection_string cs
    ok (record s { creds = some creds })
  apply_option (with_credentials c) s = ok (record s { creds = c })
  apply_option (with_http_client h) s = ok (record s { http = h })
  apply_option (with_debug d) s = ok (record s { debug = d })

  unfoldable pub apply_options : List (ClientOption H) → Setup H → Outcome (Setup H)
  unfolding apply_option
  apply_options [] s = ok s
  apply_options (o ∷ os) s = apply_option o s >>= λ t. apply_options os t

  or_default : H → Option H → H
  or_default bundled none = bundled
  or_default bundled (some h) = h

  with_all : H → Setup H → Option Credentials → Outcome (Client × H × Bool)
  unfolding or_default
  with_all bundled s none = fail credentials_required
  with_all bundled s (some c) =
      ok (record { conn = none; done = false; creds = c }, or_default bundled s.http, s.debug)

  -- `bundled` is the HTTP client that trusts the bundled certificates.
  unfoldable pub new_client : H → List (ClientOption H) → Outcome (Client × H × Bool)
  unfolding apply_options with_all
  new_client bundled opts =
      apply_options opts (record { creds = none; http = none; debug = false }) >>= λ s.
      with_all bundled s s.creds

encoded : {World : Type 0} → Crypto → World × Outcome Str → World × Outcome Str
encoded crypto (w, r) = (w, r >>= λ b. ok (crypto.base64_encode b))

unfoldable pub new_symmetric_key :
    {World : Type 0} → Crypto → Peer World → World → World × Outcome Str
unfolding encoded
new_symmetric_key crypto peer w = encoded crypto (peer.random 32 w)
