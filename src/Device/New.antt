-- ===== src/Device/New.antt =====
-- iotdevice/client.go, NewClient and its options. `Tr` is the type of transports, and the loggers
-- are left out.
pub mod Laws
mod Tests
use iothub.Base.{
  Bool, true, false, List, [], ◌∷◌, Option, none, some, Str, is_blank, not, Outcome, ok, fail,
  panic, Error, credentials_required, transport_required, ◌>>=◌,
}
use iothub.Creds.{Creds, new_sas_credentials, new_x509_credentials}
use iothub.Device.Mux.{Mux, fresh_sub}
use iothub.Device.Client.{Client}

pub data ClientOption (Tr : Type 0) : Type 0 where
  with_debug : Bool → ClientOption Tr
  with_transport : Option Tr → ClientOption Tr
  use_credentials : Creds → ClientOption Tr
  with_connection_string : Str → ClientOption Tr
  with_x509_from_cert : Str → Str → ClientOption Tr
  with_x509_from_file : Str → Str → Str → Str → ClientOption Tr

-- The fields of the client that the options set.
pub record Setup (Tr : Type 0) : Type 0 where
  pub creds : Option Creds
  pub tr : Option Tr
  pub debug : Bool

module _ {Tr : Type 0} where
  -- WithCredentials, which panics where the option is made
  unfoldable pub with_credentials : Option Creds → Outcome (ClientOption Tr)
  with_credentials none = panic
  with_credentials (some creds) = ok (use_credentials creds)

  abbrev pub with_creds : Setup Tr → Outcome Creds → Outcome (Setup Tr)
  with_creds s r = do creds ← r; ok (record s { creds = some creds })

  -- `load` is tls.LoadX509KeyPair, whose certificate only serves TLS.
  unfoldable pub apply_option :
      (Str → Str → Outcome (Unit {0})) → ClientOption Tr → Setup Tr → Outcome (Setup Tr)
  unfolding new_sas_credentials new_x509_credentials
  apply_option load (with_debug t) s = ok (record s { debug = t })
  apply_option load (with_transport t) s = ok (record s { tr = t })
  apply_option load (use_credentials creds) s = ok (record s { creds = some creds })
  apply_option load (with_connection_string cs) s = with_creds s (new_sas_credentials cs)
  apply_option load (with_x509_from_cert device host) s =
      with_creds s (new_x509_credentials device host)
  apply_option load (with_x509_from_file device host crt key) s =
      load crt key >>= λ u. with_creds s (new_x509_credentials device host)

  unfoldable pub apply_options :
      (Str → Str → Outcome (Unit {0})) → List (ClientOption Tr) → Setup Tr → Outcome (Setup Tr)
  unfolding apply_option
  apply_options load [] s = ok s
  apply_options load (o ∷ os) s = apply_option load o s >>= λ t. apply_options load os t

  with_both : Setup Tr → Option Creds → Option Tr → Outcome (Creds × Tr × Bool)
  with_both s none transport = fail credentials_required
  with_both s (some creds) none = fail transport_required
  with_both s (some creds) (some transport) = ok (creds, transport, s.debug)

  -- What NewClient makes of its options: the credentials, the transport and the debug mode. `debug`
  -- is whether $DEBUG is set.
  unfoldable pub configure :
      (Str → Str → Outcome (Unit {0})) → Bool → List (ClientOption Tr) → Outcome (Creds × Tr × Bool)
  unfolding apply_options with_both
  configure load debug opts =
      apply_options load opts (record { creds = none; tr = none; debug = debug }) >>= λ s.
      with_both s s.creds s.tr

abbrev empty_mux : {A : Type 0} → Mux A
empty_mux = record { subs = []; heap = λ s. fresh_sub; next = 0; senders = []; done = false }

-- The other fields of a new client.
unfoldable pub fresh_client : {World Twin Object : Type 0} → World → Client World Twin Object
fresh_client w = record {
  ready = false;
  done = false;
  events_on = false;
  events = empty_mux;
  twins_on = false;
  twins = empty_mux;
  methods_on = false;
  methods = record { table = none };
  world = w;
}

unfoldable pub new_client :
    {Tr World Twin Object : Type 0}
    → (Str → Str → Outcome (Unit {0}))
    → Bool
    → List (ClientOption Tr)
    → World
    → Outcome ((Creds × Tr × Bool) × Client World Twin Object)
unfolding configure fresh_client
new_client load debug opts w = do setup ← configure load debug opts; ok (setup, fresh_client w)
