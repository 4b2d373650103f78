-- ===== src/Program/Device.antt =====
-- cmd/iothub-device/main.go: the commands over the device client. The variables of the flags are the
-- record Settings; the standard output is in the outer state, by the record Console.
pub mod Laws
pub mod Table
pub mod Publishing
mod Tests
use iothub.Base.{
  Bool, true, false, not, ◌&&◌, ◌||◌, List, [], ◌∷◌, ◌++◌, Option, none, some, Str, codes, str_eq,
  is_blank, Dict, Outcome, ok, fail, panic, Error, invalid_usage, hostname_required,
  device_id_required, no_connection_string, unknown_transport, bad_input, not_implemented,
  if◌then◌else◌,
}
use iothub.Base.Int.{ℤ}
use iothub.Message.{Message}
use iothub.Act.{Act, continue, lift, pure, run, ◌>>=◌, ◌>>◌}
use iothub.Cli.{args_to_map}
use iothub.Creds.{Creds}
use iothub.Device.Client.{
  Port, Client, Branch, SendOption, with_send_properties, with_send_message_id,
  with_send_correlation_id, with_send_qos, connect_client, subscribe_events, subscribe_twin_updates,
  send_event, retrieve_twin_state, update_twin_state,
}
use iothub.Device.New.{
  ClientOption, with_debug, with_transport, with_connection_string, with_x509_from_file, new_client,
}

pub record Settings : Type 0 where
  pub debug : Bool
  pub compress : Bool
  pub quite : Bool
  pub transport : Str
  pub mid : Str
  pub cid : Str
  pub qos : ℤ
  pub tls_cert : Str
  pub tls_key : Str
  pub device_id : Str
  pub hostname : Str

pub record Console (World : Type 0) : Type 0 where
  pub print : Str → World → World

-- A value of the new state; `none` is a nil, which deletes the key.
unfoldable pub state_value : Str → Option Str
state_value v = if str_eq v (codes "null") then none else some v

unfoldable pub twin_state : Dict Str → Dict (Option Str)
unfolding state_value
twin_state [] = []
twin_state ((k, v) ∷ m) = (k, state_value v) ∷ twin_state m

-- What `wrap` takes for authentication; `cs` is $DEVICE_CONNECTION_STRING, empty if it is not set.
unfoldable pub authentication : {Tr : Type 0} → Settings → Str → Outcome (ClientOption Tr)
authentication s cs =
    if not (is_blank s.tls_cert) && not (is_blank s.tls_key)
    then (if is_blank s.hostname
        then fail hostname_required
        else if is_blank s.device_id
        then fail device_id_required
        else ok (with_x509_from_file s.device_id s.hostname s.tls_cert s.tls_key))
    else if is_blank cs
    then fail no_connection_string
    else ok (with_connection_string cs)

-- The table of transports.
unfoldable pub make_transport : {Tr : Type 0} → Tr → Str → Outcome Tr
make_transport mqtt name =
    if str_eq name (codes "mqtt")
    then ok mqtt
    else if str_eq name (codes "amqp") || str_eq name (codes "http")
    then fail not_implemented
    else fail unknown_transport

module _ {World Twin Object Tr : Type 0} (load : Str → Str → Outcome (Unit {0})) (env_debug : Bool)
    (cs : Str) (mqtt : Tr) where
  -- The client, up to the call of NewClient.
  unfoldable pub open_client : Settings → Act World ((Creds × Tr × Bool) × Client World Twin Object)
  unfolding authentication make_transport new_client
  open_client s = do
    auth ← lift (authentication s cs)
    tr ← lift (make_transport mqtt s.transport)
    λ w.
        (w, new_client load env_debug (with_debug s.debug ∷ with_transport (some tr) ∷ auth ∷ []) w)

  left_world : {A : Type 0} → Client World Twin Object × Outcome A → World × Outcome A
  left_world (c, r) = (c.world, r)

  -- wrap: `port_of` is the transport over which the client with these credentials talks.
  unfoldable pub wrap :
      (Creds → Tr → Port World)
      → Settings
      → (Port World → Act (Client World Twin Object) (Unit {0}))
      → Act World (Unit {0})
  unfolding open_client left_world connect_client
  wrap port_of s fn = do
    ((creds, tr, debug), c) ← open_client s
    λ w. left_world ((connect_client (port_of creds tr) >> fn (port_of creds tr)) c)

module _ {World Twin Object : Type 0} (port : Port World) (console : Console World) (s : Settings)
    (b : Branch) where
  say : Str → Act (Client World Twin Object) (Unit {0})
  say line = run (λ c. record c { world = console.print line c.world })

  sent_with : Str → Dict Str → Act (Client World Twin Object) (Unit {0})
  unfolding send_event
  sent_with payload props = send_event port b (some payload) (
      with_send_properties props
      ∷ with_send_message_id s.mid
      ∷ with_send_correlation_id s.cid
      ∷ with_send_qos s.qos
      ∷ [])

  unfoldable pub send : List Str → Act (Client World Twin Object) (Unit {0})
  unfolding sent_with args_to_map
  send [] = lift (fail invalid_usage)
  send (payload ∷ []) = sent_with payload []
  send (payload ∷ word ∷ rest) = do
    props ← lift (args_to_map (word ∷ rest))
    sent_with payload props

  -- OutputJSON of each value; `marshal` is json.MarshalIndent, whose indent depends on its argument.
  output_all :
      {A : Type 0} → (Bool → A → Outcome Str) → List A → Act (Client World Twin Object) (Unit {0})
  unfolding say
  output_all marshal [] = pure tt
  output_all marshal (a ∷ l) = do line ← lift (marshal s.compress a); say line; output_all marshal l

  -- sub.Err()
  abbrev ending : Option Error → Act (Client World Twin Object) (Unit {0})
  ending none = pure tt
  ending (some e) = lift (fail e)

  -- `arrived` is what the subscription's channel yields until it is closed, with the error `err`.
  unfoldable pub watch_events :
      (Bool → Message → Outcome Str)
      → List Message
      → Option Error
      → List Str
      → Act (Client World Twin Object) (Unit {0})
  unfolding subscribe_events output_all
  watch_events marshal arrived err [] = do
    sub ← subscribe_events port b
    output_all marshal arrived
    ending err
  watch_events marshal arrived err (word ∷ words) = lift (fail invalid_usage)

  unfoldable pub watch_twin :
      (Bool → Twin → Outcome Str)
      → List Twin
      → Option Error
      → List Str
      → Act (Client World Twin Object) (Unit {0})
  unfolding subscribe_twin_updates output_all
  watch_twin marshal arrived err [] = do
    sub ← subscribe_twin_updates port b
    output_all marshal arrived
    ending err
  watch_twin marshal arrived err (word ∷ words) = lift (fail invalid_usage)

  unfoldable pub twin :
      {State : Type 0}
      → (Str → Outcome (State × State))
      → (State → Outcome Str)
      → Act (Client World Twin Object) (Unit {0})
  unfolding retrieve_twin_state say
  twin unmarshal marshal = do
    (desired, reported) ← retrieve_twin_state port unmarshal b
    d ← lift (marshal desired)
    say (codes "desired:  " ++ d)
    r ← lift (marshal reported)
    say (codes "reported: " ++ r)

  -- `marshal` is json.Marshal, and `show` is %d.
  unfoldable pub update_twin :
      (Dict (Option Str) → Outcome Str)
      → (ℤ → Str)
      → List Str
      → Act (Client World Twin Object) (Unit {0})
  unfolding args_to_map twin_state update_twin_state say
  update_twin marshal show [] = lift (fail invalid_usage)
  update_twin marshal show (word ∷ words) = do
    m ← lift (args_to_map (word ∷ words))
    ver ← update_twin_state port b (marshal (twin_state m))
    say (codes "version: " ++ show ver)
