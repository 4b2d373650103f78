-- ===== src/Mqtt/Port.antt =====
-- iotdevice/transport/mqtt/mqtt.go as the transport of the device client: New with its options, and
-- the methods of transport.Transport, as the record Port. A request waits between its two parts;
-- `pause` is what the callbacks do to the transport meanwhile, and what ends the wait.
pub mod Laws
mod Tests
use iothub.Base.{ℕ, Bool, true, false, List, [], ◌∷◌, none, Str, Outcome, ok, fail, panic}
use iothub.Base.Int.{ℤ}
use iothub.Creds.{Creds, device_id}
use iothub.Message.{Message}
use iothub.Device.Client.{Port}
use iothub.Mqtt.Transport.{
  Broker, Transport, Ran, sub_events, sub_twin_updates, sub_direct_methods, sub, connect_transport,
  close,
}
use iothub.Mqtt.Requests.{Wake}
use iothub.Mqtt.Sending.{send_message}
use iothub.Mqtt.Callbacks.{begin_retrieve, finish_retrieve, begin_update, finish_update}

-- TransportOption; a logger is there or is nil.
pub data TransportOption : Type 0 where
  with_logger : Bool → TransportOption
  with_debug : Bool → TransportOption

module _ {World : Type 0} where
  unfoldable pub apply_option : TransportOption → Transport World → Transport World
  apply_option (with_logger l) tr = record tr { has_logger = l }
  apply_option (with_debug enable) tr = record tr { debug = enable }

  unfoldable pub apply_options : List TransportOption → Transport World → Transport World
  unfolding apply_option
  apply_options [] tr = tr
  apply_options (opt ∷ opts) tr = apply_options opts (apply_option opt tr)

  -- New
  unfoldable pub new : List TransportOption → World → Transport World
  unfolding apply_options
  new opts w = apply_options opts (record {
    connected = false;
    did = [];
    rid = 0;
    subs = [];
    done = false;
    resp = none;
    has_logger = false;
    debug = false;
    world = w;
  })

module _ {World : Type 0} (broker : Broker World) where
  unfoldable pub subscribe_events : Transport World → Ran World (Unit {0})
  unfolding sub
  subscribe_events tr = sub broker sub_events tr

  unfoldable pub subscribe_twin_updates : Transport World → Ran World (Unit {0})
  unfolding sub
  subscribe_twin_updates tr = sub broker sub_twin_updates tr

  unfoldable pub register_direct_methods : Transport World → Ran World (Unit {0})
  unfolding sub
  register_direct_methods tr = sub broker sub_direct_methods tr

module _ {World : Type 0} (pause : ℕ → Transport World → Transport World × Wake) where
  -- The second part of a request, if the first one passed.
  pub waited : {A : Type 0} → (ℕ → Wake → Transport World → Ran World A) → Ran World ℕ → Ran World A
  waited finish (tr, ok rid) = let (tr', wake) = pause rid tr in finish rid wake tr'
  waited finish (tr, fail e) = (tr, fail e)
  waited finish (tr, panic) = (tr, panic)

  module _ (broker : Broker World) where
    unfoldable pub retrieve_twin_properties : Transport World → Ran World Str
    unfolding waited begin_retrieve finish_retrieve
    retrieve_twin_properties tr = waited finish_retrieve (begin_retrieve broker tr)

    unfoldable pub update_twin_properties : Str → Transport World → Ran World ℤ
    unfolding waited begin_update finish_update
    update_twin_properties b tr = waited finish_update (begin_update broker b tr)

    -- The transport with these credentials, behind the interface.
    unfoldable pub mqtt_port : (ℤ → Str) → Creds → Port (Transport World)
    unfolding subscribe_events subscribe_twin_updates register_direct_methods
        retrieve_twin_properties update_twin_properties send_message connect_transport close
        device_id
    mqtt_port format_time creds = record {
      connect = connect_transport broker (device_id creds);
      subscribe_events = subscribe_events broker;
      subscribe_twin_updates = subscribe_twin_updates broker;
      register_direct_methods = register_direct_methods broker;
      retrieve_twin_properties = retrieve_twin_properties;
      update_twin_properties = update_twin_properties;
      send = send_message format_time broker;
      close = close broker;
    }
