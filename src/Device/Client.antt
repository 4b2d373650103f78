-- ===== src/Device/Client.antt =====
-- iotdevice/client.go: the device client, over the transport that it is given. The interface
-- transport.Transport is `Port`; `World` is what the transport keeps.
pub mod Laws
mod Tests
use iothub.Base.{
  ℕ, Bool, true, false, List, [], ◌∷◌, Option, none, some, Str, codes, is_blank, insert, Dict,
  Outcome, ok, fail, panic, Error, closed, already_connected, blank_name, nil_payload,
  credentials_required, transport_required, if◌then◌else◌,
}
use iothub.Base.Int.{ℤ}
use iothub.Message.{Message, TransportOption, int, empty_message}
use iothub.Device.Once.{once, Run}
use iothub.Device.Mux as Fan
use iothub.Device.Mux.{Mux, subscribe, unsub}
use iothub.Device.Methods.{MethodMux, Handler, handle, remove}

pub record Port (World : Type 0) : Type 0 where
  pub connect : World → World × Outcome (Unit {0})
  pub subscribe_events : World → World × Outcome (Unit {0})
  pub subscribe_twin_updates : World → World × Outcome (Unit {0})
  pub register_direct_methods : World → World × Outcome (Unit {0})
  pub retrieve_twin_properties : World → World × Outcome Str
  pub update_twin_properties : Str → World → World × Outcome ℤ
  pub send : Message → World → World × Outcome (Unit {0})
  pub close : World → World × Outcome (Unit {0})

-- The channels `ready` and `done` are closed or not; each `_on` is the flag of its dispatcher's once.
pub record Client (World Twin Object : Type 0) : Type 0 where
  pub ready : Bool
  pub done : Bool
  pub events_on : Bool
  pub events : Mux Message
  pub twins_on : Bool
  pub twins : Mux Twin
  pub methods_on : Bool
  pub methods : MethodMux Object
  pub world : World

-- The branch that the `select` of checkConnection takes.
pub data Branch : Type 0 where
  connected : Branch
  finished : Branch
  cancelled : Error → Branch

unfoldable pub check_connection : Branch → Outcome (Unit {0})
check_connection connected = ok tt
check_connection finished = fail closed
check_connection (cancelled e) = fail e

pub data SendOption : Type 0 where
  with_send_qos : ℤ → SendOption
  with_send_message_id : Str → SendOption
  with_send_correlation_id : Str → SendOption
  with_send_property : Str → Str → SendOption
  with_send_properties : Dict Str → SendOption

unfoldable pub add_all : Dict Str → Dict Str → Dict Str
add_all [] m = m
add_all ((k, v) ∷ p) m = add_all p (insert k v m)

unfoldable pub apply_option : SendOption → Message → Message
unfolding add_all
apply_option (with_send_qos q) msg = record msg {
  transport_options = insert (codes "qos") (int q) msg.transport_options;
}
apply_option (with_send_message_id mid) msg = record msg { message_id = mid }
apply_option (with_send_correlation_id cid) msg = record msg { correlation_id = cid }
apply_option (with_send_property k v) msg = record msg { properties = insert k v msg.properties }
apply_option (with_send_properties m) msg = record msg { properties = add_all m msg.properties }

unfoldable pub apply_options : List SendOption → Message → Message
unfolding apply_option
apply_options [] msg = msg
apply_options (o ∷ os) msg = apply_options os (apply_option o msg)

module _ {World Twin Object : Type 0} (port : Port World) where
  connect_settled :
      Client World Twin Object
      → World × Outcome (Unit {0})
      → Client World Twin Object × Outcome (Unit {0})
  connect_settled c (w, ok u) = (record c { ready = true; world = w }, ok u)
  connect_settled c (w, fail e) = (record c { world = w }, fail e)
  connect_settled c (w, panic) = (record c { world = w }, panic)

  unfoldable pub connect_client :
      Client World Twin Object → Client World Twin Object × Outcome (Unit {0})
  unfolding connect_settled
  connect_client c =
      if c.ready then (c, fail already_connected) else connect_settled c (port.connect c.world)

  events_settled :
      Client World Twin Object → Outcome (Unit {0}) → Client World Twin Object × Outcome ℕ
  unfolding subscribe
  events_settled c (ok u) =
      (record c { events = (subscribe c.events).0 }, ok (subscribe c.events).1)
  events_settled c (fail e) = (c, fail e)
  events_settled c panic = (c, panic)

  events_enabled : Client World Twin Object → Run World → Client World Twin Object × Outcome ℕ
  unfolding events_settled
  events_enabled c r = events_settled (record c { events_on = r.on; world = r.world }) r.result

  events_checked :
      Client World Twin Object → Outcome (Unit {0}) → Client World Twin Object × Outcome ℕ
  unfolding events_enabled once
  events_checked c (ok u) = events_enabled c (once c.events_on port.subscribe_events c.world)
  events_checked c (fail e) = (c, fail e)
  events_checked c panic = (c, panic)

  unfoldable pub subscribe_events :
      Branch → Client World Twin Object → Client World Twin Object × Outcome ℕ
  unfolding events_checked check_connection
  subscribe_events b c = events_checked c (check_connection b)

  unfoldable pub unsubscribe_events : ℕ → Client World Twin Object → Client World Twin Object
  unfolding unsub
  unsubscribe_events s c = record c { events = unsub s c.events }

  twins_settled :
      Client World Twin Object → Outcome (Unit {0}) → Client World Twin Object × Outcome ℕ
  unfolding subscribe
  twins_settled c (ok u) = (record c { twins = (subscribe c.twins).0 }, ok (subscribe c.twins).1)
  twins_settled c (fail e) = (c, fail e)
  twins_settled c panic = (c, panic)

  twins_enabled : Client World Twin Object → Run World → Client World Twin Object × Outcome ℕ
  unfolding twins_settled
  twins_enabled c r = twins_settled (record c { twins_on = r.on; world = r.world }) r.result

  twins_checked :
      Client World Twin Object → Outcome (Unit {0}) → Client World Twin Object × Outcome ℕ
  unfolding twins_enabled once
  twins_checked c (ok u) = twins_enabled c (once c.twins_on port.subscribe_twin_updates c.world)
  twins_checked c (fail e) = (c, fail e)
  twins_checked c panic = (c, panic)

  unfoldable pub subscribe_twin_updates :
      Branch → Client World Twin Object → Client World Twin Object × Outcome ℕ
  unfolding twins_checked check_connection
  subscribe_twin_updates b c = twins_checked c (check_connection b)

  unfoldable pub unsubscribe_twin_updates : ℕ → Client World Twin Object → Client World Twin Object
  unfolding unsub
  unsubscribe_twin_updates s c = record c { twins = unsub s c.twins }

  method_settled :
      Str
      → Option (Handler Object)
      → Client World Twin Object
      → Outcome (Unit {0})
      → Client World Twin Object × Outcome (Unit {0})
  unfolding handle
  method_settled name f c (ok u) =
      (record c { methods = (handle name f c.methods).0 }, (handle name f c.methods).1)
  method_settled name f c (fail e) = (c, fail e)
  method_settled name f c panic = (c, panic)

  method_enabled :
      Str
      → Option (Handler Object)
      → Client World Twin Object
      → Run World
      → Client World Twin Object × Outcome (Unit {0})
  unfolding method_settled
  method_enabled name f c r =
      method_settled name f (record c { methods_on = r.on; world = r.world }) r.result

  method_checked :
      Str
      → Option (Handler Object)
      → Client World Twin Object
      → Outcome (Unit {0})
      → Client World Twin Object × Outcome (Unit {0})
  unfolding method_enabled once
  method_checked name f c (ok u) =
      if is_blank name
      then (c, fail blank_name)
      else method_enabled name f c (once c.methods_on port.register_direct_methods c.world)
  method_checked name f c (fail e) = (c, fail e)
  method_checked name f c panic = (c, panic)

  unfoldable pub register_method :
      Branch
      → Str
      → Option (Handler Object)
      → Client World Twin Object
      → Client World Twin Object × Outcome (Unit {0})
  unfolding method_checked check_connection
  register_method b name f c = method_checked name f c (check_connection b)

  unfoldable pub unregister_method : Str → Client World Twin Object → Client World Twin Object
  unfolding remove
  unregister_method name c = record c { methods = remove name c.methods }

  unfoldable pub event_checked :
      Option Str
      → List SendOption
      → Client World Twin Object
      → Outcome (Unit {0})
      → Client World Twin Object × Outcome (Unit {0})
  unfolding apply_options
  event_checked none opts c (ok u) = (c, fail nil_payload)
  event_checked (some payload) opts c (ok u) =
      let (w, r) =
        port.send (apply_options opts (record empty_message { payload = payload })) c.world in
      (record c { world = w }, r)
  event_checked payload opts c (fail e) = (c, fail e)
  event_checked payload opts c panic = (c, panic)

  -- SendEvent; a nil payload is `none`.
  unfoldable pub send_event :
      Branch
      → Option Str
      → List SendOption
      → Client World Twin Object
      → Client World Twin Object × Outcome (Unit {0})
  unfolding event_checked check_connection
  send_event b payload opts c = event_checked payload opts c (check_connection b)

  closed_port :
      Client World Twin Object
      → World × Outcome (Unit {0})
      → Client World Twin Object × Outcome (Unit {0})
  closed_port c (w, r) = (record c { world = w }, r)

  closed_twins :
      Client World Twin Object → Outcome (Mux Twin) → Client World Twin Object × Outcome (Unit {0})
  unfolding closed_port
  closed_twins c (ok m) = closed_port (record c { twins = m }) (port.close c.world)
  closed_twins c (fail e) = (c, fail e)
  closed_twins c panic = (c, panic)

  closed_events :
      Client World Twin Object
      → Outcome (Mux Message)
      → Client World Twin Object × Outcome (Unit {0})
  unfolding closed_twins Fan.close
  closed_events c (ok m) =
      closed_twins (record c { events = m }) (Fan.close (record c.twins { done = true }))
  closed_events c (fail e) = (c, fail e)
  closed_events c panic = (c, panic)

  -- Close: the `done` channel is also that of both dispatchers.
  unfoldable pub close_client :
      Client World Twin Object → Client World Twin Object × Outcome (Unit {0})
  unfolding closed_events Fan.close
  close_client c =
      if c.done
      then (c, ok tt)
      else closed_events (record c { done = true }) (Fan.close (record c.events { done = true }))

  module _ {State : Type 0} (unmarshal_states : Str → Outcome (State × State)) where
    states_read :
        Client World Twin Object
        → World × Outcome Str
        → Client World Twin Object × Outcome (State × State)
    states_read c (w, ok b) = (record c { world = w }, unmarshal_states b)
    states_read c (w, fail e) = (record c { world = w }, fail e)
    states_read c (w, panic) = (record c { world = w }, panic)

    states_checked :
        Client World Twin Object
        → Outcome (Unit {0})
        → Client World Twin Object × Outcome (State × State)
    unfolding states_read
    states_checked c (ok u) = states_read c (port.retrieve_twin_properties c.world)
    states_checked c (fail e) = (c, fail e)
    states_checked c panic = (c, panic)

    -- The desired and the reported state.
    unfoldable pub retrieve_twin_state :
        Branch → Client World Twin Object → Client World Twin Object × Outcome (State × State)
    unfolding states_checked check_connection
    retrieve_twin_state b c = states_checked c (check_connection b)

  state_sent : Client World Twin Object → Outcome Str → Client World Twin Object × Outcome ℤ
  state_sent c (ok b) =
      let (w, r) = port.update_twin_properties b c.world in (record c { world = w }, r)
  state_sent c (fail e) = (c, fail e)
  state_sent c panic = (c, panic)

  state_checked :
      Client World Twin Object
      → Outcome Str
      → Outcome (Unit {0})
      → Client World Twin Object × Outcome ℤ
  unfolding state_sent
  state_checked c body (ok u) = state_sent c body
  state_checked c body (fail e) = (c, fail e)
  state_checked c body panic = (c, panic)

  -- `body` is json.Marshal(s).
  unfoldable pub update_twin_state :
      Branch → Outcome Str → Client World Twin Object → Client World Twin Object × Outcome ℤ
  unfolding state_checked check_connection
  update_twin_state b body c = state_checked c body (check_connection b)
