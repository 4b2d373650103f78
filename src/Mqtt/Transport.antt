-- ===== src/Mqtt/Transport.antt =====
-- iotdevice/transport/mqtt/mqtt.go: the transport's state, its connection and its subscriptions.
-- The MQTT library is an argument, `Broker`: an operation ends when its token does, or fails with
-- the token's or the context's error. `World` is what the library and the hub keep.
pub mod Laws
use iothub.Base.{
  ℕ, ◌+◌, Bool, true, false, List, [], ◌∷◌, ◌++◌, Option, none, some, Str, codes, Outcome, ok, fail,
  panic, Error, already_connected, not_connected, if◌then◌else◌, not, ◌&&◌,
}
use iothub.Base.Int.{ℤ}
use iothub.Mqtt.Topics.{devicebound_topic}

pub record Broker (World : Type 0) : Type 0 where
  pub connect : Str → World → World × Outcome (Unit {0})
  pub subscribe : Str → World → World × Outcome (Unit {0})
  pub publish : Str → ℕ → Str → World → World × Outcome (Unit {0})
  pub is_connected : World → Bool
  pub disconnect : World → World

-- A `subFunc`, by the method that makes it.
pub data SubFunc : Type 0 where
  sub_events sub_twin_updates sub_direct_methods sub_twin_responses : SubFunc

-- `resp`; the version is that of twin responses.
pub record Response : Type 0 where
  pub code : ℤ
  pub body : Str
  pub ver : ℤ

-- A waiting request: its id and what its channel was sent, the oldest first.
pub record Waiting : Type 0 where
  pub rid : ℕ
  pub received : List Response

pub record Transport (World : Type 0) : Type 0 where
  pub connected : Bool
  pub did : Str
  pub rid : ℕ
  pub subs : List SubFunc
  pub done : Bool
  pub resp : Option (List Waiting)
  pub has_logger : Bool
  pub debug : Bool
  pub world : World

-- What an operation leaves and returns.
abbrev pub Ran : Type 0 → Type 0 → Type 0
Ran World A = Transport World × Outcome A

module _ {World : Type 0} (broker : Broker World) where
  open broker use {connect, subscribe, publish, is_connected, disconnect}

  abbrev pub topic_of : Transport World → SubFunc → Str
  topic_of tr sub_events = devicebound_topic tr.did
  topic_of tr sub_twin_updates = codes "$iothub/twin/PATCH/properties/desired/#"
  topic_of tr sub_direct_methods = codes "$iothub/methods/POST/#"
  topic_of tr sub_twin_responses = codes "$iothub/twin/res/#"

  -- A call of a `subFunc`, which panics where there is no connection yet.
  unfoldable pub run_sub : SubFunc → Transport World → Ran World (Unit {0})
  run_sub f tr =
      if tr.connected
      then (let (w, r) = subscribe (topic_of tr f) tr.world in (record tr { world = w }, r))
      else (tr, panic)

  remember : SubFunc → Ran World (Unit {0}) → Ran World (Unit {0})
  remember f (tr, ok u) = (record tr { subs = tr.subs ++ f ∷ [] }, ok u)
  remember f (tr, fail e) = (tr, fail e)
  remember f (tr, panic) = (tr, panic)

  -- `sub`: run it, and keep it for reconnects if that passed.
  unfoldable pub sub : SubFunc → Transport World → Ran World (Unit {0})
  unfolding run_sub remember
  sub f tr = remember f (run_sub f tr)

  log_failure : Ran World (Unit {0}) → Ran World (Unit {0})
  log_failure (tr, ok u) = (tr, ok u)
  log_failure (tr, fail e) = if tr.has_logger then (tr, ok tt) else (tr, panic)
  log_failure (tr, panic) = (tr, panic)

  resume :
      List SubFunc
      → (Transport World → Ran World (Unit {0}))
      → Ran World (Unit {0})
      → Ran World (Unit {0})
  resume fs rest (tr, ok u) = rest tr
  resume fs rest (tr, fail e) = (tr, fail e)
  resume fs rest (tr, panic) = (tr, panic)

  -- The handler of a new connection: every subscription again; a failure goes to `tr.logger`, whose
  -- call panics where no logger was set.
  unfoldable pub resubscribe : List SubFunc → Transport World → Ran World (Unit {0})
  unfolding run_sub log_failure resume
  resubscribe [] tr = (tr, ok tt)
  resubscribe (f ∷ fs) tr = resume fs (resubscribe fs) (log_failure (run_sub f tr))

  unfoldable pub on_connect : Transport World → Ran World (Unit {0})
  unfolding resubscribe
  on_connect tr = resubscribe tr.subs tr

  opened : Str → Transport World → World × Outcome (Unit {0}) → Ran World (Unit {0})
  opened did tr (w, ok u) = (record tr { world = w; did = did; connected = true }, ok u)
  opened did tr (w, fail e) = (record tr { world = w }, fail e)
  opened did tr (w, panic) = (record tr { world = w }, panic)

  -- Connect, with the device's id.
  unfoldable pub connect_transport : Str → Transport World → Ran World (Unit {0})
  unfolding opened
  connect_transport did tr =
      if tr.connected then (tr, fail already_connected) else opened did tr (connect did tr.world)

  -- `send`
  unfoldable pub send : Str → ℕ → Str → Transport World → Ran World (Unit {0})
  send topic qos b tr =
      if tr.connected
      then (let (w, r) = publish topic qos b tr.world in (record tr { world = w }, r))
      else (tr, fail not_connected)

  -- Close, which is done once.
  unfoldable pub close : Transport World → Ran World (Unit {0})
  close tr =
      if tr.done
      then (tr, ok tt)
      else if tr.connected && is_connected tr.world
      then (record tr { done = true; world = disconnect tr.world }, ok tt)
      else (record tr { done = true }, ok tt)
