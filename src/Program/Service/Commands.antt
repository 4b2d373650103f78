-- ===== src/Program/Service/Commands.antt =====
-- cmd/iothub-service/main.go: the commands. Each takes the words behind its flags.
use iothub.Base.{
  ℕ, Bool, List, [], ◌∷◌, Option, none, some, Str, codes, is_blank, Dict, Outcome, ok, fail, panic,
  Error, if◌then◌else◌,
}
use iothub.Base.Int.{ℤ, pos, int_eq, ◌+ℤ◌}
use iothub.Message.{Message, Time, zero_time, at}
use iothub.Act.{Act, lift, pure, ◌>>=◌}
use iothub.Cli.{args_to_map}
use iothub.Amqp.{AmqpMessage, from_amqp_message}
use iothub.Eventhub.{dial_client}
use iothub.Eventhub.Pump.{Course, Pumped, subscribe_partitions}
use iothub.Service.{
  Authentication, Device, device_connection_string, device_sas, with_send_message_id, with_send_ack,
  with_send_properties, with_send_user_id, with_send_correlation_id, with_sent_expiry_time,
}
use iothub.Service.Rest.{Http}
use iothub.Service.Rest.Registry as Registry
use iothub.Service.Rest.Registry.{Call, with_call_connect_timeout, with_call_response_timeout}
use iothub.Service.Connect as Connect
use iothub.Service.Connect.{Client}
use iothub.Service.Feedback as Feedback
use iothub.Service.Feedback.{Watched}
use iothub.Service.New.{new_symmetric_key}
use iothub.Service.Sending.{send_event}
use iothub.Program.Device.{twin_state}
use iothub.Program.Service.{
  Settings, Env, Codec, mk_authentication, State, Handler, outside, invalid, no_words, one_word,
  output_line, output_json, rest_of, fetch,
}

-- What a subscription came to: its error, or none while it runs.
abbrev ending : Option Error → Outcome (Unit {0})
ending none = ok tt
ending (some e) = fail e

-- The expiry time of a message that lives for `exp`; none was asked for by 0.
unfoldable pub expiry_time : ℤ → ℤ → Time
expiry_time clock exp = if int_eq exp (pos 0) then zero_time else at (clock +ℤ exp)

-- What the handler of a subscription does with a message: the error goes to `errc`, which nothing
-- reads as long as the subscription runs.
unfoldable pub on_message :
    {World V : Type 0} → Env World → Settings → Codec V → V → World → World × Option Error
unfolding output_json
on_message env s codec v w =
    let (w', r) = output_json env s codec v w in
    (w', elim r [ ok u ↦ none | fail e ↦ some e | panic ↦ none ])

-- The handler of a custom event hub panics on an error.
panicking : {World : Type 0} → World × Outcome (Unit {0}) → World × Outcome (Unit {0})
panicking (w, ok u) = (w, ok u)
panicking (w, fail e) = (w, panic)
panicking (w, panic) = (w, panic)

unfoldable pub on_hub_message :
    {World : Type 0} → Env World → Settings → Codec Message → AmqpMessage → Act World (Unit {0})
unfolding panicking output_json from_amqp_message
on_hub_message env s codec m w =
    panicking ((lift (from_amqp_message m) >>= output_json env s codec) w)

module _ {World : Type 0} (env : Env World) (http : Http World) (s : Settings) where
  unfoldable pub device : Codec Device → Handler World
  unfolding one_word fetch Registry.get_device
  device codec =
      one_word
        (λ id. fetch env http s codec (λ rest. Registry.get_device rest codec.decode codec.zero id))

  unfoldable pub devices : Codec (List Device) → Handler World
  unfolding no_words fetch Registry.list_devices
  devices codec =
      no_words (fetch env http s codec (λ rest. Registry.list_devices rest codec.decode codec.zero))

  new_key : Act (State World) Str
  unfolding new_symmetric_key
  new_key = outside (λ c. new_symmetric_key env.crypto env.peer)

  -- The keys of the flags, or two new ones.
  with_keys : Act (State World) Settings
  unfolding new_key
  with_keys =
      if s.auto_generate
      then (do
        primary ← new_key
        secondary ← new_key
        pure (record s { primary_key = primary; secondary_key = secondary }))
      else pure s

  named : Str → Authentication → Device
  named id a = record { device_id = id; authentication = some a }

  unfoldable pub create_device : (Device → Outcome Str) → Codec Device → Handler World
  unfolding one_word with_keys mk_authentication named fetch Registry.create_device
  create_device marshal codec = one_word (λ id. do
    keyed ← with_keys
    a ← lift (mk_authentication keyed)
    fetch env http s codec
        (λ rest. Registry.create_device rest codec.decode codec.zero marshal (some (named id a))))

  unfoldable pub update_device : (Device → Outcome Str) → Codec Device → Handler World
  unfolding one_word mk_authentication named fetch Registry.update_device
  update_device marshal codec = one_word (λ id. do
    a ← lift (mk_authentication s)
    fetch env http s codec
        (λ rest. Registry.update_device rest codec.decode codec.zero marshal (some (named id a))))

  unfoldable pub delete_device : Handler World
  unfolding one_word Registry.delete_device
  delete_device = one_word (λ id. outside (λ c. Registry.delete_device (rest_of env http c) id))

  unfoldable pub stats : {V : Type 0} → Codec V → Handler World
  unfolding no_words fetch Registry.stats
  stats codec =
      no_words (fetch env http s codec (λ rest. Registry.stats rest codec.decode codec.zero))

  unfoldable pub twin : {V : Type 0} → Codec V → Handler World
  unfolding one_word fetch Registry.get_twin
  twin codec =
      one_word
        (λ id. fetch env http s codec (λ rest. Registry.get_twin rest codec.decode codec.zero id))

  -- `marshal` is json.Marshal of a twin with these desired properties, where `none` is null.
  unfoldable pub update_twin :
      {V : Type 0} → (Dict (Option Str) → Outcome Str) → Codec V → Handler World
  unfolding args_to_map twin_state fetch Registry.update_twin
  update_twin marshal codec [] = invalid
  update_twin marshal codec (id ∷ []) = invalid
  update_twin marshal codec (id ∷ word ∷ []) = invalid
  update_twin marshal codec (id ∷ word ∷ other ∷ words) = do
    m ← lift (args_to_map (word ∷ other ∷ words))
    fetch env http s codec (λ rest.
        Registry.update_twin rest codec.decode codec.zero id (some (marshal (twin_state m)))
          (codes "*"))

  called :
      {Object V : Type 0}
      → (Object → Bool)
      → (Call Object → Outcome Str)
      → Codec V
      → Str
      → Str
      → Object
      → Act (State World) (Unit {0})
  unfolding fetch Registry.call_method
  called is_empty marshal codec id method payload = fetch env http s codec (λ rest.
      Registry.call_method rest codec.decode codec.zero is_empty marshal id method payload (
        with_call_connect_timeout s.connect_timeout
        ∷ with_call_response_timeout s.response_timeout
        ∷ []))

  -- `unmarshal` is json.Unmarshal into a map.
  unfoldable pub call :
      {Object V : Type 0}
      → (Str → Outcome Object)
      → (Object → Bool)
      → (Call Object → Outcome Str)
      → Codec V
      → Handler World
  unfolding called
  call unmarshal is_empty marshal codec (id ∷ method ∷ payload ∷ []) = do
    v ← lift (unmarshal payload)
    called is_empty marshal codec id method v
  call unmarshal is_empty marshal codec [] = invalid
  call unmarshal is_empty marshal codec (id ∷ []) = invalid
  call unmarshal is_empty marshal codec (id ∷ method ∷ []) = invalid
  call unmarshal is_empty marshal codec (id ∷ method ∷ payload ∷ word ∷ words) = invalid

  sent_with : Str → Str → Dict Str → Act (State World) (Unit {0})
  unfolding send_event expiry_time
  sent_with id payload props (c, w) =
      send_event env.peer env.crypto env.clock id (some payload)
        (with_send_message_id s.mid
          ∷ with_send_ack s.ack
          ∷ with_send_properties props
          ∷ with_send_user_id s.uid
          ∷ with_send_correlation_id s.cid
          ∷ with_sent_expiry_time (expiry_time env.clock s.exp)
          ∷ [])
        c w

  unfoldable pub send : Handler World
  unfolding sent_with args_to_map
  send [] = invalid
  send (id ∷ []) = invalid
  send (id ∷ payload ∷ []) = sent_with id payload []
  send (id ∷ payload ∷ word ∷ words) = do
    props ← lift (args_to_map (word ∷ words))
    sent_with id payload props

  pumped : Client → World × Outcome Pumped → State World × Outcome (Unit {0})
  pumped c (w, ok p) = ((c, w), ending p.ended)
  pumped c (w, fail e) = ((c, w), fail e)
  pumped c (w, panic) = ((c, w), panic)

  -- A custom event hub: `parse` is url.Parse with the path trimmed and the address without it. The
  -- connection is left open.
  custom_hub : Course → Str → Str → Act World Pumped
  unfolding dial_client subscribe_partitions
  custom_hub course name address = do
    eh ← dial_client env.peer address
    subscribe_partitions env.peer course eh.sess name s.ehcg

  -- `course` is what the receivers and the loop do in turn.
  unfoldable pub watch_events : (Str → Outcome (Str × Str)) → Course → Handler World
  unfolding no_words pumped custom_hub Connect.subscribe_events
  watch_events parse course = no_words (λ (c, w). pumped c (
      if is_blank s.ehcs
      then Connect.subscribe_events env.peer env.crypto env.clock course c.creds w
      else (lift (parse s.ehcs) >>= λ (name, address). custom_hub course name address) w))

  watched :
      {Feedback : Type 0}
      → State World × Outcome (Watched Feedback)
      → State World × Outcome (Unit {0})
  watched (cw, ok r) = (cw, ending r.ended)
  watched (cw, fail e) = (cw, fail e)
  watched (cw, panic) = (cw, panic)

  -- `returning` calls of Receive return.
  unfoldable pub watch_feedback :
      {Feedback : Type 0} → (Str → Outcome (List Feedback)) → ℕ → Handler World
  unfolding no_words watched Feedback.subscribe_feedback
  watch_feedback unmarshal returning = no_words (λ (c, w).
      watched (Feedback.subscribe_feedback env.peer unmarshal env.crypto env.clock returning c w))

  unfoldable pub jobs : {V : Type 0} → Codec V → Handler World
  unfolding no_words fetch Registry.list_jobs
  jobs codec =
      no_words (fetch env http s codec (λ rest. Registry.list_jobs rest codec.decode codec.zero))

  unfoldable pub job : {V : Type 0} → Codec V → Handler World
  unfolding one_word fetch Registry.get_job
  job codec =
      one_word
        (λ id. fetch env http s codec (λ rest. Registry.get_job rest codec.decode codec.zero id))

  unfoldable pub cancel_job : {V : Type 0} → Codec V → Handler World
  unfolding one_word fetch Registry.cancel_job
  cancel_job codec =
      one_word
        (λ id. fetch env http s codec (λ rest. Registry.cancel_job rest codec.decode codec.zero id))

  -- The device, as the hub has it.
  found : Codec Device → Str → Act (State World) Device
  unfolding Registry.get_device
  found codec id =
      outside (λ c. Registry.get_device (rest_of env http c) codec.decode codec.zero id)

  unfoldable pub connection_string : Codec Device → Handler World
  unfolding one_word found device_connection_string output_line
  connection_string codec = one_word (λ id. do
    d ← found codec id
    outside (λ c w.
        (lift (device_connection_string c.creds (some d) s.secondary) >>= output_line env) w))

  unfoldable pub sas : Codec Device → Handler World
  unfolding one_word found device_sas output_line
  sas codec = one_word (λ id. do
    d ← found codec id
    outside (λ c w.
        (lift (device_sas env.crypto env.clock c.creds (some d) s.duration s.secondary)
            >>= output_line env)
          w))
