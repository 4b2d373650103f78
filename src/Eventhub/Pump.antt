-- ===== src/Eventhub/Pump.antt =====
-- SubscribePartitions: one receiver for each partition with a goroutine of its own, and the loop that
-- hands the messages over until an error of a receiver. The goroutines and the loop share the channels
-- msgc and errc; what they do is taken in a given order. A goroutine closes its receiver only when its
-- own Receive fails, so none is closed where the function returns.
use iothub.Base.{
  ℕ, ltb, ◌==◌, Bool, true, false, List, [], ◌∷◌, ◌++◌, Option, none, some, Str, codes, length, ok,
  Error, if◌then◌else◌,
}
use iothub.Amqp.{AmqpMessage}
use iothub.Act.{Act, pure, ◌>>=◌}
use iothub.Eventhub.{Peer, get_partition_ids}

-- What a receiver's goroutine does: its Receive returns a message, which it accepts, or an error, which
-- goes to errc before the receiver is closed; or the message that it accepted goes into msgc.
pub data Pulling : Type 0 where
  received : ℕ → AmqpMessage → Pulling
  broken : ℕ → Error → Pulling
  queued : ℕ → Pulling

-- What happens while the loop runs: a goroutine acts, or the select takes from msgc or from errc.
pub data Event : Type 0 where
  pulls : Pulling → Event
  takes_message takes_error : Event

-- A goroutine that runs: its receiver, and the message that it has accepted and not yet sent to msgc.
pub record Puller : Type 0 where
  pub recv : ℕ
  pub holding : Option AmqpMessage

-- The goroutines and the channels, the messages that were handed over, and the error that ended the
-- loop: `none` while it waits.
pub record Pumped : Type 0 where
  pub pullers : List Puller
  pub msgc : List AmqpMessage
  pub errc : List Error
  pub handed : List AmqpMessage
  pub ended : Option Error

-- The time in milliseconds; what the goroutines do between the call that opens this receiver and the
-- next call; and what happens while the loop runs.
pub record Course : Type 0 where
  pub now : ℕ
  pub opened : ℕ → List Pulling
  pub events : List Event

unfoldable pub partition_address : Str → Str → Str → Str
partition_address name group id =
    codes "/" ++ (name ++ (codes "/ConsumerGroups/" ++ (group ++ (codes "/Partitions/" ++ id))))

-- The goroutine of this receiver, if it waits in Receive, with the message.
hold : ℕ → AmqpMessage → Puller → Option Puller
hold r m p =
    if p.recv == r
    then elim p.holding [ none ↦ some (record p { holding = some m }) | some other ↦ none ]
    else none

unfoldable pub held : ℕ → AmqpMessage → List Puller → Option (List Puller)
unfolding hold
held r m [] = none
held r m (p ∷ ps) = elim (hold r m p) [
  | some q ↦ some (q ∷ ps)
  | none ↦ elim (held r m ps) [ none ↦ none | some qs ↦ some (p ∷ qs) ]
]

-- The others, if the goroutine of this receiver waits in Receive.
unfoldable pub left_by : ℕ → List Puller → Option (List Puller)
left_by r [] = none
left_by r (p ∷ ps) =
    let rest : Option (List Puller) = elim (left_by r ps) [
      | none ↦ none
      | some qs ↦ some (p ∷ qs)
    ] in
    if p.recv == r then elim p.holding [ none ↦ some ps | some m ↦ rest ] else rest

-- The message that the goroutine of this receiver holds, and the goroutines without it.
unfoldable pub released : ℕ → List Puller → Option (AmqpMessage × List Puller)
released r [] = none
released r (p ∷ ps) =
    let rest : Option (AmqpMessage × List Puller) = elim (released r ps) [
      | none ↦ none
      | some (m, qs) ↦ some (m, p ∷ qs)
    ] in
    if p.recv == r
    then elim p.holding [ none ↦ rest | some m ↦ some (m, record p { holding = none } ∷ ps) ]
    else rest

unfoldable pub is_waiting : Pumped → Bool
is_waiting p = elim p.ended [ none ↦ true | some e ↦ false ]

abbrev pub nothing_pumped : Pumped
nothing_pumped = record { pullers = []; msgc = []; errc = []; handed = []; ended = none }

module _ {World : Type 0} (peer : Peer World) where
  -- One action of a goroutine; `room` is the capacity of msgc, and errc has room for every goroutine.
  unfoldable pub pull : ℕ → Pulling → World × Pumped → World × Pumped
  unfolding held left_by released
  pull room (received r m) (w, p) = elim (held r m p.pullers) [
    | none ↦ (w, p)
    | some ps ↦ (peer.accept m w, record p { pullers = ps })
  ]
  pull room (broken r e) (w, p) = elim (left_by r p.pullers) [
    | none ↦ (w, p)
    | some ps ↦ (peer.close_link r w, record p { pullers = ps; errc = p.errc ++ e ∷ [] })
  ]
  pull room (queued r) (w, p) = elim (released r p.pullers) [
    | none ↦ (w, p)
    | some (m, ps) ↦
        if ltb (length p.msgc) room
        then (w, record p { pullers = ps; msgc = p.msgc ++ m ∷ [] })
        else (w, p)
  ]

  unfoldable pub pull_all : ℕ → List Pulling → World × Pumped → World × Pumped
  unfolding pull
  pull_all room [] s = s
  pull_all room (a ∷ actions) s = pull_all room actions (pull room a s)

  -- A receiver that is refused ends the function; the goroutines that run are only told to stop.
  unfoldable pub open_receivers : ℕ → Course → ℕ → Str → Str → List Str → Pumped → Act World Pumped
  unfolding partition_address pull_all
  open_receivers room course sess name group [] p = pure p
  open_receivers room course sess name group (id ∷ ids) p = do
    r ← peer.new_receiver sess (record {
      source = partition_address name group id;
      target = [];
      selector = some course.now;
    })
    λ w.
        let (w', p') =
          pull_all room (course.opened r)
            (w, record p { pullers = p.pullers ++ record { recv = r; holding = none } ∷ [] }) in
        open_receivers room course sess name group ids p' w'

  -- The select: a message goes to the handler, an error ends the loop.
  take_message : List AmqpMessage → Pumped → Pumped
  take_message [] p = p
  take_message (m ∷ rest) p = record p { msgc = rest; handed = p.handed ++ m ∷ [] }

  take_error : List Error → Pumped → Pumped
  take_error [] p = p
  take_error (e ∷ rest) p = record p { errc = rest; ended = some e }

  unfoldable pub happen : ℕ → Event → World × Pumped → World × Pumped
  unfolding pull take_message take_error
  happen room (pulls a) s = pull room a s
  happen room takes_message (w, p) = (w, take_message p.msgc p)
  happen room takes_error (w, p) = (w, take_error p.errc p)

  -- The loop, up to its return.
  unfoldable pub pump : ℕ → List Event → World × Pumped → World × Pumped
  unfolding happen
  pump room [] s = s
  pump room (a ∷ events) s =
      let later = pump room events (happen room a s) in elim s.1.ended [ none ↦ later | some e ↦ s ]

  -- Once it returns, the goroutines that `pullers` lists still run.
  unfoldable pub subscribe_partitions : Course → ℕ → Str → Str → Act World Pumped
  unfolding get_partition_ids open_receivers pump
  subscribe_partitions course sess name group = do
    ids ← get_partition_ids peer sess name
    p ← open_receivers (length ids) course sess name group ids nothing_pumped
    λ w. let (w', p') = pump (length ids) course.events (w, p) in (w', ok p')
