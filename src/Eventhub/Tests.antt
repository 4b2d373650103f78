-- ===== src/Eventhub/Tests.antt =====
-- A broker that counts its links and answers every request, and each property at it.
use iothub.Base.{
  ℕ, ◌+◌, ◌-◌, ◌≡◌, refl, ap, [], ◌∷◌, none, some, Str, codes, length, ok, external, str_eq, lookup,
}
use iothub.Base.Int.{pos}
use iothub.Message.{zero_time}
use iothub.Amqp.{AmqpMessage, text, int32, strings, table}
use iothub.Eventhub.{no_detach, Peer, rand_string}
use iothub.Eventhub.Answers.{Answers}
use iothub.Eventhub.Random.{AreHex, rand_string_bounds}
use iothub.Eventhub.Pump.{
  Course, received, broken, queued, pulls, takes_message, takes_error, subscribe_partitions,
}

abbrev sixteen_zeros : Str
sixteen_zeros = 0 ∷ 0 ∷ 0 ∷ 0 ∷ 0 ∷ 0 ∷ 0 ∷ 0 ∷ 0 ∷ 0 ∷ 0 ∷ 0 ∷ 0 ∷ 0 ∷ 0 ∷ 0 ∷ []

abbrev answer : AmqpMessage
answer = record {
  data_parts = [];
  value = table ((codes "partition_ids", strings (codes "0" ∷ codes "1" ∷ []) []) ∷ []);
  properties = some (record {
    to = [];
    reply_to = [];
    user_id = [];
    message_id = none;
    correlation_id = some (text (codes "00000000000000000000000000000000"));
    absolute_expiry_time = zero_time;
  });
  annotations = [];
  application_properties = (codes "status-code", int32 (pos 200) (codes "200")) ∷ [];
}

abbrev broker : Peer ℕ
broker = record {
  random = λ n w. (w, ok sixteen_zeros);
  dial = λ a u w. (w, ok 1);
  detach = λ e. no_detach;
  new_session = λ c w. (w, ok 1);
  new_sender = λ s o w. (w + 1, ok w);
  new_receiver = λ s o w. (w + 1, ok w);
  send = λ l m w. (w, ok tt);
  receive = λ l w. (w, ok answer);
  accept = λ m w. w;
  close_link = λ l w. w - 1;
  close_session = λ s w. (w, ok tt);
  close_connection = λ c w. (w, ok tt);
}

rand_of_broker : (rand_string broker 0).1 ≡ ok (codes "00000000000000000000000000000000")
unfolding rand_string
rand_of_broker = refl

rand_string_bounds_example :
    (◌≡◌ {A = ℕ} (length (codes "00000000000000000000000000000000")) 32)
    × AreHex (codes "00000000000000000000000000000000")
rand_string_bounds_example =
    rand_string_bounds broker 0 (codes "00000000000000000000000000000000")
      (λ w b e. let same : b ≡ sixteen_zeros = cc in ap length same) rand_of_broker

-- Two receivers, 3 and 4. The first accepts a message that goes to the handler and another that stays
-- in msgc, and its link breaks; the second holds a message when the loop returns.
abbrev course : Course
course = record {
  now = 5;
  opened = λ r. [];
  events =
      pulls (received 3 answer)
      ∷ pulls (queued 3)
      ∷ takes_message
      ∷ pulls (received 3 answer)
      ∷ pulls (queued 3)
      ∷ pulls (received 4 answer)
      ∷ pulls (broken 3 (external (codes "detached")))
      ∷ takes_error
      ∷ pulls (queued 4)
      ∷ [];
}

-- Only the broken receiver is closed when SubscribePartitions returns.
pumped : subscribe_partitions broker course 1 (codes "hub") (codes "g") 3 ≡ (
  4,
  ok (record {
    pullers = record { recv = 4; holding = some answer } ∷ [];
    msgc = answer ∷ [];
    errc = [];
    handed = answer ∷ [];
    ended = some (external (codes "detached"));
  }),
)
unfolding subscribe_partitions lookup str_eq
pumped = refl
