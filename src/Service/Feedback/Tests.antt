-- ===== src/Service/Feedback/Tests.antt =====
-- A feedback link that yields as many messages as its state says, and then fails.
use iothub.Base.{
  ℕ, zero, suc, ◌+◌, ◌≡◌, refl, List, [], ◌∷◌, none, some, Str, codes, Outcome, ok, fail, external,
}
use iothub.Amqp.{AmqpMessage, absent}
use iothub.Eventhub.{Peer, no_detach}
use iothub.Service.Feedback.{watch}
use iothub.Service.Feedback.Receiving.{Receives, nothing, then_more, watch-Receives}

abbrev feedback : AmqpMessage
feedback = record {
  data_parts = codes "[1]" ∷ [];
  value = absent;
  properties = none;
  annotations = [];
  application_properties = [];
}

unfoldable next_of : ℕ → ℕ × Outcome AmqpMessage
next_of zero = (zero, fail (external (codes "link closed")))
next_of (suc n) = (n, ok feedback)

abbrev draining : Peer ℕ
draining = record {
  random = λ n w. (w, ok []);
  dial = λ a u w. (w, ok 1);
  detach = λ e. no_detach;
  new_session = λ c w. (w, ok 1);
  new_sender = λ s o w. (w, ok 1);
  new_receiver = λ s o w. (w, ok 1);
  send = λ l m w. (w, ok tt);
  receive = λ l w. next_of w;
  accept = λ m w. w;
  close_link = λ l w. w;
  close_session = λ s w. (w, ok tt);
  close_connection = λ c w. (w, ok tt);
}

-- One feedback for each message.
abbrev whole : Str → Outcome (List Str)
whole b = ok (b ∷ [])

two_received : Receives draining whole 1 2 2 (codes "[1]" ∷ codes "[1]" ∷ []) 0
unfolding next_of
two_received =
    then_more feedback (codes "[1]") [] refl refl refl
      (then_more feedback (codes "[1]") [] refl refl refl nothing)

watch-Receives_example :
    (watch draining whole 2 1 2
      ≡ (0, ok (record { handed = codes "[1]" ∷ codes "[1]" ∷ []; ended = none })))
    × (watch draining whole (2 + suc 4) 1 2 ≡ (
      0,
      ok (record {
        handed = codes "[1]" ∷ codes "[1]" ∷ [];
        ended = some (external (codes "link closed"));
      }),
    ))
unfolding next_of
watch-Receives_example =
    watch-Receives draining whole 1 (external (codes "link closed")) 4 two_received refl

two_handed : watch draining whole 5 1 2 ≡ (
  0,
  ok (record {
    handed = codes "[1]" ∷ codes "[1]" ∷ [];
    ended = some (external (codes "link closed"));
  }),
)
unfolding watch next_of
two_handed = refl
