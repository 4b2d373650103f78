-- ===== src/Amqp/Laws.antt =====
-- What is sent over AMQP is read back, and when the conversions panic.
use iothub.Base.{
  ◌>>=◌, str_eq_iff, ◌≡◌, refl, ◌↔◌, [], ◌∷◌, ◌++◌, none, some, Str, map, Dict, HasDistinctKeys,
  lookup, lookup-append, arith, insert_of_absent, append-nil, append_assoc, ap, ◌∙◌, ok, panic,
  Option-cases, inl, inr,
}
use iothub.Message.{Message, Time, empty_message}
use iothub.Amqp.{Value, text, read_application, from_amqp_message, AmqpMessage, to_amqp_message}

abbrev texts : Dict Str → Dict Value
texts = map (λ e. (e.0, text e.1))

-- None of the keys of the second stands in the first.
abbrev Fresh : Dict Str → Dict Str → Type 0
Fresh m [] = Unit
Fresh m ((k, v) ∷ p) = (lookup k m ≡ none) × Fresh m p

Fresh-append :
    (k v : Str) (q p : Dict Str) → lookup k p ≡ none → Fresh q p → Fresh (q ++ (k, v) ∷ []) p
unfolding lookup
Fresh-append k v q [] h f = tt
Fresh-append k v q ((j, w) ∷ p) h (g, f) = (
  ground (arith, lookup-append j q ((k, v) ∷ []), str_eq_iff j k, str_eq_iff k j),
  Fresh-append k v q p (ground arith) f,
)

Fresh-nil : (p : Dict Str) → Fresh [] p
unfolding lookup
Fresh-nil [] = tt
Fresh-nil ((k, v) ∷ p) = (refl, Fresh-nil p)

read_application-texts :
    (p : Dict Str) (m : Message)
    → HasDistinctKeys p
    → Fresh m.properties p
    → read_application (texts p) m ≡ ok (record m { properties = m.properties ++ p })
unfolding read_application
read_application-texts [] m d f = rw (append-nil m.properties)
read_application-texts ((k, v) ∷ p) m (h, d) (g, f) =
    let m' : Message = record m { properties = m.properties ++ (k, v) ∷ [] } in
    ap (λ q. read_application (texts p) (record m { properties = q }))
      (insert_of_absent k v m.properties g)
    ∙ read_application-texts p m' d (Fresh-append k v m.properties p h f)
    ∙ ap (λ q. ok (record m { properties = q })) (append_assoc m.properties ((k, v) ∷ []) p)

from_sent :
    (msg : Message) (t : Time)
    → msg.expiry_time ≡ some t
    → (to_amqp_message msg >>= from_amqp_message)
      ≡ read_application (texts msg.properties) (record empty_message {
        payload = msg.payload;
        user_id = msg.user_id;
        message_id = msg.message_id;
        correlation_id = msg.correlation_id;
        to = msg.to;
        expiry_time = some t;
      })
unfolding to_amqp_message from_amqp_message
from_sent msg t h = rw h

-- A message with an expiry time, whose properties are a map, is sent as an AMQP message that is read
-- back with its payload, its ids, its destination, its expiry time and its properties, in order.
pub from_amqp_message-to_amqp_message :
    (msg : Message) (t : Time)
    → msg.expiry_time ≡ some t
    → HasDistinctKeys msg.properties
    → (to_amqp_message msg >>= from_amqp_message)
      ≡ ok (record empty_message {
        payload = msg.payload;
        user_id = msg.user_id;
        message_id = msg.message_id;
        correlation_id = msg.correlation_id;
        to = msg.to;
        expiry_time = some t;
        properties = msg.properties;
      })
from_amqp_message-to_amqp_message msg t h d =
    from_sent msg t h ∙ read_application-texts msg.properties _ d (Fresh-nil msg.properties)

-- A message is converted exactly when it has an expiry time; without one the conversion panics.
pub to_amqp_message_ok_iff :
    (msg : Message)
    → (((a : AmqpMessage) × (to_amqp_message msg ≡ ok a))
        ↔ ((t : Time) × (msg.expiry_time ≡ some t)))
      × ((to_amqp_message msg ≡ panic) ↔ (msg.expiry_time ≡ none))
unfolding to_amqp_message
to_amqp_message_ok_iff msg = elim (Option-cases msg.expiry_time) [
  | inl off ↦ ground arith
  | inr (t, on) ↦ rw on (((λ x. (t, refl)), (λ x. (_, refl))), ((λ h. cc), (λ h. cc)))
]
