-- ===== src/Mqtt/Sending/Laws.antt =====
-- The topic of a sent message holds its attributes, and only QoS 0 and 1 are published.
use iothub.Base.{
  ℕ, ◌≡◌, refl, ◌⊎◌, inl, inr, [], ◌∷◌, ◌++◌, Option, none, some, Str, codes, Dict, lookup, insert,
  HasDistinctKeys, insert-HasDistinctKeys, arith, ap, ◌∙◌, append_assoc, sym, ok, fail, panic,
  Outcome, Option-cases, ◌≤◌, Bool-cases, is_blank,
}
use iothub.Go.Query.{parse_query, sort_keys, encode}
use iothub.Go.Query.Pieces.{singles}
use iothub.Go.Query.Sorting.{lookup-sort_keys}
use iothub.Mqtt.Sending.Attributes.{attribute_of, IsOfBytes, lookup-attributes, attributes-AreBytes}
use iothub.Go.Query.Laws.{parse_query-encode}
use iothub.Message.{Message, Time, zero_time, at, TransportOption, int, other}
use iothub.Base.Int.{ℤ, pos, negsuc}
use iothub.Mqtt.Transport.{Broker, Transport, send}
use iothub.Mqtt.Sending.{
  attributes, event_topic, put_if, put_expiry, put_all, message_qos, publish_with, send_message,
}

abbrev pub event_prefix : Str → Str
event_prefix did = codes "devices/" ++ (did ++ codes "/messages/events/")

module _ (format_time : ℤ → Str) where
  put_all-HasDistinctKeys :
      (p u : Dict Str) → HasDistinctKeys u → HasDistinctKeys (put_all format_time p u)
  unfolding put_all
  put_all-HasDistinctKeys [] u h = h
  put_all-HasDistinctKeys ((k, v) ∷ p) u h =
      put_all-HasDistinctKeys p (insert k v u) (insert-HasDistinctKeys k v u h)

  put_expiry-HasDistinctKeys :
      (t : Option Time) (u : Dict Str)
      → HasDistinctKeys u
      → HasDistinctKeys (put_expiry format_time t u)
  unfolding put_expiry
  put_expiry-HasDistinctKeys none u h = h
  put_expiry-HasDistinctKeys (some zero_time) u h = h
  put_expiry-HasDistinctKeys (some (at t)) u h =
      insert-HasDistinctKeys (codes "$.exp") (format_time t) u h

  put_if-HasDistinctKeys :
      (k v : Str) (u : Dict Str) → HasDistinctKeys u → HasDistinctKeys (put_if k v u)
  put_if-HasDistinctKeys k v u h = elim (Bool-cases (is_blank v)) [
    | inl blank ↦ rw blank h
    | inr filled ↦ rw filled (insert-HasDistinctKeys k v u h)
  ]

  attributes-HasDistinctKeys : (msg : Message) → HasDistinctKeys (attributes format_time msg)
  unfolding attributes
  attributes-HasDistinctKeys msg = put_all-HasDistinctKeys msg.properties _ (
      put_expiry-HasDistinctKeys msg.expiry_time _ (
        put_if-HasDistinctKeys _ msg.to _ (
          put_if-HasDistinctKeys _ msg.user_id _ (
            put_if-HasDistinctKeys _ msg.correlation_id _
              (put_if-HasDistinctKeys _ msg.message_id [] tt)))))

  event_topic-prefix :
      (did : Str) (msg : Message)
      → event_topic format_time did msg
        ≡ event_prefix did ++ encode (singles (attributes format_time msg))
  unfolding event_topic
  event_topic-prefix did msg = sym (
      ap (λ s. codes "devices/" ++ s)
        (append_assoc did (codes "/messages/events/")
          (encode (singles (attributes format_time msg)))))

  -- The topic of a message made of bytes, whose properties are a map, is "devices/", the device's
  -- name, "/messages/events/" and a query, which ParseQuery reads as one value for each attribute of
  -- the message and nothing else: under a property's key its value; under "$.mid", "$.cid", "$.uid"
  -- and "$.to" the ids and the recipient that are not blank; and under "$.exp" the expiry time, if it
  -- is set and not the zero time.
  pub event_topic-attributes :
      (did : Str) (msg : Message)
      → IsOfBytes format_time msg
      → HasDistinctKeys msg.properties
      → (q : Str) × (m : Dict Str) × (event_topic format_time did msg
          ≡ (codes "devices/" ++ (did ++ codes "/messages/events/")) ++ q)
        × (parse_query q ≡ some (singles m))
        × ((k : Str) → lookup k m ≡ attribute_of format_time msg k)
  event_topic-attributes did msg b d =
      let sent = attributes format_time msg in
      let distinct = attributes-HasDistinctKeys msg in
      (
        encode (singles sent),
        sort_keys sent,
        event_topic-prefix did msg,
        parse_query-encode sent (attributes-AreBytes format_time msg b) distinct,
        (λ k. lookup-sort_keys k sent distinct ∙ lookup-attributes format_time msg k d),
      )

  message_qos_bound : (options : Dict TransportOption) (q : ℕ) → message_qos options ≡ ok q → q ≤ 1
  unfolding message_qos
  message_qos_bound options q e = elim (Option-cases (lookup (codes "qos") options)) [
    | inl off ↦ ground arith
    | inr (int (pos n), on) ↦ ground arith
    | inr (int (negsuc n), on) ↦ ground arith
    | inr (other, on) ↦ ground arith
  ]

  module _ {World : Type 0} (broker : Broker World) where
    publish_with-cases :
        (topic payload : Str) (tr : Transport World) (r : Outcome ℕ)
        → ((q : ℕ) × (r ≡ ok q)
            × (publish_with format_time broker topic payload tr r ≡ send broker topic q payload tr))
          ⊎ ((publish_with format_time broker topic payload tr r).0 ≡ tr)
    unfolding publish_with
    publish_with-cases topic payload tr (ok q) = inl (q, refl, refl)
    publish_with-cases topic payload tr (fail e) = inr refl
    publish_with-cases topic payload tr panic = inr refl

    pub send_message-qos :
        (msg : Message) (q : ℕ) (tr : Transport World)
        → message_qos msg.transport_options ≡ ok q
        → send_message format_time broker msg tr
          ≡ send broker (event_topic format_time tr.did msg) q msg.payload tr
    unfolding send_message publish_with
    send_message-qos msg q tr h = rw h refl

    -- Send publishes the payload to the message's topic with QoS 0 or 1, or leaves the transport and
    -- the hub as they are.
    pub send_message_publishes :
        (msg : Message) (tr : Transport World)
        → ((q : ℕ) × (q ≤ 1)
            × (send_message format_time broker msg tr
                ≡ send broker (event_topic format_time tr.did msg) q msg.payload tr))
          ⊎ ((send_message format_time broker msg tr).0 ≡ tr)
    unfolding send_message
    send_message_publishes msg tr =
        elim (publish_with-cases (event_topic format_time tr.did msg) msg.payload tr
          (message_qos msg.transport_options)) [
            | inl (q, e, same) ↦ inl (q, message_qos_bound msg.transport_options q e, same)
            | inr same ↦ inr same
          ]
