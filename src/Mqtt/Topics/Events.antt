-- ===== src/Mqtt/Topics/Events.antt =====
-- The message that the attributes of a cloud-to-device topic make.
use iothub.Base.{
  Bool, true, false, ◌≡◌, refl, [], ◌∷◌, Option, none, some, Str, codes, arith, str_eq, str_eq_iff,
  lookup, lookup-insert, Dict, HasDistinctKeys, All, ◌||◌, if◌then◌else◌, ap, ◌∙◌, ok, ◌>>=◌,
  >>=-eq-ok, Bool-cases, Outcome-cases, inl, inr,
}
use iothub.Message.{Message, Time, empty_message}
use iothub.Mqtt.Topics.{set_attribute, set_attributes, parse_event_message}
use iothub.Mqtt.Topics.Cloud.{
  IsPlainEntry, IsPlainDevice, cloud_topic, parse_cloud_to_device_topic-cloud_topic,
}

-- The keys that have a field of their own.
abbrev pub is_system : Str → Bool
is_system k =
    str_eq k (codes "$.mid")
    || str_eq k (codes "$.cid")
    || str_eq k (codes "$.uid")
    || str_eq k (codes "$.to")
    || str_eq k (codes "$.exp")

-- The value under a key, or the old one.
abbrev pub updated : {B : Type 0} → (Str → B) → Option Str → B → B
updated put none old = old
updated put (some v) old = put v

-- A key is at most one of two different ones.
apart : (k a b : Str) → str_eq k a ≡ true → str_eq k b ≡ str_eq a b
apart k a b h = ap (λ s. str_eq s b) ((str_eq_iff k a).0 h)

module _ (parse_time : Str → Option Time) where
  -- An expiry time can be parsed.
  abbrev pub HasTime : Str × Str → Type 0
  HasTime (k, v) = str_eq k (codes "$.exp") ≡ true → (t : Time) × (parse_time v ≡ some t)

  set_attribute_total :
      (e : Message) (k v : Str)
      → HasTime (k, v)
      → (e' : Message) × (set_attribute parse_time e k v ≡ ok e')
  unfolding set_attribute str_eq
  set_attribute_total e k v h = elim (Outcome-cases (set_attribute parse_time e k v)) [
    | inl (e', same) ↦ (e', same)
    | inr (inl (x, failed)) ↦ absurd (ground (arith, h))
    | inr (inr panicked) ↦ absurd (ground (arith, h))
  ]

  set_attributes-ok :
      (e e' : Message) (k v : Str) (m : Dict Str)
      → set_attributes parse_time e ((k, v) ∷ m) ≡ ok e'
      → (n : Message) × (set_attribute parse_time e k v ≡ ok n)
        × (set_attributes parse_time n m ≡ ok e')
  unfolding set_attributes
  set_attributes-ok e e' k v m h =
      >>=-eq-ok (set_attribute parse_time e k v) (λ n. set_attributes parse_time n m) h

  -- A field that the attribute with one key sets, and no other attribute.
  abbrev Sets : {B : Type 0} → (Message → B) → (Str → B) → Str → Type 0
  Sets get put key =
      (e e' : Message) (k v : Str)
      → set_attribute parse_time e k v ≡ ok e'
      → get e' ≡ (if str_eq k key then put v else get e)

  set_attributes-Sets :
      {B : Type 0} (get : Message → B) (put : Str → B) (key : Str)
      → Sets get put key
      → (m : Dict Str) (e e' : Message) → HasDistinctKeys m
      → set_attributes parse_time e m ≡ ok e'
      → get e' ≡ updated put (lookup key m) (get e)
  unfolding set_attributes lookup
  set_attributes-Sets get put key sets [] e e' d h = let same : e' ≡ e = cc in ap get same
  set_attributes-Sets get put key sets ((k, v) ∷ m) e e' (f, d) h =
      let (n, now, later) = set_attributes-ok e e' k v m h in
      let last = set_attributes-Sets get put key sets m n e' d later in
      elim (Bool-cases (str_eq k key)) [
        | inl same ↦
            let absent : lookup key m ≡ none = rw (← (str_eq_iff k key).0 same) f in
            rw same (last ∙ rw absent (sets e n k v now ∙ rw same refl))
        | inr other ↦
            rw other (last ∙ ap (updated put (lookup key m)) (sets e n k v now ∙ rw other refl))
      ]

  mid-Sets : Sets (λ e. e.message_id) (λ v. v) (codes "$.mid")
  unfolding set_attribute str_eq
  mid-Sets e e' k v h = ground arith

  set_attribute-payload :
      (e e' : Message) (k v : Str) → set_attribute parse_time e k v ≡ ok e' → e'.payload ≡ e.payload
  unfolding set_attribute str_eq
  set_attribute-payload e e' k v h = ground arith

  cid-Sets : Sets (λ e. e.correlation_id) (λ v. v) (codes "$.cid")
  unfolding set_attribute str_eq
  cid-Sets e e' k v h = ground (arith, apart k (codes "$.mid") (codes "$.cid"))

  uid-Sets : Sets (λ e. e.user_id) (λ v. v) (codes "$.uid")
  unfolding set_attribute str_eq
  uid-Sets e e' k v h =
      ground
        (arith, apart k (codes "$.mid") (codes "$.uid"), apart k (codes "$.cid") (codes "$.uid"))

  to-Sets : Sets (λ e. e.to) (λ v. v) (codes "$.to")
  unfolding set_attribute str_eq
  to-Sets e e' k v h = ground (
    arith,
    apart k (codes "$.mid") (codes "$.to"),
    apart k (codes "$.cid") (codes "$.to"),
    apart k (codes "$.uid") (codes "$.to"),
  )

  expiry-Sets : Sets (λ e. e.expiry_time) parse_time (codes "$.exp")
  unfolding set_attribute str_eq
  expiry-Sets e e' k v h = ground (
    arith,
    apart k (codes "$.mid") (codes "$.exp"),
    apart k (codes "$.cid") (codes "$.exp"),
    apart k (codes "$.uid") (codes "$.exp"),
    apart k (codes "$.to") (codes "$.exp"),
  )

  property-Sets : (j : Str) → is_system j ≡ false → Sets (λ e. lookup j e.properties) some j
  unfolding set_attribute str_eq
  property-Sets j user e e' k v h = ground (arith, str_eq_iff k j, lookup-insert k j v e.properties)

  set_attributes_total :
      (m : Dict Str) (e : Message)
      → All HasTime m
      → (e' : Message) × (set_attributes parse_time e m ≡ ok e')
  unfolding set_attributes
  set_attributes_total [] e h = (e, refl)
  set_attributes_total ((k, v) ∷ m) e (p, h) =
      let (n, now) = set_attribute_total e k v p in
      let (e', later) = set_attributes_total m n h in
      (e', ap (λ r. r >>= λ x. set_attributes parse_time x m) now ∙ later)

  set_attributes-payload :
      (m : Dict Str) (e e' : Message)
      → set_attributes parse_time e m ≡ ok e'
      → e'.payload ≡ e.payload
  unfolding set_attributes
  set_attributes-payload [] e e' h = let same : e' ≡ e = cc in ap (λ (x : Message). x.payload) same
  set_attributes-payload ((k, v) ∷ m) e e' h =
      let (n, now, later) = set_attributes-ok e e' k v m h in
      set_attributes-payload m n e' later ∙ set_attribute-payload e n k v now

  -- A message of these attributes and this payload.
  pub record IsMessageOf (m : Dict Str) (payload : Str) (e : Message) : Type 0 where
    pub payload_kept : e.payload ≡ payload
    pub message_id_said : e.message_id ≡ updated (λ v. v) (lookup (codes "$.mid") m) []
    pub correlation_id_said : e.correlation_id ≡ updated (λ v. v) (lookup (codes "$.cid") m) []
    pub user_id_said : e.user_id ≡ updated (λ v. v) (lookup (codes "$.uid") m) []
    pub to_said : e.to ≡ updated (λ v. v) (lookup (codes "$.to") m) []
    pub expiry_time_said : e.expiry_time ≡ updated parse_time (lookup (codes "$.exp") m) none
    pub properties_said :
        (j : Str) → is_system j ≡ false → lookup j e.properties ≡ updated some (lookup j m) none

  set_attributes-IsMessageOf :
      (m : Dict Str) (payload : Str) (e : Message)
      → HasDistinctKeys m
      → set_attributes parse_time (record empty_message { payload = payload }) m ≡ ok e
      → IsMessageOf m payload e
  unfolding lookup
  set_attributes-IsMessageOf m payload e d h =
      let blank : Message = record empty_message { payload = payload } in
      record {
        payload_kept = set_attributes-payload m blank e h;
        message_id_said = set_attributes-Sets _ _ _ mid-Sets m blank e d h;
        correlation_id_said = set_attributes-Sets _ _ _ cid-Sets m blank e d h;
        user_id_said = set_attributes-Sets _ _ _ uid-Sets m blank e d h;
        to_said = set_attributes-Sets _ _ _ to-Sets m blank e d h;
        expiry_time_said = set_attributes-Sets _ _ _ expiry-Sets m blank e d h;
        properties_said = λ j user. set_attributes-Sets _ _ _ (property-Sets j user) m blank e d h;
      }

  pub parse_event_message-cloud_topic :
      (did name v payload : Str) (m : Dict Str)
      → IsPlainDevice did
      → All IsPlainEntry ((b'$' ∷ b'.' ∷ name, v) ∷ m)
      → HasDistinctKeys ((b'$' ∷ b'.' ∷ name, v) ∷ m)
      → All HasTime ((b'$' ∷ b'.' ∷ name, v) ∷ m)
      → (e : Message) × (parse_event_message parse_time
            (cloud_topic did ((b'$' ∷ b'.' ∷ name, v) ∷ m))
            payload
          ≡ ok e)
        × IsMessageOf ((b'$' ∷ b'.' ∷ name, v) ∷ m) payload e
  unfolding parse_event_message
  parse_event_message-cloud_topic did name v payload m d h k t =
      let all = (b'$' ∷ b'.' ∷ name, v) ∷ m in
      let (e, set) = set_attributes_total all (record empty_message { payload = payload }) t in
      (
        e,
        ap
              (λ r.
                r >>= λ p. set_attributes parse_time (record empty_message { payload = payload }) p)
              (parse_cloud_to_device_topic-cloud_topic did name v m d h k)
            ∙ set,
        set_attributes-IsMessageOf all payload e k set,
      )
