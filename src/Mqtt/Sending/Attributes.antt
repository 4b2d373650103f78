-- ===== src/Mqtt/Sending/Attributes.antt =====
-- The attributes of a sent message, as a function of its keys.
use iothub.Base.{
  ◌≡◌, refl, ap, ◌∙◌, [], ◌∷◌, Option, none, some, Str, codes, Dict, lookup, lookup-insert, insert,
  HasDistinctKeys, str_eq, str_eq_iff, is_blank, if◌then◌else◌, arith, Bool-cases, inl, inr, true,
  All,
}
use iothub.Base.Int.{ℤ}
use iothub.Go.Url.Laws.{IsByte}
use iothub.Go.Query.Laws.{AreBytes}
use iothub.Message.{Message, Time, zero_time, at}
use iothub.Mqtt.Sending.{put_if, put_expiry, put_all, attributes}

-- A blank field is left out.
abbrev pub filled : Str → Option Str
filled v = if is_blank v then none else some v

module _ (format_time : ℤ → Str) where
  -- No time and the zero time are left out.
  abbrev pub expiry_text : Option Time → Option Str
  expiry_text none = none
  expiry_text (some zero_time) = none
  expiry_text (some (at t)) = some (format_time t)

  -- The field of a message that goes under a key.
  abbrev pub field_of : Message → Str → Option Str
  field_of msg k =
      if str_eq (codes "$.mid") k
      then filled msg.message_id
      else if str_eq (codes "$.cid") k
      then filled msg.correlation_id
      else if str_eq (codes "$.uid") k
      then filled msg.user_id
      else if str_eq (codes "$.to") k
      then filled msg.to
      else if str_eq (codes "$.exp") k
      then expiry_text msg.expiry_time
      else none

  -- A property hides a field with its key.
  abbrev pub attribute_of : Message → Str → Option Str
  attribute_of msg k = elim (lookup k msg.properties) [ none ↦ field_of msg k | some v ↦ some v ]

  lookup-put_all :
      (k : Str) (p u : Dict Str)
      → HasDistinctKeys p
      → lookup k (put_all format_time p u)
        ≡ elim (lookup k p) [ none ↦ lookup k u | some v ↦ some v ]
  unfolding put_all lookup
  lookup-put_all k [] u d = refl
  lookup-put_all k ((j, v) ∷ p) u (f, d) =
      ground (arith, lookup-put_all k p (insert j v u) d, lookup-insert j k v u, str_eq_iff j k, f)

  lookup-put_if :
      (j k v : Str) (u : Dict Str)
      → lookup k (put_if j v u) ≡ (
          if str_eq j k
          then elim (filled v) [ none ↦ lookup k u | some x ↦ some x ]
          else lookup k u)
  lookup-put_if j k v u = ground (arith, lookup-insert j k v u)

  lookup-put_expiry :
      (k : Str) (t : Option Time) (u : Dict Str)
      → lookup k (put_expiry format_time t u) ≡ (
          if str_eq (codes "$.exp") k
          then elim (expiry_text t) [ none ↦ lookup k u | some x ↦ some x ]
          else lookup k u)
  unfolding put_expiry
  lookup-put_expiry k none u = ground arith
  lookup-put_expiry k (some zero_time) u = ground arith
  lookup-put_expiry k (some (at t)) u = lookup-insert (codes "$.exp") k (format_time t) u

  apart : (a b k : Str) → str_eq a k ≡ true → str_eq b k ≡ str_eq b a
  apart a b k h = let same = (str_eq_iff a k).0 h in rw (← same) refl

  lookup_fields :
      (msg : Message) (k : Str) (mid cid uid to whole : Dict Str)
      → mid ≡ put_if (codes "$.mid") msg.message_id []
      → cid ≡ put_if (codes "$.cid") msg.correlation_id mid
      → uid ≡ put_if (codes "$.uid") msg.user_id cid
      → to ≡ put_if (codes "$.to") msg.to uid
      → whole ≡ put_expiry format_time msg.expiry_time to
      → lookup k whole ≡ field_of msg k
  unfolding lookup str_eq
  lookup_fields msg k mid cid uid to whole m c u t e =
      let at_mid = ap (lookup k) m ∙ lookup-put_if (codes "$.mid") k msg.message_id [] in
      let at_cid = ap (lookup k) c ∙ lookup-put_if (codes "$.cid") k msg.correlation_id mid in
      let at_uid = ap (lookup k) u ∙ lookup-put_if (codes "$.uid") k msg.user_id cid in
      let at_to = ap (lookup k) t ∙ lookup-put_if (codes "$.to") k msg.to uid in
      let at_exp = ap (lookup k) e ∙ lookup-put_expiry k msg.expiry_time to in
      elim (Bool-cases (str_eq (codes "$.mid") k)) [
        | inl on ↦ ground (
          arith,
          on,
          at_exp,
          at_to,
          at_uid,
          at_cid,
          at_mid,
          apart (codes "$.mid") (codes "$.cid") k on,
          apart (codes "$.mid") (codes "$.uid") k on,
          apart (codes "$.mid") (codes "$.to") k on,
          apart (codes "$.mid") (codes "$.exp") k on,
        )
        | inr not_mid ↦ elim (Bool-cases (str_eq (codes "$.cid") k)) [
          | inl on ↦ ground (
            arith,
            on,
            at_exp,
            at_to,
            at_uid,
            at_cid,
            at_mid,
            apart (codes "$.cid") (codes "$.mid") k on,
            apart (codes "$.cid") (codes "$.uid") k on,
            apart (codes "$.cid") (codes "$.to") k on,
            apart (codes "$.cid") (codes "$.exp") k on,
          )
          | inr not_cid ↦ elim (Bool-cases (str_eq (codes "$.uid") k)) [
            | inl on ↦ ground (
              arith,
              on,
              at_exp,
              at_to,
              at_uid,
              at_cid,
              at_mid,
              apart (codes "$.uid") (codes "$.mid") k on,
              apart (codes "$.uid") (codes "$.cid") k on,
              apart (codes "$.uid") (codes "$.to") k on,
              apart (codes "$.uid") (codes "$.exp") k on,
            )
            | inr not_uid ↦ elim (Bool-cases (str_eq (codes "$.to") k)) [
              | inl on ↦ ground (
                arith,
                on,
                at_exp,
                at_to,
                at_uid,
                at_cid,
                at_mid,
                apart (codes "$.to") (codes "$.mid") k on,
                apart (codes "$.to") (codes "$.cid") k on,
                apart (codes "$.to") (codes "$.uid") k on,
                apart (codes "$.to") (codes "$.exp") k on,
              )
              | inr not_to ↦ elim (Bool-cases (str_eq (codes "$.exp") k)) [
                | inl on ↦ ground (
                  arith,
                  on,
                  at_exp,
                  at_to,
                  at_uid,
                  at_cid,
                  at_mid,
                  apart (codes "$.exp") (codes "$.mid") k on,
                  apart (codes "$.exp") (codes "$.cid") k on,
                  apart (codes "$.exp") (codes "$.uid") k on,
                  apart (codes "$.exp") (codes "$.to") k on,
                )
                | inr not_exp ↦ ground (
                  arith, not_mid, not_cid, not_uid, not_to, not_exp, at_exp, at_to, at_uid, at_cid,
                  at_mid,
                )
              ]
            ]
          ]
        ]
      ]

  pub lookup-attributes :
      (msg : Message) (k : Str)
      → HasDistinctKeys msg.properties
      → lookup k (attributes format_time msg) ≡ attribute_of msg k
  unfolding attributes
  lookup-attributes msg k d =
      lookup-put_all k msg.properties _ d
      ∙ ap (λ o. elim (lookup k msg.properties) [ none ↦ o | some v ↦ some v ])
          (lookup_fields msg k _ _ _ _ _ refl refl refl refl refl)

  -- A message whose texts are bytes, and whose expiry time is written in bytes.
  pub record IsOfBytes (msg : Message) : Type 0 where
    pub message_id_bytes : All IsByte msg.message_id
    pub correlation_id_bytes : All IsByte msg.correlation_id
    pub user_id_bytes : All IsByte msg.user_id
    pub to_bytes : All IsByte msg.to
    pub expiry_bytes : All IsByte (elim (expiry_text msg.expiry_time) [ none ↦ [] | some v ↦ v ])
    pub properties_bytes : AreBytes msg.properties

  insert-AreBytes :
      (k v : Str) (m : Dict Str)
      → All IsByte k
      → All IsByte v
      → AreBytes m
      → AreBytes (insert k v m)
  unfolding insert
  insert-AreBytes k v [] hk hv h = ((hk, hv), tt)
  insert-AreBytes k v ((j, w) ∷ m) hk hv (p, h) = elim (Bool-cases (str_eq j k)) [
    | inl same ↦ rw same ((hk, hv), h)
    | inr other ↦ rw other (p, insert-AreBytes k v m hk hv h)
  ]

  put_if-AreBytes :
      (k v : Str) (m : Dict Str)
      → All IsByte k
      → All IsByte v
      → AreBytes m
      → AreBytes (put_if k v m)
  put_if-AreBytes k v m hk hv h = elim (Bool-cases (is_blank v)) [
    | inl blank ↦ rw blank h
    | inr kept ↦ rw kept (insert-AreBytes k v m hk hv h)
  ]

  put_expiry-AreBytes :
      (t : Option Time) (m : Dict Str)
      → All IsByte (elim (expiry_text t) [ none ↦ [] | some v ↦ v ])
      → AreBytes m
      → AreBytes (put_expiry format_time t m)
  unfolding put_expiry
  put_expiry-AreBytes none m ht h = h
  put_expiry-AreBytes (some zero_time) m ht h = h
  put_expiry-AreBytes (some (at t)) m ht h =
      insert-AreBytes (codes "$.exp") (format_time t) m (omega arith) ht h

  put_all-AreBytes : (p m : Dict Str) → AreBytes p → AreBytes m → AreBytes (put_all format_time p m)
  unfolding put_all
  put_all-AreBytes [] m hp h = h
  put_all-AreBytes ((k, v) ∷ p) m ((hk, hv), hp) h =
      put_all-AreBytes p (insert k v m) hp (insert-AreBytes k v m hk hv h)

  pub attributes-AreBytes : (msg : Message) → IsOfBytes msg → AreBytes (attributes format_time msg)
  unfolding attributes
  attributes-AreBytes msg h = put_all-AreBytes msg.properties _ h.properties_bytes (
      put_expiry-AreBytes msg.expiry_time _ h.expiry_bytes (
        put_if-AreBytes (codes "$.to") msg.to _ (omega arith) h.to_bytes (
          put_if-AreBytes (codes "$.uid") msg.user_id _ (omega arith) h.user_id_bytes (
            put_if-AreBytes (codes "$.cid") msg.correlation_id _ (omega arith)
              h.correlation_id_bytes
              (put_if-AreBytes (codes "$.mid") msg.message_id [] (omega arith) h.message_id_bytes
                tt)))))
