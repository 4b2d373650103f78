-- ===== src/Mqtt/Topics/Cloud.antt =====
-- The topic of a message from the cloud: its attributes are read back, one by one, into the message.
use iothub.Base.{
  ℕ, true, ◌≡◌, refl, [], ◌∷◌, ◌++◌, some, Str, codes, arith, All, Lacks, Lacks-append,
  append_assoc, append-nil, Dict, HasDistinctKeys, has_prefix, index, ap, sym, ◌∙◌, ok,
}
use iothub.Go.Url.{unescape, query_escape, escape_byte}
use iothub.Go.Url.Laws.{IsByte, unescape_kept, unescape-escape_byte}
use iothub.Go.Query.{pair, join_amp}
use iothub.Go.Query.Pieces.{singles, texts, IsRead, parse_query-texts}
use iothub.Go.Query.Plain.{IsPlainText, pair_plain, add_piece_plain}
use iothub.Mqtt.Topics.{only_values, parse_cloud_to_device_topic}

-- An attribute whose key and value mean themselves in a query.
pub record IsPlainEntry (e : Str × Str) : Type 0 where
  pub key_bytes : All IsByte e.0
  pub value_bytes : All IsByte e.1
  pub key_plain : IsPlainText e.0
  pub value_plain : IsPlainText e.1
  pub no_equals : Lacks b'=' e.0

abbrev plain_pair : Str → Str → Str
plain_pair k v = k ++ b'=' ∷ v

abbrev pub cloud_prefix : Str → Str
cloud_prefix did = codes "devices/" ++ (did ++ codes "/messages/devicebound/")

-- The topic of a message with these attributes, each escaped.
abbrev pub cloud_topic : Str → Dict Str → Str
cloud_topic did m = cloud_prefix did ++ join_amp (texts pair m)

plain-IsRead : (m : Dict Str) → All IsPlainEntry m → All (IsRead plain_pair) m
plain-IsRead [] h = tt
plain-IsRead ((k, v) ∷ m) (p, h) =
    let whole = pair_plain k v p.key_plain p.value_plain in
    (
      record {
        no_amp = whole.no_amp;
        no_semicolon = whole.no_semicolon;
        reads = λ q. add_piece_plain q k v p.no_equals p.key_plain p.value_plain;
      },
      plain-IsRead m h,
    )

unescape-escaped :
    (s t u : Str)
    → All IsByte s
    → unescape true t ≡ some u
    → unescape true (query_escape s ++ t) ≡ some (s ++ u)
unfolding query_escape
unescape-escaped [] t u h e = e
unescape-escaped (c ∷ s) t u (p, h) e =
    ap (unescape true) (append_assoc (escape_byte c) (query_escape s) t)
    ∙ unescape-escape_byte c (query_escape s ++ t) (s ++ u) p (unescape-escaped s t u h e)

unescape-kept :
    (s t u : Str)
    → Lacks b'%' s
    → Lacks b'+' s
    → unescape true t ≡ some u
    → unescape true (s ++ t) ≡ some (s ++ u)
unescape-kept [] t u h k e = e
unescape-kept (c ∷ s) t u (p, h) (q, k) e =
    unescape_kept true c (s ++ t) (s ++ u) p q (unescape-kept s t u h k e)

unescape-pair :
    (k v t u : Str)
    → All IsByte k
    → All IsByte v
    → unescape true t ≡ some u
    → unescape true (pair k v ++ t) ≡ some (plain_pair k v ++ u)
unfolding pair
unescape-pair k v t u hk hv e =
    ap (unescape true) (append_assoc (query_escape k) (b'=' ∷ query_escape v) t)
    ∙ unescape-escaped k (b'=' ∷ (query_escape v ++ t)) (b'=' ∷ (v ++ u)) hk
        (unescape_kept true b'=' _ _ (omega arith) (omega arith) (unescape-escaped v t u hv e))
    ∙ ap some (sym (append_assoc k (b'=' ∷ v) u))

unescape-pairs :
    (m : Dict Str)
    → All IsPlainEntry m
    → unescape true (join_amp (texts pair m)) ≡ some (join_amp (texts plain_pair m))
unfolding join_amp
unescape-pairs [] h = unfold unescape in refl
unescape-pairs ((k, v) ∷ []) (p, h) =
    ap (unescape true) (sym (append-nil (pair k v)))
    ∙ unescape-pair k v [] [] p.key_bytes p.value_bytes (unfold unescape in refl)
    ∙ ap some (append-nil (plain_pair k v))
unescape-pairs ((k, v) ∷ e ∷ m) (p, h) =
    unescape-pair k v (b'&' ∷ join_amp (texts pair (e ∷ m))) _ p.key_bytes p.value_bytes
      (unescape_kept true b'&' _ _ (omega arith) (omega arith) (unescape-pairs (e ∷ m) h))

-- Index finds a text that begins with a dollar behind one that holds none.
index_dollar :
    (s t : Str) → Lacks b'$' s → index (codes "$.") (s ++ b'$' ∷ b'.' ∷ t) ≡ some (b'$' ∷ b'.' ∷ t)
unfolding index has_prefix
index_dollar [] t h = refl
index_dollar (c ∷ s) t (p, h) = ground (arith, index_dollar s t h)

only_values-singles : (m : Dict Str) → only_values (singles m) ≡ ok m
unfolding only_values
only_values-singles [] = refl
only_values-singles ((k, v) ∷ m) = rw (only_values-singles m) refl

starts_with_dollar :
    (name v : Str) (m : Dict Str)
    → (t : Str) × (join_amp (texts plain_pair ((b'$' ∷ b'.' ∷ name, v) ∷ m)) ≡ b'$' ∷ b'.' ∷ t)
unfolding join_amp
starts_with_dollar name v [] = (name ++ b'=' ∷ v, refl)
starts_with_dollar name v (e ∷ m) =
    ((name ++ b'=' ∷ v) ++ b'&' ∷ join_amp (texts plain_pair (e ∷ m)), refl)

-- A device's name that stands for itself in a topic.
pub record IsPlainDevice (did : Str) : Type 0 where
  pub no_dollar : Lacks b'$' did
  pub no_percent : Lacks b'%' did
  pub no_plus : Lacks b'+' did

cloud_prefix-Lacks :
    (b : ℕ) (did : Str)
    → Lacks b (codes "devices/")
    → Lacks b (codes "/messages/devicebound/")
    → Lacks b did
    → Lacks b (cloud_prefix did)
cloud_prefix-Lacks b did h k l =
    Lacks-append b (codes "devices/") (did ++ codes "/messages/devicebound/") h
      (Lacks-append b did (codes "/messages/devicebound/") l k)

unescape-cloud_topic :
    (did : Str) (m : Dict Str)
    → IsPlainDevice did
    → All IsPlainEntry m
    → unescape true (cloud_topic did m) ≡ some (cloud_prefix did ++ join_amp (texts plain_pair m))
unescape-cloud_topic did m d h =
    unescape-kept (cloud_prefix did) _ _
      (cloud_prefix-Lacks b'%' did (omega arith) (omega arith) d.no_percent)
      (cloud_prefix-Lacks b'+' did (omega arith) (omega arith) d.no_plus) (unescape-pairs m h)

-- From the topic of a message whose attributes have distinct keys, the first of them a system's, and
-- stand for themselves, exactly these attributes are read.
pub parse_cloud_to_device_topic-cloud_topic :
    (did name v : Str) (m : Dict Str)
    → IsPlainDevice did
    → All IsPlainEntry ((b'$' ∷ b'.' ∷ name, v) ∷ m)
    → HasDistinctKeys ((b'$' ∷ b'.' ∷ name, v) ∷ m)
    → parse_cloud_to_device_topic (cloud_topic did ((b'$' ∷ b'.' ∷ name, v) ∷ m))
      ≡ ok ((b'$' ∷ b'.' ∷ name, v) ∷ m)
unfolding parse_cloud_to_device_topic
parse_cloud_to_device_topic-cloud_topic did name v m d h k =
    let all = (b'$' ∷ b'.' ∷ name, v) ∷ m in
    let (t, starts) = starts_with_dollar name v m in
    let found =
      ap (λ s. index (codes "$.") (cloud_prefix did ++ s)) starts
      ∙ index_dollar (cloud_prefix did) t
          (cloud_prefix-Lacks b'$' did (omega arith) (omega arith) d.no_dollar)
      ∙ ap some (sym starts) in
    rw (unescape-cloud_topic did all d h) (
      rw found
        (rw (parse_query-texts plain_pair all (plain-IsRead all h) k) (only_values-singles all)))
