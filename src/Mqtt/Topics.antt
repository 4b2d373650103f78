-- ===== src/Mqtt/Topics.antt =====
-- iotdevice/transport/mqtt/mqtt.go: the topic names that the hub sends and what they say.
pub mod Laws
pub mod Cloud
pub mod Events
use iothub.Base.{
  ℕ, Bool, true, false, List, [], ◌∷◌, ◌++◌, Option, none, some, Str, codes, str_eq, Dict, lookup,
  insert, has_prefix, drop_prefix, trim, trim_right, index, Outcome, ok, fail, panic, ◌>>=◌, ◌>>◌,
  or_fail, malformed_topic, malformed_direct_method_topic, malformed_twin_topic, no_rid,
  many_values, external, Error, if◌then◌else◌,
}
use iothub.Base.Int.{ℤ, pos}
use iothub.Go.Decimal.{format, format_int, atoi}
use iothub.Go.Url.{query_unescape, parse}
use iothub.Go.Query.{Values, values, query, parse_query}
use iothub.Message.{Message, Time, empty_message}

guard : Bool → Error → Outcome (Unit {0})
guard true e = ok tt
guard false e = fail e

-- `for k, v := range q { if len(v) != 1 { … } p[k] = v[0] }`
unfoldable pub only_values : Values → Outcome (Dict Str)
only_values [] = ok []
only_values ((k, v ∷ []) ∷ q) = do p ← only_values q; ok ((k, v) ∷ p)
only_values ((k, _) ∷ q) = fail many_values

unfoldable pub parse_cloud_to_device_topic : Str → Outcome (Dict Str)
unfolding only_values
parse_cloud_to_device_topic topic = do
  s ← or_fail (query_unescape topic) (external (codes "QueryUnescape"))
  attributes ← or_fail (index (codes "$.") s) malformed_topic
  q ← or_fail (parse_query attributes) (external (codes "ParseQuery"))
  only_values q

-- One attribute of a cloud-to-device message; `parse_time` is time.Parse(time.RFC3339, v).
unfoldable pub set_attribute : (Str → Option Time) → Message → Str → Str → Outcome Message
set_attribute parse_time e k v =
    if str_eq k (codes "$.mid")
    then ok (record e { message_id = v })
    else if str_eq k (codes "$.cid")
    then ok (record e { correlation_id = v })
    else if str_eq k (codes "$.uid")
    then ok (record e { user_id = v })
    else if str_eq k (codes "$.to")
    then ok (record e { to = v })
    else if str_eq k (codes "$.exp")
    then elim (parse_time v) [
      | none ↦ fail (external (codes "time.Parse"))
      | some t ↦ ok (record e { expiry_time = some t })
    ]
    else ok (record e { properties = insert k v e.properties })

unfoldable pub set_attributes : (Str → Option Time) → Message → Dict Str → Outcome Message
unfolding set_attribute
set_attributes parse_time e [] = ok e
set_attributes parse_time e ((k, v) ∷ p) = do
  e' ← set_attribute parse_time e k v
  set_attributes parse_time e' p

unfoldable pub parse_event_message : (Str → Option Time) → Str → Str → Outcome Message
unfolding parse_cloud_to_device_topic set_attributes
parse_event_message parse_time topic payload = do
  p ← parse_cloud_to_device_topic topic
  set_attributes parse_time (record empty_message { payload = payload }) p

-- `q["$rid"][0]`, unless there is not exactly one.
only_rid : List Str → Outcome Str
only_rid (v ∷ []) = ok v
only_rid _ = fail no_rid

abbrev number : Str → Outcome ℤ
number s = or_fail (atoi s) (external (codes "Atoi"))

-- The version stands in update responses only.
pub version : List Str → Outcome ℤ
version (v ∷ []) = number v
version _ = ok (pos 0)

abbrev pub method_prefix : Str
method_prefix = codes "$iothub/methods/POST/"

abbrev pub twin_prefix : Str
twin_prefix = codes "$iothub/twin/res/"

module _ (authority_ok : Str → Bool) where
  unfoldable pub parse_direct_method_topic : Str → Outcome (Str × ℤ)
  unfolding guard only_rid
  parse_direct_method_topic topic = do
    s ← or_fail (query_unescape topic) (external (codes "QueryUnescape"))
    u ← or_fail (parse authority_ok s) (external (codes "url.Parse"))
    let p = trim_right b'/' u.path
    guard (has_prefix method_prefix p) malformed_direct_method_topic
    v ← only_rid (values (codes "$rid") (query u.raw_query))
    rid ← number v
    ok (drop_prefix method_prefix p, rid)

  -- The response code, the request id and the version.
  unfoldable pub parse_twin_props_topic : Str → Outcome (ℤ × ℤ × ℤ)
  unfolding guard only_rid version
  parse_twin_props_topic topic = do
    u ← or_fail (parse authority_ok topic) (external (codes "url.Parse"))
    let p = trim b'/' u.path
    guard (has_prefix twin_prefix p) malformed_twin_topic
    rc ← number (drop_prefix twin_prefix p)
    let q = query u.raw_query
    v ← only_rid (values (codes "$rid") q)
    rid ← number v
    ver ← version (values (codes "$version") q)
    ok (rc, rid, ver)

-- The topics that the transport writes: the reply to a direct method, and the twin requests.
unfoldable pub method_response_topic : ℕ → ℤ → Str
unfolding format format_int
method_response_topic rc rid =
    codes "$iothub/methods/res/" ++ (format rc ++ (codes "/?$rid=" ++ format_int rid))

unfoldable pub twin_get_topic : ℕ → Str
unfolding format
twin_get_topic rid = codes "$iothub/twin/GET/?$rid=" ++ format rid

unfoldable pub twin_patch_topic : ℕ → Str
unfolding format
twin_patch_topic rid = codes "$iothub/twin/PATCH/properties/reported/?$rid=" ++ format rid

unfoldable pub devicebound_topic : Str → Str
devicebound_topic did = codes "devices/" ++ (did ++ codes "/messages/devicebound/#")
