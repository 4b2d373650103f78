-- ===== src/Mqtt/Topics/Laws.antt =====
-- The topics that the hub writes are read back as what they were written for.
use iothub.Base.{
  ℕ, ◌≡◌, refl, ◌≢◌, ◌≤◌, Bool, true, [], ◌∷◌, ◌++◌, some, Str, codes, Lacks, Lacks-append, arith,
  ok, insert, lookup, str_eq, trim, trim_right_last, has_prefix-append, drop_prefix-append, ap, ◌∙◌,
  append_assoc, sym,
}
use iothub.Base.Int.{ℤ, pos}
use iothub.Go.Decimal.{format, atoi, max_int}
use iothub.Go.Decimal.Laws.{format-ne-nil, format-Lacks, atoi-format}
use iothub.Go.Url.{unescape, parse}
use iothub.Go.Url.Laws.{unescape_of_Lacks}
use iothub.Go.Url.Reference.{IsPlainPath, IsPlainPath-append, parse_dollar}
use iothub.Go.Query.{values, query}
use iothub.Go.Query.Plain.{IsPlainText, query_one, query_two}
use iothub.Mqtt.Topics.{
  parse_direct_method_topic, parse_twin_props_topic, method_prefix, twin_prefix, version,
}

format-IsPlainText : (n : ℕ) → IsPlainText (format n)
format-IsPlainText n = record {
  no_amp = format-Lacks b'&' n (λ h. omega arith);
  no_semicolon = format-Lacks b';' n (λ h. omega arith);
  no_percent = format-Lacks b'%' n (λ h. omega arith);
  no_plus = format-Lacks b'+' n (λ h. omega arith);
}

format-IsPlainPath : (n : ℕ) → IsPlainPath (format n)
format-IsPlainPath n = record {
  no_hash = format-Lacks b'#' n (λ h. omega arith);
  no_question = format-Lacks b'?' n (λ h. omega arith);
  no_percent = format-Lacks b'%' n (λ h. omega arith);
  no_plus = format-Lacks b'+' n (λ h. omega arith);
  no_colon = format-Lacks b':' n (λ h. omega arith);
}

rid_query : (rid : ℕ) → query (codes "$rid=" ++ format rid) ≡ (codes "$rid", format rid ∷ []) ∷ []
rid_query rid =
    query_one (codes "$rid") (format rid) (omega arith) (omega arith) (format-IsPlainText rid)

-- The response to a twin request, `$iothub/twin/res/{rc}/?` and a query.
abbrev pub twin_response : ℕ → Str → Str
twin_response rc q = twin_prefix ++ (format rc ++ codes "/?" ++ q)

twin_response_url :
    (authority_ok : Str → Bool) (rc : ℕ) (q : Str)
    → Lacks b'#' q
    → parse authority_ok (twin_response rc q)
      ≡ some (record { path = twin_prefix ++ (format rc ++ codes "/"); raw_query = q })
twin_response_url authority_ok rc q h =
    let p = codes "iothub/twin/res/" ++ (format rc ++ codes "/") in
    ap (λ s. parse authority_ok (twin_prefix ++ s))
      (append_assoc (format rc) (codes "/?") q
        ∙ sym (append_assoc (format rc) (codes "/") (b'?' ∷ q)))
    ∙ parse_dollar authority_ok p q
        (IsPlainPath-append twin_prefix (format rc ++ codes "/") (omega arith)
          (IsPlainPath-append (format rc) (codes "/") (format-IsPlainPath rc) (omega arith)))
        h

trim_twin_path :
    (rc : ℕ) → trim b'/' (twin_prefix ++ (format rc ++ codes "/")) ≡ twin_prefix ++ format rc
unfolding trim
trim_twin_path rc =
    trim_right_last b'/' twin_prefix (format rc) (format-Lacks b'/' rc (λ h. omega arith))
      (format-ne-nil rc)

parse_twin_props_topic_of :
    (authority_ok : Str → Bool) (topic path raw s r : Str) (rc rid ver : ℤ)
    → parse authority_ok topic ≡ some (record { path = path; raw_query = raw })
    → trim b'/' path ≡ twin_prefix ++ s
    → values (codes "$rid") (query raw) ≡ r ∷ []
    → atoi s ≡ some rc
    → atoi r ≡ some rid
    → version (values (codes "$version") (query raw)) ≡ ok ver
    → parse_twin_props_topic authority_ok topic ≡ ok (rc, rid, ver)
unfolding parse_twin_props_topic
parse_twin_props_topic_of authority_ok topic path raw s r rc rid ver e trimmed rids code request v =
    rw (parse_twin_props_topic, e)
      (rw trimmed (
        rw (has_prefix-append twin_prefix s, drop_prefix-append twin_prefix s, code)
          (rw (rids, request) (rw v refl))))

abbrev pub rid_field : ℕ → Str
rid_field rid = codes "$rid=" ++ format rid

abbrev pub version_field : ℕ → Str
version_field ver = codes "$version=" ++ format ver

field-Lacks : (name : Str) (n : ℕ) → Lacks b'#' name → Lacks b'#' (name ++ format n)
field-Lacks name n h = Lacks-append b'#' name (format n) h (format-Lacks b'#' n (λ d. omega arith))

rid_values :
    (rid : ℕ)
    → (values (codes "$rid") (query (rid_field rid)) ≡ format rid ∷ [])
      × (values (codes "$version") (query (rid_field rid)) ≡ [])
unfolding values lookup str_eq
rid_values rid = rw (rid_query rid) (refl, refl)

-- A response with any int status and request id is read back, with version 0.
pub parse_twin_props_topic-twin_response :
    (authority_ok : Str → Bool) (rc rid : ℕ)
    → rc ≤ max_int
    → rid ≤ max_int
    → parse_twin_props_topic authority_ok (twin_response rc (rid_field rid))
      ≡ ok (pos rc, pos rid, pos 0)
parse_twin_props_topic-twin_response authority_ok rc rid h k =
    let (rids, vers) = rid_values rid in
    parse_twin_props_topic_of authority_ok _ _ _ (format rc) (format rid) (pos rc) (pos rid) (pos 0)
      (twin_response_url authority_ok rc (rid_field rid)
        (field-Lacks (codes "$rid=") rid (omega arith)))
      (trim_twin_path rc) rids (atoi-format rc h) (atoi-format rid k)
      (rw vers (unfold version in refl))

version_query :
    (rid ver : ℕ)
    → query (rid_field rid ++ b'&' ∷ version_field ver)
      ≡ (codes "$rid", format rid ∷ []) ∷ (codes "$version", format ver ∷ []) ∷ []
unfolding insert values lookup str_eq
version_query rid ver =
    query_two (codes "$rid") (format rid) (codes "$version") (format ver) (omega arith)
      (omega arith) (omega arith) (format-IsPlainText rid) (omega arith) (format-IsPlainText ver)

version_values :
    (rid ver : ℕ)
    → (values (codes "$rid") (query (rid_field rid ++ b'&' ∷ version_field ver)) ≡ format rid ∷ [])
      × (values (codes "$version") (query (rid_field rid ++ b'&' ∷ version_field ver))
          ≡ format ver ∷ [])
unfolding values lookup str_eq
version_values rid ver = rw (version_query rid ver) (refl, refl)

version_of_format : (ver : ℕ) → ver ≤ max_int → version (format ver ∷ []) ≡ ok (pos ver)
unfolding version
version_of_format ver h = rw (atoi-format ver h)

-- A response that states a version, as those to updates do, is read back with it.
pub parse_twin_props_topic-version :
    (authority_ok : Str → Bool) (rc rid ver : ℕ)
    → rc ≤ max_int
    → rid ≤ max_int
    → ver ≤ max_int
    → parse_twin_props_topic authority_ok
        (twin_response rc (rid_field rid ++ b'&' ∷ version_field ver))
      ≡ ok (pos rc, pos rid, pos ver)
parse_twin_props_topic-version authority_ok rc rid ver h k l =
    let (rids, vers) = version_values rid ver in
    parse_twin_props_topic_of authority_ok _ _ _ (format rc) (format rid) (pos rc) (pos rid)
      (pos ver)
      (twin_response_url authority_ok rc (rid_field rid ++ b'&' ∷ version_field ver) (
        Lacks-append b'#' (rid_field rid) (b'&' ∷ version_field ver)
          (field-Lacks (codes "$rid=") rid (omega arith))
          (omega arith, field-Lacks (codes "$version=") ver (omega arith))))
      (trim_twin_path rc) rids (atoi-format rc h) (atoi-format rid k)
      (rw vers (version_of_format ver l))

-- A name that stands as one level of a topic, with nothing in it to decode.
pub record IsMethodName (name : Str) : Type 0 where
  pub not_blank : name ≢ []
  pub no_slash : Lacks b'/' name
  pub plain_path : IsPlainPath name

abbrev pub method_topic : Str → ℕ → Str
method_topic name rid = method_prefix ++ (name ++ (codes "/?" ++ rid_field rid))

method_topic_url :
    (authority_ok : Str → Bool) (name : Str) (rid : ℕ)
    → IsMethodName name
    → parse authority_ok (method_topic name rid)
      ≡ some (record { path = method_prefix ++ (name ++ codes "/"); raw_query = rid_field rid })
method_topic_url authority_ok name rid h =
    let p = codes "iothub/methods/POST/" ++ (name ++ codes "/") in
    ap (λ s. parse authority_ok (method_prefix ++ s))
      (sym (append_assoc name (codes "/") (b'?' ∷ rid_field rid)))
    ∙ parse_dollar authority_ok p (rid_field rid)
        (IsPlainPath-append method_prefix (name ++ codes "/") (omega arith)
          (IsPlainPath-append name (codes "/") h.plain_path (omega arith)))
        (field-Lacks (codes "$rid=") rid (omega arith))

unescape-method_topic :
    (name : Str) (rid : ℕ)
    → IsMethodName name
    → unescape true (method_topic name rid) ≡ some (method_topic name rid)
unescape-method_topic name rid h =
    let tail = codes "/?" ++ rid_field rid in
    unescape_of_Lacks true (method_topic name rid)
      (Lacks-append b'%' method_prefix (name ++ tail) (omega arith) (
        Lacks-append b'%' name tail h.plain_path.no_percent (
          Lacks-append b'%' (codes "/?$rid=") (format rid) (omega arith)
            (format-Lacks b'%' rid (λ d. omega arith)))))
      (Lacks-append b'+' method_prefix (name ++ tail) (omega arith) (
        Lacks-append b'+' name tail h.plain_path.no_plus (
          Lacks-append b'+' (codes "/?$rid=") (format rid) (omega arith)
            (format-Lacks b'+' rid (λ d. omega arith)))))

-- The topic of a direct method call is read back as the method's name and the request id.
pub parse_direct_method_topic-method_topic :
    (authority_ok : Str → Bool) (name : Str) (rid : ℕ)
    → IsMethodName name
    → rid ≤ max_int
    → parse_direct_method_topic authority_ok (method_topic name rid) ≡ ok (name, pos rid)
unfolding parse_direct_method_topic
parse_direct_method_topic-method_topic authority_ok name rid h k =
    rw (parse_direct_method_topic, unescape-method_topic name rid h)
      (rw (method_topic_url authority_ok name rid h) (
        rw (trim_right_last b'/' method_prefix name h.no_slash h.not_blank) (
          rw
            (
              has_prefix-append method_prefix name,
              drop_prefix-append method_prefix name,
              (rid_values rid).0,
              atoi-format rid k,
            )
            refl)))
