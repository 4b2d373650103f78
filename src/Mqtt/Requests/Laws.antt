-- ===== src/Mqtt/Requests/Laws.antt =====
-- A response reaches the request that it answers, and the table of waiting requests stays a map.
use iothub.Base.{
  ℕ, ◌+◌, ◌%◌, ◌^◌, ◌≤◌, ◌≡◌, refl, inl, inr, Bool, List, [], ◌∷◌, ◌++◌, Option, none, some, Str,
  ok, fail, panic, timed_out, arith, ◌==◌, if◌then◌else◌, ap, ◌∙◌, Option-cases,
}
use iothub.Base.Int.{ℤ, pos, negsuc}
use iothub.Go.Decimal.{max_int}
use iothub.Mqtt.Topics.{parse_twin_props_topic}
use iothub.Mqtt.Topics.Laws.{
  twin_response, rid_field, version_field, parse_twin_props_topic-version,
  parse_twin_props_topic-twin_response,
}
use iothub.Mqtt.Transport.{
  Broker, Response, Waiting, Transport, Ran, SubFunc, sub_twin_responses, sub, send,
}
use iothub.Mqtt.Requests.{
  forget, await, hand_over, received, waiting, check_code, Wake, got, elapsed, cancelled, deliver,
  release, on_twin_response, finish_request, enable_twin_responses, issue, enabled, begin_request,
}

-- Whatever its code, a response is taken for a success: no number is below 200 and above 299.
pub check_code_accepts : (r : Response) → check_code r ≡ ok r
unfolding check_code
check_code_accepts r = go r.code refl
  where
    go : (c : ℤ) → r.code ≡ c → check_code r ≡ ok r
    go (pos n) e = ground arith
    go (negsuc n) e = ground arith

pub received-forget :
    (rid other : ℕ) (ws : List Waiting)
    → received other (forget rid ws) ≡ (if rid == other then none else received other ws)
unfolding received forget
received-forget rid other [] = ground arith
received-forget rid other (w ∷ ws) = ground (arith, received-forget rid other ws)

pub received-await :
    (rid other : ℕ) (ws : List Waiting)
    → received other (await rid ws) ≡ (if rid == other then some [] else received other ws)
unfolding received await
received-await rid other ws = ground (arith, received-forget rid other ws)

abbrev pub appended : Response → Option (List Response) → Option (List Response)
appended r none = none
appended r (some rs) = some (rs ++ r ∷ [])

received-hand_over :
    (rid other : ℕ) (r : Response) (ws : List Waiting)
    → received other (hand_over (pos rid) r ws)
      ≡ (if rid == other then appended r (received other ws) else received other ws)
unfolding received hand_over
received-hand_over rid other r [] = ground arith
received-hand_over rid other r (w ∷ ws) = ground (arith, received-hand_over rid other r ws)

-- The query of a response, and the version that it says.
abbrev pub response_query : ℕ → Option ℕ → Str
response_query rid none = rid_field rid
response_query rid (some v) = rid_field rid ++ b'&' ∷ version_field v

abbrev pub version_of : Option ℕ → ℕ
version_of none = 0
version_of (some v) = v

parse-response_query :
    (authority_ok : Str → Bool) (rc rid : ℕ) (version : Option ℕ)
    → rc ≤ max_int
    → rid ≤ max_int
    → version_of version ≤ max_int
    → parse_twin_props_topic authority_ok (twin_response rc (response_query rid version))
      ≡ ok (pos rc, pos rid, pos (version_of version))
parse-response_query authority_ok rc rid none h k l =
    parse_twin_props_topic-twin_response authority_ok rc rid h k
parse-response_query authority_ok rc rid (some v) h k l =
    parse_twin_props_topic-version authority_ok rc rid v h k l

module _ {World : Type 0} where
  received-deliver :
      (payload : Str) (rc rid other ver : ℕ) (tr : Transport World)
      → received other (waiting (deliver payload tr (ok (pos rc, pos rid, pos ver)))) ≡ (
          if rid == other
          then appended
              (record { code = pos rc; body = payload; ver = pos ver })
              (received other (waiting tr))
          else received other (waiting tr))
  unfolding deliver received
  received-deliver payload rc rid other ver tr =
      let r : Response = record { code = pos rc; body = payload; ver = pos ver } in
      elim (Option-cases tr.resp) [
        | inl off ↦ ground arith
        | inr (ws, on) ↦ ground (arith, received-hand_over rid other r ws)
      ]

  on_twin_response_of :
      (authority_ok : Str → Bool) (topic payload : Str) (tr : Transport World)
      → on_twin_response authority_ok topic payload tr
        ≡ deliver payload tr (parse_twin_props_topic authority_ok topic)
  unfolding on_twin_response
  on_twin_response_of authority_ok topic payload tr = refl

  -- A response with a status, a request id and perhaps a version, all of which fit an int, is given to
  -- the request with that id, if one waits, behind what it was given before, with version 0 if it has
  -- none; every other request is given nothing.
  pub on_twin_response-received :
      (authority_ok : Str → Bool) (payload : Str) (rc rid other : ℕ) (version : Option ℕ)
      (tr : Transport World)
      → rc ≤ max_int
      → rid ≤ max_int
      → version_of version ≤ max_int
      → received other (
          waiting (
            on_twin_response authority_ok
              (twin_response rc (response_query rid version))
              payload
              tr))
        ≡ (if rid == other
            then appended
                (record { code = pos rc; body = payload; ver = pos (version_of version) })
                (received other (waiting tr))
            else received other (waiting tr))
  on_twin_response-received authority_ok payload rc rid other version tr h k l =
      ap (λ q. received other (waiting q))
        (on_twin_response_of authority_ok (twin_response rc (response_query rid version)) payload tr
          ∙ ap (deliver payload tr) (parse-response_query authority_ok rc rid version h k l))
      ∙ received-deliver payload rc rid other (version_of version) tr

  waiting_released :
      (rid other : ℕ) (tr : Transport World)
      → received other (waiting (release rid tr))
        ≡ (if rid == other then none else received other (waiting tr))
  unfolding received
  waiting_released rid other tr = elim (Option-cases tr.resp) [
    | inl off ↦ ground arith
    | inr (ws, on) ↦ ground (arith, received-forget rid other ws)
  ]

  -- However the wait ends, the request is forgotten and no other is; it returns the response that
  -- it got, whatever its code, or else the timer's or the context's error.
  pub finish_request_lem :
      (rid other : ℕ) (wake : Wake) (tr : Transport World)
      → (received other (waiting (finish_request rid wake tr).0)
          ≡ (if rid == other then none else received other (waiting tr)))
        × ((finish_request rid wake tr).1
            ≡ elim wake [ got r ↦ ok r | elapsed ↦ fail timed_out | cancelled e ↦ fail e ])
  unfolding finish_request
  finish_request_lem rid other (got r) tr = (waiting_released rid other tr, check_code_accepts r)
  finish_request_lem rid other elapsed tr = (waiting_released rid other tr, refl)
  finish_request_lem rid other (cancelled e) tr = (waiting_released rid other tr, refl)

module _ {World : Type 0} (broker : Broker World) where
  sub-kept :
      (f : SubFunc) (tr : Transport World)
      → ((sub broker f tr).0.rid ≡ tr.rid) × ((sub broker f tr).0.resp ≡ tr.resp)
  unfolding sub
  sub-kept f tr = ground arith

  enable_twin_responses-kept :
      (tr : Transport World)
      → ((enable_twin_responses broker tr).0.rid ≡ tr.rid)
        × (waiting (enable_twin_responses broker tr).0 ≡ waiting tr)
  unfolding enable_twin_responses
  enable_twin_responses-kept tr = elim (Option-cases tr.resp) [
    | inl off ↦ ground (arith, sub-kept sub_twin_responses tr)
    | inr (ws, on) ↦ ground arith
  ]

  issue-ok :
      (topic : ℕ → Str) (b : Str) (tr : Transport World) (rid : ℕ)
      → (issue broker topic b tr).1 ≡ ok rid
      → (rid ≡ (tr.rid + 1) % 2 ^ 32)
        × ((other : ℕ)
            → received other (waiting (issue broker topic b tr).0)
              ≡ (if rid == other then some [] else received other (waiting tr)))
  unfolding issue send
  issue-ok topic b tr rid e = (
    ground arith,
    (λ other. ground (arith, received-await ((tr.rid + 1) % 2 ^ 32) other (waiting tr))),
  )

  enabled-ok :
      (topic : ℕ → Str) (b : Str) (p : Ran World (Unit {0})) (rid : ℕ)
      → (enabled broker topic b p).1 ≡ ok rid
      → (rid ≡ (p.0.rid + 1) % 2 ^ 32)
        × ((other : ℕ)
            → received other (waiting (enabled broker topic b p).0)
              ≡ (if rid == other then some [] else received other (waiting p.0)))
  unfolding enabled
  enabled-ok topic b (tr, ok u) rid e = issue-ok topic b tr rid e
  enabled-ok topic b (tr, fail x) rid e = cc
  enabled-ok topic b (tr, panic) rid e = cc

  -- A request that was sent waits under the next id of the 32-bit counter with nothing received
  -- yet, in place of an older request of that id, and every other request waits as before.
  pub begin_request_lem :
      (topic : ℕ → Str) (b : Str) (tr : Transport World) (rid : ℕ)
      → (begin_request broker topic b tr).1 ≡ ok rid
      → (rid ≡ (tr.rid + 1) % 2 ^ 32)
        × ((other : ℕ)
            → received other (waiting (begin_request broker topic b tr).0)
              ≡ (if rid == other then some [] else received other (waiting tr)))
  unfolding begin_request
  begin_request_lem topic b tr rid e =
      let (same_rid, same_waiting) = enable_twin_responses-kept tr in
      let (new, table) = enabled-ok topic b (enable_twin_responses broker tr) rid e in
      (
        new ∙ ap (λ (n : ℕ). (n + 1) % 2 ^ 32) same_rid,
        (λ other.
            table other
            ∙ ap (λ ws. if rid == other then some [] else received other ws) same_waiting),
      )
