-- ===== src/Mqtt/Requests.antt =====
-- iotdevice/transport/mqtt/mqtt.go: twin requests and the responses that answer them. A request has
-- two parts, around the wait in its `select`; in between the responses of the hub arrive.
pub mod Laws
pub mod Table
pub mod WellFormed
pub mod Steps
use iothub.Base.{
  ℕ, ◌+◌, ◌%◌, ◌^◌, Bool, true, false, List, [], ◌∷◌, ◌++◌, Option, none, some, Str, codes, Outcome,
  ok, fail, panic, Error, request_failed, timed_out, ◌==◌, ◌&&◌, if◌then◌else◌,
}
use iothub.Base.Int.{ℤ, pos, int_ltb, int_eq}
use iothub.Mqtt.Topics.{parse_twin_props_topic}
use iothub.Mqtt.Transport.{Broker, Response, Waiting, Transport, Ran, sub_twin_responses, sub, send}

abbrev pub default_qos : ℕ
default_qos = 1

-- `delete(tr.resp, rid)`
unfoldable pub forget : ℕ → List Waiting → List Waiting
forget rid [] = []
forget rid (w ∷ ws) = let rest = forget rid ws in if w.rid == rid then rest else w ∷ rest

-- `tr.resp[rid] = rch`, a channel that holds nothing yet.
unfoldable pub await : ℕ → List Waiting → List Waiting
unfolding forget
await rid ws = record { rid = rid; received = [] } ∷ forget rid ws

-- The channel of the request with this id takes the response: at once if its buffer is free, and
-- from a goroutine otherwise, so behind what it holds.
unfoldable pub hand_over : ℤ → Response → List Waiting → List Waiting
hand_over rid r [] = []
hand_over rid r (w ∷ ws) =
    let rest = hand_over rid r ws in
    if int_eq (pos w.rid) rid then record w { received = w.received ++ r ∷ [] } ∷ ws else w ∷ rest

-- What the request with this id was sent, or `none` if it does not wait.
unfoldable pub received : ℕ → List Waiting → Option (List Response)
received rid [] = none
received rid (w ∷ ws) = if w.rid == rid then some w.received else received rid ws

abbrev pub waiting : {World : Type 0} → Transport World → List Waiting
waiting tr = elim tr.resp [ none ↦ [] | some ws ↦ ws ]

-- The test of a response's code, as it is written.
unfoldable pub check_code : Response → Outcome Response
check_code r =
    if int_ltb r.code (pos 200) && int_ltb (pos 299) r.code then fail request_failed else ok r

-- What ends the wait: the channel, the timer of 30 seconds or the context.
pub data Wake : Type 0 where
  got : Response → Wake
  elapsed : Wake
  cancelled : Error → Wake

module _ {World : Type 0} where
  -- The callback of the twin responses, its topic parsed.
  pub deliver : Str → Transport World → Outcome (ℤ × ℤ × ℤ) → Transport World
  unfolding hand_over
  deliver payload tr (ok (rc, rid, ver)) =
      let r : Response = record { code = rc; body = payload; ver = ver } in
      record tr { resp = elim tr.resp [ none ↦ none | some ws ↦ some (hand_over rid r ws) ] }
  deliver payload tr (fail e) = tr
  deliver payload tr panic = tr

  unfoldable pub on_twin_response : (Str → Bool) → Str → Str → Transport World → Transport World
  unfolding deliver
  on_twin_response authority_ok topic payload tr =
      deliver payload tr (parse_twin_props_topic authority_ok topic)

  abbrev release : ℕ → Transport World → Transport World
  release rid tr = record tr {
    resp = elim tr.resp [ none ↦ none | some ws ↦ some (forget rid ws) ];
  }

  -- Behind the wait; the deferred function has removed the entry.
  unfoldable pub finish_request : ℕ → Wake → Transport World → Ran World Response
  unfolding forget check_code
  finish_request rid (got r) tr = (release rid tr, check_code r)
  finish_request rid elapsed tr = (release rid tr, fail timed_out)
  finish_request rid (cancelled e) tr = (release rid tr, fail e)

  module _ (broker : Broker World) where
    pub installed : Ran World (Unit {0}) → Ran World (Unit {0})
    installed (tr, ok u) = (record tr { resp = some [] }, ok u)
    installed (tr, fail e) = (tr, fail e)
    installed (tr, panic) = (tr, panic)

    -- The subscription to twin responses is made before the first request.
    unfoldable pub enable_twin_responses : Transport World → Ran World (Unit {0})
    unfolding installed
    enable_twin_responses tr = elim tr.resp [
      | none ↦ installed (sub broker sub_twin_responses tr)
      | some ws ↦ (tr, ok tt)
    ]

    pub published : ℕ → Ran World (Unit {0}) → Ran World ℕ
    unfolding forget
    published rid (tr, ok u) = (tr, ok rid)
    published rid (tr, fail e) = (release rid tr, fail e)
    published rid (tr, panic) = (release rid tr, panic)

    -- The counter is a uint32.
    issue : (ℕ → Str) → Str → Transport World → Ran World ℕ
    unfolding await published
    issue topic b tr =
        let rid = (tr.rid + 1) % 2 ^ 32 in
        published rid (
          send broker (topic rid) default_qos b
            (record tr { rid = rid; resp = some (await rid (waiting tr)) }))

    enabled : (ℕ → Str) → Str → Ran World (Unit {0}) → Ran World ℕ
    unfolding issue
    enabled topic b (tr, ok u) = issue topic b tr
    enabled topic b (tr, fail e) = (tr, fail e)
    enabled topic b (tr, panic) = (tr, panic)

    -- The part of `request` before the wait; it yields the id to wait for.
    unfoldable pub begin_request : (ℕ → Str) → Str → Transport World → Ran World ℕ
    unfolding enabled
    begin_request topic b tr = enabled topic b (enable_twin_responses tr)
