-- ===== src/Mqtt/Port/Laws.antt =====
-- A twin request of the device client over MQTT, from the call to the answer that it takes.
use iothub.Base.{
  ℕ, ◌≤◌, ◌≡◌, refl, sym, ap, ◌∙◌, ◌==◌, Bool, true, false, List, [], ◌∷◌, ◌++◌, append-nil,
  append_assoc, Option, none, some, Str, Outcome, ok, fail, panic, timed_out, ◌>>=◌, arith,
  if◌then◌else◌,
}
use iothub.Base.Int.{ℤ, pos}
use iothub.Creds.{Creds}
use iothub.Go.Decimal.{max_int}
use iothub.Device.Client.{Client, connected, retrieve_twin_state}
use iothub.Device.Client.Laws.{retrieve_twin_state-result}
use iothub.Mqtt.Topics.{twin_get_topic}
use iothub.Mqtt.Topics.Laws.{twin_response, rid_field}
use iothub.Mqtt.Transport.{Broker, Response, Transport, Ran}
use iothub.Mqtt.Requests.{received, waiting, Wake, got, elapsed, on_twin_response, finish_request}
use iothub.Mqtt.Requests.Laws.{
  appended, check_code_accepts, on_twin_response-received, begin_request_lem,
}
use iothub.Mqtt.Callbacks.{begin_retrieve, finish_retrieve}
use iothub.Mqtt.Port.{waited, retrieve_twin_properties, mqtt_port}

-- An answer of the hub to the request with this id.
pub record Answer : Type 0 where
  pub status : ℕ
  pub id : ℕ
  pub payload : Str

pub record IsInt (a : Answer) : Type 0 where
  pub status_bound : a.status ≤ max_int
  pub id_bound : a.id ≤ max_int

abbrev pub AreInts : List Answer → Type 0
AreInts [] = Unit
AreInts (a ∷ l) = IsInt a × AreInts l

-- The responses among them for one request, in the order of their arrival.
unfoldable pub meant_for : ℕ → List Answer → List Response
meant_for rid [] = []
meant_for rid (a ∷ l) =
    let rest = meant_for rid l in
    if a.id == rid
    then record { code = pos a.status; body = a.payload; ver = pos 0 } ∷ rest
    else rest

-- The wait ends with the first response in the channel, or by the timer if it holds none.
abbrev pub woken : Option (List Response) → Wake
woken none = elapsed
woken (some []) = elapsed
woken (some (r ∷ rs)) = got r

abbrev extended : List Response → Option (List Response) → Option (List Response)
extended more none = none
extended more (some rs) = some (rs ++ more)

extended-nil : (o : Option (List Response)) → o ≡ extended [] o
extended-nil none = refl
extended-nil (some rs) = ap some (sym (append-nil rs))

extended-appended :
    (b : Bool) (r : Response) (more : List Response) (o : Option (List Response))
    → extended more (if b then appended r o else o) ≡ extended (if b then r ∷ more else more) o
extended-appended false r more o = refl
extended-appended true r more none = refl
extended-appended true r more (some rs) = ap some (append_assoc rs (r ∷ []) more)

module _ {World : Type 0} (authority_ok : Str → Bool) where
  -- The callback of the twin responses, once for each answer.
  unfoldable pub hear : List Answer → Transport World → Transport World
  hear [] tr = tr
  hear (a ∷ l) tr =
      hear l (on_twin_response authority_ok (twin_response a.status (rid_field a.id)) a.payload tr)

  -- What happens while a request waits, when these answers arrive.
  unfoldable pub hub_answers : List Answer → ℕ → Transport World → Transport World × Wake
  unfolding hear
  hub_answers l rid tr = (hear l tr, woken (received rid (waiting (hear l tr))))

  hear-received :
      (l : List Answer) (rid : ℕ) (tr : Transport World)
      → AreInts l
      → received rid (waiting (hear l tr)) ≡ extended (meant_for rid l) (received rid (waiting tr))
  unfolding hear meant_for
  hear-received [] rid tr b = extended-nil (received rid (waiting tr))
  hear-received (a ∷ l) rid tr (h, b) =
      let first = twin_response a.status (rid_field a.id) in
      hear-received l rid (on_twin_response authority_ok first a.payload tr) b
      ∙ ap (extended (meant_for rid l)) (
          on_twin_response-received authority_ok a.payload a.status a.id rid none tr h.status_bound
            h.id_bound (omega arith))
      ∙ extended-appended (a.id == rid) _ (meant_for rid l) (received rid (waiting tr))

-- What a request returns for the responses that it was given.
abbrev pub first_body : List Response → Outcome Str
first_body [] = fail timed_out
first_body (r ∷ rs) = ok r.body

finish_retrieve-woken :
    {World : Type 0} (rid : ℕ) (rs : List Response) (tr : Transport World)
    → (finish_retrieve rid (woken (some rs)) tr).1 ≡ first_body rs
unfolding finish_retrieve finish_request
finish_retrieve-woken rid [] tr = refl
finish_retrieve-woken rid (r ∷ rs) tr = rw (check_code_accepts r) refl

if_same : {A : Type 0} (n : ℕ) (x y : A) → (if n == n then x else y) ≡ x
if_same n x y = ground arith

module _ {World : Type 0} (broker : Broker World) (authority_ok : Str → Bool) where
  waited-first :
      (l : List Answer) (rid : ℕ) (p : Ran World ℕ)
      → AreInts l
      → p.1 ≡ ok rid
      → received rid (waiting p.0) ≡ some []
      → (waited (hub_answers authority_ok l) finish_retrieve p).1 ≡ first_body (meant_for rid l)
  unfolding waited hub_answers
  waited-first l rid (u, ok n) b e h =
      let same : n ≡ rid = cc in
      let table = hear-received authority_ok l rid u b ∙ ap (extended (meant_for rid l)) h in
      rw (same, table) (finish_retrieve-woken rid (meant_for rid l) (hear authority_ok l u))
  waited-first l rid (u, fail x) b e h = cc
  waited-first l rid (u, panic) b e h = cc

  -- RetrieveTwinState on a connected client over MQTT, when its request goes out under some id and
  -- the hub answers in any order, to this request and others, with ids and codes that fit an int and
  -- no version: the client returns the states in the first answer to its own request, and the timer's
  -- error if there is none.
  pub retrieve_twin_state-first :
      {Twin Object State : Type 0} (format_time : ℤ → Str) (creds : Creds)
      (unmarshal : Str → Outcome (State × State)) (l : List Answer) (rid : ℕ)
      (c : Client (Transport World) Twin Object)
      → AreInts l
      → (begin_retrieve broker c.world).1 ≡ ok rid
      → (retrieve_twin_state
          (mqtt_port (hub_answers authority_ok l) broker format_time creds)
          unmarshal
          connected
          c).1
        ≡ (first_body (meant_for rid l) >>= unmarshal)
  unfolding mqtt_port retrieve_twin_properties begin_retrieve
  retrieve_twin_state-first format_time creds unmarshal l rid c b e =
      retrieve_twin_state-result (mqtt_port (hub_answers authority_ok l) broker format_time creds)
        unmarshal c
      ∙ ap (λ o. o >>= unmarshal)
          (waited-first l rid (begin_retrieve broker c.world) b e (
            (begin_request_lem broker twin_get_topic [] c.world rid e).1 rid
            ∙ if_same rid (some []) (received rid (waiting c.world))))
