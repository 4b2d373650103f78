-- ===== src/Mqtt/Requests/Steps.antt =====
-- The MQTT transport over time: calls of its methods, reconnections and responses of the hub, in any
-- order.
use iothub.Base.{
  true, false, ◌||◌, Option, Outcome, ℕ, ◌+◌, ◌%◌, ◌^◌, ◌≡◌, refl, Bool, List, [], none, some, Str,
  arith, inl, inr, ok, fail, panic, ap, ◌∙◌, sym,
}
use iothub.Base.Int.{ℤ}
use iothub.Mqtt.Topics.{parse_twin_props_topic}
use iothub.Mqtt.Transport.{
  Broker, Waiting, Transport, Ran, SubFunc, sub_twin_responses, sub, resubscribe, on_connect,
  connect_transport, send, close,
}
use mathlib.Core.Path.{subst}
use iothub.Mqtt.Transport.Laws.{resubscribe-kept}
use iothub.Mqtt.Requests.{
  forget, published, hand_over, deliver, default_qos, waiting, Wake, got, elapsed, cancelled,
  on_twin_response, finish_request, enable_twin_responses, installed, issue, enabled, begin_request,
}
use iothub.Mqtt.Requests.Table.{await-IsTable}
use iothub.Mqtt.Requests.WellFormed.{
  IsNoResponseSub, IsWellFormed, same-IsWellFormed, sub-IsWellFormed, enable-cases,
  enable-IsWellFormed, finish-IsWellFormed, deliver-IsWellFormed, published-IsWellFormed, sub-kept,
  connect-kept, send-kept, send-IsWellFormed, close-kept, connect-IsWellFormed,
}

abbrev pub is_table : Option (List Waiting) → Bool
is_table none = false
is_table (some ws) = true

or_false : (b : Bool) → b ≡ (b || false)
or_false true = refl
or_false false = refl

or_assoc : (a b c : Bool) → ((a || b) || c) ≡ (a || (b || c))
or_assoc true b c = refl
or_assoc false b c = refl

abbrev pub has_table : {World : Type 0} → Transport World → Bool
has_table tr = is_table tr.resp

abbrev pub passed : Outcome (Unit {0}) → Bool
passed (ok u) = true
passed (fail e) = false
passed panic = false

module _ {World : Type 0} (broker : Broker World) (authority_ok : Str → Bool) where
  pub data Step (tr : Transport World) : Transport World → Type 0 where
    connects : (did : Str) → Step tr (connect_transport broker did tr).0
    subscribes : (f : SubFunc) → IsNoResponseSub f → Step tr (sub broker f tr).0
    sends : (topic : Str) (qos : ℕ) (b : Str) → Step tr (send broker topic qos b tr).0
    requests : (topic : ℕ → Str) (b : Str) → Step tr (begin_request broker topic b tr).0
    hears : (topic payload : Str) → Step tr (on_twin_response authority_ok topic payload tr)
    wakes : (rid : ℕ) (wake : Wake) → Step tr (finish_request rid wake tr).0
    reconnects : Step tr (on_connect broker tr).0
    closes : Step tr (close broker tr).0

  pub data History (tr : Transport World) : Transport World → Type 0 where
    here : History tr tr
    next : {u v : Transport World} → History tr u → Step u v → History tr v

  issue-IsWellFormed :
      (topic : ℕ → Str) (b : Str) (tr : Transport World) (ws : List Waiting)
      → tr.resp ≡ some ws
      → IsWellFormed tr
      → IsWellFormed (issue broker topic b tr).0
  unfolding issue
  issue-IsWellFormed topic b tr ws on v =
      let rid = (tr.rid + 1) % 2 ^ 32 in
      published-IsWellFormed broker rid _ (
        send-IsWellFormed broker (topic rid) default_qos b _ (record {
          offline = λ off. let (_, no_table) = v.offline off in cc;
          responses = v.responses ∙ ap (λ o. elim o [ none ↦ 0 | some ws ↦ 1 ]) on;
          table = await-IsTable rid (waiting tr) (omega arith) v.table;
        }))

  installed-table :
      (p : Ran World (Unit {0})) (u : Unit {0})
      → (installed broker p).1 ≡ ok u
      → (installed broker p).0.resp ≡ some []
  unfolding installed
  installed-table (tr, ok x) u e = refl
  installed-table (tr, fail x) u e = cc
  installed-table (tr, panic) u e = cc

  enable-table :
      (tr : Transport World)
      → (ws : List Waiting) × ((u : Unit {0})
          → (enable_twin_responses broker tr).1 ≡ ok u
          → (enable_twin_responses broker tr).0.resp ≡ some ws)
  enable-table tr = elim (enable-cases broker tr) [
    | inl (e, off) ↦ (
      [],
      (λ u.
          subst (λ p. p.1 ≡ ok u → p.0.resp ≡ some []) (sym e)
            (installed-table (sub broker sub_twin_responses tr) u)),
    )
    | inr (e, ws, on) ↦ (ws, (λ u h. ap (λ p. p.0.resp) e ∙ on))
  ]

  enabled-IsWellFormed :
      (topic : ℕ → Str) (b : Str) (p : Ran World (Unit {0})) (ws : List Waiting)
      → ((u : Unit {0}) → p.1 ≡ ok u → p.0.resp ≡ some ws)
      → IsWellFormed p.0
      → IsWellFormed (enabled broker topic b p).0
  unfolding enabled
  enabled-IsWellFormed topic b (tr, ok u) ws on v = issue-IsWellFormed topic b tr ws (on u refl) v
  enabled-IsWellFormed topic b (tr, fail e) ws on v = v
  enabled-IsWellFormed topic b (tr, panic) ws on v = v

  begin-IsWellFormed :
      (topic : ℕ → Str) (b : Str) (tr : Transport World)
      → IsWellFormed tr
      → IsWellFormed (begin_request broker topic b tr).0
  unfolding begin_request
  begin-IsWellFormed topic b tr v =
      let (ws, on) = enable-table tr in
      enabled-IsWellFormed topic b (enable_twin_responses broker tr) ws on
        (enable-IsWellFormed broker tr v)

  -- Every step keeps the transport well formed.
  Step-IsWellFormed : {tr u : Transport World} → Step tr u → IsWellFormed tr → IsWellFormed u
  Step-IsWellFormed {tr} (connects did) v = connect-IsWellFormed broker did tr v
  Step-IsWellFormed {tr} (subscribes f n) v = sub-IsWellFormed broker f tr n v
  Step-IsWellFormed {tr} (sends topic qos b) v = send-IsWellFormed broker topic qos b tr v
  Step-IsWellFormed {tr} (requests topic b) v = begin-IsWellFormed topic b tr v
  Step-IsWellFormed {tr} (hears topic payload) v =
      unfold on_twin_response in
      deliver-IsWellFormed broker payload tr (parse_twin_props_topic authority_ok topic) v
  Step-IsWellFormed {tr} (wakes rid wake) v = finish-IsWellFormed broker rid wake tr v
  Step-IsWellFormed {tr} reconnects v =
      let (c, s, r) = resubscribe-kept broker tr.subs tr in
      unfold on_connect in same-IsWellFormed broker tr (resubscribe broker tr.subs tr).0 c s r v
  Step-IsWellFormed {tr} closes v =
      let (c, s, r) = close-kept broker tr in
      same-IsWellFormed broker tr (close broker tr).0 c s r v

  -- Whether a request was made whose subscription to the responses is there or passes now.
  asked_by : {tr u : Transport World} → Step tr u → Bool
  asked_by {tr} (requests topic b) = passed (enable_twin_responses broker tr).1
  asked_by _ = false

  unfoldable pub asked : {tr u : Transport World} → History tr u → Bool
  unfolding asked_by
  asked here = false
  asked (next r st) = asked r || asked_by st

  change-has_table :
      (f : List Waiting → List Waiting) (o : Option (List Waiting))
      → is_table (elim o [ none ↦ none | some ws ↦ some (f ws) ]) ≡ is_table o
  change-has_table f none = refl
  change-has_table f (some ws) = refl

  published-has_table :
      (rid : ℕ) (p : Ran World (Unit {0})) → has_table (published broker rid p).0 ≡ has_table p.0
  unfolding published
  published-has_table rid (u, ok x) = refl
  published-has_table rid (u, fail x) = change-has_table (forget rid) u.resp
  published-has_table rid (u, panic) = change-has_table (forget rid) u.resp

  issue-has_table :
      (topic : ℕ → Str) (b : Str) (tr : Transport World)
      → has_table (issue broker topic b tr).0 ≡ true
  unfolding issue
  issue-has_table topic b tr =
      published-has_table ((tr.rid + 1) % 2 ^ 32) _
      ∙ ap is_table (send-kept broker _ default_qos b _).2

  installed-has_table :
      (topic : ℕ → Str) (b : Str) (p : Ran World (Unit {0}))
      → has_table p.0 ≡ false
      → has_table (enabled broker topic b (installed broker p)).0 ≡ passed (installed broker p).1
  unfolding enabled installed
  installed-has_table topic b (u, ok x) off = issue-has_table topic b (record u { resp = some [] })
  installed-has_table topic b (u, fail x) off = off
  installed-has_table topic b (u, panic) off = off

  begin-has_table :
      (topic : ℕ → Str) (b : Str) (tr : Transport World)
      → has_table (begin_request broker topic b tr).0
        ≡ (has_table tr || passed (enable_twin_responses broker tr).1)
  unfolding begin_request
  begin-has_table topic b tr = elim (enable-cases broker tr) [
    | inl (e, off) ↦
        let still : has_table (sub broker sub_twin_responses tr).0 ≡ false =
          ap is_table ((sub-kept broker sub_twin_responses tr).1 ∙ off) in
        let q = installed broker (sub broker sub_twin_responses tr) in
        subst (λ p. has_table (enabled broker topic b p).0 ≡ (is_table tr.resp || passed p.1))
          (sym e)
          (installed-has_table topic b (sub broker sub_twin_responses tr) still
            ∙ ap (λ o. is_table o || passed q.1) (sym off))
    | inr (e, ws, on) ↦
        subst (λ p. has_table (enabled broker topic b p).0 ≡ (is_table tr.resp || passed p.1))
          (sym e)
          (unfold enabled in issue-has_table topic b tr ∙ ap (λ o. is_table o || true) (sym on))
  ]

  deliver-has_table :
      (payload : Str) (tr : Transport World) (said : Outcome (ℤ × ℤ × ℤ))
      → has_table (deliver payload tr said) ≡ has_table tr
  unfolding deliver
  deliver-has_table payload tr (ok (rc, rid, ver)) =
      change-has_table (hand_over rid (record { code = rc; body = payload; ver = ver })) tr.resp
  deliver-has_table payload tr (fail e) = refl
  deliver-has_table payload tr panic = refl

  finish-has_table :
      (rid : ℕ) (wake : Wake) (tr : Transport World)
      → has_table (finish_request rid wake tr).0 ≡ has_table tr
  unfolding finish_request
  finish-has_table rid (got r) tr = change-has_table (forget rid) tr.resp
  finish-has_table rid elapsed tr = change-has_table (forget rid) tr.resp
  finish-has_table rid (cancelled e) tr = change-has_table (forget rid) tr.resp

  same_table :
      (tr : Transport World) (resp : Option (List Waiting))
      → resp ≡ tr.resp
      → is_table resp ≡ (has_table tr || false)
  same_table tr resp e = ap is_table e ∙ or_false (has_table tr)

  Step-has_table :
      {tr u : Transport World} (st : Step tr u) → has_table u ≡ (has_table tr || asked_by st)
  unfolding asked_by on_connect on_twin_response
  Step-has_table {tr} (connects did) = same_table tr _ (connect-kept broker did tr).2
  Step-has_table {tr} (subscribes f n) = same_table tr _ (sub-kept broker f tr).1
  Step-has_table {tr} (sends topic qos b) = same_table tr _ (send-kept broker topic qos b tr).2
  Step-has_table {tr} (requests topic b) = begin-has_table topic b tr
  Step-has_table {tr} (hears topic payload) =
      deliver-has_table payload tr (parse_twin_props_topic authority_ok topic)
      ∙ or_false (has_table tr)
  Step-has_table {tr} (wakes rid wake) = finish-has_table rid wake tr ∙ or_false (has_table tr)
  Step-has_table {tr} reconnects = same_table tr _ (resubscribe-kept broker tr.subs tr).2
  Step-has_table {tr} closes = same_table tr _ (close-kept broker tr).2

  -- From a well-formed transport, calls, reconnections and responses in any order lead to well-formed
  -- ones only: without a connection no subscription is kept and no request waits; the subscription to
  -- twin responses is kept once if there is a table of requests, and not otherwise; and the requests
  -- that wait have distinct ids of 32 bits. There is a table exactly if there was one before, or a
  -- request was made since whose subscription to the responses passed: no other call makes or removes
  -- it.
  pub History-IsWellFormed :
      {tr u : Transport World} (h : History tr u)
      → IsWellFormed tr
      → IsWellFormed u × (has_table u ≡ (has_table tr || asked h))
  unfolding asked
  History-IsWellFormed {tr} here v = (v, or_false (has_table tr))
  History-IsWellFormed {tr} (next r st) v =
      let (w, made) = History-IsWellFormed r v in
      (
        Step-IsWellFormed st w,
        Step-has_table st
            ∙ ap (λ b. b || asked_by st) made
            ∙ or_assoc (has_table tr) (asked r) (asked_by st),
      )
