-- ===== src/Mqtt/Requests/WellFormed.antt =====
-- What holds of a transport and its table of requests at every moment, and what each operation does
-- to it.
use iothub.Base.{
  ℕ, ◌+◌, ◌≡◌, ◌≢◌, refl, true, false, List, [], ◌∷◌, ◌++◌, Option, none, some, Str, arith, inl,
  inr, ◌⊎◌, Outcome, ok, fail, panic, ap, ◌∙◌, sym,
}
use iothub.Base.Int.{ℤ}
use iothub.Mqtt.Transport.{
  Broker, Response, Waiting, Transport, Ran, SubFunc, sub_events, sub_twin_updates,
  sub_direct_methods, sub_twin_responses, sub, connect_transport, send, close,
}
use mathlib.Core.Path.{subst}
use iothub.Mqtt.Transport.Laws.{sub-Leaves}
use iothub.Mqtt.Requests.{
  forget, hand_over, waiting, Wake, got, elapsed, cancelled, deliver, release, finish_request,
  enable_twin_responses, installed, published,
}
use iothub.Mqtt.Requests.Table.{IsTable, forget-IsTable, hand_over-IsTable}

-- How often the subscription to twin responses is kept for reconnects.
unfoldable pub response_subs : List SubFunc → ℕ
response_subs [] = 0
response_subs (sub_twin_responses ∷ fs) = response_subs fs + 1
response_subs (_ ∷ fs) = response_subs fs

response_subs-append :
    (fs : List SubFunc) (f : SubFunc)
    → response_subs (fs ++ f ∷ []) ≡ response_subs fs + response_subs (f ∷ [])
unfolding response_subs
response_subs-append [] f = omega arith
response_subs-append (sub_events ∷ fs) f = omega (arith, response_subs-append fs f)
response_subs-append (sub_twin_updates ∷ fs) f = omega (arith, response_subs-append fs f)
response_subs-append (sub_direct_methods ∷ fs) f = omega (arith, response_subs-append fs f)
response_subs-append (sub_twin_responses ∷ fs) f = omega (arith, response_subs-append fs f)

abbrev pub IsNoResponseSub : SubFunc → Type 0
IsNoResponseSub f = response_subs (f ∷ []) ≡ 0

module _ {World : Type 0} where
  -- What holds of a transport at every moment: without a connection it has no subscription and no
  -- table; it keeps one subscription to twin responses if it has a table, and none if it has not.
  pub record IsWellFormed (tr : Transport World) : Type 0 where
    pub offline : tr.connected ≡ false → (tr.subs ≡ []) × (tr.resp ≡ none)
    pub responses : response_subs tr.subs ≡ elim tr.resp [ none ↦ 0 | some ws ↦ 1 ]
    pub table : IsTable (waiting tr)

module _ {World : Type 0} (broker : Broker World) where
  -- A change of what the table, the connection and the subscriptions do not depend on.
  pub same-IsWellFormed :
      (tr u : Transport World)
      → u.connected ≡ tr.connected
      → u.subs ≡ tr.subs
      → u.resp ≡ tr.resp
      → IsWellFormed tr
      → IsWellFormed u
  same-IsWellFormed tr u c s r v = record {
    offline = λ off. rw (s, r) (v.offline (sym c ∙ off));
    responses = rw (s, r) v.responses;
    table = rw r v.table;
  }

  kept_on :
      (tr : Transport World) (w : World) (subs : List SubFunc) (resp : Option (List Waiting))
      → tr.connected ≡ true
      → response_subs subs ≡ elim resp [ none ↦ 0 | some ws ↦ 1 ]
      → IsTable (elim resp [ none ↦ [] | some ws ↦ ws ])
      → IsWellFormed (record tr { world = w; subs = subs; resp = resp })
  kept_on tr w subs resp on counted table = record {
    offline = λ off. cc;
    responses = counted;
    table = table;
  }

  moved-IsWellFormed :
      (tr : Transport World) (w : World) → IsWellFormed tr → IsWellFormed (record tr { world = w })
  moved-IsWellFormed tr w v = same-IsWellFormed tr (record tr { world = w }) refl refl refl v

  pub sub-IsWellFormed :
      (f : SubFunc) (tr : Transport World)
      → IsNoResponseSub f
      → IsWellFormed tr
      → IsWellFormed (sub broker f tr).0
  sub-IsWellFormed f tr n v = elim (sub-Leaves broker f tr) [
    | inl (w, e, on) ↦
        subst (λ p. IsWellFormed p.0) (sym e)
          (kept_on tr w (tr.subs ++ f ∷ []) tr.resp on
            (omega (arith, response_subs-append tr.subs f, n, v.responses)) v.table)
    | inr (w, r, e, failed) ↦ subst (λ p. IsWellFormed p.0) (sym e) (moved-IsWellFormed tr w v)
  ]

  nobody_waits : IsTable []
  nobody_waits = record { distinct = tt; small = tt }

  counted :
      (tr : Transport World)
      → tr.resp ≡ none
      → IsWellFormed tr
      → response_subs (tr.subs ++ sub_twin_responses ∷ []) ≡ 1
  unfolding response_subs
  counted tr off v =
      ground (arith, response_subs-append tr.subs sub_twin_responses, v.responses, off)

  not_installed :
      (tr : Transport World) (w : World) (r : Outcome (Unit {0}))
      → r ≢ ok tt
      → IsWellFormed tr
      → IsWellFormed (installed broker (record tr { world = w }, r)).0
  unfolding installed
  not_installed tr w (ok u) failed v = absurd (failed refl)
  not_installed tr w (fail x) failed v = moved-IsWellFormed tr w v
  not_installed tr w panic failed v = moved-IsWellFormed tr w v

  enabled_now :
      (tr : Transport World)
      → tr.resp ≡ none
      → IsWellFormed tr
      → IsWellFormed (installed broker (sub broker sub_twin_responses tr)).0
  enabled_now tr off v = elim (sub-Leaves broker sub_twin_responses tr) [
    | inl (w, e, on) ↦
        subst (λ p. IsWellFormed (installed broker p).0) (sym e)
          (unfold installed in
            kept_on tr w (tr.subs ++ sub_twin_responses ∷ []) (some []) on (counted tr off v)
              nobody_waits)
    | inr (w, r, e, failed) ↦
        subst (λ p. IsWellFormed (installed broker p).0) (sym e) (not_installed tr w r failed v)
  ]

  pub enable-cases :
      (tr : Transport World)
      → ((enable_twin_responses broker tr) ≡ installed broker (sub broker sub_twin_responses tr)
          × (tr.resp ≡ none))
        ⊎ ((enable_twin_responses broker tr ≡ (tr, ok tt))
            × (ws : List Waiting) × (tr.resp ≡ some ws))
  unfolding enable_twin_responses
  enable-cases tr = go tr.resp refl
    where
      go :
          (o : Option (List Waiting))
          → tr.resp ≡ o
          → ((elim o [
            | none ↦ installed broker (sub broker sub_twin_responses tr)
            | some ws ↦ (tr, ok tt)
          ])
                ≡ installed broker (sub broker sub_twin_responses tr)
              × (tr.resp ≡ none))
            ⊎ (((elim o [
              | none ↦ installed broker (sub broker sub_twin_responses tr)
              | some ws ↦ (tr, ok tt)
            ])
                  ≡ (tr, ok tt))
                × (ws : List Waiting) × (tr.resp ≡ some ws))
      go none off = inl (refl, off)
      go (some ws) on = inr (refl, ws, on)

  pub enable-IsWellFormed :
      (tr : Transport World) → IsWellFormed tr → IsWellFormed (enable_twin_responses broker tr).0
  enable-IsWellFormed tr v = elim (enable-cases tr) [
    | inl (e, off) ↦ subst (λ p. IsWellFormed p.0) (sym e) (enabled_now tr off v)
    | inr (e, ws, on) ↦ subst (λ p. IsWellFormed p.0) (sym e) v
  ]

  abbrev change : (List Waiting → List Waiting) → Transport World → Transport World
  change f tr = record tr { resp = elim tr.resp [ none ↦ none | some ws ↦ some (f ws) ] }

  change-IsWellFormed :
      (f : List Waiting → List Waiting) (tr : Transport World)
      → ((ws : List Waiting) → IsTable ws → IsTable (f ws))
      → IsWellFormed tr
      → IsWellFormed (change f tr)
  change-IsWellFormed f tr keeps v = record {
    offline = λ off.
        let (s, r) = v.offline off in
        (s, ap (λ o. elim o [ none ↦ none | some ws ↦ some (f ws) ]) r);
    responses = v.responses ∙ same_count tr.resp;
    table = same_table tr.resp v.table;
  }
    where
      same_count :
          (o : Option (List Waiting))
          → Path ℕ
              (elim o [ none ↦ 0 | some ws ↦ 1 ])
              (elim (elim o as (λ x. Option (List Waiting)) [
                | none ↦ none
                | some ws ↦ some (f ws)
              ]) [ none ↦ 0 | some ws ↦ 1 ])
      same_count none = refl
      same_count (some ws) = refl

      same_table :
          (o : Option (List Waiting))
          → IsTable (elim o [ none ↦ [] | some ws ↦ ws ])
          → IsTable
              (elim (elim o as (λ x. Option (List Waiting)) [
                | none ↦ none
                | some ws ↦ some (f ws)
              ]) [ none ↦ [] | some ws ↦ ws ])
      same_table none t = t
      same_table (some ws) t = keeps ws t

  release-IsWellFormed :
      (rid : ℕ) (tr : Transport World) → IsWellFormed tr → IsWellFormed (release rid tr)
  release-IsWellFormed rid tr v = change-IsWellFormed (forget rid) tr (forget-IsTable rid) v

  pub finish-IsWellFormed :
      (rid : ℕ) (wake : Wake) (tr : Transport World)
      → IsWellFormed tr
      → IsWellFormed (finish_request rid wake tr).0
  unfolding finish_request
  finish-IsWellFormed rid (got r) tr v = release-IsWellFormed rid tr v
  finish-IsWellFormed rid elapsed tr v = release-IsWellFormed rid tr v
  finish-IsWellFormed rid (cancelled e) tr v = release-IsWellFormed rid tr v

  pub deliver-IsWellFormed :
      (payload : Str) (tr : Transport World) (said : Outcome (ℤ × ℤ × ℤ))
      → IsWellFormed tr
      → IsWellFormed (deliver payload tr said)
  unfolding deliver
  deliver-IsWellFormed payload tr (ok (rc, rid, ver)) v =
      let r : Response = record { code = rc; body = payload; ver = ver } in
      change-IsWellFormed (hand_over rid r) tr (hand_over-IsTable rid r) v
  deliver-IsWellFormed payload tr (fail e) v = v
  deliver-IsWellFormed payload tr panic v = v

  pub published-IsWellFormed :
      (rid : ℕ) (p : Ran World (Unit {0}))
      → IsWellFormed p.0
      → IsWellFormed (published broker rid p).0
  unfolding published
  published-IsWellFormed rid (u, ok x) v = v
  published-IsWellFormed rid (u, fail x) v = release-IsWellFormed rid u v
  published-IsWellFormed rid (u, panic) v = release-IsWellFormed rid u v

  pub send-kept :
      (topic : Str) (qos : ℕ) (b : Str) (tr : Transport World)
      → ((send broker topic qos b tr).0.connected ≡ tr.connected)
        × ((send broker topic qos b tr).0.subs ≡ tr.subs)
        × ((send broker topic qos b tr).0.resp ≡ tr.resp)
  unfolding send
  send-kept topic qos b tr = ground arith

  pub send-IsWellFormed :
      (topic : Str) (qos : ℕ) (b : Str) (tr : Transport World)
      → IsWellFormed tr
      → IsWellFormed (send broker topic qos b tr).0
  send-IsWellFormed topic qos b tr v =
      let (c, s, r) = send-kept topic qos b tr in
      same-IsWellFormed tr (send broker topic qos b tr).0 c s r v

  pub close-kept :
      (tr : Transport World)
      → ((close broker tr).0.connected ≡ tr.connected)
        × ((close broker tr).0.subs ≡ tr.subs)
        × ((close broker tr).0.resp ≡ tr.resp)
  unfolding close
  close-kept tr = ground arith

  pub connect-kept :
      (did : Str) (tr : Transport World)
      → ((connect_transport broker did tr).0.connected ≡ false → tr.connected ≡ false)
        × ((connect_transport broker did tr).0.subs ≡ tr.subs)
        × ((connect_transport broker did tr).0.resp ≡ tr.resp)
  unfolding connect_transport
  connect-kept did tr = ground arith

  pub connect-IsWellFormed :
      (did : Str) (tr : Transport World)
      → IsWellFormed tr
      → IsWellFormed (connect_transport broker did tr).0
  connect-IsWellFormed did tr v =
      let (was_off, s, r) = connect-kept did tr in
      record {
        offline = λ off.
            let (none_kept, no_table) = v.offline (was_off off) in (s ∙ none_kept, r ∙ no_table);
        responses =
            ap response_subs s ∙ v.responses ∙ ap (λ o. elim o [ none ↦ 0 | some ws ↦ 1 ]) (sym r);
        table = subst (λ o. IsTable (elim o [ none ↦ [] | some ws ↦ ws ])) (sym r) v.table;
      }

  pub sub-kept :
      (f : SubFunc) (tr : Transport World)
      → ((sub broker f tr).0.connected ≡ tr.connected) × ((sub broker f tr).0.resp ≡ tr.resp)
  unfolding sub
  sub-kept f tr = ground arith
