-- ===== src/Mqtt/Transport/Laws.antt =====
-- Subscriptions are kept when they succeed, and made again on a reconnect.
use iothub.Base.{
  ◌≡◌, ◌≢◌, ◌↔◌, ◌⊎◌, inl, inr, Bool, true, false, List, [], ◌∷◌, ◌++◌, Outcome-cases, ok, fail,
  panic, Error, arith, if◌then◌else◌, Bool-cases, ap, sym, Outcome, refl,
}
use mathlib.Core.Path.{subst}
use iothub.Mqtt.Transport.{
  Broker, SubFunc, Transport, Ran, topic_of, run_sub, remember, sub, on_connect, resubscribe,
}

module _ {World : Type 0} (broker : Broker World) where
  -- A subscription joins the list exactly when it returns no error; it returns what the hub answers,
  -- and panics where there is no connection.
  pub sub-subs :
      (f : SubFunc) (tr : Transport World)
      → ((sub broker f tr).0.subs ≡ elim (sub broker f tr).1 [
        | ok u ↦ tr.subs ++ f ∷ []
        | fail e ↦ tr.subs
        | panic ↦ tr.subs
      ])
        × ((sub broker f tr).1 ≡ (
            if tr.connected then (broker.subscribe (topic_of broker tr f) tr.world).1 else panic))
  unfolding sub
  sub-subs f tr = ground arith

  -- The hub accepts the subscriptions of a list one after the other.
  abbrev pub AreAccepted : Transport World → List SubFunc → Type 0
  AreAccepted tr [] = Unit
  AreAccepted tr (f ∷ fs) =
      ((broker.subscribe (topic_of broker tr f) tr.world).1 ≡ ok tt)
      × AreAccepted (record tr { world = (broker.subscribe (topic_of broker tr f) tr.world).0 }) fs

  resubscribe_ok_iff :
      (fs : List SubFunc) (tr : Transport World)
      → tr.has_logger ≡ false
      → tr.connected ≡ true
      → ((resubscribe broker fs tr).1 ≡ ok tt) ↔ AreAccepted tr fs
  unfolding resubscribe
  resubscribe_ok_iff [] tr h c = ground arith
  resubscribe_ok_iff (f ∷ fs) tr h c = ground (
    arith,
    resubscribe_ok_iff fs
        (record tr { world = (broker.subscribe (topic_of broker tr f) tr.world).0 }) h c,
  )

  resubscribe-ne-fail :
      (fs : List SubFunc) (tr : Transport World) (e : Error)
      → tr.has_logger ≡ false
      → (resubscribe broker fs tr).1 ≢ fail e
  unfolding resubscribe
  resubscribe-ne-fail [] tr e h = λ x. cc
  resubscribe-ne-fail (f ∷ fs) tr e h = ground (
    arith,
    resubscribe-ne-fail fs
        (record tr { world = (broker.subscribe (topic_of broker tr f) tr.world).0 }) e h,
  )

  -- With a connection and no logger the handler of a new connection ends well if the hub accepts every kept
  -- subscription again, and panics if it does not.
  pub on_connect_no_logger :
      (tr : Transport World)
      → tr.has_logger ≡ false
      → tr.connected ≡ true
      → (((on_connect broker tr).1 ≡ ok tt) ↔ AreAccepted tr tr.subs)
        × (((on_connect broker tr).1 ≡ ok tt) ⊎ ((on_connect broker tr).1 ≡ panic))
  unfolding on_connect
  on_connect_no_logger tr h c = (
    resubscribe_ok_iff tr.subs tr h c,
    elim (Outcome-cases (resubscribe broker tr.subs tr).1) [
      | inl (u, e) ↦ inl e
      | inr (inl (x, e)) ↦ absurd (resubscribe-ne-fail tr.subs tr x h e)
      | inr (inr e) ↦ inr e
    ],
  )

  -- What a call of `sub` comes to: it passed on a connection and the subscription is kept, or the
  -- transport is as it was.
  abbrev pub Leaves : SubFunc → Transport World → Ran World (Unit {0}) → Type 0
  Leaves f tr p =
      ((w : World) × (p ≡ (record tr { world = w; subs = tr.subs ++ f ∷ [] }, ok tt))
        × (tr.connected ≡ true))
      ⊎ ((w : World) × (r : Outcome (Unit {0})) × (p ≡ (record tr { world = w }, r)) × (r ≢ ok tt))

  remember-Leaves :
      (f : SubFunc) (tr : Transport World) (w : World) (r : Outcome (Unit {0}))
      → tr.connected ≡ true
      → Leaves f tr (remember broker f (record tr { world = w }, r))
  unfolding remember
  remember-Leaves f tr w (ok u) on = inl (w, refl, on)
  remember-Leaves f tr w (fail e) on = inr (w, fail e, refl, λ x. cc)
  remember-Leaves f tr w panic on = inr (w, panic, refl, λ x. cc)

  pub sub-Leaves : (f : SubFunc) (tr : Transport World) → Leaves f tr (sub broker f tr)
  unfolding sub run_sub
  sub-Leaves f tr =
      let (w, r) = broker.subscribe (topic_of broker tr f) tr.world in
      let run : Bool → Ran World (Unit {0}) =
        λ c. if c then (record tr { world = w }, r) else (tr, panic) in
      elim (Bool-cases tr.connected) [
        | inl on ↦
            subst (λ q. Leaves f tr (remember broker f q)) (sym (ap run on))
              (remember-Leaves f tr w r on)
        | inr off ↦
            subst (λ q. Leaves f tr (remember broker f q)) (sym (ap run off))
              (unfold remember in inr (tr.world, panic, refl, λ x. cc))
      ]

  -- The handler of a new connection changes nothing but the hub's state.
  pub resubscribe-kept :
      (fs : List SubFunc) (tr : Transport World)
      → ((resubscribe broker fs tr).0.connected ≡ tr.connected)
        × ((resubscribe broker fs tr).0.subs ≡ tr.subs)
        × ((resubscribe broker fs tr).0.resp ≡ tr.resp)
  unfolding resubscribe
  resubscribe-kept [] tr = (refl, refl, refl)
  resubscribe-kept (f ∷ fs) tr = ground (
    arith,
    resubscribe-kept fs
        (record tr { world = (broker.subscribe (topic_of broker tr f) tr.world).0 }),
  )
