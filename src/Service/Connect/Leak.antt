-- ===== src/Service/Connect/Leak.antt =====
-- How many connections connectToEventHub leaves open.
use iothub.Base.{
  ℕ, ◌+◌, ◌-◌, ◌≡◌, ◌++◌, refl, arith, ◌∙◌, true, false, Option, some, Str, codes, Dict, Outcome,
  ok, fail, panic, Error,
}
use iothub.Base.Int.{ℤ}
use iothub.Amqp.{Value, AmqpMessage}
use iothub.Sas.{Credentials, Crypto, sas}
use iothub.Creds.{hour}
use iothub.Act.{Act, continue, lift, finally, with_closed}
use iothub.Act.Returns.{>>=-reached}
use iothub.Act.Counts.{Keeps, Opens}
use iothub.Eventhub.{Peer, Detach, no_detach, graceful, detached_for, no_options, LinkOptions}
use iothub.Service.Connect.{
  Redirected, nothing_wrong, moved, panicking, or_panicking, cleaned_up, dialed, follow, redirected,
  answered, trigger_redirect, redirect_result, connect_to_event_hub, info_string, cut_group,
  sasl_user,
}

-- `conns` is the number of open connections: a dial that succeeds adds one, a close takes one away,
-- and sessions, links and what is received leave it.
pub record CountsConnections {World : Type 0} (peer : Peer World) (conns : World → ℕ) : Type 0 where
  pub dial : (a : Str) (u : Option (Str × Str)) → Opens conns (peer.dial a u)
  pub close_connection : (c : ℕ) (w : World) → conns (peer.close_connection c w).0 ≡ conns w - 1
  pub new_session : (c : ℕ) → Keeps conns (peer.new_session c)
  pub close_session : (s : ℕ) → Keeps conns (peer.close_session s)
  pub new_receiver : (s : ℕ) (o : LinkOptions) → Keeps conns (peer.new_receiver s o)
  pub close_link : (l : ℕ) (w : World) → conns (peer.close_link l w) ≡ conns w
  pub receive : (l : ℕ) → Keeps conns (peer.receive l)

module _ {World : Type 0} (peer : Peer World) (crypto : Crypto) (clock : ℤ) (conns : World → ℕ)
    (h : CountsConnections peer conns) where
  -- The connections beside `n`: the second one if the hub redirected.
  abbrev Counted : ℕ → World × Outcome Redirected → Type 0
  Counted n (w, ok nothing_wrong) = conns w ≡ n
  Counted n (w, ok (moved c g)) = conns w ≡ n + 1
  Counted n (w, ok panicking) = Unit
  Counted n (w, fail e) = conns w ≡ n
  Counted n (w, panic) = Unit

  or_panicking-Counted :
      {A : Type 0} (r : Outcome A) (n : ℕ) (w : World) (k : A → Act World Redirected)
      → conns w ≡ n
      → ((a : A) → Counted n (k a w))
      → Counted n (or_panicking peer crypto clock r k w)
  unfolding or_panicking
  or_panicking-Counted (ok a) n w k e g = g a
  or_panicking-Counted (fail x) n w k e g = e
  or_panicking-Counted panic n w k e g = tt

  dialed-Counted :
      (p : World × Outcome ℕ) (n : ℕ) (group : Str)
      → ((c : ℕ) → p.1 ≡ ok c → conns p.0 ≡ n + 1)
      → Counted n (dialed peer crypto clock group p)
  unfolding dialed
  dialed-Counted (w, ok c) n group opened = opened c refl
  dialed-Counted (w, fail e) n group opened = tt
  dialed-Counted (w, panic) n group opened = tt

  follow-Counted :
      (creds : Credentials) (info : Dict Value) (w : World)
      → Counted (conns w) (follow peer crypto clock creds info w)
  unfolding follow
  follow-Counted creds info w =
      or_panicking-Counted (info_string (codes "address") info) (conns w) w _ refl λ address.
        or_panicking-Counted (cut_group address) (conns w) w _ refl λ group.
          or_panicking-Counted (info_string (codes "hostname") info) (conns w) w _ refl
            λ host. dialed-Counted _ (conns w) group ((h.dial _ _).opened w)

  redirected-Counted :
      (creds : Credentials) (e : Error) (d : Detach) (w : World)
      → Counted (conns w) (redirected peer crypto clock creds e d w)
  unfolding redirected
  redirected-Counted creds e no_detach w = refl
  redirected-Counted creds e graceful w = tt
  redirected-Counted creds e (detached_for true info) w = follow-Counted creds info w
  redirected-Counted creds e (detached_for false info) w = refl

  answered-Counted :
      (creds : Credentials) (p : World × Outcome AmqpMessage)
      → Counted (conns p.0) (answered peer crypto clock creds p)
  unfolding answered
  answered-Counted creds (w, ok msg) = refl
  answered-Counted creds (w, fail e) = redirected-Counted creds e (peer.detach e) w
  answered-Counted creds (w, panic) = tt

  cleaned-Counted :
      (cleanup : World → World) (q : World × Outcome Redirected) (n : ℕ)
      → ((w : World) → conns (cleanup w) ≡ conns w)
      → Counted n q
      → Counted n (cleanup q.0, q.1)
  cleaned-Counted cleanup (w, ok nothing_wrong) n keeps e = keeps w ∙ e
  cleaned-Counted cleanup (w, ok (moved c g)) n keeps e = keeps w ∙ e
  cleaned-Counted cleanup (w, ok panicking) n keeps e = tt
  cleaned-Counted cleanup (w, fail x) n keeps e = keeps w ∙ e
  cleaned-Counted cleanup (w, panic) n keeps e = tt

  closed-Counted :
      (p : World × Outcome ℕ) (n : ℕ) (close_it : ℕ → World → World)
      (body : ℕ → Act World Redirected)
      → conns p.0 ≡ n
      → ((r : ℕ) (w : World) → conns (close_it r w) ≡ conns w)
      → ((r : ℕ) (w : World) → Counted (conns w) (body r w))
      → Counted n (continue p (λ r. finally (close_it r) (body r)))
  unfolding finally
  closed-Counted (w, ok r) n close_it body e keeps counted =
      cleaned-Counted (close_it r) (body r w) n (keeps r) (rw (← e) (counted r w))
  closed-Counted (w, fail x) n close_it body e keeps counted = e
  closed-Counted (w, panic) n close_it body e keeps counted = tt

  trigger_redirect-Counted :
      (creds : Credentials) (conn : ℕ) (w : World)
      → Counted (conns w) (trigger_redirect peer crypto clock creds conn w)
  unfolding trigger_redirect with_closed
  trigger_redirect-Counted creds conn w =
      closed-Counted (peer.new_session conn w) (conns w) _ _ ((h.new_session conn).at w)
        (λ s w'. (h.close_session s).at w')
        (λ s w'.
          closed-Counted
            (peer.new_receiver s (record no_options { source = codes "messages/events/" }) w')
            (conns w') peer.close_link (λ r x. answered peer crypto clock creds (peer.receive r x))
            ((h.new_receiver s _).at w') h.close_link
            (λ r w''. rw (← (h.receive r).at w'') (answered-Counted creds (peer.receive r w''))))

  returned_count :
      (n : ℕ) (q : World × Outcome Redirected) (close_it : World → World) (r : ℕ × Str)
      → Counted n q
      → (continue
          (cleaned_up peer crypto clock close_it q)
          (λ x. lift (redirect_result peer crypto clock x))).1
        ≡ ok r
      → conns
          (continue
            (cleaned_up peer crypto clock close_it q)
            (λ x. lift (redirect_result peer crypto clock x))).0
        ≡ n + 1
  unfolding cleaned_up redirect_result
  returned_count n (w, ok nothing_wrong) close_it r e ret = cc
  returned_count n (w, ok panicking) close_it r e ret = cc
  returned_count n (w, ok (moved c g)) close_it r e ret = e
  returned_count n (w, fail x) close_it r e ret = cc
  returned_count n (w, panic) close_it r e ret = cc

  -- Where `conns` counts the open connections: a connectToEventHub that succeeds leaves two more of
  -- them open, the one that it returns and the one to the hub, which nothing refers to any more.
  pub connect_to_event_hub-connections :
      (creds : Credentials) (w : World) (r : ℕ × Str)
      → (connect_to_event_hub peer crypto clock creds w).1 ≡ ok r
      → conns (connect_to_event_hub peer crypto clock creds w).0 ≡ conns w + 2
  unfolding connect_to_event_hub
  connect_to_event_hub-connections creds w r e =
      let Two : World → Type 0 = λ v. conns v ≡ conns w + 2 in
      >>=-reached Two (lift (sasl_user creds)) _ w e λ user _ e1.
        >>=-reached Two (lift (sas crypto clock creds creds.host_name hour)) _ w e1 λ pass _ e2.
          >>=-reached Two (peer.dial _ _) _ w e2 λ conn dialed e3.
            let w' : World =
              (peer.dial (codes "amqps://" ++ creds.host_name) (some (user, pass)) w).0 in
            let more = (h.dial _ _).opened w conn dialed in
            let left =
              returned_count (conns w') (trigger_redirect peer crypto clock creds conn w')
                (λ v. (peer.close_connection conn v).0) r (trigger_redirect-Counted creds conn w')
                e3 in
            omega (arith, left, more)
