-- ===== src/Device/Client/Laws.antt =====
-- The client's calls in sequence: one subscription with the transport serves all subscribers, a
-- method is registered when every condition holds, and Close closes everything once.
use iothub.Base.{
  ℕ, ◌+◌, ◌≡◌, refl, true, false, [], ◌∷◌, ◌++◌, Str, ok, fail, panic, Outcome, ◌>>=◌, arith,
  if◌then◌else◌,
}
use iothub.Message.{Message}
use iothub.Device.Once.{once}
use iothub.Device.Mux as Fan
use iothub.Device.Mux.{Mux, Sub, subscribe}
use iothub.Device.Mux.Ids.{elem, Distinct}
use iothub.Device.Mux.Closing.{AreOpen, closed_sub, close-closed, close_total}
use iothub.Device.Client.{
  Port, Client, Branch, connected, finished, cancelled, subscribe_events, close_client, states_read,
  retrieve_twin_state,
}

-- What Close leaves of a dispatcher: no subscription, each former one closed with ErrClosed and its
-- channel's messages kept, every other channel as it was.
abbrev pub IsShut : {A : Type 0} → Mux A → Mux A → Type 0
IsShut m n =
    (n.subs ≡ [])
    × ((s : ℕ) → n.heap s ≡ (if elem s m.subs then closed_sub (m.heap s) else m.heap s))

module _ {World Twin Object : Type 0} (port : Port World) where
  -- After a subscription to events that returned no error, a further one on the open connection
  -- leaves the transport alone and gives a new channel behind the others.
  pub subscribe_events_again :
      (b : Branch) (c : Client World Twin Object) (s : ℕ)
      → (subscribe_events port b c).1 ≡ ok s
      → (s ≡ c.events.next)
        × ((subscribe_events port connected (subscribe_events port b c).0).1 ≡ ok (s + 1))
        × ((subscribe_events port connected (subscribe_events port b c).0).0.world
            ≡ (subscribe_events port b c).0.world)
        × ((subscribe_events port connected (subscribe_events port b c).0).0.events.subs
            ≡ (c.events.subs ++ s ∷ []) ++ (s + 1) ∷ [])
  unfolding subscribe_events once subscribe
  subscribe_events_again connected c s e = ground arith
  subscribe_events_again finished c s e = cc
  subscribe_events_again (cancelled x) c s e = cc

  states_read-result :
      {State : Type 0} (unmarshal : Str → Outcome (State × State)) (c : Client World Twin Object)
      (p : World × Outcome Str)
      → (states_read port unmarshal c p).1 ≡ (p.1 >>= unmarshal)
  unfolding states_read
  states_read-result unmarshal c (w, ok b) = refl
  states_read-result unmarshal c (w, fail e) = refl
  states_read-result unmarshal c (w, panic) = refl

  pub retrieve_twin_state-result :
      {State : Type 0} (unmarshal : Str → Outcome (State × State)) (c : Client World Twin Object)
      → (retrieve_twin_state port unmarshal connected c).1
        ≡ ((port.retrieve_twin_properties c.world).1 >>= unmarshal)
  unfolding retrieve_twin_state
  retrieve_twin_state-result unmarshal c =
      states_read-result unmarshal c (port.retrieve_twin_properties c.world)

  close_client_of :
      (c : Client World Twin Object) (m : Mux Message) (n : Mux Twin)
      → c.done ≡ false
      → Fan.close (record c.events { done = true }) ≡ ok m
      → Fan.close (record c.twins { done = true }) ≡ ok n
      → close_client port c ≡ (
        record c { done = true; events = m; twins = n; world = (port.close c.world).0 },
        (port.close c.world).1,
      )
  unfolding close_client
  close_client_of c m n h e f = rw (close_client, h) (rw e (rw f refl))

  close_client_done :
      (c : Client World Twin Object) → c.done ≡ true → close_client port c ≡ (c, ok tt)
  unfolding close_client
  close_client_done c h = rw h

  -- On a client that is not closed, with distinct and open subscriptions, Close shuts both
  -- dispatchers, closes the transport and returns what it returned; a second Close then changes
  -- nothing and returns no error.
  pub close_client_lem :
      (c : Client World Twin Object)
      → c.done ≡ false
      → Distinct c.events.subs
      → AreOpen c.events.subs c.events
      → Distinct c.twins.subs
      → AreOpen c.twins.subs c.twins
      → (c' : Client World Twin Object) × (close_client port c ≡ (c', (port.close c.world).1))
        × (c'.world ≡ (port.close c.world).0)
        × IsShut c.events c'.events
        × IsShut c.twins c'.twins
        × (close_client port c' ≡ (c', ok tt))
  close_client_lem c h d o d' o' =
      let (m, e) = close_total (record c.events { done = true }) d o in
      let (n, f) = close_total (record c.twins { done = true }) d' o' in
      let c' : Client World Twin Object = record c {
        done = true;
        events = m;
        twins = n;
        world = (port.close c.world).0;
      } in
      (
        c',
        close_client_of c m n h e f,
        refl,
        close-closed (record c.events { done = true }) m d e,
        close-closed (record c.twins { done = true }) n d' f,
        close_client_done c' refl,
      )
