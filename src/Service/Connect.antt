-- ===== src/Service/Connect.antt =====
-- iotservice/client.go: the connections of the service client, to the hub's AMQP broker and to the
-- event hub that the hub redirects to, and what is received over them.
pub mod Laws
pub mod Leak
mod Tests
use iothub.Base.{
  ℕ, zero, suc, ◌+◌, ◌-◌, ltb, Bool, true, false, List, [], ◌∷◌, ◌++◌, Option, none, some, Str,
  codes, length, lookup, index, Dict, Outcome, ok, fail, panic, Error, if◌then◌else◌,
  expected_redirect,
}
use iothub.Base.Int.{ℤ}
use iothub.Message.{Message}
use iothub.Sas.{Credentials, Crypto, sas}
use iothub.Creds.{hour}
use iothub.Amqp.{Value, as_string, AmqpMessage, from_amqp_message, first_part}
use iothub.Act.{Act, continue, lift, pure, run, ◌>>=◌, ◌>>◌, with_closed, on_error, finally_unless}
use iothub.Eventhub as Eh
use iothub.Eventhub.{
  Peer, Detach, no_detach, graceful, detached_for, no_options, dial_client, put_token_continuously,
}
use iothub.Eventhub.Pump.{Course, Pumped, is_waiting, subscribe_partitions}

pub record Client : Type 0 where
  pub conn : Option Eh.Client
  pub done : Bool
  pub creds : Credentials

unfoldable pub drop : ℕ → Str → Str
drop zero s = s
drop (suc n) [] = []
drop (suc n) (c ∷ s) = drop n s

-- `s[:len(s)-1]`, which panics on an empty slice.
unfoldable pub but_last : Str → Outcome Str
but_last [] = panic
but_last (c ∷ []) = ok []
but_last (c ∷ d ∷ s) = elim (but_last (d ∷ s)) [
  | ok t ↦ ok (c ∷ t)
  | fail e ↦ fail e
  | panic ↦ panic
]

-- `group[strings.Index(group, ":5671/")+6 : len(group)-1]`; Index is -1 where nothing is found.
unfoldable pub cut_group : Str → Outcome Str
unfolding but_last drop
cut_group address = elim (index (codes ":5671/") address) [
  | none ↦ but_last (drop 5 address)
  | some found ↦ but_last (drop 6 found)
]

unfoldable pub take : ℕ → Str → Str
take zero s = []
take (suc n) [] = []
take (suc n) (c ∷ s) = c ∷ take n s

-- `user[:len(user)-18]`, for ".azure-devices.net"
unfoldable pub sasl_user : Credentials → Outcome Str
unfolding take
sasl_user creds =
    let user = creds.shared_access_key_name ++ (codes "@sas.root." ++ creds.host_name) in
    if ltb (length user) 18 then panic else ok (take (length user - 18) user)

-- `info[key].(string)`; a missing key yields nil.
unfoldable pub info_string : Str → Dict Value → Outcome Str
unfolding as_string
info_string key info = elim (lookup key info) [ none ↦ panic | some v ↦ as_string v ]

-- What the receiver that triggers the redirect comes to. `panicking` is a panic behind the receive,
-- where `conn` is the first connection and `err` the error that the receive met.
pub data Redirected : Type 0 where
  nothing_wrong panicking : Redirected
  moved : ℕ → Str → Redirected

module _ {World : Type 0} (peer : Peer World) (crypto : Crypto) (clock : ℤ) where
  -- The new connection of ConnectToAMQP; it is closed where the token fails.
  unfoldable pub amqp_client : Credentials → Act World Eh.Client
  unfolding dial_client on_error put_token_continuously Eh.close_client sas
  amqp_client creds = do
    eh ← dial_client peer (codes "amqps://" ++ creds.host_name)
    on_error (λ w. (Eh.close_client peer eh w).0.1)
        (do
          token ← lift (sas crypto clock creds creds.host_name hour)
          started ← put_token_continuously peer eh creds.host_name token
          pure eh)

  connected_with : Client → World × Outcome Eh.Client → (Client × World) × Outcome (Unit {0})
  connected_with c (w, ok eh) = ((record c { conn = some eh }, w), ok tt)
  connected_with c (w, fail e) = ((c, w), fail e)
  connected_with c (w, panic) = ((c, w), panic)

  unfoldable pub connect_to_amqp : Client → World → (Client × World) × Outcome (Unit {0})
  unfolding connected_with amqp_client
  connect_to_amqp c w = elim c.conn [
    | none ↦ connected_with c (amqp_client c.creds w)
    | some eh ↦ ((c, w), ok tt)
  ]

  -- Behind the redirect: a failed second dial leaves `conn` nil, whose deferred Close panics.
  dialed : Str → World × Outcome ℕ → World × Outcome Redirected
  dialed group (w, ok conn) = (w, ok (moved conn group))
  dialed group (w, fail e) = (w, panic)
  dialed group (w, panic) = (w, ok panicking)

  or_panicking : {A : Type 0} → Outcome A → (A → Act World Redirected) → Act World Redirected
  or_panicking (ok a) k = k a
  or_panicking (fail e) k = lift (fail e)
  or_panicking panic k = pure panicking

  unfoldable pub follow : Credentials → Dict Value → Act World Redirected
  unfolding dialed or_panicking info_string cut_group
  follow creds info = or_panicking (info_string (codes "address") info) λ address.
      or_panicking (cut_group address) λ group.
        or_panicking (info_string (codes "hostname") info) λ host w. dialed group (
          peer.dial (codes "amqps://" ++ host)
            (some (creds.shared_access_key_name, creds.shared_access_key)) w)

  -- `rerr.RemoteError.Condition` panics on a graceful detach.
  redirected : Credentials → Error → Detach → Act World Redirected
  unfolding follow
  redirected creds e no_detach = lift (fail e)
  redirected creds e graceful = pure panicking
  redirected creds e (detached_for redirect info) =
      if redirect then follow creds info else lift (fail e)

  answered : Credentials → World × Outcome AmqpMessage → World × Outcome Redirected
  unfolding redirected
  answered creds (w, ok msg) = (w, ok nothing_wrong)
  answered creds (w, fail e) = redirected creds e (peer.detach e) w
  answered creds (w, panic) = (w, panic)

  -- The session and the receiver on the first connection, both closed by deferred calls.
  unfoldable pub trigger_redirect : Credentials → ℕ → Act World Redirected
  unfolding answered with_closed
  trigger_redirect creds conn =
      with_closed (peer.new_session conn) (λ s w. (peer.close_session s w).0)
        (λ sess.
          with_closed
            (peer.new_receiver sess (record no_options { source = codes "messages/events/" }))
            peer.close_link (λ recv w. answered creds (peer.receive recv w)))

  -- The deferred function closes `conn` where `err` is not nil: a panic within a call that has not yet
  -- set `err`, and a result without a redirect, leave the first connection open.
  unfoldable pub cleaned_up :
      (World → World) → World × Outcome Redirected → World × Outcome Redirected
  cleaned_up close_it (w, ok panicking) = (close_it w, panic)
  cleaned_up close_it (w, ok r) = (w, ok r)
  cleaned_up close_it (w, fail e) = (close_it w, fail e)
  cleaned_up close_it (w, panic) = (w, panic)

  unfoldable pub redirect_result : Redirected → Outcome (ℕ × Str)
  redirect_result nothing_wrong = fail expected_redirect
  redirect_result panicking = panic
  redirect_result (moved conn group) = ok (conn, group)

  -- connectToEventHub: the connection to the event hub and the consumer group.
  unfoldable pub connect_to_event_hub : Credentials → Act World (ℕ × Str)
  unfolding sasl_user trigger_redirect redirect_result cleaned_up sas
  connect_to_event_hub creds = do
    user ← lift (sasl_user creds)
    pass ← lift (sas crypto clock creds creds.host_name hour)
    conn ← peer.dial (codes "amqps://" ++ creds.host_name) (some (user, pass))
    r ← λ w. cleaned_up (λ v. (peer.close_connection conn v).0) (trigger_redirect creds conn w)
    lift (redirect_result r)

  -- The messages that SubscribeEvents gives to its handler, each in a goroutine of its own, whose
  -- conversion may panic.
  unfoldable pub subscribe_events : Course → Credentials → Act World Pumped
  unfolding connect_to_event_hub finally_unless is_waiting subscribe_partitions
  subscribe_events course creds = do
    (conn, group) ← connect_to_event_hub creds
    finally_unless is_waiting (λ w. (peer.close_connection conn w).0)
        (do
          sess ← peer.new_session conn
          finally_unless is_waiting (λ w. (peer.close_session sess w).0)
              (subscribe_partitions peer course sess group (codes "$Default")))

  closed_conn : Client → World × Outcome (Unit {0}) → (Client × World) × Outcome (Unit {0})
  closed_conn c (w, r) = ((c, w), r)

  -- Close
  unfoldable pub close_client : Client → World → (Client × World) × Outcome (Unit {0})
  unfolding closed_conn Eh.close_client
  close_client c w = if c.done then ((c, w), ok tt) else elim c.conn [
    | none ↦ ((record c { done = true }, w), ok tt)
    | some eh ↦
        let ((eh', w'), r) = Eh.close_client peer eh w in
        closed_conn (record c { done = true; conn = some eh' }) (w', r)
  ]
