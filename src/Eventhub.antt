-- ===== src/Eventhub.antt =====
-- eventhub/client.go: the client of an event hub. The AMQP library and the random source are the
-- record `Peer`, over what they keep, `World`; connections, sessions and links are numbers there.
pub mod Links
pub mod Answers
pub mod Random
pub mod Pump
mod Tests
use iothub.Base.{
  ℕ, ◌+◌, ◌-◌, ◌/◌, ◌%◌, ltb, Bool, true, false, not, List, [], ◌∷◌, ◌++◌, Option, none, some, Str,
  codes, str_eq, lookup, Dict, Outcome, ok, fail, panic, Error, or_fail, if◌then◌else◌,
  status_code_type, bad_response, mismatched_message_id, value_type, partition_ids_type,
}
use iothub.Base.Int.{ℤ, pos, int_eq}
use iothub.Message.{zero_time}
use iothub.Amqp.{
  Value, text, int32, strings, Body, text_body, table, absent, AmqpMessage, MessageProperties,
}
use iothub.Act.{Act, continue, lift, pure, run, ◌>>=◌, ◌>>◌, with_closed, on_error}

-- The options of a new link that the code gives: its addresses and the filter of a receiver.
pub record LinkOptions : Type 0 where
  pub source : Str
  pub target : Str
  pub selector : Option ℕ

-- What an error says of a link: nothing, that it was detached gracefully (a nil RemoteError), or why
-- and with what information.
pub data Detach : Type 0 where
  no_detach graceful : Detach
  detached_for : Bool → Dict Value → Detach

pub record Peer (World : Type 0) : Type 0 where
  pub random : ℕ → Act World Str
  -- with the user and password of SASL PLAIN, if any
  pub dial : Str → Option (Str × Str) → Act World ℕ
  pub detach : Error → Detach
  pub new_session : ℕ → Act World ℕ
  pub new_sender : ℕ → LinkOptions → Act World ℕ
  pub new_receiver : ℕ → LinkOptions → Act World ℕ
  pub send : ℕ → AmqpMessage → Act World (Unit {0})
  pub receive : ℕ → Act World AmqpMessage
  pub accept : AmqpMessage → World → World
  pub close_link : ℕ → World → World
  pub close_session : ℕ → Act World (Unit {0})
  pub close_connection : ℕ → Act World (Unit {0})

pub record Client : Type 0 where
  pub conn : ℕ
  pub sess : ℕ
  pub done : Bool

-- "0123456789abcdef"[n]
abbrev pub hex_digit : ℕ → ℕ
hex_digit n = if ltb n 10 then b'0' + n else b'a' + (n - 10)

-- `%x` of bytes
unfoldable pub hex_string : Str → Str
hex_string [] = []
hex_string (c ∷ s) = hex_digit (c / 16 % 16) ∷ hex_digit (c % 16) ∷ hex_string s

-- CheckMessageResponse; a map without the key yields nil, which is no int32.
unfoldable pub check_status : Option Value → Outcome (Unit {0})
check_status (some (int32 rc s)) = if int_eq rc (pos 200) then ok tt else fail bad_response
check_status _ = fail status_code_type

unfoldable pub check_message_response : AmqpMessage → Outcome (Unit {0})
unfolding check_status
check_message_response msg = check_status (lookup (codes "status-code") msg.application_properties)

-- `msg.Properties.CorrelationID != mid`, which panics on nil properties.
same_id : Str → Option Value → Bool
same_id mid (some (text s)) = str_eq s mid
same_id mid _ = false

unfoldable pub check_correlation : Str → Option MessageProperties → Outcome (Unit {0})
unfolding same_id
check_correlation mid none = panic
check_correlation mid (some p) =
    if same_id mid p.correlation_id then ok tt else fail mismatched_message_id

partition_list : Option Value → Outcome (List Str)
partition_list (some (strings ids s)) = ok ids
partition_list _ = fail partition_ids_type

-- `val["partition_ids"].([]string)`, of a value that has to be a map.
unfoldable pub partition_ids : Body → Outcome (List Str)
unfolding partition_list
partition_ids (table m) = partition_list (lookup (codes "partition_ids") m)
partition_ids _ = fail value_type

abbrev pub no_options : LinkOptions
no_options = record { source = []; target = []; selector = none }

abbrev request_properties : MessageProperties
request_properties = record {
  to = [];
  reply_to = [];
  user_id = [];
  message_id = none;
  correlation_id = none;
  absolute_expiry_time = zero_time;
}

abbrev pub token_request : Str → Str → AmqpMessage
token_request audience token = record {
  data_parts = [];
  value = text_body token;
  properties = some (record request_properties { to = codes "$cbs"; reply_to = codes "cbs" });
  annotations = [];
  application_properties =
      (codes "operation", text (codes "put-token"))
      ∷ (codes "type", text (codes "servicebus.windows.net:sastoken"))
      ∷ (codes "name", text audience)
      ∷ [];
}

abbrev pub read_request : Str → Str → Str → AmqpMessage
read_request mid reply_to name = record {
  data_parts = [];
  value = absent;
  properties =
      some (record request_properties { message_id = some (text mid); reply_to = reply_to });
  annotations = [];
  application_properties =
      (codes "operation", text (codes "READ"))
      ∷ (codes "name", text name)
      ∷ (codes "type", text (codes "com.microsoft:eventhub"))
      ∷ [];
}

-- What the timer or the stop channel wakes the token's goroutine for.
pub data Tick : Type 0 where
  hour_passed stopped : Tick

module _ {World : Type 0} (peer : Peer World) where
  open peer use {
    random, new_session, new_sender, new_receiver, send, receive, accept, close_link, close_session,
    close_connection,
  }

  unfoldable pub rand_string : Act World Str
  unfolding hex_string
  rand_string = do b ← random 16; pure (hex_string b)

  -- Dial; without a session the connection is closed again.
  unfoldable pub dial_client : Str → Act World Client
  unfolding on_error
  dial_client addr = do
    conn ← peer.dial addr none
    sess ← on_error (λ w. (close_connection conn w).0) (new_session conn)
    pure (record { conn = conn; sess = sess; done = false })

  -- PutToken, behind the two links that it opens.
  unfoldable pub exchange_token : Str → Str → ℕ → ℕ → Act World (Unit {0})
  unfolding check_message_response
  exchange_token audience token out back = do
    send out (token_request audience token)
    msg ← receive back
    lift (check_message_response msg)
    run (accept msg)

  unfoldable pub put_token : Client → Str → Str → Act World (Unit {0})
  unfolding exchange_token with_closed
  put_token c audience token =
      with_closed (new_sender c.sess (record no_options { target = codes "$cbs" })) close_link
        (λ out.
          with_closed (new_receiver c.sess (record no_options { source = codes "$cbs" })) close_link
            (λ back. exchange_token audience token out back))

  -- One round of the goroutine of PutTokenContinuously; `false` when it returns.
  refreshed : World × Outcome (Unit {0}) → World × Bool
  refreshed (w, ok u) = (w, true)
  refreshed (w, fail e) = (w, false)
  refreshed (w, panic) = (w, false)

  unfoldable pub refresh_round : Client → Str → Str → Tick → World → World × Bool
  unfolding refreshed put_token
  refresh_round c audience token hour_passed w = refreshed (put_token c audience token w)
  refresh_round c audience token stopped w = (w, false)

  -- The goroutine over the ticks that it waits for, and whether it still runs behind them.
  unfoldable pub refresh : Client → Str → Str → List Tick → World → World × Bool
  unfolding refresh_round
  refresh c audience token [] w = (w, true)
  refresh c audience token (t ∷ ts) w =
      let round = refresh_round c audience token t w in
      elim round.1 [ true ↦ refresh c audience token ts round.0 | false ↦ round ]

  -- PutTokenContinuously: the first write, and whether the goroutine was started.
  unfoldable pub put_token_continuously : Client → Str → Str → Act World Bool
  unfolding put_token
  put_token_continuously c audience token = do put_token c audience token; pure true

  closed_after : Client → World × Outcome (Unit {0}) → (Client × World) × Outcome (Unit {0})
  closed_after c (w, r) = ((record c { done = true }, w), r)

  unfoldable pub close_client : Client → World → (Client × World) × Outcome (Unit {0})
  unfolding closed_after
  close_client c w =
      if c.done
      then ((c, w), ok tt)
      else closed_after c ((close_session c.sess >> close_connection c.conn) w)

  -- getPartitionIDs, behind the two links that it opens.
  unfoldable pub exchange_ids : Str → Str → ℕ → ℕ → Act World (List Str)
  unfolding rand_string check_message_response check_correlation partition_ids
  exchange_ids name reply_to back out = do
    mid ← rand_string
    send out (read_request mid reply_to name)
    msg ← receive back
    lift (check_message_response msg)
    lift (check_correlation mid msg.properties)
    run (accept msg)
    lift (partition_ids msg.value)

  -- With the receiver open.
  ids_from : ℕ → Str → Str → ℕ → Act World (List Str)
  unfolding exchange_ids with_closed
  ids_from sess name reply_to back =
      with_closed
        (new_sender sess (record no_options { target = codes "$management"; source = reply_to }))
        close_link (exchange_ids name reply_to back)

  unfoldable pub get_partition_ids : ℕ → Str → Act World (List Str)
  unfolding rand_string ids_from with_closed
  get_partition_ids sess name = do
    reply_to ← rand_string
    with_closed
        (new_receiver sess (record no_options { source = codes "$management"; target = reply_to }))
        close_link (ids_from sess name reply_to)
