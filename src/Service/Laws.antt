-- ===== src/Service/Laws.antt =====
-- A device's connection string is read back as its credentials, and what reaches the link.
use iothub.Base.{
  ◌≡◌, refl, ◌≢◌, Bool, List, [], ◌∷◌, ◌++◌, Option, none, some, Str, codes, Lacks, Lacks-append,
  split, split-append, split_of_Lacks, cut, Outcome, ok, fail, panic, ◌>>=◌, >>=-eq-ok, ap, ◌∙◌,
  arith, append_assoc, All, str_eq, sym, Bool-cases, is_blank, inl, inr,
}
use iothub.Message.{Message, empty_message}
use iothub.Sas.{Credentials, no_credentials, parse_connection_string}
use iothub.Amqp.{AmqpMessage, to_amqp_message}
use iothub.Amqp.Laws.{to_amqp_message_ok_iff}
use iothub.Service.{
  Device, device_key, connection_string, device_connection_string, SendOption, with_send_ack,
  with_sent_expiry_time, apply_option, apply_options, event_message,
}

split-connection_string :
    (host device key : Str)
    → Lacks b';' host
    → Lacks b';' device
    → Lacks b';' key
    → split b';' (connection_string host device key)
      ≡ (codes "HostName=" ++ host)
        ∷ (codes "DeviceId=" ++ device)
        ∷ (codes "SharedAccessKey=" ++ key)
        ∷ []
unfolding connection_string
split-connection_string host device key h d k =
    let third = codes "SharedAccessKey=" ++ key in
    let second = codes "DeviceId=" ++ device in
    let first = codes "HostName=" ++ host in
    ap (split b';') (
      sym (
        append_assoc (codes "HostName=") host
          (b';' ∷ (codes "DeviceId=" ++ (device ++ b';' ∷ third)))))
    ∙ split-append b';' first (codes "DeviceId=" ++ (device ++ b';' ∷ third))
        (Lacks-append b';' (codes "HostName=") host (omega arith) h)
    ∙ ap (λ l. first ∷ l)
        (ap (split b';') (sym (append_assoc (codes "DeviceId=") device (b';' ∷ third)))
          ∙ split-append b';' second third
              (Lacks-append b';' (codes "DeviceId=") device (omega arith) d)
          ∙ ap (λ l. second ∷ l)
              (split_of_Lacks b';' third
                (Lacks-append b';' (codes "SharedAccessKey=") key (omega arith) k)))

parse-connection_string :
    (host device key : Str)
    → Lacks b';' host
    → Lacks b';' device
    → Lacks b';' key
    → parse_connection_string (connection_string host device key)
      ≡ ok (record no_credentials { host_name = host; device_id = device; shared_access_key = key })
unfolding parse_connection_string cut str_eq
parse-connection_string host device key h d k =
    rw (split-connection_string host device key h d k) refl

pub device_connection_string_of :
    (creds : Credentials) (device : Device) (secondary : Bool) (key : Str)
    → device_key device secondary ≡ ok key
    → device_connection_string creds (some device) secondary
      ≡ ok (connection_string creds.host_name device.device_id key)
unfolding device_connection_string
device_connection_string_of creds device secondary key found = rw found

-- A connection string that was made for a device, with no semicolon in the hub's name, the device's
-- or the key, is read back as exactly these three.
pub parse_connection_string-device_connection_string :
    (creds : Credentials) (device : Device) (secondary : Bool) (key s : Str)
    → device_key device secondary ≡ ok key
    → device_connection_string creds (some device) secondary ≡ ok s
    → Lacks b';' creds.host_name
    → Lacks b';' device.device_id
    → Lacks b';' key
    → parse_connection_string s
      ≡ ok (record no_credentials {
        host_name = creds.host_name;
        device_id = device.device_id;
        shared_access_key = key;
      })
parse_connection_string-device_connection_string creds device secondary key s found e h d k =
    let same : s ≡ connection_string creds.host_name device.device_id key =
      ground (arith, device_connection_string_of creds device secondary key found) in
    ap parse_connection_string same
    ∙ parse-connection_string creds.host_name device.device_id key h d k

abbrev pub IsNoExpiry : SendOption → Type 0
IsNoExpiry (with_sent_expiry_time t) = ⊥
IsNoExpiry _ = Unit

apply_option-expiry :
    (o : SendOption) (msg n : Message)
    → IsNoExpiry o
    → apply_option o msg ≡ ok n
    → n.expiry_time ≡ msg.expiry_time
unfolding apply_option
apply_option-expiry (with_send_ack s) msg n h e = ground arith
apply_option-expiry (with_sent_expiry_time t) msg n h e = absurd h
apply_option-expiry _ msg n h e = ground arith

apply_options-expiry :
    (os : List SendOption) (msg n : Message)
    → All IsNoExpiry os
    → apply_options os msg ≡ ok n
    → n.expiry_time ≡ msg.expiry_time
unfolding apply_options
apply_options-expiry [] msg n h e = ground arith
apply_options-expiry (o ∷ os) msg n (p, h) e =
    let (m, one, rest) = >>=-eq-ok (apply_option o msg) _ e in
    apply_options-expiry os m n h rest ∙ apply_option-expiry o msg m p one

linked_needs_expiry :
    (link : Outcome (Unit {0})) (n : Message) (a : AmqpMessage)
    → n.expiry_time ≡ none
    → (link >>= λ u. to_amqp_message n) ≢ ok a
linked_needs_expiry (ok u) n a h = λ e. let panics = (to_amqp_message_ok_iff n).1.1 h in cc
linked_needs_expiry (fail x) n a h = λ e. cc
linked_needs_expiry panic n a h = λ e. cc

prepared_needs_expiry :
    (link : Outcome (Unit {0})) (r : Outcome Message) (a : AmqpMessage)
    → ((n : Message) → r ≡ ok n → n.expiry_time ≡ none)
    → (r >>= λ n. link >>= λ u. to_amqp_message n) ≢ ok a
prepared_needs_expiry link (ok n) a h = linked_needs_expiry link n a (h n refl)
prepared_needs_expiry link (fail x) a h = λ e. cc
prepared_needs_expiry link panic a h = λ e. cc

connected_needs_expiry :
    (connected link : Outcome (Unit {0})) (r : Outcome Message) (a : AmqpMessage)
    → ((n : Message) → r ≡ ok n → n.expiry_time ≡ none)
    → (connected >>= λ u. r >>= λ n. link >>= λ v. to_amqp_message n) ≢ ok a
connected_needs_expiry (ok u) link r a h = prepared_needs_expiry link r a h
connected_needs_expiry (fail x) link r a h = λ e. cc
connected_needs_expiry panic link r a h = λ e. cc

-- Without an option that sets an expiry time, no message is ever given to the link.
pub event_message_needs_expiry :
    (connected link : Outcome (Unit {0})) (device : Str) (payload : Option Str)
    (opts : List SendOption) (a : AmqpMessage)
    → All IsNoExpiry opts
    → event_message connected link device payload opts ≢ ok a
unfolding event_message
event_message_needs_expiry connected link device none opts a h = ground arith
event_message_needs_expiry connected link device (some payload) opts a h =
    let message : Message = record empty_message {
      payload = payload;
      to = codes "/devices/" ++ (device ++ codes "/messages/devicebound");
    } in
    elim (Bool-cases (is_blank device)) [
      | inl blank ↦ rw blank (λ e. cc)
      | inr filled ↦ rw filled (
          connected_needs_expiry connected link (apply_options opts message) a
            (λ n e. apply_options-expiry opts message n h e))
    ]
