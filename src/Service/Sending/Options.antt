-- ===== src/Service/Sending/Options.antt =====
-- What a list of SendOptions says of a message: the last option of a kind counts.
use iothub.Base.{
  ℕ, ◌≡◌, refl, true, ◌||◌, List, [], ◌∷◌, Option, none, some, Str, codes, str_eq, insert, lookup,
  lookup-insert, Dict, HasDistinctKeys, insert-HasDistinctKeys, ok, ap, sym, ◌∙◌, arith,
  if◌then◌else◌, ◌>>=◌,
}
use iothub.Message.{Message, Time}
use iothub.Service.{
  SendOption, with_send_message_id, with_send_correlation_id, with_send_user_id, with_send_ack,
  with_sent_expiry_time, with_send_property, with_send_properties, add_all, is_ack, apply_option,
  apply_options,
}

abbrev pub later {ℓ} : {A : Type ℓ} → Option A → Option A → Option A
later (some a) o = some a
later none o = o

abbrev pub given {ℓ} : {A : Type ℓ} → Option A → A → A
given (some a) b = a
given none b = b

-- What the last element that has a value has.
abbrev pub last_value {ℓ ℓ₂} : {A : Type ℓ} {B : Type ℓ₂} → (A → Option B) → List A → Option B
last_value f [] = none
last_value f (a ∷ l) = later (last_value f l) (f a)

abbrev pub message_id_of : SendOption → Option Str
message_id_of (with_send_message_id mid) = some mid
message_id_of _ = none

abbrev pub correlation_id_of : SendOption → Option Str
correlation_id_of (with_send_correlation_id cid) = some cid
correlation_id_of _ = none

abbrev pub user_id_of : SendOption → Option Str
user_id_of (with_send_user_id uid) = some uid
user_id_of _ = none

abbrev pub expiry_time_of : SendOption → Option Time
expiry_time_of (with_sent_expiry_time t) = some t
expiry_time_of _ = none

-- The value of a pair under this key.
abbrev pub value_under : Str → Str × Str → Option Str
value_under k (j, v) = if str_eq j k then some v else none

-- What an option gives to the property: an acknowledgement that is not empty is a property too.
abbrev pub property_of : Str → SendOption → Option Str
property_of k (with_send_property j v) = value_under k (j, v)
property_of k (with_send_properties d) = last_value (value_under k) d
property_of k (with_send_ack []) = none
property_of k (with_send_ack (c ∷ s)) = value_under k (codes "iothub-ack", c ∷ s)
property_of k _ = none

-- An acknowledgement is empty or one of the four that there are.
abbrev pub AreAccepted : List SendOption → Type 0
AreAccepted [] = Unit
AreAccepted (with_send_ack [] ∷ opts) = AreAccepted opts
AreAccepted (with_send_ack (c ∷ s) ∷ opts) =
    ((str_eq (c ∷ s) (codes "none")
        || str_eq (c ∷ s) (codes "positive")
        || str_eq (c ∷ s) (codes "negative")
        || str_eq (c ∷ s) (codes "full"))
      ≡ true)
    × AreAccepted opts
AreAccepted (_ ∷ opts) = AreAccepted opts

-- `n` is `msg` with what is said: the ids, the expiry time, and the properties by key.
pub record Says (mid cid uid : Option Str) (t : Option Time) (props : Str → Option Str)
    (msg n : Message) : Type 0 where
  pub payload : n.payload ≡ msg.payload
  pub to : n.to ≡ msg.to
  pub message_id : n.message_id ≡ given mid msg.message_id
  pub correlation_id : n.correlation_id ≡ given cid msg.correlation_id
  pub user_id : n.user_id ≡ given uid msg.user_id
  pub expiry_time : n.expiry_time ≡ later t msg.expiry_time
  pub properties : (k : Str) → lookup k n.properties ≡ later (props k) (lookup k msg.properties)
  pub distinct : HasDistinctKeys msg.properties → HasDistinctKeys n.properties

abbrev pub OptionSays : SendOption → Message → Message → Type 0
OptionSays o =
    Says (message_id_of o) (correlation_id_of o) (user_id_of o) (expiry_time_of o)
      (λ k. property_of k o)

abbrev pub OptionsSay : List SendOption → Message → Message → Type 0
OptionsSay opts =
    Says (last_value message_id_of opts) (last_value correlation_id_of opts)
      (last_value user_id_of opts) (last_value expiry_time_of opts)
      (λ k. last_value (property_of k) opts)

later_assoc {ℓ} : {A : Type ℓ} (a b c : Option A) → later (later a b) c ≡ later a (later b c)
later_assoc (some x) b c = refl
later_assoc none b c = refl

given-later {ℓ} : {A : Type ℓ} (a b : Option A) (x : A) → given a (given b x) ≡ given (later a b) x
given-later (some y) b x = refl
given-later none b x = refl

insert-looked_up :
    (k j v : Str) (m : Dict Str)
    → lookup k (insert j v m) ≡ later (value_under k (j, v)) (lookup k m)
insert-looked_up k j v m = ground (arith, lookup-insert j k v m)

lookup-add_all :
    (k : Str) (d m : Dict Str)
    → lookup k (add_all d m) ≡ later (last_value (value_under k) d) (lookup k m)
unfolding add_all
lookup-add_all k [] m = refl
lookup-add_all k ((j, v) ∷ d) m =
    lookup-add_all k d (insert j v m)
    ∙ ap (later (last_value (value_under k) d)) (insert-looked_up k j v m)
    ∙ sym (later_assoc (last_value (value_under k) d) (value_under k (j, v)) (lookup k m))

add_all-HasDistinctKeys : (d m : Dict Str) → HasDistinctKeys m → HasDistinctKeys (add_all d m)
unfolding add_all
add_all-HasDistinctKeys [] m h = h
add_all-HasDistinctKeys ((k, v) ∷ d) m h =
    add_all-HasDistinctKeys d (insert k v m) (insert-HasDistinctKeys k v m h)

fields_said :
    (mid cid uid : Option Str) (t : Option Time) (msg : Message)
    → Says mid cid uid t
        (λ k. none)
        msg
        (record msg {
          message_id = given mid msg.message_id;
          correlation_id = given cid msg.correlation_id;
          user_id = given uid msg.user_id;
          expiry_time = later t msg.expiry_time;
        })
fields_said mid cid uid t msg = record {
  payload = refl;
  to = refl;
  message_id = refl;
  correlation_id = refl;
  user_id = refl;
  expiry_time = refl;
  properties = λ k. refl;
  distinct = λ h. h;
}

nothing_said : (msg : Message) → Says none none none none (λ k. none) msg msg
nothing_said = fields_said none none none none

-- What is said of a message, and what is said later.
Says-later :
    {m1 m2 c1 c2 u1 u2 : Option Str} {t1 t2 : Option Time} {p1 p2 : Str → Option Str}
    {msg n l : Message}
    → Says m1 c1 u1 t1 p1 msg n
    → Says m2 c2 u2 t2 p2 n l
    → Says (later m2 m1) (later c2 c1) (later u2 u1) (later t2 t1) (λ k. later (p2 k) (p1 k)) msg l
Says-later {m1} {m2} {c1} {c2} {u1} {u2} {t1} {t2} {p1} {p2} {msg} a b = record {
  payload = b.payload ∙ a.payload;
  to = b.to ∙ a.to;
  message_id = b.message_id ∙ ap (given m2) a.message_id ∙ given-later m2 m1 msg.message_id;
  correlation_id =
      b.correlation_id ∙ ap (given c2) a.correlation_id ∙ given-later c2 c1 msg.correlation_id;
  user_id = b.user_id ∙ ap (given u2) a.user_id ∙ given-later u2 u1 msg.user_id;
  expiry_time =
      b.expiry_time ∙ ap (later t2) a.expiry_time ∙ sym (later_assoc t2 t1 msg.expiry_time);
  properties = λ k.
      b.properties k
      ∙ ap (later (p2 k)) (a.properties k)
      ∙ sym (later_assoc (p2 k) (p1 k) (lookup k msg.properties));
  distinct = λ h. b.distinct (a.distinct h);
}

properties_said :
    (msg : Message) (props : Dict Str) {p : Str → Option Str}
    → ((k : Str) → lookup k props ≡ later (p k) (lookup k msg.properties))
    → (HasDistinctKeys msg.properties → HasDistinctKeys props)
    → Says none none none none p msg (record msg { properties = props })
properties_said msg props at distinct_too = record {
  payload = refl;
  to = refl;
  message_id = refl;
  correlation_id = refl;
  user_id = refl;
  expiry_time = refl;
  properties = at;
  distinct = distinct_too;
}

with_ack :
    (c : ℕ) (s : Str) (msg : Message)
    → (str_eq (c ∷ s) (codes "none")
        || str_eq (c ∷ s) (codes "positive")
        || str_eq (c ∷ s) (codes "negative")
        || str_eq (c ∷ s) (codes "full"))
      ≡ true
    → apply_option (with_send_ack (c ∷ s)) msg
      ≡ ok (record msg { properties = insert (codes "iothub-ack") (c ∷ s) msg.properties })
unfolding apply_option is_ack
with_ack c s msg known = rw known refl

-- An option that is accepted is applied, and its message is as it says.
apply_option-OptionSays :
    (o : SendOption) (msg : Message)
    → AreAccepted (o ∷ [])
    → (n : Message) × (apply_option o msg ≡ ok n) × OptionSays o msg n
unfolding apply_option
apply_option-OptionSays (with_send_property j v) msg h = (
  _,
  refl,
  properties_said msg _ (λ k. insert-looked_up k j v msg.properties)
      (insert-HasDistinctKeys j v msg.properties),
)
apply_option-OptionSays (with_send_properties d) msg h = (
  _,
  refl,
  properties_said msg _ (λ k. lookup-add_all k d msg.properties)
      (add_all-HasDistinctKeys d msg.properties),
)
apply_option-OptionSays (with_send_ack []) msg h = (msg, refl, nothing_said msg)
apply_option-OptionSays (with_send_ack (c ∷ s)) msg (known, h) = (
  _,
  with_ack c s msg known,
  properties_said msg _ (λ k. insert-looked_up k (codes "iothub-ack") (c ∷ s) msg.properties)
      (insert-HasDistinctKeys (codes "iothub-ack") (c ∷ s) msg.properties),
)
apply_option-OptionSays (with_send_message_id mid) msg h =
    (_, refl, fields_said (some mid) none none none msg)
apply_option-OptionSays (with_send_correlation_id cid) msg h =
    (_, refl, fields_said none (some cid) none none msg)
apply_option-OptionSays (with_send_user_id uid) msg h =
    (_, refl, fields_said none none (some uid) none msg)
apply_option-OptionSays (with_sent_expiry_time t) msg h =
    (_, refl, fields_said none none none (some t) msg)

accepted_first :
    (o : SendOption) (os : List SendOption)
    → AreAccepted (o ∷ os)
    → AreAccepted (o ∷ []) × AreAccepted os
accepted_first (with_send_ack []) os h = (tt, h)
accepted_first (with_send_ack (c ∷ s)) os (known, h) = ((known, tt), h)
accepted_first (with_send_property j v) os h = (tt, h)
accepted_first (with_send_properties d) os h = (tt, h)
accepted_first (with_send_message_id mid) os h = (tt, h)
accepted_first (with_send_correlation_id cid) os h = (tt, h)
accepted_first (with_send_user_id uid) os h = (tt, h)
accepted_first (with_sent_expiry_time t) os h = (tt, h)

-- Options that are accepted are applied, and their message is as they say.
pub apply_options-OptionsSay :
    (opts : List SendOption) (msg : Message)
    → AreAccepted opts
    → (n : Message) × (apply_options opts msg ≡ ok n) × OptionsSay opts msg n
unfolding apply_options
apply_options-OptionsSay [] msg h = (msg, refl, nothing_said msg)
apply_options-OptionsSay (o ∷ os) msg h =
    let (first, rest) = accepted_first o os h in
    let (m, one, said) = apply_option-OptionSays o msg first in
    let (n, more, said_later) = apply_options-OptionsSay os m rest in
    (n, ap (λ r. r >>= apply_options os) one ∙ more, Says-later said said_later)
