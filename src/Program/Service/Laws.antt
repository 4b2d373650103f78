-- ===== src/Program/Service/Laws.antt =====
-- The numbers of words that the commands take, and what a command does with others.
use iothub.Base.{
  ℕ, leb, ◌==◌, ◌≡◌, refl, ap, arith, Bool, false, List, [], ◌∷◌, Option, none, some, Str, str_eq,
  codes, is_blank, Dict, lookup, length, All, Outcome, ok, fail, invalid_usage,
}
use iothub.Sas.{Credentials, parse_connection_string}
use iothub.Act.{Act}
use iothub.Cli.{Command, find_command}
use iothub.Cli.Commands.{All-find_command}
use iothub.Service.Connect.{Client, close_client}
use iothub.Service.New.{new_client}
use iothub.Service.Rest.{Http}
use iothub.Service.Rest.Registry.{Call}
use iothub.Program.Service.{
  Codec, Settings, Env, State, Handler, no_words, one_word, wrap, run_with, closing,
}
use iothub.Program.Service.Commands as Commands
use iothub.Program.Service.Table.{Json, Program, wrapped, commands}

pub data Arity : Type 0 where
  exactly : ℕ → Arity
  at_least : ℕ → Arity

infixr 3 ◌&◌
abbrev ◌&◌ : {A B : Type 0} → A → B → A × B
a & b = (a, b)

abbrev pub allows : Arity → ℕ → Bool
allows (exactly n) k = k == n
allows (at_least n) k = leb n k

-- The words that each command wants.
abbrev pub arities : Dict Arity
arities =
    (codes "send", at_least 2)
    ∷ (codes "watch-events", exactly 0)
    ∷ (codes "watch-feedback", exactly 0)
    ∷ (codes "call", exactly 3)
    ∷ (codes "device", exactly 1)
    ∷ (codes "devices", exactly 0)
    ∷ (codes "create-device", exactly 1)
    ∷ (codes "update-device", exactly 1)
    ∷ (codes "delete-device", exactly 1)
    ∷ (codes "twin", exactly 1)
    ∷ (codes "update-twin", at_least 3)
    ∷ (codes "stats", exactly 0)
    ∷ (codes "jobs", exactly 0)
    ∷ (codes "job", exactly 1)
    ∷ (codes "cancel-job", exactly 1)
    ∷ (codes "connection-string", exactly 1)
    ∷ (codes "access-signature", exactly 1)
    ∷ []

-- `m` refuses the words that the arity does not allow, and does nothing else.
abbrev Refuses : {World : Type 0} → Arity → Handler World → Type 0
Refuses {World} a m =
    (words : List Str) (cw : State World)
    → allows a (length words) ≡ false
    → m words cw ≡ (cw, fail invalid_usage)

module _ {World : Type 0} where
  no_words-Refuses : (m : Act (State World) (Unit {0})) → Refuses (exactly 0) (no_words m)
  unfolding no_words
  no_words-Refuses m [] cw h = cc
  no_words-Refuses m (word ∷ words) cw h = refl

  one_word-Refuses : (f : Str → Act (State World) (Unit {0})) → Refuses (exactly 1) (one_word f)
  unfolding one_word
  one_word-Refuses f [] cw h = refl
  one_word-Refuses f (word ∷ []) cw h = cc
  one_word-Refuses f (word ∷ other ∷ words) cw h = refl

  module _ (env : Env World) (http : Http World) (s : Settings) where
    send-Refuses : Refuses (at_least 2) (Commands.send env http s)
    unfolding Commands.send
    send-Refuses [] cw h = refl
    send-Refuses (id ∷ []) cw h = refl
    send-Refuses (id ∷ payload ∷ []) cw h = cc
    send-Refuses (id ∷ payload ∷ word ∷ words) cw h = ground arith

    update_twin-Refuses :
        {V : Type 0} (marshal : Dict (Option Str) → Outcome Str) (codec : Codec V)
        → Refuses (at_least 3) (Commands.update_twin env http s marshal codec)
    unfolding Commands.update_twin
    update_twin-Refuses marshal codec [] cw h = refl
    update_twin-Refuses marshal codec (id ∷ []) cw h = refl
    update_twin-Refuses marshal codec (id ∷ word ∷ []) cw h = refl
    update_twin-Refuses marshal codec (id ∷ word ∷ other ∷ words) cw h = ground arith

    call-Refuses :
        {Object V : Type 0} (unmarshal : Str → Outcome Object) (is_empty : Object → Bool)
        (marshal : Call Object → Outcome Str) (codec : Codec V)
        → Refuses (exactly 3) (Commands.call env http s unmarshal is_empty marshal codec)
    unfolding Commands.call
    call-Refuses unmarshal is_empty marshal codec [] cw h = refl
    call-Refuses unmarshal is_empty marshal codec (id ∷ []) cw h = refl
    call-Refuses unmarshal is_empty marshal codec (id ∷ method ∷ []) cw h = refl
    call-Refuses unmarshal is_empty marshal codec (id ∷ method ∷ payload ∷ []) cw h = cc
    call-Refuses unmarshal is_empty marshal codec (id ∷ method ∷ payload ∷ word ∷ words) cw h = refl

  -- A command that changes nothing leaves its new client without a connection to close.
  wrap-refused :
      (env : Env World) (cs : Str) (s : Settings) (creds : Credentials)
      (fn : Http World → Act (State World) (Unit {0})) (w : World)
      → is_blank cs ≡ false
      → parse_connection_string cs ≡ ok creds
      → ((http : Http World) (cw : State World) → fn http cw ≡ (cw, fail invalid_usage))
      → wrap env cs s fn w ≡ (w, fail invalid_usage)
  unfolding wrap new_client run_with closing close_client
  wrap-refused env cs s creds fn w given parsed refuses =
      let fresh : Client = record { conn = none; done = false; creds = creds } in
      rw (given, parsed) (ap (closing env) (refuses env.bundled (fresh, w)))

module _ {World FlagSet Object Value Feedback : Type 0} (p : Program World FlagSet)
    (json : Json Object Value Feedback) (creds : Credentials) where
  abbrev IsRefused : Command World FlagSet → Type 0
  IsRefused cmd =
      (fs : FlagSet) (w : World) (a : Arity)
      → lookup cmd.name arities ≡ some a
      → allows a (length (p.flags.args fs)) ≡ false
      → cmd.handler fs w ≡ (w, fail invalid_usage)

  module _ (given : is_blank p.service_string ≡ false)
      (parsed : parse_connection_string p.service_string ≡ ok creds) where
    refused :
        (fn : Http World → Settings → Handler World) (a : Arity)
        → ((http : Http World) (s : Settings) → Refuses a (fn http s))
        → (fs : FlagSet) (w : World) (b : Arity) → some a ≡ some b
        → allows b (length (p.flags.args fs)) ≡ false
        → wrap p.env p.service_string
            (p.settings fs)
            (λ http. fn http (p.settings fs) (p.flags.args fs))
            w
          ≡ (w, fail invalid_usage)
    refused fn a refuses fs w b same bad =
        let equal : a ≡ b = cc in
        wrap-refused p.env p.service_string (p.settings fs) creds
          (λ http. fn http (p.settings fs) (p.flags.args fs)) w given parsed
          (λ http cw. refuses http (p.settings fs) (p.flags.args fs) cw (rw equal bad))

    commands-IsRefused : All IsRefused (commands p json)
    unfolding commands wrapped lookup str_eq
    commands-IsRefused =
        refused (λ http s. Commands.send p.env http s) (at_least 2)
          (λ http s. send-Refuses p.env http s)
        & refused (λ http s. Commands.watch_events p.env http s p.parse_url p.schedule.course)
            (exactly 0) (λ http s. unfold Commands.watch_events in no_words-Refuses _)
        & refused
            (λ http s. Commands.watch_feedback p.env http s json.read_feedback p.schedule.returning)
            (exactly 0) (λ http s. unfold Commands.watch_feedback in no_words-Refuses _)
        & refused
            (λ http s.
              Commands.call p.env http s json.read_object json.is_empty json.marshal_call
                json.value)
            (exactly 3)
            (λ http s.
              call-Refuses p.env http s json.read_object json.is_empty json.marshal_call json.value)
        & refused (λ http s. Commands.device p.env http s json.device) (exactly 1)
            (λ http s. unfold Commands.device in one_word-Refuses _)
        & refused (λ http s. Commands.devices p.env http s json.devices) (exactly 0)
            (λ http s. unfold Commands.devices in no_words-Refuses _)
        & refused (λ http s. Commands.create_device p.env http s json.marshal_device json.device)
            (exactly 1) (λ http s. unfold Commands.create_device in one_word-Refuses _)
        & refused (λ http s. Commands.update_device p.env http s json.marshal_device json.device)
            (exactly 1) (λ http s. unfold Commands.update_device in one_word-Refuses _)
        & refused (λ http s. Commands.delete_device p.env http s) (exactly 1)
            (λ http s. unfold Commands.delete_device in one_word-Refuses _)
        & refused (λ http s. Commands.twin p.env http s json.value) (exactly 1)
            (λ http s. unfold Commands.twin in one_word-Refuses _)
        & refused (λ http s. Commands.update_twin p.env http s json.marshal_twin json.value)
            (at_least 3) (λ http s. update_twin-Refuses p.env http s json.marshal_twin json.value)
        & refused (λ http s. Commands.stats p.env http s json.value) (exactly 0)
            (λ http s. unfold Commands.stats in no_words-Refuses _)
        & refused (λ http s. Commands.jobs p.env http s json.value) (exactly 0)
            (λ http s. unfold Commands.jobs in no_words-Refuses _)
        & refused (λ http s. Commands.job p.env http s json.value) (exactly 1)
            (λ http s. unfold Commands.job in one_word-Refuses _)
        & refused (λ http s. Commands.cancel_job p.env http s json.value) (exactly 1)
            (λ http s. unfold Commands.cancel_job in one_word-Refuses _)
        & refused (λ http s. Commands.connection_string p.env http s json.device) (exactly 1)
            (λ http s. unfold Commands.connection_string in one_word-Refuses _)
        & refused (λ http s. Commands.sas p.env http s json.device) (exactly 1)
            (λ http s. unfold Commands.sas in one_word-Refuses _)
        & tt

-- Where the connection string can be read, each command of the table, by its name or its alias, with
-- a number of words that its arity does not allow is refused as invalid usage, and nothing outside is
-- touched.
pub handler_refuses :
    {World FlagSet Object Value Feedback : Type 0} (p : Program World FlagSet)
    (json : Json Object Value Feedback) (creds : Credentials) (k : Str)
    (cmd : Command World FlagSet) (a : Arity) (fs : FlagSet) (w : World)
    → is_blank p.service_string ≡ false
    → parse_connection_string p.service_string ≡ ok creds
    → find_command k (commands p json) ≡ some cmd
    → lookup cmd.name arities ≡ some a
    → allows a (length (p.flags.args fs)) ≡ false
    → cmd.handler fs w ≡ (w, fail invalid_usage)
handler_refuses p json creds k cmd a fs w given parsed found named bad =
    All-find_command (IsRefused p json creds) k (commands p json) cmd found
      (commands-IsRefused p json creds given parsed) fs w a named bad
