-- ===== src/Program/Service/Table.antt =====
-- cmd/iothub-service/main.go: the commands by their names, with their flags.
use iothub.Base.{ℕ, Bool, false, List, [], ◌∷◌, Option, none, some, Str, codes, Dict, Outcome}
use iothub.Base.Int.{pos}
use iothub.Creds.{hour}
use iothub.Act.{Act}
use iothub.Cli.{Command, Flags, new, run}
use iothub.Eventhub.Pump.{Course}
use iothub.Service.{Device}
use iothub.Service.Rest.{Http}
use iothub.Service.Rest.Registry.{Call}
use iothub.Program.Flags.{FlagVar, bool_var, string_var, int_var, duration_var}
use iothub.Program.Service.{Settings, Env, Codec, Handler, wrap}
use iothub.Program.Service.Commands as Commands

-- encoding/json at the types of the commands; one type stands for all that is only printed.
pub record Json (Object Value Feedback : Type 0) : Type 0 where
  pub device : Codec Device
  pub devices : Codec (List Device)
  pub value : Codec Value
  pub marshal_device : Device → Outcome Str
  pub marshal_twin : Dict (Option Str) → Outcome Str
  pub marshal_call : Call Object → Outcome Str
  pub read_object : Str → Outcome Object
  pub is_empty : Object → Bool
  pub read_feedback : Str → Outcome (List Feedback)

-- What a subscription meets: the course of its receivers, and how many calls
-- of Receive return.
pub record Schedule : Type 0 where
  pub course : Course
  pub returning : ℕ

-- What the program runs in: `declare` defines flags, `settings` reads their variables.
pub record Program (World FlagSet : Type 0) : Type 0 where
  pub env : Env World
  pub service_string : Str
  pub parse_url : Str → Outcome (Str × Str)
  pub schedule : Schedule
  pub flags : Flags World FlagSet
  pub declare : List FlagVar → FlagSet → FlagSet
  pub settings : FlagSet → Settings

common_flags : List FlagVar
common_flags =
    bool_var (codes "debug") false (codes "enable debug mode")
    ∷ bool_var (codes "compress") false (codes "compress data (remove JSON indentations)")
    ∷ []

send_flags : List FlagVar
send_flags =
    string_var (codes "ack") [] (codes "type of ack feedback")
    ∷ string_var (codes "uid") (codes "golang-iothub") (codes "origin of the message")
    ∷ string_var (codes "mid") [] (codes "identifier for the message")
    ∷ string_var (codes "cid") [] (codes "message identifier in a request-reply")
    ∷ duration_var (codes "exp") (pos 0) (codes "message lifetime")
    ∷ []

watch_flags : List FlagVar
watch_flags =
    string_var (codes "ehcs") [] (codes "custom eventhub connection string")
    ∷ string_var (codes "ehcg") (codes "$Default") (codes "eventhub consumer group")
    ∷ []

call_flags : List FlagVar
call_flags =
    int_var (codes "c") (pos 0) (codes "connect timeout in seconds")
    ∷ int_var (codes "r") (pos 30) (codes "response timeout in seconds")
    ∷ []

update_flags : List FlagVar
update_flags =
    string_var (codes "primary-key") [] (codes "primary key (base64)")
    ∷ string_var (codes "secondary-key") [] (codes "secondary key (base64)")
    ∷ string_var (codes "primary-thumbprint") [] (codes "x509 primary thumbprint")
    ∷ string_var (codes "secondary-thumbprint") [] (codes "x509 secondary thumbprint")
    ∷ bool_var (codes "ca") false (codes "use certificate authority authentication")
    ∷ []

create_flags : List FlagVar
unfolding update_flags
create_flags = bool_var (codes "auto") false (codes "auto generate keys") ∷ update_flags

secondary_flag : FlagVar
secondary_flag = bool_var (codes "secondary") false (codes "use the secondary key instead")

sas_flags : List FlagVar
unfolding secondary_flag
sas_flags =
    string_var (codes "uri") [] (codes "storage resource uri")
    ∷ duration_var (codes "duration") hour (codes "token validity time")
    ∷ secondary_flag
    ∷ []

module _ {World FlagSet Object Value Feedback : Type 0} (p : Program World FlagSet)
    (json : Json Object Value Feedback) where
  open p use {env, flags, schedule}

  -- A command that `wrap` runs.
  unfoldable pub wrapped :
      Str
      → Str
      → Str
      → Str
      → (Http World → Settings → Handler World)
      → Option (List FlagVar)
      → Command World FlagSet
  unfolding wrap
  wrapped name alias help desc fn vars = record {
    name = name;
    alias = alias;
    help = help;
    desc = desc;
    handler = λ fs.
        wrap env p.service_string (p.settings fs) (λ http. fn http (p.settings fs) (flags.args fs));
    parse_func = elim vars [ none ↦ none | some l ↦ some (p.declare l) ];
  }

  unfoldable pub commands : List (Command World FlagSet)
  unfolding wrapped send_flags watch_flags call_flags create_flags update_flags sas_flags
      secondary_flag
  commands =
      wrapped (codes "send") (codes "s") (codes "DEVICE PAYLOAD [KEY VALUE]...")
        (codes "send a message to the named device (C2D)") (λ http s. Commands.send env http s)
        (some send_flags)
      ∷ wrapped (codes "watch-events") (codes "we") [] (codes "subscribe to device messages (D2C)")
          (λ http s. Commands.watch_events env http s p.parse_url schedule.course)
          (some watch_flags)
      ∷ wrapped (codes "watch-feedback") (codes "wf") []
          (codes "monitor message feedback send by devices")
          (λ http s. Commands.watch_feedback env http s json.read_feedback schedule.returning) none
      ∷ wrapped (codes "call") (codes "c") (codes "DEVICE METHOD PAYLOAD")
          (codes "call a direct method on a device")
          (λ http s.
            Commands.call env http s json.read_object json.is_empty json.marshal_call json.value)
          (some call_flags)
      ∷ wrapped (codes "device") (codes "d") (codes "DEVICE") (codes "get device information")
          (λ http s. Commands.device env http s json.device) none
      ∷ wrapped (codes "devices") (codes "ds") [] (codes "list all available devices")
          (λ http s. Commands.devices env http s json.devices) none
      ∷ wrapped (codes "create-device") (codes "cd") (codes "DEVICE") (codes "creates a new device")
          (λ http s. Commands.create_device env http s json.marshal_device json.device)
          (some create_flags)
      ∷ wrapped (codes "update-device") (codes "ud") (codes "DEVICE")
          (codes "updates the named device")
          (λ http s. Commands.update_device env http s json.marshal_device json.device)
          (some update_flags)
      ∷ wrapped (codes "delete-device") (codes "dd") (codes "DEVICE")
          (codes "delete the named device") (λ http s. Commands.delete_device env http s) none
      ∷ wrapped (codes "twin") (codes "t") [] (codes "inspect the named twin device")
          (λ http s. Commands.twin env http s json.value) none
      ∷ wrapped (codes "update-twin") (codes "ut") (codes "DEVICE [KEY VALUE]...")
          (codes "update the named twin device")
          (λ http s. Commands.update_twin env http s json.marshal_twin json.value) none
      ∷ wrapped (codes "stats") (codes "st") [] (codes "get statistics about the devices")
          (λ http s. Commands.stats env http s json.value) none
      ∷ wrapped (codes "jobs") (codes "js") [] (codes "list the last import/export jobs")
          (λ http s. Commands.jobs env http s json.value) none
      ∷ wrapped (codes "job") (codes "j") (codes "ID")
          (codes "get the status of a import/export job")
          (λ http s. Commands.job env http s json.value) none
      ∷ wrapped (codes "cancel-job") (codes "cj") [] (codes "cancel a import/export job")
          (λ http s. Commands.cancel_job env http s json.value) none
      ∷ wrapped (codes "connection-string") (codes "cs") (codes "DEVICE")
          (codes "get a device's connection string")
          (λ http s. Commands.connection_string env http s json.device) (some (secondary_flag ∷ []))
      ∷ wrapped (codes "access-signature") (codes "sas") (codes "DEVICE")
          (codes "generate a SAS token") (λ http s. Commands.sas env http s json.device)
          (some sas_flags)
      ∷ []

  help_text : Str
  help_text =
      codes
        "Helps with interacting and managing your iothub devices. \nThe $SERVICE_CONNECTION_STRING environment variable is required for authentication."

  -- `run`; `sort` is sort.Slice by name.
  unfoldable pub run_program :
      (List (Command World FlagSet) → List (Command World FlagSet))
      → List Str
      → Act World (Unit {0})
  unfolding commands run new help_text common_flags
  run_program sort argv =
      run flags (new sort help_text (some (p.declare common_flags)) commands) argv
