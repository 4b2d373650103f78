-- ===== src/Program/Device/Table.antt =====
-- cmd/iothub-device/main.go: the commands by their names, with their flags, and `direct-method`.
use iothub.Base.{
  Bool, false, List, [], ◌∷◌, ◌++◌, Option, none, some, Str, codes, Dict, Outcome, ok, fail, panic,
  Error, bad_input, invalid_usage, if◌then◌else◌,
}
use iothub.Base.Int.{ℤ, pos}
use iothub.Message.{Message}
use iothub.Act.{Act, lift, ◌>>◌}
use iothub.Cli.{Command, Flags, new, run}
use iothub.Creds.{Creds}
use iothub.Device.Client.{Port, Client, Branch, register_method}
use iothub.Device.Methods.{Handler}
use iothub.Program.Flags.{FlagVar, bool_var, string_var, int_var}
use iothub.Program.Device.{
  Settings, Console, send, watch_events, watch_twin, twin, update_twin, wrap,
}

-- What the handler of `direct-method` returns, and what it sends to `errc`.
pub record Reply (Object : Type 0) : Type 0 where
  pub result : Outcome Object
  pub reported : Option Error

module _ {World Object : Type 0} (marshal : Object → Outcome Str) (unmarshal : Str → Outcome Object)
    (console : Console World) (read_line : Act World Str) (quite : Bool) where
  failed : Error → Reply Object
  failed e = record { result = fail e; reported = some e }

  parsed : Outcome Object → Reply Object
  parsed (ok v) = record { result = ok v; reported = none }
  parsed (fail e) = record { result = fail e; reported = some bad_input }
  parsed panic = record { result = panic; reported = none }

  line_read : World × Outcome Str → World × Reply Object
  unfolding failed parsed
  line_read (w, ok line) = (w, parsed (unmarshal line))
  line_read (w, fail e) = (w, failed e)
  line_read (w, panic) = (w, record { result = panic; reported = none })

  prompt : Str → World → World
  prompt b w =
      if quite
      then console.print b w
      else console.print (codes "Enter json response: ") (console.print (codes "Payload: " ++ b) w)

  shown : Outcome Str → World → World × Reply Object
  unfolding prompt line_read failed
  shown (ok b) w = line_read (read_line (prompt b w))
  shown (fail e) w = (w, failed e)
  shown panic w = (w, record { result = panic; reported = none })

  -- One call of the method: the payload is shown, and a line of the standard input answers it.
  unfoldable pub ask : Object → World → World × Reply Object
  unfolding shown
  ask p w = shown (marshal p) w

module _ {World Twin Object : Type 0} (port : Port World) (b : Branch) where
  -- `errc` is the first error that the handler sends; the command waits for it.
  unfoldable pub direct_method :
      Handler Object → Option Error → List Str → Act (Client World Twin Object) (Unit {0})
  unfolding register_method
  direct_method f errc [] = lift (fail invalid_usage)
  direct_method f errc (name ∷ []) =
      register_method port b name (some f) >> lift (elim errc [ none ↦ ok tt | some e ↦ fail e ])
  direct_method f errc (name ∷ word ∷ words) = lift (fail invalid_usage)

-- encoding/json at the types of the commands, and `%d`.
pub record Json (Twin State : Type 0) : Type 0 where
  pub show_message : Bool → Message → Outcome Str
  pub show_twin : Bool → Twin → Outcome Str
  pub read_states : Str → Outcome (State × State)
  pub show_state : State → Outcome Str
  pub marshal_twin : Dict (Option Str) → Outcome Str
  pub show_number : ℤ → Str

-- What the program runs in; the second part is what a connected command meets.
pub record Program (World FlagSet Tr : Type 0) : Type 0 where
  pub load : Str → Str → Outcome (Unit {0})
  pub env_debug : Bool
  pub device_string : Str
  pub mqtt : Tr
  pub port_of : Creds → Tr → Port World
  pub console : Console World
  pub flags : Flags World FlagSet
  pub declare : List FlagVar → FlagSet → FlagSet
  pub settings : FlagSet → Settings
  pub branch : Branch
  pub messages : List Message
  pub ended : Option Error

common_flags : List FlagVar
common_flags =
    bool_var (codes "debug") false (codes "enable debug mode")
    ∷ bool_var (codes "compress") false (codes "compress data (remove JSON indentations)")
    ∷ string_var (codes "transport") (codes "mqtt") (codes "transport to use <mqtt|amqp|http>")
    ∷ string_var (codes "tls-cert") [] (codes "path to x509 cert file")
    ∷ string_var (codes "tls-key") [] (codes "path to x509 key file")
    ∷ string_var (codes "device-id") [] (codes "device id, required for x509")
    ∷ string_var (codes "hostname") [] (codes "hostname to connect to, required for x509")
    ∷ []

send_flags : List FlagVar
send_flags =
    string_var (codes "mid") [] (codes "identifier for the message")
    ∷ string_var (codes "cid") [] (codes "message identifier in a request-reply")
    ∷ int_var (codes "qos") (pos 1) (codes "QoS value, 0 or 1 (mqtt only)")
    ∷ []

quite_flags : List FlagVar
quite_flags = bool_var (codes "quite") false (codes "disable additional hints") ∷ []

module _ {World FlagSet Tr Twin Object State : Type 0} (p : Program World FlagSet Tr)
    (json : Json Twin State) (twins : List Twin) (method : Handler Object) where
  -- A command that `wrap` runs.
  unfoldable pub wrapped :
      Str
      → Str
      → Str
      → Str
      → (Port World → Settings → List Str → Act (Client World Twin Object) (Unit {0}))
      → Option (List FlagVar)
      → Command World FlagSet
  unfolding wrap
  wrapped name alias help desc fn vars = record {
    name = name;
    alias = alias;
    help = help;
    desc = desc;
    handler = λ fs.
        wrap p.load p.env_debug p.device_string p.mqtt p.port_of (p.settings fs)
          (λ port. fn port (p.settings fs) (p.flags.args fs));
    parse_func = elim vars [ none ↦ none | some l ↦ some (p.declare l) ];
  }

  unfoldable pub commands : List (Command World FlagSet)
  unfolding wrapped send_flags quite_flags
  commands =
      wrapped (codes "send") (codes "s") (codes "PAYLOAD [KEY VALUE]...")
        (codes "send a message to the cloud (D2C)") (λ port s. send port p.console s p.branch)
        (some send_flags)
      ∷ wrapped (codes "watch-events") (codes "we") []
          (codes "subscribe to messages sent from the cloud (C2D)")
          (λ port s. watch_events port p.console s p.branch json.show_message p.messages p.ended)
          none
      ∷ wrapped (codes "watch-twin") (codes "wt") []
          (codes "subscribe to desired twin state updates")
          (λ port s. watch_twin port p.console s p.branch json.show_twin twins p.ended) none
      ∷ wrapped (codes "direct-method") (codes "dm") (codes "NAME")
          (codes "handle the named direct method, reads responses from STDIN")
          (λ port s. direct_method port p.branch method p.ended) (some quite_flags)
      ∷ wrapped (codes "twin-state") (codes "ts") [] (codes "retrieve desired and reported states")
          (λ port s words. twin port p.console s p.branch json.read_states json.show_state) none
      ∷ wrapped (codes "update-twin") (codes "ut") (codes "[KEY VALUE]...")
          (codes "updates the twin device deported state, null means delete the key")
          (λ port s. update_twin port p.console s p.branch json.marshal_twin json.show_number) none
      ∷ []

  help_text : Str
  help_text =
      codes
        "iothub-device helps iothub devices to communicate with the cloud.\nThe $DEVICE_CONNECTION_STRING environment variable is required unless you use x509 authentication."

  -- `run`; `sort` is sort.Slice by name.
  unfoldable pub run_program :
      (List (Command World FlagSet) → List (Command World FlagSet))
      → List Str
      → Act World (Unit {0})
  unfolding commands run new help_text common_flags
  run_program sort argv =
      run p.flags (new sort help_text (some (p.declare common_flags)) commands) argv
