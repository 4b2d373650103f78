-- ===== src/Program/Service/Tests.antt =====
-- The service program at a hub that has one device.
use iothub.Base.{
  ◌≡◌, refl, true, false, List, [], ◌∷◌, ◌++◌, none, some, Str, codes, is_blank, lookup, insert,
  str_eq, split, cut, ok, fail, external, invalid_usage,
}
use iothub.Base.Int.{pos}
use iothub.Sas.{Credentials, no_credentials, Crypto, parse_connection_string}
use iothub.Cli.{Command, Flags, find_command}
use iothub.Eventhub.{no_detach, Peer}
use iothub.Service.{Device, auth_sas}
use iothub.Service.Rest.{Http}
use iothub.Service.Connect.{Client}
use iothub.Program.Service.{Settings, Env, Codec, mk_authentication}
use iothub.Program.Service.Commands as Commands
use iothub.Program.Service.Table.{Json, Program, wrapped, commands}
use iothub.Program.Flags.{exit}
use iothub.Program.Service.Laws.{exactly, handler_refuses}

-- The outer state is the list of what was printed.
abbrev silent : Peer (List Str)
silent = record {
  random = λ n w. (w, ok (1 ∷ 2 ∷ []));
  dial = λ a u w. (w, ok 1);
  detach = λ e. no_detach;
  new_session = λ c w. (w, ok 1);
  new_sender = λ s o w. (w, ok 1);
  new_receiver = λ s o w. (w, ok 1);
  send = λ l m w. (w, ok tt);
  receive = λ l w. (w, fail (external (codes "nothing")));
  accept = λ m w. w;
  close_link = λ l w. w;
  close_session = λ s w. (w, ok tt);
  close_connection = λ c w. (w, ok tt);
}

abbrev plain_crypto : Crypto
plain_crypto = record {
  base64_decode = λ s. some s;
  base64_encode = λ s. codes "sig";
  hmac_sha256 = λ k s. k;
}

abbrev hub_http : Http (List Str)
hub_http = record {
  new_request = λ m u. ok tt;
  exchange = λ r w. (w, ok (record { status = 200; body = r.body }));
}

abbrev env : Env (List Str)
env = record {
  peer = silent;
  bundled = hub_http;
  crypto = plain_crypto;
  clock = pos 0;
  print = λ line w. (w ++ line ∷ [], ok tt);
}

abbrev flags : Settings
flags = record {
  debug = false;
  compress = false;
  uid = [];
  mid = [];
  cid = [];
  exp = pos 0;
  ack = [];
  connect_timeout = pos 0;
  response_timeout = pos 30;
  auto_generate = true;
  primary_key = [];
  secondary_key = [];
  primary_thumbprint = codes "ab";
  secondary_thumbprint = [];
  ca = true;
  secondary = false;
  uri = [];
  duration = pos 3600000000000;
  ehcs = [];
  ehcg = codes "$Default";
}

abbrev lamp : Device
lamp = record {
  device_id = codes "lamp";
  authentication = some (record {
    symmetric_key = some (record { primary_key = codes "a2V5"; secondary_key = [] });
    x509_thumbprint = none;
    type = auth_sas;
  });
}

abbrev one_lamp : Codec Device
one_lamp = record { decode = λ s. ok lamp; zero = lamp; show = λ b d. ok d.device_id }

abbrev hub_creds : Credentials
hub_creds = record no_credentials {
  host_name = codes "h.net";
  shared_access_key_name = codes "s";
  shared_access_key = codes "a2V5";
}

abbrev client : Client
client = record { conn = none; done = false; creds = hub_creds }

abbrev lamp_string : Str
lamp_string = codes "HostName=h.net;DeviceId=lamp;SharedAccessKey=a2V5"

-- A set of flags is the words behind them.
abbrev small_flags : Flags (List Str) (List Str)
small_flags = record {
  new_flag_set = λ s. [];
  parse = λ fs usage l w. (w, ok l);
  help_asked = λ e. false;
  name = λ fs. codes "iothub-service";
  args = λ fs. fs;
  print_defaults = λ fs w. w;
  printf = λ f l w. w ++ f ∷ [];
}

abbrev program : Program (List Str) (List Str)
program = record {
  env = env;
  service_string = codes "HostName=h.net;SharedAccessKeyName=s;SharedAccessKey=a2V5";
  parse_url = λ s. ok (s, s);
  schedule = record { course = record { now = 0; opened = λ r. []; events = [] }; returning = 0 };
  flags = small_flags;
  declare = λ l fs. fs;
  settings = λ fs. flags;
}

abbrev json : Json Str Str Str
json = record {
  device = one_lamp;
  devices = record { decode = λ s. ok []; zero = []; show = λ b l. ok [] };
  value = record { decode = λ s. ok s; zero = []; show = λ b v. ok v };
  marshal_device = λ d. ok d.device_id;
  marshal_twin = λ m. ok (codes "{}");
  marshal_call = λ c. ok c.method_name;
  read_object = λ s. ok s;
  is_empty = is_blank;
  read_feedback = λ s. ok [];
}

abbrev twin_command : Command (List Str) (List Str)
twin_command =
    wrapped program json (codes "twin") (codes "t") [] (codes "inspect the named twin device")
      (λ http s. Commands.twin env http s json.value) none

twin_found : find_command (codes "t") (commands program json) ≡ some twin_command
unfolding find_command commands str_eq
twin_found = refl

string_parsed : parse_connection_string program.service_string ≡ ok hub_creds
unfolding parse_connection_string split cut str_eq
string_parsed = refl

handler_refuses_example : twin_command.handler [] [] ≡ ([], fail invalid_usage)
handler_refuses_example =
    handler_refuses program json hub_creds (codes "t") twin_command (exactly 1) [] [] refl
      string_parsed twin_found (unfold wrapped lookup str_eq in refl) refl

-- New keys take precedence over a thumbprint and a certificate authority.
lamp_created :
    (Commands.create_device env hub_http flags
      (λ d. elim d.authentication [ none ↦ ok [] | some a ↦ ok a.type ])
      (record one_lamp { decode = λ s. ok (record lamp { device_id = s }) })
      (codes "lamp" ∷ [])
      (client, []))
    ≡ ((client, auth_sas ∷ []), ok tt)
unfolding Commands.create_device insert str_eq
lamp_created = refl

thumbprint_before_ca :
    mk_authentication flags
    ≡ ok (record {
      symmetric_key = none;
      x509_thumbprint =
          some (record { primary_thumbprint = codes "ab"; secondary_thumbprint = [] });
      type = codes "selfSigned";
    })
unfolding mk_authentication
thumbprint_before_ca = refl

-- A refused command has shown its usage already, so that `main` writes nothing.
quiet_exit : exit (λ e w. w ++ codes "error" ∷ []) ([], fail invalid_usage) ≡ ([], some 1)
unfolding exit
quiet_exit = refl
