-- ===== src/Program/Service.antt =====
-- cmd/iothub-service/main.go: the variables of the flags, what the commands share, and `wrap`. What
-- the program is given of the outside is the record Env; the standard output is in the outer state.
pub mod Commands
pub mod Table
pub mod Laws
pub mod Pairing
mod Tests
use iothub.Base.{
  ℕ, Bool, true, false, List, [], ◌∷◌, Option, none, some, Str, is_blank, ◌&&◌, not, Outcome, ok,
  fail, panic, Error, invalid_usage, no_connection_string, no_authentication, if◌then◌else◌,
}
use iothub.Base.Int.{ℤ}
use iothub.Sas.{Crypto}
use iothub.Act.{Act, continue, lift, pure, ◌>>=◌, ◌>>◌}
use iothub.Eventhub.{Peer}
use iothub.Service.{Authentication, auth_sas, auth_self_signed, auth_ca}
use iothub.Service.Rest.{Http, Rest}
use iothub.Service.Connect.{Client, close_client}
use iothub.Service.New.{with_connection_string, with_debug, new_client, new_symmetric_key}

pub record Settings : Type 0 where
  pub debug : Bool
  pub compress : Bool
  pub uid : Str
  pub mid : Str
  pub cid : Str
  pub exp : ℤ
  pub ack : Str
  pub connect_timeout : ℤ
  pub response_timeout : ℤ
  pub auto_generate : Bool
  pub primary_key : Str
  pub secondary_key : Str
  pub primary_thumbprint : Str
  pub secondary_thumbprint : Str
  pub ca : Bool
  pub secondary : Bool
  pub uri : Str
  pub duration : ℤ
  pub ehcs : Str
  pub ehcg : Str

pub record Env (World : Type 0) : Type 0 where
  pub peer : Peer World
  pub bundled : Http World
  pub crypto : Crypto
  pub clock : ℤ
  -- fmt.Println
  pub print : Str → Act World (Unit {0})

-- A type of JSON values: json.Unmarshal into `zero`, and json.MarshalIndent by the compress flag.
pub record Codec (V : Type 0) : Type 0 where
  pub decode : Str → Outcome V
  pub zero : V
  pub show : Bool → V → Outcome Str

-- mkAuthentication
unfoldable pub mk_authentication : Settings → Outcome Authentication
mk_authentication s =
    if not (is_blank s.primary_key && is_blank s.secondary_key)
    then ok (record {
      symmetric_key =
          some (record { primary_key = s.primary_key; secondary_key = s.secondary_key });
      x509_thumbprint = none;
      type = auth_sas;
    })
    else if not (is_blank s.primary_thumbprint && is_blank s.secondary_thumbprint)
    then ok (record {
      symmetric_key = none;
      x509_thumbprint = some (record {
        primary_thumbprint = s.primary_thumbprint;
        secondary_thumbprint = s.secondary_thumbprint;
      });
      type = auth_self_signed;
    })
    else if s.ca
    then ok (record { symmetric_key = none; x509_thumbprint = none; type = auth_ca })
    else fail no_authentication

-- What a command works on.
abbrev pub State : Type 0 → Type 0
State World = Client × World

abbrev pub Handler : Type 0 → Type 0
Handler World = List Str → Act (State World) (Unit {0})

module _ {World : Type 0} where
  abbrev pub kept : {A : Type 0} → Client → World × Outcome A → State World × Outcome A
  kept c (w, r) = ((c, w), r)

  -- A call that leaves the client as it is.
  abbrev pub outside : {A : Type 0} → (Client → Act World A) → Act (State World) A
  outside f (c, w) = kept c (f c w)

  abbrev pub invalid : Act (State World) (Unit {0})
  invalid = lift (fail invalid_usage)

  -- `f.NArg() != 0` and `f.NArg() != 1` are refused.
  unfoldable pub no_words : Act (State World) (Unit {0}) → Handler World
  no_words m [] = m
  no_words m (word ∷ words) = invalid

  unfoldable pub one_word : (Str → Act (State World) (Unit {0})) → Handler World
  one_word f [] = invalid
  one_word f (word ∷ []) = f word
  one_word f (word ∷ other ∷ words) = invalid

  module _ (env : Env World) where
    ignored : World × Outcome (Unit {0}) → World × Outcome (Unit {0})
    ignored (w, r) = (w, ok tt)

    -- OutputLine, and OutputJSON, which does not look at the error of fmt.Println
    unfoldable pub output_line : Str → Act World (Unit {0})
    output_line line = env.print line

    unfoldable pub output_json : {V : Type 0} → Settings → Codec V → V → Act World (Unit {0})
    unfolding ignored
    output_json s codec v = do
      line ← lift (codec.show s.compress v)
      λ w. ignored (env.print line w)

    -- The client's REST interface.
    abbrev pub rest_of : Http World → Client → Rest World
    rest_of http c = record {
      crypto = env.crypto;
      clock = env.clock;
      creds = c.creds;
      peer = env.peer;
      http = http;
    }

    -- The answer to a request, printed.
    unfoldable pub fetch :
        {V : Type 0}
        → Http World
        → Settings
        → Codec V
        → (Rest World → Act World V)
        → Act (State World) (Unit {0})
    unfolding output_json
    fetch http s codec request = do
      v ← outside (λ c. request (rest_of http c))
      outside (λ c. output_json s codec v)

    -- The deferred Close.
    closing : State World × Outcome (Unit {0}) → World × Outcome (Unit {0})
    unfolding close_client
    closing ((c, w), r) = ((close_client env.peer env.crypto env.clock c w).0.1, r)

    run_with :
        (Http World → Act (State World) (Unit {0}))
        → Client × Http World × Bool
        → Act World (Unit {0})
    unfolding closing
    run_with fn (c, http, debug) w = closing (fn http (c, w))

    -- wrap; `cs` is $SERVICE_CONNECTION_STRING, empty if it is not set.
    unfoldable pub wrap :
        Str → Settings → (Http World → Act (State World) (Unit {0})) → Act World (Unit {0})
    unfolding new_client run_with
    wrap cs s fn =
        if is_blank cs
        then lift (fail no_connection_string)
        else lift (new_client env.bundled (with_connection_string cs ∷ with_debug s.debug ∷ []))
          >>= run_with fn
