-- ===== src/Service/Rest.antt =====
-- iotservice/client.go: the REST interface. The HTTP client is `Http`: it makes a request from its
-- parts, which fails on a malformed URL, and exchanges it for a response, whose body it reads whole.
-- encoding/json is in the arguments: a request object is what json.Marshal made of it, and a
-- response object is asked for by its json.Unmarshal.
pub mod Registry
pub mod Paths
pub mod Calls
mod Tests
use iothub.Base.{
  ℕ, Bool, true, false, List, [], ◌∷◌, ◌++◌, Option, none, some, Str, codes, insert, Dict, Outcome,
  ok, fail, panic, Error,
}
use iothub.Base.Int.{ℤ, pos}
use iothub.Sas.{Credentials, Crypto, sas}
use iothub.Creds.{api_version, hour}
use iothub.Act.{Act, continue, lift, ◌>>=◌, ◌>>◌}
use iothub.Eventhub.{Peer, rand_string}
use iothub.Service.{read_response}

pub record Request : Type 0 where
  pub method : Str
  pub uri : Str
  pub headers : Dict Str
  pub body : Str

pub record Response : Type 0 where
  pub status : ℕ
  pub body : Str

pub record Http (World : Type 0) : Type 0 where
  pub new_request : Str → Str → Outcome (Unit {0})
  pub exchange : Request → Act World Response

-- What `call` is given of the client and its surroundings.
pub record Rest (World : Type 0) : Type 0 where
  pub crypto : Crypto
  pub clock : ℤ
  pub creds : Credentials
  pub peer : Peer World
  pub http : Http World

abbrev pub Headers : Type 0
Headers = Dict (List Str)

unfoldable pub set_headers : Headers → Dict Str → Outcome (Dict Str)
set_headers [] h = ok h
set_headers ((k, v ∷ []) ∷ rest) h = set_headers rest (insert k v h)
set_headers ((k, _) ∷ rest) h = panic

-- The headers of every request; the names are already in canonical form.
unfoldable pub base_headers : Str → Str → Dict Str
base_headers token rid =
    (codes "Content-Type", codes "application/json; charset=utf-8")
    ∷ (codes "Authorization", token)
    ∷ (codes "Request-Id", rid)
    ∷ []

-- The marshalled request object; nil is an empty body.
unfoldable pub request_body : Option (Outcome Str) → Outcome Str
request_body none = ok []
request_body (some b) = b

unfoldable pub request_uri : Str → Str → Str
request_uri host path =
    codes "https://" ++ (host ++ (codes "/" ++ (path ++ (codes "?api-version=" ++ api_version))))

module _ {World V : Type 0} (rest : Rest World) where
  open rest use {crypto, clock, creds, peer, http}

  -- The part behind the request's id.
  exchange_with : Request → Headers → Option (Str → Outcome V) → V → Act World V
  unfolding set_headers read_response
  exchange_with req headers v empty = do
    h ← lift (set_headers headers req.headers)
    res ← http.exchange (record req { headers = h })
    lift (read_response v empty res.status res.body)

  -- `call`; `none` for `v` is a nil response object, whose result is `empty`.
  unfoldable pub call :
      Str → Str → Headers → Option (Outcome Str) → Option (Str → Outcome V) → V → Act World V
  unfolding request_body request_uri base_headers exchange_with rand_string sas
  call method path headers r v empty = do
    b ← lift (request_body r)
    lift (http.new_request method (request_uri creds.host_name path))
    token ← lift (sas crypto clock creds creds.host_name hour)
    rid ← rand_string peer
    exchange_with
        (record {
          method = method;
          uri = request_uri creds.host_name path;
          headers = base_headers token rid;
          body = b;
        })
        headers v empty
