-- ===== src/Service/Rest/Calls.antt =====
-- What a call that returned a value did.
use iothub.Base.{
  ℕ, ◌≡◌, refl, ◌⊎◌, arith, [], ◌∷◌, Option, none, some, Str, codes, lookup, lookup-insert, insert,
  str_eq, Dict, Outcome, ok, ◌∙◌,
}
use iothub.Sas.{sas}
use iothub.Creds.{hour}
use iothub.Act.{lift}
use iothub.Act.Returns.{>>=-returned}
use iothub.Eventhub.{rand_string}
use iothub.Service.{read_response}
use iothub.Service.Rest.{
  Request, Response, Rest, Headers, set_headers, base_headers, request_body, request_uri,
  exchange_with, call,
}

set_headers-lookup :
    (headers : Headers) (h h' : Dict Str) (k : Str)
    → lookup k headers ≡ none
    → set_headers headers h ≡ ok h'
    → lookup k h' ≡ lookup k h
unfolding set_headers lookup
set_headers-lookup [] h h' k free e = cc
set_headers-lookup ((j, v ∷ []) ∷ rest) h h' k free e =
    set_headers-lookup rest (insert j v h) h' k (ground arith) e
    ∙ ground (arith, lookup-insert j k v h)
set_headers-lookup ((j, []) ∷ rest) h h' k free e = cc
set_headers-lookup ((j, v ∷ u ∷ vs) ∷ rest) h h' k free e = cc

base_headers-lookup :
    (token rid : Str) → lookup (codes "Authorization") (base_headers token rid) ≡ some token
unfolding base_headers lookup str_eq
base_headers-lookup token rid = refl

read_response-ok :
    {V : Type 0} (v : Option (Str → Outcome V)) (empty : V) (status : ℕ) (body : Str) (value : V)
    → read_response v empty status body ≡ ok value
    → (status ≡ 200) ⊎ ((status ≡ 204) × (v ≡ none))
unfolding read_response
read_response-ok none empty status body value e = ground arith
read_response-ok (some f) empty status body value e = ground arith

module _ {World V : Type 0} (rest : Rest World) where
  -- The exchange behind a result: one request, which went to the hub with the method, the body and
  -- the path of the call and carried `token`, and whose response had a status of success.
  pub record Exchanged (method path : Str) (r : Option (Outcome Str)) (v : Option (Str → Outcome V))
      (empty value : V) : Type 0 where
    pub token : Str
    pub signed : sas rest.crypto rest.clock rest.creds rest.creds.host_name hour ≡ ok token
    pub request : Request
    pub same_method : request.method ≡ method
    pub same_uri : request.uri ≡ request_uri rest.creds.host_name path
    pub same_body : request_body r ≡ ok request.body
    pub authorized : lookup (codes "Authorization") request.headers ≡ some token
    pub response : Response
    pub before : World
    pub exchanged : (rest.http.exchange request before).1 ≡ ok response
    pub success : (response.status ≡ 200) ⊎ ((response.status ≡ 204) × (v ≡ none))
    pub result : read_response v empty response.status response.body ≡ ok value

  -- A call that returns a value has exchanged a request that carried a token of the client's
  -- credentials, where its own headers have no Authorization, and got it from a response with status
  -- 200, or 204 if no object was asked for.
  pub call-Exchanged :
      (method path : Str) (headers : Headers) (r : Option (Outcome Str))
      (v : Option (Str → Outcome V)) (empty value : V) (w : World)
      → lookup (codes "Authorization") headers ≡ none
      → (call rest method path headers r v empty w).1 ≡ ok value
      → Exchanged method path r v empty value
  unfolding call exchange_with
  call-Exchanged method path headers r v empty value w free e =
      let (b, body_of, e1) = >>=-returned (lift (request_body r)) _ w e in
      let (_, made, e2) =
        >>=-returned (lift (rest.http.new_request method (request_uri rest.creds.host_name path))) _
          w e1 in
      let (token, signed, e3) =
        >>=-returned (lift (sas rest.crypto rest.clock rest.creds rest.creds.host_name hour)) _ w
          e2 in
      let (rid, drawn, e4) = >>=-returned (rand_string rest.peer) _ w e3 in
      let (h, set, e5) =
        >>=-returned (lift (set_headers headers (base_headers token rid))) _ _ e4 in
      let (res, got, e6) = >>=-returned (rest.http.exchange _) _ _ e5 in
      record {
        token = token;
        signed = signed;
        request = record {
          method = method;
          uri = request_uri rest.creds.host_name path;
          headers = h;
          body = b;
        };
        same_method = refl;
        same_uri = refl;
        same_body = body_of;
        authorized =
            set_headers-lookup headers (base_headers token rid) h _ free set
            ∙ base_headers-lookup token rid;
        response = res;
        before = _;
        exchanged = got;
        success = read_response-ok v empty res.status res.body value e6;
        result = e6;
      }
