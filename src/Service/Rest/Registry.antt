-- ===== src/Service/Rest/Registry.antt =====
-- The operations of the registry: their checks, and the request that each makes.
use iothub.Base.{
  Bool, List, [], ◌∷◌, ◌++◌, Option, none, some, Str, codes, is_blank, Outcome, fail, panic,
  empty_device_id, empty_method_name, empty_payload, if◌then◌else◌,
}
use iothub.Base.Int.{ℤ, pos}
use iothub.Go.Path.{path_escape}
use iothub.Act.{Act, lift}
use iothub.Service.{Device}
use iothub.Service.Rest.{Rest, Headers, call}

abbrev pub any_etag : Headers
any_etag = (codes "If-Match", codes "*" ∷ []) ∷ []

-- A value in the request of a job.
pub data Setting : Type 0 where
  words : Str → Setting
  switch : Bool → Setting

-- The request of a direct method call; the timeouts are in seconds.
pub record Call (Object : Type 0) : Type 0 where
  pub method_name : Str
  pub connect_timeout : ℤ
  pub response_timeout : ℤ
  pub payload : Object

pub data CallOption : Type 0 where
  with_call_connect_timeout : ℤ → CallOption
  with_call_response_timeout : ℤ → CallOption

module _ {Object : Type 0} where
  unfoldable pub new_call : Str → Object → Call Object
  new_call method payload = record {
    method_name = method;
    connect_timeout = pos 0;
    response_timeout = pos 0;
    payload = payload;
  }

  unfoldable pub apply_call_option : CallOption → Call Object → Call Object
  apply_call_option (with_call_connect_timeout n) c = record c { connect_timeout = n }
  apply_call_option (with_call_response_timeout n) c = record c { response_timeout = n }

  unfoldable pub apply_call_options : List CallOption → Call Object → Call Object
  unfolding apply_call_option
  apply_call_options [] c = c
  apply_call_options (o ∷ os) c = apply_call_options os (apply_call_option o c)

unfoldable pub device_path : Str → Str
unfolding path_escape
device_path id = codes "devices/" ++ path_escape id

unfoldable pub twin_path : Str → Str
unfolding path_escape
twin_path id = codes "twins/" ++ path_escape id

unfoldable pub job_path : Str → Str
unfolding path_escape
job_path id = codes "jobs/" ++ path_escape id

module _ {World V : Type 0} (rest : Rest World) (unmarshal : Str → Outcome V) (zero_value : V) where
  -- The response object is a pointer to `zero_value`.
  abbrev ask : Str → Str → Headers → Option (Outcome Str) → Act World V
  ask method path headers body = call rest method path headers body (some unmarshal) zero_value

  -- Call; `marshal` is json.Marshal, and `is_empty` whether a map has no key.
  unfoldable pub call_method :
      {Object : Type 0}
      → (Object → Bool)
      → (Call Object → Outcome Str)
      → Str
      → Str
      → Object
      → List CallOption
      → Act World V
  unfolding call twin_path apply_call_options new_call
  call_method is_empty marshal device method payload opts =
      if is_blank device
      then lift (fail empty_device_id)
      else if is_blank method
      then lift (fail empty_method_name)
      else if is_empty payload
      then lift (fail empty_payload)
      else (let v = apply_call_options opts (new_call method payload) in
          ask (codes "POST") (twin_path device ++ codes "/methods") [] (some (marshal v)))

  unfoldable pub get_device : Str → Act World V
  unfolding call device_path
  get_device id =
      if is_blank id
      then lift (fail empty_device_id)
      else ask (codes "GET") (device_path id) [] none

  -- CreateDevice and UpdateDevice; a nil device is `none`.
  put_device : (Device → Outcome Str) → Headers → Option Device → Act World V
  unfolding call device_path
  put_device marshal headers none = lift panic
  put_device marshal headers (some d) =
      if is_blank d.device_id
      then lift (fail empty_device_id)
      else ask (codes "PUT") (device_path d.device_id) headers (some (marshal d))

  unfoldable pub create_device : (Device → Outcome Str) → Option Device → Act World V
  unfolding put_device
  create_device marshal d = put_device marshal [] d

  unfoldable pub update_device : (Device → Outcome Str) → Option Device → Act World V
  unfolding put_device
  update_device marshal d = put_device marshal any_etag d

  unfoldable pub list_devices : Act World V
  unfolding call
  list_devices = ask (codes "GET") (codes "devices") [] none

  -- GetTwin, which takes a blank id.
  unfoldable pub get_twin : Str → Act World V
  unfolding call twin_path
  get_twin id = ask (codes "GET") (twin_path id) [] none

  -- UpdateTwin; `twin` is the marshalled twin, or `none` for nil.
  send_twin : Str → Str → Option (Outcome Str) → Act World V
  unfolding call twin_path
  send_twin id etag none = lift panic
  send_twin id etag (some twin) =
      ask (codes "PATCH") (twin_path id) ((codes "If-Match", etag ∷ []) ∷ []) (some twin)

  unfoldable pub update_twin : Str → Option (Outcome Str) → Str → Act World V
  unfolding send_twin
  update_twin id twin etag =
      if is_blank id then lift (fail empty_device_id) else send_twin id etag twin

  unfoldable pub stats : Act World V
  unfolding call
  stats = ask (codes "GET") (codes "statistics/devices") [] none

  unfoldable pub import_devices : (List (Str × Setting) → Outcome Str) → Str → Str → Act World V
  unfolding call
  import_devices marshal input output = ask (codes "GET") (codes "jobs/create") [] (
      some (
        marshal (
          (codes "type", words (codes "import"))
          ∷ (codes "inputBlobContainerUri", words input)
          ∷ (codes "outputBlobContainerUri", words output)
          ∷ [])))

  unfoldable pub export_devices : (List (Str × Setting) → Outcome Str) → Str → Bool → Act World V
  unfolding call
  export_devices marshal output exclude_keys = ask (codes "GET") (codes "jobs/create") [] (
      some (
        marshal (
          (codes "type", words (codes "export"))
          ∷ (codes "outputBlobContainerUri", words output)
          ∷ (codes "excludeKeysInExport", switch exclude_keys)
          ∷ [])))

  unfoldable pub list_jobs : Act World V
  unfolding call
  list_jobs = ask (codes "GET") (codes "jobs") [] none

  unfoldable pub get_job : Str → Act World V
  unfolding call job_path
  get_job id = ask (codes "GET") (job_path id) [] none

  unfoldable pub cancel_job : Str → Act World V
  unfolding call job_path
  cancel_job id = ask (codes "DELETE") (job_path id) [] none

-- DeleteDevice has no response object.
unfoldable pub delete_device : {World : Type 0} → Rest World → Str → Act World (Unit {0})
unfolding call device_path
delete_device rest id =
    if is_blank id
    then lift (fail empty_device_id)
    else call rest (codes "DELETE") (device_path id) any_etag none none tt
