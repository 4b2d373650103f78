-- ===== src/Sas/Tests.antt =====
-- The inputs of common/sas_test.go, and each property of the connection strings and tokens at one.
use iothub.Go.Url.{query_escape}
use iothub.Go.Decimal.{format_int}
use iothub.Base.Int.{◌+ℤ◌}
use iothub.Sas.Token.{IsSecondOf}
use iothub.Base.{
  ◌++◌, ◌∷◌, ◌≡◌, refl, ◌↔◌, [], none, some, Str, codes, arith, ok, panic, split, cut, str_eq,
}
use iothub.Base.Int.{ℤ, pos}
use iothub.Go.Query.{parse_query}
use iothub.Sas.{Credentials, no_credentials, Crypto, parse_connection_string, sas}
use iothub.Sas.Parsing.{
  Says, IsRightCount, HasBareKey, parse_connection_string-Says, parse_connection_string_panic_iff,
}
use iothub.Sas.Token.{sas-fields}

abbrev device_string : Str
device_string = codes "HostName=test.azure-devices.net;DeviceId=devnull;SharedAccessKey=c2VjcmV0"

abbrev device_credentials : Credentials
device_credentials = record {
  host_name = codes "test.azure-devices.net";
  device_id = codes "devnull";
  shared_access_key = codes "c2VjcmV0";
  shared_access_key_name = [];
  now = none;
}

parse_device_string : parse_connection_string device_string ≡ ok device_credentials
unfolding parse_connection_string split cut str_eq
parse_device_string = refl

parse_connection_string-Says_example :
    IsRightCount device_string × Says (split b';' device_string) no_credentials device_credentials
parse_connection_string-Says_example =
    parse_connection_string-Says device_string device_credentials parse_device_string

abbrev bare_string : Str
bare_string = codes "HostName;DeviceId=d;SharedAccessKey=k"

parse_connection_string_panic_iff_example :
    (parse_connection_string bare_string ≡ panic)
    ↔ (IsRightCount bare_string × HasBareKey (split b';' bare_string))
parse_connection_string_panic_iff_example = parse_connection_string_panic_iff bare_string

parse_bare_string : parse_connection_string bare_string ≡ panic
unfolding parse_connection_string split cut str_eq
parse_bare_string = refl

-- Stand-ins for the codecs: a key is its own decoding, and a digest joins key and text.
abbrev plain_crypto : Crypto
plain_crypto = record {
  base64_decode = λ s. some s;
  base64_encode = λ s. codes "sig";
  hmac_sha256 = λ k s. k;
}

abbrev hour : ℤ
hour = pos 3600000000000

abbrev token : Str
token = codes "SharedAccessSignature sr=a%2Fb&sig=sig&se=3601&skn="

sas-token : sas plain_crypto (pos 1500000000) device_credentials (codes "a/b") hour ≡ ok token
unfolding sas
sas-token = refl

sas-fields_example :
    (key : Str) × (se : ℤ) × (fields : Str) × (plain_crypto.base64_decode
        device_credentials.shared_access_key
      ≡ some key)
    × IsSecondOf se (pos 1500000000 +ℤ hour)
    × (token ≡ codes "SharedAccessSignature " ++ fields)
    × (parse_query fields
        ≡ some (
            (codes "sr", codes "a/b" ∷ [])
            ∷ (
              codes "sig",
              plain_crypto.base64_encode (
                    plain_crypto.hmac_sha256 key
                      (query_escape (codes "a/b") ++ b'\n' ∷ format_int se))
                  ∷ [],
            )
            ∷ (codes "se", format_int se ∷ [])
            ∷ (codes "skn", [] ∷ [])
            ∷ []))
sas-fields_example =
    sas-fields plain_crypto (pos 1500000000) device_credentials (codes "a/b") hour token
      (λ s. omega arith) (omega arith) tt sas-token
