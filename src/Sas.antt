-- ===== src/Sas.antt =====
-- common/sas.go: connection strings, and the access tokens that are signed with their keys.
pub mod Parsing
pub mod Token
mod Tests
use iothub.Base.{
  ℕ, ◌+◌, ◌/◌, ◌^◌, Bool, ◌||◌, List, [], ◌∷◌, ◌++◌, Option, none, some, Str, codes, str_eq,
  is_blank, cut, split, length, ◌==◌, if◌then◌else◌, Outcome, ok, fail, panic, ◌>>=◌, or_fail,
  malformed_connection_string, blank_uri, zero_duration, blank_shared_access_key, external,
}
use iothub.Base.Int.{ℤ, pos, negsuc, int_eq, ◌+ℤ◌}
use iothub.Go.Decimal.{format_int}
use iothub.Go.Url.{query_escape}

-- `now` is `none` for the zero time.
pub record Credentials : Type 0 where
  pub host_name : Str
  pub device_id : Str
  pub shared_access_key : Str
  pub shared_access_key_name : Str
  pub now : Option ℤ

abbrev pub no_credentials : Credentials
no_credentials = record {
  host_name = [];
  device_id = [];
  shared_access_key = [];
  shared_access_key_name = [];
  now = none;
}

-- strings.SplitN(chunk, "=", 2): `c[0]`, and `c[1]`, whose read panics where there is none.
abbrev pub chunk_key : Str → Str
chunk_key chunk = elim (cut b'=' chunk) [ none ↦ chunk | some (k, v) ↦ k ]

abbrev pub chunk_value : Str → Outcome Str
chunk_value chunk = elim (cut b'=' chunk) [ none ↦ panic | some (k, v) ↦ ok v ]

-- The `switch c[0]` of one round.
unfoldable pub assign : Credentials → Str → Outcome Str → Outcome Credentials
assign m key value =
    if str_eq key (codes "HostName")
    then (do v ← value; ok (record m { host_name = v }))
    else if str_eq key (codes "DeviceId")
    then (do v ← value; ok (record m { device_id = v }))
    else if str_eq key (codes "SharedAccessKey")
    then (do v ← value; ok (record m { shared_access_key = v }))
    else if str_eq key (codes "SharedAccessKeyName")
    then (do v ← value; ok (record m { shared_access_key_name = v }))
    else ok m

unfoldable pub assign_all : Credentials → List Str → Outcome Credentials
assign_all m [] = ok m
assign_all m (chunk ∷ chunks) = do
  m' ← assign m (chunk_key chunk) (chunk_value chunk)
  assign_all m' chunks

unfoldable pub parse_connection_string : Str → Outcome Credentials
unfolding assign_all assign
parse_connection_string cs =
    let chunks = split b';' cs in
    if length chunks == 3 || length chunks == 4
    then assign_all no_credentials chunks
    else fail malformed_connection_string

-- What the token takes from packages encoding/base64 and crypto.
pub record Crypto : Type 0 where
  pub base64_decode : Str → Option Str
  pub base64_encode : Str → Str
  pub hmac_sha256 : Str → Str → Str

-- `t.Unix()` of a time in nanoseconds, rounded down.
abbrev pub unix : ℤ → ℤ
unix (pos n) = pos (n / 10 ^ 9)
unix (negsuc n) = negsuc (n / 10 ^ 9)

abbrev pub current : Option ℤ → ℤ → ℤ
current none clock = clock
current (some t) clock = t

-- The text that is signed: the escaped uri and the expiration time.
unfoldable pub string_to_sign : Str → ℤ → Str
unfolding query_escape format_int
string_to_sign uri se = query_escape uri ++ b'\n' ∷ format_int se

unfoldable pub render_token : Str → Str → ℤ → Str → Str
unfolding query_escape format_int
render_token uri sig se skn =
    codes "SharedAccessSignature "
    ++ (codes "sr="
        ++ (query_escape uri
            ++ (codes "&sig="
                ++ (query_escape sig
                    ++ (codes "&se="
                        ++ (query_escape (format_int se)
                            ++ (codes "&skn=" ++ query_escape skn)))))))

module _ (crypto : Crypto) where
  open crypto use {base64_decode, base64_encode, hmac_sha256}

  -- Credentials.SAS; `clock` is time.Now() and the duration is in nanoseconds.
  unfoldable pub sas : ℤ → Credentials → Str → ℤ → Outcome Str
  unfolding string_to_sign render_token
  sas clock c uri duration =
      if is_blank uri
      then fail blank_uri
      else if int_eq duration (pos 0)
      then fail zero_duration
      else if is_blank c.shared_access_key
      then fail blank_shared_access_key
      else (do
        b ← or_fail (base64_decode c.shared_access_key) (external (codes "base64"))
        let se = unix (current c.now clock +ℤ duration)
        ok (
            render_token uri (base64_encode (hmac_sha256 b (string_to_sign uri se))) se
              c.shared_access_key_name))
