-- ===== src/Sas/Token.antt =====
-- Credentials.SAS: when it signs, and what its token says.
use mathlib.Core.Path.{subst}
use iothub.Base.{
  ℕ, ◌+◌, ◌*◌, ◌/◌, ◌%◌, ◌^◌, ◌<◌, Option, none, ◌≡◌, refl, ◌≢◌, ◌↔◌, [], ◌∷◌, ◌++◌, some, Str,
  codes, str_eq, lookup, All, arith, ◌∙◌, ok, HasDistinctKeys, Dict,
}
use iothub.Base.Int.{ℤ, pos, negsuc, int_eq_iff, ◌+ℤ◌}
use iothub.Go.Decimal.{format_int}
use iothub.Go.Decimal.Laws.{format_int-IsByte}
use iothub.Go.Url.Laws.{IsByte}
use iothub.Go.Url.{query_escape}
use iothub.Go.Query.{parse_query, pair, join_amp}
use iothub.Go.Query.Laws.{AreBytes, pair_texts, parse_query-pairs}
use iothub.Sas.{Credentials, Crypto, unix, current, string_to_sign, render_token, sas}

abbrev pub token_prefix : Str
token_prefix = codes "SharedAccessSignature "

-- The four fields of a token.
abbrev pub token_fields : Str → Str → ℤ → Str → Dict Str
token_fields uri sig se skn =
    (codes "sr", uri) ∷ (codes "sig", sig) ∷ (codes "se", format_int se) ∷ (codes "skn", skn) ∷ []

render_token-join_amp :
    (uri sig : Str) (se : ℤ) (skn : Str)
    → render_token uri sig se skn
      ≡ token_prefix ++ join_amp (pair_texts (token_fields uri sig se skn))
unfolding render_token join_amp pair
render_token-join_amp uri sig se skn = refl

token_fields-HasDistinctKeys :
    (uri sig : Str) (se : ℤ) (skn : Str) → HasDistinctKeys (token_fields uri sig se skn)
unfolding lookup str_eq
token_fields-HasDistinctKeys uri sig se skn = (refl, (refl, (refl, (refl, tt))))

token_fields-AreBytes :
    (uri sig : Str) (se : ℤ) (skn : Str)
    → All IsByte uri
    → All IsByte sig
    → All IsByte skn
    → AreBytes (token_fields uri sig se skn)
token_fields-AreBytes uri sig se skn u g n = (
  (omega arith, u),
  ((omega arith, g), ((omega arith, format_int-IsByte se), ((omega arith, n), tt))),
)

module _ (crypto : Crypto) (clock : ℤ) (c : Credentials) (uri : Str) (duration : ℤ) where
  open crypto use {base64_decode, base64_encode, hmac_sha256}

  -- Whole seconds since 1970 at which the token expires.
  abbrev pub expiry : ℤ
  expiry = unix (current c.now clock +ℤ duration)

  abbrev pub signature : Str → Str
  signature key = base64_encode (hmac_sha256 key (string_to_sign uri expiry))

  sas-eq-ok :
      (t : Str)
      → sas crypto clock c uri duration ≡ ok t
      → (key : Str) × (base64_decode c.shared_access_key ≡ some key)
        × (t ≡ render_token uri (signature key) expiry c.shared_access_key_name)
  unfolding sas
  sas-eq-ok t e = ground arith

  sas_needs :
      (t : Str)
      → sas crypto clock c uri duration ≡ ok t
      → (uri ≢ [])
        × (duration ≢ pos 0)
        × (c.shared_access_key ≢ [])
        × ((key : Str) × (base64_decode c.shared_access_key ≡ some key))
  unfolding sas
  sas_needs t e =
      let (key, decoded, _) = sas-eq-ok t e in
      let split_tests = int_eq_iff duration (pos 0) in
      (ground arith, ground arith, ground arith, (key, decoded))

  sas_suffices :
      uri ≢ []
      → duration ≢ pos 0
      → c.shared_access_key ≢ []
      → ((key : Str) × (base64_decode c.shared_access_key ≡ some key))
      → (t : Str) × (sas crypto clock c uri duration ≡ ok t)
  unfolding sas
  sas_suffices u d k (key, decoded) = (
    render_token uri (signature key) expiry c.shared_access_key_name,
    ground (arith, int_eq_iff duration (pos 0)),
  )

  -- SAS returns a token exactly when the uri and the key are not blank, the duration is not zero
  -- and the key is base64.
  pub sas_ok_iff : ((t : Str) × (sas crypto clock c uri duration ≡ ok t)) ↔ (
      (uri ≢ [])
      × (duration ≢ pos 0)
      × (c.shared_access_key ≢ [])
      × ((key : Str) × (base64_decode c.shared_access_key ≡ some key)))
  sas_ok_iff = (λ made. sas_needs made.0 made.1, λ met. sas_suffices met.0 met.1 met.2 met.3)

-- The second in which a time in nanoseconds lies.
abbrev pub IsSecondOf : ℤ → ℤ → Type 0
IsSecondOf se (pos n) =
    (q : ℕ) × (r : ℕ) × (se ≡ pos q) × (n ≡ q * 1000000000 + r) × (r < 1000000000)
IsSecondOf se (negsuc n) =
    (q : ℕ) × (r : ℕ) × (se ≡ negsuc q) × (n ≡ q * 1000000000 + r) × (r < 1000000000)

unix-IsSecondOf : (t : ℤ) → IsSecondOf (unix t) t
unix-IsSecondOf (pos n) = (n / 10 ^ 9, n % 10 ^ 9, refl, omega arith, omega arith)
unix-IsSecondOf (negsuc n) = (n / 10 ^ 9, n % 10 ^ 9, refl, omega arith, omega arith)

current_of :
    (now : Option ℤ) (clock : ℤ) → current now clock ≡ elim now [ none ↦ clock | some t ↦ t ]
current_of none clock = refl
current_of (some t) clock = refl

-- A token is "SharedAccessSignature " and a query string with four fields: the uri; the signature,
-- under the decoded key, of the escaped uri, a line break and the expiration time in decimal; that
-- time, the second that lies the duration behind the clock, or behind the credentials' own time if
-- they have one; and the name of the key.
pub sas-fields :
    (crypto : Crypto) (clock : ℤ) (c : Credentials) (uri : Str) (duration : ℤ) (t : Str)
    → ((s : Str) → All IsByte (crypto.base64_encode s))
    → All IsByte uri
    → All IsByte c.shared_access_key_name
    → sas crypto clock c uri duration ≡ ok t
    → (key : Str) × (se : ℤ) × (fields : Str) × (crypto.base64_decode c.shared_access_key
        ≡ some key)
      × IsSecondOf se ((elim c.now [ none ↦ clock | some now ↦ now ]) +ℤ duration)
      × (t ≡ codes "SharedAccessSignature " ++ fields)
      × (parse_query fields
          ≡ some (
              (codes "sr", uri ∷ [])
              ∷ (
                codes "sig",
                crypto.base64_encode
                      (crypto.hmac_sha256 key (query_escape uri ++ b'\n' ∷ format_int se))
                    ∷ [],
              )
              ∷ (codes "se", format_int se ∷ [])
              ∷ (codes "skn", c.shared_access_key_name ∷ [])
              ∷ []))
unfolding string_to_sign
sas-fields crypto clock c uri duration t bytes u n e =
    let (key, decoded, rendered) = sas-eq-ok crypto clock c uri duration t e in
    let sig = signature crypto clock c uri duration key in
    let se = expiry crypto clock c uri duration in
    let fields = token_fields uri sig se c.shared_access_key_name in
    (
      key,
      se,
      join_amp (pair_texts fields),
      decoded,
      subst (λ now. IsSecondOf se (now +ℤ duration)) (current_of c.now clock)
          (unix-IsSecondOf (current c.now clock +ℤ duration)),
      rendered ∙ render_token-join_amp uri sig se c.shared_access_key_name,
      parse_query-pairs fields
          (token_fields-AreBytes uri sig se c.shared_access_key_name u (bytes _) n)
          (token_fields-HasDistinctKeys uri sig se c.shared_access_key_name),
    )
