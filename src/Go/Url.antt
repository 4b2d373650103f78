-- ===== src/Go/Url.antt =====
-- net/url as it was in the Go of the repository (1.10, where `;` still separates query pairs): the
-- escapes, ParseQuery, Values.Encode, and Parse of a reference. Of an authority part only its
-- validity matters to the program, so that test is an argument.
pub mod Laws
pub mod Reference
use mathlib.Core.List.{flat_map}
use mathlib.Core.Option
use iothub.Base.{
  ℕ, ◌+◌, ◌-◌, ◌*◌, ◌/◌, ◌%◌, Bool, true, false, not, ◌&&◌, ◌||◌, List, [], ◌∷◌, ◌++◌, Option, none,
  some, Str, codes, ltb, leb, ◌==◌, if◌then◌else◌, is_blank, str_eq, has_prefix, drop_prefix, cut,
  index,
}

abbrev pub is_digit : ℕ → Bool
is_digit c = leb b'0' c && leb c b'9'

abbrev pub is_alpha : ℕ → Bool
is_alpha c = leb b'a' c && leb c b'z' || leb b'A' c && leb c b'Z'

-- The bytes that QueryEscape leaves alone.
unfoldable pub is_unreserved : ℕ → Bool
is_unreserved c = is_alpha c || is_digit c || c == b'-' || c == b'_' || c == b'.' || c == b'~'

-- "0123456789ABCDEF"[n]
unfoldable pub hex : ℕ → ℕ
hex n = if ltb n 10 then b'0' + n else b'A' + (n - 10)

unfoldable pub unhex : ℕ → Option ℕ
unhex c =
    if is_digit c
    then some (c - b'0')
    else if leb b'a' c && leb c b'f'
    then some (c - b'a' + 10)
    else if leb b'A' c && leb c b'F'
    then some (c - b'A' + 10)
    else none

unfoldable pub escape_byte : ℕ → Str
escape_byte c =
    if is_unreserved c
    then c ∷ []
    else if c == b' '
    then b'+' ∷ []
    else b'%' ∷ hex (c / 16) ∷ hex (c % 16) ∷ []

unfoldable pub query_escape : Str → Str
unfolding escape_byte is_unreserved hex flat_map
query_escape = flat_map escape_byte

-- A byte outside an escape; `plus` says whether '+' stands for a space.
abbrev pub plain : Bool → ℕ → ℕ
plain plus c = if plus && c == b'+' then b' ' else c

abbrev joined : Option ℕ → Option ℕ → Option Str → Option Str
joined (some hi) (some lo) (some s) = some ((hi * 16 + lo) ∷ s)
joined _ _ _ = none

-- `none` is an EscapeError.
unfoldable pub unescape : Bool → Str → Option Str
unfolding unhex
unescape plus [] = some []
unescape plus (c ∷ []) = if c == b'%' then none else some (plain plus c ∷ [])
unescape plus (c ∷ h ∷ []) =
    let rest = unescape plus (h ∷ []) in
    if c == b'%' then none else Option.map (λ s. plain plus c ∷ s) rest
unescape plus (c ∷ h ∷ l ∷ s) =
    let behind = unescape plus s in
    let rest = unescape plus (h ∷ l ∷ s) in
    if c == b'%' then joined (unhex h) (unhex l) behind else Option.map (λ t. plain plus c ∷ t) rest

abbrev pub query_unescape : Str → Option Str
query_unescape = unescape true

-- How far a leading scheme goes: none, an empty one (an error), or what follows its colon.
pub data Scheme : Type 0 where
  absent missing : Scheme
  found : Str → Scheme

unfoldable pub scan_scheme : Bool → Str → Scheme
scan_scheme first [] = absent
scan_scheme first (c ∷ s) =
    let more = scan_scheme false s in
    if is_alpha c
    then more
    else if is_digit c || c == b'+' || c == b'-' || c == b'.'
    then (if first then absent else more)
    else if c == b':'
    then (if first then missing else found s)
    else absent

-- What the program reads of a URL.
pub record Url : Type 0 where
  pub path : Str
  pub raw_query : Str

-- `split(s, c, true)`: what stands before and behind the first `c`.
abbrev pub halves : ℕ → Str → Str × Str
halves c s = elim (cut c s) [ none ↦ (s, []) | some p ↦ p ]

pub with_path : Str → Option Str → Option Url
with_path query none = none
with_path query (some path) = some (record { path = path; raw_query = query })

-- The first segment of a relative path must hold no colon.
pub colon_first : Str → Bool
colon_first s = elim (cut b':' s) [
  | none ↦ false
  | some (before, _) ↦ elim (cut b'/' before) [ none ↦ true | some _ ↦ false ]
]

module _ (authority_ok : Str → Bool) where
  -- The part behind the scheme, its query taken off.
  pub hierarchical : Bool → Str → Str → Option Url
  unfolding with_path
  hierarchical has_scheme rest query =
      let behind = drop_prefix (codes "//") rest in
      let host = (halves b'/' behind).0 in
      if (has_scheme || not (has_prefix (codes "///") rest)) && has_prefix (codes "//") rest
      then (if authority_ok host
          then with_path query (unescape false (drop_prefix host behind))
          else none)
      else with_path query (unescape false rest)

  pub reference : Bool → Str → Option Url
  unfolding hierarchical colon_first
  reference has_scheme s =
      let (rest, query) = halves b'?' s in
      if has_prefix (codes "/") rest
      then hierarchical has_scheme rest query
      else if has_scheme
      then some (record { path = []; raw_query = query })
      else if colon_first rest
      then none
      else hierarchical has_scheme rest query

  pub after_scheme : Str → Scheme → Option Url
  unfolding reference
  after_scheme s absent = reference false s
  after_scheme s missing = none
  after_scheme s (found rest) = reference true rest

  pub with_fragment : Str × Str → Option Url
  unfolding after_scheme scan_scheme
  with_fragment (u, fragment) = elim (unescape false fragment) [
    | none ↦ none
    | some _ ↦
        if str_eq u (codes "*")
        then some (record { path = u; raw_query = [] })
        else after_scheme u (scan_scheme true u)
  ]

  unfoldable pub parse : Str → Option Url
  unfolding with_fragment
  parse s = with_fragment (halves b'#' s)
