-- ===== src/Go/Query.antt =====
-- url.Values: ParseQuery, Values.Encode and the lookup `q[key]`.
pub mod Pieces
pub mod Sorting
pub mod Laws
pub mod Plain
use iothub.Base.{
  ℕ, Bool, true, false, ◌||◌, List, [], ◌∷◌, ◌++◌, Option, none, some, Str, ltb, ◌==◌,
  if◌then◌else◌, is_blank, Dict, lookup, insert,
}
use iothub.Go.Url.{halves, query_escape, query_unescape}

abbrev pub Values : Type 0
Values = Dict (List Str)

-- `q[key]`, which is an empty slice for a missing key.
unfoldable pub values : Str → Values → List Str
values k q = elim (lookup k q) [ none ↦ [] | some vs ↦ vs ]

abbrev onto_head : ℕ → List Str → List Str
onto_head c [] = (c ∷ []) ∷ []
onto_head c (p ∷ ps) = (c ∷ p) ∷ ps

-- The query cut at each '&' and ';'.
unfoldable pub pieces : Str → List Str
pieces [] = [] ∷ []
pieces (c ∷ s) =
    let rest = pieces s in if c == b'&' || c == b';' then [] ∷ rest else onto_head c rest

-- The values so far, and whether some pair could not be decoded.
abbrev pub Parsed : Type 0
Parsed = Values × Bool

store_pair : Parsed → Option Str → Option Str → Parsed
unfolding values
store_pair (q, bad) (some k) (some v) = (insert k (values k q ++ v ∷ []) q, bad)
store_pair (q, bad) _ _ = (q, true)

pub add_piece : Parsed → Str → Parsed
unfolding store_pair
add_piece r piece =
    if is_blank piece
    then r
    else (let (k, v) = halves b'=' piece in store_pair r (query_unescape k) (query_unescape v))

unfoldable pub add_pieces : Parsed → List Str → Parsed
unfolding add_piece
add_pieces r [] = r
add_pieces r (p ∷ ps) = add_pieces (add_piece r p) ps

abbrev parse_all : Str → Parsed
parse_all s = add_pieces ([], false) (pieces s)

-- ParseQuery: `none` where it returns an error.
unfoldable pub parse_query : Str → Option Values
unfolding pieces add_pieces
parse_query s = if (parse_all s).1 then none else some (parse_all s).0

-- `u.Query()`, which drops the error and keeps the pairs that could be decoded.
unfoldable pub query : Str → Values
unfolding pieces add_pieces
query s = (parse_all s).0

-- The order of Go strings: byte by byte.
unfoldable pub str_ltb : Str → Str → Bool
str_ltb s [] = false
str_ltb [] (b ∷ t) = true
str_ltb (a ∷ s) (b ∷ t) = if ltb a b then true else if a == b then str_ltb s t else false

-- sort.Strings, on the keys of the entries.
unfoldable pub insert_sorted {ℓ} : {V : Type ℓ} → Str → V → Dict V → Dict V
insert_sorted k v [] = (k, v) ∷ []
insert_sorted k v ((j, w) ∷ m) =
    let rest = insert_sorted k v m in if str_ltb j k then (j, w) ∷ rest else (k, v) ∷ (j, w) ∷ m

unfoldable pub sort_keys {ℓ} : {V : Type ℓ} → Dict V → Dict V
unfolding insert_sorted str_ltb
sort_keys [] = []
sort_keys ((k, v) ∷ m) = insert_sorted k v (sort_keys m)

-- One value as it is written, `QueryEscape(k) + "=" + QueryEscape(v)`.
unfoldable pub pair : Str → Str → Str
unfolding query_escape
pair k v = query_escape k ++ b'=' ∷ query_escape v

unfoldable pub pairs : Str → List Str → List Str
pairs k [] = []
pairs k (v ∷ vs) = pair k v ∷ pairs k vs

unfoldable pub entry_texts : Values → List Str
unfolding pairs
entry_texts [] = []
entry_texts ((k, vs) ∷ q) = pairs k vs ++ entry_texts q

unfoldable pub join_amp : List Str → Str
join_amp [] = []
join_amp (p ∷ []) = p
join_amp (p ∷ q ∷ ps) = p ++ b'&' ∷ join_amp (q ∷ ps)

-- Values.Encode. No pair is empty, so a '&' stands before each pair but the first.
unfoldable pub encode : Values → Str
unfolding entry_texts join_amp sort_keys
encode q = join_amp (entry_texts (sort_keys q))
