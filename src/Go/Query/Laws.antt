-- ===== src/Go/Query/Laws.antt =====
-- What Values.Encode writes ParseQuery reads: the same entries, in the order of their keys.
use iothub.Base.{
  ℕ, false, ◌≡◌, refl, ◌≢◌, List, [], ◌∷◌, ◌++◌, some, Str, arith, All, Lacks, Lacks-append, insert,
  Dict, HasDistinctKeys, ap, ◌∙◌,
}
use iothub.Go.Url.{query_escape, is_unreserved}
use iothub.Go.Url.Laws.{IsByte, IsSpecial, unescape-query_escape, query_escape-Lacks}
use iothub.Go.Query.{
  Values, values, add_piece, parse_query, sort_keys, pair, entry_texts, join_amp, encode,
}
use iothub.Go.Query.Pieces.{singles, texts, add_piece_decoded, IsRead, parse_query-texts}
use iothub.Go.Query.Sorting.{sort_keys-singles, sort_keys-All, sort_keys-HasDistinctKeys}

abbrev pub AreBytes : Dict Str → Type 0
AreBytes = All (λ e. All IsByte e.0 × All IsByte e.1)

IsSpecial-amp : IsSpecial b'&'
unfolding is_unreserved
IsSpecial-amp = ground arith

IsSpecial-semicolon : IsSpecial b';'
unfolding is_unreserved
IsSpecial-semicolon = ground arith

IsSpecial-equals : IsSpecial b'='
unfolding is_unreserved
IsSpecial-equals = ground arith

pair-Lacks :
    (b : ℕ) (k v : Str) → All IsByte k → All IsByte v → IsSpecial b → b'=' ≢ b → Lacks b (pair k v)
unfolding pair
pair-Lacks b k v hk hv s ne =
    Lacks-append b (query_escape k) (b'=' ∷ query_escape v) (query_escape-Lacks b k hk s)
      (ne, query_escape-Lacks b v hv s)

add_piece-pair :
    (q : Values) (k v : Str)
    → All IsByte k
    → All IsByte v
    → add_piece (q, false) (pair k v) ≡ (insert k (values k q ++ v ∷ []) q, false)
unfolding pair
add_piece-pair q k v hk hv =
    add_piece_decoded q false (query_escape k) (query_escape v) k v
      (query_escape-Lacks b'=' k hk IsSpecial-equals) (unescape-query_escape k hk)
      (unescape-query_escape v hv)

abbrev pub pair_texts : Dict Str → List Str
pair_texts = texts pair

entry_texts-singles : (m : Dict Str) → entry_texts (singles m) ≡ pair_texts m
unfolding entry_texts
entry_texts-singles [] = refl
entry_texts-singles ((k, v) ∷ m) = ap (λ r. pair k v ∷ r) (entry_texts-singles m)

pairs-AreRead : (m : Dict Str) → AreBytes m → All (IsRead pair) m
pairs-AreRead [] h = tt
pairs-AreRead ((k, v) ∷ m) ((hk, hv), h) = (
  record {
    no_amp = pair-Lacks b'&' k v hk hv IsSpecial-amp (omega arith);
    no_semicolon = pair-Lacks b';' k v hk hv IsSpecial-semicolon (omega arith);
    reads = λ q. add_piece-pair q k v hk hv;
  },
  pairs-AreRead m h,
)

pub parse_query-pairs :
    (m : Dict Str)
    → AreBytes m
    → HasDistinctKeys m
    → parse_query (join_amp (pair_texts m)) ≡ some (singles m)
parse_query-pairs m b d = parse_query-texts pair m (pairs-AreRead m b) d

encode-singles : (m : Dict Str) → encode (singles m) ≡ join_amp (pair_texts (sort_keys m))
unfolding encode
encode-singles m =
    ap (λ q. join_amp (entry_texts q)) (sort_keys-singles m)
    ∙ ap join_amp (entry_texts-singles (sort_keys m))

-- ParseQuery undoes Values.Encode; the entries come back in the order of their keys.
pub parse_query-encode :
    (m : Dict Str)
    → AreBytes m
    → HasDistinctKeys m
    → parse_query (encode (singles m)) ≡ some (singles (sort_keys m))
parse_query-encode m b d =
    ap parse_query (encode-singles m)
    ∙ parse_query-pairs (sort_keys m) (sort_keys-All _ m b) (sort_keys-HasDistinctKeys m d)
