-- ===== src/Go/Query/Pieces.antt =====
-- A query as a list of pieces: where each piece is read as a key and its value, and no two keys are
-- the same, the query is read as these entries.
use iothub.Base.{
  ℕ, Bool, true, false, ◌≡◌, refl, List, [], ◌∷◌, ◌++◌, none, some, Str, arith, All, Lacks,
  append-nil, append_assoc, map, lookup, insert, Dict, HasDistinctKeys, insert_of_absent,
  lookup-append, cut-append, str_eq_iff, is_blank, ap, sym, ◌∙◌,
}
use iothub.Go.Url.{unescape, halves}
use iothub.Go.Query.{Values, values, pieces, Parsed, add_piece, add_pieces, parse_query, join_amp}

-- One value to each key, as the program fills its url.Values.
abbrev pub singles : Dict Str → Values
singles = map (λ e. (e.0, e.1 ∷ []))

pub pieces_of_Lacks : (s : Str) → Lacks b'&' s → Lacks b';' s → pieces s ≡ s ∷ []
unfolding pieces
pieces_of_Lacks [] h k = refl
pieces_of_Lacks (c ∷ s) (p, h) (q, k) = ground (arith, pieces_of_Lacks s h k)

pub pieces-append :
    (s t : Str) → Lacks b'&' s → Lacks b';' s → pieces (s ++ b'&' ∷ t) ≡ s ∷ pieces t
unfolding pieces
pieces-append [] t h k = refl
pieces-append (c ∷ s) t (p, h) (q, k) = ground (arith, pieces-append s t h k)

is_blank-append : (s : Str) (c : ℕ) (t : Str) → is_blank (s ++ c ∷ t) ≡ false
is_blank-append [] c t = refl
is_blank-append (d ∷ s) c t = refl

halves-append : (a b : Str) → Lacks b'=' a → halves b'=' (a ++ b'=' ∷ b) ≡ (a, b)
halves-append a b h = rw (halves, cut-append b'=' a b h)

pub add_piece_decoded :
    (q : Values) (bad : Bool) (a b k v : Str)
    → Lacks b'=' a
    → unescape true a ≡ some k
    → unescape true b ≡ some v
    → add_piece (q, bad) (a ++ b'=' ∷ b) ≡ (insert k (values k q ++ v ∷ []) q, bad)
unfolding add_piece
add_piece_decoded q bad a b k v h e f =
    rw (add_piece, is_blank-append a b'=' b) (rw (halves-append a b h) (rw (e, f) refl))

pub add_pieces-nil : (r : Parsed) → add_pieces r [] ≡ r
unfolding add_pieces
add_pieces-nil r = refl

pub add_pieces-cons :
    (r : Parsed) (p : Str) (ps : List Str) → add_pieces r (p ∷ ps) ≡ add_pieces (add_piece r p) ps
unfolding add_pieces
add_pieces-cons r p ps = refl

values_of_absent : (k : Str) (q : Values) → lookup k q ≡ none → values k q ≡ []
unfolding values
values_of_absent k q h = rw (values, h)

abbrev IsAbsent : Values → Dict Str → Type 0
IsAbsent q = All (λ e. lookup e.0 q ≡ none)

IsAbsent-concat :
    (q : Values) (k v : Str) (m : Dict Str)
    → IsAbsent q m
    → lookup k m ≡ none
    → IsAbsent (q ++ (k, v ∷ []) ∷ []) m
unfolding lookup
IsAbsent-concat q k v [] h e = tt
IsAbsent-concat q k v ((j, w) ∷ m) (p, h) e = (
  lookup-append j q ((k, v ∷ []) ∷ []) p ∙ ground (arith, str_eq_iff j k, str_eq_iff k j),
  IsAbsent-concat q k v m h (ground arith),
)

pieces-join_amp :
    (p : Str) (ps : List Str)
    → All (Lacks b'&') (p ∷ ps)
    → All (Lacks b';') (p ∷ ps)
    → pieces (join_amp (p ∷ ps)) ≡ p ∷ ps
unfolding join_amp
pieces-join_amp p [] (h, _) (k, _) = pieces_of_Lacks p h k
pieces-join_amp p (q ∷ ps) (h, hs) (k, ks) =
    pieces-append p (join_amp (q ∷ ps)) h k ∙ ap (λ r. p ∷ r) (pieces-join_amp q ps hs ks)

IsAbsent-nil : (m : Dict Str) → IsAbsent [] m
unfolding lookup
IsAbsent-nil [] = tt
IsAbsent-nil ((k, v) ∷ m) = (refl, IsAbsent-nil m)

add_pieces_blank : (r : Parsed) → add_pieces r (pieces []) ≡ r
unfolding add_pieces pieces
add_pieces_blank r = refl

pub parse_query_of_pieces :
    (s : Str) (q : Values) → add_pieces ([], false) (pieces s) ≡ (q, false) → parse_query s ≡ some q
unfolding parse_query
parse_query_of_pieces s q e = rw e

-- Each entry, written by `text`, is one piece, which is read as the entry.
pub record IsRead (text : Str → Str → Str) (e : Str × Str) : Type 0 where
  pub no_amp : Lacks b'&' (text e.0 e.1)
  pub no_semicolon : Lacks b';' (text e.0 e.1)
  pub reads :
      (q : Values)
      → add_piece (q, false) (text e.0 e.1) ≡ (insert e.0 (values e.0 q ++ e.1 ∷ []) q, false)

abbrev pub texts : (Str → Str → Str) → Dict Str → List Str
texts text = map (λ e. text e.0 e.1)

module _ (text : Str → Str → Str) where
  texts-Lacks-amp : (m : Dict Str) → All (IsRead text) m → All (Lacks b'&') (texts text m)
  texts-Lacks-amp [] h = tt
  texts-Lacks-amp (e ∷ m) (r, h) = (r.no_amp, texts-Lacks-amp m h)

  texts-Lacks-semicolon : (m : Dict Str) → All (IsRead text) m → All (Lacks b';') (texts text m)
  texts-Lacks-semicolon [] h = tt
  texts-Lacks-semicolon (e ∷ m) (r, h) = (r.no_semicolon, texts-Lacks-semicolon m h)

  add_piece_absent :
      (q : Values) (e : Str × Str)
      → IsRead text e
      → lookup e.0 q ≡ none
      → add_piece (q, false) (text e.0 e.1) ≡ (q ++ (e.0, e.1 ∷ []) ∷ [], false)
  add_piece_absent q (k, v) r h =
      r.reads q
      ∙ ap (λ vs. (insert k (vs ++ v ∷ []) q, false)) (values_of_absent k q h)
      ∙ ap (λ r. (r, false)) (insert_of_absent k (v ∷ []) q h)

  add_pieces-texts :
      (m : Dict Str) (q : Values)
      → All (IsRead text) m
      → HasDistinctKeys m
      → IsAbsent q m
      → add_pieces (q, false) (texts text m) ≡ (q ++ singles m, false)
  add_pieces-texts [] q b d a = add_pieces-nil _ ∙ ap (λ r. (r, false)) (sym (append-nil q))
  add_pieces-texts ((k, v) ∷ m) q (r, b) (f, d) (p, a) =
      add_pieces-cons _ _ _
      ∙ ap (λ r. add_pieces r (texts text m)) (add_piece_absent q (k, v) r p)
      ∙ add_pieces-texts m (q ++ (k, v ∷ []) ∷ []) b d (IsAbsent-concat q k v m a f)
      ∙ ap (λ r. (r, false)) (append_assoc q ((k, v ∷ []) ∷ []) (singles m))

  -- A query whose pieces are read as entries with distinct keys is read as these entries.
  pub parse_query-texts :
      (m : Dict Str)
      → All (IsRead text) m
      → HasDistinctKeys m
      → parse_query (join_amp (texts text m)) ≡ some (singles m)
  parse_query-texts [] h d =
      unfold join_amp in parse_query_of_pieces [] [] (add_pieces_blank ([], false))
  parse_query-texts (e ∷ m) h d = parse_query_of_pieces _ _ (
      ap (add_pieces ([], false)) (
        pieces-join_amp (text e.0 e.1) (texts text m) (texts-Lacks-amp (e ∷ m) h)
          (texts-Lacks-semicolon (e ∷ m) h))
      ∙ add_pieces-texts (e ∷ m) [] h d (IsAbsent-nil (e ∷ m)))
