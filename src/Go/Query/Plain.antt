-- ===== src/Go/Query/Plain.antt =====
-- A query of one pair or two that need no escapes.
use iothub.Base.{
  ◌≡◌, refl, true, false, [], ◌∷◌, ◌++◌, Str, Lacks, Lacks-append, insert, lookup, ap, ◌∙◌, arith,
}
use iothub.Go.Url.Laws.{unescape_of_Lacks}
use iothub.Go.Query.{Values, values, pieces, add_piece, add_pieces, query}
use iothub.Go.Query.Pieces.{
  pieces_of_Lacks, pieces-append, add_piece_decoded, add_pieces-nil, add_pieces-cons,
}

-- No byte that separates pairs, or that is decoded.
pub record IsPlainText (s : Str) : Type 0 where
  pub no_amp : Lacks b'&' s
  pub no_semicolon : Lacks b';' s
  pub no_percent : Lacks b'%' s
  pub no_plus : Lacks b'+' s

pub pair_plain : (a b : Str) → IsPlainText a → IsPlainText b → IsPlainText (a ++ b'=' ∷ b)
pair_plain a b h k = record {
  no_amp = Lacks-append b'&' a (b'=' ∷ b) h.no_amp (omega arith, k.no_amp);
  no_semicolon = Lacks-append b';' a (b'=' ∷ b) h.no_semicolon (omega arith, k.no_semicolon);
  no_percent = Lacks-append b'%' a (b'=' ∷ b) h.no_percent (omega arith, k.no_percent);
  no_plus = Lacks-append b'+' a (b'=' ∷ b) h.no_plus (omega arith, k.no_plus);
}

pub add_piece_plain :
    (q : Values) (a b : Str)
    → Lacks b'=' a
    → IsPlainText a
    → IsPlainText b
    → add_piece (q, false) (a ++ b'=' ∷ b) ≡ (insert a (values a q ++ b ∷ []) q, false)
add_piece_plain q a b e h k =
    add_piece_decoded q false a b a b e (unescape_of_Lacks true a h.no_percent h.no_plus)
      (unescape_of_Lacks true b k.no_percent k.no_plus)

query_lem : (s : Str) → query s ≡ (add_pieces ([], false) (pieces s)).0
unfolding query
query_lem s = refl

first_values : (a b : Str) → insert a (values a [] ++ b ∷ []) [] ≡ (a, b ∷ []) ∷ []
unfolding insert values lookup
first_values a b = refl

pub query_one :
    (a b : Str)
    → Lacks b'=' a
    → IsPlainText a
    → IsPlainText b
    → query (a ++ b'=' ∷ b) ≡ (a, b ∷ []) ∷ []
query_one a b e h k =
    let p = pair_plain a b h k in
    query_lem _
    ∙ ap (λ r. r.0)
        (ap (add_pieces ([], false)) (pieces_of_Lacks _ p.no_amp p.no_semicolon)
          ∙ add_pieces-cons _ _ _
          ∙ add_pieces-nil _
          ∙ add_piece_plain [] a b e h k)
    ∙ first_values a b

pub query_two :
    (a b c d : Str)
    → Lacks b'=' a
    → Lacks b'=' c
    → IsPlainText a
    → IsPlainText b
    → IsPlainText c
    → IsPlainText d
    → query ((a ++ b'=' ∷ b) ++ b'&' ∷ (c ++ b'=' ∷ d))
      ≡ insert c (values c ((a, b ∷ []) ∷ []) ++ d ∷ []) ((a, b ∷ []) ∷ [])
query_two a b c d e f h k l m =
    let p = pair_plain a b h k in
    let q = pair_plain c d l m in
    query_lem _
    ∙ ap (λ r. r.0)
        (ap (add_pieces ([], false)) (
            pieces-append (a ++ b'=' ∷ b) _ p.no_amp p.no_semicolon
            ∙ ap (λ r. (a ++ b'=' ∷ b) ∷ r) (pieces_of_Lacks _ q.no_amp q.no_semicolon))
          ∙ add_pieces-cons _ _ _
          ∙ add_pieces-cons _ _ _
          ∙ add_pieces-nil _
          ∙ ap (λ r. add_piece r (c ++ b'=' ∷ d))
              (add_piece_plain [] a b e h k ∙ ap (λ r. (r, false)) (first_values a b))
          ∙ add_piece_plain ((a, b ∷ []) ∷ []) c d f l m)
