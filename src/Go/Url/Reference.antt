-- ===== src/Go/Url/Reference.antt =====
-- url.Parse on a relative reference with a query, as the topics of the hub are.
use iothub.Base.{
  ◌≡◌, Bool, false, [], ◌∷◌, ◌++◌, some, Str, str_eq, Lacks, Lacks-append, cut-append, cut_of_Lacks,
  has_prefix, arith, ap, ◌∙◌,
}
use iothub.Go.Url.{
  parse, reference, hierarchical, with_fragment, unescape, halves, colon_first, with_path,
}
use iothub.Go.Url.Laws.{unescape_of_Lacks}

-- No byte of a path that ends it, or that is decoded in it.
pub record IsPlainPath (p : Str) : Type 0 where
  pub no_hash : Lacks b'#' p
  pub no_question : Lacks b'?' p
  pub no_percent : Lacks b'%' p
  pub no_plus : Lacks b'+' p
  pub no_colon : Lacks b':' p

pub IsPlainPath-append : (p q : Str) → IsPlainPath p → IsPlainPath q → IsPlainPath (p ++ q)
IsPlainPath-append p q h k = record {
  no_hash = Lacks-append b'#' p q h.no_hash k.no_hash;
  no_question = Lacks-append b'?' p q h.no_question k.no_question;
  no_percent = Lacks-append b'%' p q h.no_percent k.no_percent;
  no_plus = Lacks-append b'+' p q h.no_plus k.no_plus;
  no_colon = Lacks-append b':' p q h.no_colon k.no_colon;
}

module _ (authority_ok : Str → Bool) (p q : Str) where
  halves_question : Lacks b'?' p → halves b'?' (p ++ b'?' ∷ q) ≡ (p, q)
  halves_question h = rw (halves, cut-append b'?' p q h)

  halves_hash : Lacks b'#' (p ++ b'?' ∷ q) → halves b'#' (p ++ b'?' ∷ q) ≡ (p ++ b'?' ∷ q, [])
  halves_hash h = rw (halves, cut_of_Lacks b'#' _ h)

colon_first_of_Lacks : (p : Str) → Lacks b':' p → colon_first p ≡ false
unfolding colon_first
colon_first_of_Lacks p h = rw (colon_first, cut_of_Lacks b':' p h)

hierarchical_dollar :
    (authority_ok : Str → Bool) (p q : Str)
    → IsPlainPath (b'$' ∷ p)
    → hierarchical authority_ok false (b'$' ∷ p) q
      ≡ some (record { path = b'$' ∷ p; raw_query = q })
unfolding hierarchical has_prefix
hierarchical_dollar authority_ok p q h =
    ap (with_path q) (unescape_of_Lacks false (b'$' ∷ p) h.no_percent h.no_plus)

reference_dollar :
    (authority_ok : Str → Bool) (p q : Str)
    → IsPlainPath (b'$' ∷ p)
    → reference authority_ok false (b'$' ∷ (p ++ b'?' ∷ q))
      ≡ some (record { path = b'$' ∷ p; raw_query = q })
unfolding reference has_prefix
reference_dollar authority_ok p q h =
    rw (halves_question authority_ok (b'$' ∷ p) q h.no_question)
      (rw (colon_first_of_Lacks (b'$' ∷ p) h.no_colon) (hierarchical_dollar authority_ok p q h))

-- A reference that begins with '$' parses to its path and its query.
pub parse_dollar :
    (authority_ok : Str → Bool) (p q : Str)
    → IsPlainPath (b'$' ∷ p)
    → Lacks b'#' q
    → parse authority_ok (b'$' ∷ (p ++ b'?' ∷ q)) ≡ some (record { path = b'$' ∷ p; raw_query = q })
unfolding parse str_eq unescape
parse_dollar authority_ok p q h k =
    ap (with_fragment authority_ok) (
      halves_hash authority_ok (b'$' ∷ p) q
        (Lacks-append b'#' (b'$' ∷ p) (b'?' ∷ q) h.no_hash (omega arith, k)))
    ∙ reference_dollar authority_ok p q h
