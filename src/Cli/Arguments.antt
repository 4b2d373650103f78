-- ===== src/Cli/Arguments.antt =====
-- The words behind a command as keys and values.
use iothub.Base.{
  ◌%◌, ◌≡◌, refl, arith, ap, sym, ◌∙◌, ◌⊎◌, inl, inr, List, [], ◌∷◌, ◌++◌, append-nil, append_assoc,
  none, Str, Dict, HasDistinctKeys, lookup, insert, insert_of_absent, lookup-append, str_eq_iff,
  All, length, ok, fail, odd_arguments,
}
use iothub.Cli.{put_pairs, args_to_map}

-- Each key and its value in turn.
unfoldable pub arguments : Dict Str → List Str
arguments [] = []
arguments ((k, v) ∷ d) = k ∷ v ∷ arguments d

-- `m` has none of the keys of `d`.
abbrev pub Apart : Dict Str → Dict Str → Type 0
Apart m d = All (λ (k, v). lookup k m ≡ none) d

Apart-append :
    (m d : Dict Str) (k v : Str) → Apart m d → lookup k d ≡ none → Apart (m ++ (k, v) ∷ []) d
unfolding lookup
Apart-append m [] k v a e = tt
Apart-append m ((j, w) ∷ d) k v (free, a) e = (
  rw (lookup-append j m ((k, v) ∷ []) free) (ground (arith, e, str_eq_iff j k, str_eq_iff k j)),
  Apart-append m d k v a (ground (arith, e)),
)

pub Apart-nil : (d : Dict Str) → Apart [] d
unfolding lookup
Apart-nil [] = tt
Apart-nil ((k, v) ∷ d) = (refl, Apart-nil d)

pub put_pairs-arguments :
    (d m : Dict Str) → HasDistinctKeys d → Apart m d → put_pairs (arguments d) m ≡ ok (m ++ d)
unfolding put_pairs arguments
put_pairs-arguments [] m h a = ap ok (sym (append-nil m))
put_pairs-arguments ((k, v) ∷ d) m (new, h) (free, a) = rw (insert_of_absent k v m free) (
    put_pairs-arguments d (m ++ (k, v) ∷ []) h (Apart-append m d k v a new)
    ∙ ap ok (append_assoc m ((k, v) ∷ []) d))

arguments_even : (d : Dict Str) → length (arguments d) % 2 ≡ 0
unfolding arguments
arguments_even [] = refl
arguments_even ((k, v) ∷ d) = omega (arith, arguments_even d)

-- The words that alternate between the keys and the values of a map give that map, in its order.
pub args_to_map-arguments : (d : Dict Str) → HasDistinctKeys d → args_to_map (arguments d) ≡ ok d
unfolding args_to_map
args_to_map-arguments d h = rw (arguments_even d) (put_pairs-arguments d [] h (Apart-nil d))

put_pairs_ok :
    (s : List Str) (m : Dict Str) → length s % 2 ≡ 0 → (r : Dict Str) × (put_pairs s m ≡ ok r)
unfolding put_pairs
put_pairs_ok [] m e = (m, refl)
put_pairs_ok (k ∷ []) m e = absurd (omega (arith, e))
put_pairs_ok (k ∷ v ∷ s) m e = put_pairs_ok s (insert k v m) (omega (arith, e))

-- An even number of words gives a map, and an odd number the error; the index is never out of range.
pub args_to_map_outcomes :
    (s : List Str)
    → ((length s % 2 ≡ 0) × ((m : Dict Str) × (args_to_map s ≡ ok m)))
      ⊎ ((length s % 2 ≡ 1) × (args_to_map s ≡ fail odd_arguments))
unfolding args_to_map
args_to_map_outcomes s = elim (parity s) [
  | inl e ↦ inl (e, rw e (put_pairs_ok s [] e))
  | inr e ↦ inr (e, rw e refl)
]
  where
    parity : (s : List Str) → (length s % 2 ≡ 0) ⊎ (length s % 2 ≡ 1)
    parity s = omega arith
