-- ===== src/Go/Url/Laws.antt =====
-- Laws of the escapes: what QueryEscape writes QueryUnescape reads, and text with nothing to
-- unescape stays as it is.
use mathlib.Core.Option
use iothub.Base.{
  ℕ, ◌/◌, ◌%◌, ◌<◌, ◌≡◌, refl, ◌≢◌, Bool, true, false, [], ◌∷◌, ◌++◌, some, Str, arith, All, Lacks,
  Lacks-append, Bool-cases, if◌then◌else◌, ◌==◌, inl, inr,
}
use iothub.Go.Url.{is_unreserved, hex, unhex, escape_byte, query_escape, plain, unescape}

abbrev pub IsByte : ℕ → Type 0
IsByte c = c < 256

pub unescape-plain :
    (plus : Bool) (c : ℕ) (s : Str)
    → c ≢ b'%'
    → unescape plus (c ∷ s) ≡ Option.map (λ t. plain plus c ∷ t) (unescape plus s)
unfolding unescape
unescape-plain plus c [] h = ground arith
unescape-plain plus c (d ∷ []) h = ground arith
unescape-plain plus c (d ∷ e ∷ s) h = ground arith

pub unescape_kept :
    (plus : Bool) (c : ℕ) (s t : Str)
    → c ≢ b'%'
    → c ≢ b'+'
    → unescape plus s ≡ some t
    → unescape plus (c ∷ s) ≡ some (c ∷ t)
unescape_kept true c s t h k e = rw (unescape-plain true c s h, e) (ground arith)
unescape_kept false c s t h k e = rw (unescape-plain false c s h, e) refl

-- Text with no '%' and no '+' stands for itself.
pub unescape_of_Lacks :
    (plus : Bool) (s : Str) → Lacks b'%' s → Lacks b'+' s → unescape plus s ≡ some s
unescape_of_Lacks plus [] h k = unfold unescape in refl
unescape_of_Lacks plus (c ∷ s) (p, h) (q, k) =
    unescape_kept plus c s s p q (unescape_of_Lacks plus s h k)

pub unhex-hex : (n : ℕ) → n < 16 → unhex (hex n) ≡ some n
unfolding unhex hex
unhex-hex n h = ground arith

is_unreserved-kept : (c : ℕ) → is_unreserved c ≡ true → (c ≢ b'%') × (c ≢ b'+')
unfolding is_unreserved
is_unreserved-kept c h = ground arith

unescape_percent :
    (c : ℕ) (s t : Str)
    → IsByte c
    → unescape true s ≡ some t
    → unescape true (b'%' ∷ hex (c / 16) ∷ hex (c % 16) ∷ s) ≡ some (c ∷ t)
unfolding unescape
unescape_percent c s t h e =
    ground (arith, unhex-hex (c / 16) (omega arith), unhex-hex (c % 16) (omega arith))

unescape_hidden :
    (c : ℕ) (s t : Str)
    → IsByte c
    → unescape true s ≡ some t
    → unescape true
        ((if c == b' ' then b'+' ∷ [] else b'%' ∷ hex (c / 16) ∷ hex (c % 16) ∷ []) ++ s)
      ≡ some (c ∷ t)
unescape_hidden c s t h e = elim (Bool-cases (c == b' ')) [
  | inl space ↦ rw space (rw (unescape-plain true b'+' s (omega arith), e) (ground arith))
  | inr other ↦ rw other (unescape_percent c s t h e)
]

pub unescape-escape_byte :
    (c : ℕ) (s t : Str)
    → IsByte c
    → unescape true s ≡ some t
    → unescape true (escape_byte c ++ s) ≡ some (c ∷ t)
unfolding escape_byte
unescape-escape_byte c s t h e = elim (Bool-cases (is_unreserved c)) [
  | inl kept ↦ let (p, q) = is_unreserved-kept c kept in rw kept (unescape_kept true c s t p q e)
  | inr hidden ↦ rw hidden (unescape_hidden c s t h e)
]

-- QueryUnescape undoes QueryEscape, for every byte string.
pub unescape-query_escape : (s : Str) → All IsByte s → unescape true (query_escape s) ≡ some s
unfolding query_escape
unescape-query_escape [] h = unfold unescape in refl
unescape-query_escape (c ∷ s) (p, h) =
    unescape-escape_byte c (query_escape s) s p (unescape-query_escape s h)

-- The bytes with a meaning in a query string, and those that end a topic level or a URL's path.
abbrev pub IsSpecial : ℕ → Type 0
IsSpecial b = (is_unreserved b ≡ false) × (b ≢ b'%') × (b ≢ b'+')

hex-is_unreserved : (n : ℕ) → n < 16 → is_unreserved (hex n) ≡ true
unfolding is_unreserved hex
hex-is_unreserved n h = ground arith

escape_byte-Lacks : (b c : ℕ) → IsByte c → IsSpecial b → Lacks b (escape_byte c)
unfolding escape_byte
escape_byte-Lacks b c h k = ground (arith, hex-is_unreserved (c / 16), hex-is_unreserved (c % 16))

-- An escaped text holds no byte that QueryEscape escapes.
pub query_escape-Lacks : (b : ℕ) (s : Str) → All IsByte s → IsSpecial b → Lacks b (query_escape s)
unfolding query_escape
query_escape-Lacks b [] h k = tt
query_escape-Lacks b (c ∷ s) (p, h) k =
    Lacks-append b (escape_byte c) (query_escape s) (escape_byte-Lacks b c p k)
      (query_escape-Lacks b s h k)
