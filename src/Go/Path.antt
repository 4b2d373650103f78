-- ===== src/Go/Path.antt =====
-- url.PathEscape: a text as one segment of a path.
use mathlib.Core.List.{flat_map}
use iothub.Base.{
  ℕ, ◌/◌, ◌%◌, ◌<◌, ◌≡◌, refl, ◌≢◌, ◌==◌, ◌||◌, Bool, true, false, [], ◌∷◌, ◌++◌, some, Str, arith,
  All, Lacks, Lacks-append, Bool-cases, if◌then◌else◌, inl, inr,
}
use iothub.Go.Url.{is_unreserved, hex, unescape}
use iothub.Go.Url.Laws.{IsByte, unhex-hex, unescape-plain}

-- The bytes that PathEscape leaves alone.
unfoldable pub is_segment : ℕ → Bool
unfolding is_unreserved
is_segment c =
    is_unreserved c || c == b'$' || c == b'&' || c == b'+' || c == b'=' || c == b':' || c == b'@'

unfoldable pub escape_segment_byte : ℕ → Str
escape_segment_byte c = if is_segment c then c ∷ [] else b'%' ∷ hex (c / 16) ∷ hex (c % 16) ∷ []

unfoldable pub path_escape : Str → Str
unfolding escape_segment_byte is_segment hex flat_map
path_escape = flat_map escape_segment_byte

unescape_percent :
    (c : ℕ) (s t : Str)
    → IsByte c
    → unescape false s ≡ some t
    → unescape false (b'%' ∷ hex (c / 16) ∷ hex (c % 16) ∷ s) ≡ some (c ∷ t)
unfolding unescape
unescape_percent c s t h e =
    ground (arith, unhex-hex (c / 16) (omega arith), unhex-hex (c % 16) (omega arith))

is_segment-ne : (c : ℕ) → is_segment c ≡ true → c ≢ b'%'
unfolding is_segment
is_segment-ne c h = ground arith

unescape-escape_segment_byte :
    (c : ℕ) (s t : Str)
    → IsByte c
    → unescape false s ≡ some t
    → unescape false (escape_segment_byte c ++ s) ≡ some (c ∷ t)
unfolding escape_segment_byte
unescape-escape_segment_byte c s t h e = elim (Bool-cases (is_segment c)) [
  | inl kept ↦ rw kept (rw (unescape-plain false c s (is_segment-ne c kept), e) refl)
  | inr hidden ↦ rw hidden (unescape_percent c s t h e)
]

-- The path of the request is decoded to what was escaped.
pub unescape-path_escape : (s : Str) → All IsByte s → unescape false (path_escape s) ≡ some s
unfolding path_escape
unescape-path_escape [] h = unfold unescape in refl
unescape-path_escape (c ∷ s) (p, h) =
    unescape-escape_segment_byte c (path_escape s) s p (unescape-path_escape s h)

hex-is_segment : (n : ℕ) → n < 16 → is_segment (hex n) ≡ true
unfolding is_segment hex
hex-is_segment n h = ground arith

escape_segment_byte-Lacks :
    (b c : ℕ) → IsByte c → is_segment b ≡ false → b ≢ b'%' → Lacks b (escape_segment_byte c)
unfolding escape_segment_byte
escape_segment_byte-Lacks b c h k ne =
    ground (arith, hex-is_segment (c / 16), hex-is_segment (c % 16))

pub path_escape-Lacks :
    (b : ℕ) (s : Str) → All IsByte s → is_segment b ≡ false → b ≢ b'%' → Lacks b (path_escape s)
unfolding path_escape
path_escape-Lacks b [] h k ne = tt
path_escape-Lacks b (c ∷ s) (p, h) k ne =
    Lacks-append b (escape_segment_byte c) (path_escape s) (escape_segment_byte-Lacks b c p k ne)
      (path_escape-Lacks b s h k ne)
