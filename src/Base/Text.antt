-- ===== src/Base/Text.antt =====
-- A Go string is its bytes. What the program uses of package strings, with single-byte separators.
use Prim.Native.Nat.{ℕ}
use Prim.Native.Char.{code}
use Prim.Native.String.{String}
use mathlib.Core.Path.{◌≡◌, refl}
use mathlib.Core.Logic.{◌≢◌, ◌↔◌}
use mathlib.Core.Bool.{Bool, true, false, ◌&&◌}
use mathlib.Core.Option
use mathlib.Core.Option.{Option, none, some}
use mathlib.Core.List.{List, [], ◌∷◌, ◌++◌}
use native.Mathlib.Omega.{arith}
use iothub.Base.Tests.{◌==◌, if◌then◌else◌}
use iothub.Base.Lists.{All, All-append}

abbrev pub Str : Type 0
Str = List ℕ

-- The code points of a literal: its bytes, when it is ASCII.
abbrev pub codes : String → Str
codes String.[] = []
codes (String.◌∷◌ c s) = code c ∷ codes s

unfoldable pub str_eq : Str → Str → Bool
str_eq [] [] = true
str_eq (a ∷ s) (b ∷ t) = (a == b) && str_eq s t
str_eq _ _ = false

pub str_eq_iff : (s t : Str) → (str_eq s t ≡ true) ↔ (s ≡ t)
unfolding str_eq
str_eq_iff [] [] = ground arith
str_eq_iff [] (b ∷ t) = ground arith
str_eq_iff (a ∷ s) [] = ground arith
str_eq_iff (a ∷ s) (b ∷ t) = ground (arith, str_eq_iff s t)

pub str_eq_refl : (s : Str) → str_eq s s ≡ true
str_eq_refl s = (str_eq_iff s s).1 refl

-- `s == ""`
abbrev pub is_blank : Str → Bool
is_blank [] = true
is_blank (_ ∷ _) = false

-- strings.HasPrefix(s, p), the prefix first.
unfoldable pub has_prefix : Str → Str → Bool
has_prefix [] s = true
has_prefix (a ∷ p) [] = false
has_prefix (a ∷ p) (b ∷ s) = (a == b) && has_prefix p s

-- `s[len(p):]`
unfoldable pub drop_prefix : Str → Str → Str
drop_prefix [] s = s
drop_prefix (a ∷ p) [] = []
drop_prefix (a ∷ p) (b ∷ s) = drop_prefix p s

-- The text before and behind the first separator, as strings.SplitN(s, sep, 2) yields them.
unfoldable pub cut : ℕ → Str → Option (Str × Str)
cut sep [] = none
cut sep (c ∷ s) = if c == sep then some ([], s) else Option.map (λ p. (c ∷ p.0, p.1)) (cut sep s)

abbrev onto_head : ℕ → List Str → List Str
onto_head c [] = (c ∷ []) ∷ []
onto_head c (p ∷ ps) = (c ∷ p) ∷ ps

-- strings.Split(s, sep)
unfoldable pub split : ℕ → Str → List Str
split sep [] = [] ∷ []
split sep (c ∷ s) = let rest = split sep s in if c == sep then [] ∷ rest else onto_head c rest

-- strings.TrimLeft(s, "/") and its kin, for one byte.
unfoldable pub trim_left : ℕ → Str → Str
trim_left b [] = []
trim_left b (c ∷ s) = let rest = trim_left b s in if c == b then rest else c ∷ s

abbrev keep_byte : ℕ → ℕ → Str → Str
keep_byte b c [] = if c == b then [] else c ∷ []
keep_byte b c (d ∷ s) = c ∷ d ∷ s

unfoldable pub trim_right : ℕ → Str → Str
trim_right b [] = []
trim_right b (c ∷ s) = keep_byte b c (trim_right b s)

unfoldable pub trim : ℕ → Str → Str
unfolding trim_left trim_right
trim b s = trim_right b (trim_left b s)

-- `s[strings.Index(s, p):]`, or `none` where the index is -1.
unfoldable pub index : Str → Str → Option Str
index p [] = if has_prefix p [] then some [] else none
index p (c ∷ s) = let rest = index p s in if has_prefix p (c ∷ s) then some (c ∷ s) else rest

-- No byte of the text is `b`.
abbrev pub Lacks : ℕ → Str → Type 0
Lacks b = All (λ c. c ≢ b)

pub Lacks-append : (b : ℕ) (s t : Str) → Lacks b s → Lacks b t → Lacks b (s ++ t)
Lacks-append b s t h k = All-append (λ c. c ≢ b) s t h k

pub cut-append : (sep : ℕ) (s t : Str) → Lacks sep s → cut sep (s ++ sep ∷ t) ≡ some (s, t)
unfolding cut
cut-append sep [] t h = ground arith
cut-append sep (c ∷ s) t (p, h) = ground (arith, cut-append sep s t h)

pub cut_of_Lacks : (sep : ℕ) (s : Str) → Lacks sep s → cut sep s ≡ none
unfolding cut
cut_of_Lacks sep [] h = refl
cut_of_Lacks sep (c ∷ s) (p, h) = ground (arith, cut_of_Lacks sep s h)

pub split_of_Lacks : (sep : ℕ) (s : Str) → Lacks sep s → split sep s ≡ s ∷ []
unfolding split
split_of_Lacks sep [] h = refl
split_of_Lacks sep (c ∷ s) (p, h) = ground (arith, split_of_Lacks sep s h)

pub split-append : (sep : ℕ) (s t : Str) → Lacks sep s → split sep (s ++ sep ∷ t) ≡ s ∷ split sep t
unfolding split
split-append sep [] t h = ground arith
split-append sep (c ∷ s) t (p, h) = ground (arith, split-append sep s t h)

pub has_prefix-append : (p s : Str) → has_prefix p (p ++ s) ≡ true
unfolding has_prefix
has_prefix-append [] s = refl
has_prefix-append (a ∷ p) s = ground (arith, has_prefix-append p s)

pub drop_prefix-append : (p s : Str) → drop_prefix p (p ++ s) ≡ s
unfolding drop_prefix
drop_prefix-append [] s = refl
drop_prefix-append (a ∷ p) s = drop_prefix-append p s

pub trim_left_of_ne : (b c : ℕ) (s : Str) → c ≢ b → trim_left b (c ∷ s) ≡ c ∷ s
unfolding trim_left
trim_left_of_ne b c s h = ground arith

trim_right_of_Lacks : (b : ℕ) (t : Str) → Lacks b t → trim_right b (t ++ b ∷ []) ≡ t
unfolding trim_right
trim_right_of_Lacks b [] h = ground arith
trim_right_of_Lacks b (c ∷ []) (p, h) = ground (arith, trim_right_of_Lacks b [] h)
trim_right_of_Lacks b (c ∷ d ∷ t) (p, h) = ground (arith, trim_right_of_Lacks b (d ∷ t) h)

trim_right-append_kept :
    (b : ℕ) (s t : Str) (c : ℕ) (u : Str)
    → trim_right b t ≡ c ∷ u
    → trim_right b (s ++ t) ≡ s ++ c ∷ u
unfolding trim_right
trim_right-append_kept b [] t c u e = e
trim_right-append_kept b (d ∷ []) t c u e = ground arith
trim_right-append_kept b (d ∷ f ∷ s) t c u e =
    ground (arith, trim_right-append_kept b (f ∷ s) t c u e)

-- One trailing separator behind a part that holds none goes.
pub trim_right_last :
    (b : ℕ) (s t : Str) → Lacks b t → t ≢ [] → trim_right b (s ++ (t ++ b ∷ [])) ≡ s ++ t
trim_right_last b s [] h ne = absurd (ne refl)
trim_right_last b s (c ∷ t) h ne =
    trim_right-append_kept b s (c ∷ (t ++ b ∷ [])) c t (trim_right_of_Lacks b (c ∷ t) h)
