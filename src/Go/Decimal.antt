-- ===== src/Go/Decimal.antt =====
-- strconv: the decimal print of a number (`%d`, FormatInt) and Atoi, which reads an int64.
pub mod Laws
use iothub.Base.{
  ℕ, zero, suc, ◌+◌, ◌-◌, ◌*◌, ◌/◌, ◌%◌, ◌^◌, [], ◌∷◌, Option, none, some, ◌||◌, Str, ltb, leb,
  ◌==◌, if◌then◌else◌,
}
use iothub.Base.Int.{ℤ, pos, negsuc, neg}

-- `for { buf = buf-with-digit; n /= 10; if n == 0 break }`, with fuel above `n`.
unfoldable pub digits : ℕ → ℕ → Str → Str
digits zero n out = out
digits (suc f) n out =
    let more = digits f (n / 10) ((b'0' + n % 10) ∷ out) in
    if ltb n 10 then (b'0' + n) ∷ out else more

unfoldable pub format : ℕ → Str
unfolding digits
format n = digits (suc n) n []

unfoldable pub format_int : ℤ → Str
unfolding format
format_int (pos n) = format n
format_int (negsuc n) = b'-' ∷ format (suc n)

-- The number that digits spell behind `n`; any other byte is a syntax error.
unfoldable pub scan : Str → ℕ → Option ℕ
scan [] n = some n
scan (c ∷ s) n = if ltb c b'0' || ltb b'9' c then none else scan s (n * 10 + (c - b'0'))

unfoldable pub scan_digits : Str → Option ℕ
unfolding scan
scan_digits [] = none
scan_digits (c ∷ s) = scan (c ∷ s) 0

abbrev pub max_int : ℕ
max_int = 2 ^ 63 - 1

abbrev in_range : (ℕ → ℤ) → ℕ → Option ℕ → Option ℤ
in_range f most none = none
in_range f most (some n) = if leb n most then some (f n) else none

unfoldable pub atoi : Str → Option ℤ
unfolding scan_digits
atoi [] = none
atoi (c ∷ s) =
    if c == b'-'
    then in_range neg (max_int + 1) (scan_digits s)
    else if c == b'+'
    then in_range pos max_int (scan_digits s)
    else in_range pos max_int (scan_digits (c ∷ s))
