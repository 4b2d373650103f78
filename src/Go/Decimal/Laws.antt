-- ===== src/Go/Decimal/Laws.antt =====
-- Reading a printed number, and the bytes that a print holds.
use iothub.Base.{
  ℕ, zero, suc, ◌+◌, ◌/◌, ◌%◌, ◌≤◌, ◌<◌, ◌≡◌, refl, ◌≢◌, [], ◌∷◌, some, Str, arith, All, Lacks,
}
use iothub.Base.Int.{ℤ, negsuc, pos}
use iothub.Go.Decimal.{digits, format, format_int, scan, scan_digits, max_int, atoi}

abbrev pub IsDigit : ℕ → Type 0
IsDigit c = (b'0' ≤ c) × (c ≤ b'9')

digits-IsDigit : (f n : ℕ) (out : Str) → All IsDigit out → All IsDigit (digits f n out)
unfolding digits
digits-IsDigit zero n out h = h
digits-IsDigit (suc f) n out h =
    ground
      (arith, digits-IsDigit f (n / 10) ((b'0' + n % 10) ∷ out) ((omega arith, omega arith), h))

digits-ne-nil : (f n : ℕ) (out : Str) → out ≢ [] → digits f n out ≢ []
unfolding digits
digits-ne-nil zero n out h = h
digits-ne-nil (suc f) n out h = ground (arith, digits-ne-nil f (n / 10) ((b'0' + n % 10) ∷ out))

scan-digits : (f n : ℕ) (out : Str) → n < f → scan (digits f n out) 0 ≡ scan out n
unfolding digits scan
scan-digits zero n out h = elim h [ ]
scan-digits (suc f) n out h = ground (arith, scan-digits f (n / 10) ((b'0' + n % 10) ∷ out))

pub format-IsDigit : (n : ℕ) → All IsDigit (format n)
unfolding format
format-IsDigit n = digits-IsDigit (suc n) n [] tt

pub format-ne-nil : (n : ℕ) → format n ≢ []
unfolding format digits
format-ne-nil n = ground (arith, digits-ne-nil n (n / 10) ((b'0' + n % 10) ∷ []))

scan_digits-scan : (s : Str) → s ≢ [] → scan_digits s ≡ scan s 0
unfolding scan_digits
scan_digits-scan [] h = absurd (h refl)
scan_digits-scan (c ∷ s) h = refl

scan_digits-format : (n : ℕ) → scan_digits (format n) ≡ some n
unfolding format scan
scan_digits-format n =
    rw (scan_digits-scan _ (format-ne-nil n)) (scan-digits (suc n) n [] (omega arith))

-- A byte that is no digit is not in a print.
pub IsDigit-Lacks : (b : ℕ) (s : Str) → ¬ IsDigit b → All IsDigit s → Lacks b s
IsDigit-Lacks b [] nb h = tt
IsDigit-Lacks b (c ∷ s) nb (p, h) = ((λ e. nb (rw (← e) p)), IsDigit-Lacks b s nb h)

pub format-Lacks : (b n : ℕ) → ¬ IsDigit b → Lacks b (format n)
format-Lacks b n nb = IsDigit-Lacks b (format n) nb (format-IsDigit n)

atoi_of_IsDigit :
    (s : Str) (n : ℕ) → All IsDigit s → scan_digits s ≡ some n → n ≤ max_int → atoi s ≡ some (pos n)
unfolding atoi
atoi_of_IsDigit [] n d e h = cc
atoi_of_IsDigit (c ∷ s) n d e h = ground arith

-- Atoi reads back what `%d` printed, for every int.
pub atoi-format : (n : ℕ) → n ≤ max_int → atoi (format n) ≡ some (pos n)
atoi-format n h = atoi_of_IsDigit (format n) n (format-IsDigit n) (scan_digits-format n) h

All-bytes : (s : Str) → All IsDigit s → All (λ c. c < 256) s
All-bytes [] h = tt
All-bytes (c ∷ s) (p, h) = (omega arith, All-bytes s h)

pub format-IsByte : (n : ℕ) → All (λ c. c < 256) (format n)
format-IsByte n = All-bytes (format n) (format-IsDigit n)

pub format_int-IsByte : (n : ℤ) → All (λ c. c < 256) (format_int n)
unfolding format_int
format_int-IsByte (pos n) = format-IsByte n
format_int-IsByte (negsuc n) = (omega arith, format-IsByte (suc n))
