-- ===== src/Eventhub/Random.antt =====
-- The random names have the length that they promise.
use iothub.Base.{
  Bool, leb, ◌&&◌, ◌||◌, ◌/◌, ◌%◌, ℕ, ◌*◌, ◌≡◌, ◌<◌, refl, arith, [], ◌∷◌, Str, length, All, ok,
  true,
}
use iothub.Act.Returns.{>>=-returned}
use iothub.Eventhub.{Peer, hex_digit, hex_string, rand_string}

pub is_hex : ℕ → Bool
is_hex c = leb b'0' c && leb c b'9' || leb b'a' c && leb c b'f'

hex_digit-is_hex : (n : ℕ) → n < 16 → is_hex (hex_digit n) ≡ true
unfolding is_hex
hex_digit-is_hex n h = ground arith

abbrev pub AreHex : Str → Type 0
AreHex = All (λ c. is_hex c ≡ true)

hex_string-AreHex : (s : Str) → (length (hex_string s) ≡ 2 * length s) × AreHex (hex_string s)
unfolding hex_string
hex_string-AreHex [] = (refl, tt)
hex_string-AreHex (c ∷ s) =
    let (len, digits) = hex_string-AreHex s in
    (
      omega (arith, len),
      (
        hex_digit-is_hex (c / 16 % 16) (omega arith),
        (hex_digit-is_hex (c % 16) (omega arith), digits),
      ),
    )

-- With a source that gives as many bytes as it is asked for, RandString returns 32 hexadecimal
-- digits whenever it returns.
pub rand_string_bounds :
    {World : Type 0} (peer : Peer World) (w : World) (s : Str)
    → ((w' : World) (b : Str) → (peer.random 16 w').1 ≡ ok b → length b ≡ 16)
    → (rand_string peer w).1 ≡ ok s
    → (◌≡◌ {A = ℕ} (length s) 32) × AreHex s
unfolding rand_string
rand_string_bounds peer w s full e =
    let (b, got, e1) = >>=-returned (peer.random 16) _ w e in
    let same : hex_string b ≡ s = cc in
    let (len, digits) = hex_string-AreHex b in
    rw (← same) (omega (arith, len, full w b got), digits)
