-- ===== src/Base/Hex.antt =====
-- Go's package encoding/hex: `EncodeToString` and `DecodeString`.
use Prim.Native.Nat.{ℕ, ◌+◌, ◌-◌, ◌*◌, ◌/◌, ◌%◌, ◌<◌}
use mathlib.Core.Path.{◌≡◌, refl}
use mathlib.Core.Bool.{◌&&◌}
use mathlib.Core.List.{[], ◌∷◌}
use mathlib.Core.Option.{Option, none, some}
use native.Mathlib.Omega.{arith}
use preamp.Base.Tests.{leb, ltb, if◌then◌else◌}
use preamp.Base.Lists.{All, length}
use preamp.Base.Text.{Bytes}

unfoldable pub hex_digit : ℕ → Option ℕ
hex_digit c =
    if leb b'0' c && leb c b'9'
    then some (c - b'0')
    else if leb b'a' c && leb c b'f'
    then some (c - b'a' + 10)
    else if leb b'A' c && leb c b'F'
    then some (c - b'A' + 10)
    else none

-- `none` is an error: a byte that is no digit, or an odd number of bytes.
unfoldable pub decode_hex : Bytes → Option Bytes
decode_hex [] = some []
decode_hex (_ ∷ []) = none
decode_hex (a ∷ b ∷ rest) = elim (hex_digit a) [
  | none ↦ none
  | some hi ↦ elim (hex_digit b) [
    | none ↦ none
    | some lo ↦ elim (decode_hex rest) [ none ↦ none | some bytes ↦ some ((hi * 16 + lo) ∷ bytes) ]
  ]
]

abbrev hex_char : ℕ → ℕ
hex_char n = if ltb n 10 then b'0' + n else b'a' + (n - 10)

unfoldable pub encode_hex : Bytes → Bytes
encode_hex [] = []
encode_hex (b ∷ bs) = hex_char (b / 16) ∷ hex_char (b % 16) ∷ encode_hex bs

hex_digit-hex_char : (n : ℕ) → n < 16 → hex_digit (hex_char n) ≡ some n
unfolding hex_digit
hex_digit-hex_char n h = ground arith

pub decode_hex-encode_hex :
    (bs : Bytes) → All (λ b. b < 256) bs → decode_hex (encode_hex bs) ≡ some bs
unfolding decode_hex encode_hex
decode_hex-encode_hex [] h = refl
decode_hex-encode_hex (b ∷ bs) h = ground (
  arith,
  h.0,
  hex_digit-hex_char (b / 16) (omega (arith, h.0)),
  hex_digit-hex_char (b % 16) (omega arith),
  decode_hex-encode_hex bs h.1,
)

pub length-encode_hex : (bs : Bytes) → length (encode_hex bs) ≡ length bs * 2
unfolding encode_hex
length-encode_hex [] = refl
length-encode_hex (b ∷ bs) = omega (arith, length-encode_hex bs)
