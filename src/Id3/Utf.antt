-- ===== src/Id3/Utf.antt =====
-- decodeUTF16, decodeUTF16BE and decodeUTF16LE of internal/scanner/id3.go, with what they use of
-- Go: `utf16.Decode`, the conversion of runes to a string, and the 16-bit reads of encoding/binary.
pub mod RoundTrip
use preamp.Base.{
  ℕ, suc, ◌+◌, ◌-◌, ◌*◌, ◌/◌, ◌%◌, Bool, true, false, ◌&&◌, ◌||◌, List, [], ◌∷◌, ◌++◌, ltb, leb,
  ◌==◌, if◌then◌else◌, length,
}
use preamp.Base.Text.{Bytes}

-- `utf16.Decode`: a surrogate that is not part of a pair becomes U+FFFD.
unfoldable pub decode_units : List ℕ → List ℕ
decode_units [] = []
decode_units (r ∷ []) = (if ltb r 0xD800 || leb 0xE000 r then r else 0xFFFD) ∷ []
decode_units (r ∷ s ∷ rest) =
    let behind = decode_units (s ∷ rest) in
    let behind_pair = decode_units rest in
    if ltb r 0xD800 || leb 0xE000 r
    then r ∷ behind
    else if ltb r 0xDC00 && leb 0xDC00 s && ltb s 0xE000
    then ((r - 0xD800) * 1024 + (s - 0xDC00) + 0x10000) ∷ behind_pair
    else 0xFFFD ∷ behind

-- UTF-8 of one rune, as `string([]rune)` writes it.
unfoldable pub encode_rune : ℕ → Bytes
encode_rune r =
    if ltb r 0x80
    then r ∷ []
    else if ltb r 0x800
    then (0xC0 + r / 64) ∷ (0x80 + r % 64) ∷ []
    else if ltb 0x10FFFF r || leb 0xD800 r && ltb r 0xE000
    then 0xEF ∷ 0xBF ∷ 0xBD ∷ []
    else if ltb r 0x10000
    then (0xE0 + r / 4096) ∷ (0x80 + r / 64 % 64) ∷ (0x80 + r % 64) ∷ []
    else (0xF0 + r / 262144) ∷ (0x80 + r / 4096 % 64) ∷ (0x80 + r / 64 % 64) ∷ (0x80 + r % 64) ∷ []

unfoldable pub encode_runes : List ℕ → Bytes
encode_runes [] = []
encode_runes (r ∷ rs) = encode_rune r ++ encode_runes rs

-- `u16[i] = binary.BigEndian.Uint16(data[i*2:])`; an odd last byte is cut off.
unfoldable pub units_be : Bytes → List ℕ
units_be (a ∷ b ∷ rest) = (a * 256 + b) ∷ units_be rest
units_be _ = []

unfoldable pub units_le : Bytes → List ℕ
units_le (a ∷ b ∷ rest) = (b * 256 + a) ∷ units_le rest
units_le _ = []

unfoldable pub decode_utf16be : Bytes → Bytes
unfolding decode_units encode_rune encode_runes units_be
decode_utf16be xs = encode_runes (decode_units (units_be xs))

unfoldable pub decode_utf16le : Bytes → Bytes
unfolding decode_units encode_rune encode_runes units_le
decode_utf16le xs = encode_runes (decode_units (units_le xs))

-- A byte order mark chooses the order, and big-endian is the default.
unfoldable pub decode_utf16 : Bytes → Bytes
unfolding decode_utf16be decode_utf16le
decode_utf16 (a ∷ b ∷ rest) =
    if a == 0xFF && b == 0xFE
    then decode_utf16le rest
    else if a == 0xFE && b == 0xFF
    then decode_utf16be rest
    else decode_utf16be (a ∷ b ∷ rest)
decode_utf16 _ = []
