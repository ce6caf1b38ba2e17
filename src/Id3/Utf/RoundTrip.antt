-- ===== src/Id3/Utf/RoundTrip.antt =====
-- Text written as UTF-16, in either byte order and with surrogate pairs where they are needed,
-- is read back by decodeUTF16 and decodeUTF16BE of internal/scanner/id3.go.
use preamp.Base.{
  ℕ, ◌+◌, ◌-◌, ◌*◌, ◌/◌, ◌%◌, ◌≤◌, ◌<◌, List, [], ◌∷◌, ◌++◌, ltb, if◌then◌else◌, All, ◌≡◌, refl, ap,
  ◌∙◌, ◌⊎◌, arith,
}
use preamp.Base.Text.{Bytes}
use preamp.Id3.Utf.{
  decode_units, encode_runes, units_be, units_le, decode_utf16be, decode_utf16le, decode_utf16,
}

-- A Unicode scalar value: a code point that is no surrogate.
abbrev pub IsScalar : ℕ → Type 0
IsScalar c = (c < 0xD800) ⊎ ((0xE000 ≤ c) × (c < 0x110000))

-- UTF-16 of one scalar value.
unfoldable pub utf16_units : ℕ → List ℕ
utf16_units c =
    if ltb c 0x10000
    then c ∷ []
    else (0xD800 + (c - 0x10000) / 1024) ∷ (0xDC00 + (c - 0x10000) % 1024) ∷ []

unfoldable pub utf16 : List ℕ → List ℕ
unfolding utf16_units
utf16 [] = []
utf16 (c ∷ cs) = utf16_units c ++ utf16 cs

unfoldable pub bytes_be : List ℕ → Bytes
bytes_be [] = []
bytes_be (u ∷ us) = (u / 256) ∷ (u % 256) ∷ bytes_be us

unfoldable pub bytes_le : List ℕ → Bytes
bytes_le [] = []
bytes_le (u ∷ us) = (u % 256) ∷ (u / 256) ∷ bytes_le us

units_be-bytes_be : (us : List ℕ) → units_be (bytes_be us) ≡ us
unfolding units_be bytes_be
units_be-bytes_be [] = refl
units_be-bytes_be (u ∷ us) = ground (arith, units_be-bytes_be us)

units_le-bytes_le : (us : List ℕ) → units_le (bytes_le us) ≡ us
unfolding units_le bytes_le
units_le-bytes_le [] = refl
units_le-bytes_le (u ∷ us) = ground (arith, units_le-bytes_le us)

decode_units-plain :
    (c : ℕ) (us : List ℕ)
    → (c < 0xD800) ⊎ (0xE000 ≤ c)
    → decode_units (c ∷ us) ≡ c ∷ decode_units us
unfolding decode_units
decode_units-plain c [] h = ground arith
decode_units-plain c (u ∷ us) h = ground arith

decode_units-pair :
    (a b : ℕ) (us : List ℕ)
    → a < 1024
    → b < 1024
    → decode_units ((0xD800 + a) ∷ (0xDC00 + b) ∷ us) ≡ (0x10000 + a * 1024 + b) ∷ decode_units us
unfolding decode_units
decode_units-pair a b us h k = ground arith

decode_units-utf16_units :
    (c : ℕ) (us : List ℕ) → IsScalar c → decode_units (utf16_units c ++ us) ≡ c ∷ decode_units us
unfolding utf16_units
decode_units-utf16_units c us s = ground (
  arith,
  decode_units-plain c us,
  decode_units-pair ((c - 0x10000) / 1024) ((c - 0x10000) % 1024) us,
)

pub decode_units-utf16 : (cs : List ℕ) → All IsScalar cs → decode_units (utf16 cs) ≡ cs
unfolding utf16 decode_units
decode_units-utf16 [] h = refl
decode_units-utf16 (c ∷ cs) h =
    decode_units-utf16_units c (utf16 cs) h.0 ∙ ap (◌∷◌ c) (decode_units-utf16 cs h.1)

-- Scalar values written as UTF-16 decode to their UTF-8: big-endian without a mark, and either
-- byte order behind its byte order mark.
pub decode_utf16_lem :
    (cs : List ℕ)
    → All IsScalar cs
    → (decode_utf16be (bytes_be (utf16 cs)) ≡ encode_runes cs)
      × (decode_utf16 (0xFE ∷ 0xFF ∷ bytes_be (utf16 cs)) ≡ encode_runes cs)
      × (decode_utf16 (0xFF ∷ 0xFE ∷ bytes_le (utf16 cs)) ≡ encode_runes cs)
unfolding decode_utf16 decode_utf16be decode_utf16le
decode_utf16_lem cs h =
    let decoded = decode_units-utf16 cs h in
    let big = ap encode_runes (ap decode_units (units_be-bytes_be (utf16 cs)) ∙ decoded) in
    (big, big, ap encode_runes (ap decode_units (units_le-bytes_le (utf16 cs)) ∙ decoded))
