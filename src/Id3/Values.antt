-- ===== src/Id3/Values.antt =====
-- cleanGenre and parseTrackDisc of internal/scanner/id3.go.
use preamp.Base.{
  ℕ, zero, suc, ◌+◌, ◌&&◌, ◌||◌, [], ◌∷◌, none, some, leb, ◌==◌, if◌then◌else◌, length, take, drop,
  slice,
}
use mathlib.Core.List.{reverse}
use preamp.Base.Int.{ℤ, atoi}
use preamp.Base.Text.{Bytes, byte_at, is_empty, index_byte}

unfoldable pub clean_genre : Bytes → Bytes
unfolding index_byte
clean_genre [] = []
clean_genre (c ∷ cs) =
    let s = c ∷ cs in
    if c == b'('
    then elim (index_byte b')' s) [
      | none ↦ s
      | some idx ↦ let after = drop (idx + 1) s in if is_empty after then slice s 1 idx else after
    ]
    else s

-- How many bytes the rune takes that `s` begins with, if `unicode.IsSpace` holds of it; else 0.
-- U+0085, U+00A0, U+1680, U+2000 to U+200A, U+2028, U+2029, U+202F, U+205F, U+3000, and ASCII.
unfoldable pub space_width : Bytes → ℕ
space_width [] = 0
space_width (a ∷ rest) =
    let b = byte_at rest 0 in
    let c = byte_at rest 1 in
    if leb 9 a && leb a 13 || a == 32
    then 1
    else if a == 0xC2 && (b == 0x85 || b == 0xA0)
    then 2
    else if a == 0xE1 && b == 0x9A && c == 0x80
    then 3
    else if a == 0xE2
        && (b == 0x80 && (leb 0x80 c && leb c 0x8A || c == 0xA8 || c == 0xA9 || c == 0xAF)
            || b == 0x81 && c == 0x9F)
    then 3
    else if a == 0xE3 && b == 0x80 && c == 0x80
    then 3
    else 0

-- The same at the end of a string that is given backwards.
unfoldable pub space_width_back : Bytes → ℕ
unfolding space_width
space_width_back s =
    if space_width (take 1 s) == 1
    then 1
    else if space_width (reverse (take 2 s)) == 2
    then 2
    else if space_width (reverse (take 3 s)) == 3
    then 3
    else 0

-- Each round drops at least one byte, so as many rounds as there are bytes suffice.
unfoldable pub trim_spaces : (Bytes → ℕ) → ℕ → Bytes → Bytes
trim_spaces width zero s = s
trim_spaces width (suc fuel) s =
    let rest = trim_spaces width fuel (drop (width s) s) in if width s == 0 then s else rest

-- `strings.TrimSpace`.
unfoldable pub trim_space : Bytes → Bytes
unfolding space_width space_width_back trim_spaces
trim_space s =
    let front = trim_spaces space_width (length s) s in
    reverse (trim_spaces space_width_back (length front) (reverse front))

unfoldable pub parse_track_disc : Bytes → ℤ
unfolding index_byte trim_space atoi
parse_track_disc s =
    let head : Bytes = elim (index_byte b'/' s) [ none ↦ s | some idx ↦ take idx s ] in
    (atoi (trim_space head)).0
