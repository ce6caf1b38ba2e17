-- ===== src/Id3/Text.antt =====
-- Encoded strings in the frames of internal/scanner/id3.go: decodeTextFrame, decodeByEncoding,
-- trimNull, skipNullTerminated, readNullTerminated and splitLyricLines.
use preamp.Base.{ℕ, Bool, ◌&&◌, ◌||◌, [], ◌∷◌, Option, none, some, ◌==◌, if◌then◌else◌}
use preamp.Base.Text.{Bytes, trim_right}
use preamp.Id3.Utf.{decode_utf16, decode_utf16be}

unfoldable pub trim_null : Bytes → Bytes
unfolding trim_right
trim_null s = trim_right 0 s

unfoldable pub decode_by_encoding : Bytes → ℕ → Bytes
unfolding decode_utf16 decode_utf16be
decode_by_encoding bytes encoding =
    if encoding == 0
    then bytes
    else if encoding == 3
    then bytes
    else if encoding == 1
    then decode_utf16 bytes
    else if encoding == 2
    then decode_utf16be bytes
    else bytes

-- The first byte is the encoding.
unfoldable pub decode_text_frame : Bytes → Bytes
unfolding trim_null decode_utf16 decode_utf16be
decode_text_frame (encoding ∷ b ∷ bs) =
    let payload = b ∷ bs in
    if encoding == 0
    then trim_null payload
    else if encoding == 3
    then trim_null payload
    else if encoding == 1
    then trim_null (decode_utf16 payload)
    else if encoding == 2
    then trim_null (decode_utf16be payload)
    else trim_null payload
decode_text_frame _ = []

abbrev pub is_wide : ℕ → Bool
is_wide encoding = encoding == 1 || encoding == 2

-- The two loops of skipNullTerminated: `[]` is the nil slice.
unfoldable pub skip_narrow : Bytes → Bytes
skip_narrow [] = []
skip_narrow (b ∷ bs) = let rest = skip_narrow bs in if b == 0 then bs else rest

unfoldable pub skip_wide : Bytes → Bytes
skip_wide (a ∷ b ∷ bs) = let rest = skip_wide bs in if a == 0 && b == 0 then bs else rest
skip_wide _ = []

unfoldable pub skip_null_terminated : Bytes → ℕ → Bytes
unfolding skip_narrow skip_wide
skip_null_terminated bytes encoding =
    if is_wide encoding then skip_wide bytes else skip_narrow bytes

-- The two loops of readNullTerminated: the bytes before the terminator, and those behind it.
unfoldable pub read_narrow : Bytes → Option (Bytes × Bytes)
read_narrow [] = none
read_narrow (b ∷ bs) =
    let rest = read_narrow bs in
    if b == 0
    then some ([], bs)
    else elim rest [ none ↦ none | some (text, behind) ↦ some (b ∷ text, behind) ]

unfoldable pub read_wide : Bytes → Option (Bytes × Bytes)
read_wide (a ∷ b ∷ bs) =
    let rest = read_wide bs in
    if a == 0 && b == 0
    then some ([], bs)
    else elim rest [ none ↦ none | some (text, behind) ↦ some (a ∷ b ∷ text, behind) ]
read_wide _ = none

-- A wide string is decoded, a narrow one is taken as it is.
unfoldable pub read_null_terminated : Bytes → ℕ → Option (Bytes × Bytes)
read_null_terminated bytes encoding =
    if is_wide encoding
    then elim (read_wide bytes) [
      | none ↦ none
      | some (text, behind) ↦ some (decode_by_encoding text encoding, behind)
    ]
    else read_narrow bytes
