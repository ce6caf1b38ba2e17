-- ===== src/Id3/Lyrics.antt =====
-- ReadID3v2Lyrics, parseLyricsFrames, parseUSLT and parseSYLT of internal/scanner/id3.go: the lyrics
-- frames of a tag.
pub mod Total
pub mod Synced
use preamp.Base.{
  ℕ, zero, suc, ◌+◌, ◌*◌, ◌^◌, ◌≤◌, ◌<◌, Bool, true, false, not, ◌&&◌, ◌||◌, List, [], ◌∷◌, ◌++◌,
  map, ltb, leb, ◌==◌, if◌then◌else◌, length, take, drop, slice, ◌≡◌, ◌≢◌, refl, arith, Option,
  none, some,
}
use preamp.Base.Bits.{syncsafe, be32}
use preamp.Base.Int.{ℤ, pos, negsuc}
use preamp.Base.Scan.{Round, halt, more, scan}
use preamp.Base.Text.{Bytes, codes, byte_at, is_empty, one_of, trim_right, split_on}
use preamp.Id3.Frames.{frames_start, frame_hdr_len, frame_id, frame_size}
use preamp.Id3.Tags.{has_id3_header}
use preamp.Id3.Text.{trim_null, decode_by_encoding, skip_null_terminated, read_null_terminated}

-- `start` is in milliseconds, -1 for an unsynced line.
pub record LyricLine : Type 0 where
  pub start : ℤ
  pub value : Bytes

pub record LyricFrame : Type 0 where
  pub lang : Bytes
  pub synced : Bool
  pub lines : List LyricLine

unfoldable pub split_lyric_lines : Bytes → List LyricLine
unfolding split_on trim_right
split_lyric_lines text =
    map (λ l. record { start = negsuc 0; value = trim_right b'\r' l }) (split_on b'\n' text)

-- The functions that return a frame and a Boolean return an option here.
unfoldable pub parse_uslt : Bytes → Option LyricFrame
unfolding skip_null_terminated decode_by_encoding trim_null split_lyric_lines
parse_uslt bytes =
    let encoding = byte_at bytes 0 in
    let rest = skip_null_terminated (drop 4 bytes) encoding in
    let text = trim_null (decode_by_encoding rest encoding) in
    if ltb (length bytes) 5
    then none
    else if is_empty text
    then none
    else some (record { lang = slice bytes 1 4; synced = false; lines = split_lyric_lines text })

abbrev pub sylt_line : ℕ → Bytes → Bytes → LyricLine
sylt_line format text remainder =
    let ts = be32 remainder 0 in
    record { start = pos (if format == 1 then ts * 26 else ts); value = trim_null text }

-- What the loop does with a text and the bytes behind it; `later` is the rest of the loop.
unfoldable pub sylt_append : ℕ → Bytes → Bytes → Option (List LyricLine) → Option (List LyricLine)
sylt_append format text remainder later =
    if ltb (length remainder) 4
    then some []
    else elim later [ none ↦ none | some lines ↦ some (sylt_line format text remainder ∷ lines) ]

-- `for len(rest) > 0`; `none` would mean that the fuel ran out.
unfoldable pub sylt_lines : ℕ → ℕ → ℕ → Bytes → Option (List LyricLine)
sylt_lines zero encoding format rest = none
sylt_lines (suc fuel) encoding format [] = some []
sylt_lines (suc fuel) encoding format (b ∷ bs) = elim (read_null_terminated (b ∷ bs) encoding) [
  | none ↦ some []
  | some (text, remainder) ↦
      sylt_append format text remainder (sylt_lines fuel encoding format (drop 4 remainder))
]

-- The outer option is the fuel.
unfoldable pub parse_sylt : Bytes → Option (Option LyricFrame)
parse_sylt bytes =
    let encoding = byte_at bytes 0 in
    let rest = skip_null_terminated (drop 6 bytes) encoding in
    if ltb (length bytes) 7
    then some none
    else elim (sylt_lines (suc (length rest)) encoding (byte_at bytes 4) rest) [
      | none ↦ none
      | some [] ↦ some none
      | some (l ∷ ls) ↦
          some (some (record { lang = slice bytes 1 4; synced = true; lines = l ∷ ls }))
    ]

-- The `switch` on the frame's identifier: what it appends to the frames.
unfoldable pub lyrics_of : Bytes → Bytes → Option (List LyricFrame)
lyrics_of id bytes =
    if one_of id (codes "USLT" ∷ codes "ULT" ∷ [])
    then elim (parse_uslt bytes) [ none ↦ some [] | some f ↦ some (f ∷ []) ]
    else if one_of id (codes "SYLT" ∷ codes "SLT" ∷ [])
    then elim (parse_sylt bytes) [
      | none ↦ none
      | some none ↦ some []
      | some (some f) ↦ some (f ∷ [])
    ]
    else some []

abbrev pub appended : Option (List LyricFrame) → Option (List LyricFrame) → Option (List LyricFrame)
appended none new = none
appended (some frames) none = none
appended (some frames) (some new) = some (frames ++ new)

unfoldable pub lyrics_frame :
    ℕ → Bytes → Bytes → ℕ → Option (List LyricFrame) → Round (Option (List LyricFrame))
lyrics_frame major buf hdr start frames =
    let size = frame_size major hdr in
    let end = start + size in
    if byte_at hdr 0 == 0
    then halt frames
    else if leb size 0
    then halt frames
    else if ltb (length buf) end
    then halt frames
    else more end (appended frames (lyrics_of (frame_id major hdr) (slice buf start end)))

unfoldable pub lyrics_round :
    Bytes → ℕ → ℕ → ℕ → Option (List LyricFrame) → Round (Option (List LyricFrame))
unfolding lyrics_frame
lyrics_round buf major raw_tag_size at frames =
    let start = at + frame_hdr_len major in
    if leb raw_tag_size at
    then halt frames
    else if ltb (length buf) start
    then halt frames
    else lyrics_frame major buf (slice buf at start) start frames

unfoldable pub parse_lyrics_frames : Bytes → ℕ → ℕ → ℕ → Option (List LyricFrame)
parse_lyrics_frames buf major raw_tag_size flags =
    elim (scan (lyrics_round buf major raw_tag_size) (suc (length buf))
      (frames_start buf major flags) (some [])) [ none ↦ none | some frames ↦ frames ]

abbrev pub lyrics_read_cap : ℕ
lyrics_read_cap = 512 * 1024

-- What ReadID3v2Lyrics returns: an error where the file ends inside the header, else the frames.
pub data LyricsResult : Type 0 where
  eof : LyricsResult
  frames : List LyricFrame → LyricsResult

unfoldable pub read_id3v2_lyrics : Bytes → Option LyricsResult
read_id3v2_lyrics file =
    let raw = syncsafe (byte_at file 6) (byte_at file 7) (byte_at file 8) (byte_at file 9) in
    let read_size = if ltb lyrics_read_cap raw then lyrics_read_cap else raw in
    let body = take read_size (drop 10 file) in
    if ltb (length file) 10
    then some eof
    else if not (has_id3_header file)
    then some (frames [])
    else elim (parse_lyrics_frames body (byte_at file 3) raw (byte_at file 5)) [
      | none ↦ none
      | some fs ↦ some (frames fs)
    ]
