-- ===== src/Id3/Tags.antt =====
-- readID3v2 and parseID3v2Frames of internal/scanner/id3.go: the text frames of a tag.
pub mod Total
pub mod Render
pub mod Write
pub mod Names
pub mod Fields
use preamp.Base.{
  ℕ, zero, suc, ◌+◌, ◌*◌, ◌^◌, ◌≤◌, ◌<◌, Bool, true, false, not, ◌&&◌, ◌||◌, List, [], ◌∷◌, ◌++◌,
  ltb, leb, ◌==◌, if◌then◌else◌, length, take, drop, slice, ◌≡◌, ◌≢◌, refl, arith, Option, none,
  some,
}
use preamp.Base.Bits.{syncsafe}
use preamp.Base.Int.{ℤ, pos, atoi}
use preamp.Base.Scan.{Round, halt, more, scan}
use preamp.Base.Text.{Bytes, codes, byte_at, bytes_eq, is_empty, one_of}
use preamp.Id3.Frames.{frames_start, frame_hdr_len, frame_id, frame_size}
use preamp.Id3.Text.{decode_text_frame}
use preamp.Id3.Values.{clean_genre, parse_track_disc}

pub record Id3Tags : Type 0 where
  pub title : Bytes
  pub artist : Bytes
  pub album : Bytes
  pub genre : Bytes
  pub year : ℤ
  pub track : ℤ
  pub disc : ℤ
  pub tag_size : ℕ

-- The zero value.
abbrev pub no_tags : Id3Tags
no_tags = record {
  title = [];
  artist = [];
  album = [];
  genre = [];
  year = pos 0;
  track = pos 0;
  disc = pos 0;
  tag_size = 0;
}

unfoldable pub want_text_frame : Bytes → ℕ → Bool
unfolding one_of
want_text_frame id major =
    if one_of id (
      codes "TIT2"
      ∷ codes "TPE1"
      ∷ codes "TALB"
      ∷ codes "TCON"
      ∷ codes "TRCK"
      ∷ codes "TPOS"
      ∷ codes "TDRC"
      ∷ codes "TYER"
      ∷ [])
    then true
    else if one_of id (
        codes "TT2"
        ∷ codes "TP1"
        ∷ codes "TAL"
        ∷ codes "TCO"
        ∷ codes "TRK"
        ∷ codes "TPA"
        ∷ codes "TYE"
        ∷ [])
    then major == 2
    else false

unfoldable pub apply_tag : Id3Tags → Bytes → Bytes → Id3Tags
unfolding one_of clean_genre parse_track_disc atoi
apply_tag tags id val =
    if is_empty val
    then tags
    else if one_of id (codes "TIT2" ∷ codes "TT2" ∷ [])
    then record tags { title = val }
    else if one_of id (codes "TPE1" ∷ codes "TP1" ∷ [])
    then record tags { artist = val }
    else if one_of id (codes "TALB" ∷ codes "TAL" ∷ [])
    then record tags { album = val }
    else if one_of id (codes "TCON" ∷ codes "TCO" ∷ [])
    then record tags { genre = clean_genre val }
    else if one_of id (codes "TRCK" ∷ codes "TRK" ∷ [])
    then record tags { track = parse_track_disc val }
    else if one_of id (codes "TPOS" ∷ codes "TPA" ∷ [])
    then record tags { disc = parse_track_disc val }
    else if one_of id (codes "TDRC" ∷ codes "TYER" ∷ codes "TYE" ∷ [])
    then (if leb 4 (length val) then record tags { year = (atoi (take 4 val)).0 } else tags)
    else tags

-- The loop's body behind the read of a frame header; `start` is `pos` behind the header.
unfoldable pub tags_frame : ℕ → Bytes → Bytes → ℕ → Id3Tags → Round Id3Tags
tags_frame major buf hdr start tags =
    let size = frame_size major hdr in
    let end = start + size in
    if byte_at hdr 0 == 0
    then halt tags
    else if leb size 0
    then halt tags
    else if want_text_frame (frame_id major hdr) major && ltb size 4096
    then (if ltb (length buf) end
        then halt tags
        else more end
            (apply_tag tags (frame_id major hdr) (decode_text_frame (slice buf start end))))
    else if ltb (length buf) end
    then halt tags
    else more end tags

unfoldable pub tags_round : Bytes → ℕ → ℕ → ℕ → Id3Tags → Round Id3Tags
unfolding tags_frame
tags_round buf major raw_tag_size at tags =
    let start = at + frame_hdr_len major in
    if leb raw_tag_size at
    then halt tags
    else if ltb (length buf) start
    then halt tags
    else tags_frame major buf (slice buf at start) start tags

-- The loop has fuel for one round more than there are bytes; `none` would mean that it ran out.
unfoldable pub parse_id3v2_frames : Bytes → ℕ → ℕ → ℕ → Option Id3Tags
parse_id3v2_frames buf major raw_tag_size flags =
    scan (tags_round buf major raw_tag_size) (suc (length buf)) (frames_start buf major flags)
      no_tags

-- `buf[0] != 'I' || buf[1] != 'D' || buf[2] != '3'`, negated, and the test of the version.
unfoldable pub has_id3_header : Bytes → Bool
has_id3_header buf =
    byte_at buf 0 == b'I'
    && byte_at buf 1 == b'D'
    && byte_at buf 2 == b'3'
    && not (ltb (byte_at buf 3) 2 || ltb 4 (byte_at buf 3))

abbrev pub raw_size : Bytes → ℕ
raw_size buf = syncsafe (byte_at buf 6) (byte_at buf 7) (byte_at buf 8) (byte_at buf 9)

abbrev pub id3_read_cap : ℕ
id3_read_cap = 10 + 4096

-- `buf` holds the bytes that `io.ReadAtLeast` delivered, of which there are id3_read_cap at most.
-- The outer option is the fuel, the inner one the Boolean that readID3v2 returns.
unfoldable pub read_id3v2 : Bytes → Option (Option Id3Tags)
unfolding has_id3_header
read_id3v2 buf =
    if ltb (length buf) 10
    then some none
    else if not (has_id3_header buf)
    then some none
    else let body = drop 10 buf in
      let capped = if ltb (raw_size buf) (length body) then take (raw_size buf) body else body in
      elim (parse_id3v2_frames capped (byte_at buf 3) (raw_size buf) (byte_at buf 5)) [
        | none ↦ none
        | some tags ↦ some (some (record tags { tag_size = 10 + raw_size buf }))
      ]
