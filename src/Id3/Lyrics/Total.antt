-- ===== src/Id3/Lyrics/Total.antt =====
-- The loops of parseSYLT and parseLyricsFrames in internal/scanner/id3.go end for every buffer.
use preamp.Base.{
  ℕ, zero, suc, ◌+◌, ◌≤◌, ◌<◌, List, [], ◌∷◌, ltb, drop, take, if◌then◌else◌, length, slice, ◌≡◌,
  ◌≢◌, inl, inr, refl, arith, Option, none, some, length-drop, Option-cases,
}
use preamp.Base.Bits.{syncsafe}
use preamp.Base.Scan.{halt, more, Advances, scan_total, scan_inv}
use preamp.Base.Text.{Bytes, byte_at}
use preamp.Id3.Frames.{frames_start, frame_hdr_len, frame_size, frame_id}
use preamp.Id3.Tags.Total.{frame_hdr_len_pos}
use preamp.Id3.Text.{read_narrow, read_wide, read_null_terminated, skip_null_terminated}
use preamp.Id3.Lyrics.{
  LyricLine, LyricFrame, sylt_line, sylt_append, sylt_lines, parse_sylt, lyrics_of, appended,
  lyrics_frame, lyrics_round, parse_lyrics_frames, read_id3v2_lyrics, lyrics_read_cap,
}

read_narrow-shorter :
    (bytes : Bytes) {text behind : Bytes}
    → read_narrow bytes ≡ some (text, behind)
    → length behind < length bytes
unfolding read_narrow
read_narrow-shorter [] h = cc
read_narrow-shorter (b ∷ bs) h = elim (Option-cases (read_narrow bs)) [
  | inl e ↦ ground arith
  | inr (r, e) ↦ ground (arith, read_narrow-shorter bs {text = r.0} {behind = r.1} e)
]

read_wide-shorter :
    (bytes : Bytes) {text behind : Bytes}
    → read_wide bytes ≡ some (text, behind)
    → length behind < length bytes
unfolding read_wide
read_wide-shorter [] h = cc
read_wide-shorter (a ∷ []) h = cc
read_wide-shorter (a ∷ b ∷ bs) h = elim (Option-cases (read_wide bs)) [
  | inl e ↦ ground arith
  | inr (r, e) ↦ ground (arith, read_wide-shorter bs {text = r.0} {behind = r.1} e)
]

-- A string that is read takes at least its terminator.
pub read_null_terminated-shorter :
    (bytes : Bytes) (encoding : ℕ) {text behind : Bytes}
    → read_null_terminated bytes encoding ≡ some (text, behind)
    → length behind < length bytes
unfolding read_null_terminated
read_null_terminated-shorter bytes encoding {text} {behind} h =
    elim (Option-cases (read_wide bytes)) [
      | inl e ↦ ground (arith, read_narrow-shorter bytes {text = text} {behind = behind})
      | inr (r, e) ↦ ground (
        arith,
        read_narrow-shorter bytes {text = text} {behind = behind},
        read_wide-shorter bytes {text = r.0} {behind = r.1} e,
      )
    ]

sylt_append_total :
    (format : ℕ) (text remainder : Bytes) (later : Option (List LyricLine)) {ls : List LyricLine}
    → later ≡ some ls
    → (lines : List LyricLine) × (sylt_append format text remainder later ≡ some lines)
unfolding sylt_append
sylt_append_total format text remainder later {ls} h =
    (if ltb (length remainder) 4 then [] else sylt_line format text remainder ∷ ls, ground arith)

sylt_lines_total :
    (fuel encoding format : ℕ) (rest : Bytes)
    → length rest < fuel
    → (lines : List LyricLine) × (sylt_lines fuel encoding format rest ≡ some lines)
unfolding sylt_lines
sylt_lines_total zero encoding format rest h = elim h [ ]
sylt_lines_total (suc fuel) encoding format [] h = ([], refl)
sylt_lines_total (suc fuel) encoding format (b ∷ bs) h =
    elim (Option-cases (read_null_terminated (b ∷ bs) encoding)) [
      | inl e ↦ ([], rw (e, sylt_lines) refl)
      | inr (r, e) ↦
          let shorter =
            read_null_terminated-shorter (b ∷ bs) encoding {text = r.0} {behind = r.1} e in
          let (ls, same) =
            sylt_lines_total fuel encoding format (drop 4 r.1)
              (omega (arith, length-drop 4 r.1, shorter)) in
          rw (e, sylt_lines) (sylt_append_total format r.0 r.1 _ same)
    ]

parse_sylt-ne-none : (bytes : Bytes) → parse_sylt bytes ≢ none
unfolding parse_sylt
parse_sylt-ne-none bytes =
    let rest = skip_null_terminated (drop 6 bytes) (byte_at bytes 0) in
    let (lines, e) =
      sylt_lines_total (suc (length rest)) (byte_at bytes 0) (byte_at bytes 4) rest (omega arith) in
    cases lines e
  where
    cases :
        (lines : List LyricLine)
        → sylt_lines
            (suc (length (skip_null_terminated (drop 6 bytes) (byte_at bytes 0))))
            (byte_at bytes 0)
            (byte_at bytes 4)
            (skip_null_terminated (drop 6 bytes) (byte_at bytes 0))
          ≡ some lines
        → parse_sylt bytes ≢ none
    cases [] e = ground arith
    cases (l ∷ ls) e = ground arith

lyrics_of-ne-none : (id bytes : Bytes) → lyrics_of id bytes ≢ none
unfolding lyrics_of
lyrics_of-ne-none id bytes = ground (arith, parse_sylt-ne-none bytes)

appended-ne-none :
    (old new : Option (List LyricFrame)) → old ≢ none → new ≢ none → appended old new ≢ none
appended-ne-none none new h k = absurd (h refl)
appended-ne-none (some o) none h k = absurd (k refl)
appended-ne-none (some o) (some n) h k = ground arith

lyrics_frame-Advances :
    (major : ℕ) (buf hdr : Bytes) (start q : ℕ) (acc acc' : Option (List LyricFrame))
    → lyrics_frame major buf hdr start acc ≡ more q acc'
    → (start < q) × (q ≤ length buf)
unfolding lyrics_frame
lyrics_frame-Advances major buf hdr start q acc acc' h = ground arith

lyrics_round-Advances :
    (buf : Bytes) (major raw : ℕ) → Advances (lyrics_round buf major raw) (length buf)
unfolding lyrics_round
lyrics_round-Advances buf major raw p q acc acc' h = ground (
  arith,
  frame_hdr_len_pos major,
  lyrics_frame-Advances major buf (slice buf p (p + frame_hdr_len major)) (p + frame_hdr_len major)
      q acc acc',
)

lyrics_round-more :
    (buf : Bytes) (major raw p q : ℕ) (acc acc' : Option (List LyricFrame))
    → acc ≢ none
    → lyrics_round buf major raw p acc ≡ more q acc'
    → acc' ≢ none
unfolding lyrics_round lyrics_frame
lyrics_round-more buf major raw p q acc acc' h e =
    let start = p + frame_hdr_len major in
    let hdr = slice buf p start in
    let new = lyrics_of (frame_id major hdr) (slice buf start (start + frame_size major hdr)) in
    ground (
      arith,
      appended-ne-none acc new h
          (lyrics_of-ne-none (frame_id major hdr) (slice buf start (start + frame_size major hdr))),
    )

lyrics_round-halt :
    (buf : Bytes) (major raw p : ℕ) (acc r : Option (List LyricFrame))
    → acc ≢ none
    → lyrics_round buf major raw p acc ≡ halt r
    → r ≢ none
unfolding lyrics_round lyrics_frame
lyrics_round-halt buf major raw p acc r h e = ground arith

parse_lyrics_frames-ne-none :
    (buf : Bytes) (major raw flags : ℕ) → parse_lyrics_frames buf major raw flags ≢ none
unfolding parse_lyrics_frames
parse_lyrics_frames-ne-none buf major raw flags =
    let (r, e) =
      scan_total (lyrics_round buf major raw) (length buf) (lyrics_round-Advances buf major raw)
        (suc (length buf)) (frames_start buf major flags) (some []) (omega arith) (omega arith) in
    let kept =
      scan_inv (λ acc. acc ≢ none) (lyrics_round buf major raw)
        (λ p acc r' h s. lyrics_round-halt buf major raw p acc r' h s)
        (λ p q acc acc' h s. lyrics_round-more buf major raw p q acc acc' h s) (suc (length buf))
        (frames_start buf major flags) (some []) r (ground arith) e in
    rw (e, parse_lyrics_frames) kept

-- Reading the lyrics ends for every file.
pub read_id3v2_lyrics_total : (file : Bytes) → read_id3v2_lyrics file ≢ none
unfolding read_id3v2_lyrics
read_id3v2_lyrics_total file =
    let raw = syncsafe (byte_at file 6) (byte_at file 7) (byte_at file 8) (byte_at file 9) in
    let size = if ltb lyrics_read_cap raw then lyrics_read_cap else raw in
    ground (
      arith,
      parse_lyrics_frames-ne-none (take size (drop 10 file)) (byte_at file 3) raw (byte_at file 5),
    )
