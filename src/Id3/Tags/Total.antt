-- ===== src/Id3/Tags/Total.antt =====
-- The loop of parseID3v2Frames in internal/scanner/id3.go ends for every buffer.
use preamp.Base.{ℕ, suc, ◌+◌, ◌≤◌, ◌<◌, drop, take, length, slice, ◌≡◌, ◌≢◌, arith, none, some}
use preamp.Base.Scan.{more, Advances, scan_total}
use preamp.Base.Text.{Bytes, byte_at}
use preamp.Id3.Frames.{frames_start, frame_hdr_len}
use preamp.Id3.Tags.{
  Id3Tags, no_tags, tags_frame, tags_round, parse_id3v2_frames, read_id3v2, raw_size,
}

pub frame_hdr_len_pos : (major : ℕ) → 0 < frame_hdr_len major
unfolding frame_hdr_len
frame_hdr_len_pos major = ground arith

-- The body is left shut at what it stores.
tags_frame-Advances :
    (major : ℕ) (buf hdr : Bytes) (start q : ℕ) (tags tags' : Id3Tags)
    → tags_frame major buf hdr start tags ≡ more q tags'
    → (start < q) × (q ≤ length buf)
unfolding tags_frame
tags_frame-Advances major buf hdr start q tags tags' h = ground arith

tags_round-Advances :
    (buf : Bytes) (major raw_tag_size : ℕ)
    → Advances (tags_round buf major raw_tag_size) (length buf)
unfolding tags_round
tags_round-Advances buf major raw_tag_size p q tags tags' h = ground (
  arith,
  frame_hdr_len_pos major,
  tags_frame-Advances major buf (slice buf p (p + frame_hdr_len major)) (p + frame_hdr_len major) q
      tags tags',
)

pub parse_id3v2_frames_total :
    (buf : Bytes) (major raw_tag_size flags : ℕ)
    → (tags : Id3Tags) × (parse_id3v2_frames buf major raw_tag_size flags ≡ some tags)
unfolding parse_id3v2_frames
parse_id3v2_frames_total buf major raw_tag_size flags =
    scan_total (tags_round buf major raw_tag_size) (length buf)
      (tags_round-Advances buf major raw_tag_size) (suc (length buf)) (frames_start buf major flags)
      no_tags (omega arith) (omega arith)

-- Reading a tag ends for all bytes that a file can begin with.
pub read_id3v2_total : (buf : Bytes) → read_id3v2 buf ≢ none
unfolding read_id3v2
read_id3v2_total buf = ground (
  arith,
  (parse_id3v2_frames_total (drop 10 buf) (byte_at buf 3) (raw_size buf) (byte_at buf 5)).1,
  (parse_id3v2_frames_total (take (raw_size buf) (drop 10 buf)) (byte_at buf 3) (raw_size buf)
      (byte_at buf 5)).1,
)
