-- ===== src/Id3/Tags/Render.antt =====
-- parseID3v2Frames of internal/scanner/id3.go on a tag body that is laid out frame by frame.
use Prim.Native.Nat.{bit_and}
use preamp.Base.{
  ℕ, zero, suc, ◌+◌, ◌-◌, ◌≤◌, ◌<◌, ◌&&◌, List, [], ◌∷◌, ◌++◌, ltb, if◌then◌else◌, length, take,
  drop, slice, ◌≡◌, ◌≢◌, ◌⊎◌, refl, sym, ap, ◌∙◌, arith, some, All, length-append, drop-append,
  take-append, append_assoc,
}
use preamp.Base.Scan.{halt, more, scan}
use preamp.Base.Text.{Bytes, byte_at}
use preamp.Id3.Frames.{frames_start, frame_hdr_len, frame_size, frame_id}
use preamp.Id3.Text.{decode_text_frame}
use preamp.Id3.Tags.Total.{frame_hdr_len_pos}
use preamp.Id3.Tags.{
  Id3Tags, no_tags, tags_frame, tags_round, parse_id3v2_frames, want_text_frame, apply_tag,
}

-- A frame as it lies in the file.
pub record Frame : Type 0 where
  pub header : Bytes
  pub payload : Bytes

-- The header has its length and declares the payload's, and neither is the start of padding.
pub record IsFrame (major : ℕ) (f : Frame) : Type 0 where
  pub header_length : length f.header ≡ frame_hdr_len major
  pub no_padding : byte_at f.header 0 ≢ 0
  pub declares : frame_size major f.header ≡ length f.payload
  pub payload_pos : 0 < length f.payload

abbrev pub frame_bytes : Frame → Bytes
frame_bytes f = f.header ++ f.payload

unfoldable pub body_bytes : List Frame → Bytes → Bytes
body_bytes [] tail = tail
body_bytes (f ∷ fs) tail = f.header ++ (f.payload ++ body_bytes fs tail)

-- What one frame does to the tags: a text frame that is wanted and shorter than 4096 bytes is
-- decoded and applied, any other is passed over.
unfoldable pub apply_frame : ℕ → Id3Tags → Frame → Id3Tags
apply_frame major tags f =
    if want_text_frame (frame_id major f.header) major && ltb (length f.payload) 4096
    then apply_tag tags (frame_id major f.header) (decode_text_frame f.payload)
    else tags

unfoldable pub apply_frames : ℕ → Id3Tags → List Frame → Id3Tags
apply_frames major tags [] = tags
apply_frames major tags (f ∷ fs) = apply_frames major (apply_frame major tags f) fs

-- Nothing, padding, or less than a frame header: where the frames end.
abbrev pub IsTail : ℕ → Bytes → Type 0
IsTail major tail = (length tail < frame_hdr_len major) ⊎ (byte_at tail 0 ≡ 0)

slice_middle :
    {p q : ℕ} (buf before x behind : Bytes)
    → buf ≡ before ++ (x ++ behind)
    → p ≡ length before
    → q ≡ p + length x
    → slice buf p q ≡ x
slice_middle {p} {q} buf before x behind hb hp hq =
    ap (λ xs. slice xs p q) hb
    ∙ ap (λ n. take (q - p) (drop n (before ++ (x ++ behind)))) hp
    ∙ ap (take (q - p)) (drop-append before (x ++ behind))
    ∙ ap (λ n. take n (x ++ behind)) (omega arith)
    ∙ take-append x behind

tags_frame_lem :
    (major : ℕ) (buf : Bytes) (start : ℕ) (tags : Id3Tags) (f : Frame)
    → IsFrame major f
    → slice buf start (start + length f.payload) ≡ f.payload
    → start + length f.payload ≤ length buf
    → tags_frame major buf f.header start tags
      ≡ more (start + length f.payload) (apply_frame major tags f)
unfolding tags_frame apply_frame
tags_frame_lem major buf start tags f v whole room =
    rw v.declares (rw whole (ground (arith, v.no_padding, v.payload_pos)))

tags_round_frame :
    (major raw p : ℕ) (buf before rest : Bytes) (tags : Id3Tags) (f : Frame)
    → IsFrame major f
    → buf ≡ before ++ (f.header ++ (f.payload ++ rest))
    → p ≡ length before
    → length buf ≤ raw
    → tags_round buf major raw p tags
      ≡ more (p + length f.header + length f.payload) (apply_frame major tags f)
unfolding tags_round
tags_round_frame major raw p buf before rest tags f v hb hp hr =
    let hdr =
      slice_middle {p = p} {q = p + length f.header} buf before f.header (f.payload ++ rest) hb hp
        refl in
    let whole =
      slice_middle {p = p + length f.header} buf (before ++ f.header) f.payload rest
        (hb ∙ sym (append_assoc before f.header (f.payload ++ rest)))
        (omega (arith, length-append before f.header)) refl in
    let room : p + length f.header + length f.payload ≤ length buf = omega (
      arith,
      ap (length {A = ℕ}) hb,
      length-append before (f.header ++ (f.payload ++ rest)),
      length-append f.header (f.payload ++ rest),
      length-append f.payload rest,
    ) in
    rw (← v.header_length) (
      rw hdr (
        ground (
          arith,
          v.payload_pos,
          tags_frame_lem major buf (p + length f.header) tags f v whole room,
        )))

byte_at-take : (n : ℕ) (xs : Bytes) → 0 < n → byte_at (take n xs) 0 ≡ byte_at xs 0
byte_at-take zero xs h = elim h [ ]
byte_at-take (suc n) [] h = refl
byte_at-take (suc n) (x ∷ xs) h = refl

byte_at-slice :
    {p : ℕ} (buf before tail : Bytes) (n : ℕ)
    → buf ≡ before ++ tail
    → p ≡ length before
    → 0 < n
    → byte_at (slice buf p (p + n)) 0 ≡ byte_at tail 0
byte_at-slice {p} buf before tail n hb hp h =
    byte_at-take (p + n - p) (drop p buf) (omega arith)
    ∙ ap (λ xs. byte_at (drop p xs) 0) hb
    ∙ ap (λ k. byte_at (drop k (before ++ tail)) 0) hp
    ∙ ap (λ xs. byte_at xs 0) (drop-append before tail)

tags_round_tail :
    (major raw p : ℕ) (buf before tail : Bytes) (tags : Id3Tags)
    → IsTail major tail
    → buf ≡ before ++ tail
    → p ≡ length before
    → tags_round buf major raw p tags ≡ halt tags
unfolding tags_round tags_frame
tags_round_tail major raw p buf before tail tags t hb hp = ground (
  arith,
  frame_hdr_len_pos major,
  byte_at-slice {p = p} buf before tail (frame_hdr_len major) hb hp,
  ap (length {A = ℕ}) hb,
  length-append before tail,
)

scan-body_bytes :
    (major raw : ℕ) (fs : List Frame) (fuel p : ℕ) (buf before tail : Bytes) (tags : Id3Tags)
    → All (IsFrame major) fs
    → IsTail major tail
    → buf ≡ before ++ body_bytes fs tail
    → p ≡ length before
    → length buf ≤ raw
    → length buf < fuel + p
    → p ≤ length buf
    → scan (tags_round buf major raw) fuel p tags ≡ some (apply_frames major tags fs)
unfolding scan body_bytes apply_frames
scan-body_bytes major raw fs zero p buf before tail tags v t hb hp hr hf hl = absurd (omega arith)
scan-body_bytes major raw [] (suc fuel) p buf before tail tags v t hb hp hr hf hl =
    rw (tags_round_tail major raw p buf before tail tags t hb hp, scan) refl
scan-body_bytes major raw (f ∷ fs) (suc fuel) p buf before tail tags v t hb hp hr hf hl =
    let rest = body_bytes fs tail in
    let before' = before ++ (f.header ++ f.payload) in
    let split : buf ≡ before' ++ rest =
      hb
      ∙ ap (◌++◌ before) (sym (append_assoc f.header f.payload rest))
      ∙ sym (append_assoc before (f.header ++ f.payload) rest) in
    let p' = p + length f.header + length f.payload in
    let at_end : p' ≡ length before' =
      omega
        (arith, length-append before (f.header ++ f.payload), length-append f.header f.payload) in
    rw (tags_round_frame major raw p buf before rest tags f v.0 hb hp hr, scan)
      (scan-body_bytes major raw fs fuel p' buf before' tail (apply_frame major tags f) v.1 t split
        at_end hr (omega (arith, (v.0).payload_pos))
        (omega (arith, ap (length {A = ℕ}) split, length-append before' rest)))

-- A tag body that is a row of frames, with padding or less than a frame header behind them, is
-- parsed to what the frames give in their order, in every version of the format, if no extended
-- header is flagged and the declared size covers the body.
pub parse_id3v2_frames-body_bytes :
    (major raw flags : ℕ) (fs : List Frame) (tail : Bytes)
    → All (IsFrame major) fs
    → IsTail major tail
    → bit_and flags 0x40 ≡ 0
    → length (body_bytes fs tail) ≤ raw
    → parse_id3v2_frames (body_bytes fs tail) major raw flags ≡ some (apply_frames major no_tags fs)
unfolding parse_id3v2_frames frames_start
parse_id3v2_frames-body_bytes major raw flags fs tail v t plain room = rw plain (
    scan-body_bytes major raw fs (suc (length (body_bytes fs tail))) 0 (body_bytes fs tail) [] tail
      no_tags v t refl refl room (omega arith) (omega arith))
