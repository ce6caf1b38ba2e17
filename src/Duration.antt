-- ===== src/Duration.antt =====
-- internal/scanner/duration.go: the duration and the bitrate of MP3 and FLAC files from their
-- headers. A file is its bytes, and `file_size` is what Stat says of it. ffprobe is a parameter.
pub mod Search
pub mod Flac
use Prim.Native.Nat.{bit_and, bit_or, min}
use preamp.Base.{
  ℕ, zero, suc, ◌+◌, ◌-◌, ◌*◌, ◌/◌, ◌%◌, ◌^◌, ◌≤◌, ◌<◌, Bool, true, false, not, ◌&&◌, ◌||◌, List,
  [], ◌∷◌, ◌++◌, ltb, drop, take, leb, ◌==◌, if◌then◌else◌, length, slice, ◌≡◌, Option, none, some,
  get_or,
}
use preamp.Base.Bits.{be32, syncsafe}
use preamp.Base.Text.{Bytes, byte_at, bytes_eq, codes}

-- Seconds and kbit/s, an error value, or the run-time panic of an integer division by zero.
pub data Parsed : Type 0 where
  parsed : ℕ → ℕ → Parsed
  failed : Parsed
  panicked : Parsed

abbrev pub max_sync_search_bytes : ℕ
max_sync_search_bytes = 65536

abbrev pub bitrate_table_v1 : List ℕ
bitrate_table_v1 =
    0 ∷ 32 ∷ 40 ∷ 48 ∷ 56 ∷ 64 ∷ 80 ∷ 96 ∷ 112 ∷ 128 ∷ 160 ∷ 192 ∷ 224 ∷ 256 ∷ 320 ∷ 0 ∷ []

abbrev pub bitrate_table_v2 : List ℕ
bitrate_table_v2 =
    0 ∷ 8 ∷ 16 ∷ 24 ∷ 32 ∷ 40 ∷ 48 ∷ 56 ∷ 64 ∷ 80 ∷ 96 ∷ 112 ∷ 128 ∷ 144 ∷ 160 ∷ 0 ∷ []

abbrev pub sample_rate_table_v1 : List ℕ
sample_rate_table_v1 = 44100 ∷ 48000 ∷ 32000 ∷ 0 ∷ []

abbrev pub sample_rate_table_v2 : List ℕ
sample_rate_table_v2 = 22050 ∷ 24000 ∷ 16000 ∷ 0 ∷ []

abbrev pub sample_rate_table_v25 : List ℕ
sample_rate_table_v25 = 11025 ∷ 12000 ∷ 8000 ∷ 0 ∷ []

-- What the loop's body reads off a frame header.
pub record FrameInfo : Type 0 where
  pub bitrate : ℕ
  pub sample_rate : ℕ
  pub samples_per_frame : ℕ
  pub xing_off : ℕ

abbrev pub frame_version : ℕ → ℕ
frame_version b1 = b1 / 8 % 4

abbrev pub frame_layer : ℕ → ℕ
frame_layer b1 = b1 / 2 % 4

abbrev pub bitrate_index : ℕ → ℕ
bitrate_index b2 = b2 / 16 % 16

abbrev pub sample_rate_index : ℕ → ℕ
sample_rate_index b2 = b2 / 4 % 4

-- The tables and parameters that the MPEG version selects; `mono` is `channelMode == 3`.
unfoldable pub frame_info : ℕ → ℕ → ℕ → Bool → FrameInfo
frame_info version bitrate_idx sample_rate_idx mono =
    if version == 3
    then record {
      bitrate = get_or bitrate_table_v1 bitrate_idx 0;
      sample_rate = get_or sample_rate_table_v1 sample_rate_idx 0;
      samples_per_frame = 1152;
      xing_off = if mono then 17 + 4 else 32 + 4;
    }
    else record {
      bitrate = get_or bitrate_table_v2 bitrate_idx 0;
      sample_rate =
          if version == 2
          then get_or sample_rate_table_v2 sample_rate_idx 0
          else get_or sample_rate_table_v25 sample_rate_idx 0;
      samples_per_frame = 576;
      xing_off = if mono then 9 + 4 else 17 + 4;
    }

-- `none` is a `continue` of the loop.
unfoldable pub frame_at : ℕ → ℕ → ℕ → ℕ → Option FrameInfo
frame_at b0 b1 b2 b3 =
    if not (b0 == 0xFF) || not (bit_and b1 0xE0 == 0xE0)
    then none
    else if frame_version b1 == 1 || not (frame_layer b1 == 1)
    then none
    else if bitrate_index b2 == 0 || bitrate_index b2 == 15 || sample_rate_index b2 == 3
    then none
    else some
        (frame_info (frame_version b1) (bitrate_index b2) (sample_rate_index b2) (b3 / 64 % 4 == 3))

-- `int(fileSize*8/1000) / dur`, where the duration is not 0.
abbrev pub average_bitrate : ℕ → ℕ → ℕ
average_bitrate file_size dur = if ltb 0 dur then file_size * 8 / 1000 / dur else 0

-- A division `a / b` of integers, and what is done with it.
abbrev pub divide : ℕ → ℕ → (ℕ → Parsed) → Parsed
divide a b k = if b == 0 then panicked else k (a / b)

-- `tag == "Xing" || tag == "Info"` and `flags&0x01 != 0`, inside the chunk.
unfoldable pub has_frame_count : Bytes → ℕ → Bool
has_frame_count chunk xing_idx =
    let tag = slice chunk xing_idx (xing_idx + 4) in
    leb (xing_idx + 12) (length chunk)
    && ((bytes_eq tag (codes "Xing") || bytes_eq tag (codes "Info"))
        && not (be32 chunk (xing_idx + 4) % 2 == 0))

-- The body of the loop behind the header's checks: the Xing frame count, or the CBR estimate.
unfoldable pub measure_frame : ℕ → ℕ → Bytes → ℕ → FrameInfo → Parsed
measure_frame file_size audio_offset chunk i f =
    if has_frame_count chunk (i + f.xing_off)
    then divide (be32 chunk (i + f.xing_off + 8) * f.samples_per_frame) f.sample_rate
        (λ dur. parsed dur (average_bitrate file_size dur))
    else divide ((file_size - (audio_offset + i)) * 8) f.bitrate
        (λ bits. parsed (bits / 1000) f.bitrate)

-- `for i := 0; i < len(chunk)-4; i++`, by the rounds that are left.
unfoldable pub search_frame : ℕ → ℕ → Bytes → ℕ → ℕ → Parsed
search_frame file_size audio_offset chunk zero i = failed
search_frame file_size audio_offset chunk (suc rounds) i =
    elim (frame_at (byte_at chunk i) (byte_at chunk (i + 1)) (byte_at chunk (i + 2))
      (byte_at chunk (i + 3))) [
        | none ↦ search_frame file_size audio_offset chunk rounds (i + 1)
        | some f ↦ measure_frame file_size audio_offset chunk i f
      ]

-- The chunk that is read at the offset; `chunkSize <= 4` and a short read are errors.
unfoldable pub search_chunk : Bytes → ℕ → ℕ → Parsed
search_chunk file file_size audio_offset =
    let chunk_size = min (max_sync_search_bytes + 256) (file_size - audio_offset) in
    let chunk = take chunk_size (drop audio_offset file) in
    if leb chunk_size 4
    then failed
    else if ltb (length chunk) 4
    then failed
    else search_frame file_size audio_offset chunk (length chunk - 4) 0

abbrev pub has_id3 : Bytes → Bool
has_id3 file = byte_at file 0 == b'I' && byte_at file 1 == b'D' && byte_at file 2 == b'3'

-- An offset of 0 is unknown: it is found from an ID3v2 header, if there is one.
unfoldable pub parse_mp3_duration : Bytes → ℕ → ℕ → Parsed
parse_mp3_duration file file_size audio_offset =
    if leb audio_offset 0
    then (if ltb (length file) 10
        then failed
        else search_chunk file file_size (
            if has_id3 file
            then syncsafe (byte_at file 6) (byte_at file 7) (byte_at file 8) (byte_at file 9) + 10
            else audio_offset))
    else search_chunk file file_size audio_offset

-- The sample rate (20 bits) and the number of samples (36 bits) of a STREAMINFO block.
unfoldable pub flac_sample_rate : Bytes → ℕ
flac_sample_rate si =
    bit_or (bit_or (byte_at si 10 * 2 ^ 12) (byte_at si 11 * 2 ^ 4)) (byte_at si 12 / 2 ^ 4)

unfoldable pub flac_total_samples : Bytes → ℕ
flac_total_samples si =
    bit_or
      (bit_or
        (bit_or (bit_or (byte_at si 13 % 16 * 2 ^ 32) (byte_at si 14 * 2 ^ 24))
          (byte_at si 15 * 2 ^ 16))
        (byte_at si 16 * 2 ^ 8))
      (byte_at si 17)

unfoldable pub parse_flac_duration : Bytes → ℕ → Parsed
parse_flac_duration file file_size =
    let si = slice file 8 42 in
    if ltb (length file) 4
    then failed
    else if not (bytes_eq (take 4 file) (codes "fLaC"))
    then failed
    else if ltb (length file) 8
    then failed
    else if not (byte_at file 4 % 128 == 0)
    then failed
    else if ltb (length file) 42
    then failed
    else if flac_sample_rate si == 0
    then failed
    else divide (flac_total_samples si) (flac_sample_rate si)
        (λ dur. parsed dur (average_bitrate file_size dur))

-- `err == nil && d > 0`.
abbrev pub accept : Parsed → Option (ℕ × ℕ)
accept (parsed d br) = if ltb 0 d then some (d, br) else none
accept failed = none
accept panicked = none

-- The fallback runs ffprobe, whose answer is `ffprobe`.
abbrev fallback : Parsed → ℕ × ℕ
fallback answer = elim (accept answer) [ none ↦ (0, 0) | some r ↦ r ]

-- `none` is a panic, which readTrack recovers from.
unfoldable pub parse_duration : Bytes → ℕ → ℕ → Bytes → Parsed → Option (ℕ × ℕ)
parse_duration file file_size audio_offset ext ffprobe =
    let native : Parsed =
      if bytes_eq ext (codes ".mp3")
      then parse_mp3_duration file file_size audio_offset
      else if bytes_eq ext (codes ".flac")
      then parse_flac_duration file file_size
      else failed in
    elim native [
      | panicked ↦ none
      | parsed d br ↦ some (if ltb 0 d then (d, br) else fallback ffprobe)
      | failed ↦ some (fallback ffprobe)
    ]
