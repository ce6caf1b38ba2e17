-- ===== src/Slice/Mp3.antt =====
-- parseMP3Info of internal/api/slice.go. `none` is an error.
pub mod Duration
use preamp.Base.{
  ℕ, zero, suc, ◌+◌, ◌-◌, ◌/◌, ◌%◌, Bool, not, ◌&&◌, ◌||◌, List, [], ◌∷◌, Option, none, some, ltb,
  leb, ◌==◌, if◌then◌else◌, length, take, drop, slice, get_or,
}
use preamp.Base.Bits.{be32, syncsafe}
use preamp.Base.Text.{Bytes, codes, byte_at, bytes_eq}
use preamp.Duration.{FrameInfo}
use Prim.Native.Nat.{bit_and, min}

abbrev pub slice_bitrate_v1 : List ℕ
slice_bitrate_v1 =
    0 ∷ 32 ∷ 40 ∷ 48 ∷ 56 ∷ 64 ∷ 80 ∷ 96 ∷ 112 ∷ 128 ∷ 160 ∷ 192 ∷ 224 ∷ 256 ∷ 320 ∷ 0 ∷ []

abbrev pub slice_bitrate_v2 : List ℕ
slice_bitrate_v2 =
    0 ∷ 8 ∷ 16 ∷ 24 ∷ 32 ∷ 40 ∷ 48 ∷ 56 ∷ 64 ∷ 80 ∷ 96 ∷ 112 ∷ 128 ∷ 144 ∷ 160 ∷ 0 ∷ []

abbrev pub slice_sample_rate_v1 : List ℕ
slice_sample_rate_v1 = 44100 ∷ 48000 ∷ 32000 ∷ 0 ∷ []

abbrev pub slice_sample_rate_v2 : List ℕ
slice_sample_rate_v2 = 22050 ∷ 24000 ∷ 16000 ∷ 0 ∷ []

abbrev pub slice_sample_rate_v25 : List ℕ
slice_sample_rate_v25 = 11025 ∷ 12000 ∷ 8000 ∷ 0 ∷ []

abbrev pub slice_max_sync : ℕ
slice_max_sync = 65536

-- `toc` is none unless hasTOC is set; totalDuration is left out.
pub record Mp3FrameInfo : Type 0 where
  pub audio_start : ℕ
  pub bitrate : ℕ
  pub sample_rate : ℕ
  pub samples_per_frame : ℕ
  pub total_frames : ℕ
  pub toc : Option Bytes
  pub audio_bytes : ℕ

-- The header's checks and tables; `none` is a `continue`.
unfoldable pub slice_frame : ℕ → ℕ → ℕ → ℕ → Option FrameInfo
slice_frame b0 b1 b2 b3 =
    let version = b1 / 8 % 4 in
    let bitrate_idx = b2 / 16 % 16 in
    let sample_rate_idx = b2 / 4 % 4 in
    let mono = b3 / 64 % 4 == 3 in
    if not (b0 == 0xFF) || not (bit_and b1 0xE0 == 0xE0)
    then none
    else if version == 1 || not (b1 / 2 % 4 == 1)
    then none
    else if bitrate_idx == 0 || bitrate_idx == 15 || sample_rate_idx == 3
    then none
    else if version == 3
    then some (record {
      bitrate = get_or slice_bitrate_v1 bitrate_idx 0;
      sample_rate = get_or slice_sample_rate_v1 sample_rate_idx 0;
      samples_per_frame = 1152;
      xing_off = if mono then 17 + 4 else 32 + 4;
    })
    else some (record {
      bitrate = get_or slice_bitrate_v2 bitrate_idx 0;
      sample_rate =
          if version == 2
          then get_or slice_sample_rate_v2 sample_rate_idx 0
          else get_or slice_sample_rate_v25 sample_rate_idx 0;
      samples_per_frame = 576;
      xing_off = if mono then 9 + 4 else 17 + 4;
    })

-- Whether there is a Xing or Info tag at the index.
unfoldable pub has_xing : Bytes → ℕ → Bool
has_xing chunk xing_idx =
    let tag = slice chunk xing_idx (xing_idx + 4) in
    leb (xing_idx + 12) (length chunk)
    && (bytes_eq tag (codes "Xing") || bytes_eq tag (codes "Info"))

-- `flags&0x01 != 0`, `flags&0x02 != 0`, `flags&0x04 != 0`.
unfoldable pub has_flag : ℕ → ℕ → Bool
has_flag flags bit = not (flags / bit % 2 == 0)

unfoldable pub xing_toc : Bytes → ℕ → Option Bytes
xing_toc chunk xing_idx =
    let flags = be32 chunk (xing_idx + 4) in
    let toc_off =
      xing_idx + 8 + (if has_flag flags 1 then 4 else 0) + (if has_flag flags 2 then 4 else 0) in
    if has_flag flags 4 && leb (toc_off + 100) (length chunk)
    then some (slice chunk toc_off (toc_off + 100))
    else none

unfoldable pub mp3_info : ℕ → ℕ → Bytes → ℕ → FrameInfo → Mp3FrameInfo
mp3_info file_size audio_offset chunk i f =
    let xing_idx = i + f.xing_off in
    record {
      audio_start = audio_offset + i;
      bitrate = f.bitrate;
      sample_rate = f.sample_rate;
      samples_per_frame = f.samples_per_frame;
      total_frames =
          if has_xing chunk xing_idx && has_flag (be32 chunk (xing_idx + 4)) 1
          then be32 chunk (xing_idx + 8)
          else 0;
      toc = if has_xing chunk xing_idx then xing_toc chunk xing_idx else none;
      audio_bytes = file_size - (audio_offset + i);
    }

-- `for i := 0; i < len(chunk)-4; i++`, by the rounds that are left.
unfoldable pub search_info : ℕ → ℕ → Bytes → ℕ → ℕ → Option Mp3FrameInfo
search_info file_size audio_offset chunk zero i = none
search_info file_size audio_offset chunk (suc rounds) i =
    elim (slice_frame (byte_at chunk i) (byte_at chunk (i + 1)) (byte_at chunk (i + 2))
      (byte_at chunk (i + 3))) [
        | none ↦ search_info file_size audio_offset chunk rounds (i + 1)
        | some f ↦ some (mp3_info file_size audio_offset chunk i f)
      ]

unfoldable pub audio_offset_of : Bytes → ℕ
audio_offset_of file =
    if byte_at file 0 == b'I' && byte_at file 1 == b'D' && byte_at file 2 == b'3'
    then syncsafe (byte_at file 6) (byte_at file 7) (byte_at file 8) (byte_at file 9) + 10
    else 0

unfoldable pub parse_mp3_info : Bytes → ℕ → Option Mp3FrameInfo
parse_mp3_info file file_size =
    let audio_offset = audio_offset_of file in
    let chunk_size = min (slice_max_sync + 256) (file_size - audio_offset) in
    let chunk = take chunk_size (drop audio_offset file) in
    if ltb (length file) 10
    then none
    else if leb chunk_size 4
    then none
    else if ltb (length chunk) 4
    then none
    else search_info file_size audio_offset chunk (length chunk - 4) 0
