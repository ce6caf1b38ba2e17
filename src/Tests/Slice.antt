-- ===== src/Tests/Slice.antt =====
-- Slicing of a small MP3 file and of a FLAC seek table.
use preamp.Base.{ℕ, ◌≤◌, ◌<◌, ◌*◌, List, [], ◌∷◌, ◌++◌, none, some, ◌≡◌, ◌↔◌, refl, arith, inl, inr}
use preamp.Base.Text.{Bytes, codes}
use preamp.Duration.{failed, parsed, divide, average_bitrate, parse_mp3_duration}
use preamp.Slice.Mp3.{Mp3FrameInfo, parse_mp3_info}
use preamp.Slice.Mp3.Duration.{parse_mp3_info_iff, parse_mp3_info-frames}
use preamp.Slice.SeekPoints.{FlacSeekPoint, placeholder, seek_point_floor, seek_point_ceil}
use preamp.Slice.SeekPoints.Range.{
  IsAscending, last_offset, seek_point_floor-le, seek_point_floor-eq-last_offset,
}

abbrev zeros : List ℕ
zeros = 0 ∷ 0 ∷ 0 ∷ 0 ∷ 0 ∷ 0 ∷ 0 ∷ 0 ∷ []

-- A frame header of MPEG-1 at 128 kbit/s, and a Xing tag with 100 frames.
abbrev file : Bytes
file =
    0xFF ∷ 0xFB ∷ 0x90 ∷ 0 ∷ zeros
    ++ zeros
    ++ zeros
    ++ zeros
    ++ codes "Xing"
    ++ (0 ∷ 0 ∷ 0 ∷ 1 ∷ 0 ∷ 0 ∷ 0 ∷ 100 ∷ [])

abbrev info : Mp3FrameInfo
info = record {
  audio_start = 0;
  bitrate = 128;
  sample_rate = 44100;
  samples_per_frame = 1152;
  total_frames = 100;
  toc = none;
  audio_bytes = 48;
}

parsed_info : parse_mp3_info file 48 ≡ some info
unfolding parse_mp3_info preamp.Slice.Mp3.audio_offset_of preamp.Slice.Mp3.search_info
    preamp.Slice.Mp3.slice_frame preamp.Slice.Mp3.mp3_info preamp.Slice.Mp3.has_xing
    preamp.Base.Text.bytes_eq preamp.Slice.Mp3.has_flag preamp.Slice.Mp3.xing_toc
    preamp.Base.Bits.be32
parsed_info = refl

parse_mp3_info_iff_example :
    (parse_mp3_info file 48 ≡ none) ↔ (parse_mp3_duration file 48 0 ≡ failed)
parse_mp3_info_iff_example = parse_mp3_info_iff file 48

parsed_frames :
    parse_mp3_duration file 48 0
    ≡ divide (100 * 1152) 44100 (λ dur. parsed dur (average_bitrate 48 dur))
parsed_frames = parse_mp3_info-frames file 48 info parsed_info (omega arith)

abbrev points : List FlacSeekPoint
points =
    record { sample_number = 0; byte_offset = 0; num_samples = 4096 }
    ∷ record { sample_number = 44100; byte_offset = 9000; num_samples = 4096 }
    ∷ record { sample_number = placeholder; byte_offset = 0; num_samples = 0 }
    ∷ []

points-IsAscending : IsAscending points
points-IsAscending = (
  ((omega arith, inr (omega arith)), ((omega arith, inl refl), tt)),
  (((omega arith, inl refl), tt), (tt, tt)),
)

seek_range : seek_point_floor points 50000 ≤ seek_point_ceil points 60000 20000
seek_range =
    seek_point_floor-le points 50000 60000 20000 (omega arith) points-IsAscending
      (inr (omega arith), (inr (omega arith), (inl refl, tt)))

seek_start : seek_point_floor points 50000 ≡ last_offset 0 points 50000
seek_start = seek_point_floor-eq-last_offset points 50000 points-IsAscending
