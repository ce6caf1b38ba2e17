-- ===== src/Tests/Duration.antt =====
-- internal/scanner/duration.go on concrete headers.
use preamp.Base.{◌/◌, [], ◌∷◌, ◌++◌, ◌≡◌, refl, arith}
use preamp.Base.Text.{Bytes, codes}
use preamp.Duration.Flac.{flac_file, stream_fields, parse_flac_duration_lem}
use preamp.Duration.Search.{Within, Searched, parse_mp3_duration-Within, search_frame-Searched}
use preamp.Duration.{
  parsed, average_bitrate, parse_mp3_duration, parse_flac_duration, search_frame, frame_at,
  frame_info, search_chunk, measure_frame, has_frame_count,
}

-- Junk, and then an MPEG1 Layer III header at 128 kbit/s and 44.1 kHz.
abbrev clip : Bytes
clip = codes "junkjunkjunk" ++ (0xFF ∷ 0xFB ∷ 0x90 ∷ 0x00 ∷ 0 ∷ 0 ∷ 0 ∷ 0 ∷ [])

clip-parsed : parse_mp3_duration clip 32000012 0 ≡ parsed 2000 128
unfolding parse_mp3_duration search_chunk search_frame frame_at frame_info measure_frame
    has_frame_count
clip-parsed = refl

parse_mp3_duration-Within_example : Within 32000012 (parse_mp3_duration clip 32000012 0)
parse_mp3_duration-Within_example = parse_mp3_duration-Within clip 32000012 0

clip-Searched : Searched 32000012 0 clip 0 16 (search_frame 32000012 0 clip 16 0)
clip-Searched = search_frame-Searched 32000012 0 clip 16 0

abbrev sizes : Bytes
sizes = 16 ∷ 0 ∷ 16 ∷ 0 ∷ 0 ∷ 0 ∷ 0 ∷ 0 ∷ 0 ∷ 0 ∷ []

abbrev md5 : Bytes
md5 = codes "0123456789abcdef"

parse_flac_duration_lem_example :
    parse_flac_duration
      (flac_file 128 (sizes ++ stream_fields 44100 66 441000 md5) (codes ".."))
      90000
    ≡ parsed (441000 / 44100) (average_bitrate 90000 (441000 / 44100))
parse_flac_duration_lem_example =
    parse_flac_duration_lem 128 44100 66 441000 90000 sizes md5 (codes "..") refl refl refl
      (omega arith) (omega arith) (omega arith) (omega arith)
