-- ===== src/Tests/Wav.antt =====
-- Slicing of small WAV files.
use preamp.Base.{
  ℕ, [], ◌∷◌, ◌++◌, some, none, Option, ◌≡◌, refl, arith, slice, length, ◌<◌, All, Option,
}
use preamp.Base.Endian.{put_le32}
use preamp.Base.Text.{Bytes, codes}
use preamp.Slice.Wav.{WavChunks, SampleRange, wav_chunks, slice_wav}
use preamp.Slice.Response.{Sliced}
use preamp.Slice.Wav.Output.{slice_wav-wav_chunks, written}

-- One channel of 16 bits at 8 samples a second.
abbrev format : Bytes
format = 1 ∷ 0 ∷ 1 ∷ 0 ∷ put_le32 8 ++ put_le32 16 ++ (2 ∷ 0 ∷ 16 ∷ 0 ∷ [])

abbrev wav_file : Bytes
wav_file =
    codes "RIFF"
    ++ put_le32 44
    ++ codes "WAVE"
    ++ codes "fmt "
    ++ put_le32 16
    ++ format
    ++ codes "data"
    ++ put_le32 8
    ++ (1 ∷ 2 ∷ 3 ∷ 4 ∷ 5 ∷ 6 ∷ 7 ∷ 8 ∷ [])

abbrev chunks : WavChunks
chunks = record {
  fmt_data = some format;
  data_offset = 44;
  data_size = 8;
  sample_rate = 8;
  block_align = 2;
}

-- From sample 1 to sample 3.
abbrev one_to_three : SampleRange
one_to_three size rate align = some (1, 3)

read_chunks : wav_chunks wav_file 52 ≡ some (some chunks)
unfolding wav_chunks preamp.Slice.Wav.has_riff preamp.Base.Endian.read_full
    preamp.Base.Text.bytes_eq preamp.Base.Scan.scan preamp.Slice.Wav.wav_round
    preamp.Slice.Wav.wav_chunk preamp.Base.Endian.le32 preamp.Slice.Wav.has_both
    preamp.Slice.Wav.next_chunk preamp.Base.Endian.le16
read_chunks = refl

slice_wav-wav_chunks_example :
    (s : Sliced) × (slice_wav one_to_three wav_file 52 ≡ some (some s))
    × (length s.body ≡ s.content_length)
    × (wav_chunks s.body (length s.body) ≡ some (some (written format 4)))
    × (slice s.body 44 48 ≡ slice wav_file 46 50)
slice_wav-wav_chunks_example =
    slice_wav-wav_chunks one_to_three wav_file 52 chunks format 1 3 (ground arith) read_chunks refl
      refl (omega arith) (omega arith) refl (omega arith)

-- A format chunk of 17 bytes with its padding byte: sliceWAV reads it and writes it without one.
abbrev odd_file : Bytes
odd_file =
    codes "RIFF"
    ++ put_le32 44
    ++ codes "WAVE"
    ++ codes "fmt "
    ++ put_le32 17
    ++ format
    ++ (0 ∷ 0 ∷ [])
    ++ codes "data"
    ++ put_le32 8
    ++ (1 ∷ 2 ∷ 3 ∷ 4 ∷ 5 ∷ 6 ∷ 7 ∷ 8 ∷ [])

abbrev reread_slice : Bytes → ℕ → Option (Option ℕ)
reread_slice file n = elim (slice_wav one_to_three file n) [
  | none ↦ none
  | some none ↦ none
  | some (some s) ↦ elim (wav_chunks s.body (length s.body)) [
    | none ↦ none
    | some none ↦ some none
    | some (some c) ↦ some (some c.data_size)
  ]
]

even_reread : reread_slice wav_file 52 ≡ some (some 4)
unfolding slice_wav wav_chunks preamp.Slice.Wav.has_riff preamp.Base.Endian.read_full
    preamp.Base.Text.bytes_eq preamp.Base.Scan.scan preamp.Slice.Wav.wav_round
    preamp.Slice.Wav.wav_chunk preamp.Base.Endian.le32 preamp.Slice.Wav.has_both
    preamp.Slice.Wav.next_chunk preamp.Slice.Wav.slice_chunks preamp.Base.Endian.le16
    preamp.Slice.Wav.write_wav
even_reread = refl

odd_reread : reread_slice odd_file 54 ≡ some (some 0)
unfolding slice_wav wav_chunks preamp.Slice.Wav.has_riff preamp.Base.Endian.read_full
    preamp.Base.Text.bytes_eq preamp.Base.Scan.scan preamp.Slice.Wav.wav_round
    preamp.Slice.Wav.wav_chunk preamp.Base.Endian.le32 preamp.Slice.Wav.has_both
    preamp.Slice.Wav.next_chunk preamp.Slice.Wav.slice_chunks preamp.Base.Endian.le16
    preamp.Slice.Wav.write_wav
odd_reread = refl
