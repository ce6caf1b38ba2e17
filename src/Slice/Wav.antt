-- ===== src/Slice/Wav.antt =====
-- sliceWAV of internal/api/slice.go. The times are floats, so the samples of a request are an
-- argument (SampleRange). The response is its Content-Length and its body.
pub mod Format
pub mod Output
use preamp.Base.{
  ℕ, zero, suc, ◌+◌, ◌-◌, ◌*◌, ◌%◌, ◌^◌, Bool, true, false, not, ◌&&◌, ◌||◌, List, [], ◌∷◌, ◌++◌,
  Option, none, some, ltb, leb, ◌==◌, if◌then◌else◌, length, take, slice,
}
use preamp.Base.Endian.{le16, le32, put_le32, read_full}
use preamp.Base.Scan.{Round, halt, more, scan}
use preamp.Base.Text.{Bytes, codes, bytes_eq}
use preamp.Slice.Response.{Sliced}
use Prim.Native.Nat.{min}

-- For dataSize, sampleRate and blockAlign: `none` if startTime >= endTime, or else the two numbers
-- `int64(startTime*float64(sampleRate))` and `int64(endTime*float64(sampleRate))`, endTime cut at
-- totalDuration. Neither is negative, and their products with blockAlign are in the range of int64.
abbrev pub SampleRange : Type 0
SampleRange = ℕ → ℕ → ℕ → Option (ℕ × ℕ)

-- The variables of the loop; `fmt_data` is none while fmtData is nil.
pub record WavChunks : Type 0 where
  pub fmt_data : Option Bytes
  pub data_offset : ℕ
  pub data_size : ℕ
  pub sample_rate : ℕ
  pub block_align : ℕ

abbrev pub no_chunks : WavChunks
no_chunks = record {
  fmt_data = none;
  data_offset = 0;
  data_size = 0;
  sample_rate = 0;
  block_align = 0;
}

abbrev pub with_format : Bytes → WavChunks → WavChunks
with_format fmt c = record {
  fmt_data = some fmt;
  data_offset = c.data_offset;
  data_size = c.data_size;
  sample_rate = le32 fmt 4;
  block_align = le16 fmt 12;
}

abbrev pub with_data : ℕ → ℕ → WavChunks → WavChunks
with_data offset size c = record {
  fmt_data = c.fmt_data;
  data_offset = offset;
  data_size = size;
  sample_rate = c.sample_rate;
  block_align = c.block_align;
}

-- The switch on the chunk's ID; `none` is `return false`.
unfoldable pub wav_chunk : Bytes → ℕ → Bytes → WavChunks → Option WavChunks
wav_chunk file pos ch c =
    let size = le32 ch 4 in
    if bytes_eq (take 4 ch) (codes "fmt ")
    then (if ltb size 16 || ltb 1024 size then none else elim (read_full file (pos + 8) size) [
      | none ↦ none
      | some fmt ↦ some (with_format fmt c)
    ])
    else if bytes_eq (take 4 ch) (codes "data")
    then some (with_data (pos + 8) size c)
    else some c

-- `fmtData != nil && dataOffset > 0`.
unfoldable pub has_both : WavChunks → Bool
has_both c = elim c.fmt_data [ none ↦ false | some fmt ↦ ltb 0 c.data_offset ]

-- The position behind a chunk, which is padded to an even size.
unfoldable pub next_chunk : ℕ → ℕ → ℕ
next_chunk pos size = if size % 2 == 0 then pos + (8 + size) else pos + (8 + size) + 1

unfoldable pub wav_round : Bytes → ℕ → ℕ → Option WavChunks → Round (Option WavChunks)
wav_round file file_size pos none = halt none
wav_round file file_size pos (some c) =
    if not (ltb (pos + 8) file_size) then halt (some c) else elim (read_full file pos 8) [
      | none ↦ halt (some c)
      | some ch ↦ elim (wav_chunk file pos ch c) [
        | none ↦ halt none
        | some d ↦ if has_both d then halt (some d) else more (next_chunk pos (le32 ch 4)) (some d)
      ]
    ]

-- `io.ReadFull` of the header, and its two tests.
unfoldable pub has_riff : Bytes → Bool
has_riff file = elim (read_full file 0 12) [
  | none ↦ false
  | some riff ↦ bytes_eq (take 4 riff) (codes "RIFF") && bytes_eq (slice riff 8 12) (codes "WAVE")
]

-- The header and the loop, with one round for each byte of the file.
unfoldable pub wav_chunks : Bytes → ℕ → Option (Option WavChunks)
wav_chunks file file_size =
    if has_riff file
    then scan (wav_round file file_size) (suc file_size) 12 (some no_chunks)
    else some none

-- The headers that are written for a format chunk of `fmt` and a data chunk of `size` bytes.
abbrev pub wav_header : Bytes → ℕ → Bytes
wav_header fmt size =
    let riff_size = (12 + 8 + length fmt + 8 + size - 8) % 2 ^ 32 in
    (codes "RIFF" ++ put_le32 riff_size ++ codes "WAVE")
    ++ (codes "fmt " ++ put_le32 (length fmt))
    ++ fmt
    ++ (codes "data" ++ put_le32 (size % 2 ^ 32))

-- The bytes of the data chunk from one sample to another.
unfoldable pub write_wav : Bytes → WavChunks → Bytes → ℕ → ℕ → Option Sliced
write_wav file c fmt start_sample end_sample =
    let start_byte = start_sample * c.block_align in
    let end_byte = min (end_sample * c.block_align) c.data_size in
    let size = end_byte - start_byte in
    let from = c.data_offset + start_byte in
    if leb end_byte start_byte
    then none
    else some (record {
      content_length = 12 + 8 + length fmt + 8 + size;
      body = wav_header fmt size ++ slice file from (from + size);
    })

-- What follows the loop. Without a format chunk, the sample rate is 0.
unfoldable pub slice_chunks : SampleRange → Bytes → Option WavChunks → Option Sliced
slice_chunks range file none = none
slice_chunks range file (some c) =
    if c.sample_rate == 0 || (c.block_align == 0 || c.data_size == 0)
    then none
    else elim c.fmt_data [
      | none ↦ none
      | some fmt ↦ elim (range c.data_size c.sample_rate c.block_align) [
        | none ↦ none
        | some (start_sample, end_sample) ↦ write_wav file c fmt start_sample end_sample
      ]
    ]

-- The outer `none` means that the loop ran out of rounds, the inner one is `return false`.
unfoldable pub slice_wav : SampleRange → Bytes → ℕ → Option (Option Sliced)
slice_wav range file file_size = elim (wav_chunks file file_size) [
  | none ↦ none
  | some found ↦ some (slice_chunks range file found)
]
