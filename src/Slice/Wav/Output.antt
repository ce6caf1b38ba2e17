-- ===== src/Slice/Wav/Output.antt =====
-- What sliceWAV writes, read back by its own loop.
use mathlib.Core.Path.{subst}
use Prim.Native.Nat.{min}
use preamp.Base.Scan.{scan-more, scan-halt}
use preamp.Base.Endian.{
  read_full, put_le32, read_full-append, le32, le32-put_le32, length-slice, slice-append,
}
use preamp.Base.{
  ℕ, ◌≤◌, ◌+◌, length, ◌<◌, ◌^◌, Option, ◌++◌, some, ◌≡◌, true, refl, take, ap, append_assoc, ◌%◌,
  ◌∙◌, arith, ltb, ◌||◌, false, length-append, All, ◌*◌, slice, ◌-◌, sym, append-nil, [], ◌==◌, leb,
  Bool-cases, inl, inr,
}
use preamp.Base.Text.{Bytes, bytes_eq, codes}
use preamp.Slice.Wav.{
  WavChunks, no_chunks, with_format, with_data, wav_chunk, wav_round, next_chunk, wav_chunks,
  has_both, has_riff, wav_header, write_wav, slice_chunks, slice_wav, SampleRange, more, halt,
}
use preamp.Slice.Response.{Sliced}
use preamp.Slice.Wav.Format.{wav_chunks-IsWav, wav_chunks_total, IsFormat}

-- The chunks of a response with a format chunk `fmt` and a data chunk of `size` bytes.
abbrev pub written : Bytes → ℕ → WavChunks
written fmt size = with_data (28 + length fmt) size (with_format fmt no_chunks)

module _ (fmt pcm : Bytes) (small : 16 ≤ length fmt) (large : length fmt ≤ 1024) (size : ℕ)
    (bound : size < 2 ^ 32) where
  has_riff-header : has_riff (wav_header fmt size ++ pcm) ≡ true
  unfolding has_riff bytes_eq read_full
  has_riff-header = refl

  abbrev first : Option WavChunks
  first = some (with_format fmt no_chunks)

  abbrev file : Bytes
  file = wav_header fmt size ++ pcm

  abbrev riff_header : Bytes
  riff_header = take 12 file

  abbrev format_header : Bytes
  format_header = codes "fmt " ++ put_le32 (length fmt)

  abbrev data_header : Bytes
  data_header = codes "data" ++ put_le32 (size % 2 ^ 32)

  first_round :
      (file_size : ℕ)
      → 20 < file_size
      → wav_round file file_size 12 (some no_chunks) ≡ more (next_chunk 12 (length fmt)) first
  unfolding wav_round wav_chunk has_both bytes_eq
  first_round n h =
      let rest = fmt ++ (data_header ++ pcm) in
      let shape : file ≡ riff_header ++ (format_header ++ rest) =
        ap (λ xs. riff_header ++ (format_header ++ xs)) (append_assoc fmt data_header pcm) in
      let header : read_full file 12 8 ≡ some format_header =
        ap (λ xs. read_full xs 12 8) shape
        ∙ read_full-append riff_header format_header rest 12 8 refl refl in
      let format : read_full file 20 (length fmt) ≡ some fmt =
        ap (λ xs. read_full xs 20 (length fmt)) shape
        ∙ read_full-append (riff_header ++ format_header) fmt (data_header ++ pcm) 20 (length fmt)
            refl refl in
      let k : le32 format_header 4 ≡ length fmt =
        le32-put_le32 102 109 116 32 (length fmt) (omega arith) in
      let t : ltb 20 n ≡ true = ground arith in
      let fits : ltb (length fmt) 16 || ltb 1024 (length fmt) ≡ false = ground arith in
      rw (t, header, k, fits, format) (ap (λ j. more (next_chunk 12 j) first) k)

  second_round :
      (pos file_size : ℕ)
      → pos ≡ 20 + length fmt
      → pos + 8 < file_size
      → wav_round file file_size pos first ≡ halt (some (written fmt size))
  unfolding wav_round wav_chunk has_both bytes_eq
  second_round pos n p h =
      let before = riff_header ++ (format_header ++ fmt) in
      let shape : file ≡ before ++ (data_header ++ pcm) =
        ap (λ xs. riff_header ++ (format_header ++ xs)) (append_assoc fmt data_header pcm) in
      let header : read_full file pos 8 ≡ some data_header =
        ap (λ xs. read_full xs pos 8) shape
        ∙ read_full-append before data_header pcm pos 8 (omega (arith, p)) refl in
      let k : le32 data_header 4 ≡ size % 2 ^ 32 =
        le32-put_le32 100 97 116 97 (size % 2 ^ 32) (omega arith) in
      let whole : size % 2 ^ 32 ≡ size = omega arith in
      let t : ltb (pos + 8) n ≡ true = ground arith in rw (t, header, k, whole) (ground (arith, p))

  reread :
      length fmt % 2 ≡ 0
      → 0 < size
      → length pcm ≡ size
      → wav_chunks file (length file) ≡ some (some (written fmt size))
  unfolding wav_chunks next_chunk has_riff bytes_eq read_full
  reread even pos full =
      let total : length file ≡ 28 + length fmt + size =
        omega
          (arith, length-append fmt data_header, length-append (fmt ++ data_header) pcm, full) in
      let next : next_chunk 12 (length fmt) ≡ 20 + length fmt = ground (arith, even) in
      scan-more (wav_round file (length file)) (length file) 12 (next_chunk 12 (length fmt))
        (some no_chunks) first (first_round (length file) (omega (arith, total)))
      ∙ scan-halt (wav_round file (length file)) (length file) (next_chunk 12 (length fmt)) first
          (some (written fmt size)) (omega (arith, total))
          (second_round (next_chunk 12 (length fmt)) (length file) next
            (omega (arith, total, next, pos)))

-- The bytes of the data chunk from sample a to sample b.
abbrev pub range_size : WavChunks → ℕ → ℕ → ℕ
range_size c a b = min (b * c.block_align) c.data_size - a * c.block_align

module _ (range : SampleRange) (file : Bytes) (file_size : ℕ) (c : WavChunks) (fmt : Bytes)
    (a b : ℕ) where
  abbrev response : Sliced
  response =
      let size = range_size c a b in
      let from = c.data_offset + a * c.block_align in
      record {
        content_length = 12 + 8 + length fmt + 8 + size;
        body = wav_header fmt size ++ slice file from (from + size);
      }

  slice_chunks_lem :
      c.fmt_data ≡ some fmt
      → 0 < c.sample_rate
      → range c.data_size c.sample_rate c.block_align ≡ some (a, b)
      → 0 < range_size c a b
      → slice_chunks range file (some c) ≡ some response
  unfolding slice_chunks write_wav
  slice_chunks_lem has rate samples pos =
      let r : (c.sample_rate == 0) ≡ false = ground arith in
      let d : (c.data_size == 0) ≡ false = ground arith in
      let ends : leb (min (b * c.block_align) c.data_size) (a * c.block_align) ≡ false =
        ground arith in
      elim (Bool-cases (c.block_align == 0)) [
        | inl z ↦
            let zero_align : c.block_align ≡ 0 = ground arith in
            let nothing : b * c.block_align ≡ b * 0 = ap (λ x. b * x) zero_align in
            absurd (omega (arith, nothing))
        | inr z ↦ rw (r, d, z, has, samples, ends) refl
      ]

  -- On a WAV file with a format chunk of even size, a sample rate that is not 0 and a data chunk that lies
  -- inside the file, if the samples a to b of the request have bytes in the data chunk, then
  -- sliceWAV writes a response of the announced length, which its own loop reads as a WAV file with the same
  -- format chunk and a data chunk of exactly the bytes that these samples have in the file.
  pub slice_wav-wav_chunks :
      All (λ x. x < 256) file
      → wav_chunks file file_size ≡ some (some c)
      → c.fmt_data ≡ some fmt
      → length fmt % 2 ≡ 0
      → 0 < c.sample_rate
      → c.data_offset + c.data_size ≤ length file
      → range c.data_size c.sample_rate c.block_align ≡ some (a, b)
      → 0 < range_size c a b
      → (s : Sliced) × (slice_wav range file file_size ≡ some (some s))
        × (length s.body ≡ s.content_length)
        × (wav_chunks s.body (length s.body) ≡ some (some (written fmt (range_size c a b))))
        × (slice s.body (28 + length fmt) (28 + length fmt + range_size c a b)
            ≡ slice file
                (c.data_offset + a * c.block_align)
                (c.data_offset + a * c.block_align + range_size c a b))
  unfolding slice_wav
  slice_wav-wav_chunks bytes read has even rate inside samples pos =
      let (bound, form) = wav_chunks-IsWav file file_size bytes (some c) read in
      let size = range_size c a b in
      let from = c.data_offset + a * c.block_align in
      let pcm = slice file from (from + size) in
      let full : length pcm ≡ size = length-slice file from size (omega arith) in
      let header : 28 + length fmt ≡ length (wav_header fmt size) =
        omega (arith, length-append fmt (codes "data" ++ put_le32 (size % 2 ^ 32))) in
      let form : IsFormat c (some fmt) = subst (IsFormat c) has form in
      (
        response,
        rw (slice_wav, read) (ap some (slice_chunks_lem has rate samples pos)),
        omega (arith, header, full, length-append (wav_header fmt size) pcm),
        reread fmt pcm form.0 form.1 size (omega arith) even pos full,
        ap (λ xs. slice xs (28 + length fmt) (28 + length fmt + size))
              (ap (λ ws. wav_header fmt size ++ ws) (sym (append-nil pcm)))
            ∙ slice-append (wav_header fmt size) pcm [] (28 + length fmt) size header (sym full),
      )

-- sliceWAV ends on every file.
pub slice_wav_total :
    (range : SampleRange) (file : Bytes) (file_size : ℕ)
    → (r : Option Sliced) × (slice_wav range file file_size ≡ some r)
unfolding slice_wav
slice_wav_total range file file_size =
    let (found, e) = wav_chunks_total file file_size in
    (slice_chunks range file found, rw (e, slice_wav) refl)
