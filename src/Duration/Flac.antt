-- ===== src/Duration/Flac.antt =====
-- parseFLACDuration of internal/scanner/duration.go on a file whose STREAMINFO block is laid out
-- field by field.
use Prim.Native.Nat.{bit_or}
use preamp.Base.{
  ℕ, zero, suc, ◌+◌, ◌*◌, ◌/◌, ◌%◌, ◌^◌, ◌<◌, [], ◌∷◌, ◌++◌, take, length, ◌≡◌, ap, ◌∙◌, arith,
  length-append, take-append,
}
use preamp.Base.Bits.{bit_or_shifted}
use preamp.Base.Text.{Bytes, byte_at, codes, bytes_eq}
use preamp.Duration.{
  parsed, average_bitrate, flac_sample_rate, flac_total_samples, parse_flac_duration,
}

-- Bytes 10 to 17: the sample rate, the channels and bits per sample (`format`), the samples.
abbrev pub stream_fields : ℕ → ℕ → ℕ → Bytes → Bytes
stream_fields rate format samples rest =
    (rate / 4096)
    ∷ (rate / 16 % 256)
    ∷ (rate % 16 * 16 + format / 16)
    ∷ (format % 16 * 16 + samples / 4294967296)
    ∷ (samples / 16777216 % 256)
    ∷ (samples / 65536 % 256)
    ∷ (samples / 256 % 256)
    ∷ (samples % 256)
    ∷ rest

byte_at-append :
    (xs ys : Bytes) (n : ℕ) → n ≡ length xs → (i : ℕ) → byte_at (xs ++ ys) (n + i) ≡ byte_at ys i
byte_at-append [] ys n h i = ap (byte_at ys) (omega arith)
byte_at-append (x ∷ xs) ys zero h i = absurd (omega arith)
byte_at-append (x ∷ xs) ys (suc n) h i =
    ap (byte_at (x ∷ (xs ++ ys))) {x = suc n + i} {y = suc (n + i)} (omega arith)
    ∙ byte_at-append xs ys n (omega arith) i

module _ (sizes rest : Bytes) (rate format samples : ℕ) (ten : 10 ≡ length sizes) where
  field :
      (i : ℕ)
      → byte_at (sizes ++ stream_fields rate format samples rest) (10 + i)
        ≡ byte_at (stream_fields rate format samples rest) i
  field i = byte_at-append sizes (stream_fields rate format samples rest) 10 ten i

  flac_sample_rate_lem :
      rate < 2 ^ 20
      → format < 256
      → flac_sample_rate (sizes ++ stream_fields rate format samples rest) ≡ rate
  unfolding flac_sample_rate
  flac_sample_rate_lem h k =
      let joined : bit_or (rate / 4096 * 2 ^ 12) (rate / 16 % 256 * 2 ^ 4) ≡ rate / 16 * 2 ^ 4 =
        bit_or_shifted 12 (rate / 4096) (rate / 16 % 256 * 2 ^ 4) (omega arith) ∙ omega arith in
      let low : (rate % 16 * 16 + format / 16) / 2 ^ 4 ≡ rate % 16 = omega arith in
      rw (field 0, field 1, field 2, joined, low)
        (bit_or_shifted 4 (rate / 16) (rate % 16) (omega arith) ∙ omega arith)

  flac_total_samples_lem :
      samples < 2 ^ 36
      → flac_total_samples (sizes ++ stream_fields rate format samples rest) ≡ samples
  unfolding flac_total_samples
  flac_total_samples_lem h =
      let n = samples in
      let top : (format % 16 * 16 + n / 4294967296) % 16 ≡ n / 4294967296 = omega arith in
      let one : bit_or (n / 4294967296 * 2 ^ 32) (n / 16777216 % 256 * 2 ^ 24)
          ≡ n / 16777216 * 2 ^ 24 =
        bit_or_shifted 32 (n / 4294967296) (n / 16777216 % 256 * 2 ^ 24) (omega arith)
        ∙ omega arith in
      let two : bit_or (n / 16777216 * 2 ^ 24) (n / 65536 % 256 * 2 ^ 16) ≡ n / 65536 * 2 ^ 16 =
        bit_or_shifted 24 (n / 16777216) (n / 65536 % 256 * 2 ^ 16) (omega arith) ∙ omega arith in
      let three : bit_or (n / 65536 * 2 ^ 16) (n / 256 % 256 * 2 ^ 8) ≡ n / 256 * 2 ^ 8 =
        bit_or_shifted 16 (n / 65536) (n / 256 % 256 * 2 ^ 8) (omega arith) ∙ omega arith in
      rw (field 3, field 4, field 5, field 6, field 7, top, one, two, three)
        (bit_or_shifted 8 (n / 256) (n % 256) (omega arith) ∙ omega arith)

-- A FLAC file: the marker, a STREAMINFO header (`kind` is 0 or 128), the block, and what follows.
abbrev pub flac_file : ℕ → Bytes → Bytes → Bytes
flac_file kind block audio = codes "fLaC" ++ (kind ∷ 0 ∷ 0 ∷ 34 ∷ (block ++ audio))

-- Every FLAC file whose first block is a STREAMINFO block with a sample rate is parsed to its
-- number of samples over the rate, in whole seconds, and its average bitrate, whatever the
-- channels and sample size are. The rate has 20 bits and the number of samples 36.
pub parse_flac_duration_lem :
    (kind rate format samples file_size : ℕ) (sizes md5 audio : Bytes)
    → kind % 128 ≡ 0
    → 10 ≡ length sizes
    → 16 ≡ length md5
    → 0 < rate
    → rate < 2 ^ 20
    → format < 256
    → samples < 2 ^ 36
    → parse_flac_duration
        (flac_file kind (sizes ++ stream_fields rate format samples md5) audio)
        file_size
      ≡ parsed (samples / rate) (average_bitrate file_size (samples / rate))
unfolding parse_flac_duration bytes_eq
parse_flac_duration_lem kind rate format samples file_size sizes md5 audio hk ten rest pos hr hf
      hs =
    let block = sizes ++ stream_fields rate format samples md5 in
    let size : 34 ≡ length block =
      omega (arith, length-append sizes (stream_fields rate format samples md5)) in
    let si : take 34 (block ++ audio) ≡ block =
      ap (λ n. take n (block ++ audio)) size ∙ take-append block audio in
    let r = flac_sample_rate_lem sizes md5 rate format samples ten hr hf in
    let t = flac_total_samples_lem sizes md5 rate format samples ten hs in
    ground
      (arith, si, r, t, length-append block audio, ap flac_sample_rate si, ap flac_total_samples si)
