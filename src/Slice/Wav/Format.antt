-- ===== src/Slice/Wav/Format.antt =====
-- What the loop of sliceWAV leaves in its variables, and that it ends.
use mathlib.Core.Path.{subst}
use preamp.Base.{
  ℕ, suc, ◌+◌, ◌^◌, ◌≤◌, ◌<◌, Option, none, some, length, ◌≡◌, arith, All, take, Bool-cases, inl,
  inr, refl, Option-cases, ltb, ◌||◌,
}
use preamp.Base.Endian.{le16, le32, read_full, le32_bound, length-read_full, read_full-All}
use preamp.Base.Scan.{halt, more, Advances, scan_total, scan_inv, Round}
use preamp.Base.Text.{Bytes, bytes_eq, codes}
use preamp.Slice.Wav.{
  WavChunks, no_chunks, with_format, with_data, wav_chunk, wav_round, next_chunk, wav_chunks,
  has_riff, has_both,
}

-- The format chunk's size is in range and its fields are read from it.
abbrev pub IsFormat : WavChunks → Option Bytes → Type 0
IsFormat c none = c.sample_rate ≡ 0
IsFormat c (some fmt) =
    (16 ≤ length fmt)
    × (length fmt ≤ 1024)
    × (c.sample_rate ≡ le32 fmt 4)
    × (c.block_align ≡ le16 fmt 12)

abbrev pub IsWav : Option WavChunks → Type 0
IsWav none = Unit
IsWav (some c) = (c.data_size < 2 ^ 32) × IsFormat c c.fmt_data

wav_round-Advances : (file : Bytes) (file_size : ℕ) → Advances (wav_round file file_size) file_size
unfolding wav_round next_chunk
wav_round-Advances file file_size p q none acc' h = ground arith
wav_round-Advances file file_size p q (some c) acc' h = ground arith

-- The loop ends, whatever the file is: a chunk is at least eight bytes.
pub wav_chunks_total :
    (file : Bytes) (file_size : ℕ)
    → (found : Option WavChunks) × (wav_chunks file file_size ≡ some found)
unfolding wav_chunks
wav_chunks_total file file_size =
    let (r, e) =
      scan_total (wav_round file file_size) file_size (wav_round-Advances file file_size)
        (suc file_size) 12 (some no_chunks) (omega arith) (omega arith) in
    elim (Bool-cases (has_riff file)) [ inl h ↦ rw h (r, e) | inr h ↦ rw h (none, refl) ]

module _ (file : Bytes) (file_size : ℕ) (bytes : All (λ b. b < 256) file) where
  wav_chunk-IsWav :
      (pos : ℕ) (ch : Bytes) (c d : WavChunks)
      → All (λ b. b < 256) ch
      → IsWav (some c)
      → wav_chunk file pos ch c ≡ some d
      → IsWav (some d)
  unfolding wav_chunk
  wav_chunk-IsWav pos ch c d h (small, format) e =
      let n = le32 ch 4 in
      let bound : n < 2 ^ 32 = le32_bound ch 4 h in
      elim (Bool-cases (bytes_eq (take 4 ch) (codes "fmt "))) [
        | inl f ↦ elim (Option-cases (read_full file (pos + 8) n)) [
          | inl r ↦ ground (arith, rw (f, r) at e)
          | inr (fmt, r) ↦
              let size : length fmt ≡ n = length-read_full file fmt (pos + 8) n r in
              elim (Bool-cases (ltb n 16 || ltb 1024 n)) [
                | inl t ↦ ground (arith, rw (f, t) at e)
                | inr t ↦
                    let same : some (with_format fmt c) ≡ some d = rw (f, t, r) at e in
                    subst IsWav same (small, ground (arith, size, t))
              ]
        ]
        | inr f ↦ elim (Bool-cases (bytes_eq (take 4 ch) (codes "data"))) [
          | inl g ↦
              let same : some (with_data (pos + 8) n c) ≡ some d = rw (f, g) at e in
              subst IsWav same (bound, format)
          | inr g ↦ let same : some c ≡ some d = rw (f, g) at e in subst IsWav same (small, format)
        ]
      ]

  abbrev Ends : Round (Option WavChunks) → Type 0
  Ends (halt r) = IsWav r
  Ends (more q r) = IsWav r

  wav_round-IsWav :
      (pos : ℕ) (c : Option WavChunks) → IsWav c → Ends (wav_round file file_size pos c)
  unfolding wav_round
  wav_round-IsWav pos none w = tt
  wav_round-IsWav pos (some c) w = elim (Bool-cases (ltb (pos + 8) file_size)) [
    | inl t ↦ elim (Option-cases (read_full file pos 8)) [
      | inl r ↦ rw (t, r) w
      | inr (ch, r) ↦ elim (Option-cases (wav_chunk file pos ch c)) [
        | inl k ↦ rw (t, r, k) tt
        | inr (d, k) ↦
            let good =
              wav_chunk-IsWav pos ch c d (read_full-All (λ b. b < 256) file ch pos 8 bytes r) w k in
            elim (Bool-cases (has_both d)) [
              | inl b ↦ rw (t, r, k, b) good
              | inr b ↦ rw (t, r, k, b) good
            ]
      ]
    ]
    | inr t ↦ rw t w
  ]

  -- What the loop leaves.
  pub wav_chunks-IsWav :
      (found : Option WavChunks) → wav_chunks file file_size ≡ some found → IsWav found
  unfolding wav_chunks
  wav_chunks-IsWav found e = elim (Bool-cases (has_riff file)) [
    | inl h ↦
        scan_inv IsWav (wav_round file file_size)
          (λ p c r w k. subst Ends k (wav_round-IsWav p c w))
          (λ p q c d w k. subst Ends k (wav_round-IsWav p c w)) (suc file_size) 12 (some no_chunks)
          found (omega arith, refl) (rw h at e)
    | inr h ↦
        let same : some none ≡ some found = rw h at e in
        let nothing : none ≡ found = cc in subst IsWav nothing tt
  ]
