-- ===== src/Slice/Flac.antt =====
-- sliceFLAC of internal/api/slice.go. The times are floats, so the samples of a request are an
-- argument (FlacRange). Values of type int64 and uint64 are their residues modulo 2^64.
pub mod Blocks
pub mod Output
use preamp.Base.{
  ℕ, zero, suc, ◌+◌, ◌-◌, ◌*◌, ◌/◌, ◌%◌, ◌^◌, Bool, true, false, not, ◌&&◌, ◌||◌, List, [], ◌∷◌,
  ◌++◌, Option, none, some, ltb, leb, ◌==◌, if◌then◌else◌, length, take, slice,
}
use preamp.Base.Bits.{be24, be32}
use preamp.Base.Endian.{read_full}
use preamp.Base.Scan.{Round, halt, more, scan}
use preamp.Base.Text.{Bytes, byte_at, codes, bytes_eq}
use preamp.Duration.{flac_sample_rate, flac_total_samples}
use preamp.Slice.Response.{Sliced}
use preamp.Slice.SeekPoints.{FlacSeekPoint, seek_point_floor, seek_point_ceil}

-- For totalSamples and sampleRate: `none` if startTime >= endTime, or else startSample and endSample.
abbrev pub FlacRange : Type 0
FlacRange = ℕ → ℕ → Option (ℕ × ℕ)

-- The variables of the loop; `stream_info` is none unless foundStreamInfo is set.
pub record FlacBlocks : Type 0 where
  pub stream_info : Option Bytes
  pub seek_points : List FlacSeekPoint
  pub pos : ℕ

abbrev pub no_blocks : FlacBlocks
no_blocks = record { stream_info = none; seek_points = []; pos = 4 }

unfoldable pub seek_point : Bytes → FlacSeekPoint
seek_point sp = record {
  sample_number = be32 sp 0 * 2 ^ 32 + be32 sp 4;
  byte_offset = be32 sp 8 * 2 ^ 32 + be32 sp 12;
  num_samples = byte_at sp 16 * 2 ^ 8 + byte_at sp 17;
}

-- Entries of 18 bytes each, from a position on.
unfoldable pub read_points : Bytes → ℕ → ℕ → Option (List FlacSeekPoint)
read_points file at zero = some []
read_points file at (suc n) =
    let rest = read_points file (at + 18) n in
    elim (read_full file at 18) [
      | none ↦ none
      | some sp ↦ elim rest [ none ↦ none | some ps ↦ some (seek_point sp ∷ ps) ]
    ]

-- The switch on the block's type: the position of the file behind it, and the variables. `none` is
-- `return false`. A seek table whose length is not a multiple of 18 is not read to its end.
unfoldable pub flac_block : Bytes → ℕ → ℕ → ℕ → FlacBlocks → Option (ℕ × FlacBlocks)
flac_block file at type len s =
    let pos = s.pos + 4 + len in
    if type == 0
    then (if not (len == 34) then none else elim (read_full file at 34) [
      | none ↦ none
      | some si ↦
          some (at + 34, record { stream_info = some si; seek_points = s.seek_points; pos = pos })
    ])
    else if type == 3
    then elim (read_points file at (len / 18)) [
      | none ↦ none
      | some ps ↦
          some (
            at + len / 18 * 18,
            record { stream_info = s.stream_info; seek_points = ps; pos = pos },
          )
    ]
    else some
        (at + len, record { stream_info = s.stream_info; seek_points = s.seek_points; pos = pos })

-- One metadata block; `at` is the position of the file.
unfoldable pub flac_round : Bytes → ℕ → Option FlacBlocks → Round (Option FlacBlocks)
flac_round file at none = halt none
flac_round file at (some s) = elim (read_full file at 4) [
  | none ↦ halt none
  | some bh ↦
      elim (flac_block file (at + 4) (byte_at bh 0 % 128)
        (be24 (byte_at bh 1) (byte_at bh 2) (byte_at bh 3)) s) [
          | none ↦ halt none
          | some (next, t) ↦
              if byte_at bh 0 / 128 % 2 == 1 then halt (some t) else more next (some t)
        ]
]

unfoldable pub is_flac : Bytes → Bool
is_flac file = elim (read_full file 0 4) [
  | none ↦ false
  | some marker ↦ bytes_eq marker (codes "fLaC")
]

-- The marker and the loop, with one round for each byte of the file.
unfoldable pub flac_blocks : Bytes → Option (Option FlacBlocks)
flac_blocks file =
    if is_flac file
    then scan (flac_round file) (suc (length file)) 4 (some no_blocks)
    else some none

-- `a < b` on values of type int64.
unfoldable pub less_int64 : ℕ → ℕ → Bool
less_int64 a b = ltb ((a + 2 ^ 63) % 2 ^ 64) ((b + 2 ^ 63) % 2 ^ 64)

-- `torn` is `return false` behind the header and what has been written of the body.
pub data FlacOutcome : Type 0 where
  unhandled : FlacOutcome
  handled : Sliced → FlacOutcome
  torn : Bytes → FlacOutcome

abbrev pub flac_header : Bytes → Bytes
flac_header si = codes "fLaC" ++ (128 ∷ 0 ∷ 0 ∷ 34 ∷ si)

-- The response from `absStart` to `absEnd`. A seek to a negative position is an error.
unfoldable pub write_flac : Bytes → Bytes → ℕ → ℕ → FlacOutcome
write_flac file si abs_start abs_end =
    let audio_len = (abs_end + 2 ^ 64 - abs_start) % 2 ^ 64 in
    if not (less_int64 abs_start abs_end)
    then unhandled
    else if less_int64 abs_start 0
    then torn (flac_header si)
    else handled (record {
      content_length = 4 + 4 + 34 + audio_len;
      body = flac_header si ++ slice file abs_start (abs_start + audio_len);
    })

unfoldable pub write_range : Bytes → ℕ → Bytes → List FlacSeekPoint → ℕ → ℕ → ℕ → FlacOutcome
write_range file file_size si points start start_sample end_sample =
    let audio_size = (file_size + 2 ^ 64 - start) % 2 ^ 64 in
    let abs_start = (start + seek_point_floor points start_sample) % 2 ^ 64 in
    let abs_end = (start + seek_point_ceil points end_sample audio_size) % 2 ^ 64 in
    write_flac file si abs_start (if less_int64 file_size abs_end then file_size else abs_end)

unfoldable pub slice_blocks : FlacRange → Bytes → ℕ → Option FlacBlocks → FlacOutcome
slice_blocks range file file_size none = unhandled
slice_blocks range file file_size (some s) = elim s.stream_info [
  | none ↦ unhandled
  | some si ↦
      if length s.seek_points == 0 || flac_sample_rate si == 0
      then unhandled
      else elim (range (flac_total_samples si) (flac_sample_rate si)) [
        | none ↦ unhandled
        | some (a, b) ↦ write_range file file_size si s.seek_points s.pos a b
      ]
]

-- `none` means that the loop ran out of rounds.
unfoldable pub slice_flac : FlacRange → Bytes → ℕ → Option FlacOutcome
slice_flac range file file_size = elim (flac_blocks file) [
  | none ↦ none
  | some found ↦ some (slice_blocks range file file_size found)
]
