-- ===== src/Tests/Flac.antt =====
-- Slicing of small FLAC files.
use preamp.Base.{ℕ, zero, suc, [], List, ◌∷◌, ◌++◌, some, ◌≡◌, refl, inl}
use preamp.Base.Text.{Bytes, codes}
use preamp.Duration.{flac_sample_rate, flac_total_samples}
use preamp.Slice.Flac.{FlacRange, FlacBlocks, flac_blocks, slice_flac, flac_header, torn}
use preamp.Slice.SeekPoints.{FlacSeekPoint}

abbrev zeros : ℕ → Bytes
zeros zero = []
zeros (suc n) = 0 ∷ zeros n

-- 44100 Hz.
abbrev info : Bytes
info = zeros 10 ++ (10 ∷ 196 ∷ 66 ∷ 240 ∷ 0 ∷ 1 ∷ 88 ∷ 136 ∷ zeros 16)

abbrev audio : Bytes
audio = 1 ∷ 2 ∷ 3 ∷ 4 ∷ 5 ∷ 6 ∷ 7 ∷ 8 ∷ []

-- Seek points at sample 0 and, at the offset 4, at sample 44100.
abbrev flac_file : Bytes
flac_file =
    codes "fLaC"
    ++ (0 ∷ 0 ∷ 0 ∷ 34 ∷ info)
    ++ (131 ∷ 0 ∷ 0 ∷ 36 ∷ zeros 16)
    ++ (16 ∷ 0 ∷ zeros 6)
    ++ (172 ∷ 68 ∷ zeros 7)
    ++ (4 ∷ 16 ∷ 0 ∷ audio)

abbrev points : List FlacSeekPoint
points =
    record { sample_number = 0; byte_offset = 0; num_samples = 4096 }
    ∷ record { sample_number = 44100; byte_offset = 4; num_samples = 4096 }
    ∷ []

abbrev blocks : FlacBlocks
blocks = record { stream_info = some info; seek_points = points; pos = 82 }

abbrev from_second : FlacRange
from_second samples rate = some (44100, 88200)

-- The offset of the last seek point is 2^64 - 252, so the seek is to a negative position.
abbrev torn_file : Bytes
torn_file =
    codes "fLaC"
    ++ (0 ∷ 0 ∷ 0 ∷ 34 ∷ info)
    ++ (131 ∷ 0 ∷ 0 ∷ 18 ∷ zeros 8)
    ++ (255 ∷ 255 ∷ 255 ∷ 255 ∷ 255 ∷ 255 ∷ 255 ∷ 4 ∷ 16 ∷ 0 ∷ audio)

torn_slice : slice_flac from_second torn_file 72 ≡ some (torn (flac_header info))
unfolding slice_flac flac_blocks preamp.Slice.Flac.is_flac preamp.Base.Endian.read_full
    preamp.Base.Text.bytes_eq preamp.Base.Scan.scan preamp.Slice.Flac.flac_round
    preamp.Slice.Flac.flac_block preamp.Base.Bits.be24 preamp.Slice.Flac.read_points
    preamp.Slice.Flac.slice_blocks flac_sample_rate flac_total_samples preamp.Slice.Flac.write_range
    preamp.Slice.Flac.write_flac preamp.Slice.Flac.less_int64
    preamp.Slice.SeekPoints.seek_point_floor preamp.Slice.SeekPoints.floor_from
    preamp.Base.Bits.be32 preamp.Slice.Flac.seek_point preamp.Slice.SeekPoints.seek_point_ceil
torn_slice = refl
