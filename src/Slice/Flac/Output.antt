-- ===== src/Slice/Flac/Output.antt =====
-- What sliceFLAC writes where the seek table is as the FLAC format demands.
use preamp.Slice.Response.{Sliced}
use preamp.Base.{ℕ, ◌≡◌, some, length, refl, [], ◌++◌, ◌+◌, ◌-◌, slice}
use preamp.Base.Text.{Bytes}
use preamp.Slice.Flac.{FlacRange, FlacBlocks, FlacOutcome, flac_header, slice_blocks, slice_flac}
use preamp.Slice.Flac.Blocks.{flac_blocks_total}
use preamp.Slice.SeekPoints.{seek_point_ceil}
use preamp.Slice.SeekPoints.Range.{last_offset}

-- sliceFLAC ends on every file.
pub slice_flac_total :
    (range : FlacRange) (file : Bytes) (file_size : ℕ)
    → (r : FlacOutcome) × (slice_flac range file file_size ≡ some r)
unfolding slice_flac
slice_flac_total range file file_size =
    let (found, e) = flac_blocks_total file in
    (slice_blocks range file file_size found, rw (e, slice_flac) refl)

-- The blocks of a response with this STREAMINFO block.
abbrev pub only_info : Bytes → FlacBlocks
only_info si = record { stream_info = some si; seek_points = []; pos = 42 }

-- The response for the bytes of the file from one position to another.
abbrev pub flac_response : Bytes → Bytes → ℕ → ℕ → Sliced
flac_response file si from upto = record {
  content_length = 42 + (upto - from);
  body = flac_header si ++ slice file from upto;
}

module _ (range : FlacRange) (file si : Bytes) (s : FlacBlocks) (a b : ℕ) where
  -- Where the bytes of the samples a to b begin and end in the file: at the last seek point of all at or
  -- before a, and at the first one behind b, or the end.
  abbrev pub flac_start : ℕ
  flac_start = s.pos + last_offset 0 s.seek_points a

  abbrev pub flac_end : ℕ
  flac_end = s.pos + seek_point_ceil s.seek_points b (length file - s.pos)
