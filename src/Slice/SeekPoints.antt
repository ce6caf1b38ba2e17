-- ===== src/Slice/SeekPoints.antt =====
-- seekPointFloor and seekPointCeil of internal/api/slice.go.
pub mod Range
use preamp.Base.{ℕ, true, false, List, [], ◌∷◌, ltb, leb, ◌==◌}

pub record FlacSeekPoint : Type 0 where
  pub sample_number : ℕ
  pub byte_offset : ℕ
  pub num_samples : ℕ

-- 0xFFFFFFFFFFFFFFFF.
abbrev pub placeholder : ℕ
placeholder = 18446744073709551615

-- The loop, with `best`.
unfoldable pub floor_from : ℕ → List FlacSeekPoint → ℕ → ℕ
floor_from best [] target = best
floor_from best (p ∷ ps) target = elim (p.sample_number == placeholder) [
  | true ↦ floor_from best ps target
  | false ↦ elim (leb p.sample_number target) [
    | true ↦ floor_from p.byte_offset ps target
    | false ↦ best
  ]
]

unfoldable pub seek_point_floor : List FlacSeekPoint → ℕ → ℕ
seek_point_floor points target = floor_from 0 points target

unfoldable pub seek_point_ceil : List FlacSeekPoint → ℕ → ℕ → ℕ
seek_point_ceil [] target audio_size = audio_size
seek_point_ceil (p ∷ ps) target audio_size = elim (p.sample_number == placeholder) [
  | true ↦ seek_point_ceil ps target audio_size
  | false ↦ elim (ltb target p.sample_number) [
    | true ↦ p.byte_offset
    | false ↦ seek_point_ceil ps target audio_size
  ]
]
