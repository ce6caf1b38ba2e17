-- ===== src/Slice/Mp3/Duration.antt =====
-- parseMP3Info of internal/api/slice.go against parseMP3Duration of internal/scanner/duration.go.
use mathlib.Core.Path.{subst}
use preamp.Base.{
  ℕ, zero, suc, ◌+◌, ◌*◌, ◌-◌, ◌<◌, none, some, ◌≡◌, refl, sym, arith, ◌↔◌, ◌&&◌, inl, inr,
  Option-cases, Bool-cases, leb, ltb, length, take, drop, ◌==◌,
}
use preamp.Base.Text.{Bytes, byte_at}
use preamp.Base.Bits.{be32}
use Prim.Native.Nat.{min}
use preamp.Duration.{
  parsed, failed, FrameInfo, frame_at, frame_info, measure_frame, search_frame, search_chunk,
  parse_mp3_duration, has_frame_count, divide, average_bitrate,
}
use preamp.Slice.Mp3.{
  Mp3FrameInfo, slice_frame, has_xing, has_flag, mp3_info, search_info, audio_offset_of,
  parse_mp3_info, slice_max_sync,
}

-- The two tables and checks agree.
slice_frame-eq-frame_at : (b0 b1 b2 b3 : ℕ) → slice_frame b0 b1 b2 b3 ≡ frame_at b0 b1 b2 b3
unfolding slice_frame frame_at frame_info
slice_frame-eq-frame_at b0 b1 b2 b3 = ground arith

has_xing-has_frame_count :
    (chunk : Bytes) (x : ℕ)
    → (has_xing chunk x && has_flag (be32 chunk (x + 4)) 1) ≡ has_frame_count chunk x
unfolding has_xing has_flag has_frame_count
has_xing-has_frame_count chunk x = ground arith

measure_frame-not-failed :
    (file_size audio_offset : ℕ) (chunk : Bytes) (i : ℕ) (f : FrameInfo)
    → ¬ (measure_frame file_size audio_offset chunk i f ≡ failed)
unfolding measure_frame
measure_frame-not-failed file_size audio_offset chunk i f e =
    elim (Bool-cases (has_frame_count chunk (i + f.xing_off))) [
      | inl k ↦ elim (Bool-cases (f.sample_rate == 0)) [
        | inl z ↦ ground (arith, e, k, z)
        | inr z ↦ ground (arith, e, k, z)
      ]
      | inr k ↦ elim (Bool-cases (f.bitrate == 0)) [
        | inl z ↦ ground (arith, e, k, z)
        | inr z ↦ ground (arith, e, k, z)
      ]
    ]

module _ (file_size audio_offset : ℕ) (chunk : Bytes) where
  search_iff :
      (rounds i : ℕ)
      → (search_info file_size audio_offset chunk rounds i ≡ none)
        ↔ (search_frame file_size audio_offset chunk rounds i ≡ failed)
  unfolding search_info search_frame
  search_iff zero i = (λ e. refl, λ e. refl)
  search_iff (suc rounds) i =
      let same =
        slice_frame-eq-frame_at (byte_at chunk i) (byte_at chunk (i + 1)) (byte_at chunk (i + 2))
          (byte_at chunk (i + 3)) in
      elim (Option-cases (
        frame_at (byte_at chunk i) (byte_at chunk (i + 1)) (byte_at chunk (i + 2))
          (byte_at chunk (i + 3)))) [
            | inl e ↦ rw (same, e, search_info, search_frame) (search_iff rounds (i + 1))
            | inr (f, e) ↦
                rw (same, e, search_info, search_frame)
                  (
                    λ k. ground (arith, k),
                    λ k. absurd (measure_frame-not-failed file_size audio_offset chunk i f k),
                  )
          ]

  measured :
      (i : ℕ) (f : FrameInfo)
      → 0 < (mp3_info file_size audio_offset chunk i f).total_frames
      → measure_frame file_size audio_offset chunk i f
        ≡ divide
            ((mp3_info file_size audio_offset chunk i f).total_frames * f.samples_per_frame)
            f.sample_rate
            (λ dur. parsed dur (average_bitrate file_size dur))
  unfolding mp3_info measure_frame
  measured i f h = elim (Bool-cases (has_frame_count chunk (i + f.xing_off))) [
    | inl e ↦ rw (has_xing-has_frame_count chunk (i + f.xing_off), e) refl
    | inr e ↦ ground (arith, e, h, has_xing-has_frame_count chunk (i + f.xing_off))
  ]

  search_frames :
      (rounds i : ℕ) (info : Mp3FrameInfo)
      → search_info file_size audio_offset chunk rounds i ≡ some info
      → 0 < info.total_frames
      → search_frame file_size audio_offset chunk rounds i
        ≡ divide
            (info.total_frames * info.samples_per_frame)
            info.sample_rate
            (λ dur. parsed dur (average_bitrate file_size dur))
  unfolding search_info search_frame mp3_info
  search_frames zero i info e h = ground (arith, e)
  search_frames (suc rounds) i info e h =
      let b0 = byte_at chunk i in
      let b1 = byte_at chunk (i + 1) in
      let b2 = byte_at chunk (i + 2) in
      let b3 = byte_at chunk (i + 3) in
      let same = slice_frame-eq-frame_at b0 b1 b2 b3 in
      elim (Option-cases (frame_at b0 b1 b2 b3)) [
        | inl k ↦
            rw (k, search_frame)
              (search_frames rounds (i + 1) info (rw (same, k, search_info) at e) h)
        | inr (f, k) ↦
            let it : some (mp3_info file_size audio_offset chunk i f) ≡ some info =
              rw (same, k, search_info) at e in
            let found : mp3_info file_size audio_offset chunk i f ≡ info = ground (arith, it) in
            rw (k, search_frame)
              (subst
                (λ (x : Mp3FrameInfo).
                  measure_frame file_size audio_offset chunk i f
                  ≡ divide (x.total_frames * x.samples_per_frame) x.sample_rate
                      (λ dur. parsed dur (average_bitrate file_size dur)))
                found
                (measured i f (subst (λ (x : Mp3FrameInfo). 0 < x.total_frames) (sym found) h)))
      ]

-- parseMP3Info fails on exactly the files on which parseMP3Duration fails when it is told no offset.
pub parse_mp3_info_iff :
    (file : Bytes) (file_size : ℕ)
    → (parse_mp3_info file file_size ≡ none) ↔ (parse_mp3_duration file file_size 0 ≡ failed)
unfolding parse_mp3_info parse_mp3_duration search_chunk audio_offset_of
parse_mp3_info_iff file file_size =
    let offset = audio_offset_of file in
    let size = min (slice_max_sync + 256) (file_size - offset) in
    let chunk = take size (drop offset file) in
    elim (Bool-cases (ltb (length file) 10)) [
      | inl a ↦ rw a (λ e. refl, λ e. refl)
      | inr a ↦ elim (Bool-cases (leb size 4)) [
        | inl b ↦ rw (a, b) (λ e. refl, λ e. refl)
        | inr b ↦ elim (Bool-cases (ltb (length chunk) 4)) [
          | inl d ↦ rw (a, b, d) (λ e. refl, λ e. refl)
          | inr d ↦ rw (a, b, d) (search_iff file_size offset chunk (length chunk - 4) 0)
        ]
      ]
    ]

-- If parseMP3Info finds a number of frames, parseMP3Duration gives the whole seconds of that many frames, with the
-- bitrate that they make of the file.
pub parse_mp3_info-frames :
    (file : Bytes) (file_size : ℕ) (info : Mp3FrameInfo)
    → parse_mp3_info file file_size ≡ some info
    → 0 < info.total_frames
    → parse_mp3_duration file file_size 0
      ≡ divide
          (info.total_frames * info.samples_per_frame)
          info.sample_rate
          (λ dur. parsed dur (average_bitrate file_size dur))
unfolding parse_mp3_info parse_mp3_duration search_chunk audio_offset_of
parse_mp3_info-frames file file_size info e h =
    let offset = audio_offset_of file in
    let size = min (slice_max_sync + 256) (file_size - offset) in
    let chunk = take size (drop offset file) in
    elim (Bool-cases (ltb (length file) 10)) [
      | inl a ↦ ground (arith, a, e)
      | inr a ↦ elim (Bool-cases (leb size 4)) [
        | inl b ↦ ground (arith, a, b, e)
        | inr b ↦ elim (Bool-cases (ltb (length chunk) 4)) [
          | inl d ↦ ground (arith, a, b, d, e)
          | inr d ↦
              rw (a, b, d)
                (search_frames file_size offset chunk (length chunk - 4) 0 info (rw (a, b, d) at e)
                  h)
        ]
      ]
    ]
