-- ===== src/Id3/Tags/Write.antt =====
-- Frames as a tagger writes them, with the size in the form that each version of ID3v2 reads in
-- internal/scanner/id3.go: three bytes in v2.2, four in v2.3, four of seven bits in v2.4.
use preamp.Base.{ℕ, ◌/◌, ◌%◌, ◌^◌, ◌<◌, [], ◌∷◌, ◌==◌, if◌then◌else◌, length, ◌≡◌, ◌≢◌, arith}
use preamp.Base.Bits.{be32, be24_lem, syncsafe_lem}
use preamp.Base.Text.{Bytes}
use preamp.Id3.Frames.{frame_hdr_len, frame_size}
use preamp.Id3.Tags.Render.{Frame, IsFrame}

-- The largest payload, and one more, that the size bytes can declare.
abbrev pub size_limit : ℕ → ℕ
size_limit major = if major == 2 then 2 ^ 24 else if major == 4 then 2 ^ 28 else 2 ^ 32

unfoldable pub frame_header : ℕ → ℕ → ℕ → ℕ → ℕ → ℕ → Bytes
frame_header major a b c d n =
    if major == 2
    then a ∷ b ∷ c ∷ (n / 65536) ∷ (n / 256 % 256) ∷ (n % 256) ∷ []
    else if major == 4
    then a
      ∷ b
      ∷ c
      ∷ d
      ∷ (n / 2097152)
      ∷ (n / 16384 % 128)
      ∷ (n / 128 % 128)
      ∷ (n % 128)
      ∷ 0
      ∷ 0
      ∷ []
    else a
      ∷ b
      ∷ c
      ∷ d
      ∷ (n / 16777216)
      ∷ (n / 65536 % 256)
      ∷ (n / 256 % 256)
      ∷ (n % 256)
      ∷ 0
      ∷ 0
      ∷ []

unfoldable pub make_frame : ℕ → ℕ → ℕ → ℕ → ℕ → Bytes → Frame
make_frame major a b c d payload = record {
  header = frame_header major a b c d (length payload);
  payload = payload;
}

frame_size-frame_header :
    (major a b c d n : ℕ)
    → n < size_limit major
    → frame_size major (frame_header major a b c d n) ≡ n
unfolding frame_size frame_header be32
frame_size-frame_header major a b c d n h = ground (
  arith,
  be24_lem (n / 65536) (n / 256 % 256) (n % 256) (omega arith) (omega arith),
  syncsafe_lem (n / 2097152) (n / 16384 % 128) (n / 128 % 128) (n % 128) (omega arith) (omega arith)
      (omega arith),
)

-- A frame that is written with its identifier's bytes and a payload that the size can declare is
-- well formed, in every version.
pub make_frame-IsFrame :
    (major a b c d : ℕ) (payload : Bytes)
    → a ≢ 0
    → 0 < length payload
    → length payload < size_limit major
    → IsFrame major (make_frame major a b c d payload)
unfolding make_frame
make_frame-IsFrame major a b c d payload ha hp hs = record {
  header_length = unfold frame_header frame_hdr_len in ground arith;
  no_padding = unfold frame_header in ground arith;
  declares = frame_size-frame_header major a b c d (length payload) hs;
  payload_pos = hp;
}
