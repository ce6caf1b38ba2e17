-- ===== src/Id3/Frames.antt =====
-- The layout of ID3v2 frames, which parseID3v2Frames and parseLyricsFrames of
-- internal/scanner/id3.go compute by the same statements: the end of the extended header, the
-- length of a frame's header, its identifier and its size.
use Prim.Native.Nat.{bit_and}
use preamp.Base.{ℕ, ◌+◌, not, ◌&&◌, leb, ◌==◌, if◌then◌else◌, length, take}
use preamp.Base.Bits.{syncsafe, be24, be32}
use preamp.Base.Text.{Bytes, byte_at}

-- `pos` before the loop. In v2.4 the four bytes count themselves: `extSize -= 4` and then
-- `pos = 4 + int(extSize)` give the number that was read.
unfoldable pub frames_start : Bytes → ℕ → ℕ → ℕ
frames_start buf major flags =
    if not (bit_and flags 0x40 == 0) && leb 3 major && leb 4 (length buf)
    then (if major == 4
        then syncsafe (byte_at buf 0) (byte_at buf 1) (byte_at buf 2) (byte_at buf 3)
        else 4 + be32 buf 0)
    else 0

-- frameIDLen
unfoldable pub frame_id_len : ℕ → ℕ
frame_id_len major = if major == 2 then 3 else 4

-- frameHdrLen = frameIDLen + frameSizeLen + frameFlagsLen
unfoldable pub frame_hdr_len : ℕ → ℕ
frame_hdr_len major = if major == 2 then 3 + 3 + 0 else 4 + 4 + 2

unfoldable pub frame_id : ℕ → Bytes → Bytes
unfolding frame_id_len
frame_id major hdr = take (frame_id_len major) hdr

unfoldable pub frame_size : ℕ → Bytes → ℕ
frame_size major hdr =
    if major == 2
    then be24 (byte_at hdr 3) (byte_at hdr 4) (byte_at hdr 5)
    else if major == 4
    then syncsafe (byte_at hdr 4) (byte_at hdr 5) (byte_at hdr 6) (byte_at hdr 7)
    else be32 hdr 4
