-- ===== src/Slice.antt =====
-- internal/api/slice.go: parseMP3Info, which repeats the header search of internal/scanner/duration.go, the seek
-- points of FLAC, sliceFLAC and sliceWAV. Floating-point times, and so the total duration of an MP3 file and
-- sliceMP3, are left out.
pub mod Mp3
pub mod SeekPoints
pub mod Response
pub mod Wav
pub mod Flac
