-- ===== src/Id3.antt =====
-- internal/scanner/id3.go: reading the text frames and the lyrics frames of an ID3v2 tag.
pub mod Utf
pub mod Text
pub mod Values
pub mod Frames
pub mod Tags
pub mod Lyrics
