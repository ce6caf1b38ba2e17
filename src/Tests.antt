-- ===== src/Tests.antt =====
-- Tests of the models of internal/scanner and internal/api on small inputs, and the theorems at
-- inputs that meet their hypotheses.
mod Id3
mod Duration
mod Playlist
mod Auth
mod Annotation
mod Session
mod Scan
mod Manage
mod Slice
mod Wav
mod Flac
mod Oidc
mod Startup
