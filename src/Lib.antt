-- ===== src/Lib.antt =====
-- Verification library of preamp, a Subsonic API server in Go.
--
-- The server has a scanner, which reads tags, lyrics and durations from music files into an SQLite
-- database; an HTTP API behind an authentication middleware, which reads and writes that database;
-- and a management interface that mints credentials. The modules here model parts of it:
--
-- - Base: Go's built-in types and the functions of its standard library that the code calls. A
--   number is a natural number, with ℤ where Go's int can be negative; a string or a byte slice is
--   a list of bytes, a map with string keys an association list. Base.Scan is the `for` loop that
--   moves a position through a buffer.
-- - Id3: internal/scanner/id3.go. A buffer is a list of bytes, and each function of the source has
--   the function of its name in snake_case. Frames holds the statements that parseID3v2Frames and
--   parseLyricsFrames have in common; Tags is parseID3v2Frames and readID3v2, Tags.Names and
--   Tags.Fields follow the fields through a body of written frames; Lyrics is
--   parseLyricsFrames, parseUSLT, parseSYLT and ReadID3v2Lyrics; Utf and Text decode strings, and
--   Values are cleanGenre and parseTrackDisc. `utf16.Decode`, UTF-8 encoding, TrimSpace and Atoi are
--   written out.
-- - Duration: internal/scanner/duration.go. A result is a duration and a bitrate, an error, or the
--   panic of a division by zero. The answer of ffprobe is an argument.
-- - Auth: internal/api/auth.go, internal/auth/encrypt.go, and the credential table of
--   internal/db/schema.go. The hash functions, bcrypt and AES-GCM are a record of functions,
--   Auth.Crypto. The clock, SQLite's clock and the table are what a request finds (World); the
--   failures and the API key cache are the state that it leaves (AuthState).
-- - Db: the tables of internal/db/schema.go that the modelled handlers write, with their constraints,
--   and the write connection of internal/db/db.go. Each SQL statement is a function on the tables, which
--   fails where it breaks a constraint. A list of Booleans says which statements the database engine
--   fails, WriteConn first, so every error path of a handler is a run of the model. Ensures has the
--   rules for statements in sequence, Outcome those for the replies,
--   Keeps those for what no run changes, Clean those for runs in which the engine fails nothing, and Safe
--   and Always those for any run.
-- - Playlist: internal/api/playlists.go, the handlers that write and resequencePlaylist. Statements
--   has the SQL; Rows and Removal are the rows of one playlist, Loops the statements on
--   them; Owner is about the rows of `playlist` by their user.
-- - Annotation: internal/api/annotation.go, the handler of internal/api/rating.go that writes, and
--   internal/api/scrobble.go, in the same way.
-- - Session: internal/manage/session.go. The calls that change the store are events, in the order in which
--   they hold its mutex.
-- - Oidc: internal/manage/auth_oidc.go, with the handlers of internal/manage/handlers.go that sign in and out. The
--   sections under a mutex are events, so that a callback and the session that it creates are two, with others
--   between them, and the provider is an argument of each callback. Trace follows one state, Vouched a user whom
--   the provider names, and Login asks where a session comes from.
-- - Config and Startup: Load of internal/config/config.go, and what cmd/preamp/main.go does with its result before
--   the servers start. The environment and the file system are arguments.
-- - Scan: internal/scanner/scanner.go. Path, Track and Walk are the walker and readTrack, over what the file
--   system gives; Pipeline is the goroutines and channels as a step relation; Statements has the SQL, Writer
--   the batches and their id caches, Sweep what follows the pipeline, and run puts them together.
--   Integrity is about the references between the tables, Correct about a whole scan without failing
--   statements, and Intact about one with them.
-- - Manage: the handlers of internal/manage/handlers.go and internal/api/admin.go that mint, renew and revoke
--   credentials, on the rows and the API key cache of Auth; Secret is internal/manage/auth_secret.go.
-- - Slice: internal/api/slice.go. Mp3 is the frame search that it repeats, and Mp3/Duration compares the two;
--   SeekPoints is the seek table of FLAC, Flac is sliceFLAC and Wav is sliceWAV. The times of a request are floats, so
--   the samples they stand for are an argument. Values that can leave the range of int64 are residues
--   modulo 2^64.
-- - Tests: small runs, and the theorems at inputs that meet their hypotheses.
--
-- A handler that reads the clock or draws ids gets them as arguments; what is assumed of the ids is that
-- they are new. Rows stand in the order of insertion.
--
-- Fuel. The frame loops get one round more than the buffer has bytes, and the loop over the lines
-- of a SYLT frame one more than its bytes; the loops over the blocks of a FLAC file and the chunks of a WAV
-- file get one round more than the file has bytes. Each round that goes on consumes a byte at least.
--
-- Not modelled: races between requests, errors of reads other than the end of a file, JSON and XML
-- encoding, templates, floating-point numbers, sliceMP3, which computes with them throughout, HTTP
-- routing, SQLite itself, image scaling, and the user interface under ui.
pub mod Base
pub mod Id3
pub mod Duration
pub mod Auth
pub mod Db
pub mod Playlist
pub mod Annotation
pub mod Session
pub mod Oidc
pub mod Manage
pub mod Config
pub mod Startup
pub mod Slice
pub mod Scan
pub mod Tests
