-- ===== src/Scan/Track.antt =====
-- readTrack of internal/scanner/scanner.go. The file system, github.com/dhowden/tag and ffprobe are a
-- record of functions.
use preamp.Base.{ℕ, Option, none, some, ltb, if◌then◌else◌, take, drop}
use preamp.Base.Int.{ℤ}
use preamp.Base.Text.{Bytes, bytes_eq, codes, is_empty}
use preamp.Duration.{Parsed, parse_duration}
use preamp.Id3.Tags.{Id3Tags, no_tags, read_id3v2, id3_read_cap}
use preamp.Scan.Path.{base, dir, trim_suffix}

pub record TrackJob : Type 0 where
  pub path : Bytes
  pub ext : Bytes
  pub content_type : Bytes

pub record TrackInfo : Type 0 where
  pub path : Bytes
  pub ext : Bytes
  pub content_type : Bytes
  pub size : ℕ
  pub file_mtime : ℕ
  pub title : Bytes
  pub artist : Bytes
  pub album : Bytes
  pub genre : Bytes
  pub year : ℤ
  pub track : ℤ
  pub disc : ℤ
  pub duration : ℕ
  pub bitrate : ℕ

-- What Open and Stat give of a file.
pub record OpenFile : Type 0 where
  pub bytes : Bytes
  pub size : ℕ
  pub mtime : ℕ

-- `tag.ReadFrom`: tags, an error, or a panic, which readTrack recovers from.
pub data TagResult : Type 0 where
  tagged : Id3Tags → TagResult
  untagged : TagResult
  tag_panic : TagResult

-- By path. `open` is `none` where Open or Stat fails.
pub record Files : Type 0 where
  pub open_file : Bytes → Option OpenFile
  pub read_tags : Bytes → TagResult
  pub ffprobe : Bytes → Parsed

-- The tags of an MP3 file, with `tag_size` as audioOffset. The parser is total, so `none` is its `false`.
abbrev id3_tags : Bytes → Id3Tags
id3_tags bytes = elim (read_id3v2 (take id3_read_cap bytes)) [
  | none ↦ no_tags
  | some none ↦ no_tags
  | some (some tags) ↦ tags
]

-- `none` is a panic.
unfoldable pub tags_of : Files → TrackJob → OpenFile → Option Id3Tags
tags_of files job file =
    if bytes_eq job.ext (codes ".mp3")
    then some (id3_tags file.bytes)
    else elim (files.read_tags job.path) [
      | tagged tags ↦ some (record tags { tag_size = 0 })
      | untagged ↦ some no_tags
      | tag_panic ↦ none
    ]

-- The defaults for an empty title, artist or album.
unfoldable pub track_title : TrackJob → Bytes → Bytes
track_title job title = if is_empty title then trim_suffix (base job.path) job.ext else title

unfoldable pub track_artist : Bytes → Bytes
track_artist artist = if is_empty artist then codes "Unknown Artist" else artist

unfoldable pub track_album : TrackJob → Bytes → Bytes
track_album job album = if is_empty album then base (dir job.path) else album

unfoldable pub trim_dot : Bytes → Bytes
unfolding bytes_eq
trim_dot ext = if bytes_eq (take 1 ext) (codes ".") then drop 1 ext else ext

-- `none` is an error.
unfoldable pub read_track : Files → TrackJob → Option TrackInfo
read_track files job = elim (files.open_file job.path) [
  | none ↦ none
  | some file ↦ elim (tags_of files job file) [
    | none ↦ none
    | some tags ↦
        elim (parse_duration file.bytes file.size tags.tag_size job.ext (files.ffprobe job.path)) [
          | none ↦ none
          | some (dur, br) ↦ some (record {
            path = job.path;
            ext = trim_dot job.ext;
            content_type = job.content_type;
            size = file.size;
            file_mtime = file.mtime;
            title = track_title job tags.title;
            artist = track_artist tags.artist;
            album = track_album job tags.album;
            genre = tags.genre;
            year = tags.year;
            track = tags.track;
            disc = tags.disc;
            duration = dur;
            bitrate = if ltb 0 dur then br else 0;
          })
        ]
  ]
]
