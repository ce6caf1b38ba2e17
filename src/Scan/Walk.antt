-- ===== src/Scan/Walk.antt =====
-- The walker of Scanner.Run in internal/scanner/scanner.go: the callback of WalkDir, over the visits that
-- WalkDir makes. What it sends to the parse workers is a list, in order.
pub mod Found
pub mod Due
use preamp.Base.{
  ℕ, Bool, false, ◌&&◌, List, [], ◌∷◌, ◌++◌, map, Option, none, some, ◌==◌, if◌then◌else◌,
}
use preamp.Base.Dict.{lookup, insert}
use preamp.Base.Text.{Bytes, codes, one_of}
use preamp.Auth.ApiKey.{to_lower}
use preamp.Db.{Song}
use preamp.Scan.Path.{base, dir, extension}
use preamp.Scan.Track.{TrackJob}

abbrev pub supported_exts : List (Bytes × Bytes)
supported_exts =
    (codes ".mp3", codes "audio/mpeg")
    ∷ (codes ".flac", codes "audio/flac")
    ∷ (codes ".ogg", codes "audio/ogg")
    ∷ (codes ".m4a", codes "audio/mp4")
    ∷ (codes ".opus", codes "audio/opus")
    ∷ (codes ".wma", codes "audio/x-ms-wma")
    ∷ (codes ".wav", codes "audio/wav")
    ∷ (codes ".aac", codes "audio/aac")
    ∷ []

abbrev pub folder_art_names : List Bytes
folder_art_names =
    codes "cover.jpg"
    ∷ codes "cover.png"
    ∷ codes "folder.jpg"
    ∷ codes "folder.png"
    ∷ codes "front.jpg"
    ∷ codes "front.png"
    ∷ []

pub record KnownFile : Type 0 where
  pub mtime : ℕ
  pub size : ℕ

-- `SELECT path, file_mtime, size FROM song`, as the map from a path.
unfoldable pub known_files : List Song → List (Bytes × KnownFile)
known_files [] = []
known_files (s ∷ ss) = (s.path, record { mtime = s.file_mtime; size = s.size }) ∷ known_files ss

-- A call with an error; a directory or a symbolic link; and a file with what `d.Info()` gives.
pub data Visit : Type 0 where
  walk_error : Bytes → Visit
  skipped : Bytes → Visit
  visited : Bytes → Option KnownFile → Visit

pub record Walked : Type 0 where
  pub seen_paths : List Bytes
  pub folder_art : List (Bytes × Bytes)
  pub jobs : List TrackJob

abbrev pub nothing_walked : Walked
nothing_walked = record { seen_paths = []; folder_art = []; jobs = [] }

unfoldable pub unchanged : List (Bytes × KnownFile) → Bytes → KnownFile → Bool
unchanged known path info = elim (lookup path known) [
  | none ↦ false
  | some k ↦ k.mtime == info.mtime && k.size == info.size
]

unfoldable pub visit_track :
    List (Bytes × KnownFile) → TrackJob → Option KnownFile → Walked → Walked
visit_track known job none w = w
visit_track known job (some info) w = record w {
  seen_paths = job.path ∷ w.seen_paths;
  jobs = if unchanged known job.path info then w.jobs else w.jobs ++ (job ∷ []);
}

-- The first art file of a directory is kept.
unfoldable pub visit_other : Bytes → Walked → Walked
visit_other path w =
    if one_of (map to_lower (base path)) folder_art_names
    then elim (lookup (dir path) w.folder_art) [
      | none ↦ record w { folder_art = insert (dir path) path w.folder_art }
      | some _ ↦ w
    ]
    else w

unfoldable pub visit : List (Bytes × KnownFile) → Visit → Walked → Walked
visit known (walk_error path) w = w
visit known (skipped path) w = w
visit known (visited path info) w =
    let ext = map to_lower (extension path) in
    elim (lookup ext supported_exts) [
      | some content_type ↦
          visit_track known (record { path = path; ext = ext; content_type = content_type }) info w
      | none ↦ visit_other path w
    ]

unfoldable pub walk : List (Bytes × KnownFile) → List Visit → Walked → Walked
walk known [] w = w
walk known (v ∷ vs) w = walk known vs (visit known v w)
