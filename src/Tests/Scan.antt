-- ===== src/Tests/Scan.antt =====
-- A scan that finds a new file, and that a known one is gone.
use preamp.Scan.Intact.{run-IsSound}
use mathlib.Core.Path.{subst}
use mathlib.Core.List.{Perm}
use preamp.Base.{
  map, ℕ, List, [], ◌∷◌, ◌++◌, Bool, true, false, ◌&&◌, ◌||◌, none, some, Option, ◌≡◌, refl, sym,
  arith, ◌≤◌, ◌*◌, length, ◌⊎◌,
}
use preamp.Base.Text.{Bytes, codes, bytes_eq, one_of}
use preamp.Base.Int.{pos}
use preamp.Db.{Tables, Song, has_song}
use preamp.Db.Clean.{unfailing}
use preamp.Duration.{parsed}
use preamp.Id3.Tags.{no_tags}
use preamp.Scan.{run}
use preamp.Scan.Correct.{IsLibrary, walked, scan_lem}
use preamp.Scan.Integrity.{IsSound, album_artist}
use preamp.Scan.Pipeline.{
  Steps, none_yet, then_step, start, send, take_job, deliver, receive, reads, Pipeline, Step,
  IsDone,
}
use preamp.Scan.Pipeline.Complete.{pipeline_complete}
use preamp.Scan.Statements.{has_path, has_artist, has_album}
use preamp.Scan.Track.{Files, TrackJob, TrackInfo, read_track, tagged}
use preamp.Scan.Walk.Found.{first_art}
use preamp.Scan.Walk.Due.{due, statted, job_of, walk_lem}
use preamp.Base.Dict.{lookup}
use preamp.Scan.Walk.{walk, known_files, nothing_walked, Visit, visited, skipped, KnownFile, walk}
use preamp.Scan.Writer.Rows.{Differ, Free}
use preamp.Scan.Writer.Total.{in_results}

abbrev new_id : ℕ → Bytes
new_id n = n ∷ []

new_id-Differ : Differ new_id
unfolding bytes_eq
new_id-Differ j k h = ground (arith, h)

abbrev song : Bytes → Bytes → Song
song id path = record {
  id = id;
  album_id = codes "al";
  artist_id = codes "ar";
  title = codes "Title";
  track = pos 1;
  disc = pos 1;
  year = pos 1999;
  genre = [];
  duration = 60;
  size = 5;
  suffix = codes "ogg";
  bitrate = 128;
  content_type = codes "audio/ogg";
  path = path;
  file_mtime = 7;
}

-- The first of the songs is gone, and is on a playlist.
abbrev tables : Tables
tables = record {
  playlists = [];
  entries = record { playlist_id = codes "p"; song_id = codes "s1"; position = 0 } ∷ [];
  artists = record { id = codes "ar"; name = codes "Ada" } ∷ [];
  albums =
      record {
        id = codes "al";
        artist_id = codes "ar";
        name = codes "One";
        year = pos 1999;
        genre = [];
        cover_art = none;
        song_count = 2;
        duration = 120;
      }
      ∷ [];
  songs = song (codes "s1") (codes "/m/gone.ogg") ∷ song (codes "s2") (codes "/m/kept.ogg") ∷ [];
  stars = [];
  ratings = [];
  plays =
      record { id = codes "x"; song_id = codes "s1"; user_id = codes "bob"; played_at = [] } ∷ [];
  fts = none;
}

abbrev visits : List Visit
visits =
    skipped (codes "/m")
    ∷ visited (codes "/m/kept.ogg") (some (record { mtime = 7; size = 5 }))
    ∷ visited (codes "/m/new.ogg") (some (record { mtime = 9; size = 6 }))
    ∷ visited (codes "/m/Cover.jpg") none
    ∷ []

abbrev files : Files
files = record {
  open_file = λ path. some (record { bytes = []; size = 6; mtime = 9 });
  read_tags = λ path.
      tagged (record no_tags { title = codes "New"; artist = codes "Bob"; album = codes "Two" });
  ffprobe = λ path. parsed 180 128;
}

abbrev job : TrackJob
job = record { path = codes "/m/new.ogg"; ext = codes ".ogg"; content_type = codes "audio/ogg" }

abbrev info : TrackInfo
info = record {
  path = codes "/m/new.ogg";
  ext = codes "ogg";
  content_type = codes "audio/ogg";
  size = 6;
  file_mtime = 9;
  title = codes "New";
  artist = codes "Bob";
  album = codes "Two";
  genre = [];
  year = pos 0;
  track = pos 0;
  disc = pos 0;
  duration = 180;
  bitrate = 128;
}

abbrev ended : Pipeline
ended = record { unsent = []; jobs = []; held = []; results = []; received = info ∷ [] }

job_read : read_track files job ≡ some info
unfolding read_track preamp.Scan.Track.tags_of bytes_eq preamp.Duration.parse_duration
    preamp.Scan.Track.trim_dot preamp.Scan.Track.track_title preamp.Scan.Track.track_artist
    preamp.Scan.Track.track_album
job_read = refl

steps : Steps (read_track files) (start (job ∷ [])) 4 ended
steps =
    then_step
      (then_step
        (then_step (then_step none_yet (send (start (job ∷ [])) job [] refl (omega arith))) (
          take_job (record { unsent = []; jobs = job ∷ []; held = []; results = []; received = [] })
            job [] refl (omega arith)))
        (deliver (record { unsent = []; jobs = []; held = job ∷ []; results = []; received = [] })
          [] [] job info refl job_read (omega arith)))
      (receive (record { unsent = []; jobs = []; held = []; results = info ∷ []; received = [] })
        info [] refl)

pipeline_complete_example :
    (4 ≤ 4 * length (job ∷ []))
    × (((q : Pipeline) × Step (read_track files) ended q)
        ⊎ (IsDone ended × Perm ended.received (reads (read_track files) (job ∷ []))))
pipeline_complete_example = pipeline_complete (read_track files) (job ∷ []) 4 ended steps

jobs_sent : (walked visits tables).jobs ≡ job ∷ []
unfolding walk preamp.Scan.Walk.visit preamp.Base.Dict.lookup bytes_eq preamp.Scan.Path.extension
    preamp.Auth.ApiKey.to_lower preamp.Scan.Walk.visit_track preamp.Scan.Walk.unchanged
    preamp.Scan.Walk.known_files preamp.Scan.Walk.visit_other one_of preamp.Scan.Path.base
jobs_sent = refl

tables-Free : Free new_id new_id-Differ 0 tables
unfolding bytes_eq has_artist has_album has_song
tables-Free j h = (ground arith, ground arith, ground arith)

tables-IsSound : IsSound tables
unfolding album_artist has_artist has_song bytes_eq
tables-IsSound = ((refl, (refl, tt)), (refl, tt), (refl, tt), (refl, tt), (refl, tt))

scan_lem_example :
    (u : Tables) × (run new_id (λ p. true) visits (info ∷ []) (unfailing tables)
      ≡ (unfailing u, some tt))
    × IsLibrary u
    × ((q : Bytes)
        → has_path q u.songs ≡ (
            one_of q (walked visits tables).seen_paths
            && (has_path q tables.songs
                || in_results q (reads (read_track files) (walked visits tables).jobs))))
scan_lem_example =
    scan_lem new_id new_id-Differ (λ p. true) visits files tables 4 ended tables-Free tables-IsSound
      (subst (λ js. Steps (read_track files) (start js) 4 ended) (sym jobs_sent) steps)
      (refl, refl, refl, refl) ((omega arith, (omega arith, (omega arith, tt))), tt)

-- The COMMIT of the batch fails.
run-IsSound_example :
    IsSound
      ((run new_id
          (λ p. true)
          visits
          (info ∷ [])
          (record {
            tables = tables;
            faults = false ∷ false ∷ false ∷ false ∷ false ∷ false ∷ true ∷ [];
          })).0
        ).tables
run-IsSound_example =
    run-IsSound new_id new_id-Differ (λ p. true) visits (info ∷ [])
      (record {
        tables = tables;
        faults = false ∷ false ∷ false ∷ false ∷ false ∷ false ∷ true ∷ [];
      })
      tables-IsSound tables-Free ((omega arith, (omega arith, (omega arith, tt))), tt)

walk_lem_example :
    ((walk (known_files tables.songs) visits nothing_walked).jobs
      ≡ map job_of (due tables.songs (statted visits)))
    × (lookup (codes "/m") (walk (known_files tables.songs) visits nothing_walked).folder_art
        ≡ first_art (codes "/m") visits)
unfolding bytes_eq has_path
walk_lem_example = walk_lem tables.songs visits (codes "/m") (refl, (refl, tt))

due-visits : due tables.songs (statted visits) ≡ codes "/m/new.ogg" ∷ []
unfolding due statted preamp.Scan.Walk.Due.is_known one_of bytes_eq preamp.Scan.Path.extension
    preamp.Auth.ApiKey.to_lower
due-visits = refl
