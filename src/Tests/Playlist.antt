-- ===== src/Tests/Playlist.antt =====
-- A library of three songs and a playlist of two of them, and the theorems on the playlist handlers at
-- requests on it.
use preamp.Base.{false, true, Bool, List, [], ◌∷◌, none, some, ◌≡◌, refl, inr}
use preamp.Base.Text.{Bytes, codes, bytes_eq}
use preamp.Db.{Tables, Song}
use preamp.Base.Int.{pos}
use preamp.Db.Transaction.{committed}
use preamp.Db.Handler.{refused, done, listed}
use preamp.Playlist.{Form, create_playlist, update_playlist, delete_playlist, target, parse_indices}
use preamp.Playlist.Statements.{new_playlist, rows_of}
use preamp.Playlist.Rows.{numbered}
use preamp.Playlist.Removal.{keep}
use preamp.Db.Outcome.{Answered}
use preamp.Playlist.Atomic.{Kept, write_handlers-Kept}
use preamp.Playlist.Update.{Lists, edited, update_playlist_lem}
use preamp.Playlist.Create.{CreateAnswered, Created, create_playlist_lem}
use preamp.Playlist.Owner.{OthersKept}
use preamp.Playlist.Owner.Handlers.{write_handlers-OthersKept}
use preamp.Playlist.Delete.{Deleted, delete_playlist_lem}

abbrev now : Bytes
now = codes "2026-01-02T03:04:05"

abbrev alice : Bytes
alice = codes "alice"

abbrev mallory : Bytes
mallory = codes "mallory"

abbrev song : Bytes → Song
song id = record {
  id = id;
  album_id = [];
  artist_id = [];
  title = [];
  track = pos 0;
  disc = pos 0;
  year = pos 0;
  genre = [];
  duration = 0;
  size = 0;
  suffix = [];
  bitrate = 0;
  content_type = [];
  path = id;
  file_mtime = 0;
}

abbrev tables : Tables
tables = record {
  playlists = new_playlist now (codes "p") alice (codes "mix") ∷ [];
  entries =
      record { playlist_id = codes "p"; song_id = codes "s1"; position = 0 }
      ∷ record { playlist_id = codes "p"; song_id = codes "s2"; position = 1 }
      ∷ [];
  songs = song (codes "s1") ∷ song (codes "s2") ∷ song (codes "s3") ∷ [];
  artists = [];
  albums = [];
  fts = none;
  stars = [];
  ratings = [];
  plays = [];
}

abbrev fifth_fails : List Bool
fifth_fails = false ∷ false ∷ false ∷ false ∷ true ∷ []

abbrev two_songs : List Bytes
two_songs = codes "s1" ∷ codes "s2" ∷ []

abbrev edit : Form
edit = record {
  playlist_id = codes "p";
  name = codes "best";
  song_ids = [];
  comment = none;
  public = some (codes "true");
  song_index_to_remove = codes "0" ∷ codes "x" ∷ [];
  song_id_to_add = codes "s3" ∷ codes "s1" ∷ [];
}

abbrev creation : Form
creation = record {
  playlist_id = [];
  name = codes "new";
  song_ids = codes "s3" ∷ codes "s3" ∷ codes "s1" ∷ [];
  comment = none;
  public = none;
  song_index_to_remove = [];
  song_id_to_add = [];
}

edited_songs : edited edit two_songs ≡ (codes "s2" ∷ codes "s3" ∷ codes "s1" ∷ [])
unfolding keep preamp.Playlist.Removal.listed_index parse_indices
    preamp.Playlist.Statements.at_index
edited_songs = refl

update_playlist_lem_example :
    Answered
      (Lists tables edit two_songs (edited edit two_songs))
      tables
      fifth_fails
      (update_playlist now alice (some edit) tables fifth_fails)
unfolding preamp.Playlist.Statements.has_playlist bytes_eq numbered rows_of preamp.Db.has_song
update_playlist_lem_example =
    update_playlist_lem tables edit two_songs now alice fifth_fails refl refl
      (refl, refl, refl, λ j ne. refl) (refl, (refl, tt)) (refl, (refl, tt))

create_playlist_lem_example :
    CreateAnswered
      (Created tables creation (codes "q"))
      (codes "q")
      (codes "s3" ∷ codes "s3" ∷ codes "s1" ∷ [])
      tables
      []
      (create_playlist now (codes "q") alice (some creation) tables [])
unfolding preamp.Playlist.Statements.has_playlist bytes_eq rows_of preamp.Db.has_song
create_playlist_lem_example =
    create_playlist_lem tables creation (codes "q") now alice [] refl refl
      (inr (refl, refl, refl, refl)) (refl, (refl, (refl, tt)))

delete_playlist_lem_example :
    Answered
      (Deleted tables mallory (codes "p"))
      tables
      []
      (delete_playlist mallory (codes "p") tables [])
delete_playlist_lem_example = delete_playlist_lem tables mallory (codes "p") [] refl refl

-- The second song's INSERT fails.
create_refused :
    (create_playlist now (codes "q") alice (some creation) tables fifth_fails).1 ≡ refused 0
unfolding create_playlist preamp.Db.Handler.on_write_conn preamp.Db.Transaction.in_transaction
    preamp.Playlist.create_statements preamp.Playlist.prepare_playlist preamp.Playlist.insert_songs
    preamp.Db.execute preamp.Db.next_fault preamp.Playlist.Statements.insert_playlist
    preamp.Playlist.Statements.has_playlist bytes_eq preamp.Playlist.Statements.insert_entry
    preamp.Db.has_song preamp.Playlist.Statements.taken preamp.Db.Transaction.roll_back
create_refused = refl

write_handlers-Kept_example :
    Kept tables (create_playlist now (codes "q") alice (some creation) tables fifth_fails)
    × Kept tables (update_playlist now alice (some creation) tables fifth_fails)
    × Kept tables (delete_playlist alice (codes "p") tables fifth_fails)
write_handlers-Kept_example =
    write_handlers-Kept now (codes "q") alice (codes "p") (some creation) tables fifth_fails

-- Without a fault, the songs are read back.
create_listed :
    (create_playlist now (codes "q") alice (some creation) tables []).1
    ≡ listed (some (new_playlist now (codes "q") alice (codes "new"))) creation.song_ids
unfolding create_playlist preamp.Db.Handler.on_write_conn preamp.Db.Transaction.in_transaction
    preamp.Playlist.create_statements preamp.Playlist.prepare_playlist preamp.Db.execute
    preamp.Playlist.Statements.insert_playlist preamp.Playlist.Statements.has_playlist bytes_eq
    preamp.Playlist.insert_songs preamp.Playlist.Statements.insert_entry preamp.Db.has_song
    preamp.Playlist.Statements.taken preamp.Playlist.read_back preamp.Db.query
    preamp.Playlist.Statements.find_playlist preamp.Playlist.Statements.select_songs
    preamp.Playlist.Statements.ordered preamp.Playlist.Statements.rows_of
    preamp.Db.Transaction.commit preamp.Db.next_fault preamp.Playlist.Statements.by_position
create_listed = refl

write_handlers-OthersKept_example :
    OthersKept mallory tables
      ((create_playlist now (codes "q") mallory (some edit) tables fifth_fails).0).tables
    × OthersKept mallory tables
        ((update_playlist now mallory (some edit) tables fifth_fails).0).tables
    × OthersKept mallory tables ((delete_playlist mallory (codes "p") tables fifth_fails).0).tables
write_handlers-OthersKept_example =
    write_handlers-OthersKept mallory tables now (codes "q") (codes "p") (some edit) fifth_fails
