-- ===== src/Db.antt =====
-- The tables of internal/db/schema.go that the modelled handlers use, and the connection that
-- internal/db/db.go gives them: a statement that the engine fails, or that would break a constraint
-- (foreign keys are on), is an error and changes nothing; a transaction is a copy to go back to.
pub mod Transaction
pub mod Ensures
pub mod Handler
pub mod Outcome
pub mod Keeps
pub mod Clean
pub mod Safe
pub mod Always
use preamp.Base.{◌||◌, ℕ, List, Option, some, if◌then◌else◌, Bool, none, false, ◌∷◌, []}
use preamp.Base.Int.{ℤ}
use preamp.Base.Text.{Bytes, bytes_eq}

pub record Playlist : Type 0 where
  pub id : Bytes
  pub user_id : Bytes
  pub name : Bytes
  pub comment : Bytes
  pub public : ℕ
  pub created_at : Bytes
  pub updated_at : Bytes

pub record PlaylistSong : Type 0 where
  pub playlist_id : Bytes
  pub song_id : Bytes
  pub position : ℕ

-- Without created_at, which the modelled handlers do not read.
pub record Star : Type 0 where
  pub id : Bytes
  pub user_id : Bytes
  pub item_id : Bytes
  pub item_type : Bytes

pub record Rating : Type 0 where
  pub user_id : Bytes
  pub item_id : Bytes
  pub rating : ℕ

pub record Play : Type 0 where
  pub id : Bytes
  pub song_id : Bytes
  pub user_id : Bytes
  pub played_at : Bytes

pub record Artist : Type 0 where
  pub id : Bytes
  pub name : Bytes

-- `cover_art` is `none` for NULL. Without created_at.
pub record Album : Type 0 where
  pub id : Bytes
  pub artist_id : Bytes
  pub name : Bytes
  pub year : ℤ
  pub genre : Bytes
  pub cover_art : Option Bytes
  pub song_count : ℕ
  pub duration : ℕ

-- `file_mtime` is nanoseconds since 1970. Without created_at.
pub record Song : Type 0 where
  pub id : Bytes
  pub album_id : Bytes
  pub artist_id : Bytes
  pub title : Bytes
  pub track : ℤ
  pub disc : ℤ
  pub year : ℤ
  pub genre : Bytes
  pub duration : ℕ
  pub size : ℕ
  pub suffix : Bytes
  pub bitrate : ℕ
  pub content_type : Bytes
  pub path : Bytes
  pub file_mtime : ℕ

-- What the full-text index is given of a song.
pub record FtsRow : Type 0 where
  pub title : Bytes
  pub artist_name : Bytes
  pub album_name : Bytes

-- The rows of the tables. `fts` is song_fts, which is `none` while it is dropped.
pub record Tables : Type 0 where
  pub playlists : List Playlist
  pub entries : List PlaylistSong
  pub artists : List Artist
  pub albums : List Album
  pub songs : List Song
  pub stars : List Star
  pub ratings : List Rating
  pub plays : List Play
  pub fts : Option (List FtsRow)

-- A foreign key that refers to song(id).
unfoldable pub has_song : Bytes → List Song → Bool
has_song id [] = false
has_song id (s ∷ ss) = bytes_eq id s.id || has_song id ss

-- `faults` says of the coming statements whether the engine fails them, and none beyond its end.
pub record Run : Type 0 where
  pub tables : Tables
  pub faults : List Bool

-- `none` is the error that ends a handler's work.
abbrev pub Db : Type 0 → Type 0
Db A = Run → Run × Option A

abbrev pub pure : {A : Type 0} → A → Db A
pure a s = (s, some a)

infixl 5 ◌>>=◌ ◌>>◌
abbrev pub ◌>>=◌ : {A B : Type 0} → Db A → (A → Db B) → Db B
◌>>=◌ m f s = let (s', r) = m s in elim r [ none ↦ (s', none) | some a ↦ f a s' ]

abbrev pub ◌>>◌ : {B : Type 0} → Db (Unit {0}) → Db B → Db B
m >> k = m >>= λ _. k

-- Whether the engine fails the statement that comes next, and what is left of the faults.
unfoldable pub next_fault : List Bool → Bool × List Bool
next_fault [] = (false, [])
next_fault (b ∷ bs) = (b, bs)

-- `sqlitex.ExecuteTransient` of a statement that writes; `none` is a broken constraint.
unfoldable pub execute : (Tables → Option Tables) → Db (Unit {0})
unfolding next_fault
execute statement s =
    let (fault, rest) = next_fault s.faults in
    if fault
    then (record { tables = s.tables; faults = rest }, none)
    else elim (statement s.tables) [
      | none ↦ (record { tables = s.tables; faults = rest }, none)
      | some t ↦ (record { tables = t; faults = rest }, some tt)
    ]

-- The same of a statement with RETURNING.
unfoldable pub returning : {A : Type 0} → (Tables → Option (Tables × A)) → Db A
unfolding next_fault
returning statement s =
    let (fault, rest) = next_fault s.faults in
    if fault
    then (record { tables = s.tables; faults = rest }, none)
    else elim (statement s.tables) [
      | none ↦ (record { tables = s.tables; faults = rest }, none)
      | some (t, a) ↦ (record { tables = t; faults = rest }, some a)
    ]

-- The same of a `SELECT`.
unfoldable pub query : {A : Type 0} → (Tables → A) → Db A
unfolding next_fault
query select s =
    let (fault, rest) = next_fault s.faults in
    (record { tables = s.tables; faults = rest }, if fault then none else some (select s.tables))
