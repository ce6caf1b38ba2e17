-- ===== src/Scan/Writer.antt =====
-- insertBatch, upsertArtist, upsertAlbum and upsertSong of internal/scanner/scanner.go, and the batches of
-- the writer of Scanner.Run.
pub mod Rows
pub mod Lookup
pub mod Cache
pub mod Total
pub mod Batches
pub mod Results
pub mod Faults
use preamp.Base.{
  ℕ, suc, Bool, true, false, List, [], ◌∷◌, ◌++◌, Option, none, some, leb, if◌then◌else◌, length,
}
use preamp.Base.Dict.{lookup, insert}
use preamp.Base.Text.{Bytes}
use preamp.Db.{Tables, Run, Song, Db, pure, ◌>>=◌, ◌>>◌, next_fault, execute, returning}
use preamp.Scan.Statements.{upsert_artist_row, upsert_album_row, upsert_song_row}
use preamp.Scan.Track.{TrackInfo}

-- `endFn(&err)` of sqlitex.ImmediateTransaction: COMMIT if the error is nil and ROLLBACK otherwise. The
-- Boolean is whether the error is nil behind it: a COMMIT that fails sets it, and commits nothing.
unfoldable pub end_fn : Tables → Bool → Run → Run × Bool
unfolding next_fault
end_fn before false r = (record { tables = before; faults = r.faults }, false)
end_fn before true r =
    let (fault, rest) = next_fault r.faults in
    if fault
    then (record { tables = before; faults = rest }, false)
    else (record { tables = r.tables; faults = rest }, true)

abbrev pub is_some : {A : Type 0} → Option A → Bool
is_some none = false
is_some (some a) = true

-- The IDs that are known in a batch, and how many have been drawn from `db.NewID`.
pub record Batch : Type 0 where
  pub artist_ids : List (Bytes × Bytes)
  pub album_ids : List (Bytes × Bytes)
  pub drawn : ℕ

abbrev pub new_batch : ℕ → Batch
new_batch n = record { artist_ids = []; album_ids = []; drawn = n }

-- `t.artist + "\\x00" + t.album`.
abbrev pub album_key : TrackInfo → Bytes
album_key t = t.artist ++ (0 ∷ t.album)

unfoldable pub song_row : Bytes → TrackInfo → Bytes → Bytes → Song
song_row id t artist_id album_id = record {
  id = id;
  album_id = album_id;
  artist_id = artist_id;
  title = t.title;
  track = t.track;
  disc = t.disc;
  year = t.year;
  genre = t.genre;
  duration = t.duration;
  size = t.size;
  suffix = t.ext;
  bitrate = t.bitrate;
  content_type = t.content_type;
  path = t.path;
  file_mtime = t.file_mtime;
}

-- `new_id` is the sequence of ids that `db.NewID` draws.
module _ (new_id : ℕ → Bytes) where
  -- The id, and the batch that knows it.
  unfoldable pub find_artist : TrackInfo → Batch → Db (Bytes × Batch)
  find_artist t b = elim (lookup t.artist b.artist_ids) [
    | some id ↦ pure (id, b)
    | none ↦ returning (upsert_artist_row (new_id b.drawn) t.artist) >>= λ id.
        pure (id, record b { artist_ids = insert t.artist id b.artist_ids; drawn = suc b.drawn })
  ]

  unfoldable pub find_album : Bytes → TrackInfo → Batch → Db (Bytes × Batch)
  find_album artist_id t b = elim (lookup (album_key t) b.album_ids) [
    | some id ↦ pure (id, b)
    | none ↦
        returning (upsert_album_row (new_id b.drawn) artist_id t.album t.year t.genre) >>= λ id.
        pure (id, record b { album_ids = insert (album_key t) id b.album_ids; drawn = suc b.drawn })
  ]

  unfoldable pub upsert_song : TrackInfo → Bytes → Bytes → Batch → Db Batch
  upsert_song t artist_id album_id b =
      execute (upsert_song_row (song_row (new_id b.drawn) t artist_id album_id))
      >> pure (record b { drawn = suc b.drawn })

  unfoldable pub insert_track : TrackInfo → Batch → Db Batch
  insert_track t b =
      find_artist t b >>= λ a. find_album a.0 t a.1 >>= λ al. upsert_song t a.0 al.0 al.1

  unfoldable pub insert_tracks : List TrackInfo → Batch → Db Batch
  insert_tracks [] b = pure b
  insert_tracks (t ∷ ts) b = insert_track t b >>= λ b'. insert_tracks ts b'

  -- The result is not named, so what endFn stores in `err` behind the `return` is lost.
  unfoldable pub insert_batch : List TrackInfo → ℕ → Db ℕ
  unfolding next_fault end_fn
  insert_batch tracks n s =
      let (fault, rest) = next_fault s.faults in
      if fault
      then (record { tables = s.tables; faults = rest }, none)
      else let (r, result) =
          insert_tracks tracks (new_batch n) (record { tables = s.tables; faults = rest }) in
        let (r', good) = end_fn s.tables (is_some result) r in
        (r', elim result [ none ↦ none | some b ↦ some b.drawn ])

-- The rest that is left at the end of such a loop, if there is any.
unfoldable pub flush : {A S : Type 0} → (List A → S → Db S) → List A → S → Db S
flush f [] s = pure s
flush f (b ∷ bs) s = f (b ∷ bs) s

-- A loop that hands over `size` items at a time, and the rest at the end.
unfoldable pub in_batches : {A S : Type 0} → ℕ → (List A → S → Db S) → List A → List A → S → Db S
unfolding flush
in_batches size f batch [] s = flush f batch s
in_batches size f batch (x ∷ xs) s = elim (leb size (length (batch ++ (x ∷ [])))) [
  | true ↦ f (batch ++ (x ∷ [])) s >>= λ s'. in_batches size f [] xs s'
  | false ↦ in_batches size f (batch ++ (x ∷ [])) xs s
]

abbrev pub batch_size : ℕ
batch_size = 1000

-- The writer over all that it receives. Behind an error it only drains the channel.
unfoldable pub write_results : (ℕ → Bytes) → List TrackInfo → ℕ → Db ℕ
unfolding in_batches
write_results new_id results n = in_batches batch_size (insert_batch new_id) [] results n
