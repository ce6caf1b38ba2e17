-- ===== src/Scan/Writer/Total.antt =====
-- insertBatch and the writer of internal/scanner/scanner.go where the engine fails no statement.
use preamp.Db.Clean.{Clean}
use preamp.Db.Safe.{
  Safe, Safe-bind, Safe-pure, Safe-then, Safe-returning, Safe-execute, Safe-weaken, Safe-Clean,
}
use preamp.Base.{
  ℕ, Bool, true, false, ◌||◌, List, [], ◌∷◌, All, none, some, ◌≡◌, refl, sym, ◌∙◌, arith, inl, inr,
  Option-cases, suc, ◌≢◌, Option,
}
use preamp.Base.Dict.{lookup, insert, lookup-insert_self}
use preamp.Base.Text.{Bytes, bytes_eq}
use preamp.Db.{Tables, ◌>>=◌, Song, returning, pure, execute, next_fault}
use preamp.Scan.Integrity.{album_artist}
use preamp.Scan.Statements.{has_artist, upsert_artist_row, upsert_album_row, upsert_song_row}
use preamp.Scan.Track.{TrackInfo}
use preamp.Scan.Writer.{
  Batch, album_key, find_artist, find_album, insert_track, upsert_song, song_row, insert_tracks,
  new_batch, insert_batch, end_fn,
}
use preamp.Scan.Writer.Cache.{NoNul, Cached, Ready, Cached-Grows, Cached-artist, Cached-album}
use preamp.Scan.Writer.Rows.{
  Differ, Holds, upsert_artist_row-Holds, upsert_album_row-Holds, upsert_song_row-Holds,
}

unfoldable pub in_results : Bytes → List TrackInfo → Bool
in_results p [] = false
in_results p (t ∷ ts) = bytes_eq p t.path || in_results p ts

module _ (new_id : ℕ → Bytes) (differ : Differ new_id) where
  abbrev ArtistFound : (Bytes → Bool) → TrackInfo → Bytes × Batch → Tables → Type 0
  ArtistFound f t (id, b) u =
      Ready new_id differ f b u
      × (has_artist id u.artists ≡ true)
      × (lookup t.artist b.artist_ids ≡ some id)

  find_artist-Safe :
      (f : Bytes → Bool) (t : TrackInfo) (b : Batch)
      → Safe (Ready new_id differ f b) (find_artist new_id t b) (ArtistFound f t)
  unfolding find_artist
  find_artist-Safe f t b = elim (Option-cases (lookup t.artist b.artist_ids)) [
    | inr (id, e) ↦
        rw (e, find_artist)
          (Safe-pure (Ready new_id differ f b) (ArtistFound f t) (id, b)
            (λ u r. (r, r.1.0 t.artist id e, e)))
    | inl e ↦
        let b' : Bytes → Batch =
          λ id. record b { artist_ids = insert t.artist id b.artist_ids; drawn = suc b.drawn } in
        let R : Bytes → Tables → Type 0 = λ id u. ArtistFound f t (id, b' id) u in
        rw (e, find_artist)
          (Safe-bind (Ready new_id differ f b) R (ArtistFound f t)
            (returning (upsert_artist_row (new_id b.drawn) t.artist)) (λ id. pure (id, b' id))
            (Safe-returning (Ready new_id differ f b) R
              (upsert_artist_row (new_id b.drawn) t.artist)
              (λ v (h, c).
                let (u, id, done, held, there, grows) =
                  upsert_artist_row-Holds new_id differ f b.drawn t.artist v h in
                (
                  u,
                  id,
                  done,
                  (
                    (
                      held,
                      Cached-artist new_id differ b u t.artist id (suc b.drawn) e there
                          (Cached-Grows new_id differ b v u grows c),
                    ),
                    there,
                    lookup-insert_self t.artist id b.artist_ids,
                  ),
                )))
            (λ id. Safe-pure (R id) (ArtistFound f t) (id, b' id) (λ u r. r)))
  ]

  -- The artist is still known where the album is found.
  abbrev AlbumFound : (Bytes → Bool) → Bytes → Bytes × Batch → Tables → Type 0
  AlbumFound f artist (id, b) u =
      Ready new_id differ f b u
      × (has_artist artist u.artists ≡ true)
      × (album_artist id u.albums ≡ some artist)

  find_album-Safe :
      (f : Bytes → Bool) (t : TrackInfo) (artist : Bytes) (b : Batch)
      → NoNul t.artist
      → Safe (ArtistFound f t (artist, b)) (find_album new_id artist t b) (AlbumFound f artist)
  unfolding find_album
  find_album-Safe f t artist b ok = elim (Option-cases (lookup (album_key t) b.album_ids)) [
    | inr (id, e) ↦
        rw (e, find_album)
          (Safe-pure (ArtistFound f t (artist, b)) (AlbumFound f artist) (id, b)
            (λ u (r, there, this).
              let (a, k, x) = r.1.1 t id ok e in
              let same : some a ≡ some artist = sym k ∙ this in (r, there, x ∙ same)))
    | inl e ↦
        let b' : Bytes → Batch =
          λ id. record b { album_ids = insert (album_key t) id b.album_ids; drawn = suc b.drawn } in
        let R : Bytes → Tables → Type 0 = λ id u. AlbumFound f artist (id, b' id) u in
        rw (e, find_album)
          (Safe-bind (ArtistFound f t (artist, b)) R (AlbumFound f artist)
            (returning (upsert_album_row (new_id b.drawn) artist t.album t.year t.genre))
            (λ id. pure (id, b' id))
            (Safe-returning (ArtistFound f t (artist, b)) R
              (upsert_album_row (new_id b.drawn) artist t.album t.year t.genre)
              (λ v (r, there, this).
                let (u, id, done, held, on, grows) =
                  upsert_album_row-Holds new_id differ f b.drawn artist t.album t.genre t.year v
                    there r.0 in
                (
                  u,
                  id,
                  done,
                  (
                    (
                      held,
                      Cached-album new_id differ b u t artist id (suc b.drawn) ok this on
                          (Cached-Grows new_id differ b v u grows r.1),
                    ),
                    grows.0 artist there,
                    on,
                  ),
                )))
            (λ id. Safe-pure (R id) (AlbumFound f artist) (id, b' id) (λ u r. r)))
  ]

  abbrev pub Next : (Bytes → Bool) → Batch → Tables → Type 0
  Next f b u = Ready new_id differ f b u

  insert_track-Safe :
      (f : Bytes → Bool) (t : TrackInfo) (b : Batch)
      → NoNul t.artist
      → Safe
          (Ready new_id differ f b)
          (insert_track new_id t b)
          (Next (λ p. bytes_eq p t.path || f p))
  unfolding insert_track upsert_song song_row
  insert_track-Safe f t b ok =
      let g : Bytes → Bool = λ p. bytes_eq p t.path || f p in
      Safe-bind (Ready new_id differ f b) (ArtistFound f t) (Next g) (find_artist new_id t b)
        (λ a. find_album new_id a.0 t a.1 >>= λ al. upsert_song new_id t a.0 al.0 al.1)
        (find_artist-Safe f t b)
        (λ a.
          Safe-bind (ArtistFound f t a) (AlbumFound f a.0) (Next g) (find_album new_id a.0 t a.1)
            (λ al. upsert_song new_id t a.0 al.0 al.1) (find_album-Safe f t a.0 a.1 ok)
            (λ al.
              let row : Song = song_row (new_id al.1.drawn) t a.0 al.0 in
              let last : Batch = record (al.1) { drawn = suc al.1.drawn } in
              Safe-then (AlbumFound f a.0 al) (Next g last) (Next g) (execute (upsert_song_row row))
                (pure last)
                (Safe-execute (AlbumFound f a.0 al) (Next g last) (upsert_song_row row)
                  (λ v (r, there, on).
                    let (u, done, held, grows) =
                      upsert_song_row-Holds new_id differ f al.1.drawn row v refl there on r.0 in
                    (u, done, (held, Cached-Grows new_id differ al.1 v u grows r.1))))
                (Safe-pure (Next g last) (Next g) last (λ u r. r))))

  pub insert_tracks-Safe :
      (f : Bytes → Bool) (ts : List TrackInfo) (b : Batch)
      → All (λ (t : TrackInfo). NoNul t.artist) ts
      → Safe
          (Ready new_id differ f b)
          (insert_tracks new_id ts b)
          (Next (λ p. in_results p ts || f p))
  unfolding insert_tracks in_results
  insert_tracks-Safe f [] b ok = Safe-pure (Ready new_id differ f b) (Next f) b (λ u r. r)
  insert_tracks-Safe f (t ∷ ts) b (ok, oks) =
      let g : Bytes → Bool = λ p. bytes_eq p t.path || f p in
      let h : Bytes → Bool = λ p. in_results p ts || g p in
      let k : Bytes → Bool = λ p. (bytes_eq p t.path || in_results p ts) || f p in
      Safe-weaken (Ready new_id differ f b) (Next h) (Next k)
        (insert_track new_id t b >>= λ b'. insert_tracks new_id ts b')
        (λ b' u (held, cached). ((held.0, held.1, λ p. held.2 p ∙ ground arith), cached))
        (Safe-bind (Ready new_id differ f b) (Next g) (Next h) (insert_track new_id t b)
          (λ b'. insert_tracks new_id ts b') (insert_track-Safe f t b ok)
          (λ b'. insert_tracks-Safe g ts b' oks))

  pub new_batch-Cached : (n : ℕ) (u : Tables) → Cached new_id differ (new_batch n) u
  unfolding lookup
  new_batch-Cached n u = (λ m i e. ground (arith, e), λ t i ok e. elim (none_some i e) [ ])
    where
      none_some : (i : Bytes) → ◌≢◌ {A = Option Bytes} none (some i)
      none_some i e = ground (arith, e)

  -- A batch commits its tracks and nothing else.
  pub insert_batch-Clean :
      (f : Bytes → Bool) (ts : List TrackInfo) (n : ℕ)
      → All (λ (t : TrackInfo). NoNul t.artist) ts
      → Clean
          (Holds new_id differ f n)
          (insert_batch new_id ts n)
          (Holds new_id differ (λ p. in_results p ts || f p))
  unfolding insert_batch end_fn next_fault
  insert_batch-Clean f ts n ok t h =
      let (u, b, e, q) =
        Safe-Clean (Ready new_id differ f (new_batch n)) (Next (λ p. in_results p ts || f p))
          (insert_tracks new_id ts (new_batch n)) (insert_tracks-Safe f ts (new_batch n) ok) t
          (h, new_batch-Cached n t) in
      (u, b.drawn, rw e refl, q.0)
