-- ===== src/Scan/Writer/Rows.antt =====
-- The upserts of internal/scanner/scanner.go on sound tables.
use preamp.Scan.Writer.Lookup.{
  artist_named-exists, album_named-id, has_album-artist, put_song-All, put_song-has_song,
  put_song-not-has_song, put_song-has_path,
}
use preamp.Base.{
  ℕ, suc, ◌≤◌, ◌<◌, Bool, true, false, ◌||◌, [], ◌∷◌, ◌++◌, map, some, ◌≡◌, refl, ap, ◌∙◌, arith,
  Option-cases, inl, inr,
}
use preamp.Base.Dict.{bytes_eq_refl}
use preamp.Base.Int.{ℤ}
use preamp.Base.Text.{Bytes, bytes_eq}
use preamp.Db.{Tables, Artist, Album, Song, has_song}
use preamp.Scan.Integrity.{
  album_artist, IsSound, All-map, All-append, has_artist-append, has_album-append,
  album_artist-append, album_artist-append_new, retag, retag-Same, retag_album-eq-map,
  album_artist-map, has_album-map, map-IsSound, Same,
}
use preamp.Scan.Statements.{
  has_artist, has_album, has_path, put_song, artist_named, album_named, new_album,
  upsert_artist_row, upsert_album_row, upsert_song_row,
}

-- The ids that are drawn differ.
abbrev pub Differ : (ℕ → Bytes) → Type 0
Differ new_id = (j k : ℕ) → k < j → bytes_eq (new_id j) (new_id k) ≡ false

module _ (new_id : ℕ → Bytes) (differ : Differ new_id) where
  -- The ids from the n-th on are those of no row.
  abbrev pub Free : ℕ → Tables → Type 0
  Free n t =
      (j : ℕ)
      → n ≤ j
      → (has_artist (new_id j) t.artists ≡ false)
        × (has_album (new_id j) t.albums ≡ false)
        × (has_song (new_id j) t.songs ≡ false)

  -- Sound tables with free ids, whose songs have the paths that `f` says.
  abbrev pub Holds : (Bytes → Bool) → ℕ → Tables → Type 0
  Holds f n t = IsSound t × Free n t × ((p : Bytes) → has_path p t.songs ≡ f p)

  -- Nothing that is known of artists and albums is lost.
  abbrev pub Grows : Tables → Tables → Type 0
  Grows t u =
      ((id : Bytes) → has_artist id t.artists ≡ true → has_artist id u.artists ≡ true)
      × ((id x : Bytes) → album_artist id t.albums ≡ some x → album_artist id u.albums ≡ some x)

  pub upsert_artist_row-Holds :
      (f : Bytes → Bool) (n : ℕ) (name : Bytes) (t : Tables)
      → Holds f n t
      → (u : Tables) × (id : Bytes) × (upsert_artist_row (new_id n) name t ≡ some (u, id))
        × Holds f (suc n) u
        × (has_artist id u.artists ≡ true)
        × Grows t u
  unfolding upsert_artist_row
  upsert_artist_row-Holds f n name t (sound, free, paths) =
      elim (Option-cases (artist_named name t.artists)) [
        | inr (id, e) ↦ (
          t,
          id,
          rw (e, upsert_artist_row) refl,
          (sound, λ j h. free j (omega (arith, h)), paths),
          artist_named-exists name t.artists id e,
          (λ i h. h, λ i x h. h),
        )
        | inl e ↦
            let a : Artist = record { id = new_id n; name = name } in
            let u : Tables = record t { artists = t.artists ++ (a ∷ []) } in
            let more : (i : Bytes) → has_artist i t.artists ≡ true → has_artist i u.artists ≡ true =
              λ i h. has_artist-append i t.artists a ∙ ap (λ b. b || bytes_eq i (new_id n)) h in
            (
              u,
              new_id n,
              rw (e, (free n (omega arith)).0, upsert_artist_row) refl,
              (
                (
                  sound.0,
                  All-map _ _ t.albums (λ al h. more al.artist_id h) sound.1,
                  sound.2,
                  sound.3,
                  sound.4,
                ),
                λ j h. (
                  has_artist-append (new_id j) t.artists a
                      ∙ ground
                          (arith, (free j (omega (arith, h))).0, differ j n (omega (arith, h))),
                  (free j (omega (arith, h))).1,
                  (free j (omega (arith, h))).2,
                ),
                paths,
              ),
              has_artist-append (new_id n) t.artists a ∙ ground (arith, bytes_eq_refl (new_id n)),
              (more, λ i x h. h),
            )
      ]

  pub upsert_album_row-Holds :
      (f : Bytes → Bool) (n : ℕ) (artist_id name genre : Bytes) (year : ℤ) (t : Tables)
      → has_artist artist_id t.artists ≡ true
      → Holds f n t
      → (u : Tables) × (id : Bytes) × (upsert_album_row (new_id n) artist_id name year genre t
          ≡ some (u, id))
        × Holds f (suc n) u
        × (album_artist id u.albums ≡ some artist_id)
        × Grows t u
  unfolding upsert_album_row
  upsert_album_row-Holds f n artist_id name genre year t known (sound, free, paths) =
      elim (Option-cases (album_named artist_id name t.albums)) [
        | inr (id, e) ↦
            let g : Album → Album = retag artist_id name year genre in
            let h : (a : Album) → Same (g a) a = retag-Same artist_id name genre year in
            let u : Tables = record t { albums = map g t.albums } in
            (
              u,
              id,
              rw (e, upsert_album_row, retag_album-eq-map artist_id name genre year t.albums) refl,
              (
                map-IsSound t g h sound,
                λ j le. (
                  (free j (omega (arith, le))).0,
                  has_album-map (new_id j) g t.albums h ∙ (free j (omega (arith, le))).1,
                  (free j (omega (arith, le))).2,
                ),
                paths,
              ),
              album_artist-map id g t.albums h
                  ∙ album_named-id artist_id name t.albums t.albums id sound.2 e,
              (λ i x. x, λ i x y. album_artist-map i g t.albums h ∙ y),
            )
        | inl e ↦
            let a : Album = new_album (new_id n) artist_id name year genre in
            let u : Tables = record t { albums = t.albums ++ (a ∷ []) } in
            let fresh = (free n (omega arith)).1 in
            let more : (i x : Bytes)
                → album_artist i t.albums ≡ some x
                → album_artist i u.albums ≡ some x =
              λ i x. album_artist-append i t.albums a x in
            let itself : album_artist (new_id n) u.albums ≡ some artist_id =
              album_artist-append_new t.albums a fresh in
            (
              u,
              new_id n,
              rw (e, known, fresh, upsert_album_row) refl,
              (
                (
                  All-map _ _ t.songs (λ s h. more s.album_id s.artist_id h) sound.0,
                  All-append (λ (b : Album). has_artist b.artist_id t.artists ≡ true) t.albums
                      (a ∷ []) sound.1 (known, tt),
                  All-append (λ (b : Album). album_artist b.id u.albums ≡ some b.artist_id) t.albums
                      (a ∷ []) (All-map _ _ t.albums (λ b h. more b.id b.artist_id h) sound.2)
                      (itself, tt),
                  sound.3,
                  sound.4,
                ),
                λ j le. (
                  (free j (omega (arith, le))).0,
                  has_album-append (new_id j) t.albums a
                      ∙ ground
                          (arith, (free j (omega (arith, le))).1, differ j n (omega (arith, le))),
                  (free j (omega (arith, le))).2,
                ),
                paths,
              ),
              itself,
              (λ i h. h, more),
            )
      ]

  pub upsert_song_row-Holds :
      (f : Bytes → Bool) (n : ℕ) (s : Song) (t : Tables)
      → s.id ≡ new_id n
      → has_artist s.artist_id t.artists ≡ true
      → album_artist s.album_id t.albums ≡ some s.artist_id
      → Holds f n t
      → (u : Tables) × (upsert_song_row s t ≡ some u)
        × Holds (λ p. bytes_eq p s.path || f p) (suc n) u
        × Grows t u
  unfolding upsert_song_row
  upsert_song_row-Holds f n s t new artist album (sound, free, paths) =
      let u : Tables = record t { songs = put_song s t.songs } in
      let there : has_album s.album_id t.albums ≡ true =
        has_album-artist s.album_id t.albums s.artist_id album in
      let unused : has_song s.id t.songs ≡ false =
        ap (λ i. has_song i t.songs) new ∙ (free n (omega arith)).2 in
      (
        u,
        ground (arith, there, artist, unused),
        (
          (
            put_song-All _ s t.songs (λ i. album) sound.0,
            sound.1,
            sound.2,
            All-map _ _ t.plays (λ p h. put_song-has_song p.song_id s t.songs h) sound.3,
            All-map _ _ t.entries (λ e h. put_song-has_song e.song_id s t.songs h) sound.4,
          ),
          λ j le. (
            (free j (omega (arith, le))).0,
            (free j (omega (arith, le))).1,
            put_song-not-has_song (new_id j) s t.songs
                (ap (bytes_eq (new_id j)) new ∙ differ j n (omega (arith, le)))
                (free j (omega (arith, le))).2,
          ),
          λ p. put_song-has_path p s t.songs ∙ ap (◌||◌ (bytes_eq p s.path)) (paths p),
        ),
        (λ i h. h, λ i x h. h),
      )
