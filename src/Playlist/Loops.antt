-- ===== src/Playlist/Loops.antt =====
-- The statements and loops of internal/api/playlists.go on the rows of one playlist. Each leaves the
-- rows of every other playlist alone.
use mathlib.Core.Path.{subst}
use preamp.Base.{
  ℕ, suc, true, false, List, [], ◌∷◌, ◌++◌, map, All, some, ◌≡◌, refl, ap, ◌∙◌, sym, append-nil,
  append_assoc,
}
use preamp.Base.Int.{ℤ}
use preamp.Base.Text.{Bytes, bytes_eq}
use preamp.Db.{has_song, Tables, PlaylistSong, execute, query, ◌>>◌}
use preamp.Db.Ensures.{Ensures, Does, Does-execute, Does-pure, Does-then, Does-query, Does-bind}
use preamp.Playlist.{insert_songs, delete_indices, resequence_playlist}
use preamp.Playlist.Statements.{
  has_playlist, rows_of, insert_entry, delete_entries, delete_entry, select_songs, without, strike,
  ordered, taken,
}
use preamp.Playlist.Rows.{
  numbered, Below, Ascending, rows_of-added_self, rows_of-added_other, Below-append,
  rows_of-without_self, rows_of-without_other, rows_of-strike_self, rows_of-strike_other,
  taken-Below, ordered-Ascending, rows_of-added_self, Below-append, rows_of-added_other,
}
use preamp.Playlist.Removal.{strike_all}

module _ (before : Tables) (id : Bytes) where
  -- The playlist exists and has these rows; nothing else differs from before.
  abbrev pub Holds : List PlaylistSong → Tables → Type 0
  Holds rows t =
      (has_playlist id t.playlists ≡ true)
      × (t.songs ≡ before.songs)
      × (rows_of id t.entries ≡ rows)
      × ((j : Bytes) → bytes_eq id j ≡ false → rows_of j t.entries ≡ rows_of j before.entries)

  abbrev pub Exist : List Bytes → Type 0
  Exist songs = All (λ song. has_song song before.songs ≡ true) songs

  pub insert_entry-Holds :
      (rows : List PlaylistSong) (k : ℕ) (song : Bytes) (t : Tables)
      → Below k rows
      → has_song song before.songs ≡ true
      → Holds rows t
      → (t' : Tables) × (insert_entry id song k t ≡ some t')
        × Holds (rows ++ (record { playlist_id = id; song_id = song; position = k } ∷ [])) t'
  unfolding insert_entry
  insert_entry-Holds rows k song t below exists (p, s, r, o) =
      let new : PlaylistSong = record { playlist_id = id; song_id = song; position = k } in
      let t' : Tables = record t { entries = t.entries ++ (new ∷ []) } in
      let free : taken id k t.entries ≡ false =
        taken-Below id k t.entries (subst (λ x. Below k x) (sym r) below) in
      let known : has_song song t.songs ≡ true = rw s exists in
      (
        t',
        rw (p, known, free) refl,
        (
          p,
          s,
          rows_of-added_self id song k t.entries ∙ ap (λ rs. rs ++ (new ∷ [])) r,
          λ j ne. rows_of-added_other id song j k t.entries ne ∙ o j ne,
        ),
      )

  pub insert_songs-Holds :
      (rows : List PlaylistSong) (k : ℕ) (songs : List Bytes)
      → Below k rows
      → Exist songs
      → Does (Holds rows) (insert_songs id k songs) (λ _. Holds (rows ++ numbered id k songs))
  unfolding insert_songs numbered
  insert_songs-Holds rows k [] below exist =
      Does-pure (Holds rows) (λ _. Holds (rows ++ [])) tt
        (λ t h. subst (λ rs. Holds rs t) (sym (append-nil rows)) h)
  insert_songs-Holds rows k (song ∷ songs) below (known, exist) =
      let new : PlaylistSong = record { playlist_id = id; song_id = song; position = k } in
      let rows' : List PlaylistSong = rows ++ (new ∷ []) in
      Does-then (Holds rows) (Holds rows') (λ _. Holds (rows ++ numbered id k (song ∷ songs)))
        (execute (insert_entry id song k)) (insert_songs id (suc k) songs)
        (Does-execute (Holds rows) (Holds rows') (insert_entry id song k)
          (λ t. insert_entry-Holds rows k song t below known))
        (subst (λ rs. Does (Holds rows') (insert_songs id (suc k) songs) (λ _. Holds rs))
          (append_assoc rows (new ∷ []) (numbered id (suc k) songs))
          (insert_songs-Holds rows' (suc k) songs (Below-append k rows new below refl) exist))

  pub delete_entries-Holds :
      (rows : List PlaylistSong) → Does (Holds rows) (execute (delete_entries id)) (λ _. Holds [])
  unfolding delete_entries
  delete_entries-Holds rows = Does-execute (Holds rows) (Holds []) (delete_entries id) (λ t h. (
    record t { entries = without id t.entries },
    refl,
    (
      h.0,
      h.1,
      rows_of-without_self id t.entries,
      λ j ne. rows_of-without_other id j t.entries ne ∙ h.3 j ne,
    ),
  ))

  pub delete_indices-Holds :
      (is : List ℤ) (rows : List PlaylistSong)
      → Does (Holds rows) (delete_indices id is) (λ _. Holds (strike_all id is rows))
  unfolding delete_indices strike_all delete_entry
  delete_indices-Holds [] rows = Does-pure (Holds rows) (λ _. Holds rows) tt (λ t h. h)
  delete_indices-Holds (i ∷ is) rows =
      Does-then (Holds rows) (Holds (strike id i rows))
        (λ _. Holds (strike_all id is (strike id i rows))) (execute (delete_entry id i))
        (delete_indices id is)
        (Does-execute (Holds rows) (Holds (strike id i rows)) (delete_entry id i) (λ t h. (
          record t { entries = strike id i t.entries },
          refl,
          (
            h.0,
            h.1,
            rows_of-strike_self id i t.entries ∙ ap (strike id i) h.2,
            λ j ne. rows_of-strike_other id j i t.entries ne ∙ h.3 j ne,
          ),
        )))
        (delete_indices-Holds is (strike id i rows))

  pub select_songs-Holds :
      (rows : List PlaylistSong) (t : Tables)
      → Ascending 0 rows
      → Holds rows t
      → select_songs id t ≡ map (λ e. e.song_id) rows
  unfolding select_songs
  select_songs-Holds rows t asc h =
      ap (λ rs. map (λ e. e.song_id) (ordered rs)) h.2
      ∙ ap (map (λ e. e.song_id)) (ordered-Ascending 0 rows asc)

  -- Whatever gaps the positions have, they are numbered from 0 again, in the same order.
  pub resequence_playlist-Holds :
      (rows : List PlaylistSong)
      → Ascending 0 rows
      → Exist (map (λ e. e.song_id) rows)
      → Does
          (Holds rows)
          (resequence_playlist id)
          (λ _. Holds (numbered id 0 (map (λ e. e.song_id) rows)))
  unfolding resequence_playlist
  resequence_playlist-Holds rows asc exist =
      let Q : Unit {0} → Tables → Type 0 = λ _. Holds (numbered id 0 (map (λ e. e.song_id) rows)) in
      Does-bind (Holds rows) (λ songs t. (songs ≡ map (λ e. e.song_id) rows) × Holds rows t) Q
        (query (select_songs id)) (λ songs. execute (delete_entries id) >> insert_songs id 0 songs)
        (Does-query (Holds rows) (λ songs t. (songs ≡ map (λ e. e.song_id) rows) × Holds rows t)
          (select_songs id) (λ t h. (select_songs-Holds rows t asc h, h)))
        (λ songs s h.
          subst (λ x. Ensures s.faults Q ((execute (delete_entries id) >> insert_songs id 0 x) s))
            (sym h.0)
            (Does-then (Holds rows) (Holds []) Q (execute (delete_entries id))
              (insert_songs id 0 (map (λ e. e.song_id) rows)) (delete_entries-Holds rows)
              (insert_songs-Holds [] 0 (map (λ e. e.song_id) rows) tt exist) s h.1))
