-- ===== src/Playlist/Owner/Handlers.antt =====
-- The write handlers of internal/api/playlists.go on the playlist rows of other users.
use preamp.Base.{
  ℕ, suc, Bool, true, false, List, [], ◌∷◌, Option, none, some, refl, arith, Bool-cases, inl, inr,
}
use preamp.Base.Int.{ℤ}
use preamp.Base.Text.{Bytes, is_empty}
use preamp.Db.{Tables, ◌>>◌, execute, query}
use preamp.Db.Handler.{on_write_conn}
use preamp.Db.Keeps.{Keeps, Keeps-pure, Keeps-query, Keeps-bind, on_write_conn-R}
use preamp.Db.Transaction.{Conn}
use preamp.Playlist.{
  Form, insert_songs, delete_indices, resequence_playlist, remove_songs, add_songs, change_name,
  change_comment, change_public, change_metadata, update_statements, prepare_playlist,
  create_statements, delete_statements, create_playlist, update_playlist, delete_playlist,
  parse_indices, sort_descending, target, answer_with,
}
use preamp.Playlist.Statements.{
  select_songs, select_next_position, set_name, set_comment, delete_playlist_row, insert_entry,
  delete_entries, delete_entry,
}
use preamp.Playlist.Owner.{
  OthersKept, insert_entry-OthersKept, delete_entries-OthersKept, delete_entry-OthersKept,
  update_playlist_row-OthersKept, insert_playlist-OthersKept, delete_playlist_row-OthersKept,
}

module _ (user : Bytes) (before : Tables) where
  insert_songs-OthersKept :
      (id : Bytes) (k : ℕ) (songs : List Bytes)
      → Keeps (OthersKept user before) (insert_songs id k songs)
  unfolding insert_songs
  insert_songs-OthersKept id k [] = Keeps-pure (OthersKept user before) tt
  insert_songs-OthersKept id k (s ∷ ss) =
      Keeps-bind (OthersKept user before) (execute (insert_entry id s k))
        (λ _. insert_songs id (suc k) ss) (insert_entry-OthersKept user before id s k)
        (λ _. insert_songs-OthersKept id (suc k) ss)

  delete_indices-OthersKept :
      (id : Bytes) (is : List ℤ) → Keeps (OthersKept user before) (delete_indices id is)
  unfolding delete_indices
  delete_indices-OthersKept id [] = Keeps-pure (OthersKept user before) tt
  delete_indices-OthersKept id (i ∷ is) =
      Keeps-bind (OthersKept user before) (execute (delete_entry id i)) (λ _. delete_indices id is)
        (delete_entry-OthersKept user before id i) (λ _. delete_indices-OthersKept id is)

  resequence_playlist-OthersKept :
      (id : Bytes) → Keeps (OthersKept user before) (resequence_playlist id)
  unfolding resequence_playlist
  resequence_playlist-OthersKept id =
      Keeps-bind (OthersKept user before) (query (select_songs id))
        (λ songs. execute (delete_entries id) >> insert_songs id 0 songs)
        (Keeps-query (OthersKept user before) (select_songs id))
        (λ songs.
          Keeps-bind (OthersKept user before) (execute (delete_entries id))
            (λ _. insert_songs id 0 songs) (delete_entries-OthersKept user before id)
            (λ _. insert_songs-OthersKept id 0 songs))

  remove_songs-OthersKept :
      (id : Bytes) (indices : List Bytes) → Keeps (OthersKept user before) (remove_songs id indices)
  unfolding remove_songs
  remove_songs-OthersKept id [] = Keeps-pure (OthersKept user before) tt
  remove_songs-OthersKept id (s ∷ ss) =
      Keeps-bind (OthersKept user before)
        (delete_indices id (sort_descending (parse_indices (s ∷ ss)))) (λ _. resequence_playlist id)
        (delete_indices-OthersKept id _) (λ _. resequence_playlist-OthersKept id)

  add_songs-OthersKept :
      (id : Bytes) (songs : List Bytes) → Keeps (OthersKept user before) (add_songs id songs)
  unfolding add_songs
  add_songs-OthersKept id [] = Keeps-pure (OthersKept user before) tt
  add_songs-OthersKept id (s ∷ ss) =
      Keeps-bind (OthersKept user before) (query (select_next_position id))
        (λ n. insert_songs id n (s ∷ ss))
        (Keeps-query (OthersKept user before) (select_next_position id))
        (λ n. insert_songs-OthersKept id n (s ∷ ss))

  change_name-OthersKept :
      (now id name : Bytes) → Keeps (OthersKept user before) (change_name now user id name)
  unfolding change_name
  change_name-OthersKept now id name = elim (Bool-cases (is_empty name)) [
    | inl e ↦ rw e (Keeps-pure (OthersKept user before) tt)
    | inr e ↦ rw e (update_playlist_row-OthersKept user before id (set_name now name) (λ p. refl))
  ]

  change_comment-OthersKept :
      (now id : Bytes) (comment : Option Bytes)
      → Keeps (OthersKept user before) (change_comment now user id comment)
  unfolding change_comment
  change_comment-OthersKept now id none = Keeps-pure (OthersKept user before) tt
  change_comment-OthersKept now id (some c) =
      update_playlist_row-OthersKept user before id (set_comment now c) (λ p. refl)

  change_public-OthersKept :
      (now id : Bytes) (public : Option Bytes)
      → Keeps (OthersKept user before) (change_public now user id public)
  unfolding change_public
  change_public-OthersKept now id none = Keeps-pure (OthersKept user before) tt
  change_public-OthersKept now id (some p) =
      update_playlist_row-OthersKept user before id _ (λ p. refl)

  change_metadata-OthersKept :
      (now : Bytes) (form : Form) → Keeps (OthersKept user before) (change_metadata now user form)
  unfolding change_metadata
  change_metadata-OthersKept now form =
      let id = form.playlist_id in
      Keeps-bind (OthersKept user before)
        (change_name now user id form.name >> change_comment now user id form.comment)
        (λ _. change_public now user id form.public)
        (Keeps-bind (OthersKept user before) (change_name now user id form.name)
          (λ _. change_comment now user id form.comment) (change_name-OthersKept now id form.name)
          (λ _. change_comment-OthersKept now id form.comment))
        (λ _. change_public-OthersKept now id form.public)

  update_statements-OthersKept :
      (now : Bytes) (form : Form) → Keeps (OthersKept user before) (update_statements now user form)
  unfolding update_statements
  update_statements-OthersKept now form =
      let id = form.playlist_id in
      Keeps-bind (OthersKept user before)
        (change_metadata now user form >> remove_songs id form.song_index_to_remove)
        (λ _. add_songs id form.song_id_to_add)
        (Keeps-bind (OthersKept user before) (change_metadata now user form)
          (λ _. remove_songs id form.song_index_to_remove) (change_metadata-OthersKept now form)
          (λ _. remove_songs-OthersKept id form.song_index_to_remove))
        (λ _. add_songs-OthersKept id form.song_id_to_add)

  prepare_playlist-OthersKept :
      (now id : Bytes) (form : Form)
      → Keeps (OthersKept user before) (prepare_playlist now user id form)
  unfolding prepare_playlist
  prepare_playlist-OthersKept now id form = elim (Bool-cases (is_empty form.playlist_id)) [
    | inl e ↦ rw e (insert_playlist-OthersKept user before now id form.name)
    | inr e ↦ rw e (
        Keeps-bind (OthersKept user before) (change_name now user id form.name)
          (λ _. execute (delete_entries id)) (change_name-OthersKept now id form.name)
          (λ _. delete_entries-OthersKept user before id))
  ]

  create_statements-OthersKept :
      (now id : Bytes) (form : Form)
      → Keeps (OthersKept user before) (create_statements now user id form)
  unfolding create_statements
  create_statements-OthersKept now id form =
      Keeps-bind (OthersKept user before) (prepare_playlist now user id form)
        (λ _. insert_songs id 0 form.song_ids) (prepare_playlist-OthersKept now id form)
        (λ _. insert_songs-OthersKept id 0 form.song_ids)

  delete_statements-OthersKept :
      (id : Bytes) → Keeps (OthersKept user before) (delete_statements user id)
  unfolding delete_statements
  delete_statements-OthersKept id =
      Keeps-bind (OthersKept user before) (execute (delete_entries id))
        (λ _. execute (delete_playlist_row id user)) (delete_entries-OthersKept user before id)
        (λ _. delete_playlist_row-OthersKept user before id)

  answer_with-OthersKept :
      (id : Bytes) (x : Conn × Bool)
      → (OthersKept user before) (x.0).tables
      → (OthersKept user before) ((answer_with id x).0).tables
  answer_with-OthersKept id (conn, true) r = r
  answer_with-OthersKept id (conn, false) r = r

  create_playlist-OthersKept :
      (now new_id : Bytes) (form : Option Form) (faults : List Bool)
      → (OthersKept user before) ((create_playlist now new_id user form before faults).0).tables
  unfolding create_playlist
  create_playlist-OthersKept now new_id none faults = refl
  create_playlist-OthersKept now new_id (some form) faults =
      let id = target new_id form in
      let body = create_statements now user id form in
      ground (
        arith,
        answer_with-OthersKept id (on_write_conn body before faults) (
            on_write_conn-R (OthersKept user before) body before faults
              (create_statements-OthersKept now id form) refl),
      )

  update_playlist-OthersKept :
      (now : Bytes) (form : Option Form) (faults : List Bool)
      → (OthersKept user before) ((update_playlist now user form before faults).0).tables
  unfolding update_playlist
  update_playlist-OthersKept now none faults = refl
  update_playlist-OthersKept now (some form) faults =
      let body = update_statements now user form in
      ground (
        arith,
        on_write_conn-R (OthersKept user before) body before faults
            (update_statements-OthersKept now form) refl,
      )

  delete_playlist-OthersKept :
      (id : Bytes) (faults : List Bool)
      → (OthersKept user before) ((delete_playlist user id before faults).0).tables
  unfolding delete_playlist
  delete_playlist-OthersKept id faults =
      let body = delete_statements user id in
      ground (
        arith,
        on_write_conn-R (OthersKept user before) body before faults
            (delete_statements-OthersKept id) refl,
      )

  -- handleCreatePlaylist, handleUpdatePlaylist and handleDeletePlaylist: for every request of a user,
  -- and whatever the engine fails, the playlist rows that the user does not own stay as they are, in
  -- the tables that the connection is left with.
  pub write_handlers-OthersKept :
      (now new_id id : Bytes) (form : Option Form) (faults : List Bool)
      → (OthersKept user before) ((create_playlist now new_id user form before faults).0).tables
        × (OthersKept user before) ((update_playlist now user form before faults).0).tables
        × (OthersKept user before) ((delete_playlist user id before faults).0).tables
  write_handlers-OthersKept now new_id id form faults = (
    create_playlist-OthersKept now new_id form faults,
    update_playlist-OthersKept now form faults,
    delete_playlist-OthersKept id faults,
  )
