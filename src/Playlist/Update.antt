-- ===== src/Playlist/Update.antt =====
-- handleUpdatePlaylist of internal/api/playlists.go, from the form to the committed rows.
use mathlib.Core.Path.{subst}
use preamp.Base.{
  ℕ, Bool, false, List, [], ◌∷◌, ◌++◌, map, length, Option, none, some, ◌≡◌, refl, ap, arith, ◌∙◌,
  sym, append-nil, inl, inr, Bool-cases,
}
use preamp.Base.Int.{ℤ}
use preamp.Base.Text.{Bytes, is_empty}
use preamp.Db.{Tables, Playlist, PlaylistSong, execute, pure, query, ◌>>◌}
use preamp.Db.Ensures.{Does, Ensures, Does-execute, Does-pure, Does-then, Does-query, Does-bind}
use preamp.Db.Outcome.{Answered, answer-Answered, on_write_conn-Settles}
use preamp.Db.Handler.{on_write_conn}
use preamp.Playlist.{
  Form, change_metadata, remove_songs, add_songs, parse_indices, sort_descending, insert_songs,
  delete_indices, resequence_playlist, update_statements, update_playlist, change_name,
  change_comment, change_public,
}
use preamp.Playlist.Statements.{
  has_playlist, change_playlist, update_playlist_row, set_name, set_comment, select_next_position,
  next_position,
}
use preamp.Playlist.Rows.{
  numbered, numbered-Ascending, fresh-Below, append-fresh, next_position-fresh,
}
use preamp.Playlist.Removal.{
  keep, keep-nil, keep-sort, keep-All, strike_all, strike_all-Ascending, map-strike_all,
}
use preamp.Playlist.Loops.{
  Holds, Exist, insert_songs-Holds, delete_indices-Holds, resequence_playlist-Holds,
}

has_playlist-change :
    (id j user : Bytes) (f : Playlist → Playlist) (ps : List Playlist)
    → ((p : Playlist) → (f p).id ≡ p.id)
    → has_playlist id (change_playlist j user f ps) ≡ has_playlist id ps
unfolding has_playlist change_playlist
has_playlist-change id j user f [] h = refl
has_playlist-change id j user f (p ∷ ps) h =
    ground (arith, h p, has_playlist-change id j user f ps h)

module _ (before : Tables) (id : Bytes) where
  pub update_playlist_row-Holds :
      (rows : List PlaylistSong) (j user : Bytes) (f : Playlist → Playlist)
      → ((p : Playlist) → (f p).id ≡ p.id)
      → Does
          (Holds before id rows)
          (execute (update_playlist_row j user f))
          (λ _. Holds before id rows)
  unfolding update_playlist_row
  update_playlist_row-Holds rows j user f h =
      Does-execute (Holds before id rows) (Holds before id rows) (update_playlist_row j user f)
        (λ t (p, s, r, o). (
          record t { playlists = change_playlist j user f t.playlists },
          refl,
          (has_playlist-change id j user f t.playlists h ∙ p, s, r, o),
        ))

  pub add_songs-Holds :
      (ids songs : List Bytes)
      → Exist before id songs
      → Does
          (Holds before id (numbered id 0 ids))
          (add_songs id songs)
          (λ _. Holds before id (numbered id 0 (ids ++ songs)))
  unfolding add_songs select_next_position
  add_songs-Holds ids [] exist =
      subst
        (λ x.
          Does (Holds before id (numbered id 0 ids)) (pure tt)
            (λ _. Holds before id (numbered id 0 x)))
        (sym (append-nil ids))
        (Does-pure (Holds before id (numbered id 0 ids)) (λ _. Holds before id (numbered id 0 ids))
          tt (λ t h. h))
  add_songs-Holds ids (s ∷ ss) exist =
      let P = Holds before id (numbered id 0 ids) in
      let Q : Unit {0} → Tables → Type 0 = λ _. Holds before id (numbered id 0 (ids ++ (s ∷ ss))) in
      let R : ℕ → Tables → Type 0 = λ n t. (n ≡ length ids) × P t in
      Does-bind P R Q (query (select_next_position id)) (λ n. insert_songs id n (s ∷ ss))
        (Does-query P R (select_next_position id)
          (λ t h. (ap next_position h.2 ∙ next_position-fresh id ids, h)))
        (λ n r h.
          subst (λ x. Ensures r.faults Q (insert_songs id x (s ∷ ss) r)) (sym h.0)
            (subst
              (λ rows.
                Ensures r.faults (λ (_ : Unit {0}). Holds before id rows)
                  (insert_songs id (length ids) (s ∷ ss) r))
              (sym (append-fresh id ids (s ∷ ss)))
              (insert_songs-Holds before id (numbered id 0 ids) (length ids) (s ∷ ss)
                (fresh-Below id ids) exist r h.1)))

  pub remove_songs-Holds :
      (ids indices : List Bytes)
      → Exist before id ids
      → Does
          (Holds before id (numbered id 0 ids))
          (remove_songs id indices)
          (λ _. Holds before id (numbered id 0 (keep (parse_indices indices) 0 ids)))
  unfolding remove_songs parse_indices
  remove_songs-Holds ids [] exist =
      Does-pure (Holds before id (numbered id 0 ids))
        (λ _. Holds before id (numbered id 0 (keep [] 0 ids))) tt
        (λ t. subst (λ x. Holds before id (numbered id 0 x) t) (sym (keep-nil 0 ids)))
  remove_songs-Holds ids (s ∷ ss) exist =
      let is : List ℤ = sort_descending (parse_indices (s ∷ ss)) in
      let rows : List PlaylistSong = strike_all id is (numbered id 0 ids) in
      let kept : map (λ e. e.song_id) rows ≡ keep (parse_indices (s ∷ ss)) 0 ids =
        map-strike_all id is 0 ids ∙ keep-sort (parse_indices (s ∷ ss)) 0 ids in
      Does-then (Holds before id (numbered id 0 ids)) (Holds before id rows)
        (λ _. Holds before id (numbered id 0 (keep (parse_indices (s ∷ ss)) 0 ids)))
        (delete_indices id is) (resequence_playlist id)
        (delete_indices-Holds before id is (numbered id 0 ids))
        (subst
          (λ x.
            Does (Holds before id rows) (resequence_playlist id)
              (λ _. Holds before id (numbered id 0 x)))
          kept
          (resequence_playlist-Holds before id rows
            (strike_all-Ascending id is 0 (numbered id 0 ids) (numbered-Ascending id 0 ids))
            (subst (Exist before id) (sym kept) (keep-All _ (parse_indices (s ∷ ss)) 0 ids exist))))

  pub change_name-Holds :
      (rows : List PlaylistSong) (now user j name : Bytes)
      → Does (Holds before id rows) (change_name now user j name) (λ _. Holds before id rows)
  unfolding change_name
  change_name-Holds rows now user j name = elim (Bool-cases (is_empty name)) [
    | inl e ↦ rw e (Does-pure (Holds before id rows) (λ _. Holds before id rows) tt (λ t h. h))
    | inr e ↦ rw e (update_playlist_row-Holds rows j user (set_name now name) (λ p. refl))
  ]

  change_comment-Holds :
      (rows : List PlaylistSong) (now user j : Bytes) (comment : Option Bytes)
      → Does (Holds before id rows) (change_comment now user j comment) (λ _. Holds before id rows)
  unfolding change_comment
  change_comment-Holds rows now user j none =
      Does-pure (Holds before id rows) (λ _. Holds before id rows) tt (λ t h. h)
  change_comment-Holds rows now user j (some comment) =
      update_playlist_row-Holds rows j user (set_comment now comment) (λ p. refl)

  change_public-Holds :
      (rows : List PlaylistSong) (now user j : Bytes) (public : Option Bytes)
      → Does (Holds before id rows) (change_public now user j public) (λ _. Holds before id rows)
  unfolding change_public
  change_public-Holds rows now user j none =
      Does-pure (Holds before id rows) (λ _. Holds before id rows) tt (λ t h. h)
  change_public-Holds rows now user j (some public) =
      update_playlist_row-Holds rows j user _ (λ p. refl)

  change_metadata-Holds :
      (rows : List PlaylistSong) (now user : Bytes) (form : Form)
      → Does (Holds before id rows) (change_metadata now user form) (λ _. Holds before id rows)
  unfolding change_metadata
  change_metadata-Holds rows now user form =
      let P = Holds before id rows in
      let j = form.playlist_id in
      Does-then P P (λ _. P)
        (change_name now user j form.name >> change_comment now user j form.comment)
        (change_public now user j form.public)
        (Does-then P P (λ _. P) (change_name now user j form.name)
          (change_comment now user j form.comment) (change_name-Holds rows now user j form.name)
          (change_comment-Holds rows now user j form.comment))
        (change_public-Holds rows now user j form.public)

-- The songs that the form leaves, in order, and those that it adds.
abbrev pub edited : Form → List Bytes → List Bytes
edited form ids = keep (parse_indices form.song_index_to_remove) 0 ids ++ form.song_id_to_add

module _ (before : Tables) (form : Form) (ids : List Bytes) where
  abbrev pub Lists : List Bytes → Tables → Type 0
  Lists songs = Holds before form.playlist_id (numbered form.playlist_id 0 songs)

  update_statements-Lists :
      (now user : Bytes)
      → Exist before form.playlist_id ids
      → Exist before form.playlist_id form.song_id_to_add
      → Does (Lists ids) (update_statements now user form) (λ _. Lists (edited form ids))
  unfolding update_statements
  update_statements-Lists now user exist added =
      let id = form.playlist_id in
      let kept : List Bytes = keep (parse_indices form.song_index_to_remove) 0 ids in
      Does-then (Lists ids) (Lists kept) (λ _. Lists (edited form ids))
        (change_metadata now user form >> remove_songs id form.song_index_to_remove)
        (add_songs id form.song_id_to_add)
        (Does-then (Lists ids) (Lists ids) (λ _. Lists kept) (change_metadata now user form)
          (remove_songs id form.song_index_to_remove)
          (change_metadata-Holds before id (numbered id 0 ids) now user form)
          (remove_songs-Holds before id ids form.song_index_to_remove exist))
        (add_songs-Holds before id kept form.song_id_to_add added)

  -- A request with a user and a playlist id, for a playlist that exists and lists `ids` at positions
  -- 0, 1, ..., where these songs and those to add exist: the answer is ok, the transaction is
  -- committed, and the playlist lists the songs whose index is not to be removed, then those added,
  -- at positions 0, 1, ..., and no other playlist's rows change; or the engine failed a statement,
  -- the answer is error 0, and the committed tables are those before the request.
  pub update_playlist_lem :
      (now user : Bytes) (faults : List Bool)
      → is_empty user ≡ false
      → is_empty form.playlist_id ≡ false
      → Lists ids before
      → Exist before form.playlist_id ids
      → Exist before form.playlist_id form.song_id_to_add
      → Answered
          (Lists (edited form ids))
          before
          faults
          (update_playlist now user (some form) before faults)
  unfolding update_playlist
  update_playlist_lem now user faults hu hp holds exist added =
      rw (hu, hp)
        (answer-Answered (Lists (edited form ids)) before faults
          (on_write_conn (update_statements now user form) before faults)
          (on_write_conn-Settles (Lists ids) (Lists (edited form ids))
            (update_statements now user form) before faults
            (update_statements-Lists now user exist added) holds))
