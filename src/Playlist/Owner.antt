-- ===== src/Playlist/Owner.antt =====
-- The statements of internal/api/playlists.go on the playlist rows of other users.
pub mod Handlers
use preamp.Base.{
  ℕ, suc, Bool, true, false, List, [], ◌∷◌, ◌++◌, Option, none, some, if◌then◌else◌, ◌≡◌, refl, ap,
  arith, ◌∙◌, sym, Bool-cases, inl, inr,
}
use preamp.Base.Int.{ℤ}
use preamp.Base.Text.{Bytes, bytes_eq, bytes_eq_iff, is_empty}
use preamp.Db.{Tables, Playlist, ◌>>◌, execute, query}
use preamp.Db.Handler.{on_write_conn}
use preamp.Db.Keeps.{Keeps, Keeps-pure, Keeps-execute, Keeps-query, Keeps-bind, on_write_conn-R}
use preamp.Db.Transaction.{Conn}
use preamp.Playlist.{
  Form, insert_songs, delete_indices, resequence_playlist, remove_songs, add_songs, change_name,
  change_comment, change_public, change_metadata, update_statements, prepare_playlist,
  create_statements, delete_statements, create_playlist, update_playlist, delete_playlist,
  parse_indices, sort_descending, target, answer_with,
}
use preamp.Playlist.Statements.{
  select_songs, select_next_position, set_name, set_comment, change_playlist, without_playlist,
  new_playlist, insert_playlist, update_playlist_row, delete_playlist_row, insert_entry,
  delete_entries, delete_entry,
}

-- The rows that the user does not own.
unfoldable pub others : Bytes → List Playlist → List Playlist
others user [] = []
others user (p ∷ ps) =
    let rest = others user ps in if bytes_eq user p.user_id then rest else p ∷ rest

others-change :
    (user id : Bytes) (f : Playlist → Playlist) (ps : List Playlist)
    → ((p : Playlist) → (f p).user_id ≡ p.user_id)
    → others user (change_playlist id user f ps) ≡ others user ps
unfolding others change_playlist
others-change user id f [] h = refl
others-change user id f (p ∷ ps) h = ground (arith, h p, others-change user id f ps h)

others-without :
    (user id : Bytes) (ps : List Playlist)
    → others user (without_playlist id user ps) ≡ others user ps
unfolding others without_playlist
others-without user id [] = refl
others-without user id (p ∷ ps) = ground (arith, others-without user id ps)

others-added :
    (user : Bytes) (p : Playlist) (ps : List Playlist)
    → p.user_id ≡ user
    → others user (ps ++ (p ∷ [])) ≡ others user ps
unfolding others
others-added user p [] h = ground (arith, h, bytes_eq_iff user p.user_id)
others-added user p (q ∷ ps) h = ground (arith, others-added user p ps h)

abbrev unwrap : Tables → Option Tables → Tables
unwrap d none = d
unwrap d (some t) = t

module _ (user : Bytes) (before : Tables) where
  abbrev pub OthersKept : Tables → Type 0
  OthersKept t = others user t.playlists ≡ others user before.playlists

  -- A statement whose result has the same rows of others.
  statement-OthersKept :
      (statement : Tables → Option Tables)
      → ((t : Tables) → others user (unwrap t (statement t)).playlists ≡ others user t.playlists)
      → Keeps OthersKept (execute statement)
  statement-OthersKept statement h =
      Keeps-execute OthersKept statement
        (λ t t' r e. sym (ap (λ o. others user (unwrap t o).playlists) e) ∙ (h t ∙ r))

  pub insert_entry-OthersKept :
      (id song : Bytes) (k : ℕ) → Keeps OthersKept (execute (insert_entry id song k))
  unfolding insert_entry
  insert_entry-OthersKept id song k =
      statement-OthersKept (insert_entry id song k) (λ t. ground arith)

  pub delete_entries-OthersKept : (id : Bytes) → Keeps OthersKept (execute (delete_entries id))
  unfolding delete_entries
  delete_entries-OthersKept id = statement-OthersKept (delete_entries id) (λ t. refl)

  pub delete_entry-OthersKept :
      (id : Bytes) (i : ℤ) → Keeps OthersKept (execute (delete_entry id i))
  unfolding delete_entry
  delete_entry-OthersKept id i = statement-OthersKept (delete_entry id i) (λ t. refl)

  pub update_playlist_row-OthersKept :
      (id : Bytes) (f : Playlist → Playlist)
      → ((p : Playlist) → (f p).user_id ≡ p.user_id)
      → Keeps OthersKept (execute (update_playlist_row id user f))
  unfolding update_playlist_row
  update_playlist_row-OthersKept id f h =
      statement-OthersKept (update_playlist_row id user f)
        (λ t. others-change user id f t.playlists h)

  pub insert_playlist-OthersKept :
      (now id name : Bytes) → Keeps OthersKept (execute (insert_playlist now id user name))
  unfolding insert_playlist
  insert_playlist-OthersKept now id name =
      statement-OthersKept (insert_playlist now id user name)
        (λ t. ground (arith, others-added user (new_playlist now id user name) t.playlists refl))

  pub delete_playlist_row-OthersKept :
      (id : Bytes) → Keeps OthersKept (execute (delete_playlist_row id user))
  unfolding delete_playlist_row
  delete_playlist_row-OthersKept id =
      statement-OthersKept (delete_playlist_row id user) (λ t. others-without user id t.playlists)
