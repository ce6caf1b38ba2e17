-- ===== src/Playlist/Delete.antt =====
-- handleDeletePlaylist of internal/api/playlists.go.
use mathlib.Core.Path.{subst}
use preamp.Base.{
  arith, false, List, [], Bool, some, if◌then◌else◌, ◌≡◌, refl, ap, ◌∙◌, Bool-cases, inl, inr, ◌∷◌,
  ◌&&◌, ◌⊎◌, true, ◌↔◌, sym,
}
use preamp.Base.Text.{Bytes, bytes_eq, is_empty, bytes_eq_iff}
use preamp.Db.{Tables, Playlist, PlaylistSong, execute}
use preamp.Db.Ensures.{Does, Does-execute, Does-then}
use preamp.Db.Handler.{on_write_conn}
use preamp.Playlist.{delete_statements, delete_playlist}
use preamp.Db.Outcome.{Answered, answer-Answered, on_write_conn-Settles}
use preamp.Playlist.Statements.{
  rows_of, without, delete_entries, delete_playlist_row, without_playlist, owns,
}
use preamp.Playlist.Rows.{rows_of-without_self, rows_of-without_other}

-- `p` is a row of the table.
abbrev pub IsRow : Playlist → List Playlist → Type 0
IsRow p [] = ⊥
IsRow p (q ∷ qs) = (p ≡ q) ⊎ IsRow p qs

-- The playlist of the request, if it is the user's.
abbrev pub IsOwn : Bytes → Bytes → Playlist → Type 0
IsOwn id user p = (p.id ≡ id) × (p.user_id ≡ user)

tested :
    (id user : Bytes) (q : Playlist)
    → (bytes_eq id q.id && bytes_eq user q.user_id ≡ true) ↔ IsOwn id user q
tested id user q =
    let k = bytes_eq_iff id q.id in
    let n = bytes_eq_iff user q.user_id in
    (
      λ e. (sym (k.0 (ground (arith, e))), sym (n.0 (ground (arith, e)))),
      λ (a, b). ground (arith, k.1 (sym a), n.1 (sym b)),
    )

not_own :
    (id user : Bytes) (p q : Playlist)
    → p ≡ q
    → IsOwn id user p
    → (bytes_eq id q.id && bytes_eq user q.user_id) ≡ false
    → ⊥
not_own id user p q same own e =
    let h = (tested id user q).1 (subst (IsOwn id user) same own) in ground (arith, h, e)

kept :
    (id user : Bytes) (p : Playlist) (qs : List Playlist)
    → IsRow p (without_playlist id user qs)
    → IsRow p qs × (¬ IsOwn id user p)
unfolding without_playlist
kept id user p [] m = absurd m
kept id user p (q ∷ qs) m = elim (Bool-cases (bytes_eq id q.id && bytes_eq user q.user_id)) [
  | inl e ↦ let (row, other) = kept id user p qs (rw (without_playlist, e) at m) in (inr row, other)
  | inr e ↦
      let m' : (p ≡ q) ⊎ IsRow p (without_playlist id user qs) = rw (without_playlist, e) at m in
      elim m' [
        | inl same ↦ (inl same, λ own. not_own id user p q same own e)
        | inr later ↦ let (row, other) = kept id user p qs later in (inr row, other)
      ]
]

keeps :
    (id user : Bytes) (p : Playlist) (qs : List Playlist)
    → IsRow p qs
    → ¬ IsOwn id user p
    → IsRow p (without_playlist id user qs)
unfolding without_playlist
keeps id user p [] m other = absurd m
keeps id user p (q ∷ qs) m other = elim (Bool-cases (bytes_eq id q.id && bytes_eq user q.user_id)) [
  | inl e ↦ elim m [
    | inl same ↦ absurd (other (subst (IsOwn id user) (sym same) ((tested id user q).0 e)))
    | inr later ↦ rw (without_playlist, e) (keeps id user p qs later other)
  ]
  | inr e ↦ elim m [
    | inl same ↦ rw (without_playlist, e) (inl same)
    | inr later ↦ rw (without_playlist, e) (inr (keeps id user p qs later other))
  ]
]

module _ (before : Tables) (user id : Bytes) where
  -- The rows behind some DELETE by playlist.
  abbrev Cleared : List PlaylistSong → Type 0
  Cleared es =
      (rows_of id es ≡ [])
      × ((j : Bytes) → bytes_eq id j ≡ false → rows_of j es ≡ rows_of j before.entries)

  abbrev pub Deleted : Tables → Type 0
  Deleted t =
      ((p : Playlist) → IsRow p t.playlists ↔ (IsRow p before.playlists × (¬ IsOwn id user p)))
      × Cleared t.entries

  without_playlist-Rows :
      (ps : List Playlist)
      → ps ≡ before.playlists
      → (p : Playlist)
      → IsRow p (without_playlist id user ps) ↔ (IsRow p before.playlists × (¬ IsOwn id user p))
  without_playlist-Rows ps same p =
      subst (λ x. IsRow p (without_playlist id user ps) ↔ (IsRow p x × (¬ IsOwn id user p))) same
        (kept id user p ps, λ (row, other). keeps id user p ps row other)

  without-Cleared : (es : List PlaylistSong) → Cleared es → Cleared (without id es)
  without-Cleared es (empty, others) =
      (rows_of-without_self id es, λ j ne. rows_of-without_other id j es ne ∙ others j ne)

  delete_playlist_row-Deleted :
      (t : Tables)
      → (t.playlists ≡ before.playlists) × Cleared t.entries
      → (t' : Tables) × (delete_playlist_row id user t ≡ some t') × Deleted t'
  unfolding delete_playlist_row
  delete_playlist_row-Deleted t (same, cleared) =
      let es = if owns id user t.playlists then without id t.entries else t.entries in
      let left : Cleared es = elim (Bool-cases (owns id user t.playlists)) [
        | inl e ↦ rw e (without-Cleared t.entries cleared)
        | inr e ↦ rw e cleared
      ] in
      (
        record t { playlists = without_playlist id user t.playlists; entries = es },
        refl,
        (without_playlist-Rows t.playlists same, left),
      )

  delete_statements-Deleted : Does (λ t. t ≡ before) (delete_statements user id) (λ _. Deleted)
  unfolding delete_statements delete_entries
  delete_statements-Deleted =
      let R : Tables → Type 0 = λ t. (t.playlists ≡ before.playlists) × Cleared t.entries in
      Does-then (λ t. t ≡ before) R (λ _. Deleted) (execute (delete_entries id))
        (execute (delete_playlist_row id user))
        (Does-execute (λ t. t ≡ before) R (delete_entries id)
          (λ t e. (
            record t { entries = without id t.entries },
            refl,
            (
              ap (λ x. x.playlists) e,
              (
                rows_of-without_self id t.entries,
                λ j ne. rows_of-without_other id j t.entries ne ∙ ap (λ x. rows_of j x.entries) e,
              ),
            ),
          )))
        (Does-execute R Deleted (delete_playlist_row id user) delete_playlist_row-Deleted)

  -- A request with a user and an id: the playlist's song rows are deleted, whoever owns it, and no
  -- others; a playlist is left exactly if it was there and has not both this id and this user; or the engine failed a statement, the reply
  -- is error 0, and the committed tables are those before.
  pub delete_playlist_lem :
      (faults : List Bool)
      → is_empty user ≡ false
      → is_empty id ≡ false
      → Answered Deleted before faults (delete_playlist user id before faults)
  unfolding delete_playlist
  delete_playlist_lem faults hu hi =
      rw (hu, hi)
        (answer-Answered Deleted before faults
          (on_write_conn (delete_statements user id) before faults)
          (on_write_conn-Settles (λ t. t ≡ before) Deleted (delete_statements user id) before faults
            delete_statements-Deleted refl))
