-- ===== src/Playlist/Rows.antt =====
-- The rows of one playlist in the table playlist_song, as the statements of internal/api/playlists.go
-- change them.
use preamp.Base.Dict.{bytes_eq_refl}
use mathlib.Core.Path.{subst}
use preamp.Base.{
  ℕ, suc, ◌+◌, ◌≤◌, ◌<◌, false, ◌&&◌, List, [], ◌∷◌, ◌++◌, map, All, length, if◌then◌else◌, ◌≡◌,
  refl, ap, arith, Bool-cases, ◌∙◌, inl, inr,
}
use preamp.Base.Int.{ℤ}
use preamp.Base.Text.{Bytes, bytes_eq, bytes_eq_iff}
use preamp.Db.{PlaylistSong}
use preamp.Playlist.Statements.{
  rows_of, taken, without, strike, at_index, by_position, ordered, next_position,
}

-- The rows of a playlist of these songs, from a position on.
unfoldable pub numbered : Bytes → ℕ → List Bytes → List PlaylistSong
numbered id k [] = []
numbered id k (s ∷ ss) =
    record { playlist_id = id; song_id = s; position = k } ∷ numbered id (suc k) ss

abbrev pub Below : ℕ → List PlaylistSong → Type 0
Below k es = All (λ (e : PlaylistSong). e.position < k) es

abbrev pub Ascending : ℕ → List PlaylistSong → Type 0
Ascending k [] = Unit
Ascending k (e ∷ es) = (k ≤ e.position) × Ascending (suc e.position) es

pub rows_of-added_self :
    (id s : Bytes) (k : ℕ) (es : List PlaylistSong)
    → rows_of id (es ++ (record { playlist_id = id; song_id = s; position = k } ∷ []))
      ≡ rows_of id es ++ (record { playlist_id = id; song_id = s; position = k } ∷ [])
unfolding rows_of
rows_of-added_self id s k [] = rw (bytes_eq_refl id) refl
rows_of-added_self id s k (e ∷ es) = ground (arith, rows_of-added_self id s k es)

pub rows_of-added_other :
    (id s j : Bytes) (k : ℕ) (es : List PlaylistSong)
    → bytes_eq id j ≡ false
    → rows_of j (es ++ (record { playlist_id = id; song_id = s; position = k } ∷ [])) ≡ rows_of j es
unfolding rows_of
rows_of-added_other id s j k [] h = ground (arith, bytes_eq_iff id j, bytes_eq_iff j id)
rows_of-added_other id s j k (e ∷ es) h = ground (arith, rows_of-added_other id s j k es h)

pub rows_of-without_self : (id : Bytes) (es : List PlaylistSong) → rows_of id (without id es) ≡ []
unfolding rows_of without
rows_of-without_self id [] = refl
rows_of-without_self id (e ∷ es) = ground (arith, rows_of-without_self id es)

pub rows_of-without_other :
    (id j : Bytes) (es : List PlaylistSong)
    → bytes_eq id j ≡ false
    → rows_of j (without id es) ≡ rows_of j es
unfolding rows_of without
rows_of-without_other id j [] h = refl
rows_of-without_other id j (e ∷ es) h = ground (
  arith,
  rows_of-without_other id j es h,
  bytes_eq_iff id j,
  bytes_eq_iff id e.playlist_id,
  bytes_eq_iff j e.playlist_id,
)

pub rows_of-strike_self :
    (id : Bytes) (i : ℤ) (es : List PlaylistSong)
    → rows_of id (strike id i es) ≡ strike id i (rows_of id es)
unfolding rows_of strike
rows_of-strike_self id i [] = refl
rows_of-strike_self id i (e ∷ es) = ground (arith, rows_of-strike_self id i es)

pub rows_of-strike_other :
    (id j : Bytes) (i : ℤ) (es : List PlaylistSong)
    → bytes_eq id j ≡ false
    → rows_of j (strike id i es) ≡ rows_of j es
unfolding rows_of strike
rows_of-strike_other id j i [] h = refl
rows_of-strike_other id j i (e ∷ es) h = ground (
  arith,
  rows_of-strike_other id j i es h,
  bytes_eq_iff id j,
  bytes_eq_iff id e.playlist_id,
  bytes_eq_iff j e.playlist_id,
)

-- A position above all of the playlist's is free.
pub taken-Below :
    (id : Bytes) (k : ℕ) (es : List PlaylistSong) → Below k (rows_of id es) → taken id k es ≡ false
unfolding rows_of taken
taken-Below id k [] h = refl
taken-Below id k (e ∷ es) h = elim (Bool-cases (bytes_eq id e.playlist_id)) [
  | inl eq ↦
      let h' = subst (λ b. Below k (if b then e ∷ rows_of id es else rows_of id es)) eq h in
      ground (arith, eq, h'.0, taken-Below id k es h'.1)
  | inr eq ↦
      let h' = subst (λ b. Below k (if b then e ∷ rows_of id es else rows_of id es)) eq h in
      ground (arith, eq, taken-Below id k es h')
]

ordered_lem :
    (k : ℕ) (e : PlaylistSong) (es : List PlaylistSong)
    → e.position < k
    → Ascending k es
    → by_position e es ≡ e ∷ es
unfolding by_position
ordered_lem k e [] h asc = refl
ordered_lem k e (f ∷ fs) h asc = ground (arith, asc.0)

-- Rows that ascend are in the order that SELECT gives.
pub ordered-Ascending : (k : ℕ) (es : List PlaylistSong) → Ascending k es → ordered es ≡ es
unfolding ordered
ordered-Ascending k [] h = refl
ordered-Ascending k (e ∷ es) (h, t) =
    rw (ordered-Ascending (suc e.position) es t) (ordered_lem (suc e.position) e es (omega arith) t)

pub Ascending-mono : (j k : ℕ) (es : List PlaylistSong) → j ≤ k → Ascending k es → Ascending j es
Ascending-mono j k [] h t = tt
Ascending-mono j k (e ∷ es) h (a, t) = (omega (arith, h, a), t)

pub strike-Ascending :
    (id : Bytes) (i : ℤ) (k : ℕ) (es : List PlaylistSong)
    → Ascending k es
    → Ascending k (strike id i es)
unfolding strike
strike-Ascending id i k [] h = tt
strike-Ascending id i k (e ∷ es) (h, t) =
    elim (Bool-cases (bytes_eq id e.playlist_id && at_index i e.position)) [
      | inl eq ↦ rw eq (
          Ascending-mono k (suc e.position) _ (omega (arith, h))
            (strike-Ascending id i (suc e.position) es t))
      | inr eq ↦ rw eq (h, strike-Ascending id i (suc e.position) es t)
    ]

pub numbered-Ascending : (id : Bytes) (k : ℕ) (ss : List Bytes) → Ascending k (numbered id k ss)
unfolding numbered
numbered-Ascending id k [] = tt
numbered-Ascending id k (s ∷ ss) = (omega arith, numbered-Ascending id (suc k) ss)

pub map-numbered :
    (id : Bytes) (k : ℕ) (ss : List Bytes)
    → map (λ (e : PlaylistSong). e.song_id) (numbered id k ss) ≡ ss
unfolding numbered
map-numbered id k [] = refl
map-numbered id k (s ∷ ss) = ap (◌∷◌ s) (map-numbered id (suc k) ss)

numbered-append :
    (id : Bytes) (k : ℕ) (ss ts : List Bytes)
    → numbered id k (ss ++ ts) ≡ numbered id k ss ++ numbered id (k + length ss) ts
unfolding numbered
numbered-append id k [] ts = ap (λ n. numbered id n ts) (omega arith)
numbered-append id k (s ∷ ss) ts =
    let e : suc k + length ss ≡ k + suc (length ss) = omega arith in
    ap (◌∷◌ (record { playlist_id = id; song_id = s; position = k }))
      (numbered-append id (suc k) ss ts ∙ ap (λ n. numbered id (suc k) ss ++ numbered id n ts) e)

numbered-Below : (id : Bytes) (k : ℕ) (ss : List Bytes) → Below (k + length ss) (numbered id k ss)
unfolding numbered
numbered-Below id k [] = tt
numbered-Below id k (s ∷ ss) = (
  omega arith,
  subst (λ n. Below n (numbered id (suc k) ss)) (omega arith) (numbered-Below id (suc k) ss),
)

next_position-numbered :
    (id : Bytes) (k : ℕ) (s : Bytes) (ss : List Bytes)
    → next_position (numbered id k (s ∷ ss)) ≡ k + length (s ∷ ss)
unfolding numbered next_position
next_position-numbered id k s [] = omega arith
next_position-numbered id k s (t ∷ ss) = omega (arith, next_position-numbered id (suc k) t ss)

pub next_position-fresh :
    (id : Bytes) (ss : List Bytes) → next_position (numbered id 0 ss) ≡ length ss
unfolding next_position numbered
next_position-fresh id [] = refl
next_position-fresh id (s ∷ ss) = omega (arith, next_position-numbered id 0 s ss)

pub Below-append :
    (k : ℕ) (es : List PlaylistSong) (e : PlaylistSong)
    → Below k es
    → e.position ≡ k
    → Below (suc k) (es ++ (e ∷ []))
Below-append k [] e h p = (omega (arith, p), tt)
Below-append k (f ∷ es) e (h, t) p = (omega (arith, h), Below-append k es e t p)

pub append-fresh :
    (id : Bytes) (ss ts : List Bytes)
    → numbered id 0 (ss ++ ts) ≡ numbered id 0 ss ++ numbered id (length ss) ts
append-fresh id ss ts =
    let e : 0 + length ss ≡ length ss = omega arith in
    numbered-append id 0 ss ts ∙ ap (λ n. numbered id 0 ss ++ numbered id n ts) e

pub fresh-Below : (id : Bytes) (ss : List Bytes) → Below (length ss) (numbered id 0 ss)
fresh-Below id ss =
    let e : 0 + length ss ≡ length ss = omega arith in
    subst (λ n. Below n (numbered id 0 ss)) e (numbered-Below id 0 ss)
