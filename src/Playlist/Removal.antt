-- ===== src/Playlist/Removal.antt =====
-- The removal of songs by their index in handleUpdatePlaylist of internal/api/playlists.go: one row
-- after another, from the greatest index on.
use preamp.Base.{
  ℕ, suc, Bool, false, ◌&&◌, ◌||◌, List, [], ◌∷◌, map, All, if◌then◌else◌, ◌≡◌, refl, ap, arith,
  Bool-cases, ◌∙◌, inl, inr,
}
use preamp.Base.Int.{ℤ}
use preamp.Base.Dict.{bytes_eq_refl}
use preamp.Base.Text.{Bytes, bytes_eq}
use preamp.Db.{PlaylistSong}
use preamp.Playlist.{insert_descending, sort_descending}
use preamp.Playlist.Statements.{strike, at_index}
use preamp.Playlist.Rows.{numbered, Ascending, strike-Ascending}

-- The songs but those whose index is listed; the first one has index `k`.
unfoldable pub listed_index : List ℤ → ℕ → Bool
listed_index [] k = false
listed_index (i ∷ is) k = at_index i k || listed_index is k

unfoldable pub keep : List ℤ → ℕ → List Bytes → List Bytes
keep is k [] = []
keep is k (s ∷ ss) = let rest = keep is (suc k) ss in if listed_index is k then rest else s ∷ rest

-- Rows struck for each index, one statement after another.
unfoldable pub strike_all : Bytes → List ℤ → List PlaylistSong → List PlaylistSong
strike_all id [] es = es
strike_all id (i ∷ is) es = strike_all id is (strike id i es)

pub strike_all-Ascending :
    (id : Bytes) (is : List ℤ) (k : ℕ) (es : List PlaylistSong)
    → Ascending k es
    → Ascending k (strike_all id is es)
unfolding strike_all
strike_all-Ascending id [] k es h = h
strike_all-Ascending id (i ∷ is) k es h =
    strike_all-Ascending id is k (strike id i es) (strike-Ascending id i k es h)

strike_all-nil : (id : Bytes) (is : List ℤ) → strike_all id is [] ≡ []
unfolding strike_all strike
strike_all-nil id [] = refl
strike_all-nil id (i ∷ is) = strike_all-nil id is

strike_all-cons :
    (id : Bytes) (is : List ℤ) (e : PlaylistSong) (es : List PlaylistSong)
    → strike_all id is (e ∷ es) ≡ (
        if bytes_eq id e.playlist_id && listed_index is e.position
        then strike_all id is es
        else e ∷ strike_all id is es)
unfolding strike_all strike listed_index
strike_all-cons id [] e es = ground arith
strike_all-cons id (i ∷ is) e es =
    elim (Bool-cases (bytes_eq id e.playlist_id && at_index i e.position)) [
      | inl eq ↦ rw eq (ground (arith, eq))
      | inr eq ↦ rw eq (ground (arith, eq, strike_all-cons id is e (strike id i es)))
    ]

-- What stands behind the DELETEs.
pub map-strike_all :
    (id : Bytes) (is : List ℤ) (k : ℕ) (ss : List Bytes)
    → map (λ (e : PlaylistSong). e.song_id) (strike_all id is (numbered id k ss)) ≡ keep is k ss
unfolding numbered keep
map-strike_all id is k [] = ap (map (λ (e : PlaylistSong). e.song_id)) (strike_all-nil id is)
map-strike_all id is k (s ∷ ss) =
    rw
      (
        strike_all-cons id is (record { playlist_id = id; song_id = s; position = k })
            (numbered id (suc k) ss),
        bytes_eq_refl id,
      )
      (ground (arith, map-strike_all id is (suc k) ss))

listed_index-insert :
    (i : ℤ) (is : List ℤ) (k : ℕ)
    → listed_index (insert_descending i is) k ≡ (at_index i k || listed_index is k)
unfolding listed_index insert_descending
listed_index-insert i [] k = refl
listed_index-insert i (j ∷ js) k = ground (arith, listed_index-insert i js k)

pub listed_index-sort :
    (is : List ℤ) (k : ℕ) → listed_index (sort_descending is) k ≡ listed_index is k
unfolding listed_index sort_descending
listed_index-sort [] k = refl
listed_index-sort (i ∷ is) k =
    listed_index-insert i (sort_descending is) k ∙ ap (◌||◌ (at_index i k)) (listed_index-sort is k)

pub keep-sort :
    (is : List ℤ) (k : ℕ) (ss : List Bytes) → keep (sort_descending is) k ss ≡ keep is k ss
unfolding keep
keep-sort is k [] = refl
keep-sort is k (s ∷ ss) = ground (arith, listed_index-sort is k, keep-sort is (suc k) ss)

pub keep-nil : (k : ℕ) (ss : List Bytes) → keep [] k ss ≡ ss
unfolding keep listed_index
keep-nil k [] = refl
keep-nil k (s ∷ ss) = ap (◌∷◌ s) (keep-nil (suc k) ss)

pub keep-All :
    (P : Bytes → Type 0) (is : List ℤ) (k : ℕ) (ss : List Bytes) → All P ss → All P (keep is k ss)
unfolding keep
keep-All P is k [] h = tt
keep-All P is k (s ∷ ss) (h, t) = elim (Bool-cases (listed_index is k)) [
  | inl eq ↦ rw eq (keep-All P is (suc k) ss t)
  | inr eq ↦ rw eq (h, keep-All P is (suc k) ss t)
]
