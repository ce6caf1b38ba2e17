-- ===== src/Tests/Annotation.antt =====
-- The theorems on stars, ratings and scrobbles at small requests.
use preamp.Base.{ℕ, false, true, [], ◌∷◌, none, some, ◌≡◌, refl, arith, ◌&&◌, ◌||◌, not, ◌++◌}
use preamp.Base.Text.{Bytes, codes, bytes_eq}
use preamp.Db.{Tables, Song}
use preamp.Base.Int.{pos}
use preamp.Db.Outcome.{Answered}
use preamp.Annotation.{
  StarForm, ScrobbleForm, Item, handle_star, handle_unstar, set_rating, handle_scrobble, starred,
  star_items, has_star_id, has_ids, int_param,
}
use preamp.Annotation.Stars.{Differ, is_listed, handle_star_lem, handle_unstar_lem}
use preamp.Annotation.Ratings.{Rated, set_rating_lem}
use preamp.Annotation.Scrobble.{plays_of, handle_scrobble_lem}

abbrev alice : Bytes
alice = codes "alice"

abbrev song : Bytes → Song
song id = record {
  id = id;
  album_id = [];
  artist_id = [];
  title = [];
  track = pos 0;
  disc = pos 0;
  year = pos 0;
  genre = [];
  duration = 0;
  size = 0;
  suffix = [];
  bitrate = 0;
  content_type = [];
  path = id;
  file_mtime = 0;
}

-- Bob has starred song s1; alice has rated it.
abbrev tables : Tables
tables = record {
  playlists = [];
  entries = [];
  songs = song (codes "s1") ∷ song (codes "s2") ∷ [];
  artists = [];
  albums = [];
  fts = none;
  stars =
      record {
        id = codes "x";
        user_id = codes "bob";
        item_id = codes "s1";
        item_type = codes "song";
      }
      ∷ [];
  ratings = record { user_id = alice; item_id = codes "s1"; rating = 2 } ∷ [];
  plays = [];
}

-- Ids of one byte.
abbrev new_id : ℕ → Bytes
new_id n = b'n' ∷ n ∷ []

new_id-Differ : Differ new_id
unfolding bytes_eq
new_id-Differ j k lt = ground (arith, lt)

abbrev stars : StarForm
stars = record { ids = codes "s1" ∷ codes "s2" ∷ []; album_ids = codes "a" ∷ []; artist_ids = [] }

handle_star_lem_example :
    Answered
      (λ t.
        (u : Bytes) (i : Item)
        → starred u i t.stars
          ≡ (starred u i tables.stars || (bytes_eq u alice && is_listed i stars)))
      tables
      (false ∷ false ∷ false ∷ true ∷ [])
      (handle_star new_id alice (some stars) tables (false ∷ false ∷ false ∷ true ∷ []))
unfolding has_ids has_star_id bytes_eq
handle_star_lem_example =
    handle_star_lem new_id new_id-Differ alice stars tables (false ∷ false ∷ false ∷ true ∷ []) refl
      refl (λ j. refl)

handle_unstar_lem_example :
    Answered
      (λ t.
        (u : Bytes) (i : Item)
        → starred u i t.stars
          ≡ (starred u i tables.stars && not (bytes_eq u (codes "bob") && is_listed i stars)))
      tables
      []
      (handle_unstar (codes "bob") (some stars) tables [])
unfolding has_ids
handle_unstar_lem_example = handle_unstar_lem (codes "bob") stars tables [] refl refl

set_rating_lem_example :
    Answered
      (Rated alice (codes "s1") tables 5)
      tables
      []
      (set_rating alice (codes "s1") (codes "5") tables [])
unfolding int_param
set_rating_lem_example =
    set_rating_lem alice (codes "s1") tables (codes "5") 5 [] refl refl refl refl

-- The second song has no time.
abbrev scrobbles : ScrobbleForm
scrobbles = record { ids = codes "s2" ∷ codes "s1" ∷ []; times = codes "1700000000000" ∷ [] }

abbrev clock : ℕ → Bytes
clock n = b't' ∷ n ∷ []

handle_scrobble_lem_example :
    Answered
      (λ t.
        t.plays
        ≡ []
          ++ plays_of new_id clock
              (λ ms. codes "then")
              alice
              (codes "1700000000000" ∷ [])
              0
              (codes "s2" ∷ codes "s1" ∷ []))
      tables
      []
      (handle_scrobble new_id clock (λ ms. codes "then") alice (some scrobbles) tables [])
unfolding preamp.Db.has_song preamp.Annotation.has_play_id bytes_eq
handle_scrobble_lem_example =
    handle_scrobble_lem new_id new_id-Differ clock (λ ms. codes "then") alice tables (codes "s2")
      (codes "s1" ∷ []) (codes "1700000000000" ∷ []) [] refl (refl, (refl, tt)) (λ j. refl)
