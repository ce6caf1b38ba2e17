-- ===== src/Scan/Sweep/Kept.antt =====
-- What updateAlbumStats and deleteOrphans of internal/scanner/scanner.go keep of the tables.
use preamp.Base.Dict.{bytes_eq_refl}
use preamp.Base.{
  List, All, ◌≡◌, ◌<◌, arith, map, ◌∷◌, [], true, Bool-cases, ◌∙◌, some, false, refl, ◌==◌, inl,
  inr, if◌then◌else◌, sym,
}
use mathlib.Core.Path.{subst}
use preamp.Db.{Tables, Album, Artist, Song}
use preamp.Base.Text.{Bytes, bytes_eq, bytes_eq_iff}
use preamp.Scan.Integrity.{
  Same, map-IsSound, SongsOnAlbums, AlbumsByArtists, AlbumsById, album_artist, All-map, IsSound,
}
use preamp.Scan.Statements.{
  with_stats, count_songs, sum_durations, albums_with_songs, has_album_of, has_artist,
  artists_with_albums, song_of_orphan, delete_orphan_artists,
}

-- The count and the duration of an album are those of its songs.
abbrev pub HasStats : List Song → Album → Type 0
HasStats songs a = (a.song_count ≡ count_songs a.id songs) × (a.duration ≡ sum_durations a.id songs)

-- They are if it has songs.
abbrev pub HasStatsOrNone : List Song → Album → Type 0
HasStatsOrNone songs a = 0 < count_songs a.id songs → HasStats songs a

abbrev pub IsUsed : List Song → Album → Type 0
IsUsed songs a = (0 < count_songs a.id songs) × HasStats songs a

abbrev pub IsCounted : Tables → Type 0
IsCounted t = All (HasStatsOrNone t.songs) t.albums

-- Every album has songs and their statistics, and every artist an album.
abbrev pub NoOrphans : Tables → Type 0
NoOrphans t =
    All (IsUsed t.songs) t.albums
    × All (λ (a : Artist). has_album_of a.id t.albums ≡ true) t.artists

with_stats-Same : (songs : List Song) (a : Album) → Same (with_stats songs a) a
unfolding with_stats
with_stats-Same songs a = ground arith

with_stats-HasStatsOrNone :
    (songs : List Song) (a : Album) → HasStatsOrNone songs (with_stats songs a)
unfolding with_stats
with_stats-HasStatsOrNone songs a h = elim (Bool-cases (count_songs a.id songs == 0)) [
  | inl e ↦ ground (arith, e, h)
  | inr e ↦ rw e (refl, refl)
]

pub update_stats-All :
    (songs : List Song) (as' : List Album) → All (HasStatsOrNone songs) (map (with_stats songs) as')
update_stats-All songs [] = tt
update_stats-All songs (a ∷ as') = (with_stats-HasStatsOrNone songs a, update_stats-All songs as')

-- What has songs is kept.
album_artist-kept :
    (songs : List Song) (id : Bytes) (as' : List Album)
    → 0 < count_songs id songs
    → album_artist id (albums_with_songs songs as') ≡ album_artist id as'
unfolding album_artist albums_with_songs
album_artist-kept songs id [] h = refl
album_artist-kept songs id (a ∷ as') h =
    ground (arith, h, album_artist-kept songs id as' h, bytes_eq_iff id a.id)

pub albums_with_songs-All :
    (P Q : Album → Type 0) (songs : List Song) (as' : List Album)
    → ((a : Album) → 0 < count_songs a.id songs → P a → Q a)
    → All P as'
    → All Q (albums_with_songs songs as')
unfolding albums_with_songs
albums_with_songs-All P Q songs [] f h = tt
albums_with_songs-All P Q songs (a ∷ as') f (h, hs) =
    elim (Bool-cases (count_songs a.id songs == 0)) [
      | inl e ↦ rw e (albums_with_songs-All P Q songs as' f hs)
      | inr e ↦ rw e (f a (ground (arith, e)) h, albums_with_songs-All P Q songs as' f hs)
    ]

count_songs-cons :
    (id : Bytes) (s : Song) (ss : List Song) → 0 < count_songs id ss → 0 < count_songs id (s ∷ ss)
unfolding count_songs
count_songs-cons id s ss h = ground (arith, h)

count_songs_self : (s : Song) (ss : List Song) → 0 < count_songs s.album_id (s ∷ ss)
unfolding count_songs
count_songs_self s ss = rw (bytes_eq_refl s.album_id) (omega arith)

count_songs-All : (ss : List Song) → All (λ (s : Song). 0 < count_songs s.album_id ss) ss
count_songs-All [] = tt
count_songs-All (s ∷ ss) = (
  count_songs_self s ss,
  All-map _ _ ss (λ r h. count_songs-cons r.album_id s ss h) (count_songs-All ss),
)

SongsOnAlbums-kept :
    (whole : List Song) (albums : List Album) (ss : List Song)
    → All (λ (s : Song). 0 < count_songs s.album_id whole) ss
    → SongsOnAlbums albums ss
    → SongsOnAlbums (albums_with_songs whole albums) ss
SongsOnAlbums-kept whole albums [] c h = tt
SongsOnAlbums-kept whole albums (s ∷ ss) (c, cs) (h, hs) =
    (album_artist-kept whole s.album_id albums c ∙ h, SongsOnAlbums-kept whole albums ss cs hs)

pub has_album_of-album_artist :
    (id x : Bytes) (as' : List Album) → album_artist id as' ≡ some x → has_album_of x as' ≡ true
unfolding album_artist has_album_of
has_album_of-album_artist id x [] h = ground (arith, h)
has_album_of-album_artist id x (a ∷ as') h = elim (Bool-cases (bytes_eq id a.id)) [
  | inl e ↦
      let this : some a.artist_id ≡ some x =
        subst (λ b. (if b then some a.artist_id else album_artist id as') ≡ some x) e h in
      let same : a.artist_id ≡ x = ground (arith, this) in
      ground (arith, (bytes_eq_iff x a.artist_id).1 (sym same))
  | inr e ↦
      let ih =
        has_album_of-album_artist id x as'
          (subst (λ b. (if b then some a.artist_id else album_artist id as') ≡ some x) e h) in
      ground (arith, ih)
]

song_of_orphan-false :
    (albums : List Album) (ss : List Song)
    → SongsOnAlbums albums ss
    → song_of_orphan albums ss ≡ false
unfolding song_of_orphan
song_of_orphan-false albums [] h = refl
song_of_orphan-false albums (s ∷ ss) (h, hs) = ground (
  arith,
  has_album_of-album_artist s.album_id s.artist_id albums h,
  song_of_orphan-false albums ss hs,
)

has_artist-kept :
    (id : Bytes) (albums : List Album) (as' : List Artist)
    → has_album_of id albums ≡ true
    → has_artist id (artists_with_albums albums as') ≡ has_artist id as'
unfolding has_artist artists_with_albums
has_artist-kept id albums [] h = refl
has_artist-kept id albums (a ∷ as') h =
    ground (arith, h, has_artist-kept id albums as' h, bytes_eq_iff id a.id)

AlbumsByArtists-kept :
    (whole : List Album) (artists : List Artist) (as' : List Album)
    → AlbumsById whole as'
    → AlbumsByArtists artists as'
    → AlbumsByArtists (artists_with_albums whole artists) as'
AlbumsByArtists-kept whole artists [] i h = tt
AlbumsByArtists-kept whole artists (a ∷ as') (i, is) (h, hs) = (
  has_artist-kept a.artist_id whole artists (has_album_of-album_artist a.id a.artist_id whole i)
      ∙ h,
  AlbumsByArtists-kept whole artists as' is hs,
)

pub artists_with_albums-All :
    (albums : List Album) (as' : List Artist)
    → All (λ (a : Artist). has_album_of a.id albums ≡ true) (artists_with_albums albums as')
unfolding artists_with_albums
artists_with_albums-All albums [] = tt
artists_with_albums-All albums (a ∷ as') = elim (Bool-cases (has_album_of a.id albums)) [
  | inl e ↦ rw e (e, artists_with_albums-All albums as')
  | inr e ↦ rw e (artists_with_albums-All albums as')
]

pub albums_with_songs-IsSound :
    (t : Tables) → IsSound t → IsSound (record t { albums = albums_with_songs t.songs t.albums })
albums_with_songs-IsSound t sound =
    let kept : List Album = albums_with_songs t.songs t.albums in
    (
      SongsOnAlbums-kept t.songs t.albums t.songs (count_songs-All t.songs) sound.0,
      albums_with_songs-All _ _ t.songs t.albums (λ a c h. h) sound.1,
      albums_with_songs-All (λ (a : Album). album_artist a.id t.albums ≡ some a.artist_id)
          (λ (a : Album). album_artist a.id kept ≡ some a.artist_id) t.songs t.albums
          (λ a c h. album_artist-kept t.songs a.id t.albums c ∙ h) sound.2,
      sound.3,
      sound.4,
    )

-- The foreign key of the songs does not forbid it.
pub delete_orphan_artists-IsSound :
    (t : Tables)
    → IsSound t
    → (delete_orphan_artists t
        ≡ some (record t { artists = artists_with_albums t.albums t.artists }))
      × IsSound (record t { artists = artists_with_albums t.albums t.artists })
unfolding delete_orphan_artists
delete_orphan_artists-IsSound t sound = (
  rw (song_of_orphan-false t.albums t.songs sound.0) refl,
  (
    sound.0,
    AlbumsByArtists-kept t.albums t.artists t.albums sound.2 sound.1,
    sound.2,
    sound.3,
    sound.4,
  ),
)

pub update_stats-IsSound :
    (t : Tables) → IsSound t → IsSound (record t { albums = map (with_stats t.songs) t.albums })
update_stats-IsSound t = map-IsSound t (with_stats t.songs) (with_stats-Same t.songs)
