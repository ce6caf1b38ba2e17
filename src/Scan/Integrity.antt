-- ===== src/Scan/Integrity.antt =====
-- The integrity of the library tables under the statements of internal/scanner/scanner.go.
use preamp.Base.{
  true, false, ◌||◌, List, [], ◌∷◌, ◌++◌, map, All, Option, none, some, if◌then◌else◌, ◌≡◌, refl,
  ap, ◌∙◌, arith, sym,
}
use preamp.Base.Dict.{bytes_eq_refl}
use preamp.Base.Int.{ℤ}
use preamp.Base.Text.{Bytes, bytes_eq}
use preamp.Db.{Tables, Artist, Album, Song, Play, PlaylistSong, has_song}
use preamp.Scan.Statements.{has_artist, has_album, retag_album, is_album}

unfoldable pub album_artist : Bytes → List Album → Option Bytes
album_artist id [] = none
album_artist id (a ∷ as') =
    let rest = album_artist id as' in if bytes_eq id a.id then some a.artist_id else rest

-- Every song is on an album of its artist, every album's artist exists, an album's id leads to an
-- album of the same artist, and the play history and the playlists name songs that exist.
abbrev pub SongsOnAlbums : List Album → List Song → Type 0
SongsOnAlbums albums songs =
    All (λ (s : Song). album_artist s.album_id albums ≡ some s.artist_id) songs

abbrev pub AlbumsByArtists : List Artist → List Album → Type 0
AlbumsByArtists artists albums = All (λ (a : Album). has_artist a.artist_id artists ≡ true) albums

-- An id leads to the row that has it.
abbrev pub AlbumsById : List Album → List Album → Type 0
AlbumsById whole albums = All (λ (a : Album). album_artist a.id whole ≡ some a.artist_id) albums

abbrev pub PlaysOfSongs : List Song → List Play → Type 0
PlaysOfSongs songs plays = All (λ (p : Play). has_song p.song_id songs ≡ true) plays

abbrev pub EntriesOfSongs : List Song → List PlaylistSong → Type 0
EntriesOfSongs songs entries = All (λ (e : PlaylistSong). has_song e.song_id songs ≡ true) entries

abbrev pub IsSound : Tables → Type 0
IsSound t =
    SongsOnAlbums t.albums t.songs
    × AlbumsByArtists t.artists t.albums
    × AlbumsById t.albums t.albums
    × PlaysOfSongs t.songs t.plays
    × EntriesOfSongs t.songs t.entries

pub All-map {ℓ} :
    {A : Type ℓ} (P Q : A → Type 0) (xs : List A) → ((x : A) → P x → Q x) → All P xs → All Q xs
All-map P Q [] f h = tt
All-map P Q (x ∷ xs) f (h, hs) = (f x h, All-map P Q xs f hs)

pub All-append {ℓ} :
    {A : Type ℓ} (P : A → Type 0) (xs ys : List A) → All P xs → All P ys → All P (xs ++ ys)
All-append P [] ys h k = k
All-append P (x ∷ xs) ys (h, hs) k = (h, All-append P xs ys hs k)

pub has_artist-append :
    (id : Bytes) (as' : List Artist) (a : Artist)
    → has_artist id (as' ++ (a ∷ [])) ≡ (has_artist id as' || bytes_eq id a.id)
unfolding has_artist
has_artist-append id [] a = ground arith
has_artist-append id (b ∷ as') a = ground (arith, has_artist-append id as' a)

pub has_album-append :
    (id : Bytes) (as' : List Album) (a : Album)
    → has_album id (as' ++ (a ∷ [])) ≡ (has_album id as' || bytes_eq id a.id)
unfolding has_album
has_album-append id [] a = ground arith
has_album-append id (b ∷ as') a = ground (arith, has_album-append id as' a)

-- A later album does not hide one.
pub album_artist-append :
    (id : Bytes) (as' : List Album) (a : Album) (x : Bytes)
    → album_artist id as' ≡ some x
    → album_artist id (as' ++ (a ∷ [])) ≡ some x
unfolding album_artist
album_artist-append id [] a x h = ground (arith, h)
album_artist-append id (b ∷ as') a x h = ground (arith, h, album_artist-append id as' a x)

pub album_artist-append_new :
    (as' : List Album) (a : Album)
    → has_album a.id as' ≡ false
    → album_artist a.id (as' ++ (a ∷ [])) ≡ some a.artist_id
unfolding album_artist has_album
album_artist-append_new [] a h = rw (bytes_eq_refl a.id) refl
album_artist-append_new (b ∷ as') a h = ground (arith, h, album_artist-append_new as' a)

-- A change of albums that keeps their ids and artists.
abbrev pub Same : Album → Album → Type 0
Same a b = (a.id ≡ b.id) × (a.artist_id ≡ b.artist_id)

pub album_artist-map :
    (id : Bytes) (f : Album → Album) (as' : List Album)
    → ((a : Album) → Same (f a) a)
    → album_artist id (map f as') ≡ album_artist id as'
unfolding album_artist
album_artist-map id f [] h = refl
album_artist-map id f (a ∷ as') h = ground (arith, (h a).0, (h a).1, album_artist-map id f as' h)

pub has_album-map :
    (id : Bytes) (f : Album → Album) (as' : List Album)
    → ((a : Album) → Same (f a) a)
    → has_album id (map f as') ≡ has_album id as'
unfolding has_album
has_album-map id f [] h = refl
has_album-map id f (a ∷ as') h = ground (arith, (h a).0, has_album-map id f as' h)

AlbumsByArtists-map :
    (artists : List Artist) (f : Album → Album) (as' : List Album)
    → ((a : Album) → Same (f a) a)
    → AlbumsByArtists artists as'
    → AlbumsByArtists artists (map f as')
AlbumsByArtists-map artists f [] h d = tt
AlbumsByArtists-map artists f (a ∷ as') h (d, ds) =
    (ap (λ x. has_artist x artists) (h a).1 ∙ d, AlbumsByArtists-map artists f as' h ds)

AlbumsById-map :
    (whole : List Album) (f : Album → Album) (as' : List Album)
    → ((a : Album) → Same (f a) a)
    → AlbumsById whole as'
    → AlbumsById (map f whole) (map f as')
AlbumsById-map whole f [] h d = tt
AlbumsById-map whole f (a ∷ as') h (d, ds) = (
  album_artist-map (f a).id f whole h
      ∙ (ap (λ x. album_artist x whole) (h a).0 ∙ (d ∙ ap some (sym (h a).1))),
  AlbumsById-map whole f as' h ds,
)

pub map-IsSound :
    (t : Tables) (f : Album → Album)
    → ((a : Album) → Same (f a) a)
    → IsSound t
    → IsSound (record t { albums = map f t.albums })
map-IsSound t f h (songs, albums, ids, plays, entries) = (
  All-map (λ (s : Song). album_artist s.album_id t.albums ≡ some s.artist_id) _ t.songs
      (λ s e. album_artist-map s.album_id f t.albums h ∙ e) songs,
  AlbumsByArtists-map t.artists f t.albums h albums,
  AlbumsById-map t.albums f t.albums h ids,
  plays,
  entries,
)

abbrev pub retag : Bytes → Bytes → ℤ → Bytes → Album → Album
retag artist_id name year genre a =
    if is_album artist_id name a then record a { year = year; genre = genre } else a

pub retag-Same :
    (artist_id name genre : Bytes) (year : ℤ) (a : Album)
    → Same (retag artist_id name year genre a) a
retag-Same artist_id name genre year a = ground arith

pub retag_album-eq-map :
    (artist_id name genre : Bytes) (year : ℤ) (as' : List Album)
    → retag_album artist_id name year genre as' ≡ map (retag artist_id name year genre) as'
unfolding retag_album
retag_album-eq-map artist_id name genre year [] = refl
retag_album-eq-map artist_id name genre year (a ∷ as') =
    ap (◌∷◌ (retag artist_id name year genre a)) (retag_album-eq-map artist_id name genre year as')
