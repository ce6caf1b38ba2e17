-- ===== src/Scan/Writer/Lookup.antt =====
-- What the upserts of internal/scanner/scanner.go find and put.
use mathlib.Core.Path.{subst}
use preamp.Base.{
  true, false, ◌||◌, List, [], ◌∷◌, All, some, if◌then◌else◌, ◌≡◌, refl, ap, ◌∙◌, arith, Bool-cases,
  inl, inr,
}
use preamp.Base.Dict.{bytes_eq_refl}
use preamp.Base.Text.{Bytes, bytes_eq, bytes_eq_iff}
use preamp.Db.{Artist, Album, Song, has_song}
use preamp.Scan.Integrity.{album_artist, AlbumsById}
use preamp.Scan.Statements.{
  has_artist, has_album, has_path, put_song, artist_named, album_named, is_album,
}

pub artist_named-exists :
    (name : Bytes) (as' : List Artist) (id : Bytes)
    → artist_named name as' ≡ some id
    → has_artist id as' ≡ true
unfolding artist_named has_artist
artist_named-exists name [] id h = ground (arith, h)
artist_named-exists name (a ∷ as') id h =
    ground (arith, h, artist_named-exists name as' id, bytes_eq_refl a.id)

is_album-artist :
    (artist_id name : Bytes) (a : Album)
    → is_album artist_id name a ≡ true
    → a.artist_id ≡ artist_id
unfolding is_album
is_album-artist artist_id name a h = ground (arith, h, bytes_eq_iff artist_id a.artist_id)

pub album_named-id :
    (artist_id name : Bytes) (whole as' : List Album) (id : Bytes)
    → AlbumsById whole as'
    → album_named artist_id name as' ≡ some id
    → album_artist id whole ≡ some artist_id
unfolding album_named
album_named-id artist_id name whole [] id d h = ground (arith, h)
album_named-id artist_id name whole (a ∷ as') id (d, ds) h =
    elim (Bool-cases (is_album artist_id name a)) [
      | inl e ↦
          let this : some a.id ≡ some id =
            subst (λ b. (if b then some a.id else album_named artist_id name as') ≡ some id) e h in
          let same : a.artist_id ≡ artist_id = is_album-artist artist_id name a e in
          let it : a.id ≡ id = ground (arith, this) in
          subst (λ i. album_artist i whole ≡ some artist_id) it (d ∙ ap some same)
      | inr e ↦
          album_named-id artist_id name whole as' id ds
            (subst (λ b. (if b then some a.id else album_named artist_id name as') ≡ some id) e h)
    ]

pub has_album-artist :
    (id : Bytes) (as' : List Album) (x : Bytes)
    → album_artist id as' ≡ some x
    → has_album id as' ≡ true
unfolding album_artist has_album
has_album-artist id [] x h = ground (arith, h)
has_album-artist id (a ∷ as') x h = ground (arith, h, has_album-artist id as' x)

pub put_song-has_path :
    (p : Bytes) (s : Song) (ss : List Song)
    → has_path p (put_song s ss) ≡ (bytes_eq p s.path || has_path p ss)
unfolding has_path put_song
put_song-has_path p s [] = refl
put_song-has_path p s (r ∷ rs) = ground (
  arith,
  put_song-has_path p s rs,
  bytes_eq_iff s.path r.path,
  bytes_eq_iff p r.path,
  bytes_eq_iff p s.path,
)

pub put_song-has_song :
    (id : Bytes) (s : Song) (ss : List Song)
    → has_song id ss ≡ true
    → has_song id (put_song s ss) ≡ true
unfolding has_song put_song
put_song-has_song id s [] h = ground (arith, h)
put_song-has_song id s (r ∷ rs) h = ground (arith, h, put_song-has_song id s rs)

pub put_song-not-has_song :
    (id : Bytes) (s : Song) (ss : List Song)
    → bytes_eq id s.id ≡ false
    → has_song id ss ≡ false
    → has_song id (put_song s ss) ≡ false
unfolding has_song put_song
put_song-not-has_song id s [] n h = ground (arith, n)
put_song-not-has_song id s (r ∷ rs) n h = ground (arith, n, h, put_song-not-has_song id s rs n)

pub put_song-All :
    (P : Song → Type 0) (s : Song) (ss : List Song)
    → ((id : Bytes) → P (record s { id = id }))
    → All P ss
    → All P (put_song s ss)
unfolding put_song
put_song-All P s [] h t = (h s.id, tt)
put_song-All P s (r ∷ rs) h (p, ps) = elim (Bool-cases (bytes_eq s.path r.path)) [
  | inl e ↦ rw e (h r.id, ps)
  | inr e ↦ rw e (p, put_song-All P s rs h ps)
]
