-- ===== src/Scan/Sweep/Index.antt =====
-- rebuildFTS of internal/scanner/scanner.go where the engine fails no statement.
use preamp.Base.{
  List, Option, ◌≡◌, true, some, map, ◌∷◌, Bool, [], arith, ap, refl, Bool-cases, sym, inl, inr,
  if◌then◌else◌, none,
}
use preamp.Base.Text.{Bytes, bytes_eq}
use mathlib.Core.Path.{subst}
use preamp.Db.{Tables, Album, Artist, Song, FtsRow, next_fault, execute}
use preamp.Db.Clean.{Clean}
use preamp.Scan.Integrity.{AlbumsByArtists, SongsOnAlbums, album_artist}
use preamp.Scan.Statements.{
  has_artist, artist_name, album_name, fts_row, fts_rows, drop_fts, create_fts, fill_fts,
}
use preamp.Scan.Sweep.{rebuild_fts}
use preamp.Scan.Sweep.Orphans.{Tidied}
use preamp.Scan.Writer.{end_fn}

artist_name-exists :
    (id : Bytes) (as' : List Artist)
    → has_artist id as' ≡ true
    → (name : Bytes) × (artist_name id as' ≡ some name)
unfolding has_artist artist_name
artist_name-exists id [] h = ground (arith, h)
artist_name-exists id (a ∷ as') h = elim (Bool-cases (bytes_eq id a.id)) [
  | inl e ↦ (a.name, rw e refl)
  | inr e ↦ let (n, k) = artist_name-exists id as' (ground (arith, h, e)) in (n, rw e k)
]

album_name-exists :
    (id x : Bytes) (as' : List Album)
    → album_artist id as' ≡ some x
    → (name : Bytes) × (album_name id as' ≡ some name)
unfolding album_artist album_name
album_name-exists id x [] h = ground (arith, h)
album_name-exists id x (a ∷ as') h = elim (Bool-cases (bytes_eq id a.id)) [
  | inl e ↦ (a.name, rw e refl)
  | inr e ↦
      let (n, k) =
        album_name-exists id x as'
          (subst (λ b. (if b then some a.artist_id else album_artist id as') ≡ some x) e h) in
      (n, rw e k)
]

has_artist-of :
    (artists : List Artist) (id x : Bytes) (as' : List Album)
    → AlbumsByArtists artists as'
    → album_artist id as' ≡ some x
    → has_artist x artists ≡ true
unfolding album_artist
has_artist-of artists id x [] d h = ground (arith, h)
has_artist-of artists id x (a ∷ as') (d, ds) h = elim (Bool-cases (bytes_eq id a.id)) [
  | inl e ↦
      let this : some a.artist_id ≡ some x =
        subst (λ b. (if b then some a.artist_id else album_artist id as') ≡ some x) e h in
      let same : a.artist_id ≡ x = ground (arith, this) in
      subst (λ y. has_artist y artists ≡ true) same d
  | inr e ↦
      has_artist-of artists id x as' ds
        (subst (λ b. (if b then some a.artist_id else album_artist id as') ≡ some x) e h)
]

-- In sound tables every song has its row.
fts_rows_complete :
    (t : Tables) (ss : List Song)
    → AlbumsByArtists t.artists t.albums
    → SongsOnAlbums t.albums ss
    → map some (fts_rows t ss) ≡ map (fts_row t) ss
unfolding fts_rows fts_row
fts_rows_complete t [] d h = refl
fts_rows_complete t (s ∷ ss) d (h, hs) =
    let (artist, e) =
      artist_name-exists s.artist_id t.artists
        (has_artist-of t.artists s.album_id s.artist_id t.albums d h) in
    let (album, k) = album_name-exists s.album_id s.artist_id t.albums h in
    rw (e, k, fts_rows, fts_row)
      (ap (◌∷◌ (some (record { title = s.title; artist_name = artist; album_name = album })))
        (fts_rows_complete t ss d hs))

fts_rows-same :
    (t : Tables) (x : Option (List FtsRow)) (ss : List Song)
    → fts_rows (record t { fts = x }) ss ≡ fts_rows t ss
unfolding fts_rows fts_row
fts_rows-same t x [] = refl
fts_rows-same t x (s ∷ ss) =
    ap (λ rest. elim (fts_row t s) as (λ _. List FtsRow) [ none ↦ rest | some r ↦ r ∷ rest ])
      (fts_rows-same t x ss)

-- The index has the row of each song, in order.
abbrev pub IsIndexed : Tables → Type 0
IsIndexed t =
    (t.fts ≡ some (fts_rows t t.songs)) × (map some (fts_rows t t.songs) ≡ map (fts_row t) t.songs)

module _ (f : Bytes → Bool) where
  abbrev pub Indexed : Tables → Type 0
  Indexed t = IsIndexed t × Tidied f t

  pub rebuild_fts-Clean : Clean (Tidied f) rebuild_fts (λ _. Indexed)
  unfolding rebuild_fts execute next_fault end_fn drop_fts create_fts fill_fts
  rebuild_fts-Clean t (tidy, (sound, there)) =
      let u : Tables = record t { fts = some (fts_rows t t.songs) } in
      (
        u,
        tt,
        rw (fts_rows-same t (some []) t.songs) refl,
        (
          (
            sym (ap some (fts_rows-same t (some (fts_rows t t.songs)) t.songs)),
            fts_rows_complete u t.songs sound.1 sound.0,
          ),
          (tidy, (sound, there)),
        ),
      )
