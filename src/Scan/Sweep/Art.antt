-- ===== src/Scan/Sweep/Art.antt =====
-- resolveAlbumArt of internal/scanner/scanner.go where the engine fails no statement.
use preamp.Base.{
  ap, Option, Bool, if◌then◌else◌, List, arith, map, some, ◌≡◌, Option-cases, Bool-cases, ◌∷◌, refl,
  [], inl, inr, none, sym,
}
use mathlib.Core.Path.{subst}
use preamp.Db.{Tables, Album, Db, execute, query, Run, pure, ◌>>◌}
use preamp.Db.Clean.{Clean, Clean-bind, Clean-pure, Clean-then, Clean-query, Clean-execute}
use preamp.Base.Text.{Bytes, bytes_eq, is_empty}
use preamp.Base.Dict.{lookup}
use preamp.Scan.Integrity.{Same, map-IsSound, IsSound}
use preamp.Scan.Statements.{cover_albums, set_cover}
use preamp.Scan.Sweep.{
  ignoring, assign_art, resolve_one, resolve_each, resolve_album_art, AlbumInfo, album_infos,
}
use preamp.Scan.Sweep.Deletion.{Songs}

pub ignoring-Clean :
    (P Q : Tables → Type 0) (m : Db (Unit {0})) → Clean P m (λ _. Q) → Clean P (ignoring m) (λ _. Q)
unfolding ignoring
ignoring-Clean P Q m c t p =
    let (u, a, e, q) = c t p in (u, tt, ap (λ (x : Run × Option (Unit {0})). (x.0, some tt)) e, q)

abbrev cover : Bytes → Option Bytes → Album → Album
cover id art a = if bytes_eq id a.id then record a { cover_art = art } else a

cover_albums-eq-map :
    (id : Bytes) (art : Option Bytes) (as' : List Album)
    → cover_albums id art as' ≡ map (cover id art) as'
unfolding cover_albums
cover_albums-eq-map id art [] = refl
cover_albums-eq-map id art (a ∷ as') = ap (◌∷◌ (cover id art a)) (cover_albums-eq-map id art as')

cover-Same : (id : Bytes) (art : Option Bytes) (a : Album) → Same (cover id art a) a
cover-Same id art a = ground arith

-- What holds of the statements of a program, and passes to two programs in a row, holds of the whole.
module _ (Good : Db (Unit {0}) → Type 0) (nothing : Good (pure tt))
    (next : (m k : Db (Unit {0})) → Good m → Good k → Good (m >> k))
    (covered : (id : Bytes) (art : Option Bytes) → Good (ignoring (execute (set_cover id art))))
    (exists : Bytes → Bool) (folder_art : List (Bytes × Bytes)) where
  assign_art-Good : (a : AlbumInfo) → Good (assign_art exists folder_art a)
  unfolding assign_art
  assign_art-Good a = elim (Option-cases (lookup a.song_dir folder_art)) [
    | inl e ↦ rw (e, assign_art) nothing
    | inr (art, e) ↦ rw (e, assign_art) (covered a.id (some art))
  ]

  resolve_one-Good : (a : AlbumInfo) → Good (resolve_one exists folder_art a)
  unfolding resolve_one
  resolve_one-Good a = elim (Bool-cases (is_empty a.cover_art)) [
    | inl e ↦ rw (e, resolve_one) (assign_art-Good a)
    | inr e ↦ elim (Bool-cases (exists a.cover_art)) [
      | inl k ↦ rw (e, k, resolve_one) nothing
      | inr k ↦
          rw (e, k, resolve_one)
            (next (ignoring (execute (set_cover a.id none))) (assign_art exists folder_art a)
              (covered a.id none) (assign_art-Good a))
    ]
  ]

  pub resolve_each-Good : (as' : List AlbumInfo) → Good (resolve_each exists folder_art as')
  unfolding resolve_each
  resolve_each-Good [] = nothing
  resolve_each-Good (a ∷ as') =
      next (resolve_one exists folder_art a) (resolve_each exists folder_art as')
        (resolve_one-Good a) (resolve_each-Good as')

pub cover_albums-IsSound :
    (t : Tables) (id : Bytes) (art : Option Bytes)
    → IsSound t
    → IsSound (record t { albums = cover_albums id art t.albums })
cover_albums-IsSound t id art sound =
    subst (λ as'. IsSound (record t { albums = as' })) (sym (cover_albums-eq-map id art t.albums))
      (map-IsSound t (cover id art) (cover-Same id art) sound)

module _ (f : Bytes → Bool) where
  set_cover-Clean :
      (id : Bytes) (art : Option Bytes)
      → Clean (Songs f) (ignoring (execute (set_cover id art))) (λ _. Songs f)
  unfolding set_cover
  set_cover-Clean id art = ignoring-Clean (Songs f) (Songs f) (execute (set_cover id art)) (
      Clean-execute (Songs f) (Songs f) (set_cover id art) (λ t (sound, there). (
        record t { albums = cover_albums id art t.albums },
        refl,
        (cover_albums-IsSound t id art sound, there),
      )))

  pub resolve_album_art-Clean :
      (exists : Bytes → Bool) (folder_art : List (Bytes × Bytes))
      → Clean (Songs f) (resolve_album_art exists folder_art) (λ _. Songs f)
  unfolding resolve_album_art
  resolve_album_art-Clean exists folder_art =
      Clean-bind (Songs f) (λ _. Songs f) (λ _. Songs f) (query (λ t. album_infos t.songs t.albums))
        (λ infos. resolve_each exists folder_art infos)
        (Clean-query (Songs f) (λ _. Songs f) (λ t. album_infos t.songs t.albums) (λ t h. h))
        (resolve_each-Good (λ m. Clean (Songs f) m (λ _. Songs f))
          (Clean-pure (Songs f) (λ _. Songs f) tt (λ t h. h))
          (λ m k. Clean-then (Songs f) (Songs f) (λ _. Songs f) m k) set_cover-Clean exists
          folder_art)
