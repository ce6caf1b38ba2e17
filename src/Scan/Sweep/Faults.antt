-- ===== src/Scan/Sweep/Faults.antt =====
-- What follows the pipeline in Scanner.Run of internal/scanner/scanner.go, whatever statement the
-- engine fails: the references between the tables stay intact.
use mathlib.Core.Path.{subst}
use preamp.Base.{
  Bool, true, false, List, [], ◌∷◌, Option, none, some, Bool-cases, ◌≡◌, map, refl, inl, sym, arith,
  inr, ◌∙◌, Option-cases, ◌++◌,
}
use preamp.Base.Text.{Bytes}
use preamp.Db.{Tables, Run, Db, ◌>>◌, next_fault, execute, query}
use preamp.Db.Always.{Always, Always-Keeps}
use preamp.Db.Keeps.{Keeps, Keeps-pure, Keeps-execute, Keeps-query, Keeps-bind}
use preamp.Scan.{sweep, finish}
use preamp.Scan.Integrity.{IsSound}
use preamp.Scan.Statements.{
  has_path, cover_albums, set_cover, update_stats, with_stats, albums_with_songs,
  artists_with_albums, delete_orphan_albums, delete_orphan_artists, drop_fts, create_fts, fill_fts,
  fts_rows,
}
use preamp.Scan.Sweep.{
  delete_chunk, chunk_size, delete_songs, ignoring, resolve_each, resolve_album_art, album_infos,
  delete_orphans, rebuild_fts,
}
use preamp.Scan.Sweep.Art.{resolve_each-Good, cover_albums-IsSound}
use preamp.Scan.Sweep.Deletion.{chunk_statements-Safe, All-unit}
use preamp.Scan.Sweep.Kept.{
  albums_with_songs-IsSound, delete_orphan_artists-IsSound, update_stats-IsSound,
}
use preamp.Scan.Writer.{end_fn}
use preamp.Scan.Writer.Faults.{in_batches-Always}

delete_chunk-Always :
    (paths : List Bytes) (u : Unit {0})
    → Always IsSound (delete_chunk paths u) (λ _. IsSound) IsSound
unfolding delete_chunk end_fn
delete_chunk-Always paths u s sound = elim (Bool-cases (next_fault s.faults).0) [
  | inl e ↦ rw e sound
  | inr e ↦
      elim (chunk_statements-Safe (λ p. has_path p s.tables.songs) paths
        (record { tables = s.tables; faults = (next_fault s.faults).1 }) (sound, λ p. refl)) [
          | inr (v, k, _) ↦ rw (e, k) sound
          | inl (v, a, k, q, _) ↦ elim (Bool-cases (next_fault v.faults).0) [
            | inl lost ↦ rw (e, k, lost) sound
            | inr kept ↦ rw (e, k, kept) q.0
          ]
        ]
]

delete_songs-Keeps : (paths : List Bytes) → Keeps IsSound (delete_songs paths)
unfolding delete_songs
delete_songs-Keeps paths = Always-Keeps IsSound IsSound (delete_songs paths) (
    in_batches-Always chunk_size delete_chunk (λ _. Unit {0}) (λ _. IsSound) IsSound
      (λ xs u ok. delete_chunk-Always xs u) [] paths tt tt (All-unit paths))

pub sweep-Keeps : (paths : List Bytes) → Keeps IsSound (sweep paths)
unfolding sweep
sweep-Keeps [] = Keeps-pure IsSound tt
sweep-Keeps (p ∷ ps) = delete_songs-Keeps (p ∷ ps)

-- A statement that breaks no constraint.
execute-Keeps :
    (statement : Tables → Option Tables)
    → ((t : Tables) → IsSound t → (t' : Tables) × (statement t ≡ some t') × IsSound t')
    → Keeps IsSound (execute statement)
execute-Keeps statement h = Keeps-execute IsSound statement (λ t t' r e.
    let (u, k, q) = h t r in
    let it : some u ≡ some t' = sym k ∙ e in
    let same : u ≡ t' = ground (arith, it) in subst IsSound same q)

then-Keeps :
    {B : Type 0} (m : Db (Unit {0})) (k : Db B)
    → Keeps IsSound m
    → Keeps IsSound k
    → Keeps IsSound (m >> k)
then-Keeps m k hm hk = Keeps-bind IsSound m (λ _. k) hm (λ _. hk)

ignoring-Keeps : (m : Db (Unit {0})) → Keeps IsSound m → Keeps IsSound (ignoring m)
unfolding ignoring
ignoring-Keeps m h s r = h s r

set_cover-Keeps :
    (id : Bytes) (art : Option Bytes) → Keeps IsSound (ignoring (execute (set_cover id art)))
unfolding set_cover
set_cover-Keeps id art = ignoring-Keeps (execute (set_cover id art)) (
    execute-Keeps (set_cover id art) (λ t sound. (
      record t { albums = cover_albums id art t.albums },
      refl,
      cover_albums-IsSound t id art sound,
    )))

resolve_album_art-Keeps :
    (exists : Bytes → Bool) (folder_art : List (Bytes × Bytes))
    → Keeps IsSound (resolve_album_art exists folder_art)
unfolding resolve_album_art
resolve_album_art-Keeps exists folder_art =
    Keeps-bind IsSound (query (λ t. album_infos t.songs t.albums))
      (λ infos. resolve_each exists folder_art infos)
      (Keeps-query IsSound (λ t. album_infos t.songs t.albums))
      (resolve_each-Good (λ m. Keeps IsSound m) (Keeps-pure IsSound tt) (λ m k. then-Keeps m k)
        set_cover-Keeps exists folder_art)

update_stats-Keeps : Keeps IsSound (execute update_stats)
unfolding update_stats
update_stats-Keeps = execute-Keeps update_stats (λ t sound.
    (record t { albums = map (with_stats t.songs) t.albums }, refl, update_stats-IsSound t sound))

delete_orphans-Keeps : Keeps IsSound delete_orphans
unfolding delete_orphans delete_orphan_albums
delete_orphans-Keeps =
    then-Keeps (execute delete_orphan_albums) (execute delete_orphan_artists)
      (execute-Keeps delete_orphan_albums (λ t sound. (
        record t { albums = albums_with_songs t.songs t.albums },
        refl,
        albums_with_songs-IsSound t sound,
      )))
      (execute-Keeps delete_orphan_artists (λ t sound.
        let (e, q) = delete_orphan_artists-IsSound t sound in
        (record t { artists = artists_with_albums t.albums t.artists }, e, q)))

end_fn-IsSound :
    (before : Tables) (good : Bool) (r : Run)
    → IsSound before
    → IsSound r.tables
    → IsSound ((end_fn before good r).0).tables
unfolding end_fn
end_fn-IsSound before false r b a = b
end_fn-IsSound before true r b a = elim (Bool-cases (next_fault r.faults).0) [
  | inl e ↦ rw e b
  | inr e ↦ rw e a
]

recreate-Keeps : Keeps IsSound (execute drop_fts >> execute create_fts)
unfolding drop_fts create_fts
recreate-Keeps =
    then-Keeps (execute drop_fts) (execute create_fts)
      (execute-Keeps drop_fts (λ t sound. (record t { fts = none }, refl, sound)))
      (Keeps-execute IsSound create_fts (λ t t' sound e. create-IsSound t t' sound e))
  where
    create-IsSound : (t t' : Tables) → IsSound t → create_fts t ≡ some t' → IsSound t'
    create-IsSound t t' sound e = ground (arith, e, sound)

fill_fts-IsSound : (t t' : Tables) → IsSound t → fill_fts t ≡ some t' → IsSound t'
unfolding fill_fts
fill_fts-IsSound t t' sound e = elim (Option-cases t.fts) [
  | inl k ↦ ground (arith, e, k)
  | inr (rows, k) ↦
      let u : Tables = record t { fts = some (rows ++ fts_rows t t.songs) } in
      let it : some u ≡ some t' = sym (rw k refl) ∙ e in
      let same : u ≡ t' = ground (arith, it) in subst IsSound same sound
]

fill_fts-Keeps : Keeps IsSound (execute fill_fts)
fill_fts-Keeps = Keeps-execute IsSound fill_fts (λ t t' sound e. fill_fts-IsSound t t' sound e)

rebuild_fts-Keeps : Keeps IsSound rebuild_fts
unfolding rebuild_fts
rebuild_fts-Keeps s sound = elim (Bool-cases (next_fault s.faults).0) [
  | inl e ↦ rw e sound
  | inr e ↦
      let r : Run = record { tables = s.tables; faults = (next_fault s.faults).1 } in
      rw e (ended ((execute drop_fts >> execute create_fts) r) (recreate-Keeps r sound))
]
  where
    ended :
        (x : Run × Option (Unit {0}))
        → IsSound (x.0).tables
        → IsSound
            ((elim x.1 as (λ _. Run × Option (Unit {0})) [
              | none ↦ ((end_fn s.tables false x.0).0, none)
              | some _ ↦
                  ((end_fn s.tables true (execute fill_fts x.0).0).0, (execute fill_fts x.0).1)
            ]).0
              ).tables
    ended (u, none) q = end_fn-IsSound s.tables false u sound q
    ended (u, some a) q =
        end_fn-IsSound s.tables true (execute fill_fts u).0 sound (fill_fts-Keeps u q)

pub finish-Keeps :
    (exists : Bytes → Bool) (folder_art : List (Bytes × Bytes))
    → Keeps IsSound (finish exists folder_art)
unfolding finish
finish-Keeps exists folder_art =
    let art = resolve_album_art exists folder_art in
    then-Keeps (ignoring art >> execute update_stats >> delete_orphans >> rebuild_fts)
      (execute some)
      (then-Keeps (ignoring art >> execute update_stats >> delete_orphans) rebuild_fts
        (then-Keeps (ignoring art >> execute update_stats) delete_orphans
          (then-Keeps (ignoring art) (execute update_stats)
            (ignoring-Keeps art (resolve_album_art-Keeps exists folder_art)) update_stats-Keeps)
          delete_orphans-Keeps)
        rebuild_fts-Keeps)
      (execute-Keeps some (λ t sound. (t, refl, sound)))
