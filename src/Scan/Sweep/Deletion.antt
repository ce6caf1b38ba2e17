-- ===== src/Scan/Sweep/Deletion.antt =====
-- deleteSongs of internal/scanner/scanner.go where the engine fails no statement.
use preamp.Scan.Sweep.Remains.{
  plays_of_any-nil, songs_without-All, entries_of_any-nil, songs_without-plays,
  plays_of_any-without, songs_without-entries, plays_without-All, songs_without-has_path,
  entries_of_any-without, entries_without-All,
}
use preamp.Base.{
  List, Bool, All, ◌≡◌, [], ◌∷◌, ◌&&◌, ◌++◌, false, not, ◌||◌, refl, arith, ◌∙◌, ap, Option, some,
}
use mathlib.Core.Path.{subst}
use preamp.Db.{Tables, pure, ◌>>◌, query, execute, next_fault}
use preamp.Db.Clean.{Clean, Clean-then, Clean-pure, Clean-weaken}
use preamp.Db.Safe.{Safe, Safe-bind, Safe-then, Safe-pure, Safe-query, Safe-execute, Safe-Clean}
use preamp.Base.Text.{Bytes, one_of}
use preamp.Scan.Integrity.{IsSound}
use preamp.Scan.Statements.{
  plays_without, entries_without, stars_without, plays_of_any, entries_of_any, song_ids,
  songs_without, has_path, delete_song_rows,
}
use preamp.Scan.Sweep.{delete_references, chunk_statements, delete_chunk, chunk_size, delete_songs}
use preamp.Scan.Writer.{end_fn}
use preamp.Scan.Writer.Batches.{in_batches-Clean}

-- Sound tables whose songs have the paths that `f` says.
abbrev pub Songs : (Bytes → Bool) → Tables → Type 0
Songs f t = IsSound t × ((p : Bytes) → has_path p t.songs ≡ f p)

module _ (f : Bytes → Bool) (paths : List Bytes) where
  abbrev Selected : List Bytes → Tables → Type 0
  Selected ids t = (ids ≡ song_ids paths t.songs) × Songs f t

  abbrev Unused : List Bytes → Tables → Type 0
  Unused ids t =
      (plays_of_any ids t.plays ≡ false) × (entries_of_any ids t.entries ≡ false) × Selected ids t

  delete_references-Safe :
      (ids : List Bytes) → Safe (Selected ids) (delete_references ids) (λ _. Unused ids)
  unfolding delete_references
  delete_references-Safe [] =
      Safe-pure (Selected []) (λ _. Unused []) tt
        (λ t h. (plays_of_any-nil t.plays, entries_of_any-nil t.entries, h))
  delete_references-Safe (id ∷ ids) =
      let l : List Bytes = id ∷ ids in
      let R : Tables → Type 0 = λ t. (plays_of_any l t.plays ≡ false) × Selected l t in
      let plays : Tables → Option Tables =
        λ t. some (record t { plays = plays_without l t.plays }) in
      let stars : Tables → Option Tables =
        λ t. some (record t { stars = stars_without l t.stars }) in
      let entries : Tables → Option Tables =
        λ t. some (record t { entries = entries_without l t.entries }) in
      Safe-then (Selected l) R (λ _. Unused l) (execute plays >> execute stars) (execute entries)
        (Safe-then (Selected l) R (λ _. R) (execute plays) (execute stars)
          (Safe-execute (Selected l) R plays (λ t (e, (sound, there)). (
            record t { plays = plays_without l t.plays },
            refl,
            (
              plays_of_any-without l t.plays,
              (
                e,
                (
                  (sound.0, sound.1, sound.2, plays_without-All _ l t.plays sound.3, sound.4),
                  there,
                ),
              ),
            ),
          )))
          (Safe-execute R R stars (λ t h. (record t { stars = stars_without l t.stars }, refl, h))))
        (Safe-execute R (Unused l) entries (λ t (none_played, (e, (sound, there))). (
          record t { entries = entries_without l t.entries },
          refl,
          (
            none_played,
            entries_of_any-without l t.entries,
            (
              e,
              (
                (sound.0, sound.1, sound.2, sound.3, entries_without-All _ l t.entries sound.4),
                there,
              ),
            ),
          ),
        )))

  delete_song_rows-Safe :
      (ids : List Bytes)
      → Safe
          (Unused ids)
          (execute (delete_song_rows paths))
          (λ _. Songs (λ p. f p && not (one_of p paths)))
  unfolding delete_song_rows
  delete_song_rows-Safe ids =
      Safe-execute (Unused ids) (Songs (λ p. f p && not (one_of p paths))) (delete_song_rows paths)
        (λ t (played, listed, (e, (sound, there))).
          let ps = subst (λ l. plays_of_any l t.plays ≡ false) e played in
          let es = subst (λ l. entries_of_any l t.entries ≡ false) e listed in
          (
            record t { songs = songs_without paths t.songs },
            rw (ps, es) refl,
            (
              (
                songs_without-All _ paths t.songs sound.0,
                sound.1,
                sound.2,
                songs_without-plays paths t.songs t.plays ps sound.3,
                songs_without-entries paths t.songs t.entries es sound.4,
              ),
              λ p.
                  songs_without-has_path p paths t.songs
                  ∙ ap (λ b. b && not (one_of p paths)) (there p),
            ),
          ))

  pub chunk_statements-Safe :
      Safe (Songs f) (chunk_statements paths) (λ _. Songs (λ p. f p && not (one_of p paths)))
  unfolding chunk_statements
  chunk_statements-Safe =
      Safe-bind (Songs f) Selected (λ _. Songs (λ p. f p && not (one_of p paths)))
        (query (λ t. song_ids paths t.songs))
        (λ ids. delete_references ids >> execute (delete_song_rows paths))
        (Safe-query (Songs f) Selected (λ t. song_ids paths t.songs) (λ t h. (refl, h)))
        (λ ids.
          Safe-then (Selected ids) (Unused ids) _ (delete_references ids)
            (execute (delete_song_rows paths)) (delete_references-Safe ids)
            (delete_song_rows-Safe ids))

  delete_chunk-Clean :
      Clean (Songs f) (delete_chunk paths tt) (λ _. Songs (λ p. f p && not (one_of p paths)))
  unfolding delete_chunk end_fn next_fault
  delete_chunk-Clean t h =
      let (u, a, e, q) =
        Safe-Clean (Songs f) (λ _. Songs (λ p. f p && not (one_of p paths)))
          (chunk_statements paths) chunk_statements-Safe t h in
      (u, tt, rw e refl, q)

one_of-append :
    (p : Bytes) (xs ys : List Bytes) → one_of p (xs ++ ys) ≡ (one_of p xs || one_of p ys)
unfolding one_of
one_of-append p [] ys = refl
one_of-append p (x ∷ xs) ys = ground (arith, one_of-append p xs ys)

pub All-unit : (xs : List Bytes) → All (λ (x : Bytes). Unit {0}) xs
All-unit [] = tt
All-unit (x ∷ xs) = (tt, All-unit xs)

-- All the chunks.
pub delete_songs-Clean :
    (f : Bytes → Bool) (paths : List Bytes)
    → Clean (Songs f) (delete_songs paths) (λ _. Songs (λ p. f p && not (one_of p paths)))
unfolding delete_songs one_of
delete_songs-Clean f paths =
    let I : List Bytes → Unit {0} → Tables → Type 0 =
      λ done _. Songs (λ p. f p && not (one_of p done)) in
    Clean-then (Songs f) (I [] tt) (I paths) (pure tt) (delete_songs paths)
      (Clean-pure (Songs f) (λ _. I [] tt) tt (λ t h. (h.0, λ p. h.1 p ∙ ground arith)))
      (in_batches-Clean chunk_size delete_chunk (λ _. Unit {0}) I
        (λ done xs s oks.
          Clean-weaken (I done s) _ (I (done ++ xs)) (delete_chunk xs s)
            (λ m u h. (h.0, λ p. h.1 p ∙ ground (arith, one_of-append p done xs)))
            (delete_chunk-Clean (λ p. f p && not (one_of p done)) xs))
        [] [] paths tt tt (All-unit paths))
