-- ===== src/Scan/Writer/Faults.antt =====
-- The writer of internal/scanner/scanner.go whatever statement the engine fails.
use mathlib.Core.Path.{subst}
use preamp.Base.{
  ℕ, ◌≤◌, List, [], ◌∷◌, All, suc, Option-cases, arith, Bool-cases, ◌++◌, inr, inl, leb, refl,
  length,
}
use preamp.Base.Dict.{lookup, insert}
use preamp.Base.Text.{Bytes}
use preamp.Db.{Tables, Run, Db, pure, ◌>>=◌, next_fault, returning, execute}
use preamp.Db.Always.{Ends, Always, Always-pure, Always-bind, Always-any}
use preamp.Scan.Integrity.{IsSound, All-append}
use preamp.Scan.Statements.{has_path, upsert_artist_row, upsert_album_row, upsert_song_row}
use preamp.Scan.Track.{TrackInfo}
use preamp.Scan.Writer.{
  Batch, album_key, song_row, find_artist, find_album, upsert_song, insert_track, insert_tracks,
  insert_batch, new_batch, end_fn, in_batches, flush, write_results, batch_size,
}
use preamp.Scan.Writer.Cache.{NoNul}
use preamp.Scan.Writer.Rows.{Differ, Free}
use preamp.Scan.Writer.Total.{insert_tracks-Safe, new_batch-Cached}

abbrev Any : Tables → Type 0
Any t = Unit {0}

module _ (new_id : ℕ → Bytes) where
  -- No id is drawn twice.
  abbrev Later : {A : Type 0} → ℕ → A × Batch → Tables → Type 0
  Later n (a, b) t = n ≤ b.drawn

  find_artist-Later :
      (t : TrackInfo) (b : Batch) → Always Any (find_artist new_id t b) (Later b.drawn) Any
  unfolding find_artist
  find_artist-Later t b = elim (Option-cases (lookup t.artist b.artist_ids)) [
    | inr (id, e) ↦
        rw (e, find_artist) (Always-pure Any Any (Later b.drawn) (id, b) (λ u r. omega arith))
    | inl e ↦
        rw (e, find_artist)
          (Always-bind Any Any (λ _. Any) (Later b.drawn)
            (returning (upsert_artist_row (new_id b.drawn) t.artist))
            (λ id.
              pure (
                id,
                record b { artist_ids = insert t.artist id b.artist_ids; drawn = suc b.drawn },
              ))
            (Always-any Any (returning (upsert_artist_row (new_id b.drawn) t.artist)))
            (λ id u r. omega arith))
  ]

  find_album-Later :
      (artist : Bytes) (t : TrackInfo) (b : Batch)
      → Always Any (find_album new_id artist t b) (Later b.drawn) Any
  unfolding find_album
  find_album-Later artist t b = elim (Option-cases (lookup (album_key t) b.album_ids)) [
    | inr (id, e) ↦
        rw (e, find_album) (Always-pure Any Any (Later b.drawn) (id, b) (λ u r. omega arith))
    | inl e ↦
        rw (e, find_album)
          (Always-bind Any Any (λ _. Any) (Later b.drawn)
            (returning (upsert_album_row (new_id b.drawn) artist t.album t.year t.genre))
            (λ id. pure (
              id,
              record b { album_ids = insert (album_key t) id b.album_ids; drawn = suc b.drawn },
            ))
            (Always-any Any
              (returning (upsert_album_row (new_id b.drawn) artist t.album t.year t.genre)))
            (λ id u r. omega arith))
  ]

  insert_tracks-Later :
      (n : ℕ) (ts : List TrackInfo) (b : Batch)
      → n ≤ b.drawn
      → Always Any (insert_tracks new_id ts b) (λ b' _. n ≤ b'.drawn) Any
  unfolding insert_tracks insert_track upsert_song
  insert_tracks-Later n [] b h = Always-pure Any Any (λ b' _. n ≤ b'.drawn) b (λ u r. h)
  insert_tracks-Later n (t ∷ ts) b h =
      Always-bind Any Any (λ b' _. n ≤ b'.drawn) (λ b' _. n ≤ b'.drawn) (insert_track new_id t b)
        (λ b'. insert_tracks new_id ts b')
        (Always-bind Any Any (Later b.drawn) (λ b' _. n ≤ b'.drawn) (find_artist new_id t b)
          (λ a. find_album new_id a.0 t a.1 >>= λ al. upsert_song new_id t a.0 al.0 al.1)
          (find_artist-Later t b)
          (λ a s later.
            Always-bind Any Any (Later a.1.drawn) (λ b' _. n ≤ b'.drawn)
              (find_album new_id a.0 t a.1) (λ al. upsert_song new_id t a.0 al.0 al.1)
              (find_album-Later a.0 t a.1)
              (λ al r later'.
                Always-bind Any Any (λ _. Any) (λ b' _. n ≤ b'.drawn)
                  (execute (upsert_song_row (song_row (new_id al.1.drawn) t a.0 al.0)))
                  (λ _. pure (record (al.1) { drawn = suc al.1.drawn }))
                  (Always-any Any
                    (execute (upsert_song_row (song_row (new_id al.1.drawn) t a.0 al.0))))
                  (λ _ u x. omega (arith, h, later, later')) r tt)
              s tt))
        (λ b' s later. insert_tracks-Later n ts b' later s tt)

  module _ (differ : Differ new_id) where
    -- What every batch finds.
    abbrev pub Intact : ℕ → Tables → Type 0
    Intact n t = IsSound t × Free new_id differ n t

    insert_batch-Always :
        (ts : List TrackInfo) (n : ℕ)
        → All (λ (t : TrackInfo). NoNul t.artist) ts
        → Always (Intact n) (insert_batch new_id ts n) Intact IsSound
    unfolding insert_batch end_fn
    insert_batch-Always ts n ok s (sound, free) = elim (Bool-cases (next_fault s.faults).0) [
      | inl e ↦ rw e sound
      | inr e ↦
          let r : Run = record { tables = s.tables; faults = (next_fault s.faults).1 } in
          elim (insert_tracks-Safe new_id differ (λ p. has_path p s.tables.songs) ts (new_batch n)
            ok r ((sound, free, λ p. refl), new_batch-Cached new_id differ n s.tables)) [
              | inr (u, k, _) ↦ rw (e, k) sound
              | inl (u, b, k, q, _) ↦
                  let later : n ≤ b.drawn =
                    subst (Ends (λ (b' : Batch) _. n ≤ b'.drawn) Any) k
                      (insert_tracks-Later n ts (new_batch n) (omega arith) r tt) in
                  elim (Bool-cases (next_fault u.faults).0) [
                    | inl lost ↦ rw (e, k, lost) (sound, λ j h. free j (omega (arith, h, later)))
                    | inr kept ↦ rw (e, k, kept) (q.0.0, q.0.1)
                  ]
            ]
    ]

module _ {A S : Type 0} (size : ℕ) (f : List A → S → Db S) (P : A → Type 0)
    (I : S → Tables → Type 0) (E : Tables → Type 0)
    (one : (xs : List A) (s : S) → All P xs → Always (I s) (f xs s) I E) where
  pub in_batches-Always :
      (batch xs : List A) (s : S)
      → All P batch
      → All P xs
      → Always (I s) (in_batches size f batch xs s) I E
  unfolding in_batches flush
  in_batches-Always [] [] s ok oks = Always-pure (I s) E I s (λ t i. i)
  in_batches-Always (b ∷ bs) [] s ok oks = one (b ∷ bs) s ok
  in_batches-Always batch (x ∷ xs) s ok (o, oks) =
      let full : List A = batch ++ (x ∷ []) in
      let full_ok : All P full = All-append P batch (x ∷ []) ok (o, tt) in
      elim (Bool-cases (leb size (length full))) [
        | inl e ↦
            rw (e, in_batches)
              (Always-bind (I s) E I I (f full s) (λ s'. in_batches size f [] xs s')
                (one full s full_ok) (λ s'. in_batches-Always [] xs s' tt oks))
        | inr e ↦ rw (e, in_batches) (in_batches-Always full xs s full_ok oks)
      ]

pub write_results-Always :
    (new_id : ℕ → Bytes) (differ : Differ new_id) (results : List TrackInfo)
    → All (λ (t : TrackInfo). NoNul t.artist) results
    → Always
        (Intact new_id differ 0)
        (write_results new_id results 0)
        (Intact new_id differ)
        IsSound
unfolding write_results
write_results-Always new_id differ results ok =
    in_batches-Always batch_size (insert_batch new_id) (λ (t : TrackInfo). NoNul t.artist)
      (Intact new_id differ) IsSound (insert_batch-Always new_id differ) [] results 0 tt ok
