-- ===== src/Scan/Sweep/Remains.antt =====
-- What the statements of deleteSongs of internal/scanner/scanner.go leave.
use preamp.Base.{
  List, All, ◌≡◌, [], ◌∷◌, ◌&&◌, Bool-cases, false, not, ◌||◌, refl, inl, arith, true, inr,
  if◌then◌else◌,
}
use mathlib.Core.Path.{subst}
use preamp.Db.{Song, Play, PlaylistSong, has_song}
use preamp.Base.Text.{Bytes, bytes_eq, bytes_eq_iff, one_of}
use preamp.Scan.Integrity.{PlaysOfSongs, EntriesOfSongs}
use preamp.Scan.Statements.{
  plays_without, entries_without, plays_of_any, entries_of_any, song_ids, songs_without, has_path,
}

pub plays_without-All :
    (P : Play → Type 0) (ids : List Bytes) (ps : List Play)
    → All P ps
    → All P (plays_without ids ps)
unfolding plays_without
plays_without-All P ids [] h = tt
plays_without-All P ids (p ∷ ps) (h, hs) = elim (Bool-cases (one_of p.song_id ids)) [
  | inl e ↦ rw e (plays_without-All P ids ps hs)
  | inr e ↦ rw e (h, plays_without-All P ids ps hs)
]

pub entries_without-All :
    (P : PlaylistSong → Type 0) (ids : List Bytes) (es : List PlaylistSong)
    → All P es
    → All P (entries_without ids es)
unfolding entries_without
entries_without-All P ids [] h = tt
entries_without-All P ids (p ∷ ps) (h, hs) = elim (Bool-cases (one_of p.song_id ids)) [
  | inl e ↦ rw e (entries_without-All P ids ps hs)
  | inr e ↦ rw e (h, entries_without-All P ids ps hs)
]

pub songs_without-All :
    (P : Song → Type 0) (paths : List Bytes) (ss : List Song)
    → All P ss
    → All P (songs_without paths ss)
unfolding songs_without
songs_without-All P paths [] h = tt
songs_without-All P paths (s ∷ ss) (h, hs) = elim (Bool-cases (one_of s.path paths)) [
  | inl e ↦ rw e (songs_without-All P paths ss hs)
  | inr e ↦ rw e (h, songs_without-All P paths ss hs)
]

pub plays_of_any-without :
    (ids : List Bytes) (ps : List Play) → plays_of_any ids (plays_without ids ps) ≡ false
unfolding plays_of_any plays_without
plays_of_any-without ids [] = refl
plays_of_any-without ids (p ∷ ps) = ground (arith, plays_of_any-without ids ps)

pub entries_of_any-without :
    (ids : List Bytes) (es : List PlaylistSong)
    → entries_of_any ids (entries_without ids es) ≡ false
unfolding entries_of_any entries_without
entries_of_any-without ids [] = refl
entries_of_any-without ids (e ∷ es) = ground (arith, entries_of_any-without ids es)

pub plays_of_any-nil : (ps : List Play) → plays_of_any [] ps ≡ false
unfolding plays_of_any one_of
plays_of_any-nil [] = refl
plays_of_any-nil (p ∷ ps) = plays_of_any-nil ps

pub entries_of_any-nil : (es : List PlaylistSong) → entries_of_any [] es ≡ false
unfolding entries_of_any one_of
entries_of_any-nil [] = refl
entries_of_any-nil (e ∷ es) = entries_of_any-nil es

songs_without-has_song :
    (id : Bytes) (paths : List Bytes) (ss : List Song)
    → one_of id (song_ids paths ss) ≡ false
    → has_song id ss ≡ true
    → has_song id (songs_without paths ss) ≡ true
unfolding song_ids has_song songs_without one_of
songs_without-has_song id paths [] n h = h
songs_without-has_song id paths (s ∷ ss) n h = elim (Bool-cases (one_of s.path paths)) [
  | inl e ↦
      let m : (bytes_eq id s.id || one_of id (song_ids paths ss)) ≡ false =
        subst (λ b. one_of id (if b then s.id ∷ song_ids paths ss else song_ids paths ss) ≡ false) e
          n in
      rw e (songs_without-has_song id paths ss (ground (arith, m)) (ground (arith, m, h)))
  | inr e ↦
      let m : one_of id (song_ids paths ss) ≡ false =
        subst (λ b. one_of id (if b then s.id ∷ song_ids paths ss else song_ids paths ss) ≡ false) e
          n in
      let ih : has_song id ss ≡ true → has_song id (songs_without paths ss) ≡ true =
        songs_without-has_song id paths ss m in
      rw e (ground (arith, ih, h))
]

pub songs_without-has_path :
    (p : Bytes) (paths : List Bytes) (ss : List Song)
    → has_path p (songs_without paths ss) ≡ (has_path p ss && not (one_of p paths))
unfolding has_path songs_without
songs_without-has_path p paths [] = refl
songs_without-has_path p paths (s ∷ ss) =
    ground (arith, bytes_eq_iff p s.path, songs_without-has_path p paths ss)

pub songs_without-plays :
    (paths : List Bytes) (ss : List Song) (ps : List Play)
    → plays_of_any (song_ids paths ss) ps ≡ false
    → PlaysOfSongs ss ps
    → PlaysOfSongs (songs_without paths ss) ps
unfolding plays_of_any
songs_without-plays paths ss [] n h = tt
songs_without-plays paths ss (p ∷ ps) n (h, hs) = (
  songs_without-has_song p.song_id paths ss (ground (arith, n)) h,
  songs_without-plays paths ss ps (ground (arith, n)) hs,
)

pub songs_without-entries :
    (paths : List Bytes) (ss : List Song) (es : List PlaylistSong)
    → entries_of_any (song_ids paths ss) es ≡ false
    → EntriesOfSongs ss es
    → EntriesOfSongs (songs_without paths ss) es
unfolding entries_of_any
songs_without-entries paths ss [] n h = tt
songs_without-entries paths ss (e ∷ es) n (h, hs) = (
  songs_without-has_song e.song_id paths ss (ground (arith, n)) h,
  songs_without-entries paths ss es (ground (arith, n)) hs,
)
