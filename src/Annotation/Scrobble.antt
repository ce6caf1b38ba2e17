-- ===== src/Annotation/Scrobble.antt =====
-- The play history that handleScrobble of internal/api/scrobble.go writes.
use mathlib.Core.Path.{subst}
use preamp.Base.{
  ℕ, zero, suc, Option, none, drop, if◌then◌else◌, ◌≤◌, Bool, true, false, ◌||◌, List, [], ◌∷◌,
  ◌++◌, All, some, ◌≡◌, refl, ap, arith, ◌∙◌, sym, append_assoc, append-nil,
}
use preamp.Base.Int.{ℤ, atoi}
use preamp.Base.Text.{Bytes, bytes_eq, is_empty}
use preamp.Db.{has_song, Tables, Play, execute}
use preamp.Db.Ensures.{Does, Does-execute, Does-pure, Does-then}
use preamp.Db.Handler.{on_write_conn}
use preamp.Db.Outcome.{Answered, answer-Answered, on_write_conn-Settles}
use preamp.Annotation.{
  has_play_id, insert_play, played_at, tail, scrobble_statements, handle_scrobble,
}
use preamp.Annotation.Stars.{Differ}

has_play_id-added :
    (id : Bytes) (ps : List Play) (p : Play)
    → has_play_id id (ps ++ (p ∷ [])) ≡ (has_play_id id ps || bytes_eq id p.id)
unfolding has_play_id
has_play_id-added id [] p = ground arith
has_play_id-added id (q ∷ ps) p = ground (arith, has_play_id-added id ps p)

-- The value of `time` at a song's index, if there is one.
unfoldable pub time_at : List Bytes → ℕ → Option Bytes
time_at [] i = none
time_at (t ∷ ts) zero = some t
time_at (t ∷ ts) (suc i) = time_at ts i

module _ (new_id clock : ℕ → Bytes) (format : ℤ → Bytes) (user : Bytes) where
  -- The specification: the text of the clock, or of the song's time where it is a number.
  unfoldable pub when : ℕ → Option Bytes → Bytes
  when i none = clock i
  when i (some t) = if (atoi t).1 then format (atoi t).0 else clock i

  -- The play of the i-th song.
  abbrev play : List Bytes → ℕ → Bytes → Play
  play times i song = record {
    id = new_id i;
    song_id = song;
    user_id = user;
    played_at = when i (time_at times i);
  }

  -- A play for each song, by its index in the request.
  unfoldable pub plays_of : List Bytes → ℕ → List Bytes → List Play
  plays_of times i [] = []
  plays_of times i (song ∷ songs) = play times i song ∷ plays_of times (suc i) songs

drop-tail : (i : ℕ) (times : List Bytes) → tail (drop i times) ≡ drop (suc i) times
drop-tail zero [] = refl
drop-tail zero (t ∷ ts) = refl
drop-tail (suc i) [] = refl
drop-tail (suc i) (t ∷ ts) = drop-tail i ts

played_at-when :
    (new_id clock : ℕ → Bytes) (format : ℤ → Bytes) (user now : Bytes) (times : List Bytes)
    (n i : ℕ)
    → clock n ≡ now
    → played_at now format (drop i times) ≡ when new_id clock format user n (time_at times i)
unfolding played_at when time_at
played_at-when new_id clock format user now [] n zero h = sym h
played_at-when new_id clock format user now [] n (suc i) h = sym h
played_at-when new_id clock format user now (t ∷ ts) n zero h = ground (arith, h)
played_at-when new_id clock format user now (t ∷ ts) n (suc i) h =
    played_at-when new_id clock format user now ts n i h

module _ (new_id : ℕ → Bytes) (differ : Differ new_id) (clock : ℕ → Bytes) (format : ℤ → Bytes)
    (user : Bytes) (before : Tables) where
  abbrev Written : ℕ → List Play → Tables → Type 0
  Written n plays t =
      (t.songs ≡ before.songs)
      × (t.plays ≡ plays)
      × ((j : ℕ) → n ≤ j → has_play_id (new_id j) t.plays ≡ false)

  insert_play-Written :
      (n : ℕ) (plays : List Play) (song at : Bytes) (t : Tables)
      → has_song song before.songs ≡ true
      → Written n plays t
      → (t' : Tables) × (insert_play (new_id n) song user at t ≡ some t')
        × Written
            (suc n)
            (plays
              ++ (record { id = new_id n; song_id = song; user_id = user; played_at = at } ∷ []))
            t'
  unfolding insert_play
  insert_play-Written n plays song at t known (s, p, free) =
      let new : Play = record { id = new_id n; song_id = song; user_id = user; played_at = at } in
      let there : has_song song t.songs ≡ true = rw s known in
      (
        record t { plays = t.plays ++ (new ∷ []) },
        rw (there, free n (omega arith)) refl,
        (
          s,
          ap (λ ps. ps ++ (new ∷ [])) p,
          λ j lt.
              has_play_id-added (new_id j) t.plays new
              ∙ ground (arith, free j (omega (arith, lt)), differ j n (omega (arith, lt))),
        ),
      )

  scrobble_statements-plays :
      (times : List Bytes) (n : ℕ) (plays : List Play) (songs : List Bytes)
      → All (λ song. has_song song before.songs ≡ true) songs
      → Does
          (Written n plays)
          (scrobble_statements new_id clock format n user songs (drop n times))
          (λ _ t. t.plays ≡ plays ++ plays_of new_id clock format user times n songs)
  unfolding scrobble_statements plays_of
  scrobble_statements-plays times n plays [] h =
      Does-pure (Written n plays) (λ _ t. t.plays ≡ plays ++ []) tt
        (λ t w. w.1 ∙ sym (append-nil plays))
  scrobble_statements-plays times n plays (song ∷ songs) (known, h) =
      let new = play new_id clock format user times n song in
      let body = scrobble_statements new_id clock format (suc n) user songs (drop (suc n) times) in
      let more = plays_of new_id clock format user times (suc n) songs in
      let same = played_at-when new_id clock format user (clock n) times n n refl in
      rw (drop-tail n times, same)
        (Does-then (Written n plays) (Written (suc n) (plays ++ (new ∷ [])))
          (λ _ t. t.plays ≡ plays ++ (new ∷ more))
          (execute (insert_play (new_id n) song user (new.played_at))) body
          (Does-execute (Written n plays) (Written (suc n) (plays ++ (new ∷ [])))
            (insert_play (new_id n) song user (new.played_at))
            (λ t. insert_play-Written n plays song (new.played_at) t known))
          (subst (λ ps. Does (Written (suc n) (plays ++ (new ∷ []))) body (λ _ t. t.plays ≡ ps))
            (append_assoc plays (new ∷ []) more)
            (scrobble_statements-plays times (suc n) (plays ++ (new ∷ [])) songs h)))

  -- A request with a user and songs that all exist, where the ids that are drawn are new: one play of
  -- the user is written for each song, in order, at the time of the same index if there is one and it is a
  -- number, and else at the clock's reading for that song; or the engine failed a statement, the reply is
  -- error 0, and no play is committed.
  pub handle_scrobble_lem :
      (song : Bytes) (songs times : List Bytes) (faults : List Bool)
      → is_empty user ≡ false
      → All (λ s. has_song s before.songs ≡ true) (song ∷ songs)
      → ((j : ℕ) → has_play_id (new_id j) before.plays ≡ false)
      → Answered
          (λ t. t.plays ≡ before.plays ++ plays_of new_id clock format user times 0 (song ∷ songs))
          before
          faults
          (handle_scrobble new_id clock format user
            (some (record { ids = song ∷ songs; times = times }))
            before
            faults)
  unfolding handle_scrobble
  handle_scrobble_lem song songs times faults hu exist free =
      let Q : Tables → Type 0 =
        λ t. t.plays ≡ before.plays ++ plays_of new_id clock format user times 0 (song ∷ songs) in
      let body = scrobble_statements new_id clock format 0 user (song ∷ songs) times in
      rw hu (
        answer-Answered Q before faults (on_write_conn body before faults) (
          on_write_conn-Settles (Written 0 before.plays) Q body before faults
            (scrobble_statements-plays times 0 before.plays (song ∷ songs) exist)
            (refl, refl, λ j le. free j)))
