-- ===== src/Annotation.antt =====
-- handleStar, handleUnstar, starInsert and starDelete of internal/api/annotation.go, handleSetRating of
-- internal/api/rating.go and handleScrobble of internal/api/scrobble.go. `db.NewID` is a sequence of
-- ids. A star's created_at is left out: these handlers do not read it.
pub mod Stars
pub mod Ratings
pub mod Scrobble
use preamp.Base.{
  ℕ, zero, suc, ◌+◌, Bool, true, false, ◌&&◌, ◌||◌, not, List, [], ◌∷◌, ◌++◌, map, Option, none,
  some, ◌==◌, ltb, leb, if◌then◌else◌,
}
use preamp.Base.Int.{ℤ, pos, negsuc, atoi}
use preamp.Base.Text.{Bytes, bytes_eq, codes, is_empty}
use preamp.Db.{has_song, Tables, Star, Rating, Play, Db, pure, ◌>>=◌, ◌>>◌, execute, next_fault}
use preamp.Db.Transaction.{Conn, idle}
use preamp.Db.Handler.{Reply, refused, done, on_write_conn, answer}

-- The values of the parameters `id`, `albumId` and `artistId`.
pub record StarForm : Type 0 where
  pub ids : List Bytes
  pub album_ids : List Bytes
  pub artist_ids : List Bytes

-- An item and its type.
abbrev pub Item : Type 0
Item = Bytes × Bytes

-- What the loops over starParams go through.
unfoldable pub star_items : StarForm → List Item
star_items form =
    map (λ i. (i, codes "song")) form.ids
    ++ (map (λ i. (i, codes "album")) form.album_ids
        ++ map (λ i. (i, codes "artist")) form.artist_ids)

unfoldable pub star_of : Bytes → Item → Star → Bool
star_of user (item, kind) s =
    bytes_eq user s.user_id && (bytes_eq item s.item_id && bytes_eq kind s.item_type)

unfoldable pub starred : Bytes → Item → List Star → Bool
starred user item [] = false
starred user item (s ∷ ss) = star_of user item s || starred user item ss

unfoldable pub has_star_id : Bytes → List Star → Bool
has_star_id id [] = false
has_star_id id (s ∷ ss) = bytes_eq id s.id || has_star_id id ss

-- `INSERT OR IGNORE INTO star (id, user_id, item_id, item_type) VALUES (?, ?, ?, ?)`: a row that
-- breaks the primary key or UNIQUE(user_id, item_id, item_type) is not inserted.
unfoldable pub insert_star : Bytes → Bytes → Item → Tables → Option Tables
insert_star id user item t = some (
    if has_star_id id t.stars || starred user item t.stars then t else record t {
      stars =
          t.stars
          ++ (record { id = id; user_id = user; item_id = item.0; item_type = item.1 } ∷ []);
    })

unfoldable pub without_star : Bytes → Item → List Star → List Star
without_star user item [] = []
without_star user item (s ∷ ss) =
    let rest = without_star user item ss in if star_of user item s then rest else s ∷ rest

-- `DELETE FROM star WHERE user_id = ? AND item_id = ? AND item_type = ?`.
unfoldable pub delete_star : Bytes → Item → Tables → Option Tables
delete_star user item t = some (record t { stars = without_star user item t.stars })

-- The statements of starInsert between BEGIN and COMMIT; `n` ids have been drawn.
unfoldable pub star_insert : (ℕ → Bytes) → ℕ → Bytes → List Item → Db (Unit {0})
star_insert new_id n user [] = pure tt
star_insert new_id n user (item ∷ items) =
    execute (insert_star (new_id n) user item) >> star_insert new_id (suc n) user items

unfoldable pub star_delete : Bytes → List Item → Db (Unit {0})
star_delete user [] = pure tt
star_delete user (item ∷ items) = execute (delete_star user item) >> star_delete user items

-- `hasIDs`.
unfoldable pub has_ids : StarForm → Bool
has_ids form =
    not (is_nil form.ids) || (not (is_nil form.album_ids) || not (is_nil form.artist_ids))
  where
    is_nil : List Bytes → Bool
    is_nil [] = true
    is_nil (_ ∷ _) = false

-- `none` for the form is a request that ParseForm refuses.
unfoldable pub handle_star :
    (ℕ → Bytes) → Bytes → Option StarForm → Tables → List Bool → Conn × Reply
handle_star new_id user none t faults = (idle t faults, refused (if is_empty user then 10 else 0))
handle_star new_id user (some form) t faults =
    if is_empty user
    then (idle t faults, refused 10)
    else if not (has_ids form)
    then (idle t faults, refused 10)
    else answer (on_write_conn (star_insert new_id 0 user (star_items form)) t faults)

unfoldable pub handle_unstar : Bytes → Option StarForm → Tables → List Bool → Conn × Reply
handle_unstar user none t faults = (idle t faults, refused (if is_empty user then 10 else 0))
handle_unstar user (some form) t faults =
    if is_empty user
    then (idle t faults, refused 10)
    else if not (has_ids form)
    then (idle t faults, refused 10)
    else answer (on_write_conn (star_delete user (star_items form)) t faults)

-- `intParam` of internal/api/search.go with the fallback -1, which is `none` here.
unfoldable pub int_param : Bytes → Option ℕ
unfolding atoi
int_param v =
    if is_empty v
    then none
    else let (n, good) = atoi v in
      if good then elim n [ pos k ↦ some k | negsuc k ↦ none ] else none

unfoldable pub rating_key : Bytes → Bytes → Rating → Bool
rating_key user item r = bytes_eq user r.user_id && bytes_eq item r.item_id

-- `DELETE FROM rating WHERE user_id = ? AND item_id = ?`.
unfoldable pub without_rating : Bytes → Bytes → List Rating → List Rating
without_rating user item [] = []
without_rating user item (r ∷ rs) =
    let rest = without_rating user item rs in if rating_key user item r then rest else r ∷ rest

-- `INSERT INTO rating ... ON CONFLICT(user_id, item_id) DO UPDATE SET rating = excluded.rating`.
unfoldable pub upsert_rating : Bytes → Bytes → ℕ → List Rating → List Rating
upsert_rating user item n [] = record { user_id = user; item_id = item; rating = n } ∷ []
upsert_rating user item n (r ∷ rs) =
    let rest = upsert_rating user item n rs in
    if rating_key user item r then record r { rating = n } ∷ rs else r ∷ rest

-- CHECK(rating BETWEEN 1 AND 5).
unfoldable pub rating_statement : Bytes → Bytes → ℕ → Tables → Option Tables
rating_statement user item n t =
    if n == 0
    then some (record t { ratings = without_rating user item t.ratings })
    else if ltb 5 n
    then none
    else some (record t { ratings = upsert_rating user item n t.ratings })

-- One statement, which is its own transaction.
unfoldable pub set_rating : Bytes → Bytes → Bytes → Tables → List Bool → Conn × Reply
unfolding next_fault int_param
set_rating user item rating t faults =
    if is_empty user
    then (idle t faults, refused 10)
    else if is_empty item
    then (idle t faults, refused 10)
    else elim (int_param rating) [
      | none ↦ (idle t faults, refused 10)
      | some n ↦
          if ltb 5 n
          then (idle t faults, refused 10)
          else let (fault, rest) = next_fault faults in
            if fault
            then (idle t rest, refused 0)
            else let (r, result) =
                execute (rating_statement user item n) (record { tables = t; faults = rest }) in
              (idle r.tables r.faults, elim result [ none ↦ refused 0 | some _ ↦ done ])
    ]

unfoldable pub has_play_id : Bytes → List Play → Bool
has_play_id id [] = false
has_play_id id (p ∷ ps) = bytes_eq id p.id || has_play_id id ps

-- `INSERT INTO play_history (id, song_id, user_id, played_at) VALUES (?, ?, ?, ?)`.
unfoldable pub insert_play : Bytes → Bytes → Bytes → Bytes → Tables → Option Tables
insert_play id song user at t =
    if has_song song t.songs && not (has_play_id id t.plays)
    then some (record t {
      plays = t.plays ++ (record { id = id; song_id = song; user_id = user; played_at = at } ∷ []);
    })
    else none

-- `now` is the text of the clock's reading for this song, and `format` writes epoch milliseconds.
unfoldable pub played_at : Bytes → (ℤ → Bytes) → List Bytes → Bytes
unfolding atoi
played_at now format [] = now
played_at now format (time ∷ times) = let (ms, good) = atoi time in if good then format ms else now

abbrev pub tail : List Bytes → List Bytes
tail [] = []
tail (_ ∷ xs) = xs

-- The `n`-th song draws the id `new_id n` and reads the clock as `clock n`.
unfoldable pub scrobble_statements :
    (ℕ → Bytes) → (ℕ → Bytes) → (ℤ → Bytes) → ℕ → Bytes → List Bytes → List Bytes → Db (Unit {0})
unfolding played_at
scrobble_statements new_id clock format n user [] times = pure tt
scrobble_statements new_id clock format n user (song ∷ songs) times =
    execute (insert_play (new_id n) song user (played_at (clock n) format times))
    >> scrobble_statements new_id clock format (suc n) user songs (tail times)

-- The values of the parameters `id` and `time`; a time without a song is not looked at.
pub record ScrobbleForm : Type 0 where
  pub ids : List Bytes
  pub times : List Bytes

-- `none` for the form is a request that ParseForm refuses.
unfoldable pub handle_scrobble :
    (ℕ → Bytes)
    → (ℕ → Bytes)
    → (ℤ → Bytes)
    → Bytes
    → Option ScrobbleForm
    → Tables
    → List Bool
    → Conn × Reply
handle_scrobble new_id clock format user none t faults =
    (idle t faults, refused (if is_empty user then 10 else 0))
handle_scrobble new_id clock format user (some form) t faults =
    if is_empty user then (idle t faults, refused 10) else elim form.ids [
      | [] ↦ (idle t faults, refused 10)
      | song ∷ songs ↦ answer (
          on_write_conn (scrobble_statements new_id clock format 0 user (song ∷ songs) form.times) t
            faults)
    ]
