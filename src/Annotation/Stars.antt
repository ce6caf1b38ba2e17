-- ===== src/Annotation/Stars.antt =====
-- Which items are starred by whom behind handleStar and handleUnstar of internal/api/annotation.go.
pub mod Rows
use preamp.Base.{
  ℕ, suc, ◌≤◌, ◌<◌, Bool, true, false, ◌&&◌, ◌||◌, not, List, [], ◌∷◌, ◌++◌, some, ◌≡◌, refl, ap,
  arith, ◌∙◌, Bool-cases, inl, inr, map,
}
use preamp.Base.Text.{Bytes, bytes_eq, bytes_eq_iff, is_empty, codes, one_of}
use preamp.Annotation.Stars.Rows.{same_item, starred-without, insert_star-starred}
use preamp.Db.{Tables, Star, execute}
use preamp.Db.Ensures.{Does, Does-execute, Does-pure, Does-then, Does-weaken}
use preamp.Db.Handler.{on_write_conn}
use preamp.Db.Outcome.{Answered, answer-Answered, on_write_conn-Settles}
use preamp.Annotation.{
  Item, StarForm, star_of, starred, has_star_id, insert_star, without_star, delete_star,
  star_insert, star_delete, star_items, has_ids, handle_star, handle_unstar,
}

unfoldable pub requested : Item → List Item → Bool
requested i [] = false
requested i (item ∷ items) = same_item i item || requested i items

-- The request lists the item under the parameter of the item's type: `id` for a song, `albumId` for
-- an album, `artistId` for an artist.
unfoldable pub is_listed : Item → StarForm → Bool
is_listed (item, kind) form =
    (bytes_eq kind (codes "song") && one_of item form.ids)
    || (bytes_eq kind (codes "album") && one_of item form.album_ids)
    || (bytes_eq kind (codes "artist") && one_of item form.artist_ids)

requested-append :
    (i : Item) (xs ys : List Item) → requested i (xs ++ ys) ≡ (requested i xs || requested i ys)
unfolding requested
requested-append i [] ys = refl
requested-append i (x ∷ xs) ys = ground (arith, requested-append i xs ys)

requested-map :
    (item kind own : Bytes) (ids : List Bytes)
    → requested (item, kind) (map (λ id. (id, own)) ids) ≡ (bytes_eq kind own && one_of item ids)
unfolding requested same_item one_of
requested-map item kind own [] = ground arith
requested-map item kind own (id ∷ ids) = ground (arith, requested-map item kind own ids)

requested-star_items :
    (i : Item) (form : StarForm) → requested i (star_items form) ≡ is_listed i form
unfolding star_items is_listed
requested-star_items (item, kind) form =
    let songs : List Item = map (λ id. (id, codes "song")) form.ids in
    let albums : List Item = map (λ id. (id, codes "album")) form.album_ids in
    let artists : List Item = map (λ id. (id, codes "artist")) form.artist_ids in
    ground (
      arith,
      requested-append (item, kind) songs (albums ++ artists),
      requested-append (item, kind) albums artists,
      requested-map item kind (codes "song") form.ids,
      requested-map item kind (codes "album") form.album_ids,
      requested-map item kind (codes "artist") form.artist_ids,
    )

-- The ids that are drawn differ.
abbrev pub Differ : (ℕ → Bytes) → Type 0
Differ new_id = (j k : ℕ) → k < j → bytes_eq (new_id j) (new_id k) ≡ false

module _ (new_id : ℕ → Bytes) (differ : Differ new_id) (user : Bytes) where
  -- The stars are those that `f` says, and the ids from the n-th on are free.
  abbrev pub Held : (Bytes → Item → Bool) → ℕ → Tables → Type 0
  Held f n t =
      ((u : Bytes) (i : Item) → starred u i t.stars ≡ f u i)
      × ((j : ℕ) → n ≤ j → has_star_id (new_id j) t.stars ≡ false)

  star_insert-starred :
      (f : Bytes → Item → Bool) (n : ℕ) (items : List Item)
      → Does (Held f n) (star_insert new_id n user items) (λ _ t.
        (u : Bytes) (i : Item)
        → starred u i t.stars ≡ (f u i || (bytes_eq u user && requested i items)))
  unfolding star_insert requested
  star_insert-starred f n [] =
      Does-pure (Held f n)
        (λ _ t.
          (u : Bytes) (i : Item) → starred u i t.stars ≡ (f u i || (bytes_eq u user && false)))
        tt (λ t h u i. ground (arith, h.0 u i))
  star_insert-starred f n (item ∷ items) =
      let g : Bytes → Item → Bool = λ u i. f u i || (bytes_eq u user && same_item i item) in
      Does-then (Held f n) (Held g (suc n))
        (λ _ t.
          (u : Bytes) (i : Item)
          → starred u i t.stars
            ≡ (f u i || (bytes_eq u user && (same_item i item || requested i items))))
        (execute (insert_star (new_id n) user item)) (star_insert new_id (suc n) user items)
        (Does-execute (Held f n) (Held g (suc n)) (insert_star (new_id n) user item) (λ t (h, free).
          let (t', e, s, ids) = insert_star-starred (new_id n) user item t (free n (omega arith)) in
          (
            t',
            e,
            (
              λ u i. s u i ∙ ap (λ b. b || (bytes_eq u user && same_item i item)) (h u i),
              λ j lt. ids (new_id j) (differ j n (omega (arith, lt))) ∙ free j (omega (arith, lt)),
            ),
          )))
        (Does-weaken (Held g (suc n))
          (λ _ t.
            (u : Bytes) (i : Item)
            → starred u i t.stars ≡ (g u i || (bytes_eq u user && requested i items)))
          (λ _ t.
            (u : Bytes) (i : Item)
            → starred u i t.stars
              ≡ (f u i || (bytes_eq u user && (same_item i item || requested i items))))
          (star_insert new_id (suc n) user items) (λ a t h u i. ground (arith, h u i))
          (star_insert-starred g (suc n) items))

  -- A request with a user and an id, where the ids that are drawn are new: afterwards an item is
  -- starred by a user if it was before, or if the request is that user's and lists the item under
  -- the parameter of its type; or the engine failed a statement, the reply is error 0, and no star is committed.
  pub handle_star_lem :
      (form : StarForm) (before : Tables) (faults : List Bool)
      → is_empty user ≡ false
      → has_ids form ≡ true
      → ((j : ℕ) → has_star_id (new_id j) before.stars ≡ false)
      → Answered
          (λ t.
            (u : Bytes) (i : Item)
            → starred u i t.stars
              ≡ (starred u i before.stars || (bytes_eq u user && is_listed i form)))
          before
          faults
          (handle_star new_id user (some form) before faults)
  unfolding handle_star
  handle_star_lem form before faults hu hi free =
      let f : Bytes → Item → Bool = λ u i. starred u i before.stars in
      let Q : Tables → Type 0 = λ t.
        (u : Bytes) (i : Item)
        → starred u i t.stars
          ≡ (starred u i before.stars || (bytes_eq u user && is_listed i form)) in
      let body = star_insert new_id 0 user (star_items form) in
      rw (hu, hi)
        (answer-Answered Q before faults (on_write_conn body before faults) (
          on_write_conn-Settles (Held f 0) Q body before faults
            (Does-weaken (Held f 0)
              (λ _ t.
                (u : Bytes) (i : Item)
                → starred u i t.stars
                  ≡ (f u i || (bytes_eq u user && requested i (star_items form))))
              (λ _. Q) body
              (λ _ t h u i.
                h u i ∙ ap (λ b. f u i || (bytes_eq u user && b)) (requested-star_items i form))
              (star_insert-starred f 0 (star_items form)))
            (λ u i. refl, λ j le. free j)))

module _ (user : Bytes) where
  star_delete-starred :
      (f : Bytes → Item → Bool) (items : List Item)
      → Does
          (λ t. (u : Bytes) (i : Item) → starred u i t.stars ≡ f u i)
          (star_delete user items)
          (λ _ t.
            (u : Bytes) (i : Item)
            → starred u i t.stars ≡ (f u i && not (bytes_eq u user && requested i items)))
  unfolding star_delete requested delete_star
  star_delete-starred f [] =
      Does-pure (λ t. (u : Bytes) (i : Item) → starred u i t.stars ≡ f u i)
        (λ _ t.
          (u : Bytes) (i : Item) → starred u i t.stars ≡ (f u i && not (bytes_eq u user && false)))
        tt (λ t h u i. ground (arith, h u i))
  star_delete-starred f (item ∷ items) =
      let g : Bytes → Item → Bool = λ u i. f u i && not (bytes_eq u user && same_item i item) in
      let P : Tables → Type 0 = λ t. (u : Bytes) (i : Item) → starred u i t.stars ≡ f u i in
      let R : Tables → Type 0 = λ t. (u : Bytes) (i : Item) → starred u i t.stars ≡ g u i in
      let Q : Unit {0} → Tables → Type 0 = λ _ t.
        (u : Bytes) (i : Item)
        → starred u i t.stars
          ≡ (f u i && not (bytes_eq u user && (same_item i item || requested i items))) in
      Does-then P R Q (execute (delete_star user item)) (star_delete user items)
        (Does-execute P R (delete_star user item) (λ t h. (
          record t { stars = without_star user item t.stars },
          refl,
          λ u i.
              starred-without u user i item t.stars
              ∙ ap (λ b. b && not (bytes_eq u user && same_item i item)) (h u i),
        )))
        (Does-weaken R
          (λ _ t.
            (u : Bytes) (i : Item)
            → starred u i t.stars ≡ (g u i && not (bytes_eq u user && requested i items)))
          Q (star_delete user items) (λ a t h u i. ground (arith, h u i))
          (star_delete-starred g items))

  -- A request with a user and an id: afterwards an item is starred by a user if it was before and it is
  -- not that the request is the user's and lists the item under the parameter of its type; or the engine failed a
  -- statement, the reply is error 0, and no star is lost.
  pub handle_unstar_lem :
      (form : StarForm) (before : Tables) (faults : List Bool)
      → is_empty user ≡ false
      → has_ids form ≡ true
      → Answered
          (λ t.
            (u : Bytes) (i : Item)
            → starred u i t.stars
              ≡ (starred u i before.stars && not (bytes_eq u user && is_listed i form)))
          before
          faults
          (handle_unstar user (some form) before faults)
  unfolding handle_unstar
  handle_unstar_lem form before faults hu hi =
      let f : Bytes → Item → Bool = λ u i. starred u i before.stars in
      let P : Tables → Type 0 = λ t. (u : Bytes) (i : Item) → starred u i t.stars ≡ f u i in
      let Q : Tables → Type 0 = λ t.
        (u : Bytes) (i : Item)
        → starred u i t.stars
          ≡ (starred u i before.stars && not (bytes_eq u user && is_listed i form)) in
      let body = star_delete user (star_items form) in
      rw (hu, hi)
        (answer-Answered Q before faults (on_write_conn body before faults) (
          on_write_conn-Settles P Q body before faults
            (Does-weaken P
              (λ _ t.
                (u : Bytes) (i : Item)
                → starred u i t.stars
                  ≡ (f u i && not (bytes_eq u user && requested i (star_items form))))
              (λ _. Q) body
              (λ _ t h u i.
                h u i ∙ ap (λ b. f u i && not (bytes_eq u user && b)) (requested-star_items i form))
              (star_delete-starred f (star_items form)))
            (λ u i. refl)))
