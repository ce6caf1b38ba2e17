-- ===== src/Annotation/Ratings.antt =====
-- The rating that handleSetRating of internal/api/rating.go leaves.
use preamp.Base.{
  ℕ, zero, suc, Bool, true, false, ◌&&◌, List, [], ◌∷◌, Option, none, some, ltb, if◌then◌else◌, ◌≡◌,
  refl, arith, Bool-cases, inl, inr,
}
use preamp.Base.Text.{Bytes, bytes_eq, bytes_eq_iff, is_empty}
use preamp.Db.{Tables, Rating, next_fault, execute}
use preamp.Db.Transaction.{committed}
use preamp.Db.Ensures.{next_fault-faulty}
use preamp.Db.Outcome.{Answered}
use preamp.Annotation.{
  rating_key, without_rating, upsert_rating, rating_statement, int_param, set_rating,
}

unfoldable pub rating_of : Bytes → Bytes → List Rating → Option ℕ
rating_of user item [] = none
rating_of user item (r ∷ rs) =
    let rest = rating_of user item rs in if rating_key user item r then some r.rating else rest

-- What a rating of 0 to 5 stands for.
abbrev pub rating_value : ℕ → Option ℕ
rating_value zero = none
rating_value (suc n) = some (suc n)

rating_key_iff :
    (u i user item : Bytes) (r : Rating)
    → rating_key user item r ≡ true
    → rating_key u i r ≡ (bytes_eq u user && bytes_eq i item)
unfolding rating_key
rating_key_iff u i user item r h = ground (
  arith,
  h,
  bytes_eq_iff user r.user_id,
  bytes_eq_iff item r.item_id,
  bytes_eq_iff u r.user_id,
  bytes_eq_iff i r.item_id,
  bytes_eq_iff u user,
  bytes_eq_iff i item,
)

rating_key-same :
    (u i user item : Bytes) (r : Rating)
    → (bytes_eq u user && bytes_eq i item) ≡ true
    → rating_key u i r ≡ rating_key user item r
rating_key-same u i user item r h =
    let eu : u ≡ user = ground (arith, h, bytes_eq_iff u user) in
    let ei : i ≡ item = ground (arith, h, bytes_eq_iff i item) in rw (eu, ei) refl

rating_of-without :
    (u i user item : Bytes) (rs : List Rating)
    → rating_of u i (without_rating user item rs)
      ≡ (if bytes_eq u user && bytes_eq i item then none else rating_of u i rs)
unfolding rating_of without_rating
rating_of-without u i user item [] = ground arith
rating_of-without u i user item (r ∷ rs) =
    let rest = rating_of-without u i user item rs in
    elim (Bool-cases (rating_key user item r)) [
      | inl e ↦ rw e (ground (arith, rest, rating_key_iff u i user item r e))
      | inr e ↦ rw e (ground (arith, rest, e, rating_key-same u i user item r))
    ]

rating_of-upsert :
    (u i user item : Bytes) (n : ℕ) (rs : List Rating)
    → rating_of u i (upsert_rating user item n rs)
      ≡ (if bytes_eq u user && bytes_eq i item then some n else rating_of u i rs)
unfolding rating_of upsert_rating rating_key
rating_of-upsert u i user item n [] = refl
rating_of-upsert u i user item n (r ∷ rs) =
    let rest = rating_of-upsert u i user item n rs in
    elim (Bool-cases (rating_key user item r)) [
      | inl e ↦ rw e (ground (arith, rest, rating_key_iff u i user item r e))
      | inr e ↦ rw e (ground (arith, rest, e, rating_key-same u i user item r))
    ]

module _ (user item : Bytes) (before : Tables) where
  abbrev pub Rated : ℕ → Tables → Type 0
  Rated n t =
      (u i : Bytes)
      → rating_of u i t.ratings ≡ (
          if bytes_eq u user && bytes_eq i item
          then rating_value n
          else rating_of u i before.ratings)

  rating_statement-Rated :
      (n : ℕ)
      → ltb 5 n ≡ false
      → (t : Tables) × (rating_statement user item n before ≡ some t) × Rated n t
  unfolding rating_statement
  rating_statement-Rated zero h = (
    record before { ratings = without_rating user item before.ratings },
    refl,
    λ u i. rating_of-without u i user item before.ratings,
  )
  rating_statement-Rated (suc n) h = (
    record before { ratings = upsert_rating user item (suc n) before.ratings },
    ground (arith, h),
    λ u i. rating_of-upsert u i user item (suc n) before.ratings,
  )

  -- A request with a user, an id and a rating of 0 to 5: the rating is the user's for that id, or
  -- there is none if it is 0, and all other ratings are as before; or the engine failed, the reply is
  -- error 0, and nothing changes.
  pub set_rating_lem :
      (rating : Bytes) (n : ℕ) (faults : List Bool)
      → is_empty user ≡ false
      → is_empty item ≡ false
      → int_param rating ≡ some n
      → ltb 5 n ≡ false
      → Answered (Rated n) before faults (set_rating user item rating before faults)
  unfolding set_rating execute committed
  set_rating_lem rating n faults hu hi hr hn =
      let (t, e, rated) = rating_statement-Rated n hn in
      let first = next_fault-faulty faults in
      let rest = (next_fault faults).1 in
      let second = next_fault-faulty rest in
      elim (Bool-cases (next_fault faults).0) [
        | inl f ↦ rw (hu, hi, hr, hn, f) (inr (refl, refl, first.0 f))
        | inr f ↦ elim (Bool-cases (next_fault rest).0) [
          | inl g ↦ rw (hu, hi, hr, hn, f, g) (inr (refl, refl, first.1 (second.0 g)))
          | inr g ↦ rw (hu, hi, hr, hn, f, g, e) (inl (refl, refl, rated))
        ]
      ]
