-- ===== src/Annotation/Stars/Rows.antt =====
-- The rows of `star` behind an INSERT OR IGNORE and a DELETE.
use preamp.Base.{
  true, false, ◌&&◌, ◌||◌, not, List, [], ◌∷◌, ◌++◌, some, ◌≡◌, refl, ap, arith, ◌∙◌, Bool-cases,
  inl, inr, Bool,
}
use preamp.Base.Text.{Bytes, bytes_eq, bytes_eq_iff}
use preamp.Db.{Tables, Star}
use preamp.Annotation.{Item, star_of, starred, has_star_id, insert_star, without_star}

unfoldable pub same_item : Item → Item → Bool
same_item (a, b) (c, d) = bytes_eq a c && bytes_eq b d

star_of_lem :
    (u user id : Bytes) (i item : Item)
    → star_of u i (record { id = id; user_id = user; item_id = item.0; item_type = item.1 })
      ≡ (bytes_eq u user && same_item i item)
unfolding star_of same_item
star_of_lem u user id (a, b) (c, d) = refl

starred-added :
    (u : Bytes) (i : Item) (ss : List Star) (s : Star)
    → starred u i (ss ++ (s ∷ [])) ≡ (starred u i ss || star_of u i s)
unfolding starred
starred-added u i [] s = ground arith
starred-added u i (r ∷ ss) s = ground (arith, starred-added u i ss s)

starred-same :
    (u user : Bytes) (i item : Item) (ss : List Star)
    → (bytes_eq u user && same_item i item) ≡ true
    → starred u i ss ≡ starred user item ss
unfolding same_item
starred-same u user (a, b) (c, d) ss h =
    let eu : u ≡ user = ground (arith, h, bytes_eq_iff u user) in
    let ea : a ≡ c = ground (arith, h, bytes_eq_iff a c) in
    let eb : b ≡ d = ground (arith, h, bytes_eq_iff b d) in rw (eu, ea, eb) refl

has_star_id-added :
    (id : Bytes) (ss : List Star) (s : Star)
    → has_star_id id (ss ++ (s ∷ [])) ≡ (has_star_id id ss || bytes_eq id s.id)
unfolding has_star_id
has_star_id-added id [] s = ground arith
has_star_id-added id (r ∷ ss) s = ground (arith, has_star_id-added id ss s)

star_of-without :
    (u user : Bytes) (i item : Item) (s : Star)
    → star_of user item s ≡ true
    → star_of u i s ≡ (bytes_eq u user && same_item i item)
unfolding star_of same_item
star_of-without u user (a, b) (c, d) s h = ground (
  arith,
  h,
  bytes_eq_iff user s.user_id,
  bytes_eq_iff c s.item_id,
  bytes_eq_iff d s.item_type,
  bytes_eq_iff u s.user_id,
  bytes_eq_iff a s.item_id,
  bytes_eq_iff b s.item_type,
  bytes_eq_iff u user,
  bytes_eq_iff a c,
  bytes_eq_iff b d,
)

star_of-same :
    (u user : Bytes) (i item : Item) (s : Star)
    → (bytes_eq u user && same_item i item) ≡ true
    → star_of u i s ≡ star_of user item s
unfolding same_item
star_of-same u user (a, b) (c, d) s h =
    let eu : u ≡ user = ground (arith, h, bytes_eq_iff u user) in
    let ea : a ≡ c = ground (arith, h, bytes_eq_iff a c) in
    let eb : b ≡ d = ground (arith, h, bytes_eq_iff b d) in rw (eu, ea, eb) refl

pub starred-without :
    (u user : Bytes) (i item : Item) (ss : List Star)
    → starred u i (without_star user item ss)
      ≡ (starred u i ss && not (bytes_eq u user && same_item i item))
unfolding starred without_star
starred-without u user i item [] = refl
starred-without u user i item (s ∷ ss) =
    let rest = starred-without u user i item ss in
    elim (Bool-cases (star_of user item s)) [
      | inl e ↦ rw e (ground (arith, rest, star_of-without u user i item s e))
      | inr e ↦ rw e (ground (arith, rest, e, star_of-same u user i item s))
    ]

pub insert_star-starred :
    (id user : Bytes) (item : Item) (t : Tables)
    → has_star_id id t.stars ≡ false
    → (t' : Tables) × (insert_star id user item t ≡ some t')
      × ((u : Bytes) (i : Item)
          → starred u i t'.stars ≡ (starred u i t.stars || (bytes_eq u user && same_item i item)))
      × ((j : Bytes) → bytes_eq j id ≡ false → has_star_id j t'.stars ≡ has_star_id j t.stars)
unfolding insert_star
insert_star-starred id user item t fresh = elim (Bool-cases (starred user item t.stars)) [
  | inl e ↦ (
    t,
    rw (fresh, e) refl,
    (λ v k. ground (arith, e, starred-same v user k item t.stars)),
    λ j ne. refl,
  )
  | inr e ↦
      let new : Star = record { id = id; user_id = user; item_id = item.0; item_type = item.1 } in
      (
        record t { stars = t.stars ++ (new ∷ []) },
        rw (fresh, e) refl,
        (λ v k.
            starred-added v k t.stars new
            ∙ ap (◌||◌ (starred v k t.stars)) (star_of_lem v user id k item)),
        λ j ne. has_star_id-added j t.stars new ∙ ground (arith, ne),
      )
]
