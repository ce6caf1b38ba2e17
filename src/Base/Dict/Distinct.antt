-- ===== src/Base/Dict/Distinct.antt =====
-- Maps that have each key once, as every Go map does.
use preamp.Base.Dict.{lookup, insert, delete, purge, lookup-insert, lookup-delete}
use preamp.Base.Tests.{if◌then◌else◌, Bool-cases}
use preamp.Base.Text.{Bytes, bytes_eq, bytes_eq_iff}
use mathlib.Core.Path.{◌≡◌, refl, sym, ap, ◌∙◌}
use mathlib.Core.Bool.{Bool, true}
use mathlib.Core.List.{List, [], ◌∷◌}
use mathlib.Core.Option.{Option, none, some}
use mathlib.Core.Logic.{inl, inr}
use native.Mathlib.Omega.{arith}

module _ {ℓ} {V : Type ℓ} where
  abbrev pub Distinct : List (Bytes × V) → Type ℓ
  Distinct [] = Unit
  Distinct ((k, v) ∷ m) = (lookup k m ≡ none) × Distinct m

  -- What a purge leaves of a value.
  unfoldable pub unless : (V → Bool) → Option V → Option V
  unless gone none = none
  unless gone (some v) = if gone v then none else some v

module _ {ℓ} {V : Type ℓ} where
  pub insert-Distinct :
      (k : Bytes) (v : V) (m : List (Bytes × V)) → Distinct m → Distinct (insert k v m)
  unfolding insert lookup
  insert-Distinct k v [] d = (refl, tt)
  insert-Distinct k v ((j, r) ∷ m) (n, d) = elim (Bool-cases (bytes_eq j k)) [
    | inl e ↦ rw e (ground (arith, n, e, bytes_eq_iff j k), d)
    | inr e ↦ rw e (
      ground (arith, n, e, lookup-insert k j v m, bytes_eq_iff j k, bytes_eq_iff k j),
      insert-Distinct k v m d,
    )
  ]

  pub delete-Distinct : (k : Bytes) (m : List (Bytes × V)) → Distinct m → Distinct (delete k m)
  unfolding delete
  delete-Distinct k [] d = tt
  delete-Distinct k ((j, r) ∷ m) (n, d) = elim (Bool-cases (bytes_eq j k)) [
    | inl e ↦ rw e (delete-Distinct k m d)
    | inr e ↦ rw e (ground (arith, n, lookup-delete k j m), delete-Distinct k m d)
  ]

  pub lookup-purge :
      (k : Bytes) (gone : V → Bool) (m : List (Bytes × V))
      → Distinct m
      → lookup k (purge gone m) ≡ unless gone (lookup k m)
  unfolding lookup purge unless
  lookup-purge k gone [] d = refl
  lookup-purge k gone ((j, r) ∷ m) (n, d) =
      let rest = lookup-purge k gone m d in
      let absent : bytes_eq j k ≡ true → lookup k m ≡ none =
        λ e. ap (λ x. lookup x m) (sym ((bytes_eq_iff j k).0 e)) ∙ n in
      elim (Bool-cases (gone r)) [
        | inl e ↦ elim (Bool-cases (bytes_eq j k)) [
          | inl f ↦
              let none_left : lookup k (purge gone m) ≡ none = rest ∙ ap (unless gone) (absent f) in
              rw (e, f) (ground (arith, e, none_left))
          | inr f ↦ rw (e, f) rest
        ]
        | inr e ↦ elim (Bool-cases (bytes_eq j k)) [
          | inl f ↦ rw (e, f) (ground (arith, e))
          | inr f ↦ rw (e, f) rest
        ]
      ]

  pub purge-Distinct :
      (gone : V → Bool) (m : List (Bytes × V)) → Distinct m → Distinct (purge gone m)
  unfolding purge unless
  purge-Distinct gone [] d = tt
  purge-Distinct gone ((j, r) ∷ m) (n, d) = elim (Bool-cases (gone r)) [
    | inl e ↦ rw e (purge-Distinct gone m d)
    | inr e ↦ rw e (lookup-purge j gone m d ∙ ap (unless gone) n, purge-Distinct gone m d)
  ]
