-- ===== src/Base/Scan.antt =====
-- A `for` loop that moves a position through a buffer: each round stops, or goes on from a later
-- position. `none` means that the fuel ran out.
use Prim.Native.Nat.{ℕ, zero, suc, ◌+◌, ◌<◌}
use mathlib.Core.Path.{◌≡◌, refl, subst}
use mathlib.Core.Option.{Option, none, some}
use mathlib.Core.Logic.{◌⊎◌, inl, inr}
use native.Mathlib.Omega.{arith}

pub data Round {ℓ} (A : Type ℓ) : Type ℓ where
  halt : A → Round A
  more : ℕ → A → Round A

unfoldable pub scan {ℓ} : {A : Type ℓ} → (ℕ → A → Round A) → ℕ → ℕ → A → Option A
scan round zero p acc = none
scan round (suc fuel) p acc = elim (round p acc) [
  | halt r ↦ some r
  | more q acc' ↦ scan round fuel q acc'
]

-- Each round that goes on starts before `size` and reaches a later position.
abbrev pub Advances {ℓ} : {A : Type ℓ} → (ℕ → A → Round A) → ℕ → Type ℓ
Advances {A = A} round size =
    (p q : ℕ) (acc acc' : A) → round p acc ≡ more q acc' → (p < q) × (p < size)

Round-cases {ℓ} :
    {A : Type ℓ} (r : Round A) → ((a : A) × (r ≡ halt a)) ⊎ ((q : ℕ) × (a : A) × (r ≡ more q a))
Round-cases (halt a) = inl (a, refl)
Round-cases (more q a) = inr (q, a, refl)

module _ {ℓ} {A : Type ℓ} (round : ℕ → A → Round A) (size : ℕ) (adv : Advances round size) where
  pub scan_total :
      (fuel p : ℕ) (acc : A)
      → size < fuel + p
      → 0 < fuel
      → (r : A) × (scan round fuel p acc ≡ some r)
  unfolding scan
  scan_total zero p acc h pos = elim pos [ ]
  scan_total (suc fuel) p acc h pos = elim (Round-cases (round p acc)) [
    | inl (a, e) ↦ (a, rw (e, scan))
    | inr (q, a, e) ↦
        rw (e, scan)
          (scan_total fuel q a (omega (arith, adv p q acc a e)) (omega (arith, adv p q acc a e)))
  ]

module _ {ℓ κ} {A : Type ℓ} (P : A → Type κ) (round : ℕ → A → Round A) where
  -- A predicate that each round keeps holds of the result.
  pub scan_inv :
      ((p : ℕ) (acc r : A) → P acc → round p acc ≡ halt r → P r)
      → ((p q : ℕ) (acc acc' : A) → P acc → round p acc ≡ more q acc' → P acc')
      → (fuel p : ℕ) (acc r : A) → P acc
      → scan round fuel p acc ≡ some r
      → P r
  unfolding scan
  scan_inv stops goes zero p acc r h e = cc
  scan_inv stops goes (suc fuel) p acc r h e = elim (Round-cases (round p acc)) [
    | inl (a, s) ↦
        let found = rw (s, scan) at e in
        let same : a ≡ r = cc found in subst P same (stops p acc a h s)
    | inr (q, a, s) ↦ scan_inv stops goes fuel q a r (goes p q acc a h s) (rw (s, scan) at e)
  ]

module _ {ℓ} {A : Type ℓ} (round : ℕ → A → Round A) where
  pub scan-more :
      (fuel p q : ℕ) (acc acc' : A)
      → round p acc ≡ more q acc'
      → scan round (suc fuel) p acc ≡ scan round fuel q acc'
  unfolding scan
  scan-more fuel p q acc acc' h = rw (h, scan) refl

  pub scan-halt :
      (fuel p : ℕ) (acc r : A) → 0 < fuel → round p acc ≡ halt r → scan round fuel p acc ≡ some r
  unfolding scan
  scan-halt zero p acc r pos h = elim pos [ ]
  scan-halt (suc fuel) p acc r pos h = rw (h, scan) refl
