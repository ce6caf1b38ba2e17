-- ===== src/Base/Bits.antt =====
-- Numbers read from bytes: shifts joined by `|`, the big- and little-endian reads of Go's package
-- encoding/binary, and single bits under a mask.
use preamp.Base.{sym}
use Prim.Native.Nat.{
  ℕ, zero, suc, ◌+◌, ◌*◌, ◌/◌, ◌%◌, ◌^◌, ◌≤◌, ◌<◌, max, bit_or, digits, bit_or-bitwise,
}
use mathlib.Core.Path.{◌≡◌, refl, ap, ◌∙◌}
use native.Mathlib.Nat.{pow-suc}
use native.Mathlib.Omega.{arith}
use preamp.Base.Text.{Bytes, byte_at}

-- `bit_or` stands for a recursion on binary digits, with a fuel that the first number bounds. How
-- much more there is of it does not matter.
fuel_irrelevant :
    (a b n m : ℕ)
    → a ≤ n
    → a ≤ m
    → digits (λ rest. rest) max n a b ≡ digits (λ rest. rest) max m a b
fuel_irrelevant zero b zero zero _ _ = refl
fuel_irrelevant zero b zero (suc m) _ _ = refl
fuel_irrelevant zero b (suc n) zero _ _ = refl
fuel_irrelevant zero b (suc n) (suc m) _ _ = refl
fuel_irrelevant (suc a) b zero m h _ = absurd (omega arith)
fuel_irrelevant (suc a) b (suc n) zero _ k = absurd (omega arith)
fuel_irrelevant (suc a) b (suc n) (suc m) h k =
    let half : suc a / 2 ≤ a = omega arith in
    ap (λ d. d * 2 + max (suc a % 2) (b % 2))
      (fuel_irrelevant (suc a / 2) (b / 2) n m (omega arith) (omega arith))

bit_or-zero_left : (b : ℕ) → bit_or 0 b ≡ b
bit_or-zero_left b = bit_or-bitwise 0 b

-- One binary digit of both numbers.
bit_or-digit : (a b : ℕ) → bit_or a b ≡ bit_or (a / 2) (b / 2) * 2 + max (a % 2) (b % 2)
bit_or-digit zero b = omega (arith, bit_or-zero_left (b / 2), bit_or-zero_left b)
bit_or-digit (suc a) b =
    let half = suc a / 2 in
    bit_or-bitwise (suc a) b
    ∙ ap (λ d. d * 2 + max (suc a % 2) (b % 2))
        (fuel_irrelevant half (b / 2) a half (omega arith) (omega arith)
          ∙ sym (bit_or-bitwise half (b / 2)))

bit_or-zero_right : (bound a : ℕ) → a < bound → bit_or a 0 ≡ a
bit_or-zero_right zero a h = elim h [ ]
bit_or-zero_right (suc bound) zero h = bit_or-zero_left 0
bit_or-zero_right (suc bound) (suc a) h =
    omega (arith, bit_or-digit (suc a) 0, bit_or-zero_right bound (suc a / 2) (omega arith))

-- A field joined below one that was shifted to make room is added to it.
pub bit_or_shifted : (k a b : ℕ) → b < 2 ^ k → bit_or (a * 2 ^ k) b ≡ a * 2 ^ k + b
bit_or_shifted zero a b h =
    let e : b ≡ 0 = omega arith in
    omega (arith, ap (bit_or (a * 1)) e, bit_or-zero_right (a * 1 + 1) (a * 1) (omega arith))
bit_or_shifted (suc k) a b h =
    let double : a * 2 ^ suc k ≡ a * 2 ^ k * 2 = ap (λ t. a * t) (pow-suc 2 k) ∙ omega arith in
    let room : b / 2 < 2 ^ k = omega (arith, pow-suc 2 k) in
    let halves : a * 2 ^ suc k / 2 ≡ a * 2 ^ k = omega arith in
    omega (
      arith,
      bit_or-digit (a * 2 ^ suc k) b,
      ap (λ n. bit_or n (b / 2)) halves,
      bit_or_shifted k a (b / 2) room,
    )

-- `int64(a)<<21 | int64(b)<<14 | int64(c)<<7 | int64(d)`.
unfoldable pub syncsafe : ℕ → ℕ → ℕ → ℕ → ℕ
syncsafe a b c d = bit_or (bit_or (bit_or (a * 2 ^ 21) (b * 2 ^ 14)) (c * 2 ^ 7)) d

-- `int64(a)<<16 | int64(b)<<8 | int64(c)`.
unfoldable pub be24 : ℕ → ℕ → ℕ → ℕ
be24 a b c = bit_or (bit_or (a * 2 ^ 16) (b * 2 ^ 8)) c

-- `binary.BigEndian.Uint32(xs[i:])`.
unfoldable pub be32 : Bytes → ℕ → ℕ
be32 xs i =
    byte_at xs i * 2 ^ 24
    + byte_at xs (i + 1) * 2 ^ 16
    + byte_at xs (i + 2) * 2 ^ 8
    + byte_at xs (i + 3)

pub syncsafe_lem :
    (a b c d : ℕ)
    → b < 128
    → c < 128
    → d < 128
    → syncsafe a b c d ≡ a * 2 ^ 21 + b * 2 ^ 14 + c * 2 ^ 7 + d
unfolding syncsafe
syncsafe_lem a b c d hb hc hd =
    let ab : bit_or (a * 2 ^ 21) (b * 2 ^ 14) ≡ (a * 128 + b) * 2 ^ 14 =
      bit_or_shifted 21 a (b * 2 ^ 14) (omega arith) ∙ omega arith in
    let abc : bit_or ((a * 128 + b) * 2 ^ 14) (c * 2 ^ 7) ≡ ((a * 128 + b) * 128 + c) * 2 ^ 7 =
      bit_or_shifted 14 (a * 128 + b) (c * 2 ^ 7) (omega arith) ∙ omega arith in
    rw (ab, abc) (bit_or_shifted 7 ((a * 128 + b) * 128 + c) d (omega arith) ∙ omega arith)

pub be24_lem : (a b c : ℕ) → b < 256 → c < 256 → be24 a b c ≡ a * 2 ^ 16 + b * 2 ^ 8 + c
unfolding be24
be24_lem a b c hb hc =
    let ab : bit_or (a * 2 ^ 16) (b * 2 ^ 8) ≡ (a * 256 + b) * 2 ^ 8 =
      bit_or_shifted 16 a (b * 2 ^ 8) (omega arith) ∙ omega arith in
    rw ab (bit_or_shifted 8 (a * 256 + b) c (omega arith) ∙ omega arith)
