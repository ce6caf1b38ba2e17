-- ===== src/Base/Endian.antt =====
-- The little-endian numbers of Go's package encoding/binary, and reads at a position of a file.
use preamp.Base.{◌≤◌, length-take, length-drop}
use preamp.Base.Tests.{◌==◌, if◌then◌else◌}
use preamp.Base.Lists.{length, take, drop, slice, All, take-append, drop-append}
use preamp.Base.Text.{Bytes, byte_at}
use Prim.Native.Nat.{ℕ, zero, suc, ◌+◌, ◌-◌, ◌*◌, ◌/◌, ◌%◌, ◌^◌, ◌<◌}
use mathlib.Core.Path.{◌≡◌, ap, subst, ◌∙◌}
use mathlib.Core.List.{[], ◌∷◌, ◌++◌}
use mathlib.Core.Option.{Option, none, some}
use native.Mathlib.Omega.{arith}

-- `binary.LittleEndian.Uint16(xs[i:])`.
unfoldable pub le16 : Bytes → ℕ → ℕ
le16 xs i = byte_at xs i + byte_at xs (i + 1) * 2 ^ 8

-- `binary.LittleEndian.Uint32(xs[i:])`.
unfoldable pub le32 : Bytes → ℕ → ℕ
le32 xs i =
    byte_at xs i
    + byte_at xs (i + 1) * 2 ^ 8
    + byte_at xs (i + 2) * 2 ^ 16
    + byte_at xs (i + 3) * 2 ^ 24

-- The bytes that `binary.LittleEndian.PutUint32` writes.
abbrev pub put_le32 : ℕ → Bytes
put_le32 n = n % 256 ∷ n / 256 % 256 ∷ n / 65536 % 256 ∷ n / 16777216 % 256 ∷ []

-- `io.ReadFull` of n bytes at a position; `none` is an error.
unfoldable pub read_full : Bytes → ℕ → ℕ → Option Bytes
read_full file pos n = let xs = slice file pos (pos + n) in if length xs == n then some xs else none

pub byte_at-append :
    (xs ys : Bytes) (n : ℕ) → n ≡ length xs → (i : ℕ) → byte_at (xs ++ ys) (n + i) ≡ byte_at ys i
byte_at-append [] ys n h i = ap (byte_at ys) (omega arith)
byte_at-append (x ∷ xs) ys zero h i = absurd (omega arith)
byte_at-append (x ∷ xs) ys (suc n) h i =
    ap (byte_at (x ∷ (xs ++ ys))) {x = suc n + i} {y = suc (n + i)} (omega arith)
    ∙ byte_at-append xs ys n (omega arith) i

byte_at_bound : (xs : Bytes) (i : ℕ) → All (λ b. b < 256) xs → byte_at xs i < 256
byte_at_bound [] i h = omega arith
byte_at_bound (x ∷ xs) zero (h, hs) = h
byte_at_bound (x ∷ xs) (suc i) (h, hs) = byte_at_bound xs i hs

pub le32_bound : (xs : Bytes) (i : ℕ) → All (λ b. b < 256) xs → le32 xs i < 2 ^ 32
unfolding le32
le32_bound xs i h = omega (
  arith,
  byte_at_bound xs i h,
  byte_at_bound xs (i + 1) h,
  byte_at_bound xs (i + 2) h,
  byte_at_bound xs (i + 3) h,
)

-- Four bytes that PutUint32 wrote behind four others.
pub le32-put_le32 : (a b c d n : ℕ) → n < 2 ^ 32 → le32 (a ∷ b ∷ c ∷ d ∷ put_le32 n) 4 ≡ n
unfolding le32
le32-put_le32 a b c d n h = omega arith

pub slice-append :
    (xs ys zs : Bytes) (pos n : ℕ)
    → pos ≡ length xs
    → n ≡ length ys
    → slice (xs ++ (ys ++ zs)) pos (pos + n) ≡ ys
slice-append xs ys zs pos n p q =
    let dropped : drop pos (xs ++ (ys ++ zs)) ≡ ys ++ zs =
      ap (λ k. drop k (xs ++ (ys ++ zs))) p ∙ drop-append xs (ys ++ zs) in
    let size : pos + n - pos ≡ length ys = omega arith in
    ap (λ ws. take (pos + n - pos) ws) dropped
    ∙ (ap (λ k. take k (ys ++ zs)) size ∙ take-append ys zs)

pub read_full-append :
    (xs ys zs : Bytes) (pos n : ℕ)
    → pos ≡ length xs
    → n ≡ length ys
    → read_full (xs ++ (ys ++ zs)) pos n ≡ some ys
unfolding read_full
read_full-append xs ys zs pos n p q = rw (slice-append xs ys zs pos n p q) (ground (arith, q))

-- A range that lies inside the file.
pub length-slice :
    (file : Bytes) (pos n : ℕ) → pos + n ≤ length file → length (slice file pos (pos + n)) ≡ n
length-slice file pos n h =
    omega (arith, length-take (pos + n - pos) (drop pos file), length-drop pos file)

pub length-read_full :
    (file ys : Bytes) (pos n : ℕ) → read_full file pos n ≡ some ys → length ys ≡ n
unfolding read_full
length-read_full file ys pos n h = ground arith

pub read_full-le :
    (file ys : Bytes) (pos n : ℕ) → 0 < n → read_full file pos n ≡ some ys → pos + n ≤ length file
unfolding read_full
read_full-le file ys pos n positive h =
    let same : slice file pos (pos + n) ≡ ys = ground arith in
    omega (
      arith,
      ap length same,
      length-read_full file ys pos n h,
      length-take (pos + n - pos) (drop pos file),
      length-drop pos file,
    )

module _ {κ} (P : ℕ → Type κ) where
  All-take : (n : ℕ) (xs : Bytes) → All P xs → All P (take n xs)
  All-take zero xs h = tt
  All-take (suc n) [] h = tt
  All-take (suc n) (x ∷ xs) (h, hs) = (h, All-take n xs hs)

  All-drop : (n : ℕ) (xs : Bytes) → All P xs → All P (drop n xs)
  All-drop zero xs h = h
  All-drop (suc n) [] h = tt
  All-drop (suc n) (x ∷ xs) (h, hs) = All-drop n xs hs

  pub read_full-All :
      (file ys : Bytes) (pos n : ℕ) → All P file → read_full file pos n ≡ some ys → All P ys
  unfolding read_full
  read_full-All file ys pos n h e =
      let same : slice file pos (pos + n) ≡ ys = ground arith in
      subst (All P) same (All-take (pos + n - pos) (drop pos file) (All-drop pos file h))
