-- ===== src/Base/Int.antt =====
-- Go's `int` where it can be negative, and `strconv.Atoi`.
use Prim.Native.Nat.{ℕ, zero, suc, ◌+◌, ◌-◌, ◌*◌}
use mathlib.Core.Bool.{Bool, true, false, ◌&&◌}
use mathlib.Core.List.{[], ◌∷◌}
use mathlib.Core.Option.{Option, none, some}
use preamp.Base.Tests.{◌==◌, ltb, leb, if◌then◌else◌}
use preamp.Base.Text.{Bytes}

-- `negsuc n` is -(n + 1).
pub data ℤ : Type 0 where
  pos : ℕ → ℤ
  negsuc : ℕ → ℤ

abbrev pub neg : ℕ → ℤ
neg zero = pos 0
neg (suc n) = negsuc n

-- The value of a run of decimal digits, behind those read already; `none` for any other byte.
unfoldable pub digits_value : ℕ → Bytes → Option ℕ
digits_value acc [] = some acc
digits_value acc (c ∷ cs) =
    let rest = digits_value (acc * 10 + (c - b'0')) cs in
    if leb b'0' c && leb c b'9' then rest else none

abbrev pub max_int64 : ℕ
max_int64 = 9223372036854775807

-- What `strconv.Atoi` returns, and whether its error is nil. A syntax error gives 0, and a value
-- out of range gives the nearest int64.
unfoldable pub atoi_unsigned : Bool → Bytes → ℤ × Bool
unfolding digits_value
atoi_unsigned minus [] = (pos 0, false)
atoi_unsigned minus (c ∷ cs) = elim (digits_value 0 (c ∷ cs)) [
  | none ↦ (pos 0, false)
  | some n ↦
      if minus
      then (if ltb (max_int64 + 1) n then (negsuc max_int64, false) else (neg n, true))
      else (if ltb max_int64 n then (pos max_int64, false) else (pos n, true))
]

unfoldable pub atoi : Bytes → ℤ × Bool
unfolding atoi_unsigned
atoi [] = (pos 0, false)
atoi (c ∷ cs) =
    if c == b'-'
    then atoi_unsigned true cs
    else if c == b'+'
    then atoi_unsigned false cs
    else atoi_unsigned false (c ∷ cs)
