-- ===== src/Scan/Path.antt =====
-- The functions of path/filepath and strings that internal/scanner/scanner.go calls on paths.
use preamp.Base.{
  ℕ, suc, ◌-◌, ◌&&◌, [], ◌∷◌, Option, none, some, ◌==◌, leb, if◌then◌else◌, length, take, drop,
}
use preamp.Base.Text.{Bytes, bytes_eq, codes, is_empty, trim_right}

unfoldable pub last_index : ℕ → Bytes → Option ℕ
last_index c [] = none
last_index c (x ∷ xs) = elim (last_index c xs) [
  | some i ↦ some (suc i)
  | none ↦ if x == c then some 0 else none
]

abbrev last_element : Bytes → Bytes
last_element path = elim (last_index b'/' path) [ none ↦ path | some i ↦ drop (suc i) path ]

-- `filepath.Base`.
unfoldable pub base : Bytes → Bytes
unfolding trim_right last_index
base path =
    if is_empty path
    then codes "."
    else let trimmed = trim_right b'/' path in
      if is_empty trimmed then codes "/" else last_element trimmed

-- `filepath.Dir` of a path that is clean, as those of WalkDir are.
unfoldable pub dir : Bytes → Bytes
unfolding last_index
dir path = elim (last_index b'/' path) [
  | none ↦ codes "."
  | some i ↦ if i == 0 then codes "/" else take i path
]

-- `filepath.Ext`: from the last dot of the last element on.
unfoldable pub extension : Bytes → Bytes
unfolding last_index
extension path =
    let name = last_element path in elim (last_index b'.' name) [ none ↦ [] | some i ↦ drop i name ]

-- `strings.TrimSuffix`.
unfoldable pub trim_suffix : Bytes → Bytes → Bytes
unfolding bytes_eq
trim_suffix s suffix =
    let n = length s - length suffix in
    if leb (length suffix) (length s) && bytes_eq (drop n s) suffix then take n s else s
