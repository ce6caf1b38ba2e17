-- ===== src/Slice/Flac/Blocks.antt =====
-- The loop of sliceFLAC ends, and leaves a STREAMINFO block of 34 bytes.
use mathlib.Core.Path.{subst}
use preamp.Base.{
  ℕ, suc, ◌+◌, ◌/◌, ◌%◌, ◌==◌, ◌≤◌, ◌<◌, Option, none, some, length, ◌≡◌, arith, refl, Option-cases,
  Bool-cases, inl, inr,
}
use preamp.Base.Bits.{be24}
use preamp.Base.Endian.{read_full, length-read_full, read_full-le}
use preamp.Base.Scan.{Round, halt, more, Advances, scan_total, scan_inv}
use preamp.Base.Text.{Bytes, byte_at}
use preamp.Slice.Flac.{
  FlacBlocks, no_blocks, flac_block, flac_round, flac_blocks, is_flac, read_points,
}

abbrev pub IsInfo : Option Bytes → Type 0
IsInfo none = Unit
IsInfo (some si) = length si ≡ 34

abbrev pub IsBlocks : Option FlacBlocks → Type 0
IsBlocks none = Unit
IsBlocks (some s) = IsInfo s.stream_info

-- The position of the file does not move backwards, and a STREAMINFO block has its size.
abbrev Moves : ℕ → FlacBlocks → Option (ℕ × FlacBlocks) → Type 0
Moves at s none = Unit
Moves at s (some (next, t)) = (at ≤ next) × (IsBlocks (some s) → IsBlocks (some t))

flac_block-Moves :
    (file : Bytes) (at type len : ℕ) (s : FlacBlocks) → Moves at s (flac_block file at type len s)
unfolding flac_block
flac_block-Moves file at type len s = elim (Bool-cases (type == 0)) [
  | inl t ↦ elim (Bool-cases (len == 34)) [
    | inl l ↦ elim (Option-cases (read_full file at 34)) [
      | inl r ↦ rw (t, l, r) tt
      | inr (si, r) ↦ rw (t, l, r) (omega arith, λ h. length-read_full file si at 34 r)
    ]
    | inr l ↦ rw (t, l) tt
  ]
  | inr t ↦ elim (Bool-cases (type == 3)) [
    | inl u ↦ elim (Option-cases (read_points file at (len / 18))) [
      | inl r ↦ rw (t, u, r) tt
      | inr (ps, r) ↦ rw (t, u, r) (omega arith, λ h. h)
    ]
    | inr u ↦ rw (t, u) (omega arith, λ h. h)
  ]
]

module _ (file : Bytes) where
  abbrev Ends : ℕ → Option FlacBlocks → Round (Option FlacBlocks) → Type 0
  Ends at s (halt r) = IsBlocks s → IsBlocks r
  Ends at s (more next r) = (at < next) × (at < length file) × (IsBlocks s → IsBlocks r)

  flac_round-Ends : (at : ℕ) (s : Option FlacBlocks) → Ends at s (flac_round file at s)
  unfolding flac_round
  flac_round-Ends at none = λ h. h
  flac_round-Ends at (some s) = elim (Option-cases (read_full file at 4)) [
    | inl r ↦ rw (r, Ends) (λ h. tt)
    | inr (bh, r) ↦
        let type = byte_at bh 0 % 128 in
        let len = be24 (byte_at bh 1) (byte_at bh 2) (byte_at bh 3) in
        let moves = flac_block-Moves file (at + 4) type len s in
        let inside = read_full-le file bh at 4 (omega arith) r in
        elim (Option-cases (flac_block file (at + 4) type len s)) [
          | inl k ↦ rw (r, k, Ends) (λ h. tt)
          | inr ((next, t), k) ↦
              let (later, keeps) = subst (Moves (at + 4) s) k moves in
              elim (Bool-cases (byte_at bh 0 / 128 % 2 == 1)) [
                | inl last ↦ rw (r, k, last, Ends) keeps
                | inr last ↦ rw (r, k, last, Ends) (omega arith, omega arith, keeps)
              ]
        ]
  ]

  -- The loop of sliceFLAC ends on every file.
  pub flac_blocks_total : (found : Option FlacBlocks) × (flac_blocks file ≡ some found)
  unfolding flac_blocks
  flac_blocks_total =
      let advances : Advances (flac_round file) (length file) =
        λ p q c d e. let ends = subst (Ends p c) e (flac_round-Ends p c) in (ends.0, ends.1) in
      let (r, e) =
        scan_total (flac_round file) (length file) advances (suc (length file)) 4 (some no_blocks)
          (omega arith) (omega arith) in
      elim (Bool-cases (is_flac file)) [ inl h ↦ rw h (r, e) | inr h ↦ rw h (none, refl) ]

  pub flac_blocks-IsBlocks :
      (found : Option FlacBlocks) → flac_blocks file ≡ some found → IsBlocks found
  unfolding flac_blocks
  flac_blocks-IsBlocks found e = elim (Bool-cases (is_flac file)) [
    | inl h ↦
        scan_inv IsBlocks (flac_round file)
          (λ p c r w k. subst (Ends p c) k (flac_round-Ends p c) w)
          (λ p q c d w k. let ends = subst (Ends p c) k (flac_round-Ends p c) in ends.2 w)
          (suc (length file)) 4 (some no_blocks) found tt (rw h at e)
    | inr h ↦
        let same : some none ≡ some found = rw h at e in
        let nothing : none ≡ found = cc in subst IsBlocks nothing tt
  ]
