-- ===== src/Slice/SeekPoints/Range.antt =====
-- The seek points of internal/api/slice.go where they ascend, as the FLAC format demands.
use preamp.Base.{
  ℕ, ◌≤◌, ◌<◌, false, List, [], ◌∷◌, All, ltb, leb, ◌==◌, not, ◌&&◌, ◌⊎◌, if◌then◌else◌, ◌≡◌, refl,
  arith, inl, inr, Bool-cases, sym,
}
use preamp.Scan.Integrity.{All-map}
use preamp.Slice.SeekPoints.{
  FlacSeekPoint, placeholder, floor_from, seek_point_floor, seek_point_ceil,
}

-- A placeholder has no offset.
abbrev AtMost : ℕ → FlacSeekPoint → Type 0
AtMost n q = (q.sample_number ≡ placeholder) ⊎ (n ≤ q.byte_offset)

abbrev IsBehind : FlacSeekPoint → FlacSeekPoint → Type 0
IsBehind p q = (p.sample_number ≤ q.sample_number) × AtMost p.byte_offset q

abbrev pub IsAscending : List FlacSeekPoint → Type 0
IsAscending [] = Unit
IsAscending (p ∷ ps) = All (IsBehind p) ps × IsAscending ps

-- The offsets lie in the audio data.
abbrev pub IsInside : ℕ → FlacSeekPoint → Type 0
IsInside size q = (q.sample_number ≡ placeholder) ⊎ (q.byte_offset ≤ size)

ceil-le :
    (n : ℕ) (ps : List FlacSeekPoint) (b size : ℕ)
    → n ≤ size
    → All (AtMost n) ps
    → n ≤ seek_point_ceil ps b size
unfolding seek_point_ceil
ceil-le n [] b size h k = h
ceil-le n (p ∷ ps) b size h (k, ks) = elim (Bool-cases (p.sample_number == placeholder)) [
  | inl e ↦ rw (e, seek_point_ceil) (ceil-le n ps b size h ks)
  | inr e ↦ elim (Bool-cases (ltb b p.sample_number)) [
    | inl l ↦ rw (e, l, seek_point_ceil) (ground (arith, k, e))
    | inr l ↦ rw (e, l, seek_point_ceil) (ceil-le n ps b size h ks)
  ]
]

floor-le-ceil :
    (best : ℕ) (ps : List FlacSeekPoint) (a b size : ℕ)
    → a ≤ b
    → best ≤ size
    → All (AtMost best) ps
    → IsAscending ps
    → All (IsInside size) ps
    → floor_from best ps a ≤ seek_point_ceil ps b size
unfolding floor_from seek_point_ceil
floor-le-ceil best [] a b size ab h k s i = h
floor-le-ceil best (p ∷ ps) a b size ab h (k, ks) (s, ss) (i, is) =
    elim (Bool-cases (p.sample_number == placeholder)) [
      | inl e ↦ rw (e, floor_from, seek_point_ceil) (floor-le-ceil best ps a b size ab h ks ss is)
      | inr e ↦ elim (Bool-cases (leb p.sample_number a)) [
        | inl l ↦
            let above : ltb b p.sample_number ≡ false = ground (arith, l, ab) in
            let inside : p.byte_offset ≤ size = ground (arith, i, e) in
            rw (e, l, above, floor_from, seek_point_ceil)
              (floor-le-ceil p.byte_offset ps a b size ab inside
                (All-map (IsBehind p) (AtMost p.byte_offset) ps (λ q x. x.1) s) ss is)
        | inr l ↦ rw (e, l, floor_from) (ceil-le best (p ∷ ps) b size h (k, ks))
      ]
    ]

-- Where the seek points ascend and lie in the audio data, the bytes from the floor of a sample to the ceiling of
-- a later one are a range of the data: its start is not behind its end.
pub seek_point_floor-le :
    (ps : List FlacSeekPoint) (a b size : ℕ)
    → a ≤ b
    → IsAscending ps
    → All (IsInside size) ps
    → seek_point_floor ps a ≤ seek_point_ceil ps b size
unfolding seek_point_floor
seek_point_floor-le ps a b size ab s i =
    floor-le-ceil 0 ps a b size ab (omega arith) (at_most_zero ps) s i
  where
    at_most_zero : (qs : List FlacSeekPoint) → All (AtMost 0) qs
    at_most_zero [] = tt
    at_most_zero (q ∷ qs) = (inr (omega arith), at_most_zero qs)

-- The offset of the last point of all that are not placeholders and not behind the sample, with no early end.
unfoldable pub last_offset : ℕ → List FlacSeekPoint → ℕ → ℕ
last_offset best [] target = best
last_offset best (p ∷ ps) target =
    last_offset
      (if not (p.sample_number == placeholder) && leb p.sample_number target
        then p.byte_offset
        else best)
      ps target

none_behind :
    (best : ℕ) (ps : List FlacSeekPoint) (target : ℕ)
    → All (λ (q : FlacSeekPoint). target < q.sample_number) ps
    → last_offset best ps target ≡ best
unfolding last_offset
none_behind best [] target h = refl
none_behind best (p ∷ ps) target (h, hs) =
    let out : leb p.sample_number target ≡ false = ground (arith, h) in
    elim (Bool-cases (p.sample_number == placeholder)) [
      | inl e ↦ rw (e, last_offset) (none_behind best ps target hs)
      | inr e ↦ rw (e, out, last_offset) (none_behind best ps target hs)
    ]

floor_from-eq :
    (best : ℕ) (ps : List FlacSeekPoint) (target : ℕ)
    → IsAscending ps
    → floor_from best ps target ≡ last_offset best ps target
unfolding floor_from last_offset
floor_from-eq best [] target s = refl
floor_from-eq best (p ∷ ps) target (s, ss) = elim (Bool-cases (p.sample_number == placeholder)) [
  | inl e ↦ rw (e, floor_from, last_offset) (floor_from-eq best ps target ss)
  | inr e ↦ elim (Bool-cases (leb p.sample_number target)) [
    | inl l ↦ rw (e, l, floor_from, last_offset) (floor_from-eq p.byte_offset ps target ss)
    | inr l ↦
        rw (e, l, floor_from, last_offset)
          (sym (
            none_behind best ps target (
              All-map (IsBehind p) (λ (q : FlacSeekPoint). target < q.sample_number) ps
                (λ q x. ground (arith, x.0, l)) s)))
  ]
]

-- On seek points that ascend, the loop that ends early gives what a pass over all of them gives.
pub seek_point_floor-eq-last_offset :
    (ps : List FlacSeekPoint) (target : ℕ)
    → IsAscending ps
    → seek_point_floor ps target ≡ last_offset 0 ps target
unfolding seek_point_floor
seek_point_floor-eq-last_offset ps target = floor_from-eq 0 ps target
