-- ===== src/Duration/Search.antt =====
-- The search for the first MPEG frame in internal/scanner/duration.go: which frame it takes, that
-- no division in it is by zero, and that the result fits the size of the file.
use Prim.Native.Nat.{min}
use native.Mathlib.Nat.{mul_comm, mul-le-mul_right, div-mul-le_self}
use native.Mathlib.Decide.{dec_le, dec_lt}
use preamp.Base.{
  ℕ, zero, suc, ◌+◌, ◌-◌, ◌*◌, ◌/◌, ◌%◌, ◌≤◌, ◌<◌, Bool, true, false, ◌&&◌, ◌||◌, ltb, drop, take,
  leb, ◌==◌, if◌then◌else◌, length, ◌≡◌, ◌≢◌, inl, inr, refl, Option, none, some, arith,
  Option-cases, Bool-cases,
}
use preamp.Base.Text.{Bytes, byte_at}
use preamp.Duration.{
  Parsed, parsed, failed, panicked, FrameInfo, frame_info, frame_version, bitrate_index,
  sample_rate_index, frame_at, average_bitrate, has_frame_count, measure_frame, search_frame,
  search_chunk, parse_mp3_duration, max_sync_search_bytes,
}

-- A test that holds at every number below a bound.
every : ℕ → (ℕ → Bool) → Bool
every zero test = true
every (suc bound) test = every bound test && test bound

every-at :
    (bound : ℕ) (test : ℕ → Bool) → every bound test ≡ true → (i : ℕ) → i < bound → test i ≡ true
unfolding every
every-at zero test all i h = elim h [ ]
every-at (suc bound) test all i h = elim (dec_lt i bound) [
  | yes below ↦ every-at bound test (ground arith) i below
  | no top ↦ let at : i ≡ bound = omega arith in rw at (ground arith)
]

has_rates : Bool → ℕ → ℕ → ℕ → Bool
has_rates mono version b s =
    let f = frame_info version b s mono in
    b == 0 || b == 15 || s == 3 || ltb 0 f.bitrate && ltb 0 f.sample_rate

all_rates : (mono : Bool) → every 4 (λ v. every 16 (λ b. every 4 (has_rates mono v b))) ≡ true
unfolding every has_rates frame_info
all_rates true = refl
all_rates false = refl

frame_info_pos :
    (mono : Bool) (v b s : ℕ)
    → v < 4
    → b < 16
    → s < 4
    → b ≢ 0
    → b ≢ 15
    → s ≢ 3
    → (0 < (frame_info v b s mono).bitrate) × (0 < (frame_info v b s mono).sample_rate)
unfolding has_rates
frame_info_pos mono v b s hv hb hs b0 b15 s3 =
    let row = every-at 4 _ (all_rates mono) v hv in
    let cell = every-at 16 _ row b hb in
    let here = every-at 4 (has_rates mono v b) cell s hs in ground arith

-- A header that is accepted has rates that can be divided by.
pub frame_at_pos :
    (b0 b1 b2 b3 : ℕ) (f : FrameInfo)
    → frame_at b0 b1 b2 b3 ≡ some f
    → (0 < f.bitrate) × (0 < f.sample_rate)
unfolding frame_at
frame_at_pos b0 b1 b2 b3 f h = ground (
  arith,
  frame_info_pos (b3 / 64 % 4 == 3) (frame_version b1) (bitrate_index b2) (sample_rate_index b2)
      (omega arith) (omega arith) (omega arith),
)

abbrev pub frame_of : Bytes → ℕ → Option FrameInfo
frame_of chunk i =
    frame_at (byte_at chunk i) (byte_at chunk (i + 1)) (byte_at chunk (i + 2))
      (byte_at chunk (i + 3))

-- The bits that the bitrate and the duration stand for are in the file, and no division panicked.
abbrev pub Within : ℕ → Parsed → Type 0
Within file_size (parsed d br) = d * br * 1000 ≤ file_size * 8
Within file_size failed = Unit
Within file_size panicked = ⊥

gt→==_zero : (n : ℕ) → 0 < n → (n == 0) ≡ false
gt→==_zero n h = ground arith

pub average_bitrate-le : (file_size d : ℕ) → d * average_bitrate file_size d * 1000 ≤ file_size * 8
average_bitrate-le file_size d = elim (Bool-cases (ltb 0 d)) [
  | inl some_time ↦
      let kbits = file_size * 8 / 1000 in
      rw some_time (omega (arith, div-mul-le_self kbits d, mul_comm d (kbits / d)))
  | inr no_time ↦ rw no_time (omega arith)
]

cbr-le : (file_size start br : ℕ) → (file_size - start) * 8 / br / 1000 * br * 1000 ≤ file_size * 8
cbr-le file_size start br =
    let bits = (file_size - start) * 8 in
    let whole : bits / br / 1000 * 1000 * br ≤ bits / br * br = mul-le-mul_right br (omega arith) in
    omega (arith, whole, div-mul-le_self bits br)

measure_frame-Within :
    (file_size audio_offset : ℕ) (chunk : Bytes) (i : ℕ) (f : FrameInfo)
    → 0 < f.bitrate
    → 0 < f.sample_rate
    → Within file_size (measure_frame file_size audio_offset chunk i f)
unfolding measure_frame
measure_frame-Within file_size audio_offset chunk i f hb hs =
    elim (Bool-cases (has_frame_count chunk (i + f.xing_off))) [
      | inl xing ↦ rw (xing, gt→==_zero _ hs) (average_bitrate-le file_size _)
      | inr plain ↦ rw (plain, gt→==_zero _ hb) (cbr-le file_size (audio_offset + i) f.bitrate)
    ]

-- What the search returns: an error if no position of the range holds an accepted header, else
-- what the header at the first such position gives.
pub data Searched (file_size audio_offset : ℕ) (chunk : Bytes) (i rounds : ℕ) (r : Parsed)
    : Type 0 where
  nowhere :
      ((j : ℕ) → i ≤ j → j < i + rounds → frame_of chunk j ≡ none)
      → r ≡ failed
      → Searched file_size audio_offset chunk i rounds r
  first :
      (k : ℕ) (f : FrameInfo)
      → i ≤ k
      → k < i + rounds
      → ((j : ℕ) → i ≤ j → j < k → frame_of chunk j ≡ none)
      → frame_of chunk k ≡ some f
      → r ≡ measure_frame file_size audio_offset chunk k f
      → Searched file_size audio_offset chunk i rounds r

module _ (file_size audio_offset : ℕ) (chunk : Bytes) where
  pass :
      (i rounds : ℕ) {r : Parsed}
      → frame_of chunk i ≡ none
      → Searched file_size audio_offset chunk (i + 1) rounds r
      → Searched file_size audio_offset chunk i (suc rounds) r
  pass i rounds e (nowhere all same) =
      nowhere
        (λ j lo hi. elim (dec_le (i + 1) j) [
          | yes later ↦ all j later (omega arith)
          | no here ↦ let at : j ≡ i = omega arith in rw at e
        ])
        same
  pass i rounds e (first k f lo hi before found same) =
      first k f (omega arith) (omega arith)
        (λ j lo' hi'. elim (dec_le (i + 1) j) [
          | yes later ↦ before j later hi'
          | no here ↦ let at : j ≡ i = omega arith in rw at e
        ])
        found same

  -- The search takes the first position whose four bytes are an accepted header, and fails where
  -- no position of the range has one.
  pub search_frame-Searched :
      (rounds i : ℕ)
      → Searched file_size audio_offset chunk i rounds
          (search_frame file_size audio_offset chunk rounds i)
  unfolding search_frame
  search_frame-Searched zero i = nowhere (λ j lo hi. absurd (omega arith)) refl
  search_frame-Searched (suc rounds) i = elim (Option-cases (frame_of chunk i)) [
    | inl e ↦ pass i rounds e (rw (e, search_frame) (search_frame-Searched rounds (i + 1)))
    | inr (f, e) ↦
        first i f (omega arith) (omega arith) (λ j lo hi. absurd (omega arith)) e
          (rw (e, search_frame) refl)
  ]

  Searched-Within :
      {i rounds : ℕ} {r : Parsed}
      → Searched file_size audio_offset chunk i rounds r
      → Within file_size r
  Searched-Within (nowhere _ same) = rw same tt
  Searched-Within (first k f _ _ _ found same) =
      let (hb, hs) = frame_at_pos _ _ _ _ f found in
      rw same (measure_frame-Within file_size audio_offset chunk k f hb hs)

Within-if :
    (file_size : ℕ) (b : Bool) (r q : Parsed)
    → Within file_size r
    → Within file_size q
    → Within file_size (if b then r else q)
Within-if file_size true r q h k = h
Within-if file_size false r q h k = k

search_chunk-Within :
    (file : Bytes) (file_size audio_offset : ℕ)
    → Within file_size (search_chunk file file_size audio_offset)
unfolding search_chunk
search_chunk-Within file file_size audio_offset =
    let chunk_size = min (max_sync_search_bytes + 256) (file_size - audio_offset) in
    let chunk = take chunk_size (drop audio_offset file) in
    Within-if file_size (leb chunk_size 4) _ _ tt (
      Within-if file_size (ltb (length chunk) 4) _ _ tt (
        Searched-Within file_size audio_offset chunk
          (search_frame-Searched file_size audio_offset chunk (length chunk - 4) 0)))

-- No MP3 file makes the parser divide by zero, and the bits that the bitrate and the duration
-- stand for are never more than the file has.
pub parse_mp3_duration-Within :
    (file : Bytes) (file_size audio_offset : ℕ)
    → Within file_size (parse_mp3_duration file file_size audio_offset)
unfolding parse_mp3_duration
parse_mp3_duration-Within file file_size audio_offset =
    Within-if file_size (leb audio_offset 0) _ _
      (Within-if file_size (ltb (length file) 10) _ _ tt (search_chunk-Within file file_size _))
      (search_chunk-Within file file_size audio_offset)
