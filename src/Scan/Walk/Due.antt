-- ===== src/Scan/Walk/Due.antt =====
-- What the walk of internal/scanner/scanner.go makes of the visits, against the rows of `song` and the list of
-- the files.
use preamp.Base.{
  Bool, false, true, not, ◌&&◌, ◌||◌, ◌==◌, List, [], ◌∷◌, map, Option, none, some, if◌then◌else◌,
  ◌≡◌, refl, sym, ap, ◌∙◌, inl, inr, Bool-cases, Option-cases, arith,
}
use preamp.Base.Dict.{lookup}
use preamp.Base.Text.{Bytes, codes, bytes_eq, one_of, bytes_eq_iff}
use preamp.Db.{Song}
use preamp.Scan.Statements.{has_path}
use preamp.Scan.Track.{TrackJob}
use preamp.Scan.Walk.{
  KnownFile, Visit, walk_error, skipped, visited, nothing_walked, supported_exts, known_files,
  unchanged, walk,
}
use preamp.Scan.Walk.Found.{lower_ext, jobs_at, jobs_of, first_art, walk-jobs, walk-art}

-- `path UNIQUE` of the table.
abbrev pub PathsDiffer : List Song → Type 0
PathsDiffer [] = Unit
PathsDiffer (s ∷ ss) = (has_path s.path ss ≡ false) × PathsDiffer ss

-- A row has this path, this time and this size.
unfoldable pub is_known : List Song → Bytes → KnownFile → Bool
is_known [] path info = false
is_known (s ∷ ss) path info =
    (bytes_eq path s.path && (s.file_mtime == info.mtime && s.size == info.size))
    || is_known ss path info

abbrev is_supported : Bytes → Bool
is_supported path = one_of (lower_ext path) (
    codes ".mp3"
    ∷ codes ".flac"
    ∷ codes ".ogg"
    ∷ codes ".m4a"
    ∷ codes ".opus"
    ∷ codes ".wma"
    ∷ codes ".wav"
    ∷ codes ".aac"
    ∷ [])

-- The files that can be statted.
unfoldable pub statted : List Visit → List (Bytes × KnownFile)
statted [] = []
statted (walk_error path ∷ vs) = statted vs
statted (skipped path ∷ vs) = statted vs
statted (visited path none ∷ vs) = statted vs
statted (visited path (some info) ∷ vs) = (path, info) ∷ statted vs

unfoldable pub due : List Song → List (Bytes × KnownFile) → List Bytes
due songs [] = []
due songs ((path, info) ∷ fs) =
    let rest = due songs fs in
    if is_supported path && not (is_known songs path info) then path ∷ rest else rest

abbrev or_empty : Option Bytes → Bytes
or_empty none = []
or_empty (some b) = b

abbrev pub job_of : Bytes → TrackJob
job_of path = record {
  path = path;
  ext = lower_ext path;
  content_type = or_empty (lookup (lower_ext path) supported_exts);
}

is_known-no_path :
    (ss : List Song) (path : Bytes) (info : KnownFile)
    → has_path path ss ≡ false
    → is_known ss path info ≡ false
unfolding is_known has_path
is_known-no_path [] path info h = refl
is_known-no_path (s ∷ ss) path info h = ground (arith, h, is_known-no_path ss path info)

or_false : (b : Bool) → b ≡ (b || false)
or_false true = refl
or_false false = refl

bytes_eq_comm : (a b : Bytes) → bytes_eq a b ≡ bytes_eq b a
bytes_eq_comm a b = elim (Bool-cases (bytes_eq a b)) [
  | inl e ↦ e ∙ sym ((bytes_eq_iff b a).1 (sym ((bytes_eq_iff a b).0 e)))
  | inr e ↦ elim (Bool-cases (bytes_eq b a)) [
    | inl f ↦ (bytes_eq_iff a b).1 (sym ((bytes_eq_iff b a).0 f)) ∙ sym f
    | inr f ↦ e ∙ sym f
  ]
]

unchanged-known_files :
    (ss : List Song) (path : Bytes) (info : KnownFile)
    → PathsDiffer ss
    → unchanged (known_files ss) path info ≡ is_known ss path info
unfolding unchanged known_files is_known lookup
unchanged-known_files [] path info d = refl
unchanged-known_files (s ∷ ss) path info (new, d) = elim (Bool-cases (bytes_eq path s.path)) [
  | inl e ↦
      let back = bytes_eq_comm s.path path ∙ e in
      let none_left : is_known ss path info ≡ false =
        is_known-no_path ss path info
          (ap (λ p. has_path p ss) ((bytes_eq_iff path s.path).0 e) ∙ new) in
      rw (back, e, none_left, unchanged)
        (or_false (s.file_mtime == info.mtime && s.size == info.size))
  | inr e ↦
      let back = bytes_eq_comm s.path path ∙ e in
      rw (back, e, unchanged) (unchanged-known_files ss path info d)
]

has_value : Option Bytes → Bool
has_value none = false
has_value (some b) = true

one_of-lookup :
    (k : Bytes) (m : List (Bytes × Bytes)) → one_of k (map (λ p. p.0) m) ≡ has_value (lookup k m)
unfolding lookup one_of has_value
one_of-lookup k [] = refl
one_of-lookup k ((j, v) ∷ m) = elim (Bool-cases (bytes_eq k j)) [
  | inl e ↦ rw (bytes_eq_comm j k ∙ e, e) refl
  | inr e ↦ rw (bytes_eq_comm j k ∙ e, e) (one_of-lookup k m)
]

supported-lookup :
    (path : Bytes) → is_supported path ≡ has_value (lookup (lower_ext path) supported_exts)
supported-lookup path = one_of-lookup (lower_ext path) supported_exts

jobs_of-due :
    (ss : List Song) (vs : List Visit)
    → PathsDiffer ss
    → jobs_of (known_files ss) vs ≡ map job_of (due ss (statted vs))
unfolding jobs_of jobs_at due statted has_value
jobs_of-due ss [] d = refl
jobs_of-due ss (walk_error path ∷ vs) d = jobs_of-due ss vs d
jobs_of-due ss (skipped path ∷ vs) d = jobs_of-due ss vs d
jobs_of-due ss (visited path none ∷ vs) d = jobs_of-due ss vs d
jobs_of-due ss (visited path (some info) ∷ vs) d =
    let same = unchanged-known_files ss path info d in
    elim (Option-cases (lookup (lower_ext path) supported_exts)) [
      | inl e ↦
          let refused : is_supported path ≡ false = supported-lookup path ∙ ap has_value e in
          rw (jobs_at, e, refused) (jobs_of-due ss vs d)
      | inr (c, e) ↦
          let taken : is_supported path ≡ true = supported-lookup path ∙ ap has_value e in
          elim (Bool-cases (is_known ss path info)) [
            | inl k ↦ rw (jobs_at, e, taken, same, k) (jobs_of-due ss vs d)
            | inr k ↦
                rw (jobs_at, e, taken, same, k)
                  (ap
                      (λ x.
                        record { path = path; ext = lower_ext path; content_type = or_empty x }
                        ∷ jobs_of (known_files ss) vs)
                      (sym e)
                    ∙ ap (λ js. job_of path ∷ js) (jobs_of-due ss vs d))
          ]
    ]

-- For every sequence of visits and rows of `song` whose paths differ: the jobs that the walk sends are, in the
-- order of the visits, one for each file with a supported extension that can be statted and that no row has with
-- the same path, time and size; and the art of a directory is the first file in it whose lower-cased name is one of
-- the art names.
pub walk_lem :
    (songs : List Song) (vs : List Visit) (d : Bytes)
    → PathsDiffer songs
    → ((walk (known_files songs) vs nothing_walked).jobs ≡ map job_of (due songs (statted vs)))
      × (lookup d (walk (known_files songs) vs nothing_walked).folder_art ≡ first_art d vs)
unfolding lookup
walk_lem songs vs d differ = (
  walk-jobs (known_files songs) vs nothing_walked ∙ jobs_of-due songs vs differ,
  walk-art (known_files songs) vs nothing_walked d,
)
