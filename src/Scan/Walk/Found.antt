-- ===== src/Scan/Walk/Found.antt =====
-- What the walk of internal/scanner/scanner.go makes of the visits, visit by visit.
use preamp.Base.{
  Bool, false, ◌&&◌, List, [], ◌∷◌, ◌++◌, map, Option, none, some, if◌then◌else◌, ◌≡◌, refl, sym,
  ap, ◌∙◌, inl, inr, Bool-cases, Option-cases, append_assoc, append-nil,
}
use preamp.Base.Dict.{lookup, lookup-insert}
use preamp.Base.Text.{Bytes, bytes_eq, one_of, bytes_eq_iff}
use preamp.Auth.ApiKey.{to_lower}
use preamp.Scan.Path.{base, dir, extension}
use preamp.Scan.Track.{TrackJob}
use preamp.Scan.Walk.{
  KnownFile, Visit, walk_error, skipped, visited, Walked, supported_exts, folder_art_names,
  unchanged, visit_track, visit_other, visit, walk,
}

abbrev pub lower_ext : Bytes → Bytes
lower_ext path = map to_lower (extension path)

unfoldable pub jobs_at : List (Bytes × KnownFile) → Visit → List TrackJob
jobs_at known (walk_error path) = []
jobs_at known (skipped path) = []
jobs_at known (visited path none) = []
jobs_at known (visited path (some info)) = elim (lookup (lower_ext path) supported_exts) [
  | none ↦ []
  | some content_type ↦
      if unchanged known path info
      then []
      else record { path = path; ext = lower_ext path; content_type = content_type } ∷ []
]

unfoldable pub jobs_of : List (Bytes × KnownFile) → List Visit → List TrackJob
jobs_of known [] = []
jobs_of known (v ∷ vs) = jobs_at known v ++ jobs_of known vs

-- Whether the visit is of an art file in the directory `d`.
unfoldable pub is_art : Bytes → Visit → Bool
is_art d (walk_error path) = false
is_art d (skipped path) = false
is_art d (visited path info) = elim (lookup (lower_ext path) supported_exts) [
  | none ↦ one_of (map to_lower (base path)) folder_art_names && bytes_eq (dir path) d
  | some content_type ↦ false
]

abbrev visit_path : Visit → Bytes
visit_path (walk_error path) = path
visit_path (skipped path) = path
visit_path (visited path info) = path

unfoldable pub first_art : Bytes → List Visit → Option Bytes
first_art d [] = none
first_art d (v ∷ vs) = let rest = first_art d vs in if is_art d v then some (visit_path v) else rest

visit_other-jobs : (path : Bytes) (w : Walked) → (visit_other path w).jobs ≡ w.jobs
unfolding visit_other
visit_other-jobs path w = elim (Bool-cases (one_of (map to_lower (base path)) folder_art_names)) [
  | inr e ↦ rw e refl
  | inl e ↦ elim (Option-cases (lookup (dir path) w.folder_art)) [
    | inl k ↦ rw (e, k) refl
    | inr (a, k) ↦ rw (e, k) refl
  ]
]

visit-jobs :
    (known : List (Bytes × KnownFile)) (v : Visit) (w : Walked)
    → (visit known v w).jobs ≡ w.jobs ++ jobs_at known v
unfolding visit visit_track jobs_at
visit-jobs known (walk_error path) w = sym (append-nil w.jobs)
visit-jobs known (skipped path) w = sym (append-nil w.jobs)
visit-jobs known (visited path none) w =
    elim (Option-cases (lookup (lower_ext path) supported_exts)) [
      | inl e ↦ rw (e, visit) (visit_other-jobs path w ∙ sym (append-nil w.jobs))
      | inr (c, e) ↦ rw (e, visit) (sym (append-nil w.jobs))
    ]
visit-jobs known (visited path (some info)) w =
    elim (Option-cases (lookup (lower_ext path) supported_exts)) [
      | inl e ↦ rw (e, visit, jobs_at) (visit_other-jobs path w ∙ sym (append-nil w.jobs))
      | inr (c, e) ↦ elim (Bool-cases (unchanged known path info)) [
        | inl k ↦ rw (e, k, visit, jobs_at) (sym (append-nil w.jobs))
        | inr k ↦ rw (e, k, visit, jobs_at) refl
      ]
    ]

pub walk-jobs :
    (known : List (Bytes × KnownFile)) (vs : List Visit) (w : Walked)
    → (walk known vs w).jobs ≡ w.jobs ++ jobs_of known vs
unfolding walk jobs_of
walk-jobs known [] w = sym (append-nil w.jobs)
walk-jobs known (v ∷ vs) w =
    walk-jobs known vs (visit known v w)
    ∙ (ap (λ l. l ++ jobs_of known vs) (visit-jobs known v w)
        ∙ append_assoc w.jobs (jobs_at known v) (jobs_of known vs))

-- The first of two.
abbrev pub or_else : Option Bytes → Option Bytes → Option Bytes
or_else none b = b
or_else (some a) b = some a

track-art :
    (known : List (Bytes × KnownFile)) (job : TrackJob) (info : Option KnownFile) (w : Walked)
    (d : Bytes) (rest : Option Bytes)
    → or_else (lookup d (visit_track known job info w).folder_art) rest
      ≡ or_else (lookup d w.folder_art) rest
unfolding visit_track
track-art known job none w d rest = refl
track-art known job (some info) w d rest = refl

other-art :
    (path : Bytes) (w : Walked) (d : Bytes) (rest : Option Bytes)
    → or_else (lookup d (visit_other path w).folder_art) rest
      ≡ or_else (lookup d w.folder_art) (
          if one_of (map to_lower (base path)) folder_art_names && bytes_eq (dir path) d
          then some path
          else rest)
unfolding visit_other
other-art path w d rest = elim (Bool-cases (one_of (map to_lower (base path)) folder_art_names)) [
  | inr e ↦ rw e refl
  | inl e ↦ elim (Bool-cases (bytes_eq (dir path) d)) [
    | inl same ↦
        let it : dir path ≡ d = (bytes_eq_iff (dir path) d).0 same in
        elim (Option-cases (lookup (dir path) w.folder_art)) [
          | inl k ↦
              let nothing : lookup d w.folder_art ≡ none =
                sym (ap (λ x. lookup x w.folder_art) it) ∙ k in
              rw (e, k, lookup-insert (dir path) d path w.folder_art, same, nothing) refl
          | inr (a, k) ↦
              let this : lookup d w.folder_art ≡ some a =
                sym (ap (λ x. lookup x w.folder_art) it) ∙ k in
              rw (e, same, k, this) refl
        ]
    | inr differs ↦ elim (Option-cases (lookup (dir path) w.folder_art)) [
      | inl k ↦ rw (e, k, lookup-insert (dir path) d path w.folder_art, differs) refl
      | inr (a, k) ↦ rw (e, differs, k) refl
    ]
  ]
]

visit-art :
    (known : List (Bytes × KnownFile)) (v : Visit) (w : Walked) (d : Bytes) (rest : Option Bytes)
    → or_else (lookup d (visit known v w).folder_art) rest
      ≡ or_else (lookup d w.folder_art) (if is_art d v then some (visit_path v) else rest)
unfolding visit is_art
visit-art known (walk_error path) w d rest = refl
visit-art known (skipped path) w d rest = refl
visit-art known (visited path info) w d rest =
    elim (Option-cases (lookup (lower_ext path) supported_exts)) [
      | inr (c, e) ↦ rw (e, visit, is_art) (track-art known _ info w d rest)
      | inl e ↦ rw (e, visit, is_art) (other-art path w d rest)
    ]

pub walk-art :
    (known : List (Bytes × KnownFile)) (vs : List Visit) (w : Walked) (d : Bytes)
    → lookup d (walk known vs w).folder_art ≡ or_else (lookup d w.folder_art) (first_art d vs)
unfolding walk first_art
walk-art known [] w d = elim (Option-cases (lookup d w.folder_art)) [
  | inl e ↦ rw e refl
  | inr (a, e) ↦ rw e refl
]
walk-art known (v ∷ vs) w d =
    walk-art known vs (visit known v w) d ∙ visit-art known v w d (first_art d vs)
