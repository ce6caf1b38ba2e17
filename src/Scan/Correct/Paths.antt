-- ===== src/Scan/Correct/Paths.antt =====
-- The paths that the parts of internal/scanner/scanner.go hand to each other.
use preamp.Scan.Path.{base, extension, dir}
use preamp.Base.Dict.{lookup, bytes_eq_refl}
use preamp.Auth.ApiKey.{to_lower}
use preamp.Base.{
  List, ◌≡◌, Bool-cases, ◌&&◌, ◌||◌, ◌∙◌, some, All, true, ◌∷◌, Option, map, Option-cases, [], not,
  false, arith, ap, inl, refl, inr, sym, none,
}
use mathlib.Core.List.{Perm, foldr}
use mathlib.Core.List.Perm
use mathlib.Core.Bool.{Bool-set}
use mathlib.Core.Path.{subst}
use preamp.Base.Text.{Bytes, bytes_eq, bytes_eq_iff, one_of}
use preamp.Db.{Song}
use preamp.Scan.Integrity.{All-map, All-append}
use preamp.Scan.Statements.{has_path}
use preamp.Scan.Sweep.{gone_paths}
use preamp.Scan.Pipeline.{reads}
use preamp.Scan.Track.{TrackJob, TrackInfo, Files, read_track}
use preamp.Scan.Walk.{
  KnownFile, Visit, Walked, known_files, walk, visit, visit_track, visit_other, visited, skipped,
  walk_error, unchanged, supported_exts, folder_art_names,
}
use preamp.Scan.Writer.Total.{in_results}

pub gone_paths-one_of :
    (p : Bytes) (seen : List Bytes) (ss : List Song)
    → one_of p (gone_paths seen (known_files ss)) ≡ (has_path p ss && not (one_of p seen))
unfolding gone_paths known_files has_path one_of
gone_paths-one_of p seen [] = refl
gone_paths-one_of p seen (s ∷ ss) = elim (Bool-cases (one_of s.path seen)) [
  | inl e ↦ ground (arith, e, gone_paths-one_of p seen ss, bytes_eq_iff p s.path)
  | inr e ↦ ground (arith, e, gone_paths-one_of p seen ss, bytes_eq_iff p s.path)
]

in_results-foldr :
    (p : Bytes) (ts : List TrackInfo)
    → in_results p ts ≡ foldr (λ (t : TrackInfo) b. bytes_eq p t.path || b) false ts
unfolding in_results
in_results-foldr p [] = refl
in_results-foldr p (t ∷ ts) = ap (◌||◌ (bytes_eq p t.path)) (in_results-foldr p ts)

pub in_results-Perm :
    (p : Bytes) {xs ys : List TrackInfo} → Perm xs ys → in_results p xs ≡ in_results p ys
in_results-Perm p {xs} {ys} h =
    in_results-foldr p xs
    ∙ (Perm.foldr-eq Bool-set (λ (t : TrackInfo) b. bytes_eq p t.path || b) (λ a b x. ground arith)
          h false
        ∙ sym (in_results-foldr p ys))

-- What is read of a job has its path.
read_track-path :
    (files : Files) (j : TrackJob) (i : TrackInfo) → read_track files j ≡ some i → i.path ≡ j.path
unfolding read_track
read_track-path files j i h = ground (arith, h)

abbrev pub Seen : List Bytes → List TrackJob → Type 0
Seen seen js = All (λ (j : TrackJob). one_of j.path seen ≡ true) js

pub in_results-Seen :
    (p : Bytes) (files : Files) (seen : List Bytes) (js : List TrackJob)
    → Seen seen js
    → in_results p (reads (read_track files) js) ≡ true
    → one_of p seen ≡ true
unfolding reads in_results
in_results-Seen p files seen [] d h = ground (arith, h)
in_results-Seen p files seen (j ∷ js) (d, ds) h = elim (Option-cases (read_track files j)) [
  | inl e ↦ in_results-Seen p files seen js ds (
      subst
        (λ o.
          in_results p (elim o as (λ _. List TrackInfo) [
            | none ↦ reads (read_track files) js
            | some i ↦ i ∷ reads (read_track files) js
          ])
          ≡ true)
        e h)
  | inr (i, e) ↦
      let k : (bytes_eq p i.path || in_results p (reads (read_track files) js)) ≡ true =
        subst
          (λ o.
            in_results p (elim o as (λ _. List TrackInfo) [
              | none ↦ reads (read_track files) js
              | some i ↦ i ∷ reads (read_track files) js
            ])
            ≡ true)
          e h in
      let ih : in_results p (reads (read_track files) js) ≡ true → one_of p seen ≡ true =
        in_results-Seen p files seen js ds in
      ground (arith, k, ih, d, read_track-path files j i e, bytes_eq_iff p i.path)
]

abbrev JobsSeen : Walked → Type 0
JobsSeen w = Seen w.seen_paths w.jobs

Seen-cons : (p : Bytes) (seen : List Bytes) (js : List TrackJob) → Seen seen js → Seen (p ∷ seen) js
unfolding one_of
Seen-cons p seen js h = All-map _ _ js (λ j e. ap (◌||◌ (bytes_eq j.path p)) e ∙ ground arith) h

visit_track-JobsSeen :
    (known : List (Bytes × KnownFile)) (job : TrackJob) (info : Option KnownFile) (w : Walked)
    → JobsSeen w
    → JobsSeen (visit_track known job info w)
unfolding visit_track one_of
visit_track-JobsSeen known job none w h = h
visit_track-JobsSeen known job (some info) w h =
    let old : Seen (job.path ∷ w.seen_paths) w.jobs = Seen-cons job.path w.seen_paths w.jobs h in
    elim (Bool-cases (unchanged known job.path info)) [
      | inl e ↦ rw e old
      | inr e ↦ rw e (
          All-append (λ (j : TrackJob). one_of j.path (job.path ∷ w.seen_paths) ≡ true) w.jobs
            (job ∷ []) old (ground (arith, bytes_eq_refl job.path), tt))
    ]

visit_other-JobsSeen : (path : Bytes) (w : Walked) → JobsSeen w → JobsSeen (visit_other path w)
unfolding visit_other
visit_other-JobsSeen path w h =
    elim (Bool-cases (one_of (map to_lower (base path)) folder_art_names)) [
      | inr e ↦ rw e h
      | inl e ↦ elim (Option-cases (lookup (dir path) w.folder_art)) [
        | inl k ↦ rw (e, k) h
        | inr (a, k) ↦ rw (e, k) h
      ]
    ]

visit-JobsSeen :
    (known : List (Bytes × KnownFile)) (v : Visit) (w : Walked)
    → JobsSeen w
    → JobsSeen (visit known v w)
unfolding visit
visit-JobsSeen known (walk_error path) w h = h
visit-JobsSeen known (skipped path) w h = h
visit-JobsSeen known (visited path info) w h =
    elim (Option-cases (lookup (map to_lower (extension path)) supported_exts)) [
      | inl e ↦ rw (e, visit) (visit_other-JobsSeen path w h)
      | inr (c, e) ↦
          rw (e, visit)
            (visit_track-JobsSeen known
              (record { path = path; ext = map to_lower (extension path); content_type = c }) info w
              h)
    ]

-- Every job is one of a path that was seen.
pub jobs_seen :
    (known : List (Bytes × KnownFile)) (vs : List Visit) (w : Walked)
    → JobsSeen w
    → JobsSeen (walk known vs w)
unfolding walk
jobs_seen known [] w h = h
jobs_seen known (v ∷ vs) w h = jobs_seen known vs (visit known v w) (visit-JobsSeen known v w h)
