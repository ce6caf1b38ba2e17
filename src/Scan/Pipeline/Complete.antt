-- ===== src/Scan/Pipeline/Complete.antt =====
-- Every interleaving of the goroutines of Scanner.Run in internal/scanner/scanner.go.
use mathlib.Core.Path.{subst}
use preamp.Base.{
  ℕ, ◌+◌, ◌*◌, ◌<◌, ◌≤◌, List, [], ◌∷◌, ◌++◌, Option, none, some, ◌≡◌, refl, sym, ap, ◌∙◌, arith,
  ◌⊎◌, inl, inr, length, length-append, append_assoc, append-nil, Option-cases,
}
use mathlib.Core.List.{Perm}
use mathlib.Core.List.Perm
use preamp.Scan.Pipeline.{
  Pipeline, start, Step, send, take_job, deliver, give_up, receive, Steps, none_yet, then_step,
  reads, IsDone, results_buffer,
}
use preamp.Scan.Track.{TrackJob, TrackInfo}

-- The stages that each item has still to pass.
abbrev work : Pipeline → ℕ
work p = 4 * length p.unsent + 3 * length p.jobs + 2 * length p.held + length p.results

module _ (read : TrackJob → Option TrackInfo) where
  Step-work : {p q : Pipeline} → Step read p q → work q < work p
  Step-work (send p j js e h) = omega (arith, ap length e, length-append p.jobs (j ∷ []))
  Step-work (take_job p j js e h) = omega (arith, ap length e, length-append p.held (j ∷ []))
  Step-work (deliver p before after j info e r h) = omega (
    arith,
    ap length e,
    length-append before (j ∷ after),
    length-append before after,
    length-append p.results (info ∷ []),
  )
  Step-work (give_up p before after j e r) =
      omega (arith, ap length e, length-append before (j ∷ after), length-append before after)
  Step-work (receive p info infos e) = omega (arith, ap length e)

  Steps-work : {p q : Pipeline} {n : ℕ} → Steps read p n q → n + work q ≤ work p
  Steps-work none_yet = omega arith
  Steps-work (then_step st s) = omega (arith, Steps-work st, Step-work s)

  -- What is received, and what will be.
  total : Pipeline → List TrackInfo
  total p = p.received ++ (p.results ++ reads read (p.held ++ (p.jobs ++ p.unsent)))

  reads-append : (xs ys : List TrackJob) → reads read (xs ++ ys) ≡ reads read xs ++ reads read ys
  unfolding reads
  reads-append [] ys = refl
  reads-append (x ∷ xs) ys = ground (arith, reads-append xs ys)

  reads-none :
      (before after : List TrackJob) (j : TrackJob)
      → read j ≡ none
      → reads read (before ++ (j ∷ after)) ≡ reads read (before ++ after)
  unfolding reads
  reads-none [] after j h = rw h refl
  reads-none (b ∷ before) after j h = ground (arith, reads-none before after j h)

  reads-some :
      (before after : List TrackJob) (j : TrackJob) (info : TrackInfo)
      → read j ≡ some info
      → Perm (info ∷ reads read (before ++ after)) (reads read (before ++ (j ∷ after)))
  unfolding reads
  reads-some [] after j info h = rw h (Perm.refl (info ∷ reads read after))
  reads-some (b ∷ before) after j info h = elim (Option-cases (read b)) [
    | inl e ↦ rw e (reads-some before after j info h)
    | inr (i, e) ↦ rw e (
        Perm.trans (Perm.swap i info (reads read (before ++ after)))
          (Perm.cons i (reads-some before after j info h)))
  ]

  Perm-eq : {xs ys : List TrackInfo} → xs ≡ ys → Perm xs ys
  Perm-eq {xs} e = subst (λ zs. Perm xs zs) e (Perm.refl xs)

  Step-total : {p q : Pipeline} → Step read p q → Perm (total q) (total p)
  unfolding total
  Step-total (send p j js e h) =
      let moved : (p.jobs ++ (j ∷ [])) ++ js ≡ p.jobs ++ p.unsent =
        append_assoc p.jobs (j ∷ []) js ∙ ap (λ l. p.jobs ++ l) (sym e) in
      Perm-eq (ap (λ l. p.received ++ (p.results ++ reads read (p.held ++ l))) moved)
  Step-total (take_job p j js e h) =
      let moved : (p.held ++ (j ∷ [])) ++ (js ++ p.unsent) ≡ p.held ++ (p.jobs ++ p.unsent) =
        append_assoc p.held (j ∷ []) (js ++ p.unsent)
        ∙ ap (λ (l : List TrackJob). p.held ++ (l ++ p.unsent)) (sym e) in
      Perm-eq (ap (λ l. p.received ++ (p.results ++ reads read l)) moved)
  Step-total (deliver p before after j info e r h) =
      let rest = p.jobs ++ p.unsent in
      let held : (before ++ (j ∷ (after ++ rest))) ≡ p.held ++ rest =
        sym (append_assoc before (j ∷ after) rest) ∙ ap (λ l. l ++ rest) (sym e) in
      let left : (before ++ after) ++ rest ≡ before ++ (after ++ rest) =
        append_assoc before after rest in
      Perm.append_left p.received (
        Perm.trans
          (Perm-eq (
            append_assoc p.results (info ∷ []) (reads read ((before ++ after) ++ rest))
            ∙ ap (λ l. p.results ++ (info ∷ reads read l)) left))
          (Perm.append_left p.results (
            Perm.trans (reads-some before (after ++ rest) j info r)
              (Perm-eq (ap (reads read) held)))))
  Step-total (give_up p before after j e r) =
      let rest = p.jobs ++ p.unsent in
      let held : (before ++ (j ∷ (after ++ rest))) ≡ p.held ++ rest =
        sym (append_assoc before (j ∷ after) rest) ∙ ap (λ l. l ++ rest) (sym e) in
      Perm-eq (
        ap (λ l. p.received ++ (p.results ++ l))
          (ap (reads read) (append_assoc before after rest)
            ∙ (sym (reads-none before (after ++ rest) j r) ∙ ap (reads read) held)))
  Step-total (receive p info infos e) =
      let rest = reads read (p.held ++ (p.jobs ++ p.unsent)) in
      Perm-eq (
        append_assoc p.received (info ∷ []) (infos ++ rest)
        ∙ ap (λ (l : List TrackInfo). p.received ++ (l ++ rest)) (sym e))

  Steps-total : {p q : Pipeline} {n : ℕ} → Steps read p n q → Perm (total q) (total p)
  Steps-total {p} none_yet = Perm.refl (total p)
  Steps-total (then_step st s) = Perm.trans (Step-total s) (Steps-total st)

  List-cases {ℓ} :
      {A : Type ℓ} (xs : List A) → (xs ≡ []) ⊎ ((a : A) × (as' : List A) × (xs ≡ a ∷ as'))
  List-cases [] = inl refl
  List-cases (a ∷ as') = inr (a, as', refl)

  -- A worker that holds a job can give it up, or deliver it if there is room.
  work_off :
      (p : Pipeline) (j : TrackJob) (js : List TrackJob)
      → p.held ≡ j ∷ js
      → length p.results < results_buffer
      → (q : Pipeline) × Step read p q
  work_off p j js e room = elim (Option-cases (read j)) [
    | inl r ↦ (record p { held = js }, give_up p [] js j e r)
    | inr (info, r) ↦ (
      record p { held = js; results = p.results ++ (info ∷ []) },
      deliver p [] js j info e r room,
    )
  ]

  progress : (p : Pipeline) → IsDone p ⊎ ((q : Pipeline) × Step read p q)
  progress p = elim (List-cases p.results) [
    | inr (info, infos, e) ↦
        inr (
          record p { results = infos; received = p.received ++ (info ∷ []) },
          receive p info infos e,
        )
    | inl none_left ↦ elim (List-cases p.held) [
      | inr (j, js, e) ↦ inr (work_off p j js e (omega (arith, ap length none_left)))
      | inl idle ↦ elim (List-cases p.jobs) [
        | inr (j, js, e) ↦ inr (
          record p { jobs = js; held = p.held ++ (j ∷ []) },
          take_job p j js e (omega (arith, ap length idle)),
        )
        | inl empty ↦ elim (List-cases p.unsent) [
          | inr (j, js, e) ↦ inr (
            record p { unsent = js; jobs = p.jobs ++ (j ∷ []) },
            send p j js e (omega (arith, ap length empty)),
          )
          | inl sent ↦ inl (sent, empty, idle, none_left)
        ]
      ]
    ]
  ]

  done-total : (p : Pipeline) → IsDone p → total p ≡ p.received
  unfolding total reads
  done-total p (sent, empty, idle, none_left) =
      rw (sent, empty, idle, none_left) (append-nil p.received)

  pub pipeline_received :
      (js : List TrackJob) (n : ℕ) (p : Pipeline)
      → Steps read (start js) n p
      → IsDone p
      → Perm p.received (reads read js)
  unfolding total
  pipeline_received js n p st done =
      subst (λ l. Perm l (reads read js)) (done-total p done) (Steps-total st)

  -- For every job list and whatever the files hold: an interleaving has four steps for each job at most;
  -- and either it can go on, or everything is done and the writer has received what the jobs read to, each
  -- exactly once, in some order. So the pipeline ends, does not deadlock, and loses no track.
  pub pipeline_complete :
      (js : List TrackJob) (n : ℕ) (p : Pipeline)
      → Steps read (start js) n p
      → (n ≤ 4 * length js)
        × (((q : Pipeline) × Step read p q) ⊎ (IsDone p × Perm p.received (reads read js)))
  unfolding total
  pipeline_complete js n p st = (
    omega (arith, Steps-work st),
    elim (progress p) [
      | inr more ↦ inl more
      | inl done ↦ inr (done, pipeline_received js n p st done)
    ],
  )
