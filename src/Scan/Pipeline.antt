-- ===== src/Scan/Pipeline.antt =====
-- The goroutines of Scanner.Run in internal/scanner/scanner.go: the walker, the parse workers and the
-- writer, with the channels `jobs` and `results` between them. A step is one send, one receive, or a job
-- that is dropped since it cannot be read; the goroutines interleave in any way.
pub mod Complete
use preamp.Base.{ℕ, ◌<◌, List, [], ◌∷◌, ◌++◌, Option, none, some, ◌≡◌, length, suc}
use preamp.Scan.Track.{TrackJob, TrackInfo}

abbrev pub scan_workers : ℕ
scan_workers = 32

-- The buffers of the channels.
abbrev pub jobs_buffer : ℕ
jobs_buffer = 100

abbrev pub results_buffer : ℕ
results_buffer = 500

-- The jobs that the walker has still to send, those in the channel, those that workers hold, the
-- results in the channel, and those that the writer has received.
pub record Pipeline : Type 0 where
  pub unsent : List TrackJob
  pub jobs : List TrackJob
  pub held : List TrackJob
  pub results : List TrackInfo
  pub received : List TrackInfo

abbrev pub start : List TrackJob → Pipeline
start jobs = record { unsent = jobs; jobs = []; held = []; results = []; received = [] }

module _ (read : TrackJob → Option TrackInfo) where
  pub data Step : Pipeline → Pipeline → Type 0 where
    send :
        (p : Pipeline) (j : TrackJob) (js : List TrackJob)
        → p.unsent ≡ j ∷ js
        → length p.jobs < jobs_buffer
        → Step p (record p { unsent = js; jobs = p.jobs ++ (j ∷ []) })
    take_job :
        (p : Pipeline) (j : TrackJob) (js : List TrackJob)
        → p.jobs ≡ j ∷ js
        → length p.held < scan_workers
        → Step p (record p { jobs = js; held = p.held ++ (j ∷ []) })
    deliver :
        (p : Pipeline) (before after : List TrackJob) (j : TrackJob) (info : TrackInfo)
        → p.held ≡ before ++ (j ∷ after)
        → read j ≡ some info
        → length p.results < results_buffer
        → Step p (record p { held = before ++ after; results = p.results ++ (info ∷ []) })
    give_up :
        (p : Pipeline) (before after : List TrackJob) (j : TrackJob)
        → p.held ≡ before ++ (j ∷ after)
        → read j ≡ none
        → Step p (record p { held = before ++ after })
    receive :
        (p : Pipeline) (info : TrackInfo) (infos : List TrackInfo)
        → p.results ≡ info ∷ infos
        → Step p (record p { results = infos; received = p.received ++ (info ∷ []) })

  -- A run of so many steps.
  pub data Steps (p : Pipeline) : ℕ → Pipeline → Type 0 where
    none_yet : Steps p 0 p
    then_step : {n : ℕ} {q r : Pipeline} → Steps p n q → Step q r → Steps p (suc n) r

  -- What the workers read of the jobs.
  unfoldable pub reads : List TrackJob → List TrackInfo
  reads [] = []
  reads (j ∷ js) = elim (read j) [ none ↦ reads js | some info ↦ info ∷ reads js ]

-- Nothing is left to do, so the channels are closed and the writer ends.
abbrev pub IsDone : Pipeline → Type 0
IsDone p = (p.unsent ≡ []) × (p.jobs ≡ []) × (p.held ≡ []) × (p.results ≡ [])
