-- ===== src/Scan.antt =====
-- Scanner.Run of internal/scanner/scanner.go. The visits are those of WalkDir, and `results` is what the
-- writer receives from the parse workers: some order of what they read of the walker's jobs, by
-- Scan.Pipeline. The walk touches no table, so the writer can follow it. The counter and the flag of
-- a scan in progress are left out.
pub mod Path
pub mod Statements
pub mod Track
pub mod Walk
pub mod Pipeline
pub mod Writer
pub mod Sweep
pub mod Integrity
pub mod Correct
pub mod Intact
use preamp.Base.{ℕ, Bool, List, [], ◌∷◌, Option, none, some}
use preamp.Base.Text.{Bytes}
use preamp.Db.{Tables, Db, pure, ◌>>=◌, ◌>>◌, execute, query}
use preamp.Scan.Sweep.{
  gone_paths, delete_songs, ignoring, resolve_album_art, delete_orphans, rebuild_fts,
}
use preamp.Scan.Statements.{update_stats}
use preamp.Scan.Track.{TrackInfo}
use preamp.Scan.Walk.{KnownFile, Visit, Walked, nothing_walked, known_files, walk}
use preamp.Scan.Writer.{write_results}

-- deleteSongs is called only if something is gone.
unfoldable pub sweep : List Bytes → Db (Unit {0})
sweep [] = pure tt
sweep (p ∷ ps) = delete_songs (p ∷ ps)

-- What follows the sweep. The error of the art is logged.
unfoldable pub finish : (Bytes → Bool) → List (Bytes × Bytes) → Db (Unit {0})
finish exists folder_art =
    ignoring (resolve_album_art exists folder_art)
    >> execute update_stats
    >> delete_orphans
    >> rebuild_fts
    >> execute some

-- Behind WriteConn, which is the first query.
unfoldable pub run : (ℕ → Bytes) → (Bytes → Bool) → List Visit → List TrackInfo → Db (Unit {0})
run new_id exists visits results =
    query (λ t. tt)
    >> (query (λ t. known_files t.songs) >>= λ known.
        let walked = walk known visits nothing_walked in
        write_results new_id results 0 >>= λ n.
        sweep (gone_paths walked.seen_paths known) >> finish exists walked.folder_art)
