-- ===== src/Scan/Writer/Results.antt =====
-- The writer of Scanner.Run of internal/scanner/scanner.go where the engine fails no statement.
use preamp.Db.{Tables}
use preamp.Db.Clean.{Clean, Clean-weaken}
use preamp.Base.{ℕ, List, Bool, ◌++◌, All, ◌≡◌, ◌||◌, ◌∷◌, arith, [], ◌∙◌, refl}
use preamp.Base.Text.{Bytes}
use preamp.Scan.Writer.{write_results, batch_size, insert_batch}
use preamp.Scan.Writer.Batches.{in_batches-Clean}
use preamp.Scan.Writer.Total.{in_results, insert_batch-Clean}
use preamp.Scan.Writer.Rows.{Differ, Holds}
use preamp.Scan.Writer.Cache.{NoNul}
use preamp.Scan.Track.{TrackInfo}

in_results-append :
    (p : Bytes) (xs ys : List TrackInfo)
    → in_results p (xs ++ ys) ≡ (in_results p xs || in_results p ys)
unfolding in_results
in_results-append p [] ys = refl
in_results-append p (x ∷ xs) ys = ground (arith, in_results-append p xs ys)

-- All that it receives is in the tables at the end.
pub write_results-Clean :
    (new_id : ℕ → Bytes) (differ : Differ new_id) (f : Bytes → Bool) (results : List TrackInfo)
    (n : ℕ)
    → All (λ (t : TrackInfo). NoNul t.artist) results
    → Clean
        (Holds new_id differ f n)
        (write_results new_id results n)
        (Holds new_id differ (λ p. in_results p results || f p))
unfolding write_results in_results
write_results-Clean new_id differ f results n ok =
    let I : List TrackInfo → ℕ → Tables → Type 0 =
      λ done. Holds new_id differ (λ p. in_results p done || f p) in
    in_batches-Clean batch_size (insert_batch new_id) (λ (t : TrackInfo). NoNul t.artist) I
      (λ done xs s oks.
        Clean-weaken (I done s) _ (I (done ++ xs)) (insert_batch new_id xs s)
          (λ m u h. (h.0, h.1, λ p. h.2 p ∙ ground (arith, in_results-append p done xs)))
          (insert_batch-Clean new_id differ (λ p. in_results p done || f p) xs s oks))
      [] [] results n tt ok
