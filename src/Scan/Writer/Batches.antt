-- ===== src/Scan/Writer/Batches.antt =====
-- The loops of internal/scanner/scanner.go that work in batches, where the engine fails no statement.
use mathlib.Core.Path.{subst}
use preamp.Base.{
  ℕ, List, [], ◌∷◌, ◌++◌, All, sym, append_assoc, append-nil, leb, length, Bool-cases, inl, inr,
  ◌∙◌, ap,
}
use preamp.Db.{Tables, Db, ◌>>=◌}
use preamp.Db.Clean.{Clean, Clean-pure, Clean-bind}
use preamp.Scan.Integrity.{All-append}
use preamp.Scan.Writer.{in_batches, flush}

module _ {A S : Type 0} (size : ℕ) (f : List A → S → Db S) (P : A → Type 0)
    (I : List A → S → Tables → Type 0)
    (one : (done xs : List A) (s : S) → All P xs → Clean (I done s) (f xs s) (I (done ++ xs))) where
  flush-Clean :
      (done batch : List A) (s : S)
      → All P batch
      → Clean (I done s) (flush f batch s) (I (done ++ (batch ++ [])))
  unfolding flush
  flush-Clean done [] s ok =
      subst (λ l. Clean (I done s) (flush f [] s) (I l)) (sym (append-nil done))
        (Clean-pure (I done s) (I done) s (λ t i. i))
  flush-Clean done (b ∷ bs) s ok =
      subst (λ l. Clean (I done s) (f (b ∷ bs) s) (I (done ++ l))) (sym (append-nil (b ∷ bs)))
        (one done (b ∷ bs) s ok)

  -- What holds of the items that are done, and is kept by each call, holds of all at the end.
  pub in_batches-Clean :
      (done batch xs : List A) (s : S)
      → All P batch
      → All P xs
      → Clean (I done s) (in_batches size f batch xs s) (I (done ++ (batch ++ xs)))
  unfolding in_batches
  in_batches-Clean done batch [] s ok oks = flush-Clean done batch s ok
  in_batches-Clean done batch (x ∷ xs) s ok (o, oks) =
      let full = batch ++ (x ∷ []) in
      let full_ok : All P full = All-append P batch (x ∷ []) ok (o, tt) in
      elim (Bool-cases (leb size (length full))) [
        | inl e ↦
            rw (e, in_batches)
              (subst (λ l. Clean (I done s) (f full s >>= λ s'. in_batches size f [] xs s') (I l))
                (append_assoc done full xs ∙ ap (λ l. done ++ l) (append_assoc batch (x ∷ []) xs))
                (Clean-bind (I done s) (I (done ++ full)) (I ((done ++ full) ++ xs)) (f full s)
                  (λ s'. in_batches size f [] xs s') (one done full s full_ok)
                  (λ s'. in_batches-Clean (done ++ full) [] xs s' tt oks)))
        | inr e ↦
            rw (e, in_batches)
              (subst (λ l. Clean (I done s) (in_batches size f full xs s) (I (done ++ l)))
                (append_assoc batch (x ∷ []) xs) (in_batches-Clean done full xs s full_ok oks))
      ]
