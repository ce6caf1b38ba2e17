-- ===== src/Scan/Writer/Cache.antt =====
-- The ids that insertBatch of internal/scanner/scanner.go keeps for a batch.
use mathlib.Core.Path.{subst}
use preamp.Base.{
  ℕ, ◌<◌, Bool, true, [], ◌∷◌, ◌++◌, All, none, some, ◌≡◌, refl, sym, ◌∙◌, arith, Bool-cases, inl,
  inr,
}
use preamp.Base.Dict.{lookup, insert, lookup-insert}
use preamp.Base.Text.{Bytes, bytes_eq, bytes_eq_iff}
use preamp.Db.{Tables}
use preamp.Scan.Integrity.{album_artist}
use preamp.Scan.Statements.{has_artist}
use preamp.Scan.Track.{TrackInfo}
use preamp.Scan.Writer.{Batch, album_key}
use preamp.Scan.Writer.Rows.{Differ, Holds, Grows}

-- No byte of an artist's name is 0, so the key of an album tells its artist.
abbrev pub NoNul : Bytes → Type 0
NoNul a = All (λ c. 0 < c) a

key_injective : (a b x y : Bytes) → NoNul a → NoNul b → a ++ (0 ∷ x) ≡ b ++ (0 ∷ y) → a ≡ b
key_injective [] [] x y h k e = refl
key_injective [] (c ∷ b) x y h k e = ground (arith, e, k.0)
key_injective (c ∷ a) [] x y h k e = ground (arith, e, h.0)
key_injective (c ∷ a) (d ∷ b) x y h k e =
    let head : c ≡ d = ground (arith, e) in
    let rest : a ++ (0 ∷ x) ≡ b ++ (0 ∷ y) = ground (arith, e) in
    rw (head, key_injective a b x y h.1 k.1 rest) refl

module _ (new_id : ℕ → Bytes) (differ : Differ new_id) where
  -- The ids of a batch are those of rows, and an album's is of an album of the artist.
  abbrev pub Cached : Batch → Tables → Type 0
  Cached b u =
      ((name id : Bytes) → lookup name b.artist_ids ≡ some id → has_artist id u.artists ≡ true)
      × ((t : TrackInfo) (id : Bytes)
          → NoNul t.artist
          → lookup (album_key t) b.album_ids ≡ some id
          → (a : Bytes) × (lookup t.artist b.artist_ids ≡ some a)
            × (album_artist id u.albums ≡ some a))

  abbrev pub Ready : (Bytes → Bool) → Batch → Tables → Type 0
  Ready f b u = Holds new_id differ f b.drawn u × Cached b u

  pub Cached-Grows : (b : Batch) (t u : Tables) → Grows new_id differ t u → Cached b t → Cached b u
  Cached-Grows b t u (artists, albums) (known, filed) = (
    λ name id e. artists id (known name id e),
    λ i id n e. let (a, k, al) = filed i id n e in (a, k, albums id a al),
  )

  pub Cached-artist :
      (b : Batch) (u : Tables) (name id : Bytes) (n : ℕ)
      → lookup name b.artist_ids ≡ none
      → has_artist id u.artists ≡ true
      → Cached b u
      → Cached (record b { artist_ids = insert name id b.artist_ids; drawn = n }) u
  Cached-artist b u name id n new there (known, filed) = (
    λ m i e. elim (Bool-cases (bytes_eq name m)) [
      | inl same ↦
          let it : some id ≡ some i =
            sym (lookup-insert name m id b.artist_ids ∙ rw same refl) ∙ e in
          subst (λ x. has_artist x u.artists ≡ true) (ground (arith, it)) there
      | inr differs ↦ known m i (sym (lookup-insert name m id b.artist_ids ∙ rw differs refl) ∙ e)
    ],
    λ i al ok e.
        let (a, k, x) = filed i al ok e in
        elim (Bool-cases (bytes_eq name i.artist)) [
          | inl same ↦
              let it : lookup i.artist b.artist_ids ≡ none =
                subst (λ m. lookup m b.artist_ids ≡ none) ((bytes_eq_iff name i.artist).0 same)
                  new in
              ground (arith, k, it)
          | inr differs ↦ (a, lookup-insert name i.artist id b.artist_ids ∙ rw differs k, x)
        ],
  )

  pub Cached-album :
      (b : Batch) (u : Tables) (t : TrackInfo) (artist id : Bytes) (n : ℕ)
      → NoNul t.artist
      → lookup t.artist b.artist_ids ≡ some artist
      → album_artist id u.albums ≡ some artist
      → Cached b u
      → Cached (record b { album_ids = insert (album_key t) id b.album_ids; drawn = n }) u
  Cached-album b u t artist id n ok this there (known, filed) = (
    known,
    λ i al ok' e. elim (Bool-cases (bytes_eq (album_key t) (album_key i))) [
      | inl same ↦
          let it : some id ≡ some al =
            sym (lookup-insert (album_key t) (album_key i) id b.album_ids ∙ rw same refl) ∙ e in
          let one : t.artist ≡ i.artist =
            key_injective t.artist i.artist t.album i.album ok ok'
              ((bytes_eq_iff (album_key t) (album_key i)).0 same) in
          (
            artist,
            subst (λ m. lookup m b.artist_ids ≡ some artist) one this,
            subst (λ x. album_artist x u.albums ≡ some artist) (ground (arith, it)) there,
          )
      | inr differs ↦
          filed i al ok'
            (sym (lookup-insert (album_key t) (album_key i) id b.album_ids ∙ rw differs refl) ∙ e)
    ],
  )
