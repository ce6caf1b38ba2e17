-- ===== src/Id3/Tags/Names.antt =====
-- Which field a frame is for, by its identifier, in parseID3v2Frames of internal/scanner/id3.go.
use mathlib.Core.Path.{subst}
use preamp.Base.{
  ℕ, ◌<◌, Bool, true, false, not, ◌&&◌, ◌||◌, List, [], ◌∷◌, ltb, leb, ◌==◌, if◌then◌else◌, length,
  take, ◌≡◌, ◌≢◌, refl, sym, Bool-cases, inl, inr,
}
use preamp.Base.Int.{atoi}
use preamp.Base.Text.{Bytes, codes, byte_at, bytes_eq, bytes_eq_iff, is_empty, one_of}
use preamp.Id3.Text.{decode_text_frame}
use preamp.Id3.Values.{clean_genre, parse_track_disc}
use preamp.Id3.Tags.{Id3Tags, no_tags, want_text_frame, apply_tag}
use preamp.Id3.Tags.Render.{Frame}
use preamp.Id3.Tags.Write.{make_frame, size_limit}

-- A frame to be written.
pub record WrittenFrame : Type 0 where
  pub id : Bytes
  pub payload : Bytes

-- The identifier has three bytes in v2.2 and four in v2.3 and v2.4, and the size can be declared.
pub record IsWrittenFrame (major : ℕ) (w : WrittenFrame) : Type 0 where
  pub id_length : length w.id ≡ (if major == 2 then 3 else 4)
  pub no_padding : byte_at w.id 0 ≢ 0
  pub payload_pos : 0 < length w.payload
  pub payload_small : length w.payload < size_limit major

abbrev pub write : ℕ → WrittenFrame → Frame
write major w =
    make_frame major (byte_at w.id 0) (byte_at w.id 1) (byte_at w.id 2) (byte_at w.id 3) w.payload

-- Whether a frame with this identifier and this text is for a field that has one name in v2.2 and
-- another in the later versions.
abbrev pub is_named : ℕ → Bytes → Bytes → Bytes → Bytes → Bool
is_named major three four id text = bytes_eq id (if major == 2 then three else four)

abbrev pub is_year : ℕ → Bytes → Bytes → Bool
is_year major id text =
    (if major == 2
      then bytes_eq id (codes "TYE")
      else bytes_eq id (codes "TDRC") || bytes_eq id (codes "TYER"))
    && leb 4 (length text)

-- A frame of less than 4096 bytes whose text is not empty, of the field.
abbrev pub has_text : (Bytes → Bytes → Bool) → WrittenFrame → Bool
has_text p w =
    (ltb (length w.payload) 4096 && not (is_empty (decode_text_frame w.payload)))
    && p w.id (decode_text_frame w.payload)

-- The text of the last such frame, and `t` if there is none.
unfoldable pub last_text : (Bytes → Bytes → Bool) → Bytes → List WrittenFrame → Bytes
last_text p t [] = t
last_text p t (w ∷ ws) = last_text p (if has_text p w then decode_text_frame w.payload else t) ws

-- The tags of seven texts.
abbrev pub tags_with : Bytes → Bytes → Bytes → Bytes → Bytes → Bytes → Bytes → Id3Tags
tags_with title artist album genre track disc year = record no_tags {
  title = title;
  artist = artist;
  album = album;
  genre = clean_genre genre;
  track = parse_track_disc track;
  disc = parse_track_disc disc;
  year = (atoi (take 4 year)).0;
}

module _ (major : ℕ) where
  abbrev pub is_title : Bytes → Bytes → Bool
  is_title = is_named major (codes "TT2") (codes "TIT2")

  abbrev pub is_artist : Bytes → Bytes → Bool
  is_artist = is_named major (codes "TP1") (codes "TPE1")

  abbrev pub is_album_name : Bytes → Bytes → Bool
  is_album_name = is_named major (codes "TAL") (codes "TALB")

  abbrev pub is_genre : Bytes → Bytes → Bool
  is_genre = is_named major (codes "TCO") (codes "TCON")

  abbrev pub is_track : Bytes → Bytes → Bool
  is_track = is_named major (codes "TRK") (codes "TRCK")

  abbrev pub is_disc : Bytes → Bytes → Bool
  is_disc = is_named major (codes "TPA") (codes "TPOS")

  -- What the frames of a body say, from the texts that are there.
  abbrev pub fields :
      Bytes → Bytes → Bytes → Bytes → Bytes → Bytes → Bytes → List WrittenFrame → Id3Tags
  fields t a l g n d y ws =
      tags_with (last_text is_title t ws) (last_text is_artist a ws) (last_text is_album_name l ws)
        (last_text is_genre g ws) (last_text is_track n ws) (last_text is_disc d ws)
        (last_text (is_year major) y ws)

module _ (major : ℕ) (v t a l g n d y : Bytes) (hv : is_empty v ≡ false) where
  abbrev pub chosen : (Bytes → Bytes → Bool) → Bytes → Bytes → Bytes
  chosen p i old = if p i v then v else old

  -- A wanted frame with this identifier and the text `v` sets the field that it is for.
  abbrev pub Sets : Bytes → Type 0
  Sets i =
      (if want_text_frame i major && true
        then apply_tag (tags_with t a l g n d y) i v
        else tags_with t a l g n d y)
      ≡ tags_with (chosen (is_title major) i t) (chosen (is_artist major) i a)
          (chosen (is_album_name major) i l) (chosen (is_genre major) i g)
          (chosen (is_track major) i n) (chosen (is_disc major) i d) (chosen (is_year major) i y)

  at : (i j : Bytes) → bytes_eq i j ≡ true → Sets j → Sets i
  at i j e h = subst Sets (sym ((bytes_eq_iff i j).0 e)) h

  -- In v2.3 and v2.4, where no identifier has three bytes.
  pub late-Sets :
      (i : Bytes)
      → (major == 2) ≡ false
      → ((b c e : ℕ) → bytes_eq i (b ∷ c ∷ e ∷ []) ≡ false)
      → Sets i
  unfolding want_text_frame apply_tag one_of clean_genre parse_track_disc atoi
  late-Sets i late short =
      let s0 = short 84 84 50 in
      let s1 = short 84 80 49 in
      let s2 = short 84 65 76 in
      let s3 = short 84 67 79 in
      let s4 = short 84 82 75 in
      let s5 = short 84 80 65 in
      let s6 = short 84 89 69 in
      elim (Bool-cases (bytes_eq i (codes "TIT2"))) [
        | inl e ↦ at i (codes "TIT2") e (rw (late, hv) refl)
        | inr e0 ↦ elim (Bool-cases (bytes_eq i (codes "TPE1"))) [
          | inl e ↦ at i (codes "TPE1") e (rw (late, hv) refl)
          | inr e1 ↦ elim (Bool-cases (bytes_eq i (codes "TALB"))) [
            | inl e ↦ at i (codes "TALB") e (rw (late, hv) refl)
            | inr e2 ↦ elim (Bool-cases (bytes_eq i (codes "TCON"))) [
              | inl e ↦ at i (codes "TCON") e (rw (late, hv) refl)
              | inr e3 ↦ elim (Bool-cases (bytes_eq i (codes "TRCK"))) [
                | inl e ↦ at i (codes "TRCK") e (rw (late, hv) refl)
                | inr e4 ↦ elim (Bool-cases (bytes_eq i (codes "TPOS"))) [
                  | inl e ↦ at i (codes "TPOS") e (rw (late, hv) refl)
                  | inr e5 ↦ elim (Bool-cases (bytes_eq i (codes "TDRC"))) [
                    | inl e ↦ at i (codes "TDRC") e (elim (Bool-cases (leb 4 (length v))) [
                      | inl f ↦ rw (late, hv, f) refl
                      | inr f ↦ rw (late, hv, f) refl
                    ])
                    | inr e6 ↦ elim (Bool-cases (bytes_eq i (codes "TYER"))) [
                      | inl e ↦ at i (codes "TYER") e (elim (Bool-cases (leb 4 (length v))) [
                        | inl f ↦ rw (late, hv, f) refl
                        | inr f ↦ rw (late, hv, f) refl
                      ])
                      | inr e7 ↦
                          rw (late, e0, e1, e2, e3, e4, e5, e6, e7, s0, s1, s2, s3, s4, s5, s6) refl
                    ]
                  ]
                ]
              ]
            ]
          ]
        ]
      ]

  -- In v2.2, where none has four.
  pub early-Sets :
      (i : Bytes)
      → (major == 2) ≡ true
      → ((b c e f : ℕ) → bytes_eq i (b ∷ c ∷ e ∷ f ∷ []) ≡ false)
      → Sets i
  unfolding want_text_frame apply_tag one_of clean_genre parse_track_disc atoi
  early-Sets i early long =
      let s0 = long 84 73 84 50 in
      let s1 = long 84 80 69 49 in
      let s2 = long 84 65 76 66 in
      let s3 = long 84 67 79 78 in
      let s4 = long 84 82 67 75 in
      let s5 = long 84 80 79 83 in
      let s6 = long 84 68 82 67 in
      let s7 = long 84 89 69 82 in
      elim (Bool-cases (bytes_eq i (codes "TT2"))) [
        | inl e ↦ at i (codes "TT2") e (rw (early, hv) refl)
        | inr e0 ↦ elim (Bool-cases (bytes_eq i (codes "TP1"))) [
          | inl e ↦ at i (codes "TP1") e (rw (early, hv) refl)
          | inr e1 ↦ elim (Bool-cases (bytes_eq i (codes "TAL"))) [
            | inl e ↦ at i (codes "TAL") e (rw (early, hv) refl)
            | inr e2 ↦ elim (Bool-cases (bytes_eq i (codes "TCO"))) [
              | inl e ↦ at i (codes "TCO") e (rw (early, hv) refl)
              | inr e3 ↦ elim (Bool-cases (bytes_eq i (codes "TRK"))) [
                | inl e ↦ at i (codes "TRK") e (rw (early, hv) refl)
                | inr e4 ↦ elim (Bool-cases (bytes_eq i (codes "TPA"))) [
                  | inl e ↦ at i (codes "TPA") e (rw (early, hv) refl)
                  | inr e5 ↦ elim (Bool-cases (bytes_eq i (codes "TYE"))) [
                    | inl e ↦ at i (codes "TYE") e (elim (Bool-cases (leb 4 (length v))) [
                      | inl f ↦ rw (early, hv, f) refl
                      | inr f ↦ rw (early, hv, f) refl
                    ])
                    | inr e6 ↦
                        rw (early, e0, e1, e2, e3, e4, e5, e6, s0, s1, s2, s3, s4, s5, s6, s7) refl
                  ]
                ]
              ]
            ]
          ]
        ]
      ]
