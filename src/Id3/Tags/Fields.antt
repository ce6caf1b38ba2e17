-- ===== src/Id3/Tags/Fields.antt =====
-- parseID3v2Frames of internal/scanner/id3.go on a tag body of written frames, field by field.
use Prim.Native.Nat.{bit_and}
use preamp.Base.{
  ℕ, ◌≤◌, Bool, true, false, ◌&&◌, List, [], ◌∷◌, map, ltb, ◌==◌, if◌then◌else◌, length, ◌≡◌, ◌≢◌,
  refl, ap, ◌∙◌, arith, some, All, Bool-cases, inl, inr,
}
use preamp.Base.Int.{atoi}
use preamp.Base.Text.{Bytes, byte_at, bytes_eq, bytes_eq_iff, is_empty}
use preamp.Id3.Frames.{frame_id, frame_id_len}
use preamp.Id3.Text.{decode_text_frame}
use preamp.Id3.Values.{clean_genre, parse_track_disc}
use preamp.Id3.Tags.{Id3Tags, parse_id3v2_frames, want_text_frame, apply_tag}
use preamp.Id3.Tags.Render.{
  IsFrame, IsTail, body_bytes, apply_frame, apply_frames, parse_id3v2_frames-body_bytes,
}
use preamp.Id3.Tags.Write.{make_frame, make_frame-IsFrame, frame_header}
use preamp.Id3.Tags.Names.{
  WrittenFrame, IsWrittenFrame, write, has_text, last_text, tags_with, is_title, is_artist,
  is_album_name, is_genre, is_track, is_disc, is_year, fields, Sets, late-Sets, early-Sets,
}

three_bytes : (s : Bytes) → length s ≡ 3 → byte_at s 0 ∷ byte_at s 1 ∷ byte_at s 2 ∷ [] ≡ s
three_bytes [] h = absurd (omega (arith, h))
three_bytes (a ∷ []) h = absurd (omega (arith, h))
three_bytes (a ∷ b ∷ []) h = absurd (omega (arith, h))
three_bytes (a ∷ b ∷ c ∷ []) h = refl
three_bytes (a ∷ b ∷ c ∷ d ∷ s) h = absurd (omega (arith, h))

four_bytes :
    (s : Bytes) → length s ≡ 4 → byte_at s 0 ∷ byte_at s 1 ∷ byte_at s 2 ∷ byte_at s 3 ∷ [] ≡ s
four_bytes [] h = absurd (omega (arith, h))
four_bytes (a ∷ s) h = ap (◌∷◌ a) (three_bytes s (omega (arith, h)))

frame_id-write :
    (major : ℕ) (w : WrittenFrame)
    → IsWrittenFrame major w
    → frame_id major (write major w).header ≡ w.id
unfolding frame_id frame_header make_frame frame_id_len
frame_id-write major w v = elim (Bool-cases (major == 2)) [
  | inl e ↦ let l : length w.id ≡ 3 = rw e at v.id_length in rw (e, frame_id) (three_bytes w.id l)
  | inr e ↦
      let l : length w.id ≡ 4 = rw e at v.id_length in
      elim (Bool-cases (major == 4)) [
        | inl f ↦ rw (e, f, frame_id) (four_bytes w.id l)
        | inr f ↦ rw (e, f, frame_id) (four_bytes w.id l)
      ]
]

bytes_eq-length : (a b : Bytes) → length a ≢ length b → bytes_eq a b ≡ false
bytes_eq-length a b h = elim (Bool-cases (bytes_eq a b)) [
  | inl e ↦ absurd (h (ap (length {A = ℕ}) ((bytes_eq_iff a b).0 e)))
  | inr e ↦ e
]

written-Sets :
    (major : ℕ) (w : WrittenFrame) (v t a l g n d y : Bytes) (hv : is_empty v ≡ false)
    → IsWrittenFrame major w
    → Sets major v t a l g n d y hv w.id
written-Sets major w v t a l g n d y hv well = elim (Bool-cases (major == 2)) [
  | inl e ↦
      let len : length w.id ≡ 3 = rw e at well.id_length in
      early-Sets major v t a l g n d y hv w.id e
        (λ b c f k. bytes_eq-length w.id (b ∷ c ∷ f ∷ k ∷ []) (λ same. omega (arith, same, len)))
  | inr e ↦
      let len : length w.id ≡ 4 = rw e at well.id_length in
      late-Sets major v t a l g n d y hv w.id e
        (λ b c f. bytes_eq-length w.id (b ∷ c ∷ f ∷ []) (λ same. omega (arith, same, len)))
]

apply_tag-empty : (tags : Id3Tags) (id v : Bytes) → is_empty v ≡ true → apply_tag tags id v ≡ tags
unfolding apply_tag
apply_tag-empty tags id v e = rw (apply_tag, e) refl

unless_both {ℓ} : {A : Type ℓ} (b : Bool) (x : A) → (if b then x else x) ≡ x
unless_both true x = refl
unless_both false x = refl

no_frame {ℓ} : {A : Type ℓ} (b : Bool) (x y : A) → (if b && false then y else x) ≡ x
no_frame true x y = refl
no_frame false x y = refl

-- The text that a field has behind a frame.
abbrev after_frame : (Bytes → Bytes → Bool) → WrittenFrame → Bytes → Bytes
after_frame p w t = if has_text p w then decode_text_frame w.payload else t

apply_frame-write :
    (major : ℕ) (w : WrittenFrame) (t a l g n d y : Bytes)
    → IsWrittenFrame major w
    → apply_frame major (tags_with t a l g n d y) (write major w)
      ≡ tags_with
          (after_frame (is_title major) w t)
          (after_frame (is_artist major) w a)
          (after_frame (is_album_name major) w l)
          (after_frame (is_genre major) w g)
          (after_frame (is_track major) w n)
          (after_frame (is_disc major) w d)
          (after_frame (is_year major) w y)
unfolding apply_frame make_frame
apply_frame-write major w t a l g n d y well =
    let old = tags_with t a l g n d y in
    let v = decode_text_frame w.payload in
    elim (Bool-cases (ltb (length w.payload) 4096)) [
      | inr e ↦
          rw (apply_frame, frame_id-write major w well, e)
            (no_frame (want_text_frame w.id major) old (apply_tag old w.id v))
      | inl e ↦ elim (Bool-cases (is_empty v)) [
        | inl f ↦
            rw (apply_frame, frame_id-write major w well, e, f, apply_tag-empty old w.id v f)
              (unless_both (want_text_frame w.id major && true) old)
        | inr f ↦
            rw (apply_frame, frame_id-write major w well, e, f)
              (written-Sets major w v t a l g n d y f well)
      ]
    ]

apply_frames-fields :
    (major : ℕ) (ws : List WrittenFrame) (t a l g n d y : Bytes)
    → All (IsWrittenFrame major) ws
    → apply_frames major (tags_with t a l g n d y) (map (write major) ws)
      ≡ fields major t a l g n d y ws
unfolding apply_frames last_text
apply_frames-fields major [] t a l g n d y well = refl
apply_frames-fields major (w ∷ ws) t a l g n d y (first, well) =
    ap (λ x. apply_frames major x (map (write major) ws))
      (apply_frame-write major w t a l g n d y first)
    ∙ (apply_frames-fields major ws (after_frame (is_title major) w t)
        (after_frame (is_artist major) w a) (after_frame (is_album_name major) w l)
        (after_frame (is_genre major) w g) (after_frame (is_track major) w n)
        (after_frame (is_disc major) w d) (after_frame (is_year major) w y) well)

writes-IsFrame :
    (major : ℕ) (ws : List WrittenFrame)
    → All (IsWrittenFrame major) ws
    → All (IsFrame major) (map (write major) ws)
writes-IsFrame major [] well = tt
writes-IsFrame major (w ∷ ws) (v, well) = (
  make_frame-IsFrame major (byte_at w.id 0) (byte_at w.id 1) (byte_at w.id 2) (byte_at w.id 3)
      w.payload v.no_padding v.payload_pos v.payload_small,
  writes-IsFrame major ws well,
)

-- In v2.2, v2.3 and v2.4, a body of frames, each written with an identifier of its version's length that does not
-- begin with a zero byte, a payload of a byte at least, and the payload's size in the version's form, with padding or
-- less than a frame header behind them, is parsed, if no extended header is flagged and the declared size covers it.
-- Title, artist and album are the text, as decodeTextFrame gives it, of the last frame with the field's identifier that
-- is shorter than 4096 bytes and has a text, the genre is cleanGenre of such a text, track and disc are parseTrackDisc of it, and the year is
-- Atoi of the first four bytes of the last such text that has four; a field without such a frame is empty or 0.
pub parse_id3v2_frames-write :
    (major raw flags : ℕ) (ws : List WrittenFrame) (tail : Bytes)
    → All (IsWrittenFrame major) ws
    → IsTail major tail
    → bit_and flags 0x40 ≡ 0
    → length (body_bytes (map (write major) ws) tail) ≤ raw
    → parse_id3v2_frames (body_bytes (map (write major) ws) tail) major raw flags
      ≡ some (fields major [] [] [] [] [] [] [] ws)
unfolding clean_genre parse_track_disc atoi
parse_id3v2_frames-write major raw flags ws tail well t plain room =
    parse_id3v2_frames-body_bytes major raw flags (map (write major) ws) tail
      (writes-IsFrame major ws well) t plain room
    ∙ ap some (apply_frames-fields major ws [] [] [] [] [] [] [] well)
