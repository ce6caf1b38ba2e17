-- ===== src/Tests/Id3.antt =====
-- internal/scanner/id3.go on concrete tags.
use preamp.Base.{
  map, List, All, ◌<◌, ◌^◌, ◌≢◌, arith, ℕ, ◌≤◌, true, false, List, [], ◌∷◌, ◌++◌, map, ◌≡◌, ◌≢◌,
  inl, inr, refl, arith, none, some, length,
}
use preamp.Base.Int.{pos, negsuc}
use preamp.Base.Text.{Bytes, codes, one_of, byte_at, bytes_eq}
use preamp.Id3.Lyrics.Synced.{Entry, entry_line, entries_bytes, parse_sylt-entries}
use preamp.Id3.Lyrics.Total.{read_id3v2_lyrics_total}
use preamp.Id3.Lyrics.{
  parse_sylt, parse_uslt, read_id3v2_lyrics, LyricsResult, lyrics_of, parse_lyrics_frames,
  lyrics_round,
}
use preamp.Id3.Frames.{frame_hdr_len, frame_id, frame_size, frames_start}
use preamp.Base.Bits.{be32, syncsafe}
use preamp.Base.Scan.{scan}
use preamp.Id3.Tags.Render.{
  Frame, IsFrame, body_bytes, apply_frames, apply_frame, parse_id3v2_frames-body_bytes,
}
use preamp.Id3.Tags.Total.{read_id3v2_total}
use preamp.Id3.Tags.Write.{make_frame, make_frame-IsFrame, frame_header}
use preamp.Id3.Tags.Names.{WrittenFrame, IsWrittenFrame, write, fields, last_text}
use preamp.Id3.Tags.Fields.{parse_id3v2_frames-write}
use preamp.Id3.Tags.{
  no_tags, parse_id3v2_frames, read_id3v2, want_text_frame, apply_tag, tags_round, has_id3_header,
}
use preamp.Id3.Text.{decode_text_frame}
use preamp.Id3.Utf.RoundTrip.{utf16, bytes_be, bytes_le, decode_utf16_lem}
use preamp.Id3.Utf.{decode_utf16, decode_utf16be, encode_runes}
use preamp.Id3.Values.{clean_genre, parse_track_disc}

abbrev title : Frame
title = record { header = codes "TIT2" ++ (0 ∷ 0 ∷ 0 ∷ 5 ∷ 0 ∷ 0 ∷ []); payload = 3 ∷ codes "Song" }

abbrev picture : Frame
picture = record {
  header = codes "APIC" ++ (0 ∷ 0 ∷ 0 ∷ 2 ∷ 0 ∷ 0 ∷ []);
  payload = 0xFF ∷ 0xD8 ∷ [];
}

abbrev disc : Frame
disc = record { header = codes "TPOS" ++ (0 ∷ 0 ∷ 0 ∷ 4 ∷ 0 ∷ 0 ∷ []); payload = 0 ∷ codes "2/3" }

abbrev padding : Bytes
padding = 0 ∷ 0 ∷ 0 ∷ 0 ∷ 0 ∷ 0 ∷ 0 ∷ 0 ∷ 0 ∷ 0 ∷ 0 ∷ 0 ∷ []

title-IsFrame : IsFrame 3 title
unfolding frame_hdr_len frame_size be32
title-IsFrame = omega arith

picture-IsFrame : IsFrame 3 picture
unfolding frame_hdr_len frame_size be32
picture-IsFrame = omega arith

disc-IsFrame : IsFrame 3 disc
unfolding frame_hdr_len frame_size be32
disc-IsFrame = omega arith

abbrev frames : List Frame
frames = title ∷ picture ∷ disc ∷ []

room : length (body_bytes frames padding) ≤ 60
unfolding body_bytes
room = omega arith

frames-parsed :
    parse_id3v2_frames (body_bytes frames padding) 3 60 0 ≡ some (apply_frames 3 no_tags frames)
frames-parsed =
    parse_id3v2_frames-body_bytes 3 60 0 frames padding
      (title-IsFrame, (picture-IsFrame, (disc-IsFrame, tt))) (inr refl) refl room

tags-of-frames :
    apply_frames 3 no_tags frames ≡ record no_tags { title = codes "Song"; disc = pos 2 }
unfolding apply_frames apply_frame want_text_frame apply_tag frame_id decode_text_frame
tags-of-frames = refl

-- Two titles, of which the last counts, and a year, in v2.4.
abbrev writings : List WrittenFrame
writings =
    record { id = codes "TIT2"; payload = 3 ∷ codes "Old" }
    ∷ record { id = codes "TDRC"; payload = 3 ∷ codes "1999-12" }
    ∷ record { id = codes "TIT2"; payload = 3 ∷ codes "New" }
    ∷ []

writing-IsWrittenFrame :
    (id payload : Bytes)
    → length id ≡ 4
    → byte_at id 0 ≢ 0
    → 0 < length payload
    → length payload < 2 ^ 28
    → IsWrittenFrame 4 (record { id = id; payload = payload })
writing-IsWrittenFrame id payload hl hi hp hs = record {
  id_length = hl;
  no_padding = hi;
  payload_pos = hp;
  payload_small = hs;
}

writings-IsWrittenFrame : All (IsWrittenFrame 4) writings
writings-IsWrittenFrame = (
  writing-IsWrittenFrame (codes "TIT2") (3 ∷ codes "Old") refl (λ e. omega (arith, e)) (omega arith)
      (omega arith),
  (
    writing-IsWrittenFrame (codes "TDRC") (3 ∷ codes "1999-12") refl (λ e. omega (arith, e))
        (omega arith) (omega arith),
    (
      writing-IsWrittenFrame (codes "TIT2") (3 ∷ codes "New") refl (λ e. omega (arith, e))
          (omega arith) (omega arith),
      tt,
    ),
  ),
)

parse_id3v2_frames-write_example :
    parse_id3v2_frames (body_bytes (map (write 4) writings) padding) 4 90 0
    ≡ some (fields 4 [] [] [] [] [] [] [] writings)
unfolding body_bytes make_frame frame_header
parse_id3v2_frames-write_example =
    parse_id3v2_frames-write 4 90 0 writings padding writings-IsWrittenFrame (inr refl) refl
      (omega arith)

fields-writings :
    fields 4 [] [] [] [] [] [] [] writings ≡ record no_tags { title = codes "New"; year = pos 1999 }
unfolding decode_text_frame bytes_eq clean_genre parse_track_disc last_text
fields-writings = refl

abbrev tagged : Bytes
tagged = codes "ID3" ++ (3 ∷ 0 ∷ 0 ∷ 0 ∷ 0 ∷ 0 ∷ 15 ∷ (title.header ++ title.payload))

tagged_read : read_id3v2 tagged ≢ none
tagged_read = read_id3v2_total tagged

read_id3v2-tagged :
    read_id3v2 tagged ≡ some (some (record no_tags { title = codes "Song"; tag_size = 25 }))
unfolding read_id3v2 parse_id3v2_frames scan tags_round want_text_frame apply_tag frame_id
    frame_size be32 frame_hdr_len frames_start decode_text_frame syncsafe
read_id3v2-tagged = refl

band-IsFrame : IsFrame 4 (make_frame 4 b'T' b'P' b'E' b'1' (0 ∷ codes "Band"))
band-IsFrame =
    make_frame-IsFrame 4 b'T' b'P' b'E' b'1' (0 ∷ codes "Band") (omega arith) (omega arith)
      (omega arith)

values :
    (clean_genre (codes "(17)Rock") ≡ codes "Rock")
    × (clean_genre (codes "(17)") ≡ codes "17")
    × (clean_genre (codes "Jazz") ≡ codes "Jazz")
    × (parse_track_disc (codes " 7 /12") ≡ pos 7)
    × (parse_track_disc (codes "x") ≡ pos 0)
    × (parse_track_disc (codes "-3") ≡ negsuc 2)
unfolding clean_genre parse_track_disc
values = (refl, refl, refl, refl, refl, refl)

abbrev clef : List ℕ
clef = b'A' ∷ 0x00E9 ∷ 0x1D11E ∷ []

decode_utf16_lem_example :
    (decode_utf16be (bytes_be (utf16 clef)) ≡ encode_runes clef)
    × (decode_utf16 (0xFE ∷ 0xFF ∷ bytes_be (utf16 clef)) ≡ encode_runes clef)
    × (decode_utf16 (0xFF ∷ 0xFE ∷ bytes_le (utf16 clef)) ≡ encode_runes clef)
decode_utf16_lem_example =
    decode_utf16_lem clef
      (inl (omega arith), (inl (omega arith), (inr (omega arith, omega arith), tt)))

lone_surrogate :
    decode_utf16be (0xD8 ∷ 0x00 ∷ 0x00 ∷ 0x41 ∷ 0x42 ∷ []) ≡ 0xEF ∷ 0xBF ∷ 0xBD ∷ 0x41 ∷ []
unfolding decode_utf16be
lone_surrogate = refl

abbrev first_line : Entry
first_line = record { text = codes "la"; time = 1500 }

abbrev second_line : Entry
second_line = record { text = codes "li"; time = 70000 }

parse_sylt-entries_example :
    parse_sylt (
      3
      ∷ b'e'
      ∷ b'n'
      ∷ b'g'
      ∷ 2
      ∷ 1
      ∷ (codes "x" ++ (0 ∷ entries_bytes (first_line ∷ second_line ∷ []))))
    ≡ some (
        some (record {
          lang = codes "eng";
          synced = true;
          lines = map (entry_line 2) (first_line ∷ second_line ∷ []);
        }))
parse_sylt-entries_example =
    parse_sylt-entries 3 b'e' b'n' b'g' 2 1 (codes "x") first_line (second_line ∷ []) refl
      (omega arith) (omega arith)

abbrev sung : Bytes
sung =
    codes "ID3"
    ++ (3
        ∷ 0
        ∷ 0
        ∷ 0
        ∷ 0
        ∷ 0
        ∷ 20
        ∷ (codes "USLT" ++ (0 ∷ 0 ∷ 0 ∷ 10 ∷ 0 ∷ 0 ∷ 0 ∷ (codes "eng" ++ (0 ∷ codes "a\r\nbc")))))

read_id3v2_lyrics_total_example : read_id3v2_lyrics sung ≢ none
read_id3v2_lyrics_total_example = read_id3v2_lyrics_total sung

read_id3v2_lyrics-sung :
    read_id3v2_lyrics sung
    ≡ some (
        LyricsResult.frames (
          record {
            lang = codes "eng";
            synced = false;
            lines =
                record { start = negsuc 0; value = codes "a" }
                ∷ record { start = negsuc 0; value = codes "bc" }
                ∷ [];
          }
          ∷ []))
unfolding read_id3v2_lyrics has_id3_header parse_lyrics_frames scan lyrics_round lyrics_of
    parse_uslt frame_id frame_size be32 frame_hdr_len frames_start syncsafe one_of
read_id3v2_lyrics-sung = refl
