-- ===== src/Id3/Lyrics/Synced.antt =====
-- parseSYLT of internal/scanner/id3.go on a frame that is written entry by entry.
use preamp.Base.{
  ℕ, zero, suc, ◌*◌, ◌/◌, ◌%◌, ◌^◌, ◌<◌, true, false, List, [], ◌∷◌, ◌++◌, map, drop, ◌==◌,
  if◌then◌else◌, length, ◌≡◌, ◌≢◌, refl, ◌∙◌, arith, Option, some, All, length-append,
}
use preamp.Base.Bits.{be32}
use preamp.Base.Int.{pos}
use preamp.Base.Text.{Bytes}
use preamp.Id3.Text.{
  trim_null, is_wide, read_narrow, read_null_terminated, skip_narrow, skip_null_terminated,
}
use preamp.Id3.Lyrics.{LyricLine, sylt_append, sylt_lines, parse_sylt}

-- A text and its timestamp.
pub record Entry : Type 0 where
  pub text : Bytes
  pub time : ℕ

-- No byte of the text is the terminator, and the timestamp has 32 bits.
pub record IsEntry (e : Entry) : Type 0 where
  pub no_null : All (λ b. b ≢ 0) e.text
  pub fits : e.time < 2 ^ 32

-- The four bytes of a timestamp, in front of what follows them.
abbrev pub stamp : ℕ → Bytes → Bytes
stamp t rest = (t / 16777216) ∷ (t / 65536 % 256) ∷ (t / 256 % 256) ∷ (t % 256) ∷ rest

unfoldable pub entries_bytes : List Entry → Bytes
entries_bytes [] = []
entries_bytes (e ∷ es) = e.text ++ (0 ∷ stamp e.time (entries_bytes es))

-- The line of an entry: MPEG frames (format 1) count 26 milliseconds each.
abbrev pub entry_line : ℕ → Entry → LyricLine
entry_line format e = record {
  start = pos (if format == 1 then e.time * 26 else e.time);
  value = e.text;
}

trim_null-no_null : (text : Bytes) → All (λ b. b ≢ 0) text → trim_null text ≡ text
unfolding trim_null
trim_null-no_null [] h = refl
trim_null-no_null (b ∷ bs) h = ground (arith, h.0, trim_null-no_null bs h.1)

read_narrow-append :
    (text behind : Bytes)
    → All (λ b. b ≢ 0) text
    → read_narrow (text ++ (0 ∷ behind)) ≡ some (text, behind)
unfolding read_narrow
read_narrow-append [] behind h = refl
read_narrow-append (b ∷ bs) behind h = ground (arith, h.0, read_narrow-append bs behind h.1)

skip_narrow-append :
    (text behind : Bytes) → All (λ b. b ≢ 0) text → skip_narrow (text ++ (0 ∷ behind)) ≡ behind
unfolding skip_narrow
skip_narrow-append [] behind h = refl
skip_narrow-append (b ∷ bs) behind h = ground (arith, h.0, skip_narrow-append bs behind h.1)

sylt_lines_step :
    (fuel encoding format : ℕ) (bytes : Bytes) {text behind : Bytes}
    → read_null_terminated bytes encoding ≡ some (text, behind)
    → bytes ≢ []
    → sylt_lines (suc fuel) encoding format bytes
      ≡ sylt_append format text behind (sylt_lines fuel encoding format (drop 4 behind))
unfolding sylt_lines
sylt_lines_step fuel encoding format [] h ne = absurd (ne refl)
sylt_lines_step fuel encoding format (b ∷ bs) h ne = rw (h, sylt_lines) refl

append-ne-nil : (text behind : Bytes) (b : ℕ) → text ++ (b ∷ behind) ≢ []
append-ne-nil [] behind b h = cc
append-ne-nil (x ∷ xs) behind b h = cc

sylt_append_entry :
    (format : ℕ) (e : Entry) (rest : Bytes) (later : Option (List LyricLine)) (ls : List LyricLine)
    → IsEntry e
    → later ≡ some ls
    → sylt_append format e.text (stamp e.time rest) later ≡ some (entry_line format e ∷ ls)
unfolding sylt_append be32
sylt_append_entry format e rest later ls v h =
    ground (arith, v.fits, trim_null-no_null e.text v.no_null)

sylt_lines-entries :
    (fuel encoding format : ℕ) (es : List Entry)
    → is_wide encoding ≡ false
    → All IsEntry es
    → length (entries_bytes es) < fuel
    → sylt_lines fuel encoding format (entries_bytes es) ≡ some (map (entry_line format) es)
unfolding entries_bytes
sylt_lines-entries zero encoding format es n v h = elim h [ ]
sylt_lines-entries (suc fuel) encoding format [] n v h = unfold sylt_lines in refl
sylt_lines-entries (suc fuel) encoding format (e ∷ es) n v h =
    let behind = stamp e.time (entries_bytes es) in
    let read : read_null_terminated (e.text ++ (0 ∷ behind)) encoding ≡ some (e.text, behind) =
      unfold read_null_terminated in rw n (read_narrow-append e.text behind (v.0).no_null) in
    let later =
      sylt_lines-entries fuel encoding format es n v.1
        (omega (arith, length-append e.text (0 ∷ behind))) in
    sylt_lines_step fuel encoding format (e.text ++ (0 ∷ behind)) read
      (append-ne-nil e.text behind 0)
    ∙ sylt_append_entry format e (entries_bytes es) _ _ v.0 later

-- A SYLT frame in a one-byte encoding, with a descriptor and at least one entry, is parsed to its
-- language and one line for each entry, in order.
pub parse_sylt-entries :
    (encoding a b c format kind : ℕ) (descriptor : Bytes) (e : Entry) (es : List Entry)
    → is_wide encoding ≡ false
    → All (λ d. d ≢ 0) descriptor
    → All IsEntry (e ∷ es)
    → parse_sylt
        (encoding ∷ a ∷ b ∷ c ∷ format ∷ kind ∷ (descriptor ++ (0 ∷ entries_bytes (e ∷ es))))
      ≡ some (
          some (record {
            lang = a ∷ b ∷ c ∷ [];
            synced = true;
            lines = map (entry_line format) (e ∷ es);
          }))
unfolding parse_sylt
parse_sylt-entries encoding a b c format kind descriptor e es n d v =
    let written = entries_bytes (e ∷ es) in
    let skipped : skip_null_terminated (descriptor ++ (0 ∷ written)) encoding ≡ written =
      unfold skip_null_terminated in rw n (skip_narrow-append descriptor written d) in
    let lines =
      sylt_lines-entries (suc (length written)) encoding format (e ∷ es) n v (omega arith) in
    rw skipped (ground (arith, lines, length-append descriptor (0 ∷ written)))
