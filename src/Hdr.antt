-- ===== src/Hdr.antt =====
-- libahttp/hdr.C: the scanning methods of the HTTP header parsers. Each reads from the buffer into
-- the scratch area and keeps what it has read there when it has to wait.
pub mod Resume
pub mod Delimit
pub mod Force
mod Tests
use okws.Prelude.{
  ℕ, zero, suc, ◌+◌, ◌-◌, Bool, true, false, ◌&&◌, ◌||◌, Bytes, List, [], ◌∷◌, ◌++◌, length, ◌==◌,
  if◌then◌else◌, Option, none, some,
}
use okws.Abuf.{
  AbufStat, abuf_ok, abuf_parse_err, abuf_eof, abuf_overflow, abuf_wait, abuf_nomatch, Got, chr,
  eofchar, waitchar, Abuf, is_ok, get, unget, peek,
}
use okws.Abuf.Scan.{required}
use okws.Kmp.{tolower}

-- `http_hdr_t`: `word` are the bytes from the start of the scratch area to `pcp`, and `room` is the
-- number of those from `pcp` to `endp`.
pub record Hdr : Type 0 where
  pub abuf : Abuf
  pub word : Bytes
  pub room : ℕ
  pub crlf_need_lf : Bool
  pub nvers : ℕ
  pub noins : Bool

-- What a method makes of a character: it goes into the scratch area, or the loop is left.
pub data Turn : Type 0 where
  keep : ℕ → Turn
  leave leave_unget : AbufStat → Turn

-- The end of a round: `again` goes on with a byte that is kept.
abbrev pub turned :
    (ℕ → AbufStat × Option Got × Hdr) → Got → Hdr → Turn → AbufStat × Option Got × Hdr
turned again ch h (keep c) = again c
turned again ch h (leave r) = (r, some ch, h)
turned again ch h (leave_unget r) = (r, some ch, record h { abuf = unget h.abuf })

-- The loop that the methods share. It is left with the character read last, or at the end of the
-- scratch area.
unfoldable pub scan : (Got → Turn) → ℕ → Hdr → AbufStat × Option Got × Hdr
unfolding get unget
scan turn zero h = (abuf_overflow, none, h)
scan turn (suc n) h =
    let (ch, a) = get h.abuf in
    let again =
      λ (c : ℕ). scan turn n (record h { abuf = a; word = h.word ++ (c ∷ []); room = n }) in
    turned again ch (record h { abuf = a }) (turn ch)

-- `pcp = sb`
abbrev pub cleared : Hdr → Hdr
cleared h = record h { word = []; room = length h.word + h.room }

-- The result is the text in the scratch area, if the scan went well.
abbrev pub taken : AbufStat × Option Got × Hdr → AbufStat × Option Bytes × Hdr
taken (abuf_ok, ch, h) = (abuf_ok, some h.word, cleared h)
taken (r, ch, h) = (r, none, h)

abbrev pub is_eol : ℕ → Bool
is_eol c = c == b'\r' || c == b'\n'

abbrev pub is_blank : ℕ → Bool
is_blank c = c == b' ' || c == b'\t'

-- `delimit_word`; `qms` lets a question mark end the word.
unfoldable pub word_turn : Bool → Got → Turn
word_turn qms waitchar = leave abuf_wait
word_turn qms eofchar = leave abuf_ok
word_turn qms (chr c) =
    if is_blank c || is_eol c || (qms && c == b'?') then leave abuf_ok else keep c

abbrev pub word_done : AbufStat × Option Got × Hdr → AbufStat × Option Bytes × Hdr
word_done (abuf_ok, some eofchar, h) = elim h.word [
  | [] ↦ (abuf_eof, none, h)
  | c ∷ cs ↦ (abuf_ok, some (c ∷ cs), record (cleared h) { abuf = unget h.abuf })
]
word_done (abuf_ok, ch, h) = (abuf_ok, some h.word, record (cleared h) { abuf = unget h.abuf })
word_done (r, ch, h) = (r, none, h)

unfoldable pub delimit_word : Bool → Hdr → AbufStat × Option Bytes × Hdr
unfolding scan word_turn
delimit_word qms h = word_done (scan (word_turn qms) h.room h)

unfoldable pub eol : Hdr → AbufStat × Hdr
unfolding peek
eol h =
    let (ch, a) = peek h.abuf in
    let r : AbufStat = elim ch [
      | waitchar ↦ abuf_wait
      | eofchar ↦ abuf_nomatch
      | chr c ↦ if is_eol c then abuf_ok else abuf_nomatch
    ] in
    (r, record h { abuf = a })

-- The rounds of `gobble_crlf` with `CRLF_need_LF`.
abbrev pub got_after_cr : Got → Hdr → AbufStat × Hdr
got_after_cr waitchar h = (abuf_wait, h)
got_after_cr eofchar h = (abuf_eof, h)
got_after_cr (chr c) h =
    if c == b'\n'
    then (abuf_ok, record h { crlf_need_lf = false })
    else if c == b'\r'
    then (abuf_parse_err, record h { crlf_need_lf = false })
    else (abuf_parse_err, record h { crlf_need_lf = false; abuf = unget h.abuf })

unfoldable pub after_cr : Hdr → AbufStat × Hdr
unfolding get
after_cr h = let (ch, a) = get h.abuf in got_after_cr ch (record h { abuf = a })

abbrev pub got_crlf : Got → Hdr → AbufStat × Hdr
got_crlf waitchar h = (abuf_wait, h)
got_crlf eofchar h = (abuf_eof, h)
got_crlf (chr c) h =
    if c == b'\n'
    then (abuf_ok, record h { crlf_need_lf = false })
    else if c == b'\r'
    then after_cr (record h { crlf_need_lf = true })
    else (abuf_nomatch, record h { abuf = unget h.abuf })

unfoldable pub gobble_crlf : Hdr → AbufStat × Hdr
unfolding get after_cr
gobble_crlf h =
    let (ch, a) = get h.abuf in
    if h.crlf_need_lf then after_cr h else got_crlf ch (record h { abuf = a })

unfoldable pub require_crlf : Hdr → AbufStat × Hdr
unfolding gobble_crlf
require_crlf h = let (r, h') = gobble_crlf h in (required r, h')

-- `delimit_val`, and `delimit_status`, which calls it.
unfoldable pub val_turn : Got → Turn
val_turn waitchar = leave abuf_wait
val_turn eofchar = leave abuf_eof
val_turn (chr c) = if is_eol c then leave_unget abuf_ok else keep c

unfoldable pub delimit_val : Hdr → AbufStat × Option Bytes × Hdr
unfolding scan val_turn
delimit_val h = taken (scan val_turn h.room h)

-- `delimit`
unfoldable pub delimit_turn : ℕ → Bool → Bool → Got → Turn
unfolding tolower
delimit_turn stopchar tol gobble waitchar = leave abuf_wait
delimit_turn stopchar tol gobble eofchar = leave abuf_eof
delimit_turn stopchar tol gobble (chr c) =
    if c == stopchar
    then (if gobble then leave abuf_ok else leave_unget abuf_ok)
    else if is_eol c
    then leave_unget abuf_parse_err
    else keep (if tol then tolower c else c)

unfoldable pub delimit : ℕ → Bool → Bool → Hdr → AbufStat × Option Bytes × Hdr
unfolding scan delimit_turn
delimit stopchar tol gobble h = taken (scan (delimit_turn stopchar tol gobble) h.room h)

-- `delimit_key`
unfoldable pub key_turn : Got → Turn
unfolding tolower
key_turn waitchar = leave abuf_wait
key_turn eofchar = leave abuf_eof
key_turn (chr c) =
    if c == b':'
    then leave abuf_ok
    else if is_blank c || is_eol c
    then leave abuf_parse_err
    else keep (tolower c)

unfoldable pub delimit_key : Hdr → AbufStat × Option Bytes × Hdr
unfolding scan key_turn
delimit_key h = taken (scan key_turn h.room h)

unfoldable pub reset : Hdr → Hdr
reset h = record (cleared h) { crlf_need_lf = false; nvers = 0; noins = false }
