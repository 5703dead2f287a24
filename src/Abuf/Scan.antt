-- ===== src/Abuf/Scan.antt =====
-- The scanning methods of the buffer: white space, single characters and the mirror.
-- The loops take fuel, and `none` means that it ran out; with more fuel than bytes left it does not
-- (Abuf/Left).
use okws.Prelude.{
  ℕ, zero, suc, ◌+◌, ◌-◌, Bool, false, ◌&&◌, ◌||◌, Bytes, [], ◌∷◌, length, take, ltb, leb, ◌==◌,
  if◌then◌else◌, Option, none, some,
}
use okws.Abuf.{
  AbufStat, abuf_ok, abuf_parse_err, abuf_eof, abuf_wait, abuf_nomatch, Got, chr, eofchar, waitchar,
  Abuf, get, unget,
}

-- `isspace` of the C locale.
abbrev pub isspace : ℕ → Bool
isspace c = c == b' ' || (leb 9 c && leb c 13)

abbrev pub ishws : ℕ → Bool
ishws c = c == b' ' || c == b'\t'

abbrev pub is_chr : (ℕ → Bool) → Got → Bool
is_chr p (chr c) = p c
is_chr p _ = false

abbrev pub skipped : Got → Abuf → AbufStat × Abuf
skipped waitchar a = (abuf_wait, a)
skipped eofchar a = (abuf_eof, a)
skipped (chr c) a = (abuf_ok, unget a)

unfoldable pub skip_ws : ℕ → Abuf → Option (AbufStat × Abuf)
unfolding get unget
skip_ws zero a = none
skip_ws (suc fuel) a =
    let (ch, a') = get a in
    let again = skip_ws fuel a' in if is_chr isspace ch then again else some (skipped ch a')

-- Behind the loop: `spcs` is the number of blanks passed, over all the calls since the last wait.
abbrev pub hws_done : ℕ → Got → Abuf → AbufStat × Abuf
hws_done mn waitchar a = (abuf_wait, a)
hws_done mn ch a =
    ((if ltb a.spcs mn then abuf_parse_err else abuf_ok), unget (record a { spcs = 0 }))

unfoldable pub skip_hws : ℕ → ℕ → Abuf → Option (AbufStat × Abuf)
unfolding get unget
skip_hws zero mn a = none
skip_hws (suc fuel) mn a =
    let (ch, a') = get a in
    let again = skip_hws fuel mn (record a' { spcs = a'.spcs + 1 }) in
    if is_chr ishws ch then again else some (hws_done mn ch a')

abbrev pub mismatch : Got → AbufStat
mismatch waitchar = abuf_wait
mismatch eofchar = abuf_eof
mismatch (chr c) = abuf_nomatch

unfoldable pub expectchar : ℕ → Abuf → AbufStat × Abuf
unfolding get unget
expectchar c a =
    let (ch, a') = get a in
    if is_chr (λ d. c == d) ch then (abuf_ok, a') else (mismatch ch, unget a')

abbrev pub required : AbufStat → AbufStat
required abuf_nomatch = abuf_parse_err
required r = r

unfoldable pub requirechar : ℕ → Abuf → AbufStat × Abuf
unfolding expectchar
requirechar c a = let (r, a') = expectchar c a in (required r, a')

-- Cuts the line ends off the end.
pub strip_eol : Bytes → Bytes
strip_eol [] = []
strip_eol (c ∷ cs) = elim (strip_eol cs) [
  | [] ↦ if c == b'\r' || c == b'\n' then [] else c ∷ []
  | d ∷ ds ↦ c ∷ d ∷ ds
]

abbrev mirror_text : Option (Bytes × ℕ) → Bytes
mirror_text none = []
mirror_text (some (out, room)) = out

unfoldable pub end_mirror : Abuf → Bytes × Abuf
unfolding strip_eol
end_mirror a = (strip_eol (mirror_text a.mirrored), record a { mirrored = none })

-- One CRLF at the end is cut off.
pub strip_crlf : Bytes → Bytes
strip_crlf [] = []
strip_crlf (c ∷ []) = c ∷ []
strip_crlf (c ∷ d ∷ []) = if c == b'\r' && d == b'\n' then [] else c ∷ d ∷ []
strip_crlf (c ∷ d ∷ e ∷ cs) = c ∷ strip_crlf (d ∷ e ∷ cs)

-- `none` if the assertion fails that the mirror holds `sublen` bytes.
unfoldable pub end_mirror2 : ℕ → Abuf → Option (Bytes × Abuf)
unfolding strip_crlf
end_mirror2 sublen a =
    let text = mirror_text a.mirrored in
    if leb sublen (length text)
    then some (strip_crlf (take (length text - sublen) text), record a { mirrored = none })
    else none
