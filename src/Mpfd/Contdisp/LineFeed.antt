-- ===== src/Mpfd/Contdisp/LineFeed.antt =====
-- A content disposition whose line ends in a bare line feed.
use okws.Prelude.{
  ℕ, zero, suc, ◌<◌, ◌≡◌, refl, ap, ◌∙◌, arith, false, Bytes, [], ◌∷◌, ◌++◌, length, Option, none,
  some,
}
use okws.Abuf.{Got, chr, abuf_parse_err, unget}
use okws.Hdr.{Hdr, leave_unget, scan, delimit, delimit_turn}
use okws.Mpfd.Contdisp.{Contdisp, filename_val, round, round_end, parse_loop, parse_guts}
use okws.Mpfd.Contdisp.Feeds.{Feeds, IsPlain, get-Fed, turn_keeps}

line_feed_turn : delimit_turn b'\r' false false (chr b'\n') ≡ leave_unget abuf_parse_err
unfolding delimit_turn
line_feed_turn = refl

scan_line_feed :
    (t s : Bytes) (n : ℕ) (h : Hdr)
    → IsPlain b'\r' t
    → Feeds h.abuf (t ++ b'\n' ∷ s)
    → length t < n
    → (ch : Option Got) × (d : Hdr) × (scan (delimit_turn b'\r' false false) n h
        ≡ (abuf_parse_err, ch, d))
unfolding scan
scan_line_feed t s zero h plain f lt = absurd (omega (arith, lt))
scan_line_feed [] s (suc n) h plain f lt =
    let g = get-Fed 0 h.abuf b'\n' s f in
    (some (chr b'\n'), record h { abuf = unget g.buf }, rw (g.result, line_feed_turn) refl)
scan_line_feed (c ∷ t) s (suc n) h ((ne, not_eol), plain) f lt =
    let g = get-Fed 0 h.abuf c (t ++ b'\n' ∷ s) f in
    let (ch, d, e) =
      scan_line_feed t s n (record h { abuf = g.buf; word = h.word ++ c ∷ []; room = n }) plain
        g.feeds (omega (arith, lt)) in
    (ch, d, rw (g.result, turn_keeps b'\r' false false c ne not_eol) e)

-- A parser that reads the file's name and has read none before, over a buffer that delivers a text
-- without an end of a line, which fits the scratch area, and a line feed: the call fails, since it takes the name from a null
-- string.
pub line_feed_fails :
    (fuel : ℕ) (t s : Bytes) (c : Contdisp)
    → c.state ≡ filename_val
    → c.filename_scr ≡ none
    → IsPlain b'\r' t
    → length t < c.hdr.room
    → Feeds c.hdr.abuf (t ++ b'\n' ∷ s)
    → (round fuel c.state c ≡ none) × (parse_guts fuel c ≡ none)
unfolding parse_guts parse_loop round delimit
line_feed_fails fuel t s c at empty plain lt f =
    let (ch, d, e) = scan_line_feed t s c.hdr.room c.hdr plain f lt in
    let fails : round fuel filename_val c ≡ none = rw (e, empty) refl in
    let fails' : round fuel c.state c ≡ none = ap (λ q. round fuel q c) at ∙ fails in
    (fails', ap (round_end (λ c'. parse_loop fuel 8 c')) fails')
