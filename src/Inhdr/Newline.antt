-- ===== src/Inhdr/Newline.antt =====
-- Where the parse depends on how the request was cut into pieces.
use okws.Prelude.{ℕ, zero, suc, ◌<◌, ◌≡◌, refl, arith, false, Bytes, Option}
use okws.Abuf.{abuf_parse_err, chr, Abuf, get, mirror}
use okws.Hdr.{Hdr, gobble_crlf, scan, key_turn, delimit_key}
use okws.Inhdr.{Inhdr, start, done, with_abuf, Options, on_key, round}

scan-newline :
    (d : Hdr) (a : Abuf) (n : ℕ)
    → n ≡ d.room
    → 0 < n
    → get d.abuf ≡ (chr b'\n', a)
    → (scan key_turn n d).0 ≡ abuf_parse_err
unfolding scan key_turn
scan-newline d a zero e pos g = absurd (omega arith)
scan-newline d a (suc n) e pos g = rw g refl

delimit_key-newline :
    (d : Hdr) (a : Abuf)
    → 0 < d.room
    → get d.abuf ≡ (chr b'\n', a)
    → (delimit_key d).0 ≡ abuf_parse_err
unfolding delimit_key
delimit_key-newline d a pos g = let e = scan-newline d a d.room refl pos g in ground (arith, e)

-- If a line feed is the next byte, no carriage return is pending and the scratch area has room, then
-- `delimit_key` reports a parse error, but the state of the header's name ends the headers with
-- success, whatever part of a name the scratch area holds.
on_key_newline :
    (h : Inhdr) (a : Abuf)
    → h.hdr.crlf_need_lf ≡ false
    → 0 < h.hdr.room
    → get h.hdr.abuf ≡ (chr b'\n', a)
    → ((delimit_key h.hdr).0 ≡ abuf_parse_err) × ((on_key h).0 ≡ done)
unfolding on_key gobble_crlf
on_key_newline h a no_cr pos g = (delimit_key-newline h.hdr a pos g, ground (arith, no_cr, g))

-- A round of the start state has the same result whatever the mirror held before it: what was
-- mirrored before a wait is lost.
round_start_forgets :
    (fuel : ℕ) (o : Options) (h : Inhdr) (m : Option (Bytes × ℕ))
    → round fuel o start (with_abuf (record h.hdr.abuf { mirrored = m }) h) ≡ round fuel o start h
unfolding round mirror
round_start_forgets fuel o h m = refl
