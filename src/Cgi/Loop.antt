-- ===== src/Cgi/Loop.antt =====
-- `parse_key_or_val` of libahttp/cgi.C: one key or one value. `none` as a result means that the fuel
-- of the loop ran out; Cgi/Total has how much is enough.
use okws.Prelude.{
  ℕ, zero, suc, Bool, true, false, ◌&&◌, ◌||◌, not, Bytes, [], length, leb, ◌==◌, if◌then◌else◌,
  Option, none, some,
}
use okws.Abuf.{
  AbufStat, abuf_ok, abuf_eof, abuf_overflow, abuf_wait, abuf_separator, Got, chr, eofchar,
  waitchar, get, unget,
}
use okws.Escape.{xss_escape}
use okws.Cgi.State.{
  CgiVar, cgi_key, cgi_val, cgi_ckey, cgi_cval, cgi_none, XssFilter, xssfilt_all, Config, Cgi,
  key_state, cookie_state, extend_scratch, push, parse_hexchar,
}

-- Whether the loop of `parse_key_or_val` goes on, and the status with which it ends.
pub data Flow : Type 0 where
  go : Flow
  stop : AbufStat → Flow

-- `abuf->unget (); ret = ABUF_EOF;`
abbrev pub ended : Cgi → Flow × Cgi
ended c = (stop abuf_eof, record c { abuf = unget c.abuf })

abbrev pub stored : ℕ → Cgi → Flow × Cgi
stored ch c = (go, push ch c)

-- A `%`.
unfoldable pub on_percent : Cgi → Flow × Cgi
on_percent c =
    let (rc, c') = parse_hexchar (record c { inhex = true }) in
    elim rc [
      | abuf_wait ↦ (stop abuf_wait, c')
      | abuf_eof ↦ (stop abuf_eof, c')
      | _ ↦ (go, record c' { inhex = false })
    ]

-- The test `c` on the state, as the cases of the switch make it.
abbrev pub is_var : CgiVar → CgiVar → Bool
is_var cgi_key cgi_key = true
is_var cgi_val cgi_val = true
is_var cgi_ckey cgi_ckey = true
is_var cgi_cval cgi_cval = true
is_var cgi_none cgi_none = true
is_var _ _ = false

-- The switch on a byte.
unfoldable pub on_byte : CgiVar → ℕ → Cgi → Flow × Cgi
on_byte vt ch c =
    if ch == b'&'
    then (if is_var vt cgi_key
        then (stop abuf_separator, c)
        else if is_var vt cgi_val
        then (stop abuf_ok, c)
        else stored ch c)
    else if ch == b'='
    then (if key_state vt then (stop abuf_ok, c) else stored ch c)
    else if ch == b';'
    then (if is_var vt cgi_ckey
        then (stop abuf_separator, c)
        else if is_var vt cgi_cval
        then (stop abuf_ok, c)
        else stored ch c)
    else if ch == b'\r'
    then (if c.uri_mode
        then (stop abuf_eof, c)
        else if not (cookie_state vt)
        then stored ch c
        else (go, c))
    else if ch == b'\n'
    then (if cookie_state vt || c.uri_mode then ended c else stored ch c)
    else if ch == b'%'
    then on_percent c
    else if ch == b'+'
    then stored b' ' c
    else if (ch == b' ' || ch == b'\t') && c.uri_mode
    then ended c
    else stored ch c

-- The switch.
unfoldable pub on_got : CgiVar → Got → Cgi → Flow × Cgi
on_got vt eofchar c = (stop abuf_eof, c)
on_got vt waitchar c = (stop abuf_wait, c)
on_got vt (chr ch) c = on_byte vt ch c

-- One round: room for a byte, the byte, the switch.
unfoldable pub parse_round : Config → CgiVar → Cgi → Flow × Cgi
parse_round cfg vt c =
    let full = leb c.room (length c.text) in
    let (more, grown) = extend_scratch cfg c in
    let c' = if full then grown else c in
    let (ch, a) = get c'.abuf in
    if full && not more then (stop abuf_overflow, c) else on_got vt ch (record c' { abuf = a })

unfoldable pub parse_loop : ℕ → Config → CgiVar → Cgi → Option (AbufStat × Cgi)
parse_loop zero cfg vt c = none
parse_loop (suc fuel) cfg vt c =
    let (flow, c') = parse_round cfg vt c in
    elim flow [ go ↦ parse_loop fuel cfg vt c' | stop r ↦ some (r, c') ]

-- `ok_filter_cgi == XSSFILT_ALL`
abbrev pub filtered : XssFilter → Cgi → Bytes × Cgi
filtered xssfilt_all c = let (w, xss') = xss_escape c.xss c.text in (w.out, record c { xss = xss' })
filtered _ c = (c.text, c)

-- Behind the loop: the text, unless the buffer is full, and an empty buffer for the next time.
abbrev pub finished : Config → AbufStat → Cgi → AbufStat × Option Bytes × Cgi
finished cfg abuf_wait c = (abuf_wait, none, c)
finished cfg abuf_overflow c = (abuf_overflow, none, record c { text = [] })
finished cfg r c =
    let (s, c') = filtered cfg.filter_cgi c in
    if leb c.room (length c.text)
    then (abuf_overflow, none, record c { text = [] })
    else (r, some s, record c' { text = [] })

abbrev pub after_loop : Config → Option (AbufStat × Cgi) → Option (AbufStat × Option Bytes × Cgi)
after_loop cfg none = none
after_loop cfg (some (r, c)) = some (finished cfg r c)

-- `parse_key_or_val`: the status, `*r` (which stays null after a wait), and the parser.
unfoldable pub parse_key_or_val : ℕ → Config → Bool → Cgi → Option (AbufStat × Option Bytes × Cgi)
parse_key_or_val fuel cfg use_internal_state c =
    let vt = if use_internal_state then c.pstate else cgi_none in
    let (rc, c') = parse_hexchar c in
    if c.inhex
    then elim rc [
      | abuf_wait ↦ some (abuf_wait, none, c')
      | abuf_eof ↦ some (abuf_eof, none, c')
      | _ ↦ after_loop cfg (parse_loop fuel cfg vt (record c' { inhex = false }))
    ]
    else after_loop cfg (parse_loop fuel cfg vt c)
