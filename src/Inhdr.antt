-- ===== src/Inhdr.antt =====
-- libahttp/inhdr.C: the parser of a request line and its headers, as a machine over the scanning
-- methods. The query string and the cookies are parsed by a CGI parser that reads from the same
-- buffer; while it waits, so does this one. `none` is the lack of fuel, or a panic of that parser.
pub mod Guts
pub mod Finish
pub mod Newline
mod Tests
use okws.Prelude.{
  ℕ, zero, suc, ◌+◌, ◌-◌, Bool, true, false, not, ◌&&◌, ◌||◌, Bytes, codes, [], ◌∷◌, ltb, leb, ◌==◌,
  if◌then◌else◌, Option, none, some,
}
use okws.Abuf.{
  AbufStat, abuf_ok, abuf_parse_err, abuf_eof, abuf_overflow, abuf_wait, abuf_nomatch, Abuf, abuf_t,
  AbufIndata, is_ok, is_wait, can_read, mirror,
}
use okws.Abuf.Scan.{skip_hws, expectchar, end_mirror}
use okws.Pair.{Pairtab, insert, str_eq}
use okws.Cgi.State.{Config, Cgi, cgi_t}
use okws.Cgi.Guts.{parse_guts, ◌>>=◌}
use okws.Hdr.{Hdr, delimit_word, eol, gobble_crlf, require_crlf, delimit_key, delimit_val}

-- `inhdrst_t`, with the state behind the last one.
pub data InhdrState : Type 0 where
  start spc1 target uridat spc2 optparam eol1 key spc3 value eol2a eol2b past : InhdrState

-- The parser of another part that is at work.
pub data Ext : Type 0 where
  no_ext url_ext cookie_ext : Ext

-- `http_inhdr_t`
pub record Inhdr : Type 0 where
  pub hdr : Hdr
  pub state : InhdrState
  pub ext : Ext
  pub tmthd : Option Bytes
  pub target_str : Option Bytes
  pub vers : Option Bytes
  pub line1 : Bytes
  pub key_str : Option Bytes
  pub val : Option Bytes
  pub tab : Pairtab
  pub url : Option Cgi
  pub cookie : Option Cgi
  pub pipeline_eof_ok : Bool
  pub parse_query_string : Bool

-- The options, with the sizes of the scratch areas.
pub record Options : Type 0 where
  pub cgi : Config
  pub http_parse_cookies : Bool
  pub inhdr_buflen_sml : ℕ
  pub scr2_len : ℕ

-- `INC_STATE`
abbrev pub inc_state : InhdrState → InhdrState
inc_state start = spc1
inc_state spc1 = target
inc_state target = uridat
inc_state uridat = spc2
inc_state spc2 = optparam
inc_state optparam = eol1
inc_state eol1 = key
inc_state key = spc3
inc_state spc3 = value
inc_state value = eol2a
inc_state eol2a = eol2b
inc_state eol2b = past
inc_state past = past

-- What a round of the loop does: go on to the next state, go on in the state that was set, leave the
-- loop with a status, end the headers, or hand over to another parser.
pub data Round : Type 0 where
  next same done handed : Round
  stopped : AbufStat → Round

-- `r == ABUF_OK` goes on to the next state.
abbrev pub by_status : AbufStat → Round
by_status abuf_ok = next
by_status r = stopped r

abbrev pub or_old : Option Bytes → Option Bytes → Option Bytes
or_old none old = old
or_old (some s) old = some s

abbrev pub with_abuf : Abuf → Inhdr → Inhdr
with_abuf a h = record h { hdr = record h.hdr { abuf = a } }

-- The last character of the version, if it is a digit.
unfoldable pub version : Bytes → ℕ → ℕ
version [] old = old
version (c ∷ []) old = if leb b'0' c && leb c b'9' then c - b'0' else old
version (c ∷ d ∷ cs) old = version (d ∷ cs) old

abbrev pub version_of : Option Bytes → ℕ → ℕ
version_of none old = old
version_of (some s) old = version s old

abbrev pub is_cookie : Option Bytes → Bool
is_cookie none = false
is_cookie (some k) = str_eq k (codes "cookie")

unfoldable pub skip : ℕ → ℕ → Inhdr → Option (Round × Inhdr)
skip fuel mn h = do (r, a) ← skip_hws fuel mn h.hdr.abuf; some (by_status r, with_abuf a h)

-- `INHDRST_SPC2`
unfoldable pub on_spc2 : ℕ → Inhdr → Option (Round × Inhdr)
unfolding skip
on_spc2 fuel h =
    let (r, d) = eol h.hdr in
    let h' = record h { hdr = d } in if is_ok r then some (next, h') else skip fuel 1 h'

-- `INHDRST_OPTPARAM`
abbrev pub optparam_word : Inhdr → Round × Inhdr
optparam_word h =
    let (r, v, d) = delimit_word false h.hdr in
    let vers = or_old v h.vers in
    (by_status r, record h { vers = vers; hdr = record d { nvers = version_of vers d.nvers } })

abbrev pub is_nomatch : AbufStat → Bool
is_nomatch abuf_nomatch = true
is_nomatch _ = false

unfoldable pub on_optparam : Inhdr → Round × Inhdr
unfolding version
on_optparam h =
    let (r, d) = eol h.hdr in
    let h' = record h { hdr = d } in if is_nomatch r then optparam_word h' else (by_status r, h')

-- `INHDRST_KEY`
abbrev pub key_word : Inhdr → Round × Inhdr
key_word h =
    let (r, v, d) = delimit_key h.hdr in
    (by_status r, record h { hdr = d; key_str = or_old v h.key_str })

unfoldable pub on_key : Inhdr → Round × Inhdr
on_key h =
    let (r, d) = gobble_crlf h.hdr in
    let h' = record h { hdr = d } in
    if is_ok r then (done, h') else if is_nomatch r then key_word h' else (stopped r, h')

-- `INHDRST_EOL2A`
unfoldable pub on_eol2a : Inhdr → Round × Inhdr
on_eol2a h =
    let clear = λ (x : Inhdr). record x { key_str = none; val = none } in
    if h.hdr.noins
    then (next, clear (record h { hdr = record h.hdr { noins = false } }))
    else elim h.key_str [
      | none ↦ (stopped abuf_parse_err, clear h)
      | some k ↦ (next, clear (record h { tab = insert (some k) h.val true true h.tab }))
    ]

unfoldable pub on_eol2b : Inhdr → Round × Inhdr
on_eol2b h =
    let (r, d) = require_crlf h.hdr in
    let h' = record h { hdr = d } in
    if is_ok r then (same, record h' { state = key }) else (stopped r, h')

-- The CGI parser of the query string or the cookies; a new one starts here.
abbrev pub or_new : Option Cgi → Cgi → Cgi
or_new none c = c
or_new (some c) new = c

-- `INHDRST_TARGET`, `INHDRST_URIDAT` and `INHDRST_VALUE`.
unfoldable pub on_target : Inhdr → Round × Inhdr
on_target h =
    let (r, v, d) = delimit_word h.parse_query_string h.hdr in
    let h' = record h { hdr = d; target_str = or_old v h.target_str } in
    if not h.parse_query_string && is_ok r
    then (same, record h' { state = spc2 })
    else (by_status r, h')

unfoldable pub on_uridat : Options → Inhdr → Round × Inhdr
on_uridat o h =
    let (r, a) = expectchar b'?' h.hdr.abuf in
    let h' = with_abuf a h in
    let c = record (or_new h.url (cgi_t a false o.inhdr_buflen_sml)) { uri_mode = true } in
    if is_ok r
    then (handed, record (with_abuf (can_read a) h') { ext = url_ext; url = some c })
    else (by_status (if is_nomatch r then abuf_ok else r), h')

unfoldable pub on_value : Options → Inhdr → Round × Inhdr
on_value o h =
    let (r, v, d) = delimit_val h.hdr in
    let c = or_new h.cookie (cgi_t h.hdr.abuf true o.inhdr_buflen_sml) in
    if o.http_parse_cookies && is_cookie h.key_str
    then (
      handed,
      record h {
        hdr = record h.hdr { noins = true; abuf = can_read h.hdr.abuf };
        ext = cookie_ext;
        cookie = some c;
      },
    )
    else (by_status r, record h { hdr = d; val = or_old v h.val })

unfoldable pub round : ℕ → Options → InhdrState → Inhdr → Option (Round × Inhdr)
unfolding skip
round fuel o start h =
    let h' = with_abuf (mirror o.scr2_len h.hdr.abuf) h in
    let (r, v, d) = delimit_word false h'.hdr in
    some (by_status r, record h' { hdr = d; tmthd = or_old v h.tmthd })
round fuel o spc1 h = skip fuel 1 h
round fuel o target h = some (on_target h)
round fuel o uridat h = some (on_uridat o h)
round fuel o spc2 h = on_spc2 fuel h
round fuel o optparam h = some (on_optparam h)
round fuel o eol1 h =
    let (line, a) = end_mirror h.hdr.abuf in
    let (r, d) = require_crlf (record h.hdr { abuf = a }) in
    some (by_status r, record h { hdr = d; line1 = line })
round fuel o key h = some (on_key h)
round fuel o spc3 h = skip fuel 0 h
round fuel o value h = some (on_value o h)
round fuel o eol2a h = some (on_eol2a h)
round fuel o eol2b h = some (on_eol2b h)
round fuel o past h = some (stopped abuf_parse_err, h)

-- The other parser runs on the buffer; at its end `ext_parse_cb` goes on to the next state.
unfoldable pub run_ext : ℕ → Options → Cgi → Inhdr → Option (Bool × Cgi × Inhdr)
run_ext fuel o c h = do
  (r, c') ← parse_guts fuel o.cgi (record c { abuf = h.hdr.abuf })
  let h' = with_abuf c'.abuf h
  let finished = record (with_abuf (can_read c'.abuf) h') {
    ext = no_ext;
    state = inc_state h.state;
  }
  some (if is_wait r then (true, c', h') else (false, c', finished))
