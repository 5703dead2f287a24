-- ===== src/Inhdr/Tests.antt =====
-- Requests that come in pieces, and the theorems at concrete parsers.
use okws.Prelude.{◌≡◌, refl, true, false, Bytes, List, [], ◌∷◌, codes, Option, none, some}
use okws.Abuf.{abuf_ok, abuf_eof, abuf_wait, abuf_parse_err, chr, AbufIndata, Abuf, abuf_t, get}
use okws.Pair.{lookup}
use okws.Cgi.State.{defaults}
use okws.Hdr.{Hdr, delimit_key}
use okws.Inhdr.{
  Inhdr, InhdrState, start, key, no_ext, Options, Round, done, stopped, with_abuf, on_key, round,
}
use okws.Inhdr.Guts.{parse_guts}

abbrev options : Options
options = record {
  cgi = defaults;
  http_parse_cookies = true;
  inhdr_buflen_sml = 4096;
  scr2_len = 1024;
}

abbrev chunk : Bytes → AbufIndata
chunk s = record { erc = abuf_ok; bytes = s }

abbrev parser : List AbufIndata → Inhdr
parser src = record {
  hdr = record {
    abuf = abuf_t src;
    word = [];
    room = 64;
    crlf_need_lf = false;
    nvers = 0;
    noins = false;
  };
  state = start;
  ext = no_ext;
  tmthd = none;
  target_str = none;
  vers = none;
  line1 = [];
  key_str = none;
  val = none;
  tab = [];
  url = none;
  cookie = none;
  pipeline_eof_ok = true;
  parse_query_string = false;
}

abbrev request : List AbufIndata
request = chunk (codes "GET / HTTP/1.1\r\nHo") ∷ chunk (codes "st: me\r\n\r\n") ∷ []

abbrev host_of : Option (Round × Inhdr) → Option Bytes
host_of none = none
host_of (some (r, h)) = lookup (codes "host") h.tab

run_request : host_of (parse_guts 40 options (parser request)) ≡ some (codes "me")
unfolding parse_guts get lookup okws.Hdr.delimit_word okws.Abuf.mirror okws.Abuf.Scan.skip_hws
    okws.Inhdr.on_target okws.Inhdr.on_spc2 okws.Hdr.eol okws.Inhdr.on_optparam
    okws.Hdr.require_crlf okws.Abuf.Scan.end_mirror on_key delimit_key okws.Inhdr.on_value
    okws.Hdr.delimit_val okws.Inhdr.on_eol2a okws.Inhdr.on_eol2b okws.Pair.insert
run_request = refl

-- In the middle of a header's name, with a line feed to come.
abbrev middle : Inhdr
middle =
    let h = parser (chunk (codes "\n") ∷ []) in
    record h { state = key; hdr = record h.hdr { word = codes "ho" } }
