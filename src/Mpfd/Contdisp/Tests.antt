-- ===== src/Mpfd/Contdisp/Tests.antt =====
-- The content dispositions of a form field and of an attachment.
use okws.Prelude.{ℕ, false, Bytes, [], ◌≡◌, refl, arith, Option, none, some, codes, inl}
use okws.Abuf.{AbufStat, abuf_overflow, abuf_t, get, unget, peek}
use okws.Abuf.Scan.{skip_hws, requirechar, expectchar}
use okws.Hdr.{scan, delimit, eol}
use okws.Hdr.Force.{force_loop, force_match}
use okws.Pair.{str_eq}
use okws.Mpfd.Contdisp.LineFeed.{line_feed_fails}
use okws.Mpfd.Contdisp.{
  Contdisp, start, filename_val, contdisp_none, formdat, attach, round, parse_loop, parse_guts,
  status,
}
use okws.Mpfd.Contdisp.Parses.{Parsed, IsStarted, form_data-Parsed, attachment-Parsed}

abbrev parser : ℕ → Bytes → Contdisp
parser n text = record {
  hdr = record {
    abuf = record (abuf_t []) { cur = text; len = 100 };
    word = [];
    room = n;
    crlf_need_lf = false;
    nvers = 0;
    noins = false;
  };
  curr_match = none;
  fmcp = [];
  typ = contdisp_none;
  name = none;
  filename = none;
  state = start;
  typ_scr = none;
  filename_scr = none;
}

abbrev field : Contdisp
field = parser 64 (codes "form-data; name=\"up\"; filename=\"a.txt\"\r\n")

abbrev attachment : Contdisp
attachment = parser 64 (codes "attachment; filename=\"a.txt\"\r\n")

abbrev status_of : Option (AbufStat × Contdisp) → Option (AbufStat × Option ℕ)
status_of none = none
status_of (some (r, c)) = some (r, status r)

-- A name that is too long is not answered.
too_long :
    status_of (parse_guts 20 (parser 12 (codes "form-data; name=\"a long field name\"\r\n")))
    ≡ some (abuf_overflow, none)
unfolding parse_guts parse_loop round delimit scan get unget peek skip_hws force_match force_loop
    eol requirechar expectchar str_eq status
too_long = refl

started : (n : ℕ) (text : Bytes) → IsStarted (parser n text)
started n text = record { at_start = refl; unmatched = refl; word = refl }

form_data-Parsed_example :
    Parsed formdat (some (codes "up")) (codes "a.txt") (codes "\n") (parse_guts 2 field)
form_data-Parsed_example =
    form_data-Parsed 0 (codes "up") (codes "a.txt") b'"' (codes "\n") field (started 64 _)
      (omega arith) (ground arith) (omega arith) (ground arith) (omega arith)
      (record { no_lim = refl; spcs = refl; text = inl (refl, refl) })

attachment-Parsed_example :
    Parsed attach none (codes "filename=\"a.txt") (codes "\n") (parse_guts 2 attachment)
attachment-Parsed_example =
    attachment-Parsed 0 (codes "a.txt") b'"' (codes "\n") attachment (started 64 _) (ground arith)
      (omega arith) (record { no_lim = refl; spcs = refl; text = inl (refl, refl) })

abbrev bare : Contdisp
bare = record (parser 64 (codes "a.txt\"\n")) { state = filename_val }

line_feed_fails_example : (round 20 filename_val bare ≡ none) × (parse_guts 20 bare ≡ none)
line_feed_fails_example =
    line_feed_fails 20 (codes "a.txt\"") [] bare refl refl (ground arith) (omega arith)
      (record { no_lim = refl; spcs = refl; text = inl (refl, refl) })
