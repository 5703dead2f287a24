-- ===== src/Mpfd/Contdisp.antt =====
-- libahttp/mpfd.C: the parser of a content disposition, which a part of a form begins with.
pub mod Feeds
pub mod Parses
pub mod Rounds
pub mod LineFeed
mod Tests
use okws.Prelude.{
  ℕ, zero, suc, Bool, true, false, ◌&&◌, ◌||◌, Bytes, codes, List, [], ◌∷◌, Option, none, some,
  if◌then◌else◌,
}
use okws.Abuf.{AbufStat, abuf_ok, abuf_parse_err, abuf_eof, abuf_nomatch, Abuf, is_ok}
use okws.Abuf.Scan.{skip_hws, requirechar}
use okws.Hdr.{Hdr, delimit, eol, reset as hdr_reset}
use okws.Hdr.Force.{Forcing, force_match}
use okws.Inhdr.{or_old, is_nomatch}
use okws.Pair.{str_eq}

-- `contdisp_state_t`, with the state behind the last one.
pub data ContdispState : Type 0 where
  start sep1 name_key name_val sep2a sep2b sep2c filename_key filename_val past : ContdispState

pub data ContdispType : Type 0 where
  contdisp_none formdat attach : ContdispType

-- `contdisp_parser_t`
pub record Contdisp : Type 0 where
  pub hdr : Hdr
  pub curr_match : Option ℕ
  pub fmcp : Bytes
  pub typ : ContdispType
  pub name : Option Bytes
  pub filename : Option Bytes
  pub state : ContdispState
  pub typ_scr : Option Bytes
  pub filename_scr : Option Bytes

-- `state + 1`
abbrev pub inc_state : ContdispState → ContdispState
inc_state start = sep1
inc_state sep1 = name_key
inc_state name_key = name_val
inc_state name_val = sep2a
inc_state sep2a = sep2b
inc_state sep2b = sep2c
inc_state sep2c = filename_key
inc_state filename_key = filename_val
inc_state filename_val = past
inc_state past = past

abbrev pub with_abuf : Abuf → Contdisp → Contdisp
with_abuf a c = record c { hdr = record c.hdr { abuf = a } }

-- `mystrcmp (typ_scr.cstr (), s)`
abbrev pub typ_is : Option Bytes → Bytes → Bool
typ_is none s = false
typ_is (some t) s = str_eq t s

-- Behind the blanks of the first separator.
abbrev pub set_typ : Contdisp → Contdisp
set_typ c =
    if typ_is c.typ_scr (codes "form-data")
    then record c { typ = formdat }
    else if typ_is c.typ_scr (codes "attachment")
    then record c { state = filename_key; typ = attach }
    else c

-- `force_match` of the string at an address.
abbrev pub forced : ℕ → Bytes → Contdisp → AbufStat × Contdisp
forced at s c =
    let r =
      force_match at s true
        (record { abuf = c.hdr.abuf; curr_match = c.curr_match; fmcp = c.fmcp }) in
    (r.0, record (with_abuf r.1.abuf c) { curr_match = r.1.curr_match; fmcp = r.1.fmcp })

abbrev pub all_but_last : Bytes → Bytes
all_but_last [] = []
all_but_last (c ∷ []) = []
all_but_last (c ∷ d ∷ s) = c ∷ all_but_last (d ∷ s)

-- `str (filename_scr.cstr (), filename_scr.len () - 1)`, where `none` is a null pointer or a length
-- that wraps.
abbrev pub cut : Option Bytes → Option Bytes
cut none = none
cut (some []) = none
cut (some (c ∷ s)) = some (all_but_last (c ∷ s))

abbrev pub is_parse_err : AbufStat → Bool
is_parse_err abuf_parse_err = true
is_parse_err _ = false

abbrev pub set_filename : Contdisp → Option Bytes → Option (AbufStat × Bool × Contdisp)
set_filename c none = none
set_filename c (some f) = some (abuf_ok, false, record c { filename = some f })

abbrev pub filename_read :
    AbufStat × Option Bytes × Hdr → Contdisp → Option (AbufStat × Bool × Contdisp)
filename_read (r, s, d) c =
    let c' = record c { hdr = d; filename_scr = or_old s c.filename_scr } in
    if is_parse_err r || is_ok r then set_filename c' (cut c'.filename_scr) else some (r, true, c')

-- A round of the loop: `r`, `flag` and the parser. `none` is a failure, or a lack of fuel.
abbrev pub skipped_to :
    (Contdisp → Contdisp)
    → Contdisp
    → Option (AbufStat × Abuf)
    → Option (AbufStat × Bool × Contdisp)
skipped_to f c none = none
skipped_to f c (some (r, a)) = some (r, true, f (with_abuf a c))

abbrev pub going : AbufStat × Contdisp → Option (AbufStat × Bool × Contdisp)
going (r, c) = some (r, true, c)

abbrev pub eol_read : AbufStat × Hdr → Contdisp → Option (AbufStat × Bool × Contdisp)
eol_read (r, d) c =
    some (
      (if is_nomatch r then abuf_ok else r),
      (if is_ok r then false else true),
      record c { hdr = d },
    )

unfoldable pub round : ℕ → ContdispState → Contdisp → Option (AbufStat × Bool × Contdisp)
unfolding delimit skip_hws force_match eol requirechar
round fuel start c =
    let r = delimit b';' true true c.hdr in
    going (r.0, record c { hdr = r.2; typ_scr = or_old r.1 c.typ_scr })
round fuel sep1 c = skipped_to set_typ c (skip_hws fuel 1 c.hdr.abuf)
round fuel name_key c = going (forced 0 (codes "name=\"") c)
round fuel name_val c =
    let r = delimit b'"' false true c.hdr in
    going (r.0, record c { hdr = r.2; name = or_old r.1 c.name })
round fuel sep2a c = eol_read (eol c.hdr) c
round fuel sep2b c = let r = requirechar b';' c.hdr.abuf in going (r.0, with_abuf r.1 c)
round fuel sep2c c = skipped_to (λ x. x) c (skip_hws fuel 0 c.hdr.abuf)
round fuel filename_key c = going (forced 1 (codes "filename=\"") c)
round fuel filename_val c = filename_read (delimit b'\r' false false c.hdr) c
round fuel past c = some (abuf_ok, true, c)

-- The end of a round: whether the loop goes on, and with which state.
abbrev pub round_end :
    (Contdisp → Option (AbufStat × Contdisp))
    → Option (AbufStat × Bool × Contdisp)
    → Option (AbufStat × Contdisp)
round_end again none = none
round_end again (some (r, flag, c)) =
    let c' = if is_ok r then record c { state = inc_state c.state } else c in
    let rest = again c' in if is_ok r && flag then rest else some (r, c')

-- The loop of `parse_guts`, with the number of rounds it may take.
unfoldable pub parse_loop : ℕ → ℕ → Contdisp → Option (AbufStat × Contdisp)
unfolding round
parse_loop fuel zero c = none
parse_loop fuel (suc n) c =
    let again = λ (c' : Contdisp). parse_loop fuel n c' in round_end again (round fuel c.state c)

-- No loop takes more rounds than there are states.
unfoldable pub parse_guts : ℕ → Contdisp → Option (AbufStat × Contdisp)
unfolding parse_loop
parse_guts fuel c = parse_loop fuel 9 c

-- The status that `finish_parse` is called with, if it is called.
unfoldable pub status : AbufStat → Option ℕ
status abuf_ok = some 200
status abuf_eof = some 400
status abuf_parse_err = some 400
status r = none

unfoldable pub reset : Contdisp → Contdisp
reset c = record c {
  hdr = hdr_reset c.hdr;
  curr_match = none;
  fmcp = [];
  typ = contdisp_none;
  name = none;
  filename = none;
  state = start;
}
