-- ===== src/Cgi/State.antt =====
-- `cgi_t` of libahttp/okcgi.h and libahttp/cgi.C: the state of the parser of `key=value` lists, its
-- scratch buffer, and the automaton for the two digits behind a `%`.
use okws.Prelude.{
  ℕ, zero, suc, ◌+◌, ◌-◌, ◌*◌, Bool, true, false, ◌&&◌, not, Bytes, [], ◌∷◌, ◌++◌, length, ltb, leb,
  ◌==◌, if◌then◌else◌, Option, none, some, min,
}
use okws.Abuf.{AbufStat, abuf_ok, abuf_eof, abuf_wait, chr, eofchar, waitchar, Abuf, get, unget}
use okws.Escape.{XssBuf, xss_init}
use okws.Pair.{Pairtab}

-- `cgi_var_t`.
pub data CgiVar : Type 0 where
  cgi_key cgi_val cgi_ckey cgi_cval cgi_none : CgiVar

-- `ok_filter_cgi` and `ok_cgibuf_limit`.
pub data XssFilter : Type 0 where
  xssfilt_none xssfilt_some xssfilt_all : XssFilter

pub record Config : Type 0 where
  pub filter_cgi : XssFilter
  pub cgibuf_limit : ℕ
  pub dflt_cgibuf_sz : ℕ

-- libpub/okconst.C
abbrev pub defaults : Config
defaults = record { filter_cgi = xssfilt_all; cgibuf_limit = 0x80000; dflt_cgibuf_sz = 0x10000 }

-- `text` are the bytes from `_scratch->buf ()` to `pcp`, and `room` is the length of the scratch
-- buffer. `hex_lch` is the last digit read behind a `%`, 0 if there is none.
pub record Cgi : Type 0 where
  pub cookie : Bool
  pub inhex : Bool
  pub pstate : CgiVar
  pub text : Bytes
  pub room : ℕ
  pub hex_i : ℕ
  pub hex_h : ℕ
  pub hex_lch : ℕ
  pub key : Option Bytes
  pub uri_mode : Bool
  pub maxlen : Option ℕ
  pub tab : Pairtab
  pub xss : XssBuf
  pub abuf : Abuf

abbrev pub is_eof : AbufStat → Bool
is_eof abuf_eof = true
is_eof _ = false

abbrev pub start_var : Bool → CgiVar
start_var ck = if ck then cgi_ckey else cgi_key

-- The constructors, over a scratch buffer of `room` bytes.
abbrev pub cgi_t : Abuf → Bool → ℕ → Cgi
cgi_t a ck room = record {
  cookie = ck;
  inhex = false;
  pstate = start_var ck;
  text = [];
  room = room;
  hex_i = 0;
  hex_h = 0;
  hex_lch = 0;
  key = none;
  uri_mode = false;
  maxlen = none;
  tab = [];
  xss = xss_init;
  abuf = a;
}

unfoldable pub reset_state : Cgi → Cgi
reset_state c = record c {
  pstate = start_var c.cookie;
  inhex = false;
  hex_i = 0;
  hex_h = 0;
  hex_lch = 0;
  uri_mode = false;
}

abbrev pub key_state : CgiVar → Bool
key_state cgi_key = true
key_state cgi_ckey = true
key_state _ = false

abbrev pub cookie_state : CgiVar → Bool
cookie_state cgi_ckey = true
cookie_state cgi_cval = true
cookie_state _ = false

-- `STATE_TRANS`
abbrev pub state_trans : CgiVar → CgiVar
state_trans cgi_key = cgi_val
state_trans cgi_val = cgi_key
state_trans cgi_ckey = cgi_cval
state_trans _ = cgi_ckey

-- The limit of the scratch buffer.
abbrev pub scratch_limit : Config → Option ℕ → ℕ
scratch_limit cfg none = cfg.cgibuf_limit
scratch_limit cfg (some m) = if ltb cfg.cgibuf_limit m then cfg.cgibuf_limit else m

-- Twice the room, up to the limit, and whether there was any to be had.
unfoldable pub extend_scratch : Config → Cgi → Bool × Cgi
extend_scratch cfg c =
    let limit = scratch_limit cfg c.maxlen in
    if leb limit c.room then (false, c) else (true, record c { room = min (c.room * 2) limit })

-- `char_to_hex` with its table; `none` for -1.
unfoldable pub char_to_hex : ℕ → Option ℕ
char_to_hex c =
    if leb b'0' c && leb c b'9'
    then some (c - 48)
    else if leb b'A' c && leb c b'F'
    then some (c - 55)
    else if leb b'a' c && leb c b'f'
    then some (c - 87)
    else none

abbrev pub push : ℕ → Cgi → Cgi
push ch c = record c { text = c.text ++ (ch ∷ []) }

abbrev pub hex_reset : Cgi → Cgi
hex_reset c = record c { hex_i = 0; hex_h = 0; hex_lch = 0 }

-- Both digits are there.
unfoldable pub hex_done : Cgi → AbufStat × Cgi
hex_done c = (abuf_ok, hex_reset (push c.hex_h c))

-- A byte that is no digit: the `%` is kept, and a digit behind it if there is room for two.
unfoldable pub hex_fail : Cgi → AbufStat × Cgi
hex_fail c =
    let c' = push b'%' c in
    let two = ltb (length c'.text + 1) c'.room && not (c.hex_lch == 0) in
    (abuf_ok, hex_reset (if two then push c.hex_lch c' else c'))

unfoldable pub hex_take : Cgi → ℕ → ℕ → Cgi
hex_take c ch t = record c {
  hex_lch = ch;
  hex_h = if c.hex_i == 0 then t else c.hex_h * 16 + t;
  hex_i = c.hex_i + 1;
}

-- The loop of `parse_hexchar`, with the digits that are still wanted.
unfoldable pub hex_loop : ℕ → Cgi → AbufStat × Cgi
hex_loop zero c = hex_done c
hex_loop (suc n) c =
    let (ch, a) = get c.abuf in
    let c' = record c { abuf = a } in
    let again = λ (d t : ℕ). hex_loop n (hex_take c' d t) in
    elim ch [
      | waitchar ↦ (abuf_wait, c')
      | eofchar ↦ (abuf_eof, c')
      | chr d ↦ elim (char_to_hex d) [
        | none ↦ hex_fail (record c' { abuf = unget a })
        | some t ↦ again d t
      ]
    ]

unfoldable pub parse_hexchar : Cgi → AbufStat × Cgi
unfolding hex_loop hex_done hex_fail hex_take
parse_hexchar c = hex_loop (2 - c.hex_i) c
