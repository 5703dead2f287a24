-- ===== src/Cgi/Guts.antt =====
-- `parse_guts` of libahttp/cgi.C: the loop over keys and values, and the parse of a string.
use okws.Prelude.{
  ℕ, zero, suc, Bool, true, false, ◌&&◌, Bytes, length, leb, if◌then◌else◌, Option, none, some,
}
use okws.Abuf.{
  AbufStat, abuf_ok, abuf_parse_err, abuf_eof, abuf_wait, abuf_separator, abuf_t, abuf_str_t,
  is_wait,
}
use okws.Abuf.Scan.{skip_hws}
use okws.Pair.{Pairtab, insert}
use okws.Cgi.State.{cgi_ckey, Config, Cgi, cgi_t, is_eof, key_state, state_trans}
use okws.Cgi.Loop.{is_var, parse_key_or_val}

abbrev pub insert_tab : Option Bytes → Option Bytes → Cgi → Cgi
insert_tab k v c = record c { tab = insert k v true true c.tab }

-- `process_parsed_key_or_val`; `none` is its assertion or its panic.
unfoldable pub process_parsed_key_or_val : AbufStat → Option Bytes → Cgi → Option (AbufStat × Cgi)
process_parsed_key_or_val abuf_separator s c =
    if key_state c.pstate then some (abuf_ok, insert_tab s none c) else none
process_parsed_key_or_val abuf_ok s c =
    let c' =
      if key_state c.pstate
      then record c { key = s }
      else record (insert_tab c.key s c) { key = none } in
    some (abuf_ok, record c' { pstate = state_trans c.pstate })
process_parsed_key_or_val abuf_eof s c =
    some (abuf_eof, if key_state c.pstate then insert_tab s none c else insert_tab c.key s c)
process_parsed_key_or_val abuf_parse_err s c = none
process_parsed_key_or_val rc s c = some (rc, c)

-- `parse_still_waiting`: at the start of a cookie blanks are skipped, but no line end.
unfoldable pub parse_still_waiting : ℕ → Cgi → Option (Bool × Cgi)
parse_still_waiting fuel c =
    let at_start = is_var c.pstate cgi_ckey && leb (length c.text) 0 in
    if at_start
    then elim (skip_hws fuel 0 c.abuf) [
      | none ↦ none
      | some (r, a) ↦ some (is_wait r, record c { abuf = a })
    ]
    else some (false, c)

infixl 5 ◌>>=◌
abbrev pub ◌>>=◌ {ℓ κ} : {A : Type ℓ} {B : Type κ} → Option A → (A → Option B) → Option B
none >>= f = none
some a >>= f = f a

unfoldable pub parse_guts_driver : ℕ → Config → Cgi → Option (AbufStat × Cgi)
parse_guts_driver fuel cfg c = do
  (waiting, c') ← parse_still_waiting fuel c
  let go_on = do
    (rc, s, c'') ← parse_key_or_val fuel cfg true c'
    process_parsed_key_or_val rc s c''
  if waiting then some (abuf_wait, c') else go_on

abbrev pub is_end : AbufStat → Bool
is_end abuf_eof = true
is_end abuf_wait = true
is_end _ = false

-- `parse_guts`: until the input ends, when the parse is finished (`abuf_eof`), or has to wait.
unfoldable pub parse_guts : ℕ → Config → Cgi → Option (AbufStat × Cgi)
parse_guts zero cfg c = none
parse_guts (suc fuel) cfg c = do
  (rc, c') ← parse_guts_driver (suc fuel) cfg c
  let again = parse_guts fuel cfg c'
  if is_end rc then some (rc, c') else again

-- `cgi_t::str_parse` and `cgi_decode`: the source is the string.
unfoldable pub str_parse : ℕ → Config → Bytes → Option Pairtab
str_parse fuel cfg s = do
  (rc, c) ← parse_guts fuel cfg (cgi_t (abuf_t (abuf_str_t s)) false cfg.dflt_cgibuf_sz)
  some c.tab

-- The text read, if the parse came to the end; the outer `none` is the lack of fuel.
unfoldable pub cgi_decode : ℕ → Config → Bytes → Option (Option Bytes)
cgi_decode fuel cfg s = do
  (rc, r, c) ←
      parse_key_or_val fuel cfg false (cgi_t (abuf_t (abuf_str_t s)) false cfg.dflt_cgibuf_sz)
  some (if is_eof rc then r else none)
