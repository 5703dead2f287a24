-- ===== src/Inhdr/Guts.antt =====
-- `parse_guts` of libahttp/inhdr.C: the loop, the status of the request, and `fixup`. The source's
-- `overflow` is an argument. The length of the body is read by `convertint`, which is not part of
-- the repository, and is left out.
use okws.Prelude.{
  ℕ, zero, suc, Bool, true, false, ◌&&◌, Bytes, codes, [], ◌∷◌, ◌==◌, if◌then◌else◌, Option, none,
  some,
}
use okws.Abuf.{abuf_eof, abuf_overflow, abuf_wait}
use okws.Pair.{str_eq, lookup}
use okws.Cgi.State.{Cgi}
use okws.Cgi.Guts.{◌>>=◌}
use okws.Kmp.{tolower}
use okws.Inhdr.{
  Inhdr, InhdrState, start, inc_state, Ext, no_ext, url_ext, cookie_ext, Options, Round, next, same,
  done, stopped, round, run_ext,
}

-- Behind `run_ext`.
abbrev after_url : Bool × Cgi × Inhdr → Round × Inhdr
after_url (waits, c, h) = (if waits then stopped abuf_wait else same, record h { url = some c })

abbrev after_cookie : Bool × Cgi × Inhdr → Round × Inhdr
after_cookie (waits, c, h) =
    (if waits then stopped abuf_wait else same, record h { cookie = some c })

-- One step: of the parser at work.
unfoldable pub step : ℕ → Options → Ext → Inhdr → Option (Round × Inhdr)
unfolding run_ext round
step fuel o no_ext h = round fuel o h.state h
step fuel o url_ext h = do c ← h.url; r ← run_ext fuel o c h; some (after_url r)
step fuel o cookie_ext h = do c ← h.cookie; r ← run_ext fuel o c h; some (after_cookie r)

abbrev pub is_stop : Round → Bool
is_stop (stopped r) = true
is_stop done = true
is_stop _ = false

abbrev pub is_next : Round → Bool
is_next next = true
is_next _ = false

-- Runs until the parser stops or waits.
unfoldable pub parse_guts : ℕ → Options → Inhdr → Option (Round × Inhdr)
unfolding step
parse_guts zero o h = none
parse_guts (suc fuel) o h = do
  (r, h') ← step (suc fuel) o h.ext h
  let h'' = if is_next r then record h' { state = inc_state h'.state } else h'
  let again = parse_guts fuel o h''
  if is_stop r then some (r, h') else again

abbrev pub is_start : InhdrState → Bool
is_start start = true
is_start _ = false

unfoldable pub clean_pipeline_eof_state : Inhdr → Bool
clean_pipeline_eof_state h = is_start h.state && h.pipeline_eof_ok

-- The status that `finish_parse` is called with, and `none` if the parser waits.
unfoldable pub status : Bool → Round → Inhdr → Option ℕ
unfolding clean_pipeline_eof_state
status overflow done h = some (if overflow then 413 else 200)
status overflow (stopped abuf_wait) h = none
status overflow (stopped abuf_overflow) h = some 413
status overflow (stopped abuf_eof) h =
    some (if overflow then 413 else if clean_pipeline_eof_state h then 605 else 400)
status overflow r h = some 400

unfoldable pub timeout_status : Inhdr → ℕ
unfolding clean_pipeline_eof_state
timeout_status h = if clean_pipeline_eof_state h then 606 else 408

-- `cicmp`
unfoldable pub cicmp : Bytes → Bytes → Bool
unfolding tolower
cicmp [] [] = true
cicmp (a ∷ s) (b ∷ t) = tolower a == tolower b && cicmp s t
cicmp s t = false

pub data HttpMethod : Type 0 where
  mthd_none mthd_post mthd_put mthd_delete mthd_get mthd_head mthd_options : HttpMethod

-- `methodmap.lookup`
unfoldable pub method_of : Bytes → HttpMethod
method_of s =
    if str_eq s (codes "GET")
    then mthd_get
    else if str_eq s (codes "POST")
    then mthd_post
    else if str_eq s (codes "PUT")
    then mthd_put
    else if str_eq s (codes "DELETE")
    then mthd_delete
    else if str_eq s (codes "HEAD")
    then mthd_head
    else if str_eq s (codes "OPTIONS")
    then mthd_options
    else mthd_none

-- Whether `fixup` keeps the connection alive.
unfoldable pub keeps_alive : Inhdr → Bool
unfolding cicmp
keeps_alive h = elim (lookup (codes "connection") h.tab) [
  | none ↦ false
  | some s ↦ cicmp s (codes "keep-alive")
]
