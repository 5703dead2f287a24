-- ===== src/Hdr/Tests.antt =====
-- The methods on a request that comes in pieces.
use okws.Prelude.{
  ◌≡◌, ◌≢◌, refl, arith, inl, inr, true, none, false, Bytes, List, [], ◌∷◌, codes, map,
}
use okws.Abuf.{abuf_ok, abuf_wait, AbufIndata, abuf_t}
use okws.Abuf.Stream.{IsChunk, rest}
use okws.Abuf.Drain.{IsStream-abuf_t}
use okws.Kmp.{tolower}
use okws.Hdr.{Hdr, delimit_key}
use okws.Hdr.Force.{Forcing, Matched, force_match, force_match-Matched}
use okws.Hdr.Delimit.{Reads, delimit_key_resumed}

abbrev pause : AbufIndata
pause = record { erc = abuf_wait; bytes = [] }

abbrev chunk : Bytes → AbufIndata
chunk s = record { erc = abuf_ok; bytes = s }

abbrev hdr : List AbufIndata → Hdr
hdr src = record {
  abuf = abuf_t src;
  word = [];
  room = 16;
  crlf_need_lf = false;
  nvers = 0;
  noins = false;
}

abbrev value_script : List AbufIndata
value_script = pause ∷ chunk (codes "ab") ∷ pause ∷ chunk (codes "c\r\n") ∷ []

abbrev key_script : List AbufIndata
key_script = chunk (codes "Ho") ∷ pause ∷ chunk (codes "st: x") ∷ []

full : (s : Bytes) → s ≢ [] → IsChunk (chunk s)
full s ne = inl (refl, ne)

wait : IsChunk pause
wait = inr (refl, refl)

delimit_key_resumed_example :
    Reads delimit_key 40 (hdr key_script) (map tolower (codes "Host")) (codes " x")
unfolding rest
delimit_key_resumed_example =
    delimit_key_resumed 40 (hdr key_script) (codes "Host") (codes " x")
      (IsStream-abuf_t key_script (full _ (λ e. cc e), (wait, (full _ (λ e. cc e), tt)))) refl
      (refl, (refl, (refl, (refl, tt)))) (omega arith) (omega arith)

abbrev name_script : List AbufIndata
name_script = chunk (codes "NA") ∷ pause ∷ chunk (codes "me=\"x") ∷ []

abbrev name_start : Forcing
name_start = record { abuf = abuf_t name_script; curr_match = none; fmcp = [] }

name_first : (force_match 7 (codes "name=\"") true name_start).0 ≡ abuf_wait
unfolding force_match
name_first = refl

name_wanted : (force_match 7 (codes "name=\"") true name_start).1.fmcp ≡ codes "me=\""
unfolding force_match
name_wanted = refl

force_match-Matched_example :
    Matched 7 true
      (codes "name=\"")
      (abuf_t name_script)
      (force_match 7 (codes "name=\"") true name_start)
force_match-Matched_example =
    force_match-Matched 7 (codes "name=\"") true name_start
      (IsStream-abuf_t name_script (full _ (λ e. cc e), (wait, (full _ (λ e. cc e), tt))))
