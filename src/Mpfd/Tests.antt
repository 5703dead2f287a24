-- ===== src/Mpfd/Tests.antt =====
-- A boundary that comes in two pieces, and parts that are stored with their files.
use okws.Prelude.{
  true, false, Bytes, List, [], ◌∷◌, ◌≡◌, refl, arith, Option, none, some, if◌then◌else◌, ◌++◌,
  codes, inl, inr,
}
use okws.Abuf.{AbufStat, abuf_ok, abuf_wait, AbufIndata, abuf_t, mirror, can_read}
use okws.Abuf.Drain.{IsStream-abuf_t}
use okws.Abuf.Stream.{IsStream, rest}
use okws.Kmp.{kmp_matcher, reset}
use okws.Mpfd.{Mpfd, match_boundary}
use okws.Mpfd.Boundary.{reader}
use okws.Mpfd.Files.{
  CgiFile, FormPair, finsert, flookup, form_lookup, cgi_mpfd_pair_t, or_no_files, flookup-finsert,
}
use okws.Mpfd.Contdisp.{Contdisp, filename_val, formdat}
use okws.Mpfd.Parts.{Parts, dispose, store, files_after, store-dispose}
use okws.Pair.{str_eq}
use okws.Mpfd.Call.{Searched, match_boundary-Searched}
use okws.Mpfd.Dashes.{piece, pause, woken}

abbrev source : List AbufIndata
source = piece (codes "text\r\n--b") ∷ pause ∷ piece (codes "ND\r\nmore") ∷ []

abbrev parser : Mpfd
parser = record {
  abuf = abuf_t source;
  boundaries = kmp_matcher (codes "--bnd") true ∷ [];
  cbm = none;
  match_ended = false;
  scratch_len = 100;
}

abbrev status_of : Option (AbufStat × Option Bytes × Mpfd) → Option (AbufStat × Option Bytes)
status_of none = none
status_of (some (r, t, p)) = some (r, t)

abbrev again_of : Option (AbufStat × Option Bytes × Mpfd) → Option (AbufStat × Option Bytes × Mpfd)
again_of none = none
again_of (some (r, t, p)) = match_boundary 30 true (woken p)

first_call : status_of (match_boundary 30 true parser) ≡ some (abuf_wait, none)
unfolding match_boundary kmp_matcher reset mirror can_read
first_call = refl

second_call :
    status_of (again_of (match_boundary 30 true parser)) ≡ some (abuf_ok, some (codes "text"))
unfolding match_boundary kmp_matcher reset mirror can_read
second_call = refl

source-IsStream : IsStream (abuf_t source)
source-IsStream =
    IsStream-abuf_t source
      (inl (refl, λ e. ground arith), (inr (refl, refl), (inl (refl, λ e. ground arith), tt)))

match_boundary-Searched_example :
    Searched true
      (codes "--bnd")
      []
      []
      parser
      (match_boundary 30 true (record parser { boundaries = reader (codes "--bnd") [] ∷ [] }))
unfolding rest
match_boundary-Searched_example =
    match_boundary-Searched 30 true (codes "--bnd") [] (omega arith) [] parser source-IsStream
      (omega arith)

abbrev photo : CgiFile
photo = record { filename = some (codes "a.png"); file_type = none; dat = some (codes "data") }

abbrev form : List FormPair
form = cgi_mpfd_pair_t (codes "up") ∷ []

two_photos :
    flookup (codes "up") (finsert (codes "up") photo (finsert (codes "up") photo form))
    ≡ some (photo ∷ photo ∷ [])
unfolding flookup finsert
two_photos = refl

flookup-finsert_example :
    (flookup (codes "up") (finsert (codes "up") photo form) ≡ (
      if str_eq (codes "up") (codes "up")
      then some (or_no_files (flookup (codes "up") form) ++ photo ∷ [])
      else flookup (codes "up") form))
    × (form_lookup (codes "up") (finsert (codes "up") photo form) ≡ form_lookup (codes "up") form)
flookup-finsert_example = flookup-finsert (codes "up") (codes "up") photo form

abbrev disposition : Contdisp
disposition = record {
  hdr = record {
    abuf = abuf_t [];
    word = [];
    room = 64;
    crlf_need_lf = false;
    nvers = 0;
    noins = false;
  };
  curr_match = none;
  fmcp = [];
  typ = formdat;
  name = some (codes "up");
  filename = some (codes "a.png");
  state = filename_val;
  typ_scr = none;
  filename_scr = none;
}

abbrev before : Parts
before = record {
  cgi_key = none;
  filename = none;
  content_typ = none;
  is_attach = false;
  tab = form;
}

store-dispose_example :
    (flookup (codes "up") (store (some (codes "data")) (dispose disposition before).1).tab
      ≡ files_after formdat
          (some (codes "up"))
          (some (codes "a.png"))
          none
          (some (codes "data"))
          (codes "up")
          form)
    × ((store (some (codes "data")) (dispose disposition before).1).cgi_key ≡ none)
store-dispose_example =
    store-dispose formdat (some (codes "up")) (some (codes "a.png")) (some (codes "data"))
      (codes "up") disposition before refl refl refl refl
