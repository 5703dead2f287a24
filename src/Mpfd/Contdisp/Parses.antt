-- ===== src/Mpfd/Contdisp/Parses.antt =====
-- What the parser of a content disposition reads.
use okws.Prelude.{
  ℕ, suc, ◌+◌, ◌<◌, ◌≡◌, refl, ap, ◌∙◌, arith, Bool, true, false, Bytes, codes, [], ◌∷◌, ◌++◌,
  length, map, Option, none, some,
}
use okws.Abuf.{AbufStat, abuf_ok, Abuf}
use okws.Hdr.{Hdr, delimit}
use okws.Hdr.Force.{fold, force_match}
use okws.Pair.{str_eq}
use okws.Mpfd.Contdisp.{
  Contdisp, ContdispState, start, sep1, name_key, name_val, sep2a, sep2b, sep2c, filename_key,
  filename_val, ContdispType, formdat, attach, inc_state, with_abuf, forced, cut, all_but_last,
  going, skipped_to, eol_read, set_typ, round, parse_loop, parse_guts,
}
use okws.Mpfd.Contdisp.Feeds.{
  Feeds, IsPlain, behind, delimit-Delimited, skip_hws-Feeds, force_loop-Feeds, eol-Feeds,
  requirechar-Feeds,
}

-- A round that goes on, and one that ends the loop.
loop_on :
    (fuel n : ℕ) (q : ContdispState) (c c' : Contdisp)
    → c.state ≡ q
    → round fuel q c ≡ some (abuf_ok, true, c')
    → parse_loop fuel (suc n) c ≡ parse_loop fuel n (record c' { state = inc_state c'.state })
unfolding parse_loop
loop_on fuel n q c c' at e = rw (ap (λ q'. round fuel q' c) at ∙ e) refl

loop_off :
    (fuel n : ℕ) (q : ContdispState) (c c' : Contdisp)
    → c.state ≡ q
    → round fuel q c ≡ some (abuf_ok, false, c')
    → parse_loop fuel (suc n) c ≡ some (abuf_ok, record c' { state = inc_state c'.state })
unfolding parse_loop
loop_off fuel n q c c' at e = rw (ap (λ q'. round fuel q' c) at ∙ e) refl

map-fold : (t : Bytes) → map (fold false) t ≡ t
map-fold [] = refl
map-fold (c ∷ t) = ap (λ s. c ∷ s) (map-fold t)

-- A word is read into an empty scratch area, which is empty again then.
record Word (gobble tol : Bool) (stop : ℕ) (t s : Bytes) (h : Hdr) : Type 0 where
  hdr : Hdr
  result : delimit stop tol gobble h ≡ (abuf_ok, some (map (fold tol) t), hdr)
  feeds : Feeds hdr.abuf (behind gobble stop s)
  word : hdr.word ≡ []
  room : hdr.room ≡ h.room

delimit-Word :
    (gobble tol : Bool) (stop : ℕ) (t s : Bytes) (h : Hdr)
    → h.word ≡ []
    → IsPlain stop t
    → length t < h.room
    → Feeds h.abuf (t ++ stop ∷ s)
    → Word gobble tol stop t s h
delimit-Word gobble tol stop t s h e plain lt f =
    let d = delimit-Delimited gobble tol stop t s h plain f lt in
    let none_yet : length h.word ≡ 0 = ap (λ (w : Bytes). length w) e in
    record {
      hdr = d.hdr;
      result = d.result ∙ ap (λ w. (abuf_ok, some (w ++ map (fold tol) t), d.hdr)) e;
      feeds = d.feeds;
      word = d.word;
      room = omega (arith, d.room, none_yet);
    }

all_but_last-snoc : (s : Bytes) (c : ℕ) → all_but_last (s ++ c ∷ []) ≡ s
all_but_last-snoc [] c = refl
all_but_last-snoc (d ∷ []) c = refl
all_but_last-snoc (d ∷ e ∷ s) c = ap (λ r. d ∷ r) (all_but_last-snoc (e ∷ s) c)

cut-snoc : (s : Bytes) (c : ℕ) → cut (some (s ++ c ∷ [])) ≡ some s
cut-snoc [] c = refl
cut-snoc (d ∷ s) c = ap (λ (r : Bytes). some r) (all_but_last-snoc (d ∷ s) c)

-- What a parse leaves.
pub record Parsed (typ : ContdispType) (name : Option Bytes) (filename s : Bytes)
    (r : Option (AbufStat × Contdisp)) : Type 0 where
  pub parser : Contdisp
  pub result : r ≡ some (abuf_ok, parser)
  pub typ_read : parser.typ ≡ typ
  pub name_read : parser.name ≡ name
  pub filename_kept : parser.filename ≡ some filename
  pub feeds : Feeds parser.hdr.abuf (b'\r' ∷ s)

forced-Feeds :
    (at : ℕ) (t s : Bytes) (c : Contdisp)
    → c.curr_match ≡ none
    → Feeds c.hdr.abuf (t ++ s)
    → (buf : Abuf) × (forced at t c
        ≡ (abuf_ok, record (with_abuf buf c) { curr_match = none; fmcp = [] }))
      × Feeds buf s
unfolding force_match
forced-Feeds at t s c e f =
    let (buf, r, k) = force_loop-Feeds true t s c.hdr.abuf f in (buf, rw (e, r) refl, k)

filename_val-Parsed :
    (fuel n : ℕ) (file : Bytes) (last : ℕ) (s : Bytes) (c : Contdisp)
    → c.state ≡ filename_val
    → c.hdr.word ≡ []
    → IsPlain b'\r' (file ++ last ∷ [])
    → length (file ++ last ∷ []) < c.hdr.room
    → Feeds c.hdr.abuf ((file ++ last ∷ []) ++ b'\r' ∷ s)
    → Parsed c.typ c.name file s (parse_loop fuel (suc n) c)
unfolding round
filename_val-Parsed fuel n file last s c at e plain lt f =
    let w = delimit-Word false false b'\r' (file ++ last ∷ []) s c.hdr e plain lt f in
    let c' = record c {
      hdr = w.hdr;
      filename_scr = some (file ++ last ∷ []);
      filename = some file;
    } in
    let step : round fuel filename_val c ≡ some (abuf_ok, false, c') =
      rw (w.result, map-fold (file ++ last ∷ []), cut-snoc file last) refl in
    record {
      parser = record c' { state = inc_state c'.state };
      result = loop_off fuel n filename_val c c' at step;
      typ_read = refl;
      name_read = refl;
      filename_kept = refl;
      feeds = w.feeds;
    }

-- One more round in front.
round-Parsed :
    {typ : ContdispType} {name : Option Bytes} {file s : Bytes} (fuel n : ℕ) (q q' : ContdispState)
    (c c' : Contdisp)
    → c.state ≡ q
    → c'.state ≡ q'
    → round fuel q c ≡ some (abuf_ok, true, c')
    → Parsed typ name file s (parse_loop fuel n (record c' { state = inc_state q' }))
    → Parsed typ name file s (parse_loop fuel (suc n) c)
round-Parsed fuel n q q' c c' at at' e p = record {
  parser = p.parser;
  result =
      loop_on fuel n q c c' at e
      ∙ ap (λ x. parse_loop fuel n (record c' { state = inc_state x })) at'
      ∙ p.result;
  typ_read = p.typ_read;
  name_read = p.name_read;
  filename_kept = p.filename_kept;
  feeds = p.feeds;
}

filename_key-Parsed :
    (fuel n : ℕ) (file : Bytes) (last : ℕ) (s : Bytes) (c : Contdisp)
    → c.state ≡ filename_key
    → c.curr_match ≡ none
    → c.hdr.word ≡ []
    → IsPlain b'\r' (file ++ last ∷ [])
    → length (file ++ last ∷ []) < c.hdr.room
    → Feeds c.hdr.abuf (codes "filename=\"" ++ (file ++ last ∷ []) ++ b'\r' ∷ s)
    → Parsed c.typ c.name file s (parse_loop fuel (suc (suc n)) c)
unfolding round
filename_key-Parsed fuel n file last s c at m e plain lt f =
    let (buf, r, k) =
      forced-Feeds 1 (codes "filename=\"") ((file ++ last ∷ []) ++ b'\r' ∷ s) c m f in
    let c' = record (with_abuf buf c) { curr_match = none; fmcp = [] } in
    round-Parsed fuel (suc n) filename_key filename_key c c' at at (ap going r) (
      filename_val-Parsed fuel n file last s (record c' { state = filename_val }) refl e plain lt k)

name_val-Parsed :
    (fuel : ℕ) (name file : Bytes) (last : ℕ) (s : Bytes) (c : Contdisp)
    → c.state ≡ name_val
    → c.curr_match ≡ none
    → c.hdr.word ≡ []
    → IsPlain b'"' name
    → length name < c.hdr.room
    → IsPlain b'\r' (file ++ last ∷ [])
    → length (file ++ last ∷ []) < c.hdr.room
    → Feeds c.hdr.abuf
        (name ++ b'"' ∷ b';' ∷ b' ' ∷ (codes "filename=\"" ++ (file ++ last ∷ []) ++ b'\r' ∷ s))
    → Parsed c.typ (some name) file s (parse_loop (suc (suc fuel)) 6 c)
unfolding round
name_val-Parsed fuel name file last s c at m e plain lt plain' lt' f =
    let rest = codes "filename=\"" ++ (file ++ last ∷ []) ++ b'\r' ∷ s in
    let w = delimit-Word true false b'"' name (b';' ∷ b' ' ∷ rest) c.hdr e plain lt f in
    let c1 = record c { hdr = w.hdr; name = some name; state = sep2a } in
    let (a2, r2, f2) = eol-Feeds b';' (b' ' ∷ rest) w.hdr refl w.feeds in
    let c2 = record (with_abuf a2 c1) { state = sep2b } in
    let (a3, r3, f3) = requirechar-Feeds b';' (b' ' ∷ rest) a2 f2 in
    let c3 = record (with_abuf a3 c1) { state = sep2c } in
    let (a4, r4, f4) =
      skip_hws-Feeds fuel 0 b'f' (codes "ilename=\"" ++ (file ++ last ∷ []) ++ b'\r' ∷ s) a3 refl
        refl f3 in
    let c4 = record (with_abuf a4 c1) { state = filename_key } in
    round-Parsed (suc (suc fuel)) 5 name_val name_val c (record c { hdr = w.hdr; name = some name })
      at at (rw (w.result, map-fold name) refl)
      (round-Parsed (suc (suc fuel)) 4 sep2a sep2a c1 (with_abuf a2 c1) refl refl
        (ap (λ x. eol_read x c1) r2)
        (round-Parsed (suc (suc fuel)) 3 sep2b sep2b c2 (with_abuf a3 c2) refl refl
          (ap (λ x. going (x.0, with_abuf x.1 c2)) r3)
          (round-Parsed (suc (suc fuel)) 2 sep2c sep2c c3 (with_abuf a4 c3) refl refl
            (ap (skipped_to (λ x. x) c3) r4)
            (filename_key-Parsed (suc (suc fuel)) 0 file last s c4 refl m w.word plain'
              (omega (arith, w.room, lt')) f4))))

set_typ-formdat :
    (c : Contdisp) → c.typ_scr ≡ some (codes "form-data") → set_typ c ≡ record c { typ = formdat }
unfolding str_eq
set_typ-formdat c e = rw e refl

set_typ-attach :
    (c : Contdisp)
    → c.typ_scr ≡ some (codes "attachment")
    → set_typ c ≡ record c { state = filename_key; typ = attach }
unfolding str_eq
set_typ-attach c e = rw e refl

form_data-IsPlain : IsPlain b';' (codes "form-data")
form_data-IsPlain = ground arith

attachment-IsPlain : IsPlain b';' (codes "attachment")
attachment-IsPlain = ground arith

-- A parser before its first round.
pub record IsStarted (c : Contdisp) : Type 0 where
  pub at_start : c.state ≡ start
  pub unmatched : c.curr_match ≡ none
  pub word : c.hdr.word ≡ []

-- A buffer that delivers `form-data; name="`, a name, `"; filename="`, a file's name, a last byte and
-- a carriage return: in nine rounds the parser takes the type, the name, and the file's name without
-- that last byte, and it stops before the carriage return. The name has no quote and no end of a line, the file's name
-- and the last byte have no end of a line, and each word fits the scratch area.
pub form_data-Parsed :
    (fuel : ℕ) (name file : Bytes) (last : ℕ) (s : Bytes) (c : Contdisp)
    → IsStarted c
    → 10 < c.hdr.room
    → IsPlain b'"' name
    → length name < c.hdr.room
    → IsPlain b'\r' (file ++ last ∷ [])
    → length (file ++ last ∷ []) < c.hdr.room
    → Feeds c.hdr.abuf (
        codes "form-data; name=\""
        ++ name
        ++ b'"' ∷ b';' ∷ b' ' ∷ (codes "filename=\"" ++ (file ++ last ∷ []) ++ b'\r' ∷ s))
    → Parsed formdat (some name) file s (parse_guts (suc (suc fuel)) c)
unfolding round parse_guts
form_data-Parsed fuel name file last s c h ten plain lt plain' lt' f =
    let rest =
      name ++ b'"' ∷ b';' ∷ b' ' ∷ (codes "filename=\"" ++ (file ++ last ∷ []) ++ b'\r' ∷ s) in
    let w =
      delimit-Word true true b';' (codes "form-data") (b' ' ∷ (codes "name=\"" ++ rest)) c.hdr
        h.word form_data-IsPlain (omega (arith, ten)) f in
    let c1 = record c { hdr = w.hdr; typ_scr = some (codes "form-data"); state = sep1 } in
    let (a2, r2, f2) =
      skip_hws-Feeds fuel 1 b'n' (codes "ame=\"" ++ rest) w.hdr.abuf refl refl w.feeds in
    let c2 = record (with_abuf a2 c1) { typ = formdat; state = name_key } in
    let (a3, r3, f3) = forced-Feeds 0 (codes "name=\"") rest c2 h.unmatched f2 in
    let c3 = record (with_abuf a3 c2) { curr_match = none; fmcp = [] } in
    round-Parsed (suc (suc fuel)) 8 start start c
      (record c { hdr = w.hdr; typ_scr = some (codes "form-data") }) h.at_start h.at_start
      (rw w.result refl)
      (round-Parsed (suc (suc fuel)) 7 sep1 sep1 c1 (record (with_abuf a2 c1) { typ = formdat })
        refl refl
        (ap (skipped_to set_typ c1) r2
          ∙ ap (λ x. some (abuf_ok, true, x)) (set_typ-formdat (with_abuf a2 c1) refl))
        (round-Parsed (suc (suc fuel)) 6 name_key name_key c2 c3 refl refl (ap going r3) (
          name_val-Parsed fuel name file last s (record c3 { state = name_val }) refl refl w.word
            plain (omega (arith, w.room, lt)) plain' (omega (arith, w.room, lt')) f3)))

filename-IsPlain : (t : Bytes) → IsPlain b'\r' t → IsPlain b'\r' (codes "filename=\"" ++ t)
filename-IsPlain t plain = ground (arith, plain)

-- A buffer that delivers `attachment; filename="`, a file's name, a last byte and a carriage return:
-- the parser takes the type, and the file's name that it keeps begins with `filename="`. The file's
-- name and the last byte have no end of a line, and each word fits the scratch area.
pub attachment-Parsed :
    (fuel : ℕ) (file : Bytes) (last : ℕ) (s : Bytes) (c : Contdisp)
    → IsStarted c
    → IsPlain b'\r' (file ++ last ∷ [])
    → 11 + length (file ++ last ∷ []) < c.hdr.room
    → Feeds c.hdr.abuf (codes "attachment; filename=\"" ++ (file ++ last ∷ []) ++ b'\r' ∷ s)
    → Parsed attach c.name (codes "filename=\"" ++ file) s (parse_guts (suc (suc fuel)) c)
unfolding round parse_guts
attachment-Parsed fuel file last s c h plain lt f =
    let rest = (file ++ last ∷ []) ++ b'\r' ∷ s in
    let w =
      delimit-Word true true b';' (codes "attachment") (b' ' ∷ (codes "filename=\"" ++ rest)) c.hdr
        h.word attachment-IsPlain (omega (arith, lt)) f in
    let c1 = record c { hdr = w.hdr; typ_scr = some (codes "attachment"); state = sep1 } in
    let (a2, r2, f2) =
      skip_hws-Feeds fuel 1 b'f' (codes "ilename=\"" ++ rest) w.hdr.abuf refl refl w.feeds in
    let c2 = record (with_abuf a2 c1) { typ = attach; state = filename_key } in
    round-Parsed (suc (suc fuel)) 8 start start c
      (record c { hdr = w.hdr; typ_scr = some (codes "attachment") }) h.at_start h.at_start
      (rw w.result refl)
      (round-Parsed (suc (suc fuel)) 7 sep1 filename_key c1 c2 refl refl
        (ap (skipped_to set_typ c1) r2
          ∙ ap (λ x. some (abuf_ok, true, x)) (set_typ-attach (with_abuf a2 c1) refl))
        (filename_val-Parsed (suc (suc fuel)) 6 (codes "filename=\"" ++ file) last s
          (record c2 { state = filename_val }) refl w.word
          (filename-IsPlain (file ++ last ∷ []) plain) (omega (arith, w.room, lt)) f2))
