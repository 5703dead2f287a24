-- ===== src/Cgi/Decode.antt =====
-- `cgi_decode` reads back what `cgi_encode` wrote.
mod Rounds
use okws.Prelude.{
  ℕ, zero, suc, ◌+◌, ◌<◌, ◌≡◌, ◌≢◌, refl, sym, ap, ◌∙◌, arith, Bool, true, false, Bytes, [], ◌∷◌,
  ◌++◌, length, All, Option, none, some, ltb, leb, if◌then◌else◌, Bool-cases, inl, inr,
}
use mathlib.Core.List.{append-nil, append_assoc}
use okws.Abuf.{AbufStat, abuf_ok, abuf_eof, Got, chr, eofchar, Abuf, abuf_t, abuf_str_t, get}
use okws.Abuf.Yields.{Yields, Yields-abuf_str_t}
use okws.Cgi.Encode.{cgi_encode}
use okws.Cgi.Encode.Bounds.{cgi_encode-cons, cgi_encode-nil}
use okws.Cgi.State.{
  Config, XssFilter, xssfilt_none, xssfilt_some, xssfilt_all, Cgi, cgi_none, cgi_t, extend_scratch,
}
use okws.Cgi.Loop.{Flow, go, stop, on_got, parse_round, parse_loop, parse_key_or_val}
use okws.Cgi.Guts.{cgi_decode}
use Rounds.{IsBetween, with_room, with_room-IsBetween, Reads, Reads-cgi_char, Yields-end}

-- The end of the text.
round-eof :
    (cfg : Config) (c : Cgi) (more : ℕ) (a : Abuf)
    → IsBetween cfg c more
    → get c.abuf ≡ (eofchar, a)
    → parse_round cfg cgi_none c ≡ (stop abuf_eof, record (with_room cfg c) { abuf = a })
unfolding parse_round on_got extend_scratch
round-eof cfg c more a h e = ground (arith, h.no_max, h.limit, h.inside, h.some_room, e)

-- The parser at the end, with the whole text in its buffer.
record Ends (cfg : Config) (fuel : ℕ) (c : Cgi) (s : Bytes) : Type 0 where
  last : Cgi
  result : parse_loop fuel cfg cgi_none c ≡ some (abuf_eof, last)
  text : last.text ≡ c.text ++ s
  room : length last.text < last.room

loop-go :
    (fuel : ℕ) (cfg : Config) (c c' : Cgi)
    → parse_round cfg cgi_none c ≡ (go, c')
    → parse_loop (suc fuel) cfg cgi_none c ≡ parse_loop fuel cfg cgi_none c'
unfolding parse_loop
loop-go fuel cfg c c' e = ground (arith, e)

loop-stop :
    (fuel : ℕ) (cfg : Config) (c c' : Cgi) (r : AbufStat)
    → parse_round cfg cgi_none c ≡ (stop r, c')
    → parse_loop (suc fuel) cfg cgi_none c ≡ some (r, c')
unfolding parse_loop
loop-stop fuel cfg c c' r e = ground (arith, e)

loop-Ends :
    (s : Bytes) (fuel : ℕ) (cfg : Config) (c : Cgi)
    → All (λ ch. ch < 256) s
    → IsBetween cfg c (length s)
    → Yields c.abuf (cgi_encode true s)
    → length s < fuel
    → Ends cfg fuel c s
loop-Ends s zero cfg c b h y lt = absurd (omega arith)
loop-Ends [] (suc fuel) cfg c b h y lt =
    let (a, e) = Yields-end (rw (cgi_encode-nil true) at y) in
    let (b', room, text, _) = with_room-IsBetween cfg c 0 h in
    record {
      last = record (with_room cfg c) { abuf = a };
      result = loop-stop fuel cfg c _ abuf_eof (round-eof cfg c 0 a h e);
      text = text ∙ sym (append-nil c.text);
      room = omega (arith, ap (λ (t : Bytes). length t) text);
    }
loop-Ends (ch ∷ s) (suc fuel) cfg c b h y lt =
    let size : suc (length s) ≡ length s + 1 = omega arith in
    let r =
      Reads-cgi_char cfg c ch (length s) (cgi_encode true s) (rw size at h) b.0
        (rw (cgi_encode-cons true ch s) at y) in
    let e = loop-Ends s fuel cfg r.next b.1 r.between r.source (omega arith) in
    record {
      last = e.last;
      result = loop-go fuel cfg c r.next r.result ∙ e.result;
      text = e.text ∙ ap (λ t. t ++ s) r.text ∙ append_assoc c.text (ch ∷ []) s;
      room = e.room;
    }

-- Without the filter the text is the result.
parse_key_or_val-Ends :
    (fuel : ℕ) (cfg : Config) (c : Cgi) (s : Bytes)
    → cfg.filter_cgi ≢ xssfilt_all
    → c.inhex ≡ false
    → c.text ≡ []
    → Ends cfg fuel c s
    → (c' : Cgi) × (parse_key_or_val fuel cfg false c ≡ some (abuf_eof, some s, c'))
unfolding parse_key_or_val
parse_key_or_val-Ends fuel cfg c s f h t e =
    let all : e.last.text ≡ s = e.text ∙ ap (λ x. x ++ s) t in
    (record e.last { text = [] }, ground (arith, e.result, e.room, all))

-- A text of bytes, encoded by `cgi_encode` and decoded by `cgi_decode`, comes back unchanged,
-- unless the filter of the configuration escapes everything, if it is shorter than the limit of the
-- scratch buffer and that buffer is not empty; the fuel is more than its length.
pub cgi_decode-cgi_encode :
    (fuel : ℕ) (cfg : Config) (s : Bytes)
    → All (λ ch. ch < 256) s
    → cfg.filter_cgi ≢ xssfilt_all
    → 0 < cfg.dflt_cgibuf_sz
    → length s < cfg.cgibuf_limit
    → length s < fuel
    → cgi_decode fuel cfg (cgi_encode true s) ≡ some (some s)
unfolding cgi_decode
cgi_decode-cgi_encode fuel cfg s b f room limit lt =
    let c = cgi_t (abuf_t (abuf_str_t (cgi_encode true s))) false cfg.dflt_cgibuf_sz in
    let between : IsBetween cfg c (length s) = record {
      no_hex = refl;
      at_first = refl;
      no_digit = refl;
      no_value = refl;
      no_max = refl;
      some_room = room;
      inside = omega arith;
      limit = omega arith;
    } in
    let e = loop-Ends s fuel cfg c b between (Yields-abuf_str_t (cgi_encode true s)) lt in
    let (c', h) = parse_key_or_val-Ends fuel cfg c s f refl refl e in ground (arith, h)
