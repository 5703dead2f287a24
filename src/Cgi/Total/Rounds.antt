-- ===== src/Cgi/Total/Rounds.antt =====
-- A round of the loop of `parse_key_or_val` that goes on uses up a byte.
use okws.Prelude.{
  ℕ, zero, suc, ◌+◌, ◌||◌, ◌-◌, ◌<◌, ◌≤◌, ◌≡◌, ◌⊎◌, inl, inr, refl, ap, arith, Bool, true, false,
  [], ◌∷◌, ◌++◌, length, ltb, not, ◌&&◌, ◌==◌, leb, none, some, if◌then◌else◌, Bool-cases,
  Option-cases,
}
use okws.Abuf.{
  AbufStat, abuf_ok, abuf_parse_err, abuf_eof, abuf_overflow, abuf_wait, abuf_nomatch,
  abuf_continue, abuf_complete, abuf_separator, Got, chr, eofchar, waitchar, Abuf, get, unget,
}
use okws.Abuf.Left.{left, Uses, get-Uses, unget-left}
use okws.Cgi.State.{
  CgiVar, cgi_key, cgi_val, cgi_ckey, cgi_cval, Config, Cgi, key_state, cookie_state, char_to_hex,
  extend_scratch, hex_done, hex_fail, hex_take, hex_loop, parse_hexchar,
}
use okws.Cgi.Loop.{Flow, go, stop, stored, is_var, on_percent, on_byte, on_got, parse_round}

-- What `get` gives, and how many bytes that leaves of `n`.
Got-cases :
    (r : Got × Abuf) (n : ℕ)
    → Uses n r.0 (left r.1)
    → (a : Abuf) × (((d : ℕ) × (r ≡ (chr d, a)) × (left a < n))
        ⊎ (((r ≡ (eofchar, a)) × (left a ≤ n)) ⊎ ((r ≡ (waitchar, a)) × (left a ≤ n))))
Got-cases (chr d, a) n h = (a, inl (d, refl, h))
Got-cases (eofchar, a) n h = (a, inr (inl (refl, h)))
Got-cases (waitchar, a) n h = (a, inr (inr (refl, h)))

go_stops : (r : AbufStat) → ¬ (stop r ≡ go)
go_stops r e = ground (arith, e)

hex_fail-abuf : (c : Cgi) → (hex_fail c).1.abuf ≡ c.abuf
unfolding hex_fail
hex_fail-abuf c =
    elim (Bool-cases (ltb (length (c.text ++ b'%' ∷ []) + 1) c.room && not (c.hex_lch == 0))) [
      | inl e ↦ rw e refl
      | inr e ↦ rw e refl
    ]

module _ (n : ℕ) (c : Cgi) (a : Abuf) where
  abbrev rest : Cgi
  rest = record c { abuf = a }

  hex_loop-take :
      (d t : ℕ)
      → get c.abuf ≡ (chr d, a)
      → char_to_hex d ≡ some t
      → hex_loop (suc n) c ≡ hex_loop n (hex_take rest d t)
  unfolding hex_loop
  hex_loop-take d t e f = ground (arith, e, f)

  hex_loop-fail :
      (d : ℕ)
      → get c.abuf ≡ (chr d, a)
      → char_to_hex d ≡ none
      → hex_loop (suc n) c ≡ hex_fail (record c { abuf = unget a })
  unfolding hex_loop
  hex_loop-fail d e f = ground (arith, e, f)

  hex_loop-eof : get c.abuf ≡ (eofchar, a) → hex_loop (suc n) c ≡ (abuf_eof, rest)
  unfolding hex_loop
  hex_loop-eof e = ground (arith, e)

  hex_loop-wait : get c.abuf ≡ (waitchar, a) → hex_loop (suc n) c ≡ (abuf_wait, rest)
  unfolding hex_loop
  hex_loop-wait e = ground (arith, e)

abbrev left_of : AbufStat × Cgi → ℕ
left_of r = left r.1.abuf

hex_loop-left : (n : ℕ) (c : Cgi) → left_of (hex_loop n c) ≤ left c.abuf
unfolding hex_take
hex_loop-left zero c =
    let same : left_of (hex_loop 0 c) ≡ left c.abuf = unfold hex_loop hex_done in refl in
    omega (arith, same)
hex_loop-left (suc n) c =
    let (a, cases) = Got-cases (get c.abuf) (left c.abuf) (get-Uses c.abuf) in
    elim cases [
      | inl (d, e, less) ↦ elim (Option-cases (char_to_hex d)) [
        | inl f ↦
            let same = ap left_of (hex_loop-fail n c a d e f) in
            let same' = ap left (hex_fail-abuf (record c { abuf = unget a })) in
            omega (arith, same, same', unget-left a, less)
        | inr (t, f) ↦
            let same = ap left_of (hex_loop-take n c a d t e f) in
            omega (arith, same, hex_loop-left n (hex_take (record c { abuf = a }) d t), less)
      ]
      | inr (inl (e, le)) ↦ let same = ap left_of (hex_loop-eof n c a e) in omega (arith, same, le)
      | inr (inr (e, le)) ↦ let same = ap left_of (hex_loop-wait n c a e) in omega (arith, same, le)
    ]

pub parse_hexchar-left : (c : Cgi) → left (parse_hexchar c).1.abuf ≤ left c.abuf
unfolding parse_hexchar
parse_hexchar-left c = hex_loop-left (2 - c.hex_i) c

-- If the loop goes on, at most `n` bytes are left.
abbrev Goes : ℕ → Flow × Cgi → Type 0
Goes n p = p.0 ≡ go → left p.1.abuf ≤ n

Goes-if : (n : ℕ) (x y : Flow × Cgi) (b : Bool) → Goes n x → Goes n y → Goes n (if b then x else y)
Goes-if n x y true hx hy = hx
Goes-if n x y false hx hy = hy

Goes-stop : (n : ℕ) (r : AbufStat) (c : Cgi) → Goes n (stop r, c)
Goes-stop n r c e = absurd (go_stops r e)

percent-Goes :
    (n : ℕ) (rc : AbufStat) (c : Cgi)
    → left c.abuf ≤ n
    → Goes n (elim rc [
      | abuf_wait ↦ (stop abuf_wait, c)
      | abuf_eof ↦ (stop abuf_eof, c)
      | _ ↦ (go, record c { inhex = false })
    ])
percent-Goes n abuf_wait c h = Goes-stop n abuf_wait c
percent-Goes n abuf_eof c h = Goes-stop n abuf_eof c
percent-Goes n abuf_ok c h = λ _. h
percent-Goes n abuf_parse_err c h = λ _. h
percent-Goes n abuf_overflow c h = λ _. h
percent-Goes n abuf_nomatch c h = λ _. h
percent-Goes n abuf_continue c h = λ _. h
percent-Goes n abuf_complete c h = λ _. h
percent-Goes n abuf_separator c h = λ _. h

on_percent-Goes : (c : Cgi) → Goes (left c.abuf) (on_percent c)
unfolding on_percent
on_percent-Goes c =
    let r = parse_hexchar (record c { inhex = true }) in
    percent-Goes (left c.abuf) r.0 r.1 (parse_hexchar-left (record c { inhex = true }))

stored-Goes : (ch : ℕ) (c : Cgi) → Goes (left c.abuf) (stored ch c)
stored-Goes ch c = λ _. omega arith

on_byte-Goes : (vt : CgiVar) (ch : ℕ) (c : Cgi) → Goes (left c.abuf) (on_byte vt ch c)
unfolding on_byte
on_byte-Goes vt ch c =
    let n = left c.abuf in
    let keep = stored-Goes ch c in
    let over = Goes-stop n abuf_eof (record c { abuf = unget c.abuf }) in
    let done = Goes-stop n abuf_ok c in
    let parted = Goes-stop n abuf_separator c in
    Goes-if n _ _ (ch == b'&')
      (Goes-if n _ _ (is_var vt cgi_key) parted (Goes-if n _ _ (is_var vt cgi_val) done keep))
      (Goes-if n _ _ (ch == b'=') (Goes-if n _ _ (key_state vt) done keep) (
        Goes-if n _ _ (ch == b';')
          (Goes-if n _ _ (is_var vt cgi_ckey) parted (Goes-if n _ _ (is_var vt cgi_cval) done keep))
          (Goes-if n _ _ (ch == b'\r')
            (Goes-if n _ _ c.uri_mode (Goes-stop n abuf_eof c)
              (Goes-if n _ _ (not (cookie_state vt)) keep (λ _. omega arith)))
            (Goes-if n _ _ (ch == b'\n') (Goes-if n _ _ (cookie_state vt || c.uri_mode) over keep) (
              Goes-if n _ _ (ch == b'%') (on_percent-Goes c) (
                Goes-if n _ _ (ch == b'+') (stored-Goes b' ' c)
                  (Goes-if n _ _ ((ch == b' ' || ch == b'\t') && c.uri_mode) over keep)))))))

extend_scratch-abuf : (cfg : Config) (c : Cgi) → (extend_scratch cfg c).1.abuf ≡ c.abuf
unfolding extend_scratch
extend_scratch-abuf cfg c = ground arith

-- A round that goes on uses up a byte.
on_got-less :
    (vt : CgiVar) (r : Got × Abuf) (n : ℕ) (c : Cgi)
    → Uses n r.0 (left r.1)
    → (on_got vt r.0 (record c { abuf = r.1 })).0 ≡ go
    → left (on_got vt r.0 (record c { abuf = r.1 })).1.abuf < n
unfolding on_got
on_got-less vt (chr ch, a) n c h e =
    let le = on_byte-Goes vt ch (record c { abuf = a }) e in omega (arith, le, h)
on_got-less vt (eofchar, a) n c h e = absurd (go_stops abuf_eof e)
on_got-less vt (waitchar, a) n c h e = absurd (go_stops abuf_wait e)

-- A round that goes on uses up a byte.
pub round-less :
    (cfg : Config) (vt : CgiVar) (c : Cgi)
    → (parse_round cfg vt c).0 ≡ go
    → left (parse_round cfg vt c).1.abuf < left c.abuf
unfolding parse_round
round-less cfg vt c =
    let full = leb c.room (length c.text) in
    let c' = if full then (extend_scratch cfg c).1 else c in
    let same : c'.abuf ≡ c.abuf = elim (Bool-cases full) [
      | inl e ↦ rw e (extend_scratch-abuf cfg c)
      | inr e ↦ rw e refl
    ] in
    let size : left c'.abuf ≡ left c.abuf = ap left same in
    elim (Bool-cases (full && not (extend_scratch cfg c).0)) [
      | inl e ↦ rw e (λ f. absurd (go_stops abuf_overflow f))
      | inr e ↦ rw e (λ f.
          let less = on_got-less vt (get c'.abuf) (left c'.abuf) c' (get-Uses c'.abuf) f in
          omega (arith, less, size))
    ]
