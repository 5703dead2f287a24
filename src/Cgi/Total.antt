-- ===== src/Cgi/Total.antt =====
-- `parse_key_or_val` ends: each round of its loop uses up a byte.
mod Rounds
use okws.Prelude.{
  ℕ, zero, suc, ◌<◌, ◌≡◌, ◌⊎◌, inl, inr, refl, ap, ◌∙◌, arith, Bool, true, false, Bytes, [], ◌∷◌,
  length, Option, none, some, if◌then◌else◌,
}
use okws.Abuf.{
  AbufStat, abuf_ok, abuf_parse_err, abuf_eof, abuf_overflow, abuf_wait, abuf_nomatch,
  abuf_continue, abuf_complete, abuf_separator, abuf_t, abuf_str_t,
}
use okws.Abuf.Left.{left}
use okws.Cgi.State.{CgiVar, cgi_none, Config, Cgi, cgi_t, is_eof, parse_hexchar}
use okws.Cgi.Loop.{Flow, go, stop, parse_round, parse_loop, after_loop, finished, parse_key_or_val}
use okws.Cgi.Guts.{cgi_decode}
use Rounds.{round-less, parse_hexchar-left}

Flow-cases : (p : Flow × Cgi) → (p ≡ (go, p.1)) ⊎ ((r : AbufStat) × (p ≡ (stop r, p.1)))
Flow-cases (go, c) = inl refl
Flow-cases (stop r, c) = inr (r, refl)

loop_on :
    (fuel : ℕ) (cfg : Config) (vt : CgiVar) (c c' : Cgi)
    → parse_round cfg vt c ≡ (go, c')
    → parse_loop (suc fuel) cfg vt c ≡ parse_loop fuel cfg vt c'
unfolding parse_loop
loop_on fuel cfg vt c c' e = ground (arith, e)

loop_off :
    (fuel : ℕ) (cfg : Config) (vt : CgiVar) (c c' : Cgi) (r : AbufStat)
    → parse_round cfg vt c ≡ (stop r, c')
    → parse_loop (suc fuel) cfg vt c ≡ some (r, c')
unfolding parse_loop
loop_off fuel cfg vt c c' r e = ground (arith, e)

parse_loop_total :
    (fuel : ℕ) (cfg : Config) (vt : CgiVar) (c : Cgi)
    → left c.abuf < fuel
    → (r : AbufStat × Cgi) × (parse_loop fuel cfg vt c ≡ some r)
parse_loop_total zero cfg vt c h = absurd (omega arith)
parse_loop_total (suc fuel) cfg vt c h =
    let c' = (parse_round cfg vt c).1 in
    elim (Flow-cases (parse_round cfg vt c)) [
      | inl e ↦
          let less = round-less cfg vt c (ap (λ (p : Flow × Cgi). p.0) e) in
          let (r, later) = parse_loop_total fuel cfg vt c' (omega (arith, less, h)) in
          (r, loop_on fuel cfg vt c c' e ∙ later)
      | inr (r, e) ↦ ((r, c'), loop_off fuel cfg vt c c' r e)
    ]

-- A result of the loop, or of the rest of a %xx, gives a result of the call.
abbrev Returns : Option (AbufStat × Option Bytes × Cgi) → Type 0
Returns x = (r : AbufStat × Option Bytes × Cgi) × (x ≡ some r)

after_loop-Returns :
    (cfg : Config) (x : Option (AbufStat × Cgi))
    → (r : AbufStat × Cgi) × (x ≡ some r)
    → Returns (after_loop cfg x)
after_loop-Returns cfg x (r, e) = (finished cfg r.0 r.1, ap (after_loop cfg) e)

Returns-if :
    (b : Bool) (x y : Option (AbufStat × Option Bytes × Cgi))
    → Returns x
    → Returns y
    → Returns (if b then x else y)
Returns-if true x y hx hy = hx
Returns-if false x y hx hy = hy

hexed-Returns :
    (rc : AbufStat) (c : Cgi) (x : Option (AbufStat × Option Bytes × Cgi))
    → Returns x
    → Returns (elim rc [
      | abuf_wait ↦ some (abuf_wait, none, c)
      | abuf_eof ↦ some (abuf_eof, none, c)
      | _ ↦ x
    ])
hexed-Returns abuf_wait c x h = (_, refl)
hexed-Returns abuf_eof c x h = (_, refl)
hexed-Returns abuf_ok c x h = h
hexed-Returns abuf_parse_err c x h = h
hexed-Returns abuf_overflow c x h = h
hexed-Returns abuf_nomatch c x h = h
hexed-Returns abuf_continue c x h = h
hexed-Returns abuf_complete c x h = h
hexed-Returns abuf_separator c x h = h

-- A call of `parse_key_or_val`, from any state, with more fuel than the buffer and its source still
-- have bytes, returns.
pub parse_key_or_val_total :
    (fuel : ℕ) (cfg : Config) (use_internal_state : Bool) (c : Cgi)
    → left c.abuf < fuel
    → (r : AbufStat × Option Bytes × Cgi) × (parse_key_or_val fuel cfg use_internal_state c
        ≡ some r)
unfolding parse_key_or_val
parse_key_or_val_total fuel cfg use_internal_state c h =
    let vt = if use_internal_state then c.pstate else cgi_none in
    let hexed = parse_hexchar c in
    let less = parse_hexchar-left c in
    Returns-if c.inhex _ _
      (hexed-Returns hexed.0 hexed.1 _ (
        after_loop-Returns cfg _ (
          parse_loop_total fuel cfg vt (record hexed.1 { inhex = false })
            (omega (arith, less, h)))))
      (after_loop-Returns cfg _ (parse_loop_total fuel cfg vt c h))

left-str : (s : Bytes) (room : ℕ) → left (cgi_t (abuf_t (abuf_str_t s)) false room).abuf ≡ length s
unfolding left
left-str [] room = refl
left-str (c ∷ s) room = omega arith

-- `cgi_decode` of any text, with more fuel than it has bytes, returns.
pub cgi_decode_total :
    (fuel : ℕ) (cfg : Config) (s : Bytes)
    → length s < fuel
    → (r : Option Bytes) × (cgi_decode fuel cfg s ≡ some r)
unfolding cgi_decode
cgi_decode_total fuel cfg s h =
    let c = cgi_t (abuf_t (abuf_str_t s)) false cfg.dflt_cgibuf_sz in
    let bytes = left-str s cfg.dflt_cgibuf_sz in
    let (r, e) = parse_key_or_val_total fuel cfg false c (omega (arith, bytes, h)) in
    ((if is_eof r.0 then r.1 else none), rw e refl)
