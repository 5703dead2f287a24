-- ===== src/Mpfd/Contdisp/Feeds.antt =====
-- The scanning methods on a buffer that holds the whole text.
use okws.Prelude.{
  ℕ, zero, suc, ◌+◌, ◌<◌, ◌≡◌, ◌≢◌, ◌⊎◌, inl, inr, refl, sym, ap, ◌∙◌, arith, Bool, true, false,
  Bytes, [], ◌∷◌, ◌++◌, length, length-append, map, All, ltb, Option, none, some, ◌==◌,
}
use mathlib.Core.List.{append-nil, append_assoc}
use mathlib.Core.Path.{subst}
use okws.Abuf.{Got, chr, AbufStat, abuf_ok, abuf_nomatch, Abuf, get, unget, peek, mirror_byte}
use okws.Abuf.Scan.{skip_hws, requirechar, expectchar, ishws}
use okws.Hdr.{
  Hdr, keep, leave, leave_unget, scan, delimit, delimit_turn, cleared, taken, is_eol, eol,
}
use okws.Hdr.Force.{fold, force_loop}

-- The buffer has no limit and delivers `s` next, with no byte pushed back or with the first one; `n`
-- blanks have been counted.
pub record FeedsAt (n : ℕ) (a : Abuf) (s : Bytes) : Type 0 where
  pub no_lim : a.lim ≡ none
  pub spcs : a.spcs ≡ n
  pub text :
      ((a.bc ≡ false) × (a.cur ≡ s)) ⊎ ((c : ℕ) × (a.bc ≡ true) × (a.lch ≡ chr c) × (s ≡ c ∷ a.cur))

abbrev pub Feeds : Abuf → Bytes → Type 0
Feeds a s = FeedsAt 0 a s

-- One byte was read.
pub record Fed (n : ℕ) (a : Abuf) (c : ℕ) (s : Bytes) : Type 0 where
  pub buf : Abuf
  pub result : get a ≡ (chr c, buf)
  pub feeds : FeedsAt n buf s
  pub back : FeedsAt n (unget buf) (c ∷ s)
  pub uncounted : FeedsAt 0 (unget (record buf { spcs = 0 })) (c ∷ s)

unget-chr : (a : Abuf) (c : ℕ) → a.lch ≡ chr c → unget a ≡ record a { bc = true }
unfolding unget
unget-chr a c e = ground (arith, e)

pub get-Fed : (n : ℕ) (a : Abuf) (c : ℕ) (s : Bytes) → FeedsAt n a (c ∷ s) → Fed n a c s
unfolding get unget
get-Fed n a c s h = elim h.text [
  | inl (b, e) ↦ record {
    buf = record a {
      ccnt = a.ccnt + 1;
      mirrored = mirror_byte a.mirrored c;
      lch = chr c;
      cur = s;
      used = a.used + 1;
    };
    result = ground (arith, b, e, h.no_lim);
    feeds = record { no_lim = h.no_lim; spcs = h.spcs; text = inl (b, refl) };
    back = record { no_lim = h.no_lim; spcs = h.spcs; text = inr (c, refl, refl, refl) };
    uncounted = record { no_lim = h.no_lim; spcs = refl; text = inr (c, refl, refl, refl) };
  }
  | inr (d, b, l, e) ↦
      let tail : a.cur ≡ s = cc e in
      let head : a.lch ≡ chr c = l ∙ ap chr (cc e) in
      record {
        buf = record a { bc = false };
        result = ground (arith, b, head);
        feeds = record { no_lim = h.no_lim; spcs = h.spcs; text = inl (refl, tail) };
        back =
            subst (λ x. FeedsAt n x (c ∷ s)) (sym (unget-chr (record a { bc = false }) c head))
              (record {
                no_lim = h.no_lim;
                spcs = h.spcs;
                text = inr (c, refl, head, ap (λ t. c ∷ t) (sym tail));
              });
        uncounted =
            subst (λ x. FeedsAt 0 x (c ∷ s))
              (sym (unget-chr (record a { bc = false; spcs = 0 }) c head))
              (record {
                no_lim = h.no_lim;
                spcs = refl;
                text = inr (c, refl, head, ap (λ t. c ∷ t) (sym tail));
              });
      }
]

-- A text that a word is read from: no byte of it is the stop or ends a line.
abbrev pub IsPlain : ℕ → Bytes → Type 0
IsPlain stop t = All (λ c. (c ≢ stop) × (is_eol c ≡ false)) t

abbrev pub behind : Bool → ℕ → Bytes → Bytes
behind true stop s = s
behind false stop s = stop ∷ s

-- What `delimit` makes of a word that ends in the stop character.
pub record Delimited (gobble tol : Bool) (stop : ℕ) (t s : Bytes) (h : Hdr)
    (r : AbufStat × Option Bytes × Hdr) : Type 0 where
  pub hdr : Hdr
  pub result : r ≡ (abuf_ok, some (h.word ++ map (fold tol) t), hdr)
  pub feeds : Feeds hdr.abuf (behind gobble stop s)
  pub word : hdr.word ≡ []
  pub room : hdr.room ≡ length h.word + h.room

-- The loop, before the scratch area is cleared.
record Scanned (gobble tol : Bool) (stop : ℕ) (t s : Bytes) (h : Hdr)
    (r : AbufStat × Option Got × Hdr) : Type 0 where
  hdr : Hdr
  result : r ≡ (abuf_ok, some (chr stop), hdr)
  feeds : Feeds hdr.abuf (behind gobble stop s)
  word : hdr.word ≡ h.word ++ map (fold tol) t
  room : length hdr.word + hdr.room ≡ length h.word + h.room

turn_gobbles : (stop : ℕ) (tol : Bool) → delimit_turn stop tol true (chr stop) ≡ leave abuf_ok
unfolding delimit_turn
turn_gobbles stop tol = ground arith

turn_stops : (stop : ℕ) (tol : Bool) → delimit_turn stop tol false (chr stop) ≡ leave_unget abuf_ok
unfolding delimit_turn
turn_stops stop tol = ground arith

pub turn_keeps :
    (stop : ℕ) (tol gobble : Bool) (c : ℕ)
    → c ≢ stop
    → is_eol c ≡ false
    → delimit_turn stop tol gobble (chr c) ≡ keep (fold tol c)
unfolding delimit_turn
turn_keeps stop tol gobble c ne not_eol = ground (arith, ne, not_eol)

scan-Scanned :
    (gobble tol : Bool) (stop : ℕ) (t s : Bytes) (n : ℕ) (h : Hdr)
    → IsPlain stop t
    → Feeds h.abuf (t ++ stop ∷ s)
    → h.room ≡ n
    → length t < n
    → Scanned gobble tol stop t s h (scan (delimit_turn stop tol gobble) n h)
unfolding scan
scan-Scanned gobble tol stop t s zero h plain f e lt = absurd (omega arith)
scan-Scanned true tol stop [] s (suc n) h plain f e lt =
    let g = get-Fed 0 h.abuf stop s f in
    record {
      hdr = record h { abuf = g.buf };
      result = rw (g.result, turn_gobbles stop tol) refl;
      feeds = g.feeds;
      word = sym (append-nil h.word);
      room = refl;
    }
scan-Scanned false tol stop [] s (suc n) h plain f e lt =
    let g = get-Fed 0 h.abuf stop s f in
    record {
      hdr = record h { abuf = unget g.buf };
      result = rw (g.result, turn_stops stop tol) refl;
      feeds = g.back;
      word = sym (append-nil h.word);
      room = refl;
    }
scan-Scanned gobble tol stop (c ∷ t) s (suc n) h ((ne, not_eol), plain) f e lt =
    let g = get-Fed 0 h.abuf c (t ++ stop ∷ s) f in
    let h' = record h { abuf = g.buf; word = h.word ++ fold tol c ∷ []; room = n } in
    let r = scan-Scanned gobble tol stop t s n h' plain g.feeds refl (omega (arith, lt)) in
    record {
      hdr = r.hdr;
      result = rw (g.result, turn_keeps stop tol gobble c ne not_eol) r.result;
      feeds = r.feeds;
      word = r.word ∙ append_assoc h.word (fold tol c ∷ []) (map (fold tol) t);
      room = omega (arith, r.room, e, length-append h.word (fold tol c ∷ []));
    }

pub delimit-Delimited :
    (gobble tol : Bool) (stop : ℕ) (t s : Bytes) (h : Hdr)
    → IsPlain stop t
    → Feeds h.abuf (t ++ stop ∷ s)
    → length t < h.room
    → Delimited gobble tol stop t s h (delimit stop tol gobble h)
unfolding delimit
delimit-Delimited gobble tol stop t s h plain f lt =
    let r = scan-Scanned gobble tol stop t s h.room h plain f refl lt in
    record {
      hdr = cleared r.hdr;
      result = ap taken r.result ∙ ap (λ w. (abuf_ok, some w, cleared r.hdr)) r.word;
      feeds = r.feeds;
      word = refl;
      room = r.room;
    }

-- One blank, and then a byte that is none.
pub skip_hws-Feeds :
    (fuel mn c : ℕ) (s : Bytes) (a : Abuf)
    → ltb 1 mn ≡ false
    → ishws c ≡ false
    → Feeds a (b' ' ∷ c ∷ s)
    → (buf : Abuf) × (skip_hws (suc (suc fuel)) mn a ≡ some (abuf_ok, buf)) × Feeds buf (c ∷ s)
unfolding skip_hws unget
skip_hws-Feeds fuel mn c s a few not_blank f =
    let g = get-Fed 0 a b' ' (c ∷ s) f in
    let next = record g.buf { spcs = g.buf.spcs + 1 } in
    let one : g.buf.spcs + 1 ≡ 1 = omega (arith, g.feeds.spcs) in
    let k =
      get-Fed 1 next c s (record { no_lim = g.feeds.no_lim; spcs = one; text = g.feeds.text }) in
    (
      unget (record k.buf { spcs = 0 }),
      rw (g.result, k.result, not_blank, k.feeds.spcs, few) refl,
      k.uncounted,
    )

pub force_loop-Feeds :
    (tol : Bool) (t s : Bytes) (a : Abuf)
    → Feeds a (t ++ s)
    → (buf : Abuf) × (force_loop tol t a ≡ (abuf_ok, [], buf)) × Feeds buf s
unfolding force_loop
force_loop-Feeds tol [] s a f = (a, refl, f)
force_loop-Feeds tol (c ∷ t) s a f =
    let g = get-Fed 0 a c (t ++ s) f in
    let (buf, e, k) = force_loop-Feeds tol t s g.buf g.feeds in
    let same : fold tol c == fold tol c ≡ true = ground arith in (buf, rw (g.result, same) e, k)

-- The next byte ends no line.
pub eol-Feeds :
    (c : ℕ) (s : Bytes) (h : Hdr)
    → is_eol c ≡ false
    → Feeds h.abuf (c ∷ s)
    → (buf : Abuf) × (eol h ≡ (abuf_nomatch, record h { abuf = buf })) × Feeds buf (c ∷ s)
unfolding eol peek
eol-Feeds c s h not_eol f =
    let g = get-Fed 0 h.abuf c s f in (unget g.buf, rw (g.result, not_eol) refl, g.back)

pub requirechar-Feeds :
    (c : ℕ) (s : Bytes) (a : Abuf)
    → Feeds a (c ∷ s)
    → (buf : Abuf) × (requirechar c a ≡ (abuf_ok, buf)) × Feeds buf s
unfolding requirechar expectchar
requirechar-Feeds c s a f =
    let g = get-Fed 0 a c s f in
    let same : c == c ≡ true = ground arith in (g.buf, rw (g.result, same) refl, g.feeds)
