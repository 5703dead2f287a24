-- ===== src/Hdr/Force.antt =====
-- libahttp/hdr.C: `force_match`, which reads a given string and can wait in the middle of it.
use okws.Prelude.{
  ℕ, zero, suc, length, ◌≡◌, ◌≢◌, inl, inr, refl, sym, ap, ◌∙◌, arith, Bool, true, false, Bytes, [],
  ◌∷◌, ◌++◌, map, ◌==◌, if◌then◌else◌, Option, none, some, Bool-cases,
}
use mathlib.Core.Path.{subst}
use okws.Abuf.{AbufStat, abuf_ok, abuf_parse_err, abuf_wait, Got, chr, eofchar, waitchar, Abuf, get}
use okws.Abuf.Stream.{rest, IsStream}
use okws.Abuf.Gets.{get-Gets}
use okws.Kmp.{tolower}

-- The fields of `http_hdr_t` that `force_match` uses. `curr_match` is the address of the string it
-- waits in the middle of.
pub record Forcing : Type 0 where
  pub abuf : Abuf
  pub curr_match : Option ℕ
  pub fmcp : Bytes

abbrev pub fold : Bool → ℕ → ℕ
fold tol c = if tol then tolower c else c

-- A round of the loop; the string from `cp` on is `d` and `ds`.
abbrev pub on_forced :
    (Abuf → AbufStat × Bytes × Abuf) → Bool → ℕ → Bytes → Got × Abuf → AbufStat × Bytes × Abuf
on_forced again tol d ds (waitchar, a) = (abuf_wait, d ∷ ds, a)
on_forced again tol d ds (eofchar, a) = (abuf_parse_err, d ∷ ds, a)
on_forced again tol d ds (chr c, a) =
    if fold tol c == fold tol d then again a else (abuf_parse_err, d ∷ ds, a)

-- The loop, with the string from `cp` on, and what is left of it.
unfoldable pub force_loop : Bool → Bytes → Abuf → AbufStat × Bytes × Abuf
unfolding get tolower
force_loop tol [] a = (abuf_ok, [], a)
force_loop tol (d ∷ ds) a =
    let again = λ (a' : Abuf). force_loop tol ds a' in on_forced again tol d ds (get a)

abbrev pub is_curr : Option ℕ → ℕ → Bool
is_curr none at = false
is_curr (some m) at = m == at

-- Behind the loop.
abbrev pub forced_done : ℕ → AbufStat × Bytes × Abuf → AbufStat × Forcing
forced_done at (abuf_ok, cp, a) = (abuf_ok, record { abuf = a; curr_match = none; fmcp = [] })
forced_done at (abuf_parse_err, cp, a) =
    (abuf_parse_err, record { abuf = a; curr_match = none; fmcp = [] })
forced_done at (r, cp, a) = (r, record { abuf = a; curr_match = some at; fmcp = cp })

-- `at` is the address of the string `s`, which is not empty.
unfoldable pub force_match : ℕ → Bytes → Bool → Forcing → AbufStat × Forcing
unfolding force_loop
force_match at s tol h =
    forced_done at (force_loop tol (if is_curr h.curr_match at then h.fmcp else s) h.abuf)

-- The buffer behind `n` calls of `get`.
abbrev pub after : ℕ → Abuf → Abuf
after zero a = a
after (suc n) a = after n (get a).1

-- How the reading of a string ends at the buffer `at`, with `left` still wanted and `bad` read that
-- does not agree: `buf` is what the next call of `get` leaves, if there is one.
abbrev pub Ending : Bool → AbufStat → Bytes → Bytes → Abuf → Abuf → Type 0
Ending tol abuf_ok left bad at buf = (left ≡ []) × (bad ≡ []) × (at ≡ buf)
Ending tol abuf_wait left bad at buf = (left ≢ []) × (bad ≡ []) × (get at ≡ (waitchar, buf))
Ending tol abuf_parse_err (d ∷ ds) [] at buf = (rest buf ≡ []) × (get at ≡ (eofchar, buf))
Ending tol abuf_parse_err (d ∷ ds) (c ∷ []) at buf =
    (fold tol c ≢ fold tol d) × (get at ≡ (chr c, buf))
Ending tol _ left bad at buf = ⊥

-- `cp` was wanted; `front` was read and agrees with the front of it.
pub record Forced (tol : Bool) (cp : Bytes) (a : Abuf) (r : AbufStat × Bytes × Abuf) : Type 0 where
  pub stat : AbufStat
  pub front : Bytes
  pub left : Bytes
  pub bad : Bytes
  pub buf : Abuf
  pub result : r ≡ (stat, left, buf)
  pub taken : rest a ≡ front ++ (bad ++ rest buf)
  pub agrees : map (fold tol) front ++ map (fold tol) left ≡ map (fold tol) cp
  pub stream : IsStream buf
  pub how : Ending tol stat left bad (after (length front) a) buf

same_byte : (m n : ℕ) → (m == n) ≡ true → m ≡ n
same_byte m n e = ground (arith, e)

other_byte : (m n : ℕ) → (m == n) ≡ false → m ≢ n
other_byte m n e = ground (arith, e)

if_true {ℓ} : {A : Type ℓ} → {t : Bool} {x : A} (y : A) → t ≡ true → (if t then x else y) ≡ x
if_true {x = x} y e = ap (λ b. if b then x else y) e

if_false {ℓ} : {A : Type ℓ} → {t : Bool} (x : A) {y : A} → t ≡ false → (if t then x else y) ≡ y
if_false x {y = y} e = ap (λ b. if b then x else y) e

force_loop-Forced :
    (tol : Bool) (cp : Bytes) (a : Abuf) → IsStream a → Forced tol cp a (force_loop tol cp a)
unfolding force_loop
force_loop-Forced tol [] a h = record {
  stat = abuf_ok;
  front = [];
  left = [];
  bad = [];
  buf = a;
  result = refl;
  taken = refl;
  agrees = refl;
  stream = h;
  how = (refl, refl, refl);
}
force_loop-Forced tol (d ∷ ds) a h = elim (get-Gets a h) [
  | inl (c, a', g) ↦ elim (Bool-cases (fold tol c == fold tol d)) [
    | inl same ↦
        let later = force_loop-Forced tol ds a' g.stream in
        record {
          stat = later.stat;
          front = c ∷ later.front;
          left = later.left;
          bad = later.bad;
          buf = later.buf;
          result =
              ap (on_forced (λ x. force_loop tol ds x) tol d ds) g.result
              ∙ if_true _ same
              ∙ later.result;
          taken = g.taken ∙ ap (λ s. c ∷ s) later.taken;
          agrees =
              ap (λ x. x ∷ (map (fold tol) later.front ++ map (fold tol) later.left))
                (same_byte (fold tol c) (fold tol d) same)
              ∙ ap (λ s. fold tol d ∷ s) later.agrees;
          stream = later.stream;
          how =
              subst
                (λ x.
                  Ending tol later.stat later.left later.bad (after (length later.front) x)
                    later.buf)
                (sym (ap (λ (x : Got × Abuf). x.1) g.result)) later.how;
        }
    | inr differs ↦ record {
      stat = abuf_parse_err;
      front = [];
      left = d ∷ ds;
      bad = c ∷ [];
      buf = a';
      result = ap (on_forced (λ x. force_loop tol ds x) tol d ds) g.result ∙ if_false _ differs;
      taken = g.taken;
      agrees = refl;
      stream = g.stream;
      how = (other_byte (fold tol c) (fold tol d) differs, g.result);
    }
  ]
  | inr (inl (a', g)) ↦ record {
    stat = abuf_parse_err;
    front = [];
    left = d ∷ ds;
    bad = [];
    buf = a';
    result = ap (on_forced (λ x. force_loop tol ds x) tol d ds) g.result;
    taken = g.ended ∙ sym g.still;
    agrees = refl;
    stream = g.stream;
    how = (g.still, g.result);
  }
  | inr (inr (a', g)) ↦ record {
    stat = abuf_wait;
    front = [];
    left = d ∷ ds;
    bad = [];
    buf = a';
    result = ap (on_forced (λ x. force_loop tol ds x) tol d ds) g.result;
    taken = sym g.same;
    agrees = refl;
    stream = g.stream;
    how = (λ e. ground (arith, e), refl, g.result);
  }
]

-- What is wanted: the rest of the string if it is the one that the last call waited in.
abbrev pub wanted : ℕ → Bytes → Forcing → Bytes
wanted at s h = if is_curr h.curr_match at then h.fmcp else s

abbrev pub kept : ℕ → AbufStat → Bytes → Abuf → Forcing
kept at abuf_wait left a = record { abuf = a; curr_match = some at; fmcp = left }
kept at r left a = record { abuf = a; curr_match = none; fmcp = [] }

-- As `Forced`, with what the parser keeps for the next call.
pub record Matched (at : ℕ) (tol : Bool) (cp : Bytes) (a : Abuf) (r : AbufStat × Forcing)
    : Type 0 where
  pub stat : AbufStat
  pub front : Bytes
  pub left : Bytes
  pub bad : Bytes
  pub buf : Abuf
  pub result : r ≡ (stat, kept at stat left buf)
  pub taken : rest a ≡ front ++ (bad ++ rest buf)
  pub agrees : map (fold tol) front ++ map (fold tol) left ≡ map (fold tol) cp
  pub stream : IsStream buf
  pub how : Ending tol stat left bad (after (length front) a) buf

forced_done-kept :
    (at : ℕ) (tol : Bool) (stat : AbufStat) (left bad : Bytes) (at_end a : Abuf)
    → Ending tol stat left bad at_end a
    → forced_done at (stat, left, a) ≡ (stat, kept at stat left a)
forced_done-kept at tol abuf_ok left bad at_end a e = refl
forced_done-kept at tol abuf_parse_err left bad at_end a e = refl
forced_done-kept at tol abuf_wait left bad at_end a e = refl
forced_done-kept at tol _ left bad at_end a e = absurd e

-- A call of `force_match` on a buffer whose source keeps to its protocol, for the rest of the
-- string if the last call waited in it, else for the whole of it, reads a front of the wanted bytes
-- (up to the case of letters, if `tol`), by one call of `get` for each. It answers ABUF_OK if that is
-- all of them; ABUF_WAIT if the next call of `get`, with bytes still wanted, gives ABUF_WAITCHAR, and
-- then keeps those bytes for the next call; ABUF_PARSE_ERR if that call gives ABUF_EOFCHAR at the end
-- of the source, or a byte that differs from the next one wanted. Unless it waits, it forgets the string.
pub force_match-Matched :
    (at : ℕ) (s : Bytes) (tol : Bool) (h : Forcing)
    → IsStream h.abuf
    → Matched at tol (wanted at s h) h.abuf (force_match at s tol h)
unfolding force_match
force_match-Matched at s tol h stream =
    let f = force_loop-Forced tol (wanted at s h) h.abuf stream in
    record {
      stat = f.stat;
      front = f.front;
      left = f.left;
      bad = f.bad;
      buf = f.buf;
      result =
          ap (forced_done at) f.result
          ∙ forced_done-kept at tol f.stat f.left f.bad (after (length f.front) h.abuf) f.buf f.how;
      taken = f.taken;
      agrees = f.agrees;
      stream = f.stream;
      how = f.how;
    }
