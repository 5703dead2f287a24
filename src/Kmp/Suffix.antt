-- ===== src/Kmp/Suffix.antt =====
-- A text ends in the pattern exactly if the pattern `Ends` there at its whole length.
use native.Mathlib.Decide.{dec_le}
use okws.Prelude.{
  ℕ, zero, suc, ◌+◌, ◌-◌, ◌≤◌, ◌<◌, ◌≡◌, ◌↔◌, refl, sym, ap, ◌∙◌, arith, Bytes, [], ◌∷◌, ◌++◌,
  length, length-append,
}
use okws.Kmp.Match.{Ends}
use okws.Kmp.{at}

-- `p` is the end of `t`.
abbrev pub IsSuffix : Bytes → Bytes → Type 0
IsSuffix p t = (before : Bytes) × (before ++ p ≡ t)

pub at-append : (a b : Bytes) (i : ℕ) → at (a ++ b) (length a + i) ≡ at b i
at-append [] b i = ap (at b) (omega arith)
at-append (x ∷ a) b i =
    let e : suc (length a) + i ≡ suc (length a + i) = omega arith in rw e (at-append a b i)

pub at-before : (a b : Bytes) (i : ℕ) → i < length a → at (a ++ b) i ≡ at a i
at-before [] b i h = absurd (omega arith)
at-before (x ∷ a) b zero h = refl
at-before (x ∷ a) b (suc i) h = at-before a b i (omega arith)

Ends-append : (a p : Bytes) → Ends (at p) (at (a ++ p)) (length (a ++ p)) (length p)
Ends-append a p = record {
  fits = omega (arith, length-append a p);
  agrees = λ i lt.
      let e : length (a ++ p) - length p + i ≡ length a + i = omega (arith, length-append a p) in
      rw e (sym (at-append a p i));
}

bytes_ext : (a b : Bytes) → length a ≡ length b → ((i : ℕ) → i < length a → at a i ≡ at b i) → a ≡ b
bytes_ext [] [] len h = refl
bytes_ext [] (y ∷ b) len h = absurd (omega arith)
bytes_ext (x ∷ a) [] len h = absurd (omega arith)
bytes_ext (x ∷ a) (y ∷ b) len h =
    cc (h 0 (omega arith), bytes_ext a b (omega arith) (λ i lt. h (suc i) (omega arith)))

Ends-cons :
    (p : Bytes) (x : ℕ) (t : Bytes)
    → length p ≤ length t
    → Ends (at p) (at (x ∷ t)) (suc (length t)) (length p)
    → Ends (at p) (at t) (length t) (length p)
Ends-cons p x t le e = record {
  fits = le;
  agrees = λ i lt.
      let s : suc (length t) - length p + i ≡ suc (length t - length p + i) = omega arith in
      e.agrees i lt ∙ ap (at (x ∷ t)) s;
}

IsSuffix-of_Ends : (p t : Bytes) → Ends (at p) (at t) (length t) (length p) → IsSuffix p t
IsSuffix-of_Ends p [] e =
    ([], bytes_ext p [] (omega (arith, e.fits)) (λ i lt. absurd (omega (arith, e.fits))))
IsSuffix-of_Ends p (x ∷ t) e = elim (dec_le (length p) (length t)) [
  | yes le ↦ let (a, h) = IsSuffix-of_Ends p t (Ends-cons p x t le e) in (x ∷ a, ap (◌∷◌ x) h)
  | no gt ↦ (
    [],
    bytes_ext p (x ∷ t) (omega (arith, e.fits)) (λ i lt.
        let z : suc (length t) - length p + i ≡ i = omega (arith, e.fits) in
        rw z at (e.agrees i lt)),
  )
]

pub IsSuffix-iff : (p t : Bytes) → Ends (at p) (at t) (length t) (length p) ↔ IsSuffix p t
IsSuffix-iff p t = (IsSuffix-of_Ends p t, λ s. rw s.1 at (Ends-append s.0 p))
