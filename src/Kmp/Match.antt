-- ===== src/Kmp/Match.antt =====
-- The specification of a search: which prefixes of a pattern end at a place of a text.
use native.Mathlib.Decide.{dec_lt}
use okws.Prelude.{ℕ, suc, ◌+◌, ◌-◌, ◌≤◌, ◌<◌, ◌≡◌, sym, ap, ◌∙◌, arith}

-- The first `k` bytes of the pattern `p` are the last `k` of the first `n` bytes of the text `t`.
pub record Ends (p t : ℕ → ℕ) (n k : ℕ) : Type 0 where
  pub fits : k ≤ n
  pub agrees : (i : ℕ) → i < k → p i ≡ t (n - k + i)

module _ {p t : ℕ → ℕ} where
  pub Ends-zero : (n : ℕ) → Ends p t n 0
  Ends-zero n = record { fits = omega arith; agrees = λ i h. absurd (omega arith) }

  pub Ends-extend : {n k : ℕ} → Ends p t n k → p k ≡ t n → Ends p t (n + 1) (k + 1)
  Ends-extend {n} {k} e h = record {
    fits = omega (arith, e.fits);
    agrees = λ i lt. elim (dec_lt i k) [
      | yes below ↦ e.agrees i below ∙ ap t (omega (arith, e.fits))
      | no top ↦ ap p (omega arith) ∙ h ∙ ap t (omega (arith, e.fits))
    ];
  }

  pub Ends-shrink : {n k : ℕ} → Ends p t (n + 1) (suc k) → Ends p t n k
  Ends-shrink {n} {k} e = record {
    fits = omega (arith, e.fits);
    agrees = λ i lt. e.agrees i (omega arith) ∙ ap t (omega (arith, e.fits));
  }

  pub Ends-last : {n k : ℕ} → Ends p t (n + 1) (suc k) → p k ≡ t n
  Ends-last {n} {k} e = e.agrees k (omega arith) ∙ ap t (omega (arith, e.fits))

  -- A shorter prefix ends at the same place exactly if it is a border of the longer one.
  pub Ends-border : {n q k : ℕ} → Ends p t n q → Ends p t n k → k ≤ q → Ends p p q k
  Ends-border {n} {q} {k} e f le = record {
    fits = le;
    agrees = λ i lt.
        f.agrees i lt
        ∙ ap t (omega (arith, e.fits, f.fits))
        ∙ sym (e.agrees (q - k + i) (omega arith));
  }

  pub Ends-of_border : {n q k : ℕ} → Ends p t n q → Ends p p q k → Ends p t n k
  Ends-of_border {n} {q} {k} e f = record {
    fits = omega (arith, e.fits, f.fits);
    agrees = λ i lt.
        f.agrees i lt
        ∙ e.agrees (q - k + i) (omega (arith, f.fits))
        ∙ ap t (omega (arith, e.fits, f.fits));
  }
