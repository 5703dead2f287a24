-- ===== src/Suiolite/Fifo.antt =====
-- The ring is a queue of bytes: what was loaded comes out in the same order.
use okws.Prelude.{
  ℕ, ◌+◌, ◌-◌, ◌<◌, ◌≤◌, ◌≡◌, ◌⊎◌, inl, inr, refl, sym, ap, ◌∙◌, arith, Bytes, ◌++◌, length,
  length-append, leb, some, Bool-cases,
}
use mathlib.Core.List.{append-nil, append_assoc}
use okws.Suiolite.{Suiolite, slice, drop, resid, rembytes}
use okws.Suiolite.Ring.{length-slice, slice-split, drop-append}

-- The invariants of suiolite.h, with the order of the pointers: in configuration 1 the data of the
-- second region reach the end of the buffer, in configuration 2 the first region is empty.
pub record IsRing (s : Suiolite) : Type 0 where
  pub ordered : (s.dep0 ≤ s.rp) × (s.rp ≤ s.dep1) × (s.dep1 ≤ s.len)
  pub configuration : (s.dep1 ≡ s.len) ⊎ (s.dep0 ≡ 0)

-- The bytes that wait, in the order in which they are read.
unfoldable pub contents : Suiolite → Bytes
unfolding slice
contents s = slice s.mem s.rp (s.dep1 - s.rp) ++ slice s.mem 0 s.dep0

pub length-contents : (s : Suiolite) → length (contents s) ≡ resid s
unfolding contents resid
length-contents s = omega (
  arith,
  length-append (slice s.mem s.rp (s.dep1 - s.rp)) (slice s.mem 0 s.dep0),
  length-slice s.mem s.rp (s.dep1 - s.rp),
  length-slice s.mem 0 s.dep0,
)

-- `n` bytes of the piece that is read first are dropped.
drop-first :
    (s : Suiolite) (n : ℕ)
    → s.rp + n ≤ s.dep1
    → drop n (contents s) ≡ slice s.mem (s.rp + n) (s.dep1 - (s.rp + n)) ++ slice s.mem 0 s.dep0
unfolding contents
drop-first s n h =
    let x = slice s.mem s.rp n in
    let y = slice s.mem (s.rp + n) (s.dep1 - (s.rp + n)) in
    let size : s.dep1 - s.rp ≡ n + (s.dep1 - (s.rp + n)) = omega arith in
    let cut : slice s.mem s.rp (s.dep1 - s.rp) ≡ x ++ y =
      ap (λ k. slice s.mem s.rp k) size ∙ slice-split s.mem s.rp n (s.dep1 - (s.rp + n)) in
    ap (λ z. drop n (z ++ slice s.mem 0 s.dep0)) cut
    ∙ ap (λ z. drop n z) (append_assoc x y (slice s.mem 0 s.dep0))
    ∙ drop-append x (y ++ slice s.mem 0 s.dep0) n (length-slice s.mem s.rp n)

-- All of the first piece and `k` bytes of the second.
drop-wrapped :
    (s : Suiolite) (n k : ℕ)
    → n ≡ (s.dep1 - s.rp) + k
    → k ≤ s.dep0
    → drop n (contents s) ≡ slice s.mem k (s.dep0 - k)
unfolding contents
drop-wrapped s n k e le =
    let x = slice s.mem s.rp (s.dep1 - s.rp) in
    let y = slice s.mem 0 k in
    let z = slice s.mem k (s.dep0 - k) in
    let size : s.dep0 ≡ k + (s.dep0 - k) = omega arith in
    let from : 0 + k ≡ k = omega arith in
    let cut : slice s.mem 0 s.dep0 ≡ y ++ z =
      ap (λ j. slice s.mem 0 j) size
      ∙ slice-split s.mem 0 k (s.dep0 - k)
      ∙ ap (λ j. y ++ slice s.mem j (s.dep0 - k)) from in
    let len : length (x ++ y) ≡ n =
      omega (
        arith,
        length-append x y,
        length-slice s.mem s.rp (s.dep1 - s.rp),
        length-slice s.mem 0 k,
      ) in
    ap (λ w. drop n (x ++ w)) cut
    ∙ ap (λ w. drop n w) (sym (append_assoc x y z))
    ∙ drop-append (x ++ y) z n len

-- The ring after bytes were removed.
pub record Removed (n : ℕ) (s : Suiolite) : Type 0 where
  pub next : Suiolite
  pub result : rembytes n s ≡ some next
  pub ring : IsRing next
  pub left : contents next ≡ drop n (contents s)

Removed-wrapped : (n : ℕ) (s : Suiolite) → IsRing s → n ≤ resid s → s.len - s.rp ≤ n → Removed n s
unfolding rembytes resid contents
Removed-wrapped n s h le wrap =
    let at_end : s.dep1 ≡ s.len = ground (arith, h.ordered, h.configuration) in
    let k : ℕ = n - (s.len - s.rp) in
    record {
      next = record s { rp = k; dep1 = s.dep0; dep0 = 0 };
      result = ground (arith, le, wrap);
      ring = record {
        ordered =
            (omega arith, omega (arith, at_end, le, wrap, h.ordered), omega (arith, h.ordered));
        configuration = inr refl;
      };
      left =
          append-nil (slice s.mem k (s.dep0 - k))
          ∙ sym (
              drop-wrapped s n k (omega (arith, at_end, le, wrap, h.ordered))
                (omega (arith, at_end, le, wrap, h.ordered)));
    }

Removed-first : (n : ℕ) (s : Suiolite) → IsRing s → n ≤ resid s → n < s.len - s.rp → Removed n s
unfolding rembytes resid contents
Removed-first n s h le room =
    let inside : s.rp + n ≤ s.dep1 = ground (arith, h.ordered, h.configuration) in
    record {
      next = record s { rp = s.rp + n };
      result = ground (arith, le, room);
      ring = record {
        ordered = (omega (arith, h.ordered), inside, omega (arith, h.ordered));
        configuration = h.configuration;
      };
      left = sym (drop-first s n inside);
    }

-- If no more bytes are removed than are there, the assertion holds, the invariants are kept, and
-- the bytes that were read first are gone.
pub rembytes-Removed : (n : ℕ) (s : Suiolite) → IsRing s → n ≤ length (contents s) → Removed n s
rembytes-Removed n s h le =
    let le' : n ≤ resid s = omega (arith, length-contents s) in
    elim (Bool-cases (leb (s.len - s.rp) n)) [
      | inl wrap ↦ Removed-wrapped n s h le' (ground (arith, wrap))
      | inr first ↦ Removed-first n s h le' (ground (arith, first))
    ]
