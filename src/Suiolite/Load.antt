-- ===== src/Suiolite/Load.antt =====
-- Loading bytes into the ring.
use okws.Prelude.{
  ℕ, ◌+◌, ◌-◌, ◌≤◌, ◌≡◌, ◌⊎◌, inl, inr, sym, ap, ◌∙◌, arith, Bytes, [], ◌++◌, length, take, min,
  some,
}
use mathlib.Core.List.{append-nil, append_assoc}
use okws.Suiolite.{
  Suiolite, slice, memcpy, drop, resid, capacity, load, load_from_buffer, account_for_new_bytes,
}
use okws.Suiolite.Ring.{
  slice-split, slice-memcpy_apart, slice-memcpy_self, take-drop, length-drop, take-all,
}
use okws.Suiolite.Fifo.{IsRing, contents}

-- The copies of `nb` and `nb'` bytes, to the ends of the two pieces.
module _ (s : Suiolite) (input : Bytes) (nb nb' : ℕ) (h : IsRing s) (some_input : nb ≤ length input)
    (some_rest : nb' ≤ length (drop nb input)) (below : s.dep0 + nb' ≤ s.rp) where
  abbrev mem1 : ℕ → ℕ
  mem1 = memcpy s.dep1 input nb s.mem

  abbrev mem2 : ℕ → ℕ
  mem2 = memcpy s.dep0 (drop nb input) nb' mem1

  first-piece :
      slice mem2 s.rp (s.dep1 + nb - s.rp) ≡ slice s.mem s.rp (s.dep1 - s.rp) ++ take nb input
  first-piece =
      let size : s.dep1 + nb - s.rp ≡ (s.dep1 - s.rp) + nb = omega (arith, h.ordered) in
      let from : s.rp + (s.dep1 - s.rp) ≡ s.dep1 = omega (arith, h.ordered) in
      let old =
        slice-memcpy_apart s.mem input s.dep1 nb s.rp (s.dep1 - s.rp) (inl (omega (arith, from))) in
      let new = slice-memcpy_self s.mem input s.dep1 nb some_input in
      slice-memcpy_apart mem1 (drop nb input) s.dep0 nb' s.rp (s.dep1 + nb - s.rp) (inr below)
      ∙ ap (λ k. slice mem1 s.rp k) size
      ∙ slice-split mem1 s.rp (s.dep1 - s.rp) nb
      ∙ ap (λ a. slice mem1 s.rp (s.dep1 - s.rp) ++ slice mem1 a nb) from
      ∙ ap (λ x. x ++ slice mem1 s.dep1 nb) old
      ∙ ap (λ x. slice s.mem s.rp (s.dep1 - s.rp) ++ x) new

  second-piece : slice mem2 0 (s.dep0 + nb') ≡ slice s.mem 0 s.dep0 ++ take nb' (drop nb input)
  second-piece =
      let from : 0 + s.dep0 ≡ s.dep0 = omega arith in
      let old =
        slice-memcpy_apart mem1 (drop nb input) s.dep0 nb' 0 s.dep0 (inl (omega arith))
        ∙ slice-memcpy_apart s.mem input s.dep1 nb 0 s.dep0 (inl (omega (arith, h.ordered))) in
      let new = slice-memcpy_self mem1 (drop nb input) s.dep0 nb' some_rest in
      slice-split mem2 0 s.dep0 nb'
      ∙ ap (λ a. slice mem2 0 s.dep0 ++ slice mem2 a nb') from
      ∙ ap (λ x. x ++ slice mem2 s.dep0 nb') old
      ∙ ap (λ x. slice s.mem 0 s.dep0 ++ x) new

-- One of the pieces of new bytes, or the second piece of old ones, is empty.
join :
    (a b input : Bytes) (nb : ℕ)
    → (nb ≡ 0) ⊎ (b ≡ [])
    → (a ++ take nb input) ++ (b ++ drop nb input) ≡ (a ++ b) ++ input
unfolding drop
join a b input nb (inl e) =
    ap (λ n. (a ++ take n input) ++ (b ++ drop n input)) e
    ∙ ap (λ x. x ++ (b ++ input)) (append-nil a)
    ∙ sym (append_assoc a b input)
join a b input nb (inr e) =
    ap (λ x. (a ++ take nb input) ++ (x ++ drop nb input)) e
    ∙ append_assoc a (take nb input) (drop nb input)
    ∙ ap (λ x. a ++ x) (take-drop nb input)
    ∙ ap (λ x. x ++ input) (sym (append-nil a) ∙ ap (λ x. a ++ x) (sym e))

-- The ring after bytes were loaded.
pub record Loaded (input : Bytes) (s : Suiolite) : Type 0 where
  pub next : Suiolite
  pub result : load_from_buffer input s ≡ some (length input, next)
  pub ring : IsRing next
  pub queued : contents next ≡ contents s ++ input

-- If the bytes fit the capacity, all of them are loaded, the invariants are kept, and they wait
-- behind those that were there: no byte that waits is overwritten.
pub load_from_buffer-Loaded :
    (input : Bytes) (s : Suiolite) → IsRing s → length input ≤ capacity s → Loaded input s
unfolding load_from_buffer load capacity resid contents
load_from_buffer-Loaded input s h fits =
    let nb : ℕ = min (length input) (s.len - s.dep1) in
    let nb' : ℕ = min (length (drop nb input)) (s.rp - s.dep0) in
    let rest = length-drop nb input in
    let all : nb' ≡ length (drop nb input) =
      ground (arith, rest, fits, h.ordered, h.configuration) in
    let sum : nb + nb' ≡ length input = omega (arith, all, rest) in
    let below : s.dep0 + nb' ≤ s.rp = omega (arith, h.ordered) in
    let one : (nb ≡ 0) ⊎ (s.dep0 ≡ 0) = ground (arith, h.configuration) in
    let p = first-piece s input nb nb' h (omega arith) (omega arith) below in
    let q = second-piece s input nb nb' h (omega arith) (omega arith) below in
    let empty : (nb ≡ 0) ⊎ (slice s.mem 0 s.dep0 ≡ []) = elim one [
      | inl e ↦ inl e
      | inr e ↦ inr (ap (λ k. slice s.mem 0 k) e)
    ] in
    let whole : take nb' (drop nb input) ≡ drop nb input =
      take-all (drop nb input) nb' (omega (arith, all)) in
    record {
      next = (load input s).1;
      result = ground (arith, fits, sum);
      ring = record {
        ordered = (below, omega (arith, h.ordered), omega (arith, h.ordered));
        configuration = ground (arith, h.configuration, all, rest);
      };
      queued =
          ap (λ x. x ++ slice (load input s).1.mem 0 (s.dep0 + nb')) p
          ∙ ap (λ x. (slice s.mem s.rp (s.dep1 - s.rp) ++ take nb input) ++ x) q
          ∙ ap
              (λ x.
                (slice s.mem s.rp (s.dep1 - s.rp) ++ take nb input) ++ (slice s.mem 0 s.dep0 ++ x))
              whole
          ∙ join (slice s.mem s.rp (s.dep1 - s.rp)) (slice s.mem 0 s.dep0) input nb empty;
    }

-- `input` has the same effect as loading from a buffer: if the bytes fit the capacity and `readv`
-- stores them where `load` does, `account_for_new_bytes` gives the state that `load` leaves.
account_for_new_bytes-load :
    (input : Bytes) (s : Suiolite)
    → IsRing s
    → length input ≤ capacity s
    → account_for_new_bytes (length input) (record s { mem = (load input s).1.mem })
      ≡ (load input s).1
unfolding account_for_new_bytes load capacity resid
account_for_new_bytes-load input s h fits =
    let rest = length-drop (min (length input) (s.len - s.dep1)) input in
    ground (arith, rest, fits, h.ordered, h.configuration)
