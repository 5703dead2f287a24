-- ===== src/Kmp/Preproc.antt =====
-- `preproc` fills the table with the longest border of every prefix.
use native.Mathlib.Decide.{ℕ_discrete}
use okws.Prelude.{
  ℕ, zero, suc, ◌+◌, ◌-◌, ◌<◌, ◌≡◌, ◌≢◌, refl, arith, Bytes, List, get_or, set, length, length-set,
  get_or-set_self, get_or-set_ne, length-replicate, replicate,
}
use okws.Kmp.Match.{Ends-zero}
use okws.Kmp.Fall.{IsLongestBorder, IsTable, IsBest, advance-longest}
use okws.Kmp.{at, advance, preproc_from, preproc}

module _ (p : Bytes) (pi : List ℕ) (n k : ℕ) (pos : 0 < n) (table : IsTable p pi n)
    (here : IsLongestBorder p n k) where
  -- One round finds the longest border of the prefix that is one byte longer.
  advance-IsLongestBorder : IsLongestBorder p (n + 1) (advance p pi (at p n) k)
  advance-IsLongestBorder =
      let b : IsBest p (at p) n n (at p n) k = record {
        ends = here.border;
        best = λ j lt e _. here.longest j lt e;
      } in
      let (e, le, top) =
        advance-longest p pi (at p) n n (at p n) n table k (omega (arith, here.proper)) refl b in
      record {
        proper = omega (arith, here.proper);
        border = e;
        longest = λ j lt f. top j (omega arith) f;
      }

  IsTable-set : n < length pi → IsTable p (set pi n (advance p pi (at p n) k)) (n + 1)
  IsTable-set room q qpos le = elim (ℕ_discrete q (n + 1)) [
    | yes e ↦
        let last : q - 1 ≡ n = omega arith in
        rw (last, get_or-set_self pi n (advance p pi (at p n) k) 0 room, e) advance-IsLongestBorder
    | no ne ↦
        let other : n ≢ q - 1 = (λ h. ne (omega arith)) in
        rw (get_or-set_ne pi n (q - 1) (advance p pi (at p n) k) 0 other)
          (table q qpos (omega arith))
  ]

preproc_from-IsTable :
    (p : Bytes) (todo n k : ℕ) (pi : List ℕ)
    → 0 < n
    → length pi ≡ n + todo
    → IsTable p pi n
    → IsLongestBorder p n k
    → IsTable p (preproc_from p todo n k pi) (n + todo)
unfolding preproc_from
preproc_from-IsTable p zero n k pi pos len table here =
    let e : n + 0 ≡ n = omega arith in rw e table
preproc_from-IsTable p (suc todo) n k pi pos len table here =
    let k' = advance p pi (at p n) k in
    let e : n + suc todo ≡ (n + 1) + todo = omega arith in
    rw e (
      preproc_from-IsTable p todo (n + 1) k' (set pi n k') (omega arith)
        (omega (arith, length-set pi n k')) (IsTable-set p pi n k pos table here (omega arith))
        (advance-IsLongestBorder p pi n k pos table here))

get_or-replicate : (n i d : ℕ) → get_or (replicate n d) i d ≡ d
get_or-replicate zero i d = refl
get_or-replicate (suc n) zero d = refl
get_or-replicate (suc n) (suc i) d = get_or-replicate n i d

IsLongestBorder-one : (p : Bytes) → IsLongestBorder p 1 0
IsLongestBorder-one p = record {
  proper = omega arith;
  border = Ends-zero 1;
  longest = λ k lt e. omega arith;
}

IsTable-zeros : (p : Bytes) (n : ℕ) → IsTable p (replicate n 0) 1
IsTable-zeros p n q pos le =
    let one : q ≡ 1 = omega arith in rw (get_or-replicate n (q - 1) 0, one) (IsLongestBorder-one p)

pub preproc-IsTable : (p : Bytes) → 0 < length p → IsTable p (preproc p) (length p)
unfolding preproc
preproc-IsTable p pos =
    let e : 1 + (length p - 1) ≡ length p = omega arith in
    rw e at (
      preproc_from-IsTable p (length p - 1) 1 0 (replicate (length p) 0) (omega arith)
        (omega (arith, length-replicate {A = ℕ} (length p) 0)) (IsTable-zeros p (length p))
        (IsLongestBorder-one p))
