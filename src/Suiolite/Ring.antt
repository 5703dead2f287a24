-- ===== src/Suiolite/Ring.antt =====
-- Pieces of memory, and what `memcpy` does to them.
use okws.Prelude.{
  ℕ, zero, suc, ◌+◌, ◌-◌, ◌<◌, ◌≤◌, ◌≡◌, ◌⊎◌, refl, sym, ap, ◌∙◌, arith, Bytes, [], ◌∷◌, ◌++◌,
  length, take, get_or,
}
use okws.Suiolite.{slice, memcpy, drop}

pub length-slice : (m : ℕ → ℕ) (a n : ℕ) → length (slice m a n) ≡ n
unfolding slice
length-slice m a zero = refl
length-slice m a (suc n) = omega (arith, length-slice m (a + 1) n)

pub slice-split : (m : ℕ → ℕ) (a p q : ℕ) → slice m a (p + q) ≡ slice m a p ++ slice m (a + p) q
unfolding slice
slice-split m a zero q =
    let e : a ≡ a + 0 = omega arith in
    let none_left : 0 + q ≡ q = omega arith in
    ap (λ x. slice m a x) none_left ∙ ap (λ x. slice m x q) e
slice-split m a (suc p) q =
    let e : a + 1 + p ≡ a + suc p = omega arith in
    let one_more : suc p + q ≡ suc (p + q) = omega arith in
    ap (λ x. slice m a x) one_more
    ∙ ap (◌∷◌ (m a)) (slice-split m (a + 1) p q ∙ ap (λ x. slice m (a + 1) p ++ slice m x q) e)

pub slice-same :
    (m m' : ℕ → ℕ) (a n : ℕ)
    → ((i : ℕ) → a ≤ i → i < a + n → m i ≡ m' i)
    → slice m a n ≡ slice m' a n
unfolding slice
slice-same m m' a zero h = refl
slice-same m m' a (suc n) h =
    let head = h a (omega arith) (omega arith) in
    let tail = slice-same m m' (a + 1) n (λ i le lt. h i (omega arith) (omega arith)) in
    cc (head, tail)

-- A piece that the copy does not touch.
pub slice-memcpy_apart :
    (m : ℕ → ℕ) (s : Bytes) (at n a k : ℕ)
    → (a + k ≤ at) ⊎ (at + n ≤ a)
    → slice (memcpy at s n m) a k ≡ slice m a k
slice-memcpy_apart m s at n a k h =
    slice-same (memcpy at s n m) m a k (λ i le lt. unfold memcpy in ground (arith, h))

drop-step : (s : Bytes) (j : ℕ) → j < length s → drop j s ≡ get_or s j 0 ∷ drop (suc j) s
unfolding drop
drop-step [] j h = absurd (omega arith)
drop-step (c ∷ s) zero h = refl
drop-step (c ∷ s) (suc j) h = drop-step s j (omega arith)

slice-copy :
    (s : Bytes) (at j k : ℕ)
    → j + k ≤ length s
    → slice (λ i. get_or s (i - at) 0) (at + j) k ≡ take k (drop j s)
unfolding slice
slice-copy s at j zero h = refl
slice-copy s at j (suc k) h =
    let here : at + j - at ≡ j = omega arith in
    let on : at + j + 1 ≡ at + suc j = omega arith in
    rw (drop-step s j (omega arith), here, on)
      (ap (◌∷◌ (get_or s j 0)) (slice-copy s at (suc j) k (omega arith)))

-- The piece that is copied.
pub slice-memcpy_self :
    (m : ℕ → ℕ) (s : Bytes) (at n : ℕ) → n ≤ length s → slice (memcpy at s n m) at n ≡ take n s
slice-memcpy_self m s at n h =
    let zero_on : at + 0 ≡ at = omega arith in
    slice-same (memcpy at s n m) (λ i. get_or s (i - at) 0) at n
      (λ i le lt. unfold memcpy in ground arith)
    ∙ ap (λ a. slice (λ i. get_or s (i - at) 0) a n) (sym zero_on)
    ∙ slice-copy s at 0 n (omega arith)
    ∙ unfold drop in refl

pub take-drop : (n : ℕ) (s : Bytes) → take n s ++ drop n s ≡ s
unfolding drop
take-drop zero s = refl
take-drop (suc n) [] = refl
take-drop (suc n) (c ∷ s) = ap (◌∷◌ c) (take-drop n s)

pub length-drop : (n : ℕ) (s : Bytes) → length (drop n s) ≡ length s - n
unfolding drop
length-drop zero s = omega arith
length-drop (suc n) [] = omega arith
length-drop (suc n) (c ∷ s) = omega (arith, length-drop n s)

pub take-all : (s : Bytes) (n : ℕ) → length s ≤ n → take n s ≡ s
take-all [] zero h = refl
take-all [] (suc n) h = refl
take-all (c ∷ s) zero h = absurd (omega arith)
take-all (c ∷ s) (suc n) h = ap (◌∷◌ c) (take-all s n (omega arith))

pub drop-append : (x y : Bytes) (n : ℕ) → length x ≡ n → drop n (x ++ y) ≡ y
unfolding drop
drop-append [] y zero e = refl
drop-append [] y (suc n) e = absurd (omega arith)
drop-append (c ∷ x) y zero e = absurd (omega arith)
drop-append (c ∷ x) y (suc n) e = drop-append x y n (omega arith)
