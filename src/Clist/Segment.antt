-- ===== src/Clist/Segment.antt =====
-- Chains of links, and what a change of one link does to them.
use okws.Prelude.{
  ℕ, ◌≡◌, ◌≢◌, refl, sym, ap, ◌∙◌, arith, Option, none, some, List, [], ◌∷◌, ◌++◌, All,
}
use mathlib.Core.Path.{subst}
use okws.Clist.{Link, Links, set_next, set_prev, link_next, link_prev, or_header}

-- The elements `xs` stand between `p` and `n`: `f` points to the first, `l` to the last of them.
abbrev pub Segment : Links → Option ℕ → List ℕ → Option ℕ → Option ℕ → Option ℕ → Type 0
Segment h p [] n f l = (f ≡ n) × (l ≡ p)
Segment h p (x ∷ xs) n f l = (f ≡ some x) × ((h x).prev ≡ p) × Segment h (some x) xs n (h x).next l

abbrev pub Misses : ℕ → List ℕ → Type 0
Misses x xs = All (λ y. y ≢ x) xs

abbrev pub IsDistinct : List ℕ → Type 0
IsDistinct [] = Unit
IsDistinct (x ∷ xs) = Misses x xs × IsDistinct xs

-- Links of other elements do not matter.
pub Segment-frame :
    (h h' : Links) (p : Option ℕ) (xs : List ℕ) (n f l : Option ℕ)
    → All (λ y. h' y ≡ h y) xs
    → Segment h p xs n f l
    → Segment h' p xs n f l
Segment-frame h h' p [] n f l same s = s
Segment-frame h h' p (x ∷ xs) n f l (e, same) (a, b, s) = (
  a,
  ap (λ (k : Link). k.prev) e ∙ b,
  rw e (Segment-frame h h' (some x) xs n (h x).next l same s),
)

pub Segment-split :
    (h : Links) (p : Option ℕ) (xs ys : List ℕ) (n f l : Option ℕ)
    → Segment h p (xs ++ ys) n f l
    → (m : Option ℕ) × (q : Option ℕ) × Segment h p xs m f q × Segment h q ys n m l
Segment-split h p [] ys n f l s = (f, p, (refl, refl), s)
Segment-split h p (x ∷ xs) ys n f l (a, b, s) =
    let (m, q, s1, s2) = Segment-split h (some x) xs ys n (h x).next l s in (m, q, (a, b, s1), s2)

pub Segment-join :
    (h : Links) (p : Option ℕ) (xs ys : List ℕ) (n f l m q : Option ℕ)
    → Segment h p xs m f q
    → Segment h q ys n m l
    → Segment h p (xs ++ ys) n f l
Segment-join h p [] ys n f l m q (a, b) t = rw (a, sym b) t
Segment-join h p (x ∷ xs) ys n f l m q (a, b, s) t =
    (a, b, Segment-join h (some x) xs ys n (h x).next l m q s t)

-- The pointers at the ends point into the segment.
pub Segment-last :
    (h : Links) (p : Option ℕ) (x z : ℕ) (xs : List ℕ) (n f l : Option ℕ)
    → Misses z (x ∷ xs)
    → Segment h p (x ∷ xs) n f l
    → l ≢ some z
Segment-last h p x z [] n f l (m, _) (a, b, (c, d)) e = m (ground (arith, d, e))
Segment-last h p x z (y ∷ ys) n f l (m, ms) (a, b, s) e =
    Segment-last h (some x) y z ys n (h x).next l ms s e

pub set_next_self :
    (x : ℕ) (v : Option ℕ) (h : Links) → set_next x v h x ≡ record (h x) { next = v }
set_next_self x v h = ground arith

pub set_prev_self :
    (x : ℕ) (v : Option ℕ) (h : Links) → set_prev x v h x ≡ record (h x) { prev = v }
set_prev_self x v h = ground arith

pub link_next-other : (l v : Option ℕ) (h : Links) (x : ℕ) → l ≢ some x → link_next l v h x ≡ h x
link_next-other none v h x ne = refl
link_next-other (some z) v h x ne = ground (arith, ne)

pub link_prev-other : (l v : Option ℕ) (h : Links) (x : ℕ) → l ≢ some x → link_prev l v h x ≡ h x
link_prev-other none v h x ne = refl
link_prev-other (some z) v h x ne = ground (arith, ne)

-- A new link behind the last element.
pub Segment-next :
    (h : Links) (p : Option ℕ) (x : ℕ) (xs : List ℕ) (n f l n' : Option ℕ)
    → IsDistinct (x ∷ xs)
    → Segment h p (x ∷ xs) n f l
    → Segment (link_next l n' h) p (x ∷ xs) n' f l
Segment-next h p x [] n f l n' d (a, b, (c, e)) =
    let k = set_next_self x n' h in
    subst (λ l'. Segment (link_next l' n' h) p (x ∷ []) n' f l') (sym e)
      (a, ap (λ (j : Link). j.prev) k ∙ b, (ap (λ (j : Link). j.next) k, refl))
Segment-next h p x (y ∷ ys) n f l n' (d, ds) (a, b, s) =
    let k = link_next-other l n' h x (Segment-last h (some x) y x ys n (h x).next l d s) in
    let rest = Segment-next h (some x) y ys n (h x).next l n' ds s in
    (a, ap (λ (j : Link). j.prev) k ∙ b, rw k rest)

-- A change of one element's link.
pub link_next-frame :
    (l v : Option ℕ) (h : Links) (xs : List ℕ)
    → All (λ y. l ≢ some y) xs
    → All (λ y. link_next l v h y ≡ h y) xs
link_next-frame l v h [] m = tt
link_next-frame l v h (x ∷ xs) (m, ms) = (link_next-other l v h x m, link_next-frame l v h xs ms)

pub link_prev-frame :
    (l v : Option ℕ) (h : Links) (xs : List ℕ)
    → All (λ y. l ≢ some y) xs
    → All (λ y. link_prev l v h y ≡ h y) xs
link_prev-frame l v h [] m = tt
link_prev-frame l v h (x ∷ xs) (m, ms) = (link_prev-other l v h x m, link_prev-frame l v h xs ms)

pub Misses-some : (x : ℕ) (xs : List ℕ) → Misses x xs → All (λ y. some x ≢ some y) xs
Misses-some x [] m = tt
Misses-some x (y ∷ ys) (m, ms) = (λ e. m (ground (arith, e)), Misses-some x ys ms)

-- A new link in front of the first element.
pub Segment-prev :
    (h : Links) (p : Option ℕ) (x : ℕ) (xs : List ℕ) (n f l p' : Option ℕ)
    → IsDistinct (x ∷ xs)
    → Segment h p (x ∷ xs) n f l
    → Segment (link_prev f p' h) p' (x ∷ xs) n f l
Segment-prev h p x xs n f l p' (d, ds) (a, b, s) =
    let k = set_prev_self x p' h in
    let same = link_prev-frame (some x) p' h xs (Misses-some x xs d) in
    subst (λ f'. Segment (link_prev f' p' h) p' (x ∷ xs) n f' l) (sym a)
      (
        refl,
        ap (λ (j : Link). j.prev) k,
        rw k (Segment-frame h (set_prev x p' h) (some x) xs n (h x).next l same s),
      )

pub Segment-last_some :
    (h : Links) (p : Option ℕ) (x : ℕ) (xs : List ℕ) (n f l : Option ℕ)
    → Segment h p (x ∷ xs) n f l
    → (z : ℕ) × (l ≡ some z)
Segment-last_some h p x [] n f l (a, b, (c, e)) = (x, e)
Segment-last_some h p x (y ∷ ys) n f l (a, b, s) =
    Segment-last_some h (some x) y ys n (h x).next l s

-- The same for a list that may be empty: at one end stands the header.
pub close_next :
    (h : Links) (xs : List ℕ) (n f l n' : Option ℕ)
    → IsDistinct xs
    → Segment h none xs n f l
    → Segment (link_next l n' h) none xs n' (or_header l n' f) l
close_next h [] n f l n' d (a, b) =
    subst (λ l'. Segment (link_next l' n' h) none [] n' (or_header l' n' f) l') (sym b) (refl, refl)
close_next h (x ∷ xs) n f l n' d s =
    let (z, e) = Segment-last_some h none x xs n f l s in
    subst (λ f'. Segment (link_next l n' h) none (x ∷ xs) n' f' l)
      (ap (λ k. or_header k n' f) (sym e)) (Segment-next h none x xs n f l n' d s)

pub close_prev :
    (h : Links) (p : Option ℕ) (xs : List ℕ) (f l p' : Option ℕ)
    → IsDistinct xs
    → Segment h p xs none f l
    → Segment (link_prev f p' h) p' xs none f (or_header f p' l)
close_prev h p [] f l p' d (a, b) =
    subst (λ f'. Segment (link_prev f' p' h) p' [] none f' (or_header f' p' l)) (sym a) (refl, refl)
close_prev h p (x ∷ xs) f l p' d s =
    subst (λ l'. Segment (link_prev f p' h) p' (x ∷ xs) none f l')
      (ap (λ k. or_header k p' l) (sym s.0)) (Segment-prev h p x xs none f l p' d s)
