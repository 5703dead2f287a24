-- ===== src/Clist/Edits.antt =====
-- Insertion and removal change the sequence that the links stand for.
use okws.Prelude.{
  ℕ, ◌-◌, ◌≡◌, ◌≢◌, refl, sym, ap, ◌∙◌, arith, Option, none, some, List, [], ◌∷◌, ◌++◌, length,
  length-append, All,
}
use mathlib.Core.Path.{subst}
use okws.Clist.{
  Link, Links, Clist, set_next, set_prev, link_next, link_prev, or_header, insert_head, insert_tail,
  remove,
}
use okws.Clist.Segment.{
  Segment, Misses, IsDistinct, Segment-frame, Segment-split, Segment-join, Segment-last,
  set_next_self, set_prev_self, link_next-other, link_prev-other, link_next-frame, link_prev-frame,
  Misses-some, close_next, close_prev,
}

-- The header and the links stand for the elements `xs`.
pub record Holds (s : Links × Clist) (xs : List ℕ) : Type 0 where
  pub chain : Segment s.0 none xs none s.1.first s.1.last
  pub distinct : IsDistinct xs
  pub counted : s.1.nelem ≡ length xs

pub last-Misses :
    (h : Links) (xs : List ℕ) (n f l : Option ℕ) (z : ℕ)
    → Misses z xs
    → Segment h none xs n f l
    → l ≢ some z
last-Misses h [] n f l z m (a, b) e = ground (arith, b, e)
last-Misses h (x ∷ xs) n f l z m s e = Segment-last h none x z xs n f l m s e

pub first-Misses :
    (h : Links) (p : Option ℕ) (xs : List ℕ) (f l : Option ℕ) (z : ℕ)
    → Misses z xs
    → Segment h p xs none f l
    → f ≢ some z
first-Misses h p [] f l z m (a, b) e = ground (arith, a, e)
first-Misses h p (x ∷ xs) f l z (m, ms) (a, b, s) e = m (ground (arith, a, e))

pub Misses-append : (z : ℕ) (xs ys : List ℕ) → Misses z (xs ++ ys) → Misses z xs × Misses z ys
Misses-append z [] ys m = (tt, m)
Misses-append z (x ∷ xs) ys (m, ms) = let r = Misses-append z xs ys ms in ((m, r.0), r.1)

pub Misses-join : (z : ℕ) (xs ys : List ℕ) → Misses z xs → Misses z ys → Misses z (xs ++ ys)
Misses-join z [] ys m t = t
Misses-join z (x ∷ xs) ys (m, ms) t = (m, Misses-join z xs ys ms t)

-- No element of the one is in the other.
abbrev pub Apart : List ℕ → List ℕ → Type 0
Apart xs ys = All (λ x. Misses x ys) xs

Apart-cons : (x : ℕ) (xs ys : List ℕ) → Misses x ys → Apart ys xs → Apart ys (x ∷ xs)
Apart-cons x xs [] m a = tt
Apart-cons x xs (y ∷ ys) (m, ms) (a, as') = ((λ e. m (sym e), a), Apart-cons x xs ys ms as')

Apart-nil : (ys : List ℕ) → Apart ys []
Apart-nil [] = tt
Apart-nil (y ∷ ys) = (tt, Apart-nil ys)

pub Apart-sym : (xs ys : List ℕ) → Apart xs ys → Apart ys xs
Apart-sym [] ys d = Apart-nil ys
Apart-sym (x ∷ xs) ys (d, ds) = Apart-cons x xs ys d (Apart-sym xs ys ds)

pub IsDistinct-split :
    (xs ys : List ℕ) → IsDistinct (xs ++ ys) → IsDistinct xs × IsDistinct ys × Apart xs ys
IsDistinct-split [] ys d = (tt, d, tt)
IsDistinct-split (x ∷ xs) ys (m, d) =
    let r = IsDistinct-split xs ys d in
    let t = Misses-append x xs ys m in ((t.0, r.0), r.1, (t.1, r.2))

pub IsDistinct-join :
    (xs ys : List ℕ) → IsDistinct xs → IsDistinct ys → Apart xs ys → IsDistinct (xs ++ ys)
IsDistinct-join [] ys d e a = e
IsDistinct-join (x ∷ xs) ys (m, d) e (a, as') =
    (Misses-join x xs ys m a, IsDistinct-join xs ys d e as')

-- Links of elements that are not in the list.
pub set_next-frame :
    (e : ℕ) (v : Option ℕ) (h : Links) (xs : List ℕ)
    → Misses e xs
    → All (λ y. set_next e v h y ≡ h y) xs
set_next-frame e v h xs m = link_next-frame (some e) v h xs (Misses-some e xs m)

pub set_prev-frame :
    (e : ℕ) (v : Option ℕ) (h : Links) (xs : List ℕ)
    → Misses e xs
    → All (λ y. set_prev e v h y ≡ h y) xs
set_prev-frame e v h xs m = link_prev-frame (some e) v h xs (Misses-some e xs m)

-- An element that is not in the list yet goes to its front.
pub insert_head-Holds :
    (e : ℕ) (h : Links) (c : Clist) (xs : List ℕ)
    → Misses e xs
    → Holds (h, c) xs
    → Holds (insert_head e h c) (e ∷ xs)
unfolding insert_head
insert_head-Holds e h c xs m s =
    let h1 = set_next e c.first h in
    let h2 = link_prev c.first (some e) h1 in
    let h3 = set_prev e none h2 in
    let s1 =
      Segment-frame h h1 none xs none c.first c.last (set_next-frame e c.first h xs m) s.chain in
    let s2 = close_prev h1 none xs c.first c.last (some e) s.distinct s1 in
    let s3 =
      Segment-frame h2 h3 (some e) xs none c.first (or_header c.first (some e) c.last)
        (set_prev-frame e none h2 xs m) s2 in
    let k =
      link_prev-other c.first (some e) h1 e (first-Misses h1 none xs c.first c.last e m s1)
      ∙ set_next_self e c.first h in
    let k3 = set_prev_self e none h2 in
    record {
      chain = (refl, ap (λ (j : Link). j.prev) k3, rw (k3, k) s3);
      distinct = (m, s.distinct);
      counted = omega (arith, s.counted);
    }

-- An element that is not in the list yet goes to its end.
pub insert_tail-Holds :
    (e : ℕ) (h : Links) (c : Clist) (xs : List ℕ)
    → Misses e xs
    → Holds (h, c) xs
    → Holds (insert_tail e h c) (xs ++ e ∷ [])
unfolding insert_tail
insert_tail-Holds e h c xs m s =
    let h0 = set_next e none h in
    let h1 = set_prev e c.last h0 in
    let h2 = link_next c.last (some e) h1 in
    let s0 =
      Segment-frame h h0 none xs none c.first c.last (set_next-frame e none h xs m) s.chain in
    let s1 = Segment-frame h0 h1 none xs none c.first c.last (set_prev-frame e c.last h0 xs m) s0 in
    let s2 = close_next h1 xs none c.first c.last (some e) s.distinct s1 in
    let k : h2 e ≡ record { next = none; prev = c.last } =
      link_next-other c.last (some e) h1 e (last-Misses h1 xs none c.first c.last e m s1)
      ∙ set_prev_self e c.last h0
      ∙ ap (λ (j : Link). record j { prev = c.last }) (set_next_self e none h) in
    record {
      chain =
          Segment-join h2 none xs (e ∷ []) none _ _ (some e) c.last s2
            (refl, ap (λ (j : Link). j.prev) k, (ap (λ (j : Link). j.next) k, refl));
      distinct = IsDistinct-join xs (e ∷ []) s.distinct (tt, tt) (Apart-sym (e ∷ []) xs (m, tt));
      counted = omega (arith, s.counted, length-append xs (e ∷ []));
    }

pub first-Apart :
    (h : Links) (p : Option ℕ) (xs ys : List ℕ) (f l : Option ℕ)
    → Apart ys xs
    → Segment h p xs none f l
    → All (λ y. f ≢ some y) ys
first-Apart h p xs [] f l d s = tt
first-Apart h p xs (y ∷ ys) f l (d, ds) s =
    (first-Misses h p xs f l y d s, first-Apart h p xs ys f l ds s)

pub last-Apart :
    (h : Links) (xs ys : List ℕ) (n f l : Option ℕ)
    → Apart ys xs
    → Segment h none xs n f l
    → All (λ y. l ≢ some y) ys
last-Apart h xs [] n f l d s = tt
last-Apart h xs (y ∷ ys) n f l (d, ds) s =
    (last-Misses h xs n f l y d s, last-Apart h xs ys n f l ds s)

-- Where an element of a list stands.
pub record Place (h : Links) (c : Clist) (a b : List ℕ) (x : ℕ) : Type 0 where
  pub before : Segment h none a (some x) c.first (h x).prev
  pub after : Segment h (some x) b none (h x).next c.last
  pub distinct_before : IsDistinct a
  pub distinct_after : IsDistinct b
  pub apart : Apart a b
  pub misses_before : Misses x a
  pub misses_after : Misses x b

pub Holds-Place :
    (h : Links) (c : Clist) (a b : List ℕ) (x : ℕ) → Holds (h, c) (a ++ x ∷ b) → Place h c a b x
Holds-Place h c a b x s =
    let (m, q, s1, s2) = Segment-split h none a (x ∷ b) none c.first c.last s.chain in
    let d = IsDistinct-split a (x ∷ b) s.distinct in
    let t = Apart-sym a (x ∷ b) d.2 in
    record {
      before =
          subst (λ n. Segment h none a n c.first (h x).prev) s2.0
            (subst (λ l. Segment h none a m c.first l) (sym s2.1) s1);
      after = s2.2;
      distinct_before = d.0;
      distinct_after = d.1.1;
      apart = Apart-sym b a t.1;
      misses_before = t.0;
      misses_after = d.1.0;
    }

-- Any element can be removed.
pub remove-Holds :
    (h : Links) (c : Clist) (a b : List ℕ) (x : ℕ)
    → Holds (h, c) (a ++ x ∷ b)
    → Holds (remove x h c) (a ++ b)
unfolding remove
remove-Holds h c a b x s =
    let p = Holds-Place h c a b x s in
    let h1 = link_prev (h x).next (h x).prev h in
    let h2 = link_next (h x).prev (h x).next h1 in
    let s1 =
      Segment-frame h h1 none a (some x) c.first (h x).prev
        (link_prev-frame (h x).next (h x).prev h a
          (first-Apart h (some x) b a (h x).next c.last p.apart p.after))
        p.before in
    let s2 = close_next h1 a (some x) c.first (h x).prev (h x).next p.distinct_before s1 in
    let t1 = close_prev h (some x) b (h x).next c.last (h x).prev p.distinct_after p.after in
    let t2 =
      Segment-frame h1 h2 (h x).prev b none (h x).next (or_header (h x).next (h x).prev c.last)
        (link_next-frame (h x).prev (h x).next h1 b
          (last-Apart h a b (some x) c.first (h x).prev (Apart-sym a b p.apart) p.before))
        t1 in
    let k : h1 x ≡ h x =
      link_prev-other (h x).next (h x).prev h x
        (first-Misses h (some x) b (h x).next c.last x p.misses_after p.after) in
    let left : Holds
        (
          h2,
          record {
            first = or_header (h x).prev (h x).next c.first;
            last = or_header (h x).next (h x).prev c.last;
            nelem = c.nelem - 1;
          },
        )
        (a ++ b) =
      record {
        chain = Segment-join h2 none a b none _ _ (h x).next (h x).prev s2 t2;
        distinct = IsDistinct-join a b p.distinct_before p.distinct_after p.apart;
        counted = omega (arith, s.counted, length-append a (x ∷ b), length-append a b);
      } in
    subst
      (λ (j : Link).
        Holds
          (
            link_next j.prev j.next h1,
            record {
              first = or_header j.prev j.next c.first;
              last = or_header (h x).next (h x).prev c.last;
              nelem = c.nelem - 1;
            },
          )
          (a ++ b))
      (sym k) left
