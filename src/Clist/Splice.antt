-- ===== src/Clist/Splice.antt =====
-- Replacing an element, and appending a list to another.
use okws.Prelude.{
  ℕ, ◌+◌, ◌≡◌, ◌≢◌, refl, sym, ap, ◌∙◌, arith, Option, none, some, List, [], ◌∷◌, ◌++◌,
  length-append,
}
use mathlib.Core.Path.{subst}
use mathlib.Core.List.{append-nil}
use okws.Clist.{
  Link, Links, Clist, set_next, set_prev, link_next, link_prev, or_header, replace, append_list,
}
use okws.Clist.Segment.{
  Segment, Misses, Segment-frame, Segment-join, Segment-next, Segment-prev, set_next_self,
  set_prev_self, link_next-other, link_prev-other, link_next-frame, link_prev-frame, close_next,
  close_prev,
}
use okws.Clist.Edits.{
  Holds, Apart, Apart-sym, IsDistinct-join, Misses-append, Holds-Place, first-Misses, last-Misses,
  first-Apart, last-Apart, set_next-frame, set_prev-frame,
}

new_link :
    (e : ℕ) (n q : Option ℕ) (h : Links)
    → set_next e n (set_prev e q h) e ≡ record { next = n; prev = q }
new_link e n q h =
    set_next_self e n (set_prev e q h)
    ∙ ap (λ (j : Link). record j { next = n }) (set_prev_self e q h)

-- The last steps of `replace`.
abbrev second : ℕ → Clist → Links → Option ℕ → Links × Clist
second e c h3 q = (
  link_prev (h3 e).next (some e) h3,
  record c { first = or_header q (some e) c.first; last = or_header (h3 e).next (some e) c.last },
)

abbrev third : ℕ → Clist → Links → Links × Clist
third e c h2 = second e c (link_next (h2 e).prev (some e) h2) (h2 e).prev

-- The links that `replace` reads are those of `x`.
replace-links :
    (x e : ℕ) (h : Links) (c : Clist)
    → x ≢ e
    → (h x).prev ≢ some e
    → replace x e h c ≡ (
      link_prev
          (h x).next
          (some e)
          (link_next (h x).prev (some e) (set_next e (h x).next (set_prev e (h x).prev h))),
      record c {
        first = or_header (h x).prev (some e) c.first;
        last = or_header (h x).next (some e) c.last;
      },
    )
unfolding replace
replace-links x e h c ne fresh =
    let q = (h x).prev in
    let n = (h x).next in
    let h1 = set_prev e q h in
    let h2 = set_next e n h1 in
    let h3 = link_next q (some e) h2 in
    let k1 : h1 x ≡ h x = link_prev-other (some e) q h x (λ d. ne (ground (arith, d))) in
    let k2 = new_link e n q h in
    let k3 = link_next-other q (some e) h2 e fresh ∙ k2 in
    ap (λ (j : Link). third e c (set_next e j.next h1)) k1
    ∙ ap (λ (j : Link). second e c (link_next j.prev (some e) h2) j.prev) k2
    ∙ ap
        (λ (j : Link). (
          link_prev j.next (some e) h3,
          record c {
            first = or_header q (some e) c.first;
            last = or_header j.next (some e) c.last;
          },
        ))
        k3

-- A new element takes the place of another.
pub replace-Holds :
    (h : Links) (c : Clist) (a b : List ℕ) (x e : ℕ)
    → Misses e (a ++ x ∷ b)
    → Holds (h, c) (a ++ x ∷ b)
    → Holds (replace x e h c) (a ++ e ∷ b)
unfolding replace
replace-Holds h c a b x e m s =
    let p = Holds-Place h c a b x s in
    let me = Misses-append e a (x ∷ b) m in
    let n = (h x).next in
    let q = (h x).prev in
    let h1 = set_prev e q h in
    let h2 = set_next e n h1 in
    let h3 = link_next q (some e) h2 in
    let h4 = link_prev n (some e) h3 in
    let apart = Apart-sym a b p.apart in
    let s2 =
      Segment-frame h1 h2 none a (some x) c.first q (set_next-frame e n h1 a me.0)
        (Segment-frame h h1 none a (some x) c.first q (set_prev-frame e q h a me.0) p.before) in
    let s3 = close_next h2 a (some x) c.first q (some e) p.distinct_before s2 in
    let s4 =
      Segment-frame h3 h4 none a (some e) _ q
        (link_prev-frame n (some e) h3 a (first-Apart h (some x) b a n c.last p.apart p.after))
        s3 in
    let t2 =
      Segment-frame h1 h2 (some x) b none n c.last (set_next-frame e n h1 b me.1.1)
        (Segment-frame h h1 (some x) b none n c.last (set_prev-frame e q h b me.1.1) p.after) in
    let t3 =
      Segment-frame h2 h3 (some x) b none n c.last
        (link_next-frame q (some e) h2 b (last-Apart h a b (some x) c.first q apart p.before)) t2 in
    let t4 = close_prev h3 (some x) b n c.last (some e) p.distinct_after t3 in
    let fresh = last-Misses h a (some x) c.first q e me.0 p.before in
    let k3 : h3 e ≡ record { next = n; prev = q } =
      link_next-other q (some e) h2 e fresh ∙ new_link e n q h in
    let k4 : h4 e ≡ record { next = n; prev = q } =
      link_prev-other n (some e) h3 e (first-Misses h (some x) b n c.last e me.1.1 p.after) ∙ k3 in
    let done : Holds
        (h4, record c { first = or_header q (some e) c.first; last = or_header n (some e) c.last })
        (a ++ e ∷ b) =
      record {
        chain = Segment-join h4 none a (e ∷ b) none _ _ (some e) q s4 (
          refl,
          ap (λ (j : Link). j.prev) k4,
          subst (λ f. Segment h4 (some e) b none f (or_header n (some e) c.last))
              (ap (λ (j : Link). j.next) (sym k4)) t4,
        );
        distinct =
            IsDistinct-join a (e ∷ b) p.distinct_before (me.1.1, p.distinct_after)
              (Apart-sym (e ∷ b) a (me.0, apart));
        counted = omega (arith, s.counted, length-append a (x ∷ b), length-append a (e ∷ b));
      } in
    subst (λ r. Holds r (a ++ e ∷ b)) (sym (replace-links x e h c me.1.0 fresh)) done

append_list-none :
    (h : Links) (c l : Clist)
    → l.first ≡ none
    → append_list h c l ≡ (h, record c { nelem = c.nelem + l.nelem }, l)
unfolding append_list
append_list-none h c l e = ground (arith, e)

append_list_first :
    (h : Links) (c l : Clist) (y : ℕ)
    → l.first ≡ some y
    → c.first ≡ none
    → append_list h c l ≡ (h, l, l)
unfolding append_list
append_list_first h c l y e f = ground (arith, e, f)

append_list_both :
    (h : Links) (c l : Clist) (x y : ℕ)
    → l.first ≡ some y
    → c.first ≡ some x
    → append_list h c l ≡ (
      set_prev y c.last (link_next c.last (some y) h),
      record c { last = l.last; nelem = c.nelem + l.nelem },
      record l { first = c.first },
    )
unfolding append_list
append_list_both h c l x y e f = ground (arith, e, f)

abbrev pub taken : Links × Clist × Clist → Links × Clist
taken r = (r.0, r.1)

-- A list takes up another with which it shares no element: it then holds the elements of both, its
-- own first, whether one of them is empty or not.
pub append_list-Holds :
    (h : Links) (c l : Clist) (xs ys : List ℕ)
    → Apart xs ys
    → Holds (h, c) xs
    → Holds (h, l) ys
    → Holds (taken (append_list h c l)) (xs ++ ys)
append_list-Holds h c l xs [] d s t = rw (append-nil xs) (
    subst (λ r. Holds (taken r) xs) (sym (append_list-none h c l t.chain.0))
      (record {
        chain = s.chain;
        distinct = s.distinct;
        counted = omega (arith, s.counted, t.counted);
      }))
append_list-Holds h c l [] (y ∷ ys) d s t =
    subst (λ r. Holds (taken r) (y ∷ ys)) (sym (append_list_first h c l y t.chain.0 s.chain.0)) t
append_list-Holds h c l (x ∷ xs) (y ∷ ys) d s t =
    let h1 = link_next c.last (some y) h in
    let h2 = set_prev y c.last h1 in
    let d' = Apart-sym (x ∷ xs) (y ∷ ys) d in
    let s1 = Segment-next h none x xs none c.first c.last (some y) s.distinct s.chain in
    let s2 =
      Segment-frame h1 h2 none (x ∷ xs) (some y) c.first c.last
        (set_prev-frame y c.last h1 (x ∷ xs) d'.0) s1 in
    let t1 =
      Segment-frame h h1 none (y ∷ ys) none l.first l.last
        (link_next-frame c.last (some y) h (y ∷ ys)
          (last-Apart h (x ∷ xs) (y ∷ ys) none c.first c.last d' s.chain))
        t.chain in
    let t2 = Segment-prev h1 none y ys none l.first l.last c.last t.distinct t1 in
    let t3 =
      subst (λ f. Segment (link_prev f c.last h1) c.last (y ∷ ys) none f l.last) t.chain.0 t2 in
    subst (λ r. Holds (taken r) (x ∷ (xs ++ y ∷ ys)))
      (sym (append_list_both h c l x y t.chain.0 s.chain.0))
      (record {
        chain = Segment-join h2 none (x ∷ xs) (y ∷ ys) none c.first l.last (some y) c.last s2 t3;
        distinct = IsDistinct-join (x ∷ xs) (y ∷ ys) s.distinct t.distinct d;
        counted = omega (arith, s.counted, t.counted, length-append (x ∷ xs) (y ∷ ys));
      })
