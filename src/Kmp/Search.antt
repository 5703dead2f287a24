-- ===== src/Kmp/Search.antt =====
-- The matcher reports a byte exactly when the pattern ends there.
use okws.Prelude.{
  ℕ, zero, suc, ◌+◌, ◌<◌, ◌≡◌, ◌↔◌, refl, sym, ap, ◌∙◌, arith, Bool, true, false, Bytes, [], ◌∷◌,
  ◌++◌, map, get_or, length, length-append, length-map,
}
use okws.Kmp.Match.{Ends-zero}
use okws.Kmp.Preproc.{preproc-IsTable}
use okws.Kmp.Suffix.{IsSuffix, IsSuffix-iff, at-append, at-before}
use okws.Kmp.Step.{folded, Tracks, match_step}
use okws.Kmp.{KmpMatcher, at, preproc, kmp_matcher, match, reset}

-- The bytes of a text one after the other.
unfoldable pub feed : KmpMatcher → Bytes → KmpMatcher
feed m [] = m
feed m (c ∷ cs) = feed (match m c).0 cs

ci-match : (m : KmpMatcher) (c : ℕ) → (match m c).0.ci ≡ m.ci
unfolding match
ci-match m c = ground arith

pattern-match : (m : KmpMatcher) (c : ℕ) → (match m c).0.pattern ≡ m.pattern
unfolding match
pattern-match m c = ground arith

ci-feed : (s : Bytes) (m : KmpMatcher) → (feed m s).ci ≡ m.ci
unfolding feed
ci-feed [] m = refl
ci-feed (c ∷ s) m = ci-feed s (match m c).0 ∙ ci-match m c

pub pattern-feed : (s : Bytes) (m : KmpMatcher) → (feed m s).pattern ≡ m.pattern
unfolding feed
pattern-feed [] m = refl
pattern-feed (c ∷ s) m = pattern-feed s (match m c).0 ∙ pattern-match m c

feed-Tracks :
    (s : Bytes) (m : KmpMatcher) (t : ℕ → ℕ) (n : ℕ)
    → Tracks m t n
    → ((i : ℕ) → i < length s → t (n + i) ≡ folded m.ci (get_or s i 0))
    → Tracks (feed m s) t (n + length s)
unfolding feed
feed-Tracks [] m t n h bytes = let e : n + 0 ≡ n = omega arith in rw e h
feed-Tracks (c ∷ s) m t n h bytes =
    let here : t n ≡ folded m.ci c = ap t (omega arith) ∙ bytes 0 (omega arith) in
    let e : n + suc (length s) ≡ (n + 1) + length s = omega arith in
    rw e (
      feed-Tracks s (match m c).0 t (n + 1) (match_step m t n c h here).0 (λ i lt.
        ap t (omega arith)
        ∙ bytes (suc i) (omega arith)
        ∙ ap (λ b. folded b (get_or s i 0)) (sym (ci-match m c))))

pub at-map : (f : ℕ → ℕ) (s : Bytes) (i : ℕ) → i < length s → at (map f s) i ≡ f (at s i)
at-map f [] i h = absurd (omega arith)
at-map f (c ∷ s) zero h = refl
at-map f (c ∷ s) (suc i) h = at-map f s i (omega arith)

map-id : (s : Bytes) → map (λ c. c) s ≡ s
map-id [] = refl
map-id (c ∷ s) = ap (◌∷◌ c) (map-id s)

pub pattern-kmp_matcher : (s : Bytes) (ci : Bool) → (kmp_matcher s ci).pattern ≡ map (folded ci) s
unfolding kmp_matcher
pattern-kmp_matcher s true = refl
pattern-kmp_matcher s false = sym (map-id s)

pi-match : (m : KmpMatcher) (c : ℕ) → (match m c).0.pi ≡ m.pi
unfolding match
pi-match m c = ground arith

-- Whatever a matcher has read, a reset takes it back to its construction.
pub reset-feed : (s : Bytes) (m : KmpMatcher) → reset (feed m s) ≡ reset m
unfolding feed reset
reset-feed [] m = refl
reset-feed (c ∷ s) m =
    reset-feed s (match m c).0 ∙ ground (arith, ci-match m c, pattern-match m c, pi-match m c)

Tracks-fresh :
    (m : KmpMatcher) (t : ℕ → ℕ)
    → m.pi ≡ preproc m.pattern
    → m.q ≡ 0
    → 0 < length m.pattern
    → Tracks m t 0
Tracks-fresh m t table start pos = record {
  table = rw table (preproc-IsTable m.pattern pos);
  short = omega arith;
  ends = rw start (Ends-zero 0);
  longest = λ k lt e. omega (arith, e.fits);
}

pi-reset :
    (p : Bytes) (ci : Bool)
    → (reset (kmp_matcher p ci)).pi ≡ preproc (reset (kmp_matcher p ci)).pattern
unfolding reset kmp_matcher
pi-reset p ci = refl

fresh_fields :
    (p : Bytes) (ci : Bool)
    → ((reset (kmp_matcher p ci)).q ≡ 0)
      × ((reset (kmp_matcher p ci)).ci ≡ ci)
      × ((reset (kmp_matcher p ci)).pattern ≡ map (folded ci) p)
unfolding reset
fresh_fields p ci = (refl, unfold kmp_matcher in refl, pattern-kmp_matcher p ci)

module _ (p : Bytes) (ci : Bool) (s : Bytes) (c : ℕ) (pos : 0 < length p) where
  abbrev text : Bytes
  text = map (folded ci) (s ++ c ∷ [])

  abbrev reader : KmpMatcher
  reader = feed (reset (kmp_matcher p ci)) s

  pattern-reader : reader.pattern ≡ map (folded ci) p
  pattern-reader = pattern-feed s _ ∙ (fresh_fields p ci).2

  ci-reader : reader.ci ≡ ci
  ci-reader = ci-feed s _ ∙ (fresh_fields p ci).1

  at-text : (i : ℕ) → i < length s → at text (0 + i) ≡ folded ci (get_or s i 0)
  at-text i lt =
      ap (at text) (omega arith)
      ∙ at-map (folded ci) (s ++ c ∷ []) i (omega (arith, length-append s (c ∷ [])))
      ∙ ap (folded ci) (at-before s (c ∷ []) i lt)

  at-text_end : at text (0 + length s) ≡ folded reader.ci c
  at-text_end =
      ap (at text) (omega arith)
      ∙ at-map (folded ci) (s ++ c ∷ []) (length s) (omega (arith, length-append s (c ∷ [])))
      ∙ ap (folded ci) (ap (at (s ++ c ∷ [])) (omega arith) ∙ at-append s (c ∷ []) 0)
      ∙ ap (λ b. folded b c) (sym ci-reader)

  reader-Tracks : Tracks reader (at text) (0 + length s)
  reader-Tracks =
      let f = fresh_fields p ci in
      feed-Tracks s (reset (kmp_matcher p ci)) (at text) 0
        (Tracks-fresh _ (at text) (pi-reset p ci) f.0
          (omega (arith, ap (λ (x : Bytes). length x) f.2, length-map p (folded ci))))
        (λ i lt. at-text i lt ∙ ap (λ b. folded b (get_or s i 0)) (sym f.1))

  fresh_match : ((match reader c).1 ≡ true) ↔ IsSuffix (map (folded ci) p) text
  fresh_match =
      let step = (match_step reader (at text) (0 + length s) c reader-Tracks at-text_end).1 in
      let len : 0 + length s + 1 ≡ length text =
        omega (arith, length-map (s ++ c ∷ []) (folded ci), length-append s (c ∷ [])) in
      let suffix = IsSuffix-iff (map (folded ci) p) text in
      (
        (λ h. suffix.0 (rw (len, pattern-reader) at (step.0 h))),
        (λ h. step.1 (rw (len, pattern-reader) (suffix.1 h))),
      )

-- After a reset, whatever was read before it, and after the bytes `s`, the matcher reports a byte
-- `c` exactly if the text `s` and `c` ends in the pattern; upper and lower case are one if the
-- matcher is case-insensitive. The pattern is not empty.
pub match_iff :
    (p : Bytes) (ci : Bool) (before s : Bytes) (c : ℕ)
    → 0 < length p
    → ((match (feed (reset (feed (kmp_matcher p ci) before)) s) c).1 ≡ true)
      ↔ IsSuffix (map (folded ci) p) (map (folded ci) (s ++ c ∷ []))
match_iff p ci before s c pos = rw (reset-feed before (kmp_matcher p ci)) (fresh_match p ci s c pos)
