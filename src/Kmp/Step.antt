-- ===== src/Kmp/Step.antt =====
-- One byte: the matcher stays at the longest prefix of its pattern that ends at the place reached.
use okws.Prelude.{
  ℕ, ◌+◌, ◌-◌, ◌≤◌, ◌<◌, ◌≡◌, ◌≢◌, ◌↔◌, inl, inr, refl, arith, Bool, true, get_or, length, ◌==◌,
  if◌then◌else◌, Bool-cases, ==_iff,
}
use okws.Kmp.Match.{Ends, Ends-border, Ends-of_border}
use okws.Kmp.Fall.{IsTable, advance-longest}
use okws.Kmp.{KmpMatcher, at, advance, match, tolower}

-- What the matcher compares a byte as.
abbrev pub folded : Bool → ℕ → ℕ
folded ci c = if ci then tolower c else c

-- Having read the first `n` bytes of `t`, the matcher stands at the longest prefix of its pattern,
-- short of the whole, that ends there.
pub record Tracks (m : KmpMatcher) (t : ℕ → ℕ) (n : ℕ) : Type 0 where
  pub table : IsTable m.pattern m.pi (length m.pattern)
  pub short : m.q < length m.pattern
  pub ends : Ends (at m.pattern) t n m.q
  pub longest : (k : ℕ) → k < length m.pattern → Ends (at m.pattern) t n k → k ≤ m.q

module _ (m : KmpMatcher) (t : ℕ → ℕ) (n c : ℕ) (h : Tracks m t n)
    (byte : t n ≡ folded m.ci c) where
  abbrev stepped : ℕ
  stepped = advance m.pattern m.pi (folded m.ci c) m.q

  stepped-longest :
      Ends (at m.pattern) t (n + 1) stepped
      × (stepped ≤ m.q + 1)
      × ((k : ℕ) → k ≤ length m.pattern → Ends (at m.pattern) t (n + 1) k → k ≤ stepped)
  stepped-longest =
      advance-longest m.pattern m.pi t n (length m.pattern) (folded m.ci c) (length m.pattern)
        h.table m.q (omega (arith, h.short)) byte
        (record { ends = h.ends; best = λ k lt e _. h.longest k lt e })

  -- Behind a whole match the search goes on at the longest border of the pattern.
  Tracks-full :
      stepped ≡ length m.pattern → Tracks (record m { q = get_or m.pi (stepped - 1) 0 }) t (n + 1)
  Tracks-full full =
      let (e, le, top) = stepped-longest in
      let l = h.table (length m.pattern) (omega (arith, h.short)) (omega arith) in
      let whole : Ends (at m.pattern) t (n + 1) (length m.pattern) = rw full at e in
      rw full (record {
        table = h.table;
        short = l.proper;
        ends = Ends-of_border whole l.border;
        longest = λ k lt f. l.longest k lt (Ends-border whole f (omega arith));
      })

  Tracks-short : stepped ≢ length m.pattern → Tracks (record m { q = stepped }) t (n + 1)
  Tracks-short ne =
      let (e, le, top) = stepped-longest in
      record {
        table = h.table;
        short = omega (arith, le, h.short, ne);
        ends = e;
        longest = λ k lt f. top k (omega arith) f;
      }

  pub match_step :
      Tracks (match m c).0 t (n + 1)
      × (((match m c).1 ≡ true) ↔ Ends (at m.pattern) t (n + 1) (length m.pattern))
  unfolding match
  match_step = elim (Bool-cases (stepped == length m.pattern)) [
    | inl full ↦
        let e : stepped ≡ length m.pattern = (==_iff _ _).0 full in
        rw full (Tracks-full e, ((λ _. rw e at stepped-longest.0), (λ _. refl)))
    | inr part ↦
        let ne : stepped ≢ length m.pattern =
          (λ e. cc (part, (==_iff stepped (length m.pattern)).1 e)) in
        rw part (
          Tracks-short ne,
          (
            (λ h'. cc h'),
            (λ whole.
                let le : length m.pattern ≤ stepped = stepped-longest.2 _ (omega arith) whole in
                absurd (ne (omega (arith, stepped-longest.1, h.short)))),
          ),
        )
  ]
