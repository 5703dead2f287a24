-- ===== src/Kmp/Fall.antt =====
-- What one step of the automaton keeps: the falling loop stops at the longest candidate.
use okws.Prelude.{
  ℕ, zero, suc, ◌+◌, ◌-◌, ◌≤◌, ◌<◌, ◌≡◌, ◌≢◌, ◌⊎◌, inl, inr, refl, sym, ◌∙◌, arith, Bytes, List,
  get_or, ltb, ◌==◌, Bool-cases, ==_iff,
}
use okws.Kmp.Match.{
  Ends, Ends-zero, Ends-extend, Ends-shrink, Ends-last, Ends-border, Ends-of_border,
}
use okws.Kmp.{at, fall, advance}

-- `b` is the length of the longest proper border of the first `q` bytes.
pub record IsLongestBorder (p : Bytes) (q b : ℕ) : Type 0 where
  pub proper : b < q
  pub border : Ends (at p) (at p) q b
  pub longest : (k : ℕ) → k < q → Ends (at p) (at p) q k → k ≤ b

-- The table is right for the prefixes of up to `n` bytes.
abbrev pub IsTable : Bytes → List ℕ → ℕ → Type 0
IsTable p pi n = (q : ℕ) → 0 < q → q ≤ n → IsLongestBorder p q (get_or pi (q - 1) 0)

-- `r` ends at place `n`, and no longer prefix below `bound` can be extended by `c` there.
pub record IsBest (p : Bytes) (t : ℕ → ℕ) (n bound c r : ℕ) : Type 0 where
  pub ends : Ends (at p) t n r
  pub best : (k : ℕ) → k < bound → Ends (at p) t n k → at p k ≡ c → k ≤ r

module _ (p : Bytes) (pi : List ℕ) (t : ℕ → ℕ) (n bound c top : ℕ) (table : IsTable p pi top) where
  IsBest-fallback :
      (q : ℕ)
      → 0 < q
      → q ≤ top
      → at p q ≢ c
      → IsBest p t n bound c q
      → IsBest p t n bound c (get_or pi (q - 1) 0)
  IsBest-fallback q pos le ne b =
      let l = table q pos le in
      record {
        ends = Ends-of_border b.ends l.border;
        best = λ k lt e h. elim (Bool-cases (k == q)) [
          | inl same ↦ absurd (ne (cc ((==_iff k q).0 same, h)))
          | inr differ ↦
              let le' : k ≤ q = b.best k lt e h in
              let less : k < q = ground arith in l.longest k less (Ends-border b.ends e le')
        ];
      }

  pub fall-IsBest :
      (fuel q : ℕ)
      → q ≤ fuel
      → q ≤ top
      → IsBest p t n bound c q
      → IsBest p t n bound c (fall p pi c fuel q)
        × (fall p pi c fuel q ≤ q)
        × ((fall p pi c fuel q ≡ 0) ⊎ (at p (fall p pi c fuel q) ≡ c))
  unfolding fall
  fall-IsBest zero q h le b = (b, omega arith, inl (omega arith))
  fall-IsBest (suc fuel) q h le b = elim (Bool-cases (ltb 0 q)) [
    | inr stop ↦ rw stop (b, omega arith, inl (ground arith))
    | inl go ↦ elim (Bool-cases (at p q == c)) [
      | inl same ↦ rw (go, same) (b, omega arith, inr ((==_iff _ _).0 same))
      | inr differ ↦
          let ne : at p q ≢ c = (λ e. cc (differ, (==_iff (at p q) c).1 e)) in
          let pos : 0 < q = ground arith in
          let less = (table q pos le).proper in
          let (b', le', out) =
            fall-IsBest fuel (get_or pi (q - 1) 0) (omega arith) (omega arith)
              (IsBest-fallback q pos le ne b) in
          rw (go, differ) (b', omega arith, out)
    ]
  ]

-- A prefix that ends behind the new byte is a candidate with that byte.
IsBest-suc :
    (p : Bytes) (t : ℕ → ℕ) (n bound c r k : ℕ)
    → t n ≡ c
    → IsBest p t n bound c r
    → k ≤ bound
    → Ends (at p) t (n + 1) k
    → (k ≡ 0) ⊎ ((j : ℕ) × (k ≡ suc j) × (j ≤ r) × (at p j ≡ c))
IsBest-suc p t n bound c r zero byte b le e = inl refl
IsBest-suc p t n bound c r (suc j) byte b le e =
    let h : at p j ≡ c = Ends-last e ∙ byte in inr (j, refl, b.best j le (Ends-shrink e) h, h)

module _ (p : Bytes) (t : ℕ → ℕ) (n bound c r : ℕ) (byte : t n ≡ c)
    (b : IsBest p t n bound c r) where
  le-extended : (k : ℕ) → k ≤ bound → Ends (at p) t (n + 1) k → k ≤ r + 1
  le-extended k le e = elim (IsBest-suc p t n bound c r k byte b le e) [
    | inl z ↦ omega arith
    | inr (j, k-j, j-r, h) ↦ omega arith
  ]

  module _ (stop : (r ≡ 0) ⊎ (at p r ≡ c)) (ne : at p r ≢ c) where
    stopped-zero : r ≡ 0
    stopped-zero = elim stop [ inl z ↦ z | inr h ↦ absurd (ne h) ]

    le-stopped : (k : ℕ) → k ≤ bound → Ends (at p) t (n + 1) k → k ≤ r
    le-stopped k le e = elim (IsBest-suc p t n bound c r k byte b le e) [
      | inl z ↦ omega arith
      | inr (j, k-j, j-r, h) ↦
          let z = stopped-zero in let same : j ≡ r = omega arith in absurd (ne (cc (same, h)))
    ]

module _ (p : Bytes) (pi : List ℕ) (t : ℕ → ℕ) (n bound c top : ℕ) (table : IsTable p pi top) where
  -- After the step the state is the longest prefix, up to `bound`, that ends behind the new byte.
  pub advance-longest :
      (q : ℕ)
      → q ≤ top
      → t n ≡ c
      → IsBest p t n bound c q
      → Ends (at p) t (n + 1) (advance p pi c q)
        × (advance p pi c q ≤ q + 1)
        × ((k : ℕ) → k ≤ bound → Ends (at p) t (n + 1) k → k ≤ advance p pi c q)
  unfolding advance
  advance-longest q le byte b =
      let (b', le', out) = fall-IsBest p pi t n bound c top table q q (omega arith) le b in
      elim (Bool-cases (at p (fall p pi c q q) == c)) [
        | inl same ↦ rw same (
          Ends-extend b'.ends ((==_iff _ _).0 same ∙ sym byte),
          omega arith,
          le-extended p t n bound c _ byte b',
        )
        | inr differ ↦
            let ne : at p (fall p pi c q q) ≢ c = (λ e. cc (differ, (==_iff _ c).1 e)) in
            let z = stopped-zero p t n bound c _ byte b' out ne in
            rw differ
              (rw z (Ends-zero (n + 1)), omega arith, le-stopped p t n bound c _ byte b' out ne)
      ]
