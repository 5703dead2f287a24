-- ===== src/Escape/Filter/Safe.antt =====
-- The filter without tags.
use okws.Prelude.{
  ℕ, zero, suc, ◌≤◌, ◌≡◌, ◌≢◌, ◌⊎◌, inl, inr, refl, arith, Bool, true, false, ◌||◌, Bytes, [], ◌∷◌,
  ◌++◌, codes, length, All, ◌==◌, some, Option-cases, Bool-cases, ==_iff,
}
use okws.Pair.{str_eq}
use okws.Pair.Laws.{str_eq_iff}
use okws.Escape.Xss.{All-append}
use okws.Escape.Filter.{
  strchr, tag_text, handle_tag, is_safe_entity, handle_amp, filter_round, run_filter,
  second_is_slash,
}

abbrev pub IsOk : ℕ → Type 0
IsOk c = (c ≢ b'"') × (c ≢ b'/')

abbrev pub IsNoTag : ℕ → Type 0
IsNoTag c = c ≢ b'<'

-- What a round adds holds no `<`, and what it leaves is no longer than before.
record Rounds (c : ℕ) (s : Bytes) : Type 0 where
  added : Bytes
  left : Bytes
  result : filter_round (λ _. false) c s ≡ some (added, left)
  safe : All IsNoTag added
  ok : All IsOk left
  shorter : length left ≤ length s

record Splits (c : ℕ) (s : Bytes) (p : Bytes × Bytes) : Type 0 where
  all : All IsOk s → All IsOk p.1
  before : All IsOk s → All IsOk p.0
  shorter : length p.1 ≤ length s

strchr-Splits : (c : ℕ) (s : Bytes) (p : Bytes × Bytes) → strchr c s ≡ some p → Splits c s p
unfolding strchr
strchr-Splits c [] p e = cc e
strchr-Splits c (b ∷ s) p e = elim (Bool-cases (b == c)) [
  | inl here ↦
      let eq : p ≡ ([], s) = ground (arith, here, e) in
      rw eq (record { all = λ h. h.1; before = λ h. tt; shorter = omega arith })
  | inr further ↦ elim (Option-cases (strchr c s)) [
    | inl missing ↦ ground (arith, further, missing, e)
    | inr (q, found) ↦
        let eq : p ≡ (b ∷ q.0, q.1) = ground (arith, further, found, e) in
        let ih = strchr-Splits c s q found in
        rw eq (record {
          all = λ h. ih.all h.1;
          before = λ h. (h.0, ih.before h.1);
          shorter = omega (arith, ih.shorter);
        })
  ]
]

or-cases : (a b : Bool) → (a || b) ≡ true → (a ≡ true) ⊎ (b ≡ true)
or-cases a b h = ground (arith, h)

IsNoTag-same : (s t : Bytes) → All IsNoTag t → str_eq s t ≡ true → All IsNoTag s
IsNoTag-same s t h e = let same : s ≡ t = (str_eq_iff s t).0 e in rw same h

is_safe_entity-IsNoTag : (s : Bytes) → is_safe_entity s ≡ true → All IsNoTag s
unfolding is_safe_entity
is_safe_entity-IsNoTag s h =
    let use_it = λ (t : Bytes) (n : All IsNoTag t) (h : str_eq s t ≡ true). IsNoTag-same s t n h in
    elim (Bool-cases (str_eq s (codes "lt"))) [
      | inl y ↦ use_it (codes "lt") (omega arith) y
      | inr n₁ ↦ elim (Bool-cases (str_eq s (codes "gt"))) [
        | inl y ↦ use_it (codes "gt") (omega arith) y
        | inr n₂ ↦ elim (Bool-cases (str_eq s (codes "amp"))) [
          | inl y ↦ use_it (codes "amp") (omega arith) y
          | inr n₃ ↦ elim (Bool-cases (str_eq s (codes "#35"))) [
            | inl y ↦ use_it (codes "#35") (omega arith) y
            | inr n₄ ↦ use_it (codes "quot") (omega arith) (ground (arith, h, n₁, n₂, n₃, n₄))
          ]
        ]
      ]
    ]

second_is_slash-false :
    (tag rest : Bytes) → All IsOk tag → All IsOk rest → second_is_slash (tag ++ b'>' ∷ rest) ≡ false
second_is_slash-false [] [] h k = refl
second_is_slash-false [] (d ∷ rest) h k = let ne = k.0.1 in ground (arith, ne)
second_is_slash-false (c ∷ []) rest h k = refl
second_is_slash-false (c ∷ d ∷ tag) rest h k = let ne = h.1.0.1 in ground (arith, ne)

handle_tag-Rounds : (s : Bytes) → All IsOk s → Rounds b'<' s
unfolding filter_round handle_tag tag_text
handle_tag-Rounds s h = elim (Option-cases (strchr b'>' s)) [
  | inl missing ↦ record {
    added = [];
    left = [];
    result = rw missing refl;
    safe = tt;
    ok = tt;
    shorter = omega arith;
  }
  | inr (p, found) ↦
      let q = strchr-Splits b'>' s p found in
      record {
        added = codes "&lt;";
        left = s;
        result = rw (found, second_is_slash-false p.0 p.1 (q.before h) (q.all h)) refl;
        safe = omega arith;
        ok = h;
        shorter = omega arith;
      }
]

handle_amp-Rounds : (s : Bytes) → All IsOk s → Rounds b'&' s
unfolding filter_round handle_amp
handle_amp-Rounds s h = elim (Option-cases (strchr b';' s)) [
  | inl missing ↦ record {
    added = codes "&amp;";
    left = s;
    result = rw missing refl;
    safe = omega arith;
    ok = h;
    shorter = omega arith;
  }
  | inr (p, found) ↦
      let q = strchr-Splits b';' s p found in
      elim (Bool-cases (is_safe_entity p.0)) [
        | inl safe ↦ record {
          added = b'&' ∷ (p.0 ++ (b';' ∷ []));
          left = p.1;
          result = rw (found, safe) refl;
          safe = (
            (λ e. omega (arith, e)),
            All-append IsNoTag p.0 (b';' ∷ []) (is_safe_entity-IsNoTag p.0 safe) (omega arith),
          );
          ok = q.all h;
          shorter = q.shorter;
        }
        | inr other ↦ record {
          added = codes "&amp;";
          left = s;
          result = rw (found, other) refl;
          safe = omega arith;
          ok = h;
          shorter = omega arith;
        }
      ]
]

filter_round-Rounds : (c : ℕ) (s : Bytes) → IsOk c → All IsOk s → Rounds c s
filter_round-Rounds c s ok h = elim (Bool-cases (c == b'<')) [
  | inl tag ↦ rw ((==_iff c b'<').0 tag) (handle_tag-Rounds s h)
  | inr no_tag ↦ elim (Bool-cases (c == b'&')) [
    | inl amp ↦ rw ((==_iff c b'&').0 amp) (handle_amp-Rounds s h)
    | inr no_amp ↦ elim (Bool-cases (c == b'#')) [
      | inl hash ↦ record {
        added = codes "&#35;";
        left = s;
        result = unfold filter_round in ground (arith, no_tag, no_amp, hash);
        safe = omega arith;
        ok = h;
        shorter = omega arith;
      }
      | inr no_hash ↦ record {
        added = c ∷ [];
        left = s;
        result =
            let no_quote = ok.0 in
            unfold filter_round in ground (arith, no_tag, no_amp, no_hash, no_quote);
        safe = ground (arith, no_tag);
        ok = h;
        shorter = omega arith;
      }
    ]
  ]
]

-- The text that comes out.
pub record Filtered (fuel : ℕ) (s : Bytes) : Type 0 where
  pub out : Bytes
  pub result : run_filter fuel (λ _. false) s ≡ some out
  pub safe : All IsNoTag out

Filtered-round :
    (fuel c : ℕ) (s : Bytes) → (r : Rounds c s) → Filtered fuel r.left → Filtered (suc fuel) (c ∷ s)
unfolding run_filter
Filtered-round fuel c s r ih = record {
  out = r.added ++ ih.out;
  result = rw (r.result, ih.result) refl;
  safe = All-append IsNoTag r.added ih.out r.safe ih.safe;
}

-- If no tag is allowed and the text holds no double quote and no slash, the filter ends without
-- undefined behaviour, with as much fuel as the text has characters, and its output holds no `<`.
pub run_filter-Filtered : (fuel : ℕ) (s : Bytes) → All IsOk s → length s ≤ fuel → Filtered fuel s
unfolding run_filter
run_filter-Filtered fuel [] h le = record { out = []; result = refl; safe = tt }
run_filter-Filtered zero (c ∷ s) h le = absurd (omega arith)
run_filter-Filtered (suc fuel) (c ∷ s) h le =
    let r = filter_round-Rounds c s h.0 h.1 in
    Filtered-round fuel c s r (run_filter-Filtered fuel r.left r.ok (omega (arith, r.shorter)))
