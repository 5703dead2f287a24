-- ===== src/Escape/Filter/Quote.antt =====
-- The character behind a double quote.
use okws.Prelude.{
  ℕ, zero, suc, ◌+◌, ◌≤◌, ◌≡◌, refl, ap, arith, Bool, true, false, Bytes, [], ◌∷◌, ◌++◌, codes,
  length, All, ◌==◌, if◌then◌else◌, some,
}
use okws.Escape.Filter.{filter_round, run_filter, prefixed}

-- A character that the filter leaves alone.
abbrev pub is_plain : ℕ → Bool
is_plain c =
    if c == b'<'
    then false
    else if c == b'&'
    then false
    else if c == b'#'
    then false
    else if c == b'"'
    then false
    else true

round-plain :
    (allowed : Bytes → Bool) (c : ℕ) (s : Bytes)
    → is_plain c ≡ true
    → filter_round allowed c s ≡ some (c ∷ [], s)
unfolding filter_round
round-plain allowed c s h = ground (arith, h)

run_filter-plain :
    (fuel : ℕ) (allowed : Bytes → Bool) (s : Bytes)
    → All (λ c. is_plain c ≡ true) s
    → length s ≤ fuel
    → run_filter fuel allowed s ≡ some s
unfolding run_filter
run_filter-plain fuel allowed [] h le = refl
run_filter-plain zero allowed (c ∷ s) h le = absurd (omega arith)
run_filter-plain (suc fuel) allowed (c ∷ s) (plain, h) le =
    let r = round-plain allowed c s plain in
    let ih = run_filter-plain fuel allowed s h (omega arith) in ground (arith, r, ih)

-- Whatever tags are allowed, and with as much fuel as the text has characters: a `<` behind a double
-- quote comes out of the filter as it is, with the text behind it if that needs no escaping.
pub run_filter_passes_tag :
    (fuel : ℕ) (allowed : Bytes → Bool) (s : Bytes)
    → All (λ c. is_plain c ≡ true) s
    → length s + 2 ≤ fuel
    → run_filter fuel allowed (b'"' ∷ b'<' ∷ s) ≡ some (codes "&quot;<" ++ s)
unfolding run_filter filter_round
run_filter_passes_tag zero allowed s h le = absurd (omega arith)
run_filter_passes_tag (suc fuel) allowed s h le =
    ap (λ r. prefixed (codes "&quot;<") r) (run_filter-plain fuel allowed s h (omega arith))
