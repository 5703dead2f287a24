-- ===== src/Kmp/Tests.antt =====
-- Runs of the matcher, and the theorem at one of them.
use okws.Prelude.{◌≡◌, ◌↔◌, refl, arith, Bool, true, false, Bytes, List, [], ◌∷◌, ◌++◌, map, codes}
use okws.Kmp.Suffix.{IsSuffix}
use okws.Kmp.Step.{folded}
use okws.Kmp.Search.{feed, match_iff}
use okws.Kmp.{KmpMatcher, kmp_matcher, match, reset, preproc}

abbrev reports : KmpMatcher → Bytes → List Bool
reports m [] = []
reports m (c ∷ cs) = (match m c).1 ∷ reports (match m c).0 cs

overlapping :
    reports (kmp_matcher (codes "aBa") true) (codes "xabABA")
    ≡ false ∷ false ∷ false ∷ true ∷ false ∷ true ∷ []
unfolding kmp_matcher match
overlapping = refl

borders : preproc (codes "ababaca") ≡ 0 ∷ 0 ∷ 1 ∷ 2 ∷ 3 ∷ 0 ∷ 1 ∷ []
unfolding preproc
borders = refl

match_iff_example :
    ((match (feed (reset (feed (kmp_matcher (codes "--b") true) (codes "x-"))) (codes "--")) b'B').1
      ≡ true)
    ↔ IsSuffix (map (folded true) (codes "--b")) (map (folded true) (codes "--" ++ b'B' ∷ []))
match_iff_example = match_iff (codes "--b") true (codes "x-") (codes "--") b'B' (omega arith)
