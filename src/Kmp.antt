-- ===== src/Kmp.antt =====
-- libahttp/kmp.h and libahttp/kmp.C: the Knuth-Morris-Pratt matcher with which the multipart parser
-- finds a boundary. The pattern and each byte are lowercased first if the matcher is case-insensitive.
pub mod Match
mod Fall
mod Preproc
pub mod Suffix
pub mod Step
pub mod Search
mod Tests
use okws.Prelude.{
  ℕ, zero, suc, ◌+◌, ◌-◌, Bool, true, false, ◌&&◌, Bytes, List, map, length, set, get_or, replicate,
  ltb, leb, ◌==◌, if◌then◌else◌,
}

-- `tolower` of the C locale.
unfoldable pub tolower : ℕ → ℕ
tolower c = if leb b'A' c && leb c b'Z' then c + 32 else c

pub record KmpMatcher : Type 0 where
  pub ci : Bool
  pub pattern : Bytes
  pub pi : List ℕ
  pub q : ℕ

-- `_PP[i]`; the byte behind the pattern is the terminating zero.
abbrev pub at : Bytes → ℕ → ℕ
at p i = get_or p i 0

-- `while (q > 0 && _PP[q] != c) q = _pi[q-1];`
pub fall : Bytes → List ℕ → ℕ → ℕ → ℕ → ℕ
fall p pi c zero q = q
fall p pi c (suc fuel) q =
    let next = fall p pi c fuel (get_or pi (q - 1) 0) in
    if ltb 0 q then (if at p q == c then q else next) else q

-- One byte: fall back, then `if (_PP[q] == c) q++`.
pub advance : Bytes → List ℕ → ℕ → ℕ → ℕ
advance p pi c q = let k = fall p pi c q q in if at p k == c then k + 1 else k

-- The loop of `preproc` over `q_tmp`, with `todo` rounds left.
pub preproc_from : Bytes → ℕ → ℕ → ℕ → List ℕ → List ℕ
preproc_from p zero q_tmp k pi = pi
preproc_from p (suc todo) q_tmp k pi =
    let k' = advance p pi (at p q_tmp) k in preproc_from p todo (q_tmp + 1) k' (set pi q_tmp k')

unfoldable pub preproc : Bytes → List ℕ
unfolding preproc_from advance fall
preproc p = preproc_from p (length p - 1) 1 0 (replicate (length p) 0)

-- The constructor.
unfoldable pub kmp_matcher : Bytes → Bool → KmpMatcher
unfolding preproc tolower
kmp_matcher s ci =
    let p = if ci then map tolower s else s in
    record { ci = ci; pattern = p; pi = preproc p; q = 0 }

unfoldable pub reset : KmpMatcher → KmpMatcher
reset m = record m { q = 0 }

-- `match`: the new state, and whether the pattern has just been completed.
unfoldable pub match : KmpMatcher → ℕ → KmpMatcher × Bool
unfolding advance fall tolower
match m c =
    let c' = if m.ci then tolower c else c in
    let q' = advance m.pattern m.pi c' m.q in
    if q' == length m.pattern
    then (record m { q = get_or m.pi (q' - 1) 0 }, true)
    else (record m { q = q' }, false)
