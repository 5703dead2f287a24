-- ===== src/Mpfd.antt =====
-- libahttp/mpfd.C: the parser of multi-part forms, its list of boundaries, the search for the next one and the two dashes behind the last.
pub mod Boundary
pub mod Call
pub mod Contdisp
pub mod Files
pub mod Parts
pub mod Dashes
mod Tests
use okws.Prelude.{
  ℕ, zero, suc, ◌+◌, Bool, true, false, not, ◌||◌, Bytes, List, [], ◌∷◌, ◌++◌, length, ◌==◌,
  if◌then◌else◌, Option, none, some, codes,
}
use okws.Abuf.{
  AbufStat, abuf_ok, abuf_parse_err, abuf_eof, abuf_wait, abuf_nomatch, Got, chr, eofchar, waitchar,
  Abuf, get, unget, mirror,
}
use okws.Abuf.Scan.{end_mirror2}
use okws.Kmp.{KmpMatcher, kmp_matcher, match, reset}

-- `cgi_mpfd_t`: the matchers of the boundaries, the one added last first. `cbm` is the number of
-- matchers that were added before the one it points to, and `scratch_len` the size of the scratch area.
pub record Mpfd : Type 0 where
  pub abuf : Abuf
  pub boundaries : List KmpMatcher
  pub cbm : Option ℕ
  pub match_ended : Bool
  pub scratch_len : ℕ

unfoldable pub add_boundary : Bytes → Mpfd → Mpfd
unfolding kmp_matcher
add_boundary b p = record p { boundaries = kmp_matcher (codes "--" ++ b) true ∷ p.boundaries }

abbrev pub popped : List KmpMatcher → List KmpMatcher
popped [] = []
popped (k ∷ ks) = ks

unfoldable pub remove_boundary : Mpfd → Mpfd
remove_boundary p = record p { boundaries = popped p.boundaries; cbm = none }

-- The loop of `match_boundary`: how it was left, the matcher and the buffer.
pub data Left : Type 0 where
  matched waits ended : Left

abbrev pub on_match :
    (KmpMatcher → Option (Left × KmpMatcher × Abuf))
    → Abuf
    → KmpMatcher × Bool
    → Option (Left × KmpMatcher × Abuf)
on_match again a (m, true) = some (matched, m, a)
on_match again a (m, false) = again m

abbrev pub on_byte :
    (KmpMatcher → Abuf → Option (Left × KmpMatcher × Abuf))
    → KmpMatcher
    → Got × Abuf
    → Option (Left × KmpMatcher × Abuf)
on_byte again m (waitchar, a) = some (waits, m, a)
on_byte again m (eofchar, a) = some (ended, m, a)
on_byte again m (chr c, a) = on_match (λ m'. again m' a) a (match m c)

unfoldable pub match_loop : ℕ → KmpMatcher → Abuf → Option (Left × KmpMatcher × Abuf)
unfolding get match
match_loop zero m a = none
match_loop (suc fuel) m a =
    let again = λ (m' : KmpMatcher) (a' : Abuf). match_loop fuel m' a' in on_byte again m (get a)

-- Behind the loop; `dat` says whether the text in front of the boundary is wanted. The outer `none`
-- is a lack of fuel, or a mirror that holds less than the boundary.
abbrev pub with_text : Mpfd → Option (Bytes × Abuf) → Option (AbufStat × Option Bytes × Mpfd)
with_text p none = none
with_text p (some (t, a)) = some (abuf_ok, some t, record p { abuf = a })

abbrev pub loop_left :
    Bool
    → Mpfd
    → List KmpMatcher
    → Option (Left × KmpMatcher × Abuf)
    → Option (AbufStat × Option Bytes × Mpfd)
loop_left dat p ks none = none
loop_left dat p ks (some (waits, m, a)) =
    some (abuf_wait, none, record p { boundaries = m ∷ ks; abuf = a })
loop_left dat p ks (some (ended, m, a)) =
    some (abuf_eof, none, record p { boundaries = m ∷ ks; abuf = a; match_ended = true })
loop_left false p ks (some (matched, m, a)) =
    some (abuf_ok, none, record p { boundaries = m ∷ ks; abuf = a; match_ended = true })
loop_left true p ks (some (matched, m, a)) =
    with_text (record p { boundaries = m ∷ ks; match_ended = true })
      (end_mirror2 (length m.pattern) a)

abbrev pub is_current : Option ℕ → ℕ → Bool
is_current none n = false
is_current (some m) n = m == n

unfoldable pub match_boundary : ℕ → Bool → Mpfd → Option (AbufStat × Option Bytes × Mpfd)
unfolding match_loop end_mirror2
match_boundary fuel dat p = elim p.boundaries [
  | [] ↦ some (abuf_parse_err, none, p)
  | k ∷ ks ↦
      if not (is_current p.cbm (length ks)) || p.match_ended
      then loop_left dat (record p { match_ended = false; cbm = some (length ks) }) ks
          (match_loop fuel (reset k) (if dat then mirror p.scratch_len p.abuf else p.abuf))
      else loop_left dat p ks (match_loop fuel k p.abuf)
]

-- `parse_2dash`; `n` dashes are still wanted.
abbrev pub on_dash : (Abuf → AbufStat × Abuf) → Got × Abuf → AbufStat × Abuf
on_dash again (waitchar, a) = (abuf_wait, a)
on_dash again (eofchar, a) = (abuf_eof, a)
on_dash again (chr c, a) = if c == b'-' then again a else (abuf_nomatch, unget a)

unfoldable pub dashes : ℕ → Abuf → AbufStat × Abuf
unfolding get unget
dashes zero a = (abuf_ok, a)
dashes (suc n) a = let again = λ (a' : Abuf). dashes n a' in on_dash again (get a)

unfoldable pub parse_2dash : Mpfd → AbufStat × Mpfd
unfolding dashes
parse_2dash p = let r = dashes 2 p.abuf in (r.0, record p { abuf = r.1 })
