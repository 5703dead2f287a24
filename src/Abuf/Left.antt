-- ===== src/Abuf/Left.antt =====
-- The number of bytes that a buffer and its source still hold: every loop that reads ends by it.
use okws.Prelude.{
  ℕ, zero, suc, ◌+◌, ◌<◌, ◌≤◌, ◌≡◌, inl, inr, refl, arith, Bool, true, false, Bytes, List, [], ◌∷◌,
  length, some, if◌then◌else◌, Bool-cases,
}
use okws.Abuf.Scan.{skip_ws, skip_hws, skipped, hws_done, is_chr, isspace, ishws}
use okws.Abuf.{
  AbufStat, Got, chr, eofchar, waitchar, AbufIndata, Abuf, at_limit, get_fresh, get, unget,
}

abbrev pub source_bytes : List AbufIndata → ℕ
source_bytes [] = 0
source_bytes (d ∷ ds) = length d.bytes + source_bytes ds

unfoldable pub left : Abuf → ℕ
left a = (if a.bc then 1 else 0) + length a.cur + source_bytes a.src

-- `get` uses up a byte, or nothing.
abbrev pub Uses : ℕ → Got → ℕ → Type 0
Uses n (chr c) m = m < n
Uses n _ m = m ≤ n

-- Past the push-back and the limit, by what is current and what the source has.
fresh-left :
    (cur : Bytes) (src : List AbufIndata) (a : Abuf)
    → a.cur ≡ cur
    → a.src ≡ src
    → a.bc ≡ false
    → Uses (left a) (get_fresh a cur).0 (left (get_fresh a cur).1)
unfolding left get_fresh
fresh-left (c ∷ cs) src a e f free = ground arith
fresh-left [] [] a e f free = ground arith
fresh-left [] (d ∷ ds) a e f free = ground arith

Uses-of_lt : (g : Got) (n m : ℕ) → m < n → Uses n g m
Uses-of_lt (chr c) n m h = h
Uses-of_lt _ n m h = omega arith

pub get-Uses : (a : Abuf) → Uses (left a) (get a).0 (left (get a).1)
unfolding left get
get-Uses a = elim (Bool-cases a.bc) [
  | inl back ↦ rw back (Uses-of_lt a.lch _ _ (omega arith))
  | inr free ↦ elim (Bool-cases (at_limit a.lim a.ccnt)) [
    | inl full ↦ rw (free, full) (omega arith)
    | inr room ↦ rw (free, room) (rw free at (fresh-left a.cur a.src a refl refl free))
  ]
]

Uses-chr : (p : ℕ → Bool) (g : Got) (n m : ℕ) → is_chr p g ≡ true → Uses n g m → m < n
Uses-chr p (chr c) n m h u = u
Uses-chr p eofchar n m h u = cc h
Uses-chr p waitchar n m h u = cc h

-- A push-back adds at most the byte that was read.
pub unget-left : (a : Abuf) → left (unget a) ≤ left a + 1
unfolding left unget
unget-left a = ground arith

-- With more fuel than bytes the white space ends, and no byte is gained.
pub skip_ws_total :
    (fuel : ℕ) (a : Abuf)
    → left a < fuel
    → (r : AbufStat) × (a' : Abuf) × (skip_ws fuel a ≡ some (r, a'))
unfolding skip_ws
skip_ws_total zero a h = absurd (omega arith)
skip_ws_total (suc fuel) a h = elim (Bool-cases (is_chr isspace (get a).0)) [
  | inl more ↦
      let less = Uses-chr isspace (get a).0 _ _ more (get-Uses a) in
      rw more (skip_ws_total fuel (get a).1 (omega arith))
  | inr last ↦ let (r, a') = skipped (get a).0 (get a).1 in rw last (r, a', refl)
]

left-spcs : (a : Abuf) (n : ℕ) → left (record a { spcs = n }) ≡ left a
unfolding left
left-spcs a n = refl

pub skip_hws_total :
    (fuel mn : ℕ) (a : Abuf)
    → left a < fuel
    → (r : AbufStat) × (a' : Abuf) × (skip_hws fuel mn a ≡ some (r, a'))
unfolding skip_hws
skip_hws_total zero mn a h = absurd (omega arith)
skip_hws_total (suc fuel) mn a h = elim (Bool-cases (is_chr ishws (get a).0)) [
  | inl more ↦
      let less = Uses-chr ishws (get a).0 _ _ more (get-Uses a) in
      let a' = (get a).1 in
      rw more (
        skip_hws_total fuel mn (record a' { spcs = a'.spcs + 1 })
          (omega (arith, left-spcs a' (a'.spcs + 1))))
  | inr last ↦ let (r, a') = hws_done mn (get a).0 (get a).1 in rw last (r, a', refl)
]
