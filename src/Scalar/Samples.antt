-- ===== src/Scalar/Samples.antt =====
-- A C library for the tests, that knows decimal digits and blanks in front of them, and whose doubles
-- are single bytes.
use okws.Prelude.{
  ℕ, zero, suc, Bool, true, false, Bytes, [], ◌∷◌, Option, none, some, if◌then◌else◌, leb, ltb,
  ◌==◌, ◌&&◌, ◌+◌, ◌-◌, ◌*◌, ◌^◌, ◌/◌, ◌%◌, get_or,
}
use okws.Prelude.Int.{ℤ, pos, negsuc}
use okws.Scalar.{Clib}

abbrev digits : ℕ → Bytes → Option ℕ
digits n [] = some n
digits n (c ∷ s) =
    let others = digits (n * 10 + (c - b'0')) s in if leb b'0' c && leb c b'9' then others else none

abbrev signed_digits {ℓ} : {A : Type ℓ} → (Bool → ℕ → Option A) → Bool → Bytes → Option A
signed_digits f neg [] = none
signed_digits f neg (c ∷ s) = elim (digits 0 (c ∷ s)) [ none ↦ none | some n ↦ f neg n ]

abbrev number {ℓ} : {A : Type ℓ} → (Bool → ℕ → Option A) → Bytes → Option A
number f [] = none
number f (c ∷ s) =
    let others = number f s in
    if c == b' '
    then others
    else if c == b'-'
    then signed_digits f true s
    else signed_digits f false (c ∷ s)

abbrev as_uint : Bool → ℕ → Option ℕ
as_uint neg n = if ltb n (2 ^ 64) then some (if neg then (2 ^ 64 - n) % 2 ^ 64 else n) else none

abbrev as_int : Bool → ℕ → Option ℤ
as_int false n = if ltb n (2 ^ 63) then some (pos n) else none
as_int true n =
    if n == 0 then some (pos 0) else if leb n (2 ^ 63) then some (negsuc (n - 1)) else none

abbrev dec_from : ℕ → ℕ → Bytes → Bytes
dec_from zero n s = s
dec_from (suc k) n s =
    let s' = (b'0' + n % 10) ∷ s in if ltb n 10 then s' else dec_from k (n / 10) s'

-- Doubles as small numbers without a sign.
abbrev low : ℤ → ℕ
low (pos n) = n
low (negsuc n) = 0

abbrev cmp_bytes : Bytes → Bytes → ℤ
cmp_bytes [] [] = pos 0
cmp_bytes [] (c ∷ t) = negsuc 0
cmp_bytes (c ∷ s) [] = pos 1
cmp_bytes (c ∷ s) (e ∷ t) =
    let others = cmp_bytes s t in if c == e then others else if ltb c e then negsuc 0 else pos 1

abbrev pub lib : Clib
lib = record {
  strtoull = number as_uint;
  strtoll = number as_int;
  strtod = λ s. elim (digits 0 s) [ none ↦ none | some n ↦ some (n ∷ []) ];
  dec = λ i. elim i [ pos n ↦ dec_from 20 n [] | negsuc n ↦ b'-' ∷ dec_from 20 (n + 1) [] ];
  format = λ d. dec_from 20 (get_or d 0 0) [];
  of_int = λ i. low i ∷ [];
  is_zero = λ d. get_or d 0 0 == 0;
  double_gt = λ a b. ltb (get_or b 0 0) (get_or a 0 0);
  double_add = λ a b. (get_or a 0 0 + get_or b 0 0) ∷ [];
  double_sub = λ a b. (get_or a 0 0 - get_or b 0 0) ∷ [];
  double_mul = λ a b. (get_or a 0 0 * get_or b 0 0) ∷ [];
  double_div = λ a b. (get_or a 0 0 / get_or b 0 0) ∷ [];
  fmod = λ a b. (get_or a 0 0 % get_or b 0 0) ∷ [];
  str_cmp = cmp_bytes;
}
