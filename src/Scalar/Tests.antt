-- ===== src/Scalar/Tests.antt =====
-- Conversions and sums of some values.
use okws.Prelude.{true, List, [], ◌∷◌, none, some, ◌≡◌, ◌^◌, ◌-◌, refl, arith, codes}
use okws.Prelude.Int.{pos, negsuc, ◌+ℤ◌, ltb_ℤ}
use okws.Scalar.{
  Scalar, convertuint, my_convertint, scalar_str, scalar_null, to_int64, to_uint64, set_i, set_u,
  set_double,
}
use okws.Scalar.Samples.{lib}
use okws.Scalar.Kept.{Conversion, as_int, as_uint, as_bool}
use okws.Scalar.Arith.{add, cmp, cmp_of, div_or_mod}
use okws.Scalar.Exact.{Holds, set_i-Holds, set_u-Holds}
use okws.Scalar.Sums.{cmp_exact, add_exact}

-- A blank in front of the sign gets past the test of `convertuint`.
blank_first : (to_uint64 lib (scalar_str (codes " -5"))).0 ≡ some 18446744073709551611
unfolding to_uint64 convertuint
blank_first = refl

blank_second : (to_uint64 lib (to_int64 lib (scalar_str (codes " -5"))).1).0 ≡ none
unfolding to_int64 to_uint64 convertuint my_convertint
blank_second = refl

-- `set` of a double keeps the unsigned value of an integer that was there.
stale_uint : (to_uint64 lib (set_double lib (3 ∷ []) (set_i lib (pos 7) scalar_null))).0 ≡ some 7
unfolding to_uint64 set_double set_i
stale_uint = refl

divided :
    (div_or_mod lib true (set_i lib (negsuc 6) scalar_null, set_i lib (pos 2) scalar_null)).0
    ≡ some (set_i lib (negsuc 2) scalar_null)
unfolding div_or_mod set_i
divided = refl

abbrev same_calls : List Conversion
same_calls = as_int ∷ as_bool ∷ as_uint ∷ []

abbrev minus_one : Scalar
minus_one = set_i lib (negsuc 0) scalar_null

abbrev large : Scalar
large = set_u lib (2 ^ 63) scalar_null

abbrev larger : Scalar
larger = set_u lib (2 ^ 64 - 1) scalar_null

cmp_exact_example : cmp lib (minus_one, large) ≡ (
  cmp_of (ltb_ℤ (pos (2 ^ 63)) (negsuc 0)) (ltb_ℤ (negsuc 0) (pos (2 ^ 63))),
  (minus_one, large),
)
cmp_exact_example =
    cmp_exact lib minus_one large (negsuc 0) (pos (2 ^ 63))
      (set_i-Holds lib (negsuc 0) scalar_null refl)
      (set_u-Holds lib (2 ^ 63) scalar_null (omega arith)) (omega arith) (omega arith)

add_exact_example :
    (r : Scalar) × (add lib (minus_one, large) ≡ (some r, (minus_one, large)))
    × Holds lib r (negsuc 0 +ℤ pos (2 ^ 63))
unfolding ◌+ℤ◌
add_exact_example =
    add_exact lib minus_one large (negsuc 0) (pos (2 ^ 63))
      (set_i-Holds lib (negsuc 0) scalar_null refl)
      (set_u-Holds lib (2 ^ 63) scalar_null (omega arith)) (omega arith) (omega arith) refl
