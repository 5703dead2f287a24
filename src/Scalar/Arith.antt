-- ===== src/Scalar/Arith.antt =====
-- The operators of `scalar_obj_t`. `none` is an overflow of a signed integer or another case that C
-- leaves undefined.
use okws.Prelude.{
  ℕ, zero, suc, Bool, true, false, Bytes, [], ◌++◌, Option, none, some, if◌then◌else◌, ltb, ◌==◌,
  ◌^◌, ◌+◌, ◌-◌, ◌*◌, ◌/◌, ◌%◌,
}
use okws.Prelude.Int.{ℤ, pos, negsuc, ◌+ℤ◌, ◌-ℤ◌, ◌*ℤ◌, ltb_ℤ, pos_part, neg_part, sub_ℕ}
use okws.Scalar.{
  Clib, Scalar, scalar_null, to_int64, to_uint64, to_double, to_str, set_str, set_double, set_i,
  set_u, set_inf,
}
use okws.Scalar.Chain.{
  Operands, is_str, any_str, any_double, both, branch, chain, in_int64, to_u64, int_result, wrapped,
  uint_result, doubles, double_result, Chain,
}

-- `operator+`
abbrev pub add_chain : Clib → Chain (Option Scalar)
add_chain lib = record {
  ints = λ x y. some (int_result lib (x +ℤ y));
  uints = λ x y. some (uint_result lib (x + y));
  int_uint = λ x y. some (wrapped lib (to_u64 x + y));
  uint_int = λ x y. some (wrapped lib (x + to_u64 y));
  otherwise = λ ok. some scalar_null;
}

unfoldable pub add : Clib → Operands → Option Scalar × Operands
unfolding ◌+ℤ◌ set_str set_double set_i set_u chain to_double
add lib p =
    if any_str p
    then (some (set_str (to_str p.0 ++ to_str p.1) scalar_null), p)
    else if any_double p
    then doubles lib (λ x y. double_result lib (lib.double_add x y)) p
    else chain lib (add_chain lib) p

-- `operator-`: two unsigned integers give a signed one.
abbrev pub sub_chain : Clib → Chain (Option Scalar)
sub_chain lib = record {
  ints = λ x y. some (int_result lib (x -ℤ y));
  uints = λ x y. some (wrapped lib (x + (2 ^ 64 - y)));
  int_uint = λ x y. some (wrapped lib (to_u64 x + (2 ^ 64 - y)));
  uint_int = λ x y. some (wrapped lib (x + (2 ^ 64 - to_u64 y)));
  otherwise = λ ok. some scalar_null;
}

unfoldable pub sub : Clib → Operands → Option Scalar × Operands
unfolding ◌-ℤ◌ set_str set_double set_i set_u chain to_double
sub lib p =
    if any_str p
    then (some scalar_null, p)
    else if any_double p
    then doubles lib (λ x y. double_result lib (lib.double_sub x y)) p
    else chain lib (sub_chain lib) p

-- `operator*`; a string is repeated.
abbrev pub repeat : ℕ → Bytes → Bytes
repeat zero s = []
repeat (suc n) s = s ++ repeat n s

abbrev pub mul_chain : Clib → Chain (Option Scalar)
mul_chain lib = record {
  ints = λ x y. some (int_result lib (x *ℤ y));
  uints = λ x y. some (uint_result lib (x * y));
  int_uint = λ x y. some (wrapped lib (to_u64 x * y));
  uint_int = λ x y. some (wrapped lib (x * to_u64 y));
  otherwise = λ ok. some scalar_null;
}

abbrev pub mul_numbers : Clib → Operands → Option Scalar × Operands
mul_numbers lib p =
    if any_str p
    then (some scalar_null, p)
    else if any_double p
    then doubles lib (λ x y. double_result lib (lib.double_mul x y)) p
    else chain lib (mul_chain lib) p

abbrev pub times : Clib → Scalar → Option ℤ × Scalar → Option Scalar × Operands
times lib a (none, b) = mul_numbers lib (a, b)
times lib a (some n, b) =
    if ltb_ℤ n (pos 256)
    then (some (set_str (repeat (pos_part n) (to_str a)) scalar_null), (a, b))
    else mul_numbers lib (a, b)

unfoldable pub mul : Clib → Operands → Option Scalar × Operands
unfolding ◌*ℤ◌ set_str set_double set_i set_u chain to_double to_int64
mul lib p =
    if is_str (p.0).natural_type then times lib p.0 (to_int64 lib p.1) else mul_numbers lib p

-- `div_or_mod`: integers are divided towards zero.
abbrev pub same_sign : ℤ → ℤ → Bool
same_sign (pos m) (pos n) = true
same_sign (negsuc m) (negsuc n) = true
same_sign x y = false

abbrev pub quotient : ℤ → ℤ → ℤ
quotient x y =
    let q = (pos_part x + neg_part x) / (pos_part y + neg_part y) in
    if same_sign x y then pos q else sub_ℕ 0 q

abbrev pub remainder : ℤ → ℤ → ℤ
remainder (pos m) y = pos (m % (pos_part y + neg_part y))
remainder (negsuc m) y = sub_ℕ 0 (suc m % (pos_part y + neg_part y))

-- INT64_MIN divided by -1, and its remainder, are undefined.
abbrev pub div_ints : Clib → Bool → ℤ → ℤ → Option Scalar
div_ints lib div x y =
    if in_int64 (quotient x y)
    then int_result lib (if div then quotient x y else remainder x y)
    else none

abbrev pub div_uints : Bool → ℕ → ℕ → ℕ
div_uints div x y = if div then x / y else x % y

abbrev pub div_chain : Clib → Bool → Chain (Option Scalar)
div_chain lib div = record {
  ints = λ x y. if pos_part y + neg_part y == 0 then none else some (div_ints lib div x y);
  uints = λ x y. if y == 0 then none else some (uint_result lib (div_uints div x y));
  int_uint = λ x y. if y == 0 then none else some (wrapped lib (div_uints div (to_u64 x) y));
  uint_int = λ x y.
      if pos_part y + neg_part y == 0
      then none
      else some (wrapped lib (div_uints div x (to_u64 y)));
  otherwise = λ ok. some (if ok then scalar_null else set_inf lib scalar_null);
}

abbrev pub div_double : Clib → Bool → Bytes → Bytes → Option Scalar
div_double lib div x y =
    if lib.is_zero y
    then some (set_inf lib scalar_null)
    else double_result lib (if div then lib.double_div x y else lib.fmod x y)

unfoldable pub div_or_mod : Clib → Bool → Operands → Option Scalar × Operands
unfolding set_double set_i set_u set_inf chain to_double
div_or_mod lib div p =
    if any_str p
    then (some scalar_null, p)
    else if any_double p
    then doubles lib (div_double lib div) p
    else chain lib (div_chain lib div) p

-- `cmp`: the test of the unsigned values comes first.
abbrev pub cmp_of : Bool → Bool → ℤ
cmp_of gt lt = if gt then pos 1 else if lt then negsuc 0 else pos 0

abbrev pub cmp_strings : Clib → Operands → ℤ × Operands
cmp_strings lib p = (lib.str_cmp (to_str p.0) (to_str p.1), p)

abbrev pub cmp_int_uint : Clib → Bool → Operands → ℤ × Operands
cmp_int_uint lib ok p =
    branch (λ x y. some (negsuc 0)) ok (λ ok' p'. cmp_strings lib p')
      (both (to_int64 lib) (to_uint64 lib) p)

abbrev pub cmp_uint_int : Clib → Bool → Operands → ℤ × Operands
cmp_uint_int lib ok p =
    branch (λ x y. some (pos 1)) ok (cmp_int_uint lib) (both (to_uint64 lib) (to_int64 lib) p)

abbrev pub cmp_ints : Clib → Bool → Operands → ℤ × Operands
cmp_ints lib ok p =
    branch (λ x y. some (cmp_of (ltb_ℤ y x) (ltb_ℤ x y))) ok (cmp_uint_int lib)
      (both (to_int64 lib) (to_int64 lib) p)

unfoldable pub cmp : Clib → Operands → ℤ × Operands
unfolding to_int64 to_uint64 to_double
cmp lib p =
    if any_double p
    then doubles lib (λ x y. cmp_of (lib.double_gt x y) (lib.double_gt y x)) p
    else branch (λ x y. some (cmp_of (ltb y x) (ltb x y))) true (cmp_ints lib)
        (both (to_uint64 lib) (to_uint64 lib) p)
