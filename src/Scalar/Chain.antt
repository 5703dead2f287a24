-- ===== src/Scalar/Chain.antt =====
-- The operands of an operator of `scalar_obj_t`, and the branches by what their conversions find.
-- An operand keeps what is found, so it is given back; the two are different objects.
use okws.Prelude.{
  ℕ, Bool, true, false, ◌||◌, Bytes, Option, none, some, if◌then◌else◌, ltb, ◌^◌, ◌-◌, ◌%◌,
}
use okws.Prelude.Int.{ℤ, pos, negsuc}
use okws.Scalar.{
  Clib, Scalar, NaturalType, type_str, type_double, scalar_null, to_int64, to_uint64, to_double,
  set_double, set_i, set_u,
}

abbrev pub Operands : Type 0
Operands = Scalar × Scalar

abbrev pub is_str : NaturalType → Bool
is_str type_str = true
is_str t = false

abbrev pub is_double : NaturalType → Bool
is_double type_double = true
is_double t = false

abbrev pub any_str : Operands → Bool
any_str (a, b) = is_str a.natural_type || is_str b.natural_type

abbrev pub any_double : Operands → Bool
any_double (a, b) = is_double a.natural_type || is_double b.natural_type

-- `f (&x) && o.g (&y)`
abbrev pub second {ℓ} : {A B : Type ℓ} → A → Scalar → Option B × Scalar → Option (A × B) × Operands
second x a (none, b) = (none, (a, b))
second x a (some y, b) = (some (x, y), (a, b))

abbrev pub first {ℓ} :
    {A B : Type ℓ}
    → (Scalar → Option B × Scalar)
    → Scalar
    → Option A × Scalar
    → Option (A × B) × Operands
first g b (none, a) = (none, (a, b))
first g b (some x, a) = second x a (g b)

abbrev pub both {ℓ} :
    {A B : Type ℓ}
    → (Scalar → Option A × Scalar)
    → (Scalar → Option B × Scalar)
    → Operands
    → Option (A × B) × Operands
both f g (a, b) = first g b (f a)

-- A branch of the chain of the operators: the two values are found, and the guard `ok = …` holds.
-- `guard` is `none` if it does not.
abbrev pub guarded {ℓ} :
    {R : Type ℓ} → (Bool → Operands → R × Operands) → Operands → Option R → R × Operands
guarded more p none = more false p
guarded more p (some r) = (r, p)

abbrev pub branch {ℓ κ} :
    {A B : Type ℓ} {R : Type κ}
    → (A → B → Option R)
    → Bool
    → (Bool → Operands → R × Operands)
    → Option (A × B) × Operands
    → R × Operands
branch k ok more (none, p) = more ok p
branch k ok more (some (x, y), p) = guarded more p (k x y)

-- The chain on integers, both signed, both unsigned, and mixed.
pub record Chain (R : Type 0) : Type 0 where
  pub ints : ℤ → ℤ → Option R
  pub uints : ℕ → ℕ → Option R
  pub int_uint : ℤ → ℕ → Option R
  pub uint_int : ℕ → ℤ → Option R
  pub otherwise : Bool → R

abbrev pub chain_uint_int : {R : Type 0} → Clib → Chain R → Bool → Operands → R × Operands
chain_uint_int lib k ok p =
    branch k.uint_int ok (λ ok' p'. (k.otherwise ok', p')) (both (to_uint64 lib) (to_int64 lib) p)

abbrev pub chain_int_uint : {R : Type 0} → Clib → Chain R → Bool → Operands → R × Operands
chain_int_uint lib k ok p =
    branch k.int_uint ok (chain_uint_int lib k) (both (to_int64 lib) (to_uint64 lib) p)

abbrev pub chain_uints : {R : Type 0} → Clib → Chain R → Bool → Operands → R × Operands
chain_uints lib k ok p =
    branch k.uints ok (chain_int_uint lib k) (both (to_uint64 lib) (to_uint64 lib) p)

unfoldable pub chain : {R : Type 0} → Clib → Chain R → Operands → R × Operands
unfolding to_int64 to_uint64
chain lib k p = branch k.ints true (chain_uints lib k) (both (to_int64 lib) (to_int64 lib) p)

-- 64-bit integers: a signed one that is in range, and the conversions between the two kinds.
abbrev pub in_int64 : ℤ → Bool
in_int64 (pos n) = ltb n (2 ^ 63)
in_int64 (negsuc n) = ltb n (2 ^ 63)

abbrev pub to_u64 : ℤ → ℕ
to_u64 (pos n) = n % 2 ^ 64
to_u64 (negsuc n) = 2 ^ 64 - 1 - n % 2 ^ 64

abbrev pub to_i64 : ℕ → ℤ
to_i64 n = if ltb n (2 ^ 63) then pos n else negsuc (2 ^ 64 - 1 - n)

-- `ret.set_i (e)` for a signed `e`, and for an unsigned one
abbrev pub int_result : Clib → ℤ → Option Scalar
int_result lib z = if in_int64 z then some (set_i lib z scalar_null) else none

abbrev pub wrapped : Clib → ℕ → Option Scalar
wrapped lib n = some (set_i lib (to_i64 (n % 2 ^ 64)) scalar_null)

abbrev pub uint_result : Clib → ℕ → Option Scalar
uint_result lib n = some (set_u lib (n % 2 ^ 64) scalar_null)

-- The doubles of two operands.
abbrev pub of_double : Clib → Option Bytes × Scalar → Bytes × Scalar
of_double lib (none, p) = (lib.of_int (pos 0), p)
of_double lib (some d, p) = (d, p)

abbrev pub doubles {ℓ} : {R : Type ℓ} → Clib → (Bytes → Bytes → R) → Operands → R × Operands
doubles lib k (a, b) =
    let x = of_double lib (to_double lib a) in
    let y = of_double lib (to_double lib b) in (k x.0 y.0, (x.1, y.1))

abbrev pub double_result : Clib → Bytes → Option Scalar
double_result lib d = some (set_double lib d scalar_null)
