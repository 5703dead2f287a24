-- ===== src/Scalar.antt =====
-- libpub/scalar.C and libpub/pscalar.h: `scalar_obj_t`, a value that converts itself to numbers and
-- keeps what it found. This file has the object behind it, `_p_t`.
pub mod Chain
pub mod Arith
pub mod Kept
pub mod Samples
pub mod History
pub mod Exact
pub mod Sums
pub mod Tests
use okws.Prelude.{
  ℕ, Bool, true, false, ◌&&◌, not, Bytes, List, [], ◌∷◌, Option, none, some, if◌then◌else◌, leb,
  ltb, ◌==◌, ◌^◌, ◌-◌,
}
use okws.Prelude.Int.{ℤ, pos, negsuc}

-- The C library and the arithmetic of doubles, which are their 8 bytes. `strtoull` and `strtoll` are
-- called with base 0, and are `none` if they report an error or leave a part of the text, as is
-- `strtod` if it leaves a part; `dec` is `strbuf << i`, `format` is `snprintf` of a double, and
-- `str_cmp` is `str::cmp`.
pub record Clib : Type 0 where
  pub strtoull : Bytes → Option ℕ
  pub strtoll : Bytes → Option ℤ
  pub strtod : Bytes → Option Bytes
  pub dec : ℤ → Bytes
  pub format : Bytes → Bytes
  pub of_int : ℤ → Bytes
  pub is_zero : Bytes → Bool
  pub double_gt : Bytes → Bytes → Bool
  pub double_add : Bytes → Bytes → Bytes
  pub double_sub : Bytes → Bytes → Bytes
  pub double_mul : Bytes → Bytes → Bytes
  pub double_div : Bytes → Bytes → Bytes
  pub fmod : Bytes → Bytes → Bytes
  pub str_cmp : Bytes → Bytes → ℤ

-- `convertuint` and `my_convertint`
unfoldable pub convertuint : Clib → Bytes → Option ℕ
convertuint lib [] = none
convertuint lib (c ∷ s) = if c == b'-' then none else lib.strtoull (c ∷ s)

unfoldable pub my_convertint : Clib → Bytes → Option ℤ
my_convertint lib [] = none
my_convertint lib (c ∷ s) = lib.strtoll (c ∷ s)

pub data Cnv : Type 0 where
  cnv_none cnv_ok cnv_bad : Cnv

pub data NaturalType : Type 0 where
  type_none type_str type_int type_uint type_double type_inf : NaturalType

-- `_p_t`. A member that nothing was stored in yet is `none`.
pub record Scalar : Type 0 where
  pub s : Option Bytes
  pub double_cnv : Cnv
  pub int_cnv : Cnv
  pub uint_cnv : Cnv
  pub d : Option Bytes
  pub i : Option ℤ
  pub u : Option ℕ
  pub natural_type : NaturalType

-- `_p_t ()` and `_p_t (s)`
abbrev pub scalar_null : Scalar
scalar_null = record {
  s = none;
  double_cnv = cnv_none;
  int_cnv = cnv_none;
  uint_cnv = cnv_none;
  d = none;
  i = none;
  u = none;
  natural_type = type_none;
}

abbrev pub scalar_str : Bytes → Scalar
scalar_str s = record scalar_null { s = some s; natural_type = type_str }

abbrev pub int64_max : ℕ
int64_max = 2 ^ 63 - 1

-- A conversion that is kept: what was found, and whether it is good.
abbrev pub status {ℓ} : {A : Type ℓ} → Option A → Cnv
status none = cnv_bad
status (some a) = cnv_ok

abbrev pub or_else {ℓ} : {A : Type ℓ} → Option A → A → A
or_else none a = a
or_else (some b) a = b

abbrev pub good {ℓ} : {A : Type ℓ} → Cnv → Option A → Option A
good cnv_ok a = a
good c a = none

abbrev pub text_of {ℓ} : {A : Type ℓ} → (Bytes → Option A) → Option Bytes → Option A
text_of f none = none
text_of f (some s) = f s

abbrev pub keep_int : Option ℤ → Scalar → Scalar
keep_int found p = record p { i = some (or_else found (pos 0)); int_cnv = status found }

abbrev pub keep_uint : Option ℕ → Scalar → Scalar
keep_uint found p = record p { u = some (or_else found 0); uint_cnv = status found }

-- `to_int64 ()`, from the unsigned value if there is one.
abbrev pub int_of_uint : Option ℕ → Option ℤ
int_of_uint none = none
int_of_uint (some u) = if leb u int64_max then some (pos u) else none

unfoldable pub find_int : Clib → Scalar → Scalar
unfolding my_convertint
find_int lib p = elim p.int_cnv [
  | cnv_none ↦ elim p.uint_cnv [
    | cnv_ok ↦ keep_int (int_of_uint p.u) p
    | _ ↦ keep_int (text_of (my_convertint lib) p.s) p
  ]
  | _ ↦ p
]

-- `to_uint64 ()`
abbrev pub uint_of_int : Option ℤ → Option ℕ
uint_of_int (some (pos n)) = some n
uint_of_int _ = none

unfoldable pub find_uint : Clib → Scalar → Scalar
unfolding convertuint
find_uint lib p = elim p.uint_cnv [
  | cnv_none ↦ elim p.int_cnv [
    | cnv_ok ↦ keep_uint (uint_of_int p.i) p
    | _ ↦ keep_uint (text_of (convertuint lib) p.s) p
  ]
  | _ ↦ p
]

-- `to_double ()`, of the text only.
unfoldable pub find_double : Clib → Scalar → Scalar
find_double lib p = elim p.double_cnv [
  | cnv_none ↦
      let found = text_of lib.strtod p.s in
      record p { d = some (or_else found (lib.of_int (pos 0))); double_cnv = status found }
  | _ ↦ p
]

-- The calls that say whether the value is good.
unfoldable pub to_int64 : Clib → Scalar → Option ℤ × Scalar
unfolding find_int
to_int64 lib p = let p' = find_int lib p in (good p'.int_cnv p'.i, p')

unfoldable pub to_uint64 : Clib → Scalar → Option ℕ × Scalar
unfolding find_uint
to_uint64 lib p = let p' = find_uint lib p in (good p'.uint_cnv p'.u, p')

unfoldable pub to_double : Clib → Scalar → Option Bytes × Scalar
unfolding find_double
to_double lib p = let p' = find_double lib p in (good p'.double_cnv p'.d, p')

abbrev pub to_str : Scalar → Bytes
to_str p = or_else p.s []

abbrev pub is_nonzero : ℤ → Bool
is_nonzero (pos n) = ltb 0 n
is_nonzero (negsuc n) = true

abbrev pub is_true : Bytes → Option ℤ × Scalar → Bool × Scalar
is_true [] (none, p) = (false, p)
is_true (c ∷ s) (none, p) = (true, p)
is_true s (some i, p) = (is_nonzero i, p)

unfoldable pub to_bool : Clib → Scalar → Bool × Scalar
unfolding to_int64
to_bool lib p = is_true (to_str p) (to_int64 lib p)

-- `set` of a string, of a double, of a signed and of an unsigned integer, `set_inf` and `clear`
unfoldable pub set_str : Bytes → Scalar → Scalar
set_str s p = record p {
  s = some s;
  natural_type = type_str;
  double_cnv = cnv_none;
  int_cnv = cnv_none;
  uint_cnv = cnv_none;
}

unfoldable pub set_double : Clib → Bytes → Scalar → Scalar
set_double lib d p = record p {
  s = some (lib.format d);
  d = some d;
  double_cnv = cnv_ok;
  int_cnv = cnv_bad;
  natural_type = type_double;
}

abbrev pub with_uint : Option ℕ → Scalar → Scalar
with_uint none p = record p { uint_cnv = cnv_bad }
with_uint (some n) p = record p { u = some n; uint_cnv = cnv_ok }

abbrev pub with_int : Option ℤ → Scalar → Scalar
with_int none p = record p { int_cnv = cnv_bad }
with_int (some z) p = record p { i = some z; int_cnv = cnv_ok }

unfoldable pub set_i : Clib → ℤ → Scalar → Scalar
set_i lib i p = with_uint (uint_of_int (some i)) (record p {
  s = some (lib.dec i);
  i = some i;
  d = some (lib.of_int i);
  double_cnv = cnv_ok;
  int_cnv = cnv_ok;
  natural_type = type_int;
})

unfoldable pub set_u : Clib → ℕ → Scalar → Scalar
set_u lib u p = with_int (int_of_uint (some u)) (record p {
  s = some (lib.dec (pos u));
  u = some u;
  d = some (lib.of_int (pos u));
  double_cnv = cnv_ok;
  uint_cnv = cnv_ok;
  natural_type = type_uint;
})

unfoldable pub set_inf : Clib → Scalar → Scalar
set_inf lib p = record {
  s = none;
  double_cnv = cnv_bad;
  int_cnv = cnv_bad;
  uint_cnv = cnv_bad;
  d = some (lib.of_int (pos 0));
  i = some (pos 0);
  u = some 0;
  natural_type = type_inf;
}

-- The type stays what it was.
unfoldable pub clear : Clib → Scalar → Scalar
clear lib p = record p {
  s = none;
  d = some (lib.of_int (pos 0));
  i = some (pos 0);
  uint_cnv = cnv_none;
  double_cnv = cnv_none;
  int_cnv = cnv_none;
}
