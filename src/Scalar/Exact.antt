-- ===== src/Scalar/Exact.antt =====
-- `+` and `cmp` of two integers, against the integers they stand for.
use okws.Prelude.{
  ℕ, Bool, true, false, Option, none, some, if◌then◌else◌, leb, ltb, ◌^◌, ◌<◌, ◌≡◌, ◌⊎◌, refl,
  arith, Bool-cases, inl, inr,
}
use okws.Prelude.Int.{ℤ, pos, negsuc, ltb_ℤ}
use okws.Scalar.{
  Clib, Scalar, type_int, type_uint, or_else, find_int, find_uint, to_int64, to_uint64, set_i,
  set_u, int64_max,
}
use okws.Scalar.Chain.{
  Operands, Chain, chain, both, branch, guarded, in_int64, any_str, any_double, chain_uint_int,
  chain_int_uint, chain_uints,
}
use okws.Scalar.Arith.{cmp, cmp_of, cmp_strings, cmp_int_uint, cmp_uint_int, cmp_ints}

-- What the two conversions find of an integer.
abbrev pub as_int64 : ℤ → Option ℤ
as_int64 z = if in_int64 z then some z else none

abbrev pub as_uint64 : ℤ → Option ℕ
as_uint64 (pos n) = if ltb n (2 ^ 64) then some n else none
as_uint64 (negsuc n) = none

-- `p` is an integer, and has `z` in every form that can hold it.
pub record Holds (lib : Clib) (p : Scalar) (z : ℤ) : Type 0 where
  pub kind : (p.natural_type ≡ type_int) ⊎ (p.natural_type ≡ type_uint)
  pub int : to_int64 lib p ≡ (as_int64 z, p)
  pub uint : to_uint64 lib p ≡ (as_uint64 z, p)

pub set_i-Holds :
    (lib : Clib) (z : ℤ) (p : Scalar) → in_int64 z ≡ true → Holds lib (set_i lib z p) z
unfolding set_i to_int64 to_uint64 find_int find_uint
set_i-Holds lib (pos n) p h = record {
  kind = inl refl;
  int = rw h refl;
  uint = let small : ltb n (2 ^ 64) ≡ true = ground (arith, h) in rw small refl;
}
set_i-Holds lib (negsuc n) p h = record { kind = inl refl; int = rw h refl; uint = refl }

pub set_u-Holds : (lib : Clib) (n : ℕ) (p : Scalar) → n < 2 ^ 64 → Holds lib (set_u lib n p) (pos n)
unfolding set_u to_int64 to_uint64 find_int find_uint
set_u-Holds lib n p h =
    let fits : ltb n (2 ^ 64) ≡ true = ground (arith, h) in
    elim (Bool-cases (leb n int64_max)) [
      | inl t ↦
          let small : ltb n (2 ^ 63) ≡ true = ground (arith, t) in
          record { kind = inr (rw t refl); int = rw (t, small) refl; uint = rw (t, fits) refl }
      | inr f ↦
          let large : ltb n (2 ^ 63) ≡ false = ground (arith, f) in
          record { kind = inr (rw f refl); int = rw (f, large) refl; uint = rw (f, fits) refl }
    ]

abbrev pub zip {ℓ} : {A B : Type ℓ} → Option A → Option B → Option (A × B)
zip none y = none
zip (some x) none = none
zip (some x) (some y) = some (x, y)

-- Two conversions that change nothing.
both-zip {ℓ} :
    {A B : Type ℓ} (f : Scalar → Option A × Scalar) (g : Scalar → Option B × Scalar) (a b : Scalar)
    (x : Option A) (y : Option B)
    → f a ≡ (x, a)
    → g b ≡ (y, b)
    → both f g (a, b) ≡ (zip x y, (a, b))
both-zip f g a b none y e h = rw e refl
both-zip f g a b (some x) none e h = rw (e, h) refl
both-zip f g a b (some x) (some y) e h = rw (e, h) refl

pub kind-any :
    {lib : Clib} {a b : Scalar} {x y : ℤ}
    → Holds lib a x
    → Holds lib b y
    → (any_str (a, b) ≡ false) × (any_double (a, b) ≡ false)
kind-any {a = a} {b = b} ha hb = (
  elim ha.kind [
    | inl e ↦ elim hb.kind [ inl f ↦ rw (e, f) refl | inr f ↦ rw (e, f) refl ]
    | inr e ↦ elim hb.kind [ inl f ↦ rw (e, f) refl | inr f ↦ rw (e, f) refl ]
  ],
  elim ha.kind [
    | inl e ↦ elim hb.kind [ inl f ↦ rw (e, f) refl | inr f ↦ rw (e, f) refl ]
    | inr e ↦ elim hb.kind [ inl f ↦ rw (e, f) refl | inr f ↦ rw (e, f) refl ]
  ],
)

-- `branch` where the operands stay as they are.
abbrev pub branch_on {ℓ κ} :
    {A B : Type ℓ} {R : Type κ} → (A → B → Option R) → Bool → (Bool → R) → Option (A × B) → R
branch_on k ok more none = more ok
branch_on k ok more (some (x, y)) = or_else (k x y) (more false)

guarded_same {ℓ} :
    {R : Type ℓ} (more : Bool → Operands → R × Operands) (p : Operands) (r : R) (o : Option R)
    → more false p ≡ (r, p)
    → guarded more p o ≡ (or_else o r, p)
guarded_same more p r none e = e
guarded_same more p r (some s) e = refl

branch_same {ℓ κ} :
    {A B : Type ℓ} {R : Type κ} (k : A → B → Option R) (ok : Bool)
    (more : Bool → Operands → R × Operands) (pure : Bool → R) (p : Operands) (o : Option (A × B))
    → ((ok' : Bool) → more ok' p ≡ (pure ok', p))
    → branch k ok more (o, p) ≡ (branch_on k ok pure o, p)
branch_same k ok more pure p none same = same ok
branch_same k ok more pure p (some (x, y)) same =
    guarded_same more p (pure false) (k x y) (same false)

abbrev pick_uint_int : {R : Type 0} → Chain R → ℤ → ℤ → Bool → R
pick_uint_int k x y ok = branch_on k.uint_int ok k.otherwise (zip (as_uint64 x) (as_int64 y))

abbrev pick_int_uint : {R : Type 0} → Chain R → ℤ → ℤ → Bool → R
pick_int_uint k x y ok =
    branch_on k.int_uint ok (pick_uint_int k x y) (zip (as_int64 x) (as_uint64 y))

abbrev pick_uints : {R : Type 0} → Chain R → ℤ → ℤ → Bool → R
pick_uints k x y ok = branch_on k.uints ok (pick_int_uint k x y) (zip (as_uint64 x) (as_uint64 y))

abbrev pub pick : {R : Type 0} → Chain R → ℤ → ℤ → R
pick k x y = branch_on k.ints true (pick_uints k x y) (zip (as_int64 x) (as_int64 y))

-- The branches of `cmp`.
abbrev pub cmp_pick_int_uint : Clib → Scalar → Scalar → ℤ → ℤ → Bool → ℤ
cmp_pick_int_uint lib a b x y ok =
    branch_on (λ i n. some (negsuc 0)) ok (λ ok'. (cmp_strings lib (a, b)).0)
      (zip (as_int64 x) (as_uint64 y))

abbrev pub cmp_pick_uint_int : Clib → Scalar → Scalar → ℤ → ℤ → Bool → ℤ
cmp_pick_uint_int lib a b x y ok =
    branch_on (λ n j. some (pos 1)) ok (cmp_pick_int_uint lib a b x y)
      (zip (as_uint64 x) (as_int64 y))

abbrev pub cmp_pick_ints : Clib → Scalar → Scalar → ℤ → ℤ → Bool → ℤ
cmp_pick_ints lib a b x y ok =
    branch_on (λ i j. some (cmp_of (ltb_ℤ j i) (ltb_ℤ i j))) ok (cmp_pick_uint_int lib a b x y)
      (zip (as_int64 x) (as_int64 y))

abbrev pub cmp_pick : Clib → Scalar → Scalar → ℤ → ℤ → ℤ
cmp_pick lib a b x y =
    branch_on (λ m n. some (cmp_of (ltb n m) (ltb m n))) true (cmp_pick_ints lib a b x y)
      (zip (as_uint64 x) (as_uint64 y))

module _ (lib : Clib) (a b : Scalar) (x y : ℤ) (ha : Holds lib a x) (hb : Holds lib b y) where
  uint_int_same :
      {R : Type 0} (k : Chain R) (ok : Bool)
      → chain_uint_int lib k ok (a, b) ≡ (pick_uint_int k x y ok, (a, b))
  uint_int_same k ok =
      rw (both-zip (to_uint64 lib) (to_int64 lib) a b (as_uint64 x) (as_int64 y) ha.uint hb.int) (
        branch_same k.uint_int ok (λ ok' p'. (k.otherwise ok', p')) k.otherwise (a, b)
          (zip (as_uint64 x) (as_int64 y)) (λ ok'. refl))

  int_uint_same :
      {R : Type 0} (k : Chain R) (ok : Bool)
      → chain_int_uint lib k ok (a, b) ≡ (pick_int_uint k x y ok, (a, b))
  int_uint_same k ok =
      rw (both-zip (to_int64 lib) (to_uint64 lib) a b (as_int64 x) (as_uint64 y) ha.int hb.uint) (
        branch_same k.int_uint ok (chain_uint_int lib k) (pick_uint_int k x y) (a, b)
          (zip (as_int64 x) (as_uint64 y)) (uint_int_same k))

  uints_same :
      {R : Type 0} (k : Chain R) (ok : Bool)
      → chain_uints lib k ok (a, b) ≡ (pick_uints k x y ok, (a, b))
  uints_same k ok =
      rw (both-zip (to_uint64 lib) (to_uint64 lib) a b (as_uint64 x) (as_uint64 y) ha.uint hb.uint)
        (branch_same k.uints ok (chain_int_uint lib k) (pick_int_uint k x y) (a, b)
          (zip (as_uint64 x) (as_uint64 y)) (int_uint_same k))

  pub chain-pick : {R : Type 0} (k : Chain R) → chain lib k (a, b) ≡ (pick k x y, (a, b))
  unfolding chain
  chain-pick k =
      rw (both-zip (to_int64 lib) (to_int64 lib) a b (as_int64 x) (as_int64 y) ha.int hb.int) (
        branch_same k.ints true (chain_uints lib k) (pick_uints k x y) (a, b)
          (zip (as_int64 x) (as_int64 y)) (uints_same k))

  cmp_int_uint_same :
      (ok : Bool) → cmp_int_uint lib ok (a, b) ≡ (cmp_pick_int_uint lib a b x y ok, (a, b))
  cmp_int_uint_same ok =
      rw (both-zip (to_int64 lib) (to_uint64 lib) a b (as_int64 x) (as_uint64 y) ha.int hb.uint) (
        branch_same (λ i n. some (negsuc 0)) ok (λ ok' p'. cmp_strings lib p')
          (λ ok'. (cmp_strings lib (a, b)).0) (a, b) (zip (as_int64 x) (as_uint64 y)) (λ ok'. refl))

  cmp_uint_int_same :
      (ok : Bool) → cmp_uint_int lib ok (a, b) ≡ (cmp_pick_uint_int lib a b x y ok, (a, b))
  cmp_uint_int_same ok =
      rw (both-zip (to_uint64 lib) (to_int64 lib) a b (as_uint64 x) (as_int64 y) ha.uint hb.int) (
        branch_same (λ n j. some (pos 1)) ok (cmp_int_uint lib) (cmp_pick_int_uint lib a b x y)
          (a, b) (zip (as_uint64 x) (as_int64 y)) cmp_int_uint_same)

  cmp_ints_same : (ok : Bool) → cmp_ints lib ok (a, b) ≡ (cmp_pick_ints lib a b x y ok, (a, b))
  cmp_ints_same ok =
      rw (both-zip (to_int64 lib) (to_int64 lib) a b (as_int64 x) (as_int64 y) ha.int hb.int) (
        branch_same (λ i j. some (cmp_of (ltb_ℤ j i) (ltb_ℤ i j))) ok (cmp_uint_int lib)
          (cmp_pick_uint_int lib a b x y) (a, b) (zip (as_int64 x) (as_int64 y)) cmp_uint_int_same)

  pub cmp-pick : cmp lib (a, b) ≡ (cmp_pick lib a b x y, (a, b))
  unfolding cmp
  cmp-pick =
      rw
        (
          (kind-any ha hb).1,
          both-zip (to_uint64 lib) (to_uint64 lib) a b (as_uint64 x) (as_uint64 y) ha.uint hb.uint,
        )
        (branch_same (λ m n. some (cmp_of (ltb n m) (ltb m n))) true (cmp_ints lib)
          (cmp_pick_ints lib a b x y) (a, b) (zip (as_uint64 x) (as_uint64 y)) cmp_ints_same)
