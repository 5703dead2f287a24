-- ===== src/Scalar/Sums.antt =====
-- `+` and `cmp` of integers, against the integers themselves.
use okws.Prelude.{
  ℕ, suc, true, false, Option, none, some, ltb, ◌^◌, ◌+◌, ◌-◌, ◌%◌, ◌<◌, ◌≤◌, ◌≡◌, refl, sym, ap,
  ◌∙◌, arith, Bool-cases, inl, inr, lt→ltb,
}
use okws.Prelude.Int.{ℤ, pos, negsuc, ◌+ℤ◌, ltb_ℤ}
use okws.Scalar.{Clib, Scalar, or_else, set_i, scalar_null}
use okws.Scalar.Chain.{Chain, in_int64, to_u64, to_i64, int_result}
use okws.Scalar.Arith.{add, add_chain, cmp, cmp_of}
use okws.Scalar.Exact.{
  Holds, branch_on, zip, as_int64, as_uint64, set_i-Holds, pick, chain-pick, cmp-pick, cmp_pick,
  kind-any,
}

-- The integers that an object can hold.
abbrev pub IsWide : ℤ → Type 0
IsWide (pos n) = n < 2 ^ 64
IsWide (negsuc n) = n < 2 ^ 63

cmp_pick_exact :
    (lib : Clib) (a b : Scalar) (x y : ℤ)
    → IsWide x
    → IsWide y
    → cmp_pick lib a b x y ≡ cmp_of (ltb_ℤ y x) (ltb_ℤ x y)
cmp_pick_exact lib a b (pos m) (pos n) hx hy = ground (arith, hx, hy)
cmp_pick_exact lib a b (pos m) (negsuc n) hx hy = ground (arith, hx, hy)
cmp_pick_exact lib a b (negsuc m) (pos n) hx hy = ground (arith, hx, hy)
cmp_pick_exact lib a b (negsuc m) (negsuc n) hx hy = ground (arith, hx, hy)

-- `cmp` of two objects that hold integers orders them as integers, whatever their kinds, and leaves
-- the objects as they are.
pub cmp_exact :
    (lib : Clib) (a b : Scalar) (x y : ℤ)
    → Holds lib a x
    → Holds lib b y
    → IsWide x
    → IsWide y
    → cmp lib (a, b) ≡ (cmp_of (ltb_ℤ y x) (ltb_ℤ x y), (a, b))
cmp_exact lib a b x y ha hb hx hy =
    cmp-pick lib a b x y ha hb ∙ ap (λ r. (r, (a, b))) (cmp_pick_exact lib a b x y hx hy)

-- Two integers that are both in the range of a signed one.
add_ints :
    (lib : Clib) (x y : ℤ)
    → in_int64 x ≡ true
    → in_int64 y ≡ true
    → pick (add_chain lib) x y ≡ int_result lib (x +ℤ y)
add_ints lib x y hx hy = rw (hx, hy) refl

-- The branches are chosen by what the conversions find.
abbrev find_pick : {R : Type 0} → Chain R → Option ℤ → Option ℕ → Option ℤ → Option ℕ → R
find_pick k xi xu yi yu =
    branch_on k.ints true
      (λ ok1.
        branch_on k.uints ok1
          (λ ok2.
            branch_on k.int_uint ok2 (λ ok3. branch_on k.uint_int ok3 k.otherwise (zip xu yi))
              (zip xi yu))
          (zip xu yu))
      (zip xi yi)

find_pick_same :
    {R : Type 0} (k : Chain R) {xi xi' yi yi' : Option ℤ} {xu xu' yu yu' : Option ℕ}
    → xi ≡ xi'
    → xu ≡ xu'
    → yi ≡ yi'
    → yu ≡ yu'
    → find_pick k xi xu yi yu ≡ find_pick k xi' xu' yi' yu'
find_pick_same k p q r s = rw (p, q, r, s) refl

large : (m : ℕ) → 2 ^ 63 ≤ m → as_int64 (pos m) ≡ none
large m h = ground (arith, h)

unsigned : (m : ℕ) → m < 2 ^ 64 → as_uint64 (pos m) ≡ some m
unsigned m h = ground (arith, h)

negative : (n : ℕ) → n < 2 ^ 63 → as_int64 (negsuc n) ≡ some (negsuc n)
negative n h = ground (arith, h)

uint_int_pick :
    {R : Type 0} (k : Chain R) (m n : ℕ)
    → 2 ^ 63 ≤ m
    → m < 2 ^ 64
    → n < 2 ^ 63
    → pick k (pos m) (negsuc n) ≡ or_else (k.uint_int m (negsuc n)) (k.otherwise false)
uint_int_pick k m n hm hx hn = find_pick_same k (large m hm) (unsigned m hx) (negative n hn) refl

int_uint_pick :
    {R : Type 0} (k : Chain R) (m n : ℕ)
    → 2 ^ 63 ≤ m
    → m < 2 ^ 64
    → n < 2 ^ 63
    → pick k (negsuc n) (pos m) ≡ or_else (k.int_uint (negsuc n) m) (k.otherwise false)
int_uint_pick k m n hm hx hn =
    find_pick_same k {xu = none} {xu' = none} (negative n hn) refl (large m hm) (unsigned m hx)

-- A sum where one integer is negative and the other too large for a signed one.
wraps :
    (m n : ℕ)
    → 2 ^ 63 ≤ m
    → m < 2 ^ 64
    → n < 2 ^ 63
    → in_int64 (pos m +ℤ negsuc n) ≡ true
    → to_i64 ((m + to_u64 (negsuc n)) % 2 ^ 64) ≡ pos m +ℤ negsuc n
unfolding ◌+ℤ◌
wraps m n hm hx hn h = ground (arith, h)

comm : (m n : ℕ) → negsuc n +ℤ pos m ≡ pos m +ℤ negsuc n
unfolding ◌+ℤ◌
comm m n = ground arith

in_range :
    (lib : Clib) (z : ℤ) → in_int64 z ≡ true → int_result lib z ≡ some (set_i lib z scalar_null)
in_range lib z h = rw h refl

no_overflow :
    (m n : ℕ)
    → in_int64 (pos m +ℤ pos n) ≡ true
    → (in_int64 (pos m) ≡ true) × (in_int64 (pos n) ≡ true)
unfolding ◌+ℤ◌
no_overflow m n h = (ground (arith, h), ground (arith, h))

add_pick :
    (lib : Clib) (x y : ℤ)
    → IsWide x
    → IsWide y
    → in_int64 (x +ℤ y) ≡ true
    → pick (add_chain lib) x y ≡ some (set_i lib (x +ℤ y) scalar_null)
add_pick lib (pos m) (pos n) hx hy h =
    let fits = no_overflow m n h in add_ints lib (pos m) (pos n) fits.0 fits.1 ∙ in_range lib _ h
add_pick lib (negsuc m) (negsuc n) hx hy h =
    add_ints lib (negsuc m) (negsuc n) (lt→ltb m _ hx) (lt→ltb n _ hy) ∙ in_range lib _ h
add_pick lib (pos m) (negsuc n) hx hy h = elim (Bool-cases (ltb m (2 ^ 63))) [
  | inl t ↦ add_ints lib (pos m) (negsuc n) t (lt→ltb n _ hy) ∙ in_range lib _ h
  | inr f ↦
      let hm : 2 ^ 63 ≤ m = ground (arith, f) in
      uint_int_pick (add_chain lib) m n hm hx hy
      ∙ ap (λ z. some (set_i lib z scalar_null)) (wraps m n hm hx hy h)
]
add_pick lib (negsuc m) (pos n) hx hy h = elim (Bool-cases (ltb n (2 ^ 63))) [
  | inl t ↦ add_ints lib (negsuc m) (pos n) (lt→ltb m _ hx) t ∙ in_range lib _ h
  | inr f ↦
      let hn : 2 ^ 63 ≤ n = ground (arith, f) in
      let sum : to_i64 ((to_u64 (negsuc m) + n) % 2 ^ 64) ≡ negsuc m +ℤ pos n =
        ap (λ k. to_i64 (k % 2 ^ 64)) {x = to_u64 (negsuc m) + n} {y = n + to_u64 (negsuc m)}
          (omega arith)
        ∙ wraps n m hn hy hx (ap in_int64 (sym (comm n m)) ∙ h)
        ∙ sym (comm n m) in
      int_uint_pick (add_chain lib) n m hn hy hx ∙ ap (λ z. some (set_i lib z scalar_null)) sum
]

add-pick :
    (lib : Clib) (a b : Scalar) (x y : ℤ)
    → Holds lib a x
    → Holds lib b y
    → add lib (a, b) ≡ (pick (add_chain lib) x y, (a, b))
unfolding add
add-pick lib a b x y ha hb =
    let kinds = kind-any ha hb in
    rw (kinds.0, kinds.1) (chain-pick lib a b x y ha hb (add_chain lib))

-- The sum of two objects that hold integers holds the sum of these, if it is in the range of a
-- signed 64-bit integer, also where one of them is too large for such an integer.
pub add_exact :
    (lib : Clib) (a b : Scalar) (x y : ℤ)
    → Holds lib a x
    → Holds lib b y
    → IsWide x
    → IsWide y
    → in_int64 (x +ℤ y) ≡ true
    → (r : Scalar) × (add lib (a, b) ≡ (some r, (a, b))) × Holds lib r (x +ℤ y)
add_exact lib a b x y ha hb hx hy h = (
  set_i lib (x +ℤ y) scalar_null,
  add-pick lib a b x y ha hb ∙ ap (λ r. (r, (a, b))) (add_pick lib x y hx hy h),
  set_i-Holds lib (x +ℤ y) scalar_null h,
)

-- If an integer too large for a signed one and a negative one have a sum that is too large as well,
-- the object that `+` gives holds a negative integer: the sum less 2^64.
add_wraps :
    (lib : Clib) (a b : Scalar) (m n : ℕ)
    → Holds lib a (pos m)
    → Holds lib b (negsuc n)
    → m < 2 ^ 64
    → n < 2 ^ 63
    → 2 ^ 63 + suc n ≤ m
    → (r : Scalar) × (add lib (a, b) ≡ (some r, (a, b))) × Holds lib r (negsuc (2 ^ 64 + n - m))
add_wraps lib a b m n ha hb hm hn h =
    let sum : to_i64 ((m + to_u64 (negsuc n)) % 2 ^ 64) ≡ negsuc (2 ^ 64 + n - m) = ground arith in
    (
      set_i lib (negsuc (2 ^ 64 + n - m)) scalar_null,
      add-pick lib a b (pos m) (negsuc n) ha hb
          ∙ ap (λ r. (r, (a, b)))
              (uint_int_pick (add_chain lib) m n (omega arith) hm hn
                ∙ ap (λ z. some (set_i lib z scalar_null)) sum),
      set_i-Holds lib (negsuc (2 ^ 64 + n - m)) scalar_null (ground arith),
    )
