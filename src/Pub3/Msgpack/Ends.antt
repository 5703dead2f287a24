-- ===== src/Pub3/Msgpack/Ends.antt =====
-- How far `unpack` goes: every call reads a byte, so the calls end, inside the message.
use okws.Prelude.{
  ℕ, zero, suc, ◌+◌, ◌≤◌, ◌≡◌, ◌⊎◌, refl, ◌∙◌, arith, Bytes, Bool, [], ◌∷◌, length, take, leb,
  Option, some, none, if◌then◌else◌, true, false, Bool-cases, inl, inr, leb→le,
}
use okws.Suiolite.{drop}
use okws.Pub3.Msgpack.Unpack.{Msgpack, eagain, Result, if_some, get_bytes}

-- `n` is behind `m`: the bytes that were read are counted, and the error is what it was.
pub record After (m n : Msgpack) : Type 0 where
  pub less : length n.left ≤ length m.left
  pub counted : n.len + length n.left ≡ m.len + length m.left
  pub clean : n.my_errno ≡ m.my_errno

-- Some result comes; the error is new only if that is null.
pub record Ends {ℓ} {A : Type ℓ} (m : Msgpack) (r : Option (Option A × Msgpack)) : Type ℓ where
  pub value : Option A
  pub next : Msgpack
  pub result : r ≡ some (value, next)
  pub less : length next.left ≤ length m.left
  pub counted : next.len + length next.left ≡ m.len + length m.left
  pub clean : (value ≡ none) ⊎ (next.my_errno ≡ m.my_errno)

After-refl : (m : Msgpack) → After m m
After-refl m = record { less = omega arith; counted = refl; clean = refl }

-- The result is that of a call further on.
pub Ends-later {ℓ} :
    {A : Type ℓ} {m n : Msgpack} {r : Option (Option A × Msgpack)} → After m n → Ends n r → Ends m r
Ends-later a h = record {
  value = h.value;
  next = h.next;
  result = h.result;
  less = omega (arith, a.less, h.less);
  counted = h.counted ∙ a.counted;
  clean = elim h.clean [ inl e ↦ inl e | inr e ↦ inr (e ∙ a.clean) ];
}

pub Ends-value {ℓ} : {A : Type ℓ} (m : Msgpack) (x : Option A) → Ends m (some (x, m))
Ends-value m x = record {
  value = x;
  next = m;
  result = refl;
  less = omega arith;
  counted = refl;
  clean = inr refl;
}

pub Ends-if {ℓ} :
    {A : Type ℓ} {m : Msgpack} {x y : Option (Option A × Msgpack)} (c : Bool)
    → Ends m x
    → Ends m y
    → Ends m (if c then x else y)
Ends-if true hx hy = hx
Ends-if false hx hy = hy

length-take-drop : (n : ℕ) (s : Bytes) → n ≤ length s → n + length (drop n s) ≡ length s
unfolding drop
length-take-drop zero s h = omega arith
length-take-drop (suc n) [] h = absurd (omega arith)
length-take-drop (suc n) (c ∷ s) h = omega (arith, length-take-drop n s)

pub if_some-Ends :
    (n : ℕ) (m : Msgpack) (f : Bytes → Msgpack → Result)
    → ((s : Bytes) (m' : Msgpack) → length m'.left ≤ length m.left → Ends m' (f s m'))
    → Ends m (if_some f (get_bytes n m))
unfolding get_bytes
if_some-Ends n m f h = elim (Bool-cases (leb n (length m.left))) [
  | inl t ↦
      let size = length-take-drop n m.left (leb→le n _ t) in
      let m' = record m { left = drop n m.left; len = m.len + n } in
      rw t (
        Ends-later {m = m} {n = m'}
          (record { less = omega arith; counted = omega arith; clean = refl })
          (h (take n m.left) m' (omega arith)))
  | inr f ↦ rw f (record {
    value = none;
    next = record m { my_errno = eagain };
    result = refl;
    less = omega arith;
    counted = refl;
    clean = inl refl;
  })
]

-- A call that goes on where a value was read, and else gives up.
pub Ends-then {ℓ κ} :
    {A : Type ℓ} {B : Type κ} {m : Msgpack} {r : Option (Option A × Msgpack)}
    (f : Option (Option A × Msgpack) → Option (Option B × Msgpack))
    → ((n : Msgpack) → f (some (none, n)) ≡ some (none, n))
    → ((x : A) (n : Msgpack) → length n.left ≤ length m.left → Ends n (f (some (some x, n))))
    → Ends m r
    → Ends m (f r)
Ends-then {A} {B} {m} f null more h = rw h.result (from h.value h.next h.less h.counted h.clean)
  where
    from :
        (v : Option A) (n : Msgpack)
        → length n.left ≤ length m.left
        → n.len + length n.left ≡ m.len + length m.left
        → (v ≡ none) ⊎ (n.my_errno ≡ m.my_errno)
        → Ends m (f (some (v, n)))
    from none n less counted clean = record {
      value = none;
      next = n;
      result = null n;
      less = less;
      counted = counted;
      clean = inl refl;
    }
    from (some x) n less counted (inl e) = ground arith
    from (some x) n less counted (inr e) =
        Ends-later (record { less = less; counted = counted; clean = e }) (more x n less)
