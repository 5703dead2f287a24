-- ===== src/Pub3/Msgpack/Total.antt =====
-- `unpack` calls itself on fewer and fewer bytes, and so it ends.
use okws.Prelude.{
  ℕ, zero, suc, ◌+◌, ◌-◌, ◌<◌, ◌≤◌, ◌≡◌, ◌⊎◌, refl, ap, arith, Bytes, [], ◌∷◌, length, leb, Option,
  some, none, inl, ◌==◌,
}
use okws.Prelude.Int.{pos}
use okws.Pub3.Expr.{
  Expr, Fields, no_items, more_items, int, uint, list, dict, str, no_fields, insert,
}
use okws.Pub3.Msgpack.{Config}
use okws.Pub3.Msgpack.Unpack.{
  Msgpack, msgpack_t, Errno, no_errno, einval, Result, gives, with_int, big_endian, signed,
  unpack_array, unpack_items, unpack_map, unpack_raw, unpack_code, unpack_hook, unpack, hook_on,
  has_hook, decode, key_str, on_item, before_items, as_list, on_value, on_key, on_field,
}
use okws.Pub3.Msgpack.Ends.{Ends, Ends-later, Ends-value, Ends-if, if_some-Ends, Ends-then}

-- The containers, if the calls for what they hold end where at most `k` bytes are left.
module _ (k : ℕ) (rec : Msgpack → Result)
    (ends : (m : Msgpack) → length m.left ≤ k → Ends m (rec m)) where
  unpack_items-Ends : (n : ℕ) (m : Msgpack) → length m.left ≤ k → Ends m (unpack_items rec n m)
  unfolding unpack_items
  unpack_items-Ends zero m h = Ends-value m (some no_items)
  unpack_items-Ends (suc n) m h =
      Ends-then (on_item (λ m'. unpack_items rec n m')) (λ n'. refl)
        (λ x m' less.
          Ends-then (before_items x) (λ n'. refl)
            (λ xs m'' less'. Ends-value m'' (some (more_items x xs)))
            (unpack_items-Ends n m' (omega arith)))
        (ends m h)

  unpack_array-Ends : (n : ℕ) (m : Msgpack) → length m.left ≤ k → Ends m (unpack_array rec n m)
  unfolding unpack_array
  unpack_array-Ends n m h =
      Ends-then as_list (λ n'. refl) (λ xs m' less. Ends-value m' (some (list xs)))
        (unpack_items-Ends n m h)

  on_key-Ends :
      (more : Fields → Msgpack → Result) (d : Fields) (m : Msgpack) (ks : Option Bytes)
      → ((d' : Fields) (m' : Msgpack) → length m'.left ≤ k → Ends m' (more d' m'))
      → length m.left ≤ k
      → Ends m (on_key rec more d m ks)
  on_key-Ends more d m none later h = later d m h
  on_key-Ends more d m (some ks) later h =
      Ends-then (on_value more d ks) (λ n'. refl)
        (λ v m' less. later (insert ks v d) m' (omega arith)) (ends m h)

  unpack_map-Ends :
      (cfg : Config) (n : ℕ) (d : Fields) (m : Msgpack)
      → length m.left ≤ k
      → Ends m (unpack_map cfg rec n d m)
  unfolding unpack_map
  unpack_map-Ends cfg zero d m h = Ends-value m (some (dict d))
  unpack_map-Ends cfg (suc n) d m h =
      Ends-then (on_field cfg rec (λ d' m'. unpack_map cfg rec n d' m') d) (λ n'. refl)
        (λ x m' less.
          on_key-Ends (λ d' m'. unpack_map cfg rec n d' m') d m' (key_str cfg x)
            (λ d' m'' h'. unpack_map-Ends cfg n d' m'' h') (omega arith))
        (ends m h)

  unpack_raw-Ends : (n : ℕ) (m : Msgpack) → Ends m (unpack_raw n m)
  unfolding unpack_raw
  unpack_raw-Ends n m = if_some-Ends n m _ (λ s m' less. Ends-value m' (some (str (some s))))

  with_int-Ends :
      (n : ℕ) (f : ℕ → Msgpack → Result) (m : Msgpack)
      → length m.left ≤ k
      → ((i : ℕ) (m' : Msgpack) → length m'.left ≤ k → Ends m' (f i m'))
      → Ends m (with_int n f m)
  with_int-Ends n f m h later =
      if_some-Ends n m _ (λ s m' less. later (big_endian 0 s) m' (omega arith))

  -- A code that stands for a value.
  gives-Ends :
      (n : ℕ) (f : ℕ → Expr) (m : Msgpack)
      → length m.left ≤ k
      → Ends m (with_int n (λ i. gives (f i)) m)
  gives-Ends n f m h = with_int-Ends n _ m h (λ i m' h'. Ends-value m' (some (f i)))

  unpack_code-Ends :
      (cfg : Config) (widen : Bytes → Bytes) (b : ℕ) (m : Msgpack)
      → length m.left ≤ k
      → Ends m (unpack_code cfg widen rec b m)
  unfolding unpack_code
  unpack_code-Ends cfg widen b m h = Ends-if (b == 0xc0) (Ends-value m _) (
      Ends-if (b == 0xc2) (Ends-value m _) (
        Ends-if (b == 0xc3) (Ends-value m _) (
          Ends-if (b == 0xca) (if_some-Ends 4 m _ (λ s m' less. Ends-value m' _)) (
            Ends-if (b == 0xcb) (if_some-Ends 8 m _ (λ s m' less. Ends-value m' _)) (
              Ends-if (b == 0xcc) (gives-Ends 1 (λ i. int (pos i)) m h) (
                Ends-if (b == 0xcd) (gives-Ends 2 (λ i. int (pos i)) m h) (
                  Ends-if (b == 0xce) (gives-Ends 4 (λ i. int (pos i)) m h) (
                    Ends-if (b == 0xcf) (gives-Ends 8 uint m h) (
                      Ends-if (b == 0xd0) (gives-Ends 1 (λ i. int (signed 1 i)) m h) (
                        Ends-if (b == 0xd1) (gives-Ends 2 (λ i. int (signed 2 i)) m h) (
                          Ends-if (b == 0xd2) (gives-Ends 4 (λ i. int (signed 4 i)) m h) (
                            Ends-if (b == 0xd3) (gives-Ends 8 (λ i. int (signed 8 i)) m h) (
                              Ends-if (b == 0xda)
                                (with_int-Ends 2 unpack_raw m h (λ i m' h'. unpack_raw-Ends i m'))
                                (Ends-if (b == 0xdb)
                                  (with_int-Ends 4 unpack_raw m h (λ i m' h'. unpack_raw-Ends i m'))
                                  (Ends-if (b == 0xdc) (with_int-Ends 2 _ m h unpack_array-Ends) (
                                    Ends-if (b == 0xdd) (with_int-Ends 4 _ m h unpack_array-Ends) (
                                      Ends-if (b == 0xde)
                                        (with_int-Ends 2 _ m h
                                          (λ i m' h'. unpack_map-Ends cfg i no_fields m' h'))
                                        (with_int-Ends 4 _ m h (λ i m' h'.
                                          unpack_map-Ends cfg i no_fields m' h')))))))))))))))))))

  unpack_hook-Ends :
      (cfg : Config) (widen : Bytes → Bytes) (b : ℕ) (m : Msgpack)
      → length m.left ≤ k
      → Ends m (unpack_hook cfg widen rec b m)
  unfolding unpack_hook
  unpack_hook-Ends cfg widen b m h = Ends-if (leb b 0x7f) (Ends-value m _) (
      Ends-if (leb b 0x8f) (unpack_map-Ends cfg (b - 0x80) no_fields m h) (
        Ends-if (leb b 0x9f) (unpack_array-Ends (b - 0x90) m h) (
          Ends-if (leb b 0xbf) (unpack_raw-Ends (b - 0xa0) m)
            (Ends-if (leb 0xe0 b) (Ends-value m _) (unpack_code-Ends cfg widen b m h)))))

hook_on-Ends :
    (hook : ℕ → Msgpack → Result) (m : Msgpack) (s : Bytes)
    → m.left ≡ s
    → ((b : ℕ) (m' : Msgpack) → length m'.left < length s → Ends m' (hook b m'))
    → Ends m (hook_on hook m s)
hook_on-Ends hook m [] e later = Ends-value m none
hook_on-Ends hook m (b ∷ s) e later =
    let size : length m.left ≡ suc (length s) = ap length e in
    let m' = record m { left = s; len = m.len + 1 } in
    Ends-if (has_hook b)
      (Ends-later {n = m'} (record { less = omega arith; counted = omega arith; clean = refl })
        (later b m' (omega arith)))
      (record {
        value = none;
        next = record m { my_errno = einval };
        result = refl;
        less = omega arith;
        counted = refl;
        clean = inl refl;
      })

unpack-Ends :
    (fuel : ℕ) (cfg : Config) (widen : Bytes → Bytes) (m : Msgpack)
    → length m.left < fuel
    → Ends m (unpack fuel cfg widen m)
unfolding unpack
unpack-Ends zero cfg widen m h = absurd (omega arith)
unpack-Ends (suc fuel) cfg widen m h =
    hook_on-Ends (unpack_hook cfg widen (unpack fuel cfg widen)) m m.left refl (λ b m' h'.
      unpack_hook-Ends (length m'.left) (unpack fuel cfg widen)
        (λ n lt. unpack-Ends fuel cfg widen n (omega arith)) cfg widen b m' (omega arith))

-- On fuel for one byte more than the message has, `decode` returns. It counts no more bytes than the
-- message has, and a value never comes with an error.
pub decode-total :
    (fuel : ℕ) (cfg : Config) (widen : Bytes → Bytes) (s : Bytes)
    → length s < fuel
    → (x : Option Expr) × (e : Errno) × (n : ℕ) × (decode fuel cfg widen s ≡ some (x, e, n))
      × (n ≤ length s)
      × ((x ≡ none) ⊎ (e ≡ no_errno))
unfolding decode
decode-total fuel cfg widen s h =
    let all = unpack-Ends fuel cfg widen (msgpack_t s) h in
    (
      all.value,
      all.next.my_errno,
      all.next.len,
      rw all.result refl,
      omega (arith, all.counted),
      all.clean,
    )
