-- ===== src/Pub3/Msgpack/Reads.antt =====
-- What `unpack` makes of the numbers that `to_msgpack` puts.
use okws.Prelude.{
  ℕ, zero, suc, ◌+◌, ◌^◌, ◌<◌, ◌≡◌, refl, sym, ap, ◌∙◌, arith, Bytes, List, [], ◌∷◌, ◌++◌, length,
  leb, ltb, some, if◌then◌else◌, false, Bool-cases, inl, inr, true, none,
}
use okws.Prelude.Int.{pos, negsuc}
use mathlib.Core.List.{reverse, reverse_aux, reverse-reverse}
use okws.Pub3.Expr.{Expr, int, uint, double}
use okws.Pub3.Msgpack.{Config}
use okws.Pub3.Msgpack.Outbuf.{Put, put_byte}
use okws.Pub3.Msgpack.Written.{emitted}
use okws.Pub3.Msgpack.Pack.{put_int, twos, put_bytes, encode_positive_int, encode_negative_int}
use okws.Pub3.Msgpack.Unpack.{
  Msgpack, Errno, Result, with_int, gives, unpack_code, unpack_hook, unpack, has_hook, einval,
  signed,
}
use okws.Pub3.Msgpack.Ints.{
  at, emitted-put_bytes, length-put_int, get_bytes-append, with_int-put_int, signed-twos,
}

length-reverse_aux : (s t : Bytes) → length (reverse_aux s t) ≡ length s + length t
length-reverse_aux [] t = omega arith
length-reverse_aux (c ∷ s) t = omega (arith, length-reverse_aux s (c ∷ t))

length-reverse : (s : Bytes) → length (reverse s) ≡ length s
length-reverse s = omega (arith, length-reverse_aux s [])

-- The value that a number without sign is read as.
abbrev pub number : ℕ → Expr
number u = if leb u 0xffffffff then int (pos u) else uint u

module _ (cfg : Config) (widen : Bytes → Bytes) where
  -- Where there is fuel enough, `x` is read from the bytes of the calls, and what follows is left.
  abbrev pub Reads : ℕ → List Put → Expr → Type 0
  Reads d ps x =
      (fuel l : ℕ) (e : Errno) (rest : Bytes)
      → d < fuel
      → unpack fuel cfg widen (at (emitted ps ++ rest) l e)
        ≡ some (some x, at rest (l + length (emitted ps)) e)

  abbrev pub hook : ℕ → ℕ → Msgpack → Result
  hook fuel = unpack_hook cfg widen (unpack fuel cfg widen)

  -- A code and the integer behind it.
  pub tagged :
      (fuel code n i l : ℕ) (e : Errno) (rest : Bytes) (f : ℕ → Msgpack → Result)
      → i < 256 ^ n
      → has_hook code ≡ true
      → ((m : Msgpack) → hook fuel code m ≡ with_int n f m)
      → unpack (suc fuel) cfg widen (at (emitted (put_byte code ∷ put_int n i) ++ rest) l e)
        ≡ f i (at rest (l + length (emitted (put_byte code ∷ put_int n i))) e)
  unfolding unpack emitted
  tagged fuel code n i l e rest f h known same =
      ap
        (λ x.
          if x
          then hook fuel code (at (emitted (put_int n i) ++ rest) (l + 1) e)
          else some (none, at (code ∷ emitted (put_int n i) ++ rest) l einval))
        known
      ∙ same (at (emitted (put_int n i) ++ rest) (l + 1) e)
      ∙ with_int-put_int n i (l + 1) e f rest h
      ∙ ap (λ k. f i (at rest k e)) (omega (arith, length-put_int n i))

  pub Reads-byte :
      (b : ℕ) (x : Expr)
      → has_hook b ≡ true
      → ((fuel : ℕ) (m : Msgpack) → hook fuel b m ≡ gives x m)
      → Reads 0 (put_byte b ∷ []) x
  unfolding unpack emitted
  Reads-byte b x known same zero l e rest h = absurd (omega arith)
  Reads-byte b x known same (suc fuel) l e rest h = rw known (same fuel (at rest (l + 1) e))

  Reads-tagged :
      (code n i : ℕ) (f : ℕ → Expr)
      → i < 256 ^ n
      → has_hook code ≡ true
      → ((fuel : ℕ) (m : Msgpack) → hook fuel code m ≡ with_int n (λ j. gives (f j)) m)
      → Reads 0 (put_byte code ∷ put_int n i) (f i)
  Reads-tagged code n i f h known same zero l e rest lt = absurd (omega arith)
  Reads-tagged code n i f h known same (suc fuel) l e rest lt =
      tagged fuel code n i l e rest (λ j. gives (f j)) h known (same fuel)

  Reads-as : {d : ℕ} {ps qs : List Put} {x y : Expr} → ps ≡ qs → x ≡ y → Reads d qs y → Reads d ps x
  Reads-as p q r fuel l e rest h = rw (p, q) (r fuel l e rest h)

  put_int-one : (u : ℕ) → u < 256 → put_byte u ∷ [] ≡ put_int 1 u
  unfolding put_int
  put_int-one u h = ap (λ v. put_byte v ∷ []) (omega arith)

  pub Reads-number :
      (u : ℕ) → cfg.js_mode ≡ false → u < 256 ^ 8 → Reads 0 (encode_positive_int cfg u) (number u)
  unfolding unpack_hook unpack_code encode_positive_int
  Reads-number u plain fits = elim (Bool-cases (leb u 0x7f)) [
    | inl t ↦
        Reads-as (ground (arith, t)) (ground (arith, t))
          (Reads-byte u (int (pos u)) (ground (arith, t)) (λ fuel m. ground (arith, t)))
    | inr f1 ↦ elim (Bool-cases (leb u 0xff)) [
      | inl t ↦
          Reads-as (rw (f1, t) (ap (λ x. put_byte 0xcc ∷ x) (put_int-one u (ground (arith, t)))))
            (ground (arith, t))
            (Reads-tagged 0xcc 1 u (λ i. int (pos i)) (ground (arith, t)) refl (λ fuel m. refl))
      | inr f2 ↦ elim (Bool-cases (leb u 0xffff)) [
        | inl t ↦
            Reads-as (rw (f1, f2, t) refl) (ground (arith, t))
              (Reads-tagged 0xcd 2 u (λ i. int (pos i)) (ground (arith, t)) refl (λ fuel m. refl))
        | inr f3 ↦ elim (Bool-cases (leb u 0xffffffff)) [
          | inl t ↦
              Reads-as (rw (f1, f2, f3, t) refl) (rw t refl)
                (Reads-tagged 0xce 4 u (λ i. int (pos i)) (ground (arith, t)) refl (λ fuel m. refl))
          | inr f4 ↦
              Reads-as (rw (f1, f2, f3, f4, plain) refl) (rw f4 refl)
                (Reads-tagged 0xcf 8 u uint fits refl (λ fuel m. refl))
        ]
      ]
    ]
  ]

  pub Reads-negative :
      (n : ℕ)
      → cfg.js_mode ≡ false
      → n < 2 ^ 63
      → Reads 0 (encode_negative_int cfg n) (int (negsuc n))
  unfolding unpack_hook unpack_code encode_negative_int
  Reads-negative n plain fits = elim (Bool-cases (ltb n 32)) [
    | inl t ↦ Reads-as (rw t refl) (sym (ap int (signed-twos 1 n (ground (arith, t))))) (
        Reads-byte (twos 1 n) (int (signed 1 (twos 1 n))) (ground (arith, t))
          (λ fuel m. ground (arith, t)))
    | inr f1 ↦ elim (Bool-cases (ltb n 128)) [
      | inl t ↦
          Reads-as (rw (f1, t) (ap (λ x. put_byte 0xd0 ∷ x) (put_int-one (twos 1 n) (omega arith))))
            (sym (ap int (signed-twos 1 n (ground (arith, t)))))
            (Reads-tagged 0xd0 1 (twos 1 n) (λ i. int (signed 1 i)) (omega arith) refl
              (λ fuel m. refl))
      | inr f2 ↦ elim (Bool-cases (ltb n 32768)) [
        | inl t ↦
            Reads-as (rw (f1, f2, t) refl) (sym (ap int (signed-twos 2 n (ground (arith, t))))) (
              Reads-tagged 0xd1 2 (twos 2 n) (λ i. int (signed 2 i)) (omega arith) refl
                (λ fuel m. refl))
        | inr f3 ↦ elim (Bool-cases (ltb n 2147483648)) [
          | inl t ↦
              Reads-as (rw (f1, f2, f3, t) refl)
                (sym (ap int (signed-twos 4 n (ground (arith, t)))))
                (Reads-tagged 0xd2 4 (twos 4 n) (λ i. int (signed 4 i)) (omega arith) refl
                  (λ fuel m. refl))
          | inr f4 ↦
              Reads-as (rw (f1, f2, f3, f4, plain) refl)
                (sym (ap int (signed-twos 8 n (omega arith))))
                (Reads-tagged 0xd3 8 (twos 8 n) (λ i. int (signed 8 i)) (omega arith) refl
                  (λ fuel m. refl))
        ]
      ]
    ]
  ]

  pub Reads-double :
      (d : Bytes) → length d ≡ 8 → Reads 0 (put_byte 0xcb ∷ put_bytes (reverse d)) (double d)
  unfolding unpack unpack_hook unpack_code emitted
  Reads-double d h zero l e rest lt = absurd (omega arith)
  Reads-double d h (suc fuel) l e rest lt =
      let size : length (reverse d) ≡ 8 = length-reverse d ∙ h in
      let read = get_bytes-append 8 (l + 1) e (reverse d) rest size in
      rw (emitted-put_bytes (reverse d), read, reverse-reverse d, size)
        (ap (λ k. gives (double d) (at rest k e)) (omega arith))
