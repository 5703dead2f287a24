-- ===== src/Pub3/Msgpack/Ints.antt =====
-- Integers in `n` bytes, the highest first: `put_int`, `get_bytes` and `big_endian`.
use okws.Prelude.{
  ℕ, zero, suc, ◌+◌, ◌*◌, ◌/◌, ◌%◌, ◌^◌, ◌<◌, ◌≤◌, ◌≡◌, refl, sym, ap, ◌∙◌, arith, Bytes, List, [],
  ◌∷◌, ◌++◌, length, length-append, take, leb, ltb, ◌-◌, some, true, false,
}
use okws.Prelude.Int.{pos, negsuc}
use mathlib.Core.List.{append_assoc}
use native.Mathlib.Nat.{
  div-add-mod, add-mul-mod_self_right, mod-eq_of_lt, mod-lt, one-le-pow, pow-suc, mul-le-mul_right,
}
use okws.Suiolite.Ring.{drop-append}
use okws.Pub3.Msgpack.Outbuf.{Put}
use okws.Pub3.Msgpack.Written.{emitted, bytes_of}
use okws.Pub3.Msgpack.Pack.{put_int, twos, put_bytes}
use okws.Pub3.Msgpack.Unpack.{
  Msgpack, Errno, get_bytes, big_endian, signed, Result, with_int, if_some,
}

pub emitted-append : (ps qs : List Put) → emitted (ps ++ qs) ≡ emitted ps ++ emitted qs
unfolding emitted
emitted-append [] qs = refl
emitted-append (p ∷ ps) qs =
    ap (λ x. bytes_of p ++ x) (emitted-append ps qs)
    ∙ sym (append_assoc (bytes_of p) (emitted ps) (emitted qs))

pub emitted-put_bytes : (s : Bytes) → emitted (put_bytes s) ≡ s
unfolding emitted put_bytes
emitted-put_bytes [] = refl
emitted-put_bytes (c ∷ s) = ap (λ x. c ∷ x) (emitted-put_bytes s)

pub length-put_int : (n i : ℕ) → length (emitted (put_int n i)) ≡ n
unfolding emitted put_int
length-put_int zero i = refl
length-put_int (suc n) i = ap suc (length-put_int n i)

-- The remainder of `i` has the remainder by `p` and the digit above it.
remainder_digit : (i p : ℕ) → 0 < p → i % (256 * p) ≡ i / p % 256 * p + i % p
remainder_digit i p h =
    let d = i / p % 256 in
    let r = i % p in
    let q = i / p / 256 in
    let whole : i ≡ (d * p + r) + q * (256 * p) =
      omega (arith, div-add-mod i p, ap (λ (t : ℕ). p * t) (div-add-mod (i / p) 256)) in
    let low : r < p = mod-lt i h in
    let digit : d < 256 = mod-lt (i / p) (omega arith) in
    let below : d * p ≤ 255 * p = mul-le-mul_right p (omega arith) in
    ap (λ t. t % (256 * p)) whole
    ∙ add-mul-mod_self_right (d * p + r) q (256 * p)
    ∙ mod-eq_of_lt (omega arith)

big_endian-put_int :
    (n acc i : ℕ) → big_endian acc (emitted (put_int n i)) ≡ acc * 256 ^ n + i % 256 ^ n
unfolding big_endian put_int emitted
big_endian-put_int zero acc i = omega arith
big_endian-put_int (suc n) acc i =
    big_endian-put_int n (acc * 256 + i / 256 ^ n % 256) i
    ∙ (let low = remainder_digit i (256 ^ n) (one-le-pow n 256 (omega arith)) in
        let power : 256 ^ suc n ≡ 256 * 256 ^ n = pow-suc 256 n ∙ omega arith in
        rw (power, low) (omega arith))

take-append : (s rest : Bytes) → take (length s) (s ++ rest) ≡ s
take-append [] [] = refl
take-append [] (x ∷ rest) = refl
take-append (c ∷ s) rest = ap (λ x. c ∷ x) (take-append s rest)

-- A message of which the bytes `s` are left.
abbrev pub at : Bytes → ℕ → Errno → Msgpack
at s l e = record { left = s; len = l; my_errno = e }

pub get_bytes-append :
    (n l : ℕ) (e : Errno) (s rest : Bytes)
    → length s ≡ n
    → get_bytes n (at (s ++ rest) l e) ≡ (some s, at rest (l + n) e)
unfolding get_bytes
get_bytes-append n l e s rest size =
    let enough : leb n (length (s ++ rest)) ≡ true = ground (arith, length-append s rest, size) in
    rw (enough, drop-append s rest n size, sym size, take-append s rest) refl

pub with_int-put_int :
    (n i l : ℕ) (e : Errno) (f : ℕ → Msgpack → Result) (rest : Bytes)
    → i < 256 ^ n
    → with_int n f (at (emitted (put_int n i) ++ rest) l e) ≡ f i (at rest (l + n) e)
with_int-put_int n i l e f rest h =
    let bytes = emitted (put_int n i) in
    let read = get_bytes-append n l e bytes rest (length-put_int n i) in
    let value : big_endian 0 bytes ≡ i = big_endian-put_int n 0 i ∙ omega (arith, mod-eq_of_lt h) in
    ap (if_some (λ s. f (big_endian 0 s))) read ∙ ap (λ j. f j (at rest (l + n) e)) value

pub signed-twos : (k n : ℕ) → n < 256 ^ k / 2 → signed k (twos k n) ≡ negsuc n
unfolding signed
signed-twos k n h =
    let high : ltb (twos k n) (256 ^ k / 2) ≡ false = ground arith in
    let back : 256 ^ k - 1 - twos k n ≡ n = omega arith in rw (high, back) refl

pub signed_small : (k n : ℕ) → n < 256 ^ k / 2 → signed k n ≡ pos n
unfolding signed
signed_small k n h = ground (arith, h)
