-- ===== src/Pub3/Msgpack/Lengths.antt =====
-- What `unpack` makes of the lengths that stand before strings, lists and dictionaries.
use okws.Prelude.{
  ℕ, zero, suc, ◌+◌, ◌-◌, ◌^◌, ◌<◌, ◌≤◌, ◌≡◌, refl, ap, ◌∙◌, arith, Bytes, [], ◌∷◌, ◌++◌, length,
  length-append, leb, some, true, false, Bool-cases, inl, inr, leb→le,
}
use mathlib.Core.List.{append_assoc, append-nil}
use native.Mathlib.Nat.{mod-eq_of_lt}
use okws.Pub3.Expr.{str, no_fields}
use okws.Pub3.Msgpack.{Config}
use okws.Pub3.Msgpack.Outbuf.{put_str}
use okws.Pub3.Msgpack.Written.{emitted}
use okws.Pub3.Msgpack.Pack.{encode_len_to, encode_len, encode_raw_len, encode_str}
use okws.Pub3.Msgpack.Unpack.{
  Msgpack, Errno, Result, with_int, gives, unpack_raw, unpack_array, unpack_map, unpack_code,
  unpack_hook, unpack, has_hook,
}
use okws.Pub3.Msgpack.Ints.{at, emitted-append, get_bytes-append}
use okws.Pub3.Msgpack.Reads.{Reads, hook, tagged}

module _ (cfg : Config) (widen : Bytes → Bytes) where
  -- How the three codes of a length `b`, `s` and `l` are read: the rest is up to `f`.
  record IsHeader (fuel most b s l : ℕ) (f : ℕ → Msgpack → Result) : Type 0 where
    known : (n : ℕ) → n ≤ most → has_hook (b + n) ≡ true
    known_short : has_hook s ≡ true
    known_long : has_hook l ≡ true
    first : (n : ℕ) (m : Msgpack) → n ≤ most → hook cfg widen fuel (b + n) m ≡ f n m
    short : (m : Msgpack) → hook cfg widen fuel s m ≡ with_int 2 f m
    long : (m : Msgpack) → hook cfg widen fuel l m ≡ with_int 4 f m

  header :
      {most b s l : ℕ} {f : ℕ → Msgpack → Result} (fuel n k : ℕ) (e : Errno) (rest : Bytes)
      → IsHeader fuel most b s l f
      → n < 256 ^ 4
      → unpack (suc fuel) cfg widen (at (emitted (encode_len_to most n b s l) ++ rest) k e)
        ≡ f n (at rest (k + length (emitted (encode_len_to most n b s l))) e)
  unfolding unpack emitted encode_len_to
  header {most} {b} {s} {l} {f} fuel n k e rest h lt = elim (Bool-cases (leb n most)) [
    | inl t ↦ rw (t, h.known n (leb→le n most t)) (h.first n (at rest (k + 1) e) (leb→le n most t))
    | inr f1 ↦ elim (Bool-cases (leb n 0xffff)) [
      | inl t ↦
          rw (f1, t)
            (tagged cfg widen fuel s 2 n k e rest f (ground (arith, t)) h.known_short h.short)
      | inr f2 ↦
          rw (f1, f2, mod-eq_of_lt lt)
            (tagged cfg widen fuel l 4 n k e rest f lt h.known_long h.long)
    ]
  ]

  raw-IsHeader : (fuel : ℕ) → IsHeader fuel 0x1f 0xa0 0xda 0xdb unpack_raw
  unfolding unpack_hook unpack_code
  raw-IsHeader fuel = record {
    known = λ n h. ground (arith, h);
    known_short = refl;
    known_long = refl;
    first = λ n m h.
        let t0 : leb (0xa0 + n) 0x7f ≡ false = ground (arith, h) in
        let t1 : leb (0xa0 + n) 0x8f ≡ false = ground (arith, h) in
        let t2 : leb (0xa0 + n) 0x9f ≡ false = ground (arith, h) in
        let t3 : leb (0xa0 + n) 0xbf ≡ true = ground (arith, h) in
        let left : 0xa0 + n - 0xa0 ≡ n = omega arith in rw (t0, t1, t2, t3, left) refl;
    short = λ m. refl;
    long = λ m. refl;
  }

  array-IsHeader :
      (fuel : ℕ) → IsHeader fuel 0xf 0x90 0xdc 0xdd (unpack_array (unpack fuel cfg widen))
  unfolding unpack_hook unpack_code
  array-IsHeader fuel = record {
    known = λ n h. ground (arith, h);
    known_short = refl;
    known_long = refl;
    first = λ n m h.
        let t0 : leb (0x90 + n) 0x7f ≡ false = ground (arith, h) in
        let t1 : leb (0x90 + n) 0x8f ≡ false = ground (arith, h) in
        let t2 : leb (0x90 + n) 0x9f ≡ true = ground (arith, h) in
        let left : 0x90 + n - 0x90 ≡ n = omega arith in rw (t0, t1, t2, left) refl;
    short = λ m. refl;
    long = λ m. refl;
  }

  map-IsHeader :
      (fuel : ℕ)
      → IsHeader fuel 0xf 0x80 0xde 0xdf (λ n. unpack_map cfg (unpack fuel cfg widen) n no_fields)
  unfolding unpack_hook unpack_code
  map-IsHeader fuel = record {
    known = λ n h. ground (arith, h);
    known_short = refl;
    known_long = refl;
    first = λ n m h.
        let t0 : leb (0x80 + n) 0x7f ≡ false = ground (arith, h) in
        let t1 : leb (0x80 + n) 0x8f ≡ true = ground (arith, h) in
        let left : 0x80 + n - 0x80 ≡ n = omega arith in rw (t0, t1, left) refl;
    short = λ m. refl;
    long = λ m. refl;
  }

  pub Reads-str : (s : Bytes) → length s < 256 ^ 4 → Reads cfg widen 0 (encode_str s) (str (some s))
  unfolding encode_str encode_raw_len unpack_raw emitted
  Reads-str s h zero l e rest lt = absurd (omega arith)
  Reads-str s h (suc fuel) l e rest lt =
      let len = encode_len_to 0x1f (length s) 0xa0 0xda 0xdb in
      let bytes : emitted (len ++ (put_str s ∷ [])) ≡ emitted len ++ s =
        emitted-append len (put_str s ∷ []) ∙ ap (λ x. emitted len ++ x) (append-nil s) in
      let l1 = l + length (emitted len) in
      let text = get_bytes-append (length s) l1 e s rest refl in
      rw
        (
          bytes,
          append_assoc (emitted len) s rest,
          header fuel (length s) l e (s ++ rest) (raw-IsHeader fuel) h,
          text,
        )
        (ap (λ k. gives (str (some s)) (at rest k e))
          (omega (arith, length-append (emitted len) s)))

  pub Reads-list :
      (n k fuel : ℕ) (e : Errno) (rest : Bytes)
      → n < 256 ^ 4
      → unpack (suc fuel) cfg widen (at (emitted (encode_len n 0x90 0xdc 0xdd) ++ rest) k e)
        ≡ unpack_array
            (unpack fuel cfg widen)
            n
            (at rest (k + length (emitted (encode_len n 0x90 0xdc 0xdd))) e)
  unfolding encode_len
  Reads-list n k fuel e rest h = header fuel n k e rest (array-IsHeader fuel) h

  pub Reads-dict :
      (n k fuel : ℕ) (e : Errno) (rest : Bytes)
      → n < 256 ^ 4
      → unpack (suc fuel) cfg widen (at (emitted (encode_len n 0x80 0xde 0xdf) ++ rest) k e)
        ≡ unpack_map cfg
            (unpack fuel cfg widen)
            n
            no_fields
            (at rest (k + length (emitted (encode_len n 0x80 0xde 0xdf))) e)
  unfolding encode_len
  Reads-dict n k fuel e rest h = header fuel n k e rest (map-IsHeader fuel) h
