-- ===== src/Pub3/Msgpack/Tests.antt =====
-- Runs of the encoder and the decoder, with a C library that knows the keys of the tests.
use okws.Prelude.{
  ℕ, Bytes, Bool, true, false, List, [], ◌∷◌, ◌++◌, Option, none, some, ◌≡◌, refl, arith, codes,
  length, ◌≤◌, ◌⊎◌, if◌then◌else◌,
}
use Prim.{tt}
use okws.Prelude.Int.{ℤ, pos, negsuc}
use okws.Pair.{str_eq}
use okws.Pub3.Expr.{
  Expr, null, bool, int, uint, str, list, dict, no_items, more_items, no_fields, more_fields,
}
use okws.Pub3.Msgpack.{Config}
use okws.Scalar.Samples.{lib}
use okws.Pub3.Msgpack.Outbuf.{Put, put_byte, put_str, Outbuf, outbuf_t, puts, to_str}
use okws.Pub3.Msgpack.Written.{emitted, to_str-puts}
use okws.Pub3.Msgpack.Values.{decoded, Fits, nesting}
use okws.Pub3.Msgpack.Pack.{encode}
use okws.Pub3.Msgpack.Unpack.{decode, Errno, no_errno, eagain}
use okws.Pub3.Msgpack.RoundTrip.{decode-encode}
use okws.Pub3.Msgpack.Total.{decode-total}

abbrev dec : ℤ → Bytes
dec (pos n) = codes "8"
dec (negsuc n) = codes "-7"

abbrev plain : Bool → Config
plain js = record {
  js_mode = js;
  lib = record lib {
    dec = dec;
    strtoull = λ s. if str_eq s (codes "010") then some 8 else none;
    strtoll = λ s.
        if str_eq s (codes "-07")
        then some (negsuc 6)
        else if str_eq s (codes "-0")
        then some (pos 0)
        else none;
  };
  other_str = λ x. none;
}

abbrev same_bytes : Bytes → Bytes
same_bytes s = s

abbrev sample : Expr
sample = list (
    more_items
      (dict (
        more_fields (codes "010") (int (negsuc 40))
          (more_fields (codes "name") (str (some (codes "ok"))) no_fields)))
      (more_items (uint 5_000_000_000)
        (more_items (bool true) (more_items null (more_items (int (pos 300)) no_items)))))

sample_encoded :
    encode (plain false) sample
    ≡ some (
        some (
          0x95 ∷ 0x82 ∷ 8 ∷ 0xd0 ∷ 0xd7 ∷ 0xa4 ∷ 110 ∷ 97 ∷ 109 ∷ 101 ∷ 0xa2 ∷ 111 ∷ 107 ∷ 0xcf ∷ 0
          ∷ 0 ∷ 0 ∷ 1 ∷ 42 ∷ 5 ∷ 242 ∷ 0 ∷ 0xc3 ∷ 0xc0 ∷ 0xcd ∷ 1 ∷ 44 ∷ []))
unfolding encode str_eq
sample_encoded = refl

-- In js mode the code of a 64-bit integer stands before the text of a negative one.
js_negative :
    encode (plain true) (int (negsuc 3_000_000_000)) ≡ some (some (0xd3 ∷ 0xa2 ∷ 45 ∷ 55 ∷ []))
unfolding encode str_eq
js_negative = refl

-- A key that is cut off behind its length is an error, a list that ends before its item is not.
cut_off : decode 9 (plain false) same_bytes (0xa4 ∷ 110 ∷ []) ≡ some (none, eagain, 1)
unfolding decode str_eq
cut_off = refl

cut_off_between : decode 9 (plain false) same_bytes (0x92 ∷ 1 ∷ []) ≡ some (none, no_errno, 2)
unfolding decode str_eq
cut_off_between = refl

sample-Fits : Fits (plain false) sample
unfolding Fits str_eq
sample-Fits = (
  omega arith,
  (
    (omega arith, (omega arith, omega arith, (omega arith, omega arith, tt))),
    (omega arith, (tt, (tt, (omega arith, tt)))),
  ),
)

decode-encode_example :
    (s : Bytes) × (encode (plain false) sample ≡ some (some s))
    × (decode 3 (plain false) same_bytes (s ++ (7 ∷ []))
        ≡ some (some (decoded (plain false) sample), no_errno, length s))
unfolding Fits nesting str_eq
decode-encode_example =
    decode-encode (plain false) same_bytes sample (7 ∷ []) 3 refl sample-Fits (omega arith)

decode-total_example :
    (x : Option Expr) × (e : Errno) × (n : ℕ) × (decode 3 (plain false) same_bytes (0x92 ∷ 1 ∷ [])
      ≡ some (x, e, n))
    × (n ≤ 2)
    × ((x ≡ none) ⊎ (e ≡ no_errno))
decode-total_example = decode-total 3 (plain false) same_bytes (0x92 ∷ 1 ∷ []) (omega arith)

abbrev some_puts : List Put
some_puts = put_byte 1 ∷ put_str (codes "abc") ∷ put_byte 2 ∷ []

to_str-puts_example :
    (o : Outbuf) × (puts some_puts outbuf_t ≡ some o) × (to_str o ≡ emitted some_puts)
to_str-puts_example = to_str-puts some_puts
