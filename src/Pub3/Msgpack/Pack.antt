-- ===== src/Pub3/Msgpack/Pack.antt =====
-- `to_msgpack`: the calls on the buffer that a value makes.
use okws.Prelude.{
  ℕ, zero, suc, ◌+◌, ◌-◌, ◌/◌, ◌%◌, ◌^◌, Bool, true, false, Bytes, List, [], ◌∷◌, ◌++◌, length, ltb,
  leb, if◌then◌else◌, Option, none, some,
}
use mathlib.Core.List.{reverse}
use okws.Prelude.Int.{ℤ, pos, negsuc}
use okws.Pub3.Expr.{
  Expr, null, bool, int, uint, double, str, list, dict, Items, no_items, more_items, Fields,
  no_fields, more_fields, size_items, size_fields,
}
use okws.Scalar.{convertuint, my_convertint}
use okws.Pub3.Msgpack.{Config}
use okws.Pub3.Msgpack.Outbuf.{Put, put_byte, put_str, Outbuf, outbuf_t, puts, to_str}

-- `put_int` of an integer of `n` bytes, the highest byte first.
unfoldable pub put_int : ℕ → ℕ → List Put
put_int zero i = []
put_int (suc n) i = put_byte (i / 256 ^ n % 256) ∷ put_int n i

unfoldable pub put_bytes : Bytes → List Put
put_bytes [] = []
put_bytes (c ∷ cs) = put_byte c ∷ put_bytes cs

-- The two's complement of -(n + 1) in `n` bytes.
abbrev pub twos : ℕ → ℕ → ℕ
twos bytes n = 256 ^ bytes - 1 - n

-- `encode_len` and `encode_raw_len`: up to 15 or 31 the length stands in the first byte.
unfoldable pub encode_len_to : ℕ → ℕ → ℕ → ℕ → ℕ → List Put
unfolding put_int
encode_len_to most len b s l =
    if leb len most
    then put_byte (b + len) ∷ []
    else if leb len 0xffff
    then put_byte s ∷ put_int 2 len
    else put_byte l ∷ put_int 4 (len % 256 ^ 4)

unfoldable pub encode_len : ℕ → ℕ → ℕ → ℕ → List Put
unfolding encode_len_to
encode_len = encode_len_to 0xf

unfoldable pub encode_raw_len : ℕ → ℕ → ℕ → ℕ → List Put
unfolding encode_len_to
encode_raw_len = encode_len_to 0x1f

unfoldable pub encode_str : Bytes → List Put
unfolding encode_raw_len
encode_str s = encode_raw_len (length s) 0xa0 0xda 0xdb ++ (put_str s ∷ [])

-- `encode_negative_int` of -(n + 1).
unfoldable pub encode_negative_int : Config → ℕ → List Put
unfolding put_int encode_str
encode_negative_int cfg n =
    if ltb n 32
    then put_byte (twos 1 n) ∷ []
    else if ltb n 128
    then put_byte 0xd0 ∷ put_byte (twos 1 n) ∷ []
    else if ltb n 32768
    then put_byte 0xd1 ∷ put_int 2 (twos 2 n)
    else if ltb n 2147483648
    then put_byte 0xd2 ∷ put_int 4 (twos 4 n)
    else put_byte 0xd3
      ∷ (if cfg.js_mode then encode_str (cfg.lib.dec (negsuc n)) else put_int 8 (twos 8 n))

unfoldable pub encode_positive_int : Config → ℕ → List Put
unfolding put_int encode_str
encode_positive_int cfg i =
    if leb i 0x7f
    then put_byte i ∷ []
    else if leb i 0xff
    then put_byte 0xcc ∷ put_byte i ∷ []
    else if leb i 0xffff
    then put_byte 0xcd ∷ put_int 2 i
    else if leb i 0xffffffff
    then put_byte 0xce ∷ put_int 4 i
    else if cfg.js_mode
    then encode_str (cfg.lib.dec (pos i))
    else put_byte 0xcf ∷ put_int 8 i

-- A key that reads as a number is written as one. `none` is the assertion that it is negative.
abbrev pub signed_key : Config → Bytes → Option ℤ → Option (List Put)
signed_key cfg k none = some (encode_str k)
signed_key cfg k (some (pos n)) = none
signed_key cfg k (some (negsuc n)) = some (encode_negative_int cfg n)

abbrev pub unsigned_key : Config → Bytes → Option ℕ → Option (List Put)
unsigned_key cfg k none = signed_key cfg k (my_convertint cfg.lib k)
unsigned_key cfg k (some u) = some (encode_positive_int cfg u)

unfoldable pub encode_key : Config → Bytes → Option (List Put)
unfolding encode_str encode_negative_int encode_positive_int convertuint my_convertint
encode_key cfg k = unsigned_key cfg k (convertuint cfg.lib k)

infixr 60 ◌then_put◌
abbrev pub ◌then_put◌ : Option (List Put) → Option (List Put) → Option (List Put)
none then_put q = none
some p then_put none = none
some p then_put some q = some (p ++ q)

abbrev pub to_int : Config → ℤ → List Put
to_int cfg (pos n) = encode_positive_int cfg n
to_int cfg (negsuc n) = encode_negative_int cfg n

-- `to_msgpack`, of which the containers do not look at the result: a null string puts nothing.
unfoldable mutual
  unfolding encode_str encode_negative_int encode_positive_int encode_key put_bytes size_items
      size_fields encode_len

  pub to_msgpack : Config → Expr → Option (List Put)
  to_msgpack cfg null = some (put_byte 0xc0 ∷ [])
  to_msgpack cfg (bool b) = some (put_byte (if b then 0xc3 else 0xc2) ∷ [])
  to_msgpack cfg (int i) = some (to_int cfg i)
  to_msgpack cfg (uint u) = some (encode_positive_int cfg u)
  to_msgpack cfg (double d) = some (put_byte 0xcb ∷ put_bytes (reverse d))
  to_msgpack cfg (str none) = some []
  to_msgpack cfg (str (some s)) = some (encode_str s)
  to_msgpack cfg (list xs) =
      some (encode_len (size_items xs) 0x90 0xdc 0xdd) then_put items_to_msgpack cfg xs
  to_msgpack cfg (dict fs) =
      some (encode_len (size_fields fs) 0x80 0xde 0xdf) then_put fields_to_msgpack cfg fs

  pub items_to_msgpack : Config → Items → Option (List Put)
  items_to_msgpack cfg no_items = some []
  items_to_msgpack cfg (more_items x xs) = to_msgpack cfg x then_put items_to_msgpack cfg xs

  pub fields_to_msgpack : Config → Fields → Option (List Put)
  fields_to_msgpack cfg no_fields = some []
  fields_to_msgpack cfg (more_fields k v fs) =
      encode_key cfg k then_put to_msgpack cfg v then_put fields_to_msgpack cfg fs

abbrev pub is_null_str : Expr → Bool
is_null_str (str none) = true
is_null_str x = false

-- `encode`: a null string gives a null string. The outer `none` is a failed assertion.
abbrev pub text_of : Expr → Option Outbuf → Option (Option Bytes)
text_of x none = none
text_of x (some o) = some (if is_null_str x then none else some (to_str o))

abbrev pub encoded : Expr → Option (List Put) → Option (Option Bytes)
encoded x none = none
encoded x (some ps) = text_of x (puts ps outbuf_t)

unfoldable pub encode : Config → Expr → Option (Option Bytes)
unfolding puts to_str to_msgpack
encode cfg x = encoded x (to_msgpack cfg x)
