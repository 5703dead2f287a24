-- ===== src/Pub3/Msgpack/Values.antt =====
-- What comes back of a value that `to_msgpack` writes, and which values it can write.
use okws.Prelude.{ℕ, suc, ◌^◌, ◌<◌, ◌≡◌, Bytes, length, Option, some, none}
use Prim.Native.Nat.{max}
use okws.Prelude.Int.{ℤ, pos, negsuc}
use okws.Pub3.Expr.{
  Expr, null, bool, int, uint, double, str, list, dict, Items, no_items, more_items, Fields,
  no_fields, more_fields, size_items, size_fields, insert,
}
use okws.Scalar.{convertuint, my_convertint}
use okws.Pub3.Msgpack.{Config}
use okws.Pub3.Msgpack.Reads.{number}

-- How deep the containers of a value are nested.
unfoldable mutual
  pub nesting : Expr → ℕ
  nesting (list xs) = suc (nesting_items xs)
  nesting (dict fs) = suc (nesting_fields fs)
  nesting x = 0

  pub nesting_items : Items → ℕ
  nesting_items no_items = 0
  nesting_items (more_items x xs) = max (nesting x) (nesting_items xs)

  pub nesting_fields : Fields → ℕ
  nesting_fields no_fields = 0
  nesting_fields (more_fields k v fs) = max (nesting v) (nesting_fields fs)

-- The text of a key that comes back: a number is printed anew.
abbrev pub signed_text : Config → Bytes → Option ℤ → Bytes
signed_text cfg k none = k
signed_text cfg k (some i) = cfg.lib.dec i

abbrev pub unsigned_text : Config → Bytes → Option ℕ → Bytes
unsigned_text cfg k none = signed_text cfg k (my_convertint cfg.lib k)
unsigned_text cfg k (some u) = cfg.lib.dec (pos u)

unfoldable pub decoded_key : Config → Bytes → Bytes
unfolding convertuint my_convertint
decoded_key cfg k = unsigned_text cfg k (convertuint cfg.lib k)

abbrev pub decoded_int : ℤ → Expr
decoded_int (pos n) = number n
decoded_int (negsuc n) = int (negsuc n)

-- The value that comes back: numbers are signed up to 32 bits, and unsigned above.
unfoldable mutual
  unfolding decoded_key insert

  pub decoded : Config → Expr → Expr
  decoded cfg (int i) = decoded_int i
  decoded cfg (uint u) = number u
  decoded cfg (list xs) = list (decoded_items cfg xs)
  decoded cfg (dict fs) = dict (decoded_fields cfg fs no_fields)
  decoded cfg x = x

  pub decoded_items : Config → Items → Items
  decoded_items cfg no_items = no_items
  decoded_items cfg (more_items x xs) = more_items (decoded cfg x) (decoded_items cfg xs)

  pub decoded_fields : Config → Fields → Fields → Fields
  decoded_fields cfg no_fields d = d
  decoded_fields cfg (more_fields k v fs) d =
      decoded_fields cfg fs (insert (decoded_key cfg k) (decoded cfg v) d)

-- A key reads as an integer in range, or is short enough for a string.
abbrev pub SignedFits : Bytes → Option ℤ → Type 0
SignedFits k none = length k < 256 ^ 4
SignedFits k (some (pos n)) = ⊥
SignedFits k (some (negsuc n)) = n < 2 ^ 63

abbrev pub UnsignedFits : Config → Bytes → Option ℕ → Type 0
UnsignedFits cfg k none = SignedFits k (my_convertint cfg.lib k)
UnsignedFits cfg k (some u) = u < 256 ^ 8

unfoldable pub KeyFits : Config → Bytes → Type 0
unfolding convertuint my_convertint
KeyFits cfg k = UnsignedFits cfg k (convertuint cfg.lib k)

abbrev pub IntFits : ℤ → Type 0
IntFits (pos n) = n < 2 ^ 63
IntFits (negsuc n) = n < 2 ^ 63

-- The values of the types, with fewer than 2^32 bytes or items, and no string null.
unfoldable mutual
  unfolding KeyFits size_items size_fields

  pub Fits : Config → Expr → Type 0
  Fits cfg null = Unit
  Fits cfg (bool b) = Unit
  Fits cfg (int i) = IntFits i
  Fits cfg (uint u) = u < 256 ^ 8
  Fits cfg (double d) = length d ≡ 8
  Fits cfg (str none) = ⊥
  Fits cfg (str (some s)) = length s < 256 ^ 4
  Fits cfg (list xs) = (size_items xs < 256 ^ 4) × FitsItems cfg xs
  Fits cfg (dict fs) = (size_fields fs < 256 ^ 4) × FitsFields cfg fs

  pub FitsItems : Config → Items → Type 0
  FitsItems cfg no_items = Unit
  FitsItems cfg (more_items x xs) = Fits cfg x × FitsItems cfg xs

  pub FitsFields : Config → Fields → Type 0
  FitsFields cfg no_fields = Unit
  FitsFields cfg (more_fields k v fs) = KeyFits cfg k × Fits cfg v × FitsFields cfg fs
