-- ===== src/Pub3/Msgpack/Unpack.antt =====
-- `msgpack_t::unpack` and its hooks. The calls nest as deep as the values, and take fuel: the outer
-- `none` of a result is the lack of it, the inner one a null pointer.
use okws.Prelude.{
  ℕ, zero, suc, ◌+◌, ◌-◌, ◌*◌, ◌^◌, ◌/◌, Bool, true, false, ◌&&◌, ◌||◌, Bytes, [], ◌∷◌, length,
  codes, take, ltb, leb, ◌==◌, if◌then◌else◌, Option, none, some,
}
use mathlib.Core.List.{reverse}
use okws.Prelude.Int.{ℤ, pos, negsuc}
use okws.Suiolite.{drop}
use okws.Pub3.Expr.{
  Expr, null, bool, int, uint, double, str, list, dict, Items, no_items, more_items, Fields,
  no_fields, insert,
}
use okws.Pub3.Msgpack.{Config}

pub data Errno : Type 0 where
  no_errno eagain einval : Errno

-- `left` are the bytes from `_cp` to `_ep`; `len` is their offset.
pub record Msgpack : Type 0 where
  pub left : Bytes
  pub len : ℕ
  pub my_errno : Errno

abbrev pub msgpack_t : Bytes → Msgpack
msgpack_t m = record { left = m; len = 0; my_errno = no_errno }

-- `get_bytes`
unfoldable pub get_bytes : ℕ → Msgpack → Option Bytes × Msgpack
unfolding drop
get_bytes n m =
    if leb n (length m.left)
    then (some (take n m.left), record m { left = drop n m.left; len = m.len + n })
    else (none, record m { my_errno = eagain })

-- `big_endian`, into a type that holds as many bytes.
unfoldable pub big_endian : ℕ → Bytes → ℕ
big_endian out [] = out
big_endian out (b ∷ s) = big_endian (out * 256 + b) s

-- The same bits as a signed integer of `n` bytes.
unfoldable pub signed : ℕ → ℕ → ℤ
signed n i = if ltb i (256 ^ n / 2) then pos i else negsuc (256 ^ n - 1 - i)

abbrev pub Result : Type 0
Result = Option (Option Expr × Msgpack)

-- What a hook does behind `unpack_int` or `get_bytes`.
abbrev pub if_some : (Bytes → Msgpack → Result) → Option Bytes × Msgpack → Result
if_some f (none, m) = some (none, m)
if_some f (some s, m) = f s m

abbrev pub with_int : ℕ → (ℕ → Msgpack → Result) → Msgpack → Result
with_int n f m = if_some (λ s. f (big_endian 0 s)) (get_bytes n m)

abbrev pub gives : Expr → Msgpack → Result
gives x m = some (some x, m)

-- `to_str` of a key.
abbrev pub key_str : Config → Expr → Option Bytes
key_str cfg (int i) = some (cfg.lib.dec i)
key_str cfg (uint u) = some (cfg.lib.dec (pos u))
key_str cfg (str s) = s
key_str cfg null = some (codes "null")
key_str cfg (bool b) = some (if b then codes "true" else codes "false")
key_str cfg x = cfg.other_str x

-- `unpack_array`; the items that were read are of no use if one is missing.
abbrev pub before_items : Expr → Option (Option Items × Msgpack) → Option (Option Items × Msgpack)
before_items x none = none
before_items x (some (none, m)) = some (none, m)
before_items x (some (some xs, m)) = some (some (more_items x xs), m)

abbrev pub on_item :
    (Msgpack → Option (Option Items × Msgpack)) → Result → Option (Option Items × Msgpack)
on_item more none = none
on_item more (some (none, m)) = some (none, m)
on_item more (some (some x, m)) = before_items x (more m)

unfoldable pub unpack_items : (Msgpack → Result) → ℕ → Msgpack → Option (Option Items × Msgpack)
unpack_items unpack zero m = some (some no_items, m)
unpack_items unpack (suc n) m =
    let more = λ (m' : Msgpack). unpack_items unpack n m' in on_item more (unpack m)

abbrev pub as_list : Option (Option Items × Msgpack) → Result
as_list none = none
as_list (some (none, m)) = some (none, m)
as_list (some (some xs, m)) = gives (list xs) m

unfoldable pub unpack_array : (Msgpack → Result) → ℕ → Msgpack → Result
unfolding unpack_items
unpack_array unpack n m = as_list (unpack_items unpack n m)

-- `unpack_map`; behind a key whose text is null no value is read.
abbrev pub on_value : (Fields → Msgpack → Result) → Fields → Bytes → Result → Result
on_value more d ks none = none
on_value more d ks (some (none, m)) = some (none, m)
on_value more d ks (some (some v, m)) = more (insert ks v d) m

abbrev pub on_key :
    (Msgpack → Result) → (Fields → Msgpack → Result) → Fields → Msgpack → Option Bytes → Result
on_key unpack more d m none = more d m
on_key unpack more d m (some ks) = on_value more d ks (unpack m)

abbrev pub on_field :
    Config → (Msgpack → Result) → (Fields → Msgpack → Result) → Fields → Result → Result
on_field cfg unpack more d none = none
on_field cfg unpack more d (some (none, m)) = some (none, m)
on_field cfg unpack more d (some (some k, m)) = on_key unpack more d m (key_str cfg k)

unfoldable pub unpack_map : Config → (Msgpack → Result) → ℕ → Fields → Msgpack → Result
unfolding insert
unpack_map cfg unpack zero d m = gives (dict d) m
unpack_map cfg unpack (suc n) d m =
    let more = λ (d' : Fields) (m' : Msgpack). unpack_map cfg unpack n d' m' in
    on_field cfg unpack more d (unpack m)

-- `unpack_raw`
unfoldable pub unpack_raw : ℕ → Msgpack → Result
unfolding get_bytes
unpack_raw n m = if_some (λ s. gives (str (some s))) (get_bytes n m)

-- The single codes of the table, of which the last is 0xdf, behind the byte. `widen` makes a double of a float.
unfoldable pub unpack_code : Config → (Bytes → Bytes) → (Msgpack → Result) → ℕ → Msgpack → Result
unfolding get_bytes big_endian signed unpack_array unpack_map unpack_raw
unpack_code cfg widen unpack b m =
    if b == 0xc0
    then gives null m
    else if b == 0xc2
    then gives (bool false) m
    else if b == 0xc3
    then gives (bool true) m
    else if b == 0xca
    then if_some (λ s. gives (double (widen (reverse s)))) (get_bytes 4 m)
    else if b == 0xcb
    then if_some (λ s. gives (double (reverse s))) (get_bytes 8 m)
    else if b == 0xcc
    then with_int 1 (λ i. gives (int (pos i))) m
    else if b == 0xcd
    then with_int 2 (λ i. gives (int (pos i))) m
    else if b == 0xce
    then with_int 4 (λ i. gives (int (pos i))) m
    else if b == 0xcf
    then with_int 8 (λ i. gives (uint i)) m
    else if b == 0xd0
    then with_int 1 (λ i. gives (int (signed 1 i))) m
    else if b == 0xd1
    then with_int 2 (λ i. gives (int (signed 2 i))) m
    else if b == 0xd2
    then with_int 4 (λ i. gives (int (signed 4 i))) m
    else if b == 0xd3
    then with_int 8 (λ i. gives (int (signed 8 i))) m
    else if b == 0xda
    then with_int 2 unpack_raw m
    else if b == 0xdb
    then with_int 4 unpack_raw m
    else if b == 0xdc
    then with_int 2 (unpack_array unpack) m
    else if b == 0xdd
    then with_int 4 (unpack_array unpack) m
    else if b == 0xde
    then with_int 2 (λ n. unpack_map cfg unpack n no_fields) m
    else with_int 4 (λ n. unpack_map cfg unpack n no_fields) m

-- The ranges of the table. A bit that is set is taken off by `^`.
unfoldable pub unpack_hook : Config → (Bytes → Bytes) → (Msgpack → Result) → ℕ → Msgpack → Result
unfolding unpack_code
unpack_hook cfg widen unpack b m =
    if leb b 0x7f
    then gives (int (pos b)) m
    else if leb b 0x8f
    then unpack_map cfg unpack (b - 0x80) no_fields m
    else if leb b 0x9f
    then unpack_array unpack (b - 0x90) m
    else if leb b 0xbf
    then unpack_raw (b - 0xa0) m
    else if leb 0xe0 b
    then gives (int (signed 1 b)) m
    else unpack_code cfg widen unpack b m

-- The entries of the table that are not null.
abbrev pub has_hook : ℕ → Bool
has_hook b = leb b 0xc0 || (leb 0xc2 b && leb b 0xc3) || (leb 0xca b && leb b 0xd3) || leb 0xda b

-- A hook takes the byte; where there is none, the byte is left.
abbrev pub hook_on : (ℕ → Msgpack → Result) → Msgpack → Bytes → Result
hook_on hook m [] = some (none, m)
hook_on hook m (b ∷ s) =
    if has_hook b
    then hook b (record m { left = s; len = m.len + 1 })
    else some (none, record m { my_errno = einval })

unfoldable pub unpack : ℕ → Config → (Bytes → Bytes) → Msgpack → Result
unfolding unpack_hook
unpack zero cfg widen m = none
unpack (suc fuel) cfg widen m = hook_on (unpack_hook cfg widen (unpack fuel cfg widen)) m m.left

-- `decode`, with the error and the number of bytes read.
abbrev pub report : Result → Option (Option Expr × Errno × ℕ)
report none = none
report (some (x, m)) = some (x, m.my_errno, m.len)

unfoldable pub decode : ℕ → Config → (Bytes → Bytes) → Bytes → Option (Option Expr × Errno × ℕ)
unfolding unpack
decode fuel cfg widen s = report (unpack fuel cfg widen (msgpack_t s))
