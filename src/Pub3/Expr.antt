-- ===== src/Pub3/Expr.antt =====
-- The values of libpub/pub3expr.h that MessagePack knows.
use okws.Prelude.{ℕ, suc, Bool, Bytes, Option, if◌then◌else◌}
use okws.Prelude.Int.{ℤ}
use okws.Pair.{str_eq}

-- `expr_null_t`, `expr_bool_t`, `expr_int_t`, `expr_uint_t`, `expr_double_t`, `expr_str_t` with its
-- `str`, that may be null, `expr_list_t` and `expr_dict_t`. A double is its 8 bytes, the lowest
-- address first. A dictionary that is encoded is the list of
-- its entries in the order of its iterator; one that is decoded has them in the order of insertion,
-- where the source has a hash table.
mutual
  pub data Expr : Type 0 where
    null : Expr
    bool : Bool → Expr
    int : ℤ → Expr
    uint : ℕ → Expr
    double : Bytes → Expr
    str : Option Bytes → Expr
    list : Items → Expr
    dict : Fields → Expr

  pub data Items : Type 0 where
    no_items : Items
    more_items : Expr → Items → Items

  pub data Fields : Type 0 where
    no_fields : Fields
    more_fields : Bytes → Expr → Fields → Fields

-- `size ()`
unfoldable pub size_items : Items → ℕ
size_items no_items = 0
size_items (more_items x xs) = suc (size_items xs)

unfoldable pub size_fields : Fields → ℕ
size_fields no_fields = 0
size_fields (more_fields k v fs) = suc (size_fields fs)

-- `insert` of a dictionary: the value of a key that is there is replaced.
unfoldable pub insert : Bytes → Expr → Fields → Fields
unfolding str_eq
insert k v no_fields = more_fields k v no_fields
insert k v (more_fields j w fs) =
    if str_eq j k then more_fields k v fs else more_fields j w (insert k v fs)
