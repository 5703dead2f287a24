-- ===== src/Pair.antt =====
-- libahttp/pair.h: a table of keys with the values that were given for each, as CGI variables and
-- HTTP headers are kept. The hash table and the list over the pairs are one list here, in the order
-- of insertion; the cached conversions of the values to integers are not modelled.
pub mod Laws
mod Tests
use okws.Prelude.{
  ℕ, Bool, true, false, ◌&&◌, Bytes, List, [], ◌∷◌, ◌++◌, ◌==◌, if◌then◌else◌, Option, none, some,
}

-- `pair_t`.
pub record Pair : Type 0 where
  pub key : Bytes
  pub vals : List Bytes
  pub encflag : Bool

abbrev pub Pairtab : Type 0
Pairtab = List Pair

-- Equality of strings.
unfoldable pub str_eq : Bytes → Bytes → Bool
str_eq [] [] = true
str_eq (a ∷ as') (b ∷ bs) = a == b && str_eq as' bs
str_eq _ _ = false

abbrev pub is_empty : Bytes → Bool
is_empty [] = true
is_empty (c ∷ cs) = false

-- `vals` of a new pair: a null value is not stored.
abbrev pub given : Option Bytes → List Bytes
given none = []
given (some v) = v ∷ []

-- A pair that is there: it keeps its values if none is given, else the value is added to them or
-- takes their place.
abbrev pub changed : Bool → Option Bytes → Pair → Pair
changed append none p = p
changed append (some v) p = record p { vals = if append then p.vals ++ (v ∷ []) else v ∷ [] }

insert_pair : Bytes → Option Bytes → Bool → Bool → Pairtab → Pairtab
insert_pair k v append encode [] = record { key = k; vals = given v; encflag = encode } ∷ []
insert_pair k v append encode (p ∷ t) =
    if str_eq p.key k then changed append v p ∷ t else p ∷ insert_pair k v append encode t

-- `insert (key, val, append, encode)`; a null or empty key is passed over.
unfoldable pub insert : Option Bytes → Option Bytes → Bool → Bool → Pairtab → Pairtab
unfolding insert_pair str_eq
insert none v append encode t = t
insert (some k) v append encode t = if is_empty k then t else insert_pair k v append encode t

-- `tab[key]`
unfoldable pub find : Bytes → Pairtab → Option Pair
unfolding str_eq
find k [] = none
find k (p ∷ t) = if str_eq p.key k then some p else find k t

abbrev pub first_val : List Bytes → Option Bytes
first_val [] = none
first_val (v ∷ vs) = some v

-- `lookup (key)`: the first value, if the key has one.
unfoldable pub lookup : Bytes → Pairtab → Option Bytes
unfolding find
lookup k t = elim (find k t) [ none ↦ none | some p ↦ first_val p.vals ]

-- `lookup (key, vec *)`: all values.
unfoldable pub lookup_all : Bytes → Pairtab → Option (List Bytes)
unfolding find
lookup_all k t = elim (find k t) [ none ↦ none | some p ↦ some p.vals ]

unfoldable pub remove : Bytes → Pairtab → Pairtab × Bool
unfolding str_eq
remove k [] = ([], false)
remove k (p ∷ t) =
    let (t', found) = remove k t in if str_eq p.key k then (t, true) else (p ∷ t', found)
