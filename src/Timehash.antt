-- ===== src/Timehash.antt =====
-- libpub/timehash.h: a table whose entries expire. The hash table and the queue hold the same nodes
-- and every method changes both, so they are one list here, the queue: a lookup in the hash table is
-- a search for the key. A time is a number of seconds, and each method takes the current one.
pub mod History
pub mod Order
pub mod Revived
mod Tests
use okws.Prelude.{
  ℕ, ◌+◌, Bool, true, false, Bytes, List, [], ◌∷◌, ◌++◌, length, map, ◌==◌, ltb, if◌then◌else◌,
  Option, none, some,
}
use okws.Keyed.{find, unlink}

-- `timehash_node_t`
pub record Node (V : Type 0) : Type 0 where
  pub val : V
  pub ctime : ℕ

-- `timehash_t`, with `key` for the function `_fn` from values to keys.
pub record Timehash (V : Type 0) : Type 0 where
  pub nodes : List (Node V)
  pub timeout : ℕ
  pub rejuvenating : Bool

pub timehash_t : {V : Type 0} → ℕ → Bool → Timehash V
timehash_t to rj = record { nodes = []; timeout = to; rejuvenating = rj }

-- `n->_ctime < sfs_get_timenow () - _timeout`, unless there is no timeout.
abbrev pub is_expired : ℕ → ℕ → ℕ → Bool
is_expired to now c = if to == 0 then false else ltb (c + to) now

-- The key that `_h` takes from a node.
abbrev pub key_of : {V : Type 0} → (V → Bytes) → Node V → Bytes
key_of key n = key n.val

-- The loop of `expire (deadline)`
unfoldable pub expire_from : {V : Type 0} → ℕ → ℕ → List (Node V) → List (Node V)
expire_from to now [] = []
expire_from to now (n ∷ ns) = if is_expired to now n.ctime then expire_from to now ns else n ∷ ns

unfoldable pub expire : {V : Type 0} → ℕ → Timehash V → Timehash V
unfolding expire_from
expire now t = record t { nodes = expire_from t.timeout now t.nodes }

unfoldable pub clear : {V : Type 0} → Timehash V → Timehash V
clear t = record t { nodes = [] }

-- `size`
abbrev pub size : {V : Type 0} → Timehash V → ℕ
size t = length t.nodes

abbrev pub val_of : {V : Type 0} → Option (Node V) → Option V
val_of none = none
val_of (some n) = some n.val

module _ {V : Type 0} (key : V → Bytes) where
  unfoldable pub remove : ℕ → Bytes → Timehash V → Bool × Timehash V
  unfolding expire find unlink
  remove now k t =
      let t' = expire now t in
      elim (find (key_of key) k t'.nodes) [
        | none ↦ (false, t')
        | some n ↦ (true, record t' { nodes = unlink (key_of key) k t'.nodes })
      ]

  unfoldable pub insert : ℕ → V → Timehash V → Timehash V
  unfolding remove
  insert now v t =
      let t' = (remove now (key v) t).1 in
      record t' { nodes = t'.nodes ++ (record { val = v; ctime = now } ∷ []) }

  -- `operator[]` of a constant table
  unfoldable pub peek : Bytes → Timehash V → Option V
  unfolding find
  peek k t = val_of (find (key_of key) k t.nodes)

  unfoldable pub rejuvenate : ℕ → Bytes → Timehash V → Bool × Timehash V
  unfolding find unlink
  rejuvenate now k t = elim (find (key_of key) k t.nodes) [
    | none ↦ (false, t)
    | some n ↦ (
      true,
      record t { nodes = unlink (key_of key) k t.nodes ++ (record n { ctime = now } ∷ []) },
    )
  ]

  -- `operator[]`
  unfoldable pub get : ℕ → Bytes → Timehash V → Option V × Timehash V
  unfolding rejuvenate expire find
  get now k t =
      let t' = expire now (if t.rejuvenating then (rejuvenate now k t).1 else t) in
      (val_of (find (key_of key) k t'.nodes), t')

  -- `traverse_keys`: the keys that the callback gets.
  unfoldable pub traverse_keys : ℕ → Timehash V → List Bytes × Timehash V
  unfolding expire
  traverse_keys now t = let t' = expire now t in (map (λ (n : Node V). key n.val) t'.nodes, t')
