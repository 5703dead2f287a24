-- ===== src/Keyed.antt =====
-- A hash table (`fhash`, `qhash`) whose entries carry their keys, as the list of its entries: what
-- Timehash and Holdtab look up and remove.
pub mod Laws
use okws.Prelude.{Bytes, List, [], ◌∷◌, if◌then◌else◌, Option, none, some}
use okws.Pair.{str_eq}

module _ {A : Type 0} (key : A → Bytes) where
  -- `tab[k]`
  unfoldable pub find : Bytes → List A → Option A
  unfolding str_eq
  find k [] = none
  find k (n ∷ ns) = if str_eq (key n) k then some n else find k ns

  -- Removes the entry of a key.
  unfoldable pub unlink : Bytes → List A → List A
  unfolding str_eq
  unlink k [] = []
  unlink k (n ∷ ns) = if str_eq (key n) k then ns else n ∷ unlink k ns
