-- ===== src/Holdtab.antt =====
-- libpub/holdtab.h: callbacks that wait for the result of work that is under way.
pub mod History
mod Tests
use okws.Prelude.{
  Bool, true, false, Bytes, List, [], ◌∷◌, ◌++◌, map, if◌then◌else◌, Option, none, some,
}
use okws.Keyed.{find, unlink}
use okws.Pair.{str_eq}

-- `holdtab_t`: each key of the hash table with its `holdvec_t`.
abbrev pub Holdtab : Type 0 → Type 0
Holdtab C = List (Bytes × List C)

abbrev pub key_of : {C : Type 0} → Bytes × List C → Bytes
key_of p = p.0

module _ {C : Type 0} where
  -- `(*qp)->push_back (c)`
  unfoldable pub push : Bytes → C → Holdtab C → Holdtab C
  unfolding str_eq
  push k c [] = []
  push k c (p ∷ t) = if str_eq p.0 k then (p.0, p.1 ++ c ∷ []) ∷ t else p ∷ push k c t

  -- `inq`: whether the work is under way already.
  unfoldable pub inq : Bytes → C → Holdtab C → Bool × Holdtab C
  unfolding find push
  inq k c t = elim (find key_of k t) [
    | none ↦ (false, (k, c ∷ []) ∷ t)
    | some p ↦ (true, push k c t)
  ]

  -- `holdvec_t::finish`: the calls in their order.
  unfoldable pub calls : {A : Type 0} → A → List C → List (C × A)
  calls a [] = []
  calls a (c ∷ q) = (c, a) ∷ calls a q

  -- `finish`, where `none` is a failed assertion. The calls come when the table has forgotten the key,
  -- and the queue is no longer in the table: a callback that queues up again starts a new one.
  unfoldable pub finish : {A : Type 0} → Bytes → A → Holdtab C → Option (List (C × A) × Holdtab C)
  unfolding find unlink calls
  finish k a t = elim (find key_of k t) [
    | none ↦ none
    | some p ↦ some (calls a p.1, unlink key_of k t)
  ]
