-- ===== src/Timehash/Revived.antt =====
-- In a table that rejuvenates, a lookup finds what has expired.
use okws.Prelude.{
  ℕ, ◌+◌, ◌<◌, ◌≡◌, ◌≢◌, ap, ◌∙◌, arith, Bool, true, false, Bytes, List, [], ◌∷◌, ◌++◌, All, none,
  some, Bool-cases, inl, inr,
}
use okws.Pair.{str_eq}
use okws.Timehash.{Node, Timehash, key_of, is_expired, expire_from, expire, rejuvenate, get, val_of}
use okws.Keyed.{find, unlink}
use okws.Keyed.Laws.{IsUnique, Misses, unlink-Misses}
use okws.Timehash.Order.{IsOrdered, fresh, find-expire_from}

is_expired-now : (to now : ℕ) → is_expired to now now ≡ false
is_expired-now to now = ground arith

module _ {V : Type 0} (key : V → Bytes) where
  find-key :
      (k : Bytes) (ns : List (Node V)) (n : Node V)
      → find (key_of key) k ns ≡ some n
      → str_eq (key n.val) k ≡ true
  unfolding find
  find-key k [] n e = absurd (ground (arith, e))
  find-key k (m ∷ ns) n e = elim (Bool-cases (str_eq (key m.val) k)) [
    | inl f ↦ ground (arith, e, f)
    | inr f ↦ find-key k ns n (ground (arith, e, f))
  ]

  find-last :
      (k : Bytes) (ns : List (Node V)) (n : Node V)
      → All (Misses (key_of key) k) ns
      → str_eq (key n.val) k ≡ true
      → find (key_of key) k (ns ++ n ∷ []) ≡ some n
  unfolding find
  find-last k [] n h e = ground (arith, e)
  find-last k (m ∷ ns) n (h, hs) e = rw h (find-last k ns n hs e)

  find-expire_from_last :
      (to now : ℕ) (k : Bytes) (ns : List (Node V)) (n : Node V)
      → All (Misses (key_of key) k) ns
      → str_eq (key n.val) k ≡ true
      → is_expired to now n.ctime ≡ false
      → find (key_of key) k (expire_from to now (ns ++ n ∷ [])) ≡ some n
  unfolding find expire_from
  find-expire_from_last to now k [] n h e f = ground (arith, e, f)
  find-expire_from_last to now k (m ∷ ns) n (h, hs) e f =
      elim (Bool-cases (is_expired to now m.ctime)) [
        | inl g ↦ rw g (find-expire_from_last to now k ns n hs e f)
        | inr g ↦ rw (g, h) (find-last k ns n hs e)
      ]

  rejuvenate-found :
      (now : ℕ) (k : Bytes) (t : Timehash V) (n : Node V)
      → find (key_of key) k t.nodes ≡ some n
      → rejuvenate key now k t ≡ (
        true,
        record t { nodes = unlink (key_of key) k t.nodes ++ record n { ctime = now } ∷ [] },
      )
  unfolding rejuvenate
  rejuvenate-found now k t n e = ground (arith, e)

  -- A lookup in a table with each key once, its times in order, that holds an entry `n` under the key:
  -- if it rejuvenates, it gives the value of `n`, however old, and leaves under the key the entry `n`
  -- with the current time; the same table without rejuvenation gives none once the timeout has
  -- passed, and no longer holds the key.
  pub get_revives :
      (to now last : ℕ) (k : Bytes) (ns : List (Node V)) (n : Node V)
      → IsOrdered last ns
      → IsUnique (key_of key) ns
      → find (key_of key) k ns ≡ some n
      → to ≢ 0
      → n.ctime + to < now
      → ((get key now k (record { nodes = ns; timeout = to; rejuvenating = true })).0 ≡ some n.val)
        × (find
              (key_of key)
              k
              (get key now k (record { nodes = ns; timeout = to; rejuvenating = true })).1.nodes
            ≡ some (record n { ctime = now }))
        × ((get key now k (record { nodes = ns; timeout = to; rejuvenating = false })).0 ≡ none)
        × (find
              (key_of key)
              k
              (get key now k (record { nodes = ns; timeout = to; rejuvenating = false })).1.nodes
            ≡ none)
  unfolding get expire
  get_revives to now last k ns n o u e pos late =
      let hit =
        find-expire_from_last to now k (unlink (key_of key) k ns) (record n { ctime = now })
          (unlink-Misses (key_of key) k ns u) (find-key k ns n e) (is_expired-now to now) in
      let moved =
        rejuvenate-found now k (record { nodes = ns; timeout = to; rejuvenating = true }) n e in
      let found =
        ap (λ (r : Bool × Timehash V). find (key_of key) k (expire_from r.1.timeout now r.1.nodes))
          moved
        ∙ hit in
      let gone : find (key_of key) k (expire_from to now ns) ≡ none =
        find-expire_from key to now last k ns o u
        ∙ ap (λ r. fresh to now r) e
        ∙ ground (arith, pos, late) in
      (ap val_of found, found, ap val_of gone, gone)
