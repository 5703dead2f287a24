-- ===== src/Timehash/Order.antt =====
-- The queue stands in the order of the times.
use okws.Prelude.{
  ℕ, ◌≤◌, ◌≡◌, ◌-◌, Bool, ltb, ◌&&◌, inl, inr, refl, ap, ◌∙◌, arith, true, false, Bytes, List, [],
  ◌∷◌, All, if◌then◌else◌, Option, none, some, Bool-cases,
}
use mathlib.Core.Path.{subst}
use okws.Pair.{str_eq}
use okws.Pair.Laws.{str_eq_iff}
use okws.Keyed.{find, unlink}
use okws.Keyed.Laws.{Misses, IsUnique, find-Misses, All-unlink}
use okws.Timehash.{Node, key_of, is_expired, expire_from}

-- The times go up, none is above `last`.
abbrev pub IsOrdered : {V : Type 0} → ℕ → List (Node V) → Type 0
IsOrdered last [] = Unit
IsOrdered last (n ∷ ns) = All (λ m. n.ctime ≤ m.ctime) ns × (n.ctime ≤ last) × IsOrdered last ns

-- With a timeout, which is not 0, an entry lapses when more time than it has passed.
abbrev pub lapsed : ℕ → ℕ → ℕ → Bool
lapsed to now c = ltb 0 to && ltb to (now - c)

-- A node with its time, if it has not lapsed.
abbrev pub fresh : {V : Type 0} → ℕ → ℕ → Option (Node V) → Option (Node V)
fresh to now none = none
fresh to now (some n) = if lapsed to now n.ctime then none else some n

pub is_expired_mono :
    (to now c c' : ℕ) → c ≤ c' → is_expired to now c' ≡ true → is_expired to now c ≡ true
is_expired_mono to now c c' h e = ground (arith, h, e)

fresh-same :
    {V : Type 0} (to now c : ℕ) (r : Option (Node V))
    → is_expired to now c ≡ false
    → ((m : Node V) → r ≡ some m → c ≤ m.ctime)
    → r ≡ fresh to now r
fresh-same to now c none e h = refl
fresh-same to now c (some m) e h = ground (arith, e, h m refl, is_expired_mono to now c m.ctime)

module _ {V : Type 0} (key : V → Bytes) where
  find-ctime :
      (k : Bytes) (c : ℕ) (ns : List (Node V)) (n : Node V)
      → All (λ m. c ≤ m.ctime) ns
      → find (key_of key) k ns ≡ some n
      → c ≤ n.ctime
  unfolding find
  find-ctime k c [] n h e = absurd (ground (arith, e))
  find-ctime k c (m ∷ ns) n (hm, h) e = ground (arith, e, hm, find-ctime k c ns n h)

  -- What `expire` leaves is what has not expired.
  pub find-expire_from :
      (to now last : ℕ) (k : Bytes) (ns : List (Node V))
      → IsOrdered last ns
      → IsUnique (key_of key) ns
      → find (key_of key) k (expire_from to now ns) ≡ fresh to now (find (key_of key) k ns)
  unfolding find expire_from
  find-expire_from to now last k [] o u = refl
  find-expire_from to now last k (n ∷ ns) (o, _, os) (u, us) =
      elim (Bool-cases (is_expired to now n.ctime)) [
        | inr stays ↦ rw stays (
            fresh-same to now n.ctime (find (key_of key) k (n ∷ ns)) stays
              (λ m e. find-ctime k n.ctime (n ∷ ns) m (omega arith, o) e))
        | inl gone ↦
            let ih = find-expire_from to now last k ns os us in
            elim (Bool-cases (str_eq (key n.val) k)) [
              | inl e ↦
                  let none_left : find (key_of key) k ns ≡ none = find-Misses (key_of key) k ns (
                    subst (λ x. All (Misses (key_of key) x) ns) ((str_eq_iff (key n.val) k).0 e)
                      u) in
                  let past : lapsed to now n.ctime ≡ true = ground (arith, gone) in
                  rw (gone, e, past) (ih ∙ ap (fresh to now) none_left)
              | inr e ↦ rw (gone, e) ih
            ]
      ]

  pub All-expire_from :
      (P : Node V → Type 0) (to now : ℕ) (ns : List (Node V))
      → All P ns
      → All P (expire_from to now ns)
  unfolding expire_from
  All-expire_from P to now [] h = tt
  All-expire_from P to now (n ∷ ns) (h, hs) = elim (Bool-cases (is_expired to now n.ctime)) [
    | inl e ↦ rw e (All-expire_from P to now ns hs)
    | inr e ↦ rw e (h, hs)
  ]

  pub expire_from-IsOrdered :
      (to now last : ℕ) (ns : List (Node V))
      → IsOrdered last ns
      → IsOrdered last (expire_from to now ns)
  unfolding expire_from
  expire_from-IsOrdered to now last [] h = tt
  expire_from-IsOrdered to now last (n ∷ ns) (h, l, hs) =
      elim (Bool-cases (is_expired to now n.ctime)) [
        | inl e ↦ rw e (expire_from-IsOrdered to now last ns hs)
        | inr e ↦ rw e (h, l, hs)
      ]

  pub expire_from-IsUnique :
      (to now : ℕ) (ns : List (Node V))
      → IsUnique (key_of key) ns
      → IsUnique (key_of key) (expire_from to now ns)
  unfolding expire_from
  expire_from-IsUnique to now [] h = tt
  expire_from-IsUnique to now (n ∷ ns) (h, hs) = elim (Bool-cases (is_expired to now n.ctime)) [
    | inl e ↦ rw e (expire_from-IsUnique to now ns hs)
    | inr e ↦ rw e (h, hs)
  ]

  pub unlink-IsOrdered :
      (last : ℕ) (k : Bytes) (ns : List (Node V))
      → IsOrdered last ns
      → IsOrdered last (unlink (key_of key) k ns)
  unfolding unlink
  unlink-IsOrdered last k [] h = tt
  unlink-IsOrdered last k (n ∷ ns) (h, l, hs) = elim (Bool-cases (str_eq (key n.val) k)) [
    | inl e ↦ rw e hs
    | inr e ↦ rw e (All-unlink (key_of key) _ k ns h, l, unlink-IsOrdered last k ns hs)
  ]
