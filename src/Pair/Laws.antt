-- ===== src/Pair/Laws.antt =====
-- The table as a map from keys to lists of values.
use okws.Prelude.{
  ◌≡◌, ◌≢◌, refl, sym, ap, ◌∙◌, arith, ◌↔◌, Bool, true, false, Bytes, List, [], ◌∷◌, ◌++◌, ◌==◌,
  ==_iff, if◌then◌else◌, Option, none, some, Bool-cases, inl, inr,
}
use okws.Pair.{Pair, Pairtab, str_eq, is_empty, given, changed, insert_pair, insert, find, remove}

str_eq_sound : (a b : Bytes) → str_eq a b ≡ true → a ≡ b
unfolding str_eq
str_eq_sound [] [] h = refl
str_eq_sound [] (y ∷ b) h = ground (arith, h)
str_eq_sound (x ∷ a) [] h = ground (arith, h)
str_eq_sound (x ∷ a) (y ∷ b) h = elim (Bool-cases (x == y)) [
  | inl e ↦
      let xy : x ≡ y = (==_iff x y).0 e in
      let ab : a ≡ b = str_eq_sound a b (ground (arith, e, h)) in cc (xy, ab)
  | inr e ↦ ground (arith, e, h)
]

str_eq_refl : (a : Bytes) → str_eq a a ≡ true
unfolding str_eq
str_eq_refl [] = refl
str_eq_refl (x ∷ a) = ground (arith, (==_iff x x).1 refl, str_eq_refl a)

-- `str_eq` decides equality.
pub str_eq_iff : (a b : Bytes) → (str_eq a b ≡ true) ↔ (a ≡ b)
str_eq_iff a b = (str_eq_sound a b, λ e. ap (λ x. str_eq x b) e ∙ str_eq_refl b)

-- The values of a key behind an insertion over the values `vs`: what is added stands at the end, what
-- replaces stands alone, and no value changes nothing.
abbrev pub values_after : Bool → Option Bytes → List Bytes → List Bytes
values_after append none vs = vs
values_after true (some v) vs = vs ++ v ∷ []
values_after false (some v) vs = v ∷ []

abbrev pub values : Option Pair → List Bytes
values none = []
values (some p) = p.vals

abbrev pub flag : Bool → Option Pair → Bool
flag encode none = encode
flag encode (some p) = p.encflag

-- What is under a key behind an insertion, by what was there.
abbrev pub put : Bytes → Option Bytes → Bool → Bool → Option Pair → Pair
put k v append encode o = record {
  key = k;
  vals = values_after append v (values o);
  encflag = flag encode o;
}

given-values : (append : Bool) (v : Option Bytes) → given v ≡ values_after append v []
given-values append none = refl
given-values true (some v) = refl
given-values false (some v) = refl

changed-put :
    (k : Bytes) (v : Option Bytes) (append encode : Bool) (p : Pair)
    → p.key ≡ k
    → changed append v p ≡ put k v append encode (some p)
changed-put k none append encode p e = ap (λ x. record p { key = x }) e
changed-put k (some v) true encode p e = ap (λ x. record p { key = x; vals = p.vals ++ v ∷ [] }) e
changed-put k (some v) false encode p e = ap (λ x. record p { key = x; vals = v ∷ [] }) e

key-changed : (append : Bool) (v : Option Bytes) (p : Pair) → (changed append v p).key ≡ p.key
key-changed append none p = refl
key-changed append (some v) p = refl

find-insert_pair_same :
    (k : Bytes) (v : Option Bytes) (append encode : Bool) (t : Pairtab)
    → find k (insert_pair k v append encode t) ≡ some (put k v append encode (find k t))
unfolding find insert_pair
find-insert_pair_same k v append encode [] =
    rw (str_eq_refl k)
      (ap (λ vs. some (record { key = k; vals = vs; encflag = encode })) (given-values append v))
find-insert_pair_same k v append encode (p ∷ t) = elim (Bool-cases (str_eq p.key k)) [
  | inl e ↦
      let same : str_eq (changed append v p).key k ≡ true =
        ap (λ x. str_eq x k) (key-changed append v p) ∙ e in
      rw (e, same)
        (ap (λ (x : Pair). some x) (changed-put k v append encode p (str_eq_sound p.key k e)))
  | inr e ↦ rw (e, e) (find-insert_pair_same k v append encode t)
]

-- The keys `k` and `k'` differ.
find-insert_pair_other :
    (k k' : Bytes) (v : Option Bytes) (append encode : Bool) (t : Pairtab)
    → str_eq k k' ≡ false
    → find k' (insert_pair k v append encode t) ≡ find k' t
unfolding find insert_pair
find-insert_pair_other k k' v append encode [] h = ground (arith, h)
find-insert_pair_other k k' v append encode (p ∷ t) h = elim (Bool-cases (str_eq p.key k)) [
  | inl e ↦
      let other : str_eq p.key k' ≡ false = ap (λ x. str_eq x k') (str_eq_sound p.key k e) ∙ h in
      elim v [ none ↦ ground (arith, e) | some w ↦ ground (arith, e, other) ]
  | inr e ↦ ground (arith, e, find-insert_pair_other k k' v append encode t h)
]

-- What is stored under a key after an insertion: under the inserted key the pair that was there
-- with the value added or in place of its values, and unchanged if no value is given; under any
-- other key what was there. A null or empty key changes nothing.
abbrev pub inserted : Option Bytes → Option Bytes → Bool → Bool → Bytes → Pairtab → Option Pair
inserted none v append encode k' t = find k' t
inserted (some k) v append encode k' t =
    if is_empty k
    then find k' t
    else if str_eq k k'
    then some (put k v append encode (find k t))
    else find k' t

-- For every key, `find` after `insert` gives: under the inserted key the values that were there, none
-- for a new key, with the given value at the end (`append`) or the given value alone, or unchanged if
-- none is given, and the flag of the pair that was there or, for a new key, the given one; under any
-- other key the pair that was there; a null or empty key inserts nothing.
pub find-insert :
    (k : Option Bytes) (v : Option Bytes) (append encode : Bool) (k' : Bytes) (t : Pairtab)
    → find k' (insert k v append encode t) ≡ inserted k v append encode k' t
unfolding insert
find-insert none v append encode k' t = refl
find-insert (some k) v append encode k' t = elim (Bool-cases (is_empty k)) [
  | inl e ↦ ground (arith, e)
  | inr e ↦ elim (Bool-cases (str_eq k k')) [
    | inl same ↦
        let eq : k ≡ k' = str_eq_sound k k' same in
        let f = find-insert_pair_same k v append encode t in
        let g : find k' (insert_pair k v append encode t)
            ≡ find k (insert_pair k v append encode t) =
          ap (λ x. find x (insert_pair k v append encode t)) (sym eq) in
        ground (arith, e, same, g ∙ f)
    | inr other ↦ ground (arith, e, other, find-insert_pair_other k k' v append encode t other)
  ]
]

found-remove : (k : Bytes) (t : Pairtab) → ((remove k t).1 ≡ true) ↔ (find k t ≢ none)
unfolding remove find
found-remove k [] = ground arith
found-remove k (p ∷ t) =
    let ih = found-remove k t in
    elim (Bool-cases (str_eq p.key k)) [ inl e ↦ ground (arith, e) | inr e ↦ ground (arith, e, ih) ]

find-remove_other :
    (k k' : Bytes) (t : Pairtab) → str_eq k k' ≡ false → find k' (remove k t).0 ≡ find k' t
unfolding remove find
find-remove_other k k' [] h = refl
find-remove_other k k' (p ∷ t) h = elim (Bool-cases (str_eq p.key k)) [
  | inl e ↦
      let other : str_eq p.key k' ≡ false = ap (λ x. str_eq x k') (str_eq_sound p.key k e) ∙ h in
      ground (arith, e, other)
  | inr e ↦ ground (arith, e, find-remove_other k k' t h)
]

-- A removal says truly whether the key was there, and changes what is found under no other key.
find-remove :
    (k : Bytes) (t : Pairtab)
    → (((remove k t).1 ≡ true) ↔ (find k t ≢ none))
      × ((k' : Bytes) → str_eq k k' ≡ false → find k' (remove k t).0 ≡ find k' t)
find-remove k t = (found-remove k t, λ k' h. find-remove_other k k' t h)
