-- ===== src/Keyed/Laws.antt =====
-- Tables in which each key stands once.
use okws.Prelude.{
  ◌≡◌, refl, sym, ap, ◌∙◌, arith, true, false, Bytes, List, [], ◌∷◌, ◌++◌, All, if◌then◌else◌, none,
  some, Bool-cases, inl, inr,
}
use mathlib.Core.Path.{subst}
use okws.Pair.{str_eq}
use okws.Pair.Laws.{str_eq_iff}
use okws.Keyed.{find, unlink}

-- Two texts that equal a third are equal.
pub str_eq-apart : (a b c : Bytes) → str_eq a c ≡ false → str_eq a b ≡ true → str_eq c b ≡ false
str_eq-apart a b c e f = elim (Bool-cases (str_eq c b)) [
  | inl g ↦
      let same : a ≡ c = (str_eq_iff a b).0 f ∙ sym ((str_eq_iff c b).0 g) in
      absurd (ground (arith, e, (str_eq_iff a c).1 same))
  | inr g ↦ g
]

module _ {A : Type 0} (key : A → Bytes) where
  abbrev pub Misses : Bytes → A → Type 0
  Misses k m = str_eq (key m) k ≡ false

  abbrev pub IsUnique : List (A) → Type 0
  IsUnique [] = Unit
  IsUnique (n ∷ ns) = All (Misses (key n)) ns × IsUnique ns

  pub find-Misses : (k : Bytes) (ns : List (A)) → All (Misses k) ns → find key k ns ≡ none
  unfolding find
  find-Misses k [] h = refl
  find-Misses k (n ∷ ns) (m, h) = ground (arith, m, find-Misses k ns h)

  pub All-unlink : (P : A → Type 0) (k : Bytes) (ns : List (A)) → All P ns → All P (unlink key k ns)
  unfolding unlink
  All-unlink P k [] h = tt
  All-unlink P k (n ∷ ns) (h, hs) = elim (Bool-cases (str_eq (key n) k)) [
    | inl e ↦ rw e hs
    | inr e ↦ rw e (h, All-unlink P k ns hs)
  ]

  pub unlink-IsUnique : (k : Bytes) (ns : List (A)) → IsUnique ns → IsUnique (unlink key k ns)
  unfolding unlink
  unlink-IsUnique k [] h = tt
  unlink-IsUnique k (n ∷ ns) (h, hs) = elim (Bool-cases (str_eq (key n) k)) [
    | inl e ↦ rw e hs
    | inr e ↦ rw e (All-unlink _ k ns h, unlink-IsUnique k ns hs)
  ]

  -- The key is gone, the others are as before.
  pub unlink-Misses : (k : Bytes) (ns : List (A)) → IsUnique ns → All (Misses k) (unlink key k ns)
  unfolding unlink
  unlink-Misses k [] h = tt
  unlink-Misses k (n ∷ ns) (h, hs) = elim (Bool-cases (str_eq (key n) k)) [
    | inl e ↦
        let same : key n ≡ k = (str_eq_iff (key n) k).0 e in
        rw e (subst (λ x. All (Misses x) ns) same h)
    | inr e ↦ rw e (e, unlink-Misses k ns hs)
  ]

  pub find-unlink :
      (k j : Bytes) (ns : List (A))
      → IsUnique ns
      → find key j (unlink key k ns) ≡ (if str_eq k j then none else find key j ns)
  unfolding find unlink
  find-unlink k j [] h = ground arith
  find-unlink k j (n ∷ ns) (h, hs) = elim (Bool-cases (str_eq (key n) k)) [
    | inl e ↦
        let same : key n ≡ k = (str_eq_iff (key n) k).0 e in
        elim (Bool-cases (str_eq k j)) [
          | inl f ↦
              let here : key n ≡ j = same ∙ (str_eq_iff k j).0 f in
              rw (e, f) (find-Misses j ns (subst (λ x. All (Misses x) ns) here h))
          | inr f ↦
              let other : str_eq (key n) j ≡ false = ap (λ x. str_eq x j) same ∙ f in
              ground (arith, e, f, other)
        ]
    | inr e ↦
        let ih = find-unlink k j ns hs in
        let apart = str_eq-apart (key n) j k e in ground (arith, e, ih, apart)
  ]

  pub find-snoc :
      (k : Bytes) (ns : List (A)) (n : A)
      → find key k (ns ++ n ∷ []) ≡ elim (find key k ns) [
        | none ↦ if str_eq (key n) k then some n else none
        | some m ↦ some m
      ]
  unfolding find
  find-snoc k [] n = ground arith
  find-snoc k (m ∷ ns) n = ground (arith, find-snoc k ns n)
