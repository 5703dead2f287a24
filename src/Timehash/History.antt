-- ===== src/Timehash/History.antt =====
-- A table that does not rejuvenate is a map whose entries carry their times: when an entry is removed
-- from the queue makes no difference to any answer.
use okws.Prelude.{
  ℕ, ◌≤◌, ◌≡◌, refl, sym, ap, ◌∙◌, arith, Bool, true, false, Bytes, List, [], ◌∷◌, ◌++◌, All,
  if◌then◌else◌, Option, none, some, Bool-cases, Option-cases, inl, inr,
}
use okws.Pair.{str_eq}
use okws.Pair.Laws.{str_eq_iff}
use okws.Timehash.{
  Node, Timehash, key_of, timehash_t, expire_from, expire, remove, insert, get, val_of,
}
use okws.Keyed.{find, unlink}
use okws.Keyed.Laws.{IsUnique, Misses, unlink-IsUnique, unlink-Misses, find-unlink, find-snoc}
use okws.Timehash.Order.{
  IsOrdered, fresh, find-expire_from, expire_from-IsOrdered, expire_from-IsUnique, unlink-IsOrdered,
}

-- A call of a method, and its result.
pub data Op (V : Type 0) : Type 0 where
  put : V → Op V
  look drop : Bytes → Op V

pub data Answer (V : Type 0) : Type 0 where
  done : Answer V
  value : Option V → Answer V
  removed : Bool → Answer V

abbrev pub is_some : {A : Type 0} → Option A → Bool
is_some none = false
is_some (some a) = true

-- The map: the last value given for each key that has not been removed since, with its time.
abbrev pub Stamps : Type 0 → Type 0
Stamps V = Bytes → Option (Node V)

All-snoc {ℓ κ} :
    {A : Type ℓ} (P : A → Type κ) (xs : List A) {x : A} → All P xs → P x → All P (xs ++ x ∷ [])
All-snoc P [] h p = (p, tt)
All-snoc P (y ∷ ys) (h, hs) p = (h, All-snoc P ys hs p)

not_turned : (a b : Bytes) → str_eq a b ≡ false → str_eq b a ≡ false
not_turned a b e = elim (Bool-cases (str_eq b a)) [
  | inl f ↦ absurd (ground (arith, e, (str_eq_iff a b).1 (sym ((str_eq_iff b a).0 f))))
  | inr f ↦ f
]

module _ {V : Type 0} (key : V → Bytes) where
  unfoldable pub step : ℕ → Op V → Timehash V → Answer V × Timehash V
  unfolding insert get remove
  step now (put v) t = (done, insert key now v t)
  step now (look k) t = let r = get key now k t in (value r.0, r.1)
  step now (drop k) t = let r = remove key now k t in (removed r.0, r.1)

  abbrev pub spec_step : ℕ → ℕ → Op V → Stamps V → Answer V × Stamps V
  spec_step to now (put v) m =
      (done, λ j. if str_eq (key v) j then some (record { val = v; ctime = now }) else m j)
  spec_step to now (look k) m = (value (val_of (fresh to now (m k))), m)
  spec_step to now (drop k) m =
      (removed (is_some (fresh to now (m k))), λ j. if str_eq k j then none else m j)

  -- Calls with their times.
  unfoldable pub run : List (ℕ × Op V) → Timehash V → List (Answer V)
  unfolding step
  run [] t = []
  run ((now, op) ∷ ops) t = let r = step now op t in r.0 ∷ run ops r.1

  unfoldable pub spec_run : ℕ → List (ℕ × Op V) → Stamps V → List (Answer V)
  spec_run to [] m = []
  spec_run to ((now, op) ∷ ops) m = let r = spec_step to now op m in r.0 ∷ spec_run to ops r.1

  abbrev pub table : ℕ → List (Node V) → Timehash V
  table to ns = record { nodes = ns; timeout = to; rejuvenating = false }

  -- From `last` on, the queue and the map give the same answers.
  record Agree (to last : ℕ) (ns : List (Node V)) (m : Stamps V) : Type 0 where
    ordered : IsOrdered last ns
    unique : IsUnique (key_of key) ns
    same :
        (k : Bytes) (now : ℕ)
        → last ≤ now
        → fresh to now (find (key_of key) k ns) ≡ fresh to now (m k)

  IsOrdered-later :
      (last now : ℕ) (ns : List (Node V)) → last ≤ now → IsOrdered last ns → IsOrdered now ns
  IsOrdered-later last now [] le h = tt
  IsOrdered-later last now (n ∷ ns) le (h, l, hs) =
      (h, omega arith, IsOrdered-later last now ns le hs)

  fresh-fresh :
      (to now later : ℕ) (r : Option (Node V))
      → now ≤ later
      → fresh to later (fresh to now r) ≡ fresh to later r
  fresh-fresh to now later none le = refl
  fresh-fresh to now later (some n) le = ground arith

  -- After the table has been purged.
  Agree-expire_from :
      (to last now : ℕ) (ns : List (Node V)) (m : Stamps V)
      → last ≤ now
      → Agree to last ns m
      → Agree to now (expire_from to now ns) m
  Agree-expire_from to last now ns m le h = record {
    ordered = IsOrdered-later last now _ le (expire_from-IsOrdered key to now last ns h.ordered);
    unique = expire_from-IsUnique key to now ns h.unique;
    same = λ k later le'.
        ap (fresh to later) (find-expire_from key to now last k ns h.ordered h.unique)
        ∙ fresh-fresh to now later (find (key_of key) k ns) le'
        ∙ h.same k later (omega (arith, le, le'));
  }

  -- What is found after a purge is what the map has now.
  find-Agree :
      (to last now : ℕ) (ns : List (Node V)) (m : Stamps V) (k : Bytes)
      → last ≤ now
      → Agree to last ns m
      → find (key_of key) k (expire_from to now ns) ≡ fresh to now (m k)
  find-Agree to last now ns m k le h =
      find-expire_from key to now last k ns h.ordered h.unique ∙ h.same k now le

  unlink-none :
      (k : Bytes) (ns : List (Node V))
      → find (key_of key) k ns ≡ none
      → unlink (key_of key) k ns ≡ ns
  unfolding find unlink
  unlink-none k [] e = refl
  unlink-none k (n ∷ ns) e = elim (Bool-cases (str_eq (key n.val) k)) [
    | inl f ↦ ground (arith, e, f)
    | inr f ↦ rw f (ap (λ x. n ∷ x) (unlink-none k ns (ground (arith, e, f))))
  ]

  remove-table :
      (to now : ℕ) (k : Bytes) (ns : List (Node V))
      → remove key now k (table to ns) ≡ (
        is_some (find (key_of key) k (expire_from to now ns)),
        table to (unlink (key_of key) k (expire_from to now ns)),
      )
  unfolding remove expire
  remove-table to now k ns = elim (Option-cases (find (key_of key) k (expire_from to now ns))) [
    | inl e ↦ let same = unlink-none k (expire_from to now ns) e in ground (arith, e, same)
    | inr (n, e) ↦ ground (arith, e)
  ]

  Agree-unlink :
      (to now : ℕ) (k : Bytes) (ns : List (Node V)) (m : Stamps V)
      → Agree to now ns m
      → Agree to now (unlink (key_of key) k ns) (λ j. if str_eq k j then none else m j)
  Agree-unlink to now k ns m h = record {
    ordered = unlink-IsOrdered key now k ns h.ordered;
    unique = unlink-IsUnique (key_of key) k ns h.unique;
    same = λ j later le.
        let found = find-unlink (key_of key) k j ns h.unique in
        let same = h.same j later le in
        elim (Bool-cases (str_eq k j)) [ inl f ↦ rw (found, f) refl | inr f ↦ rw (found, f) same ];
  }

  IsOrdered-snoc :
      (now : ℕ) (v : V) (ns : List (Node V))
      → IsOrdered now ns
      → IsOrdered now (ns ++ record { val = v; ctime = now } ∷ [])
  IsOrdered-snoc now v [] h = (tt, omega arith, tt)
  IsOrdered-snoc now v (n ∷ ns) (h, l, hs) = (All-snoc _ ns h l, l, IsOrdered-snoc now v ns hs)

  IsUnique-snoc :
      (n : Node V) (ns : List (Node V))
      → All (Misses (key_of key) (key n.val)) ns
      → IsUnique (key_of key) ns
      → IsUnique (key_of key) (ns ++ n ∷ [])
  IsUnique-snoc n [] h u = (tt, tt)
  IsUnique-snoc n (m ∷ ns) (h, hs) (u, us) =
      (All-snoc _ ns u (not_turned (key m.val) (key n.val) h), IsUnique-snoc n ns hs us)

  Agree-put :
      (to now : ℕ) (v : V) (ns : List (Node V)) (m : Stamps V)
      → Agree to now ns m
      → Agree to now
          (unlink (key_of key) (key v) ns ++ record { val = v; ctime = now } ∷ [])
          (λ j. if str_eq (key v) j then some (record { val = v; ctime = now }) else m j)
  Agree-put to now v ns m h = record {
    ordered = IsOrdered-snoc now v _ (unlink-IsOrdered key now (key v) ns h.ordered);
    unique =
        IsUnique-snoc (record { val = v; ctime = now }) _
          (unlink-Misses (key_of key) (key v) ns h.unique)
          (unlink-IsUnique (key_of key) (key v) ns h.unique);
    same = λ j later le.
        let found = find-unlink (key_of key) (key v) j ns h.unique in
        let same = h.same j later le in
        let last =
          find-snoc (key_of key) j (unlink (key_of key) (key v) ns)
            (record { val = v; ctime = now }) in
        elim (Bool-cases (str_eq (key v) j)) [
          | inl f ↦
              let gone = found ∙ ap (λ b. if b then none else find (key_of key) j ns) f in
              ground (arith, f, last, gone)
          | inr f ↦
              let kept = found ∙ ap (λ b. if b then none else find (key_of key) j ns) f in
              ground (arith, f, last, kept, same)
        ];
  }

  -- One call on a table with the queue `ns`: its answer is the map's, and so are all later ones.
  record Stepped (to now : ℕ) (op : Op V) (ns : List (Node V)) (m : Stamps V) : Type 0 where
    nodes : List (Node V)
    result : step now op (table to ns) ≡ ((spec_step to now op m).0, table to nodes)
    agree : Agree to now nodes (spec_step to now op m).1

  step-Stepped :
      (to last now : ℕ) (op : Op V) (ns : List (Node V)) (m : Stamps V)
      → last ≤ now
      → Agree to last ns m
      → Stepped to now op ns m
  unfolding step insert get expire
  step-Stepped to last now (put v) ns m le h = record {
    nodes =
        unlink (key_of key) (key v) (expire_from to now ns) ++ record { val = v; ctime = now } ∷ [];
    result =
        ap
          (λ (r : Bool × Timehash V).
            (done, record r.1 { nodes = r.1.nodes ++ record { val = v; ctime = now } ∷ [] }))
          (remove-table to now (key v) ns);
    agree = Agree-put to now v (expire_from to now ns) m (Agree-expire_from to last now ns m le h);
  }
  step-Stepped to last now (look k) ns m le h = record {
    nodes = expire_from to now ns;
    result =
        ap (λ r. (value (val_of r), table to (expire_from to now ns)))
          (find-Agree to last now ns m k le h);
    agree = Agree-expire_from to last now ns m le h;
  }
  step-Stepped to last now (drop k) ns m le h = record {
    nodes = unlink (key_of key) k (expire_from to now ns);
    result =
        ap (λ (r : Bool × Timehash V). (removed r.0, r.1)) (remove-table to now k ns)
        ∙ ap (λ r. (removed (is_some r), table to (unlink (key_of key) k (expire_from to now ns))))
            (find-Agree to last now ns m k le h);
    agree =
        Agree-unlink to now k (expire_from to now ns) m (Agree-expire_from to last now ns m le h);
  }

  -- The times of the calls do not go back, and the first is not before `last`.
  abbrev pub InOrder : ℕ → List (ℕ × Op V) → Type 0
  InOrder last [] = Unit
  InOrder last ((now, op) ∷ ops) = (last ≤ now) × InOrder now ops

  run-Agree :
      (to last : ℕ) (ops : List (ℕ × Op V)) (ns : List (Node V)) (m : Stamps V)
      → InOrder last ops
      → Agree to last ns m
      → run ops (table to ns) ≡ spec_run to ops m
  unfolding run spec_run
  run-Agree to last [] ns m o h = refl
  run-Agree to last ((now, op) ∷ ops) ns m (le, o) h =
      let s = step-Stepped to last now op ns m le h in
      ap (λ (r : Answer V × Timehash V). r.0 ∷ run ops r.1) s.result
      ∙ ap (λ r. (spec_step to now op m).0 ∷ r)
          (run-Agree to now ops s.nodes (spec_step to now op m).1 o s.agree)

  -- A table that starts empty and does not rejuvenate answers any calls, made at times that do not go
  -- back, as a map of entries with their times does: a lookup gives the last value put under its key,
  -- unless that was removed since or its time and the timeout are before now (it never expires if the
  -- timeout is 0), and a removal says whether a lookup would have given a value. So it makes no
  -- difference when the queue is purged.
  pub run-spec_run :
      (to : ℕ) (ops : List (ℕ × Op V))
      → InOrder 0 ops
      → run ops (timehash_t to false) ≡ spec_run to ops (λ _. none)
  unfolding timehash_t find
  run-spec_run to ops o =
      run-Agree to 0 ops [] (λ _. none) o
        (record { ordered = tt; unique = tt; same = λ k now le. refl })
