-- ===== src/Holdtab/History.antt =====
-- Each callback is called once, with the result of the work it waits for.
use okws.Prelude.{
  ◌≡◌, refl, sym, ap, ◌∙◌, arith, Bool, true, false, Bytes, List, [], ◌∷◌, ◌++◌, map, All,
  if◌then◌else◌, Option, none, some, Bool-cases, Option-cases, inl, inr,
}
use okws.Pair.{str_eq}
use okws.Pair.Laws.{str_eq_iff}
use okws.Keyed.{find, unlink}
use okws.Keyed.Laws.{Misses, IsUnique, unlink-IsUnique, find-unlink, str_eq-apart}
use okws.Holdtab.{Holdtab, key_of, push, inq, calls, finish}

pub data Event (C A : Type 0) : Type 0 where
  queued : Bytes → C → Event C A
  finished : Bytes → A → Event C A

-- What an event brings about: the answer of `inq`, or the calls.
pub data Outcome (C A : Type 0) : Type 0 where
  under_way : Bool → Outcome C A
  called : List (C × A) → Outcome C A
  failed : Outcome C A

abbrev pub waits : {C : Type 0} → List C → Bool
waits [] = false
waits (c ∷ q) = true

-- The callbacks that wait for each key, in the order in which they came.
abbrev pub Waiting : Type 0 → Type 0
Waiting C = Bytes → List C

-- The queue of a key; one with no callback is not in the table.
abbrev queue_of : {C : Type 0} → List C → Option (List C)
queue_of [] = none
queue_of (c ∷ q) = some (c ∷ q)

abbrev found : {C : Type 0} → Option (Bytes × List C) → Option (List C)
found none = none
found (some p) = some p.1

module _ {C A : Type 0} where
  -- A failed assertion ends the run.
  unfoldable pub run : List (Event C A) → Holdtab C → List (Outcome C A)
  unfolding inq finish
  run [] t = []
  run (queued k c ∷ es) t = let r = inq k c t in under_way r.0 ∷ run es r.1
  run (finished k a ∷ es) t =
      let rest = λ (t' : Holdtab C). run es t' in
      elim (finish k a t) [ none ↦ failed ∷ [] | some (cs, t') ↦ called cs ∷ rest t' ]

  unfoldable pub spec_run : List (Event C A) → Waiting C → List (Outcome C A)
  spec_run [] m = []
  spec_run (queued k c ∷ es) m =
      under_way (waits (m k)) ∷ spec_run es (λ j. if str_eq k j then m j ++ c ∷ [] else m j)
  spec_run (finished k a ∷ es) m =
      let rest = spec_run es (λ j. if str_eq k j then [] else m j) in
      if waits (m k) then called (map (λ (c : C). (c, a)) (m k)) ∷ rest else failed ∷ []

module _ {C : Type 0} where
  record Agree (t : Holdtab C) (m : Waiting C) : Type 0 where
    unique : IsUnique key_of t
    same : (k : Bytes) → found (find key_of k t) ≡ queue_of (m k)

  All-push :
      (P : Bytes → Type 0) (k : Bytes) (c : C) (t : Holdtab C)
      → All (λ (p : Bytes × List C). P p.0) t
      → All (λ (p : Bytes × List C). P p.0) (push k c t)
  unfolding push
  All-push P k c [] h = tt
  All-push P k c (p ∷ t) (h, hs) = elim (Bool-cases (str_eq p.0 k)) [
    | inl e ↦ rw e (h, hs)
    | inr e ↦ rw e (h, All-push P k c t hs)
  ]

  push-IsUnique :
      (k : Bytes) (c : C) (t : Holdtab C) → IsUnique key_of t → IsUnique key_of (push k c t)
  unfolding push
  push-IsUnique k c [] h = tt
  push-IsUnique k c (p ∷ t) (h, hs) = elim (Bool-cases (str_eq p.0 k)) [
    | inl e ↦ rw e (h, hs)
    | inr e ↦ rw e (All-push (λ j. str_eq j p.0 ≡ false) k c t h, push-IsUnique k c t hs)
  ]

  find-push :
      (k j : Bytes) (c : C) (t : Holdtab C) (p : Bytes × List C)
      → find key_of k t ≡ some p
      → found (find key_of j (push k c t))
        ≡ (if str_eq k j then some (p.1 ++ c ∷ []) else found (find key_of j t))
  unfolding find push
  find-push k j c [] p e = absurd (ground (arith, e))
  find-push k j c (r ∷ t) p e = elim (Bool-cases (str_eq r.0 k)) [
    | inl f ↦
        let turned : str_eq r.0 j ≡ str_eq k j = ap (λ x. str_eq x j) ((str_eq_iff r.0 k).0 f) in
        ground (arith, e, f, turned)
    | inr f ↦
        let ih = find-push k j c t p (ground (arith, e, f)) in
        let apart = str_eq-apart r.0 j k f in ground (arith, f, ih, apart)
  ]

  -- No queue of the key is there: none of the table's keys is the same.
  find-none : (k : Bytes) (t : Holdtab C) → find key_of k t ≡ none → All (Misses key_of k) t
  unfolding find
  find-none k [] e = tt
  find-none k (p ∷ t) e = elim (Bool-cases (str_eq p.0 k)) [
    | inl f ↦ absurd (ground (arith, e, f))
    | inr f ↦ (f, find-none k t (ground (arith, e, f)))
  ]

  queue_of-none : (q : List C) → none ≡ queue_of q → q ≡ []
  queue_of-none [] e = refl
  queue_of-none (c ∷ q) e = absurd (ground (arith, e))

  queue_of-some : (q r : List C) → some r ≡ queue_of q → (q ≡ r) × (waits q ≡ true)
  queue_of-some [] r e = absurd (ground (arith, e))
  queue_of-some (c ∷ q) r e = (cc e, refl)

  queue_of-snoc : (q : List C) (c : C) → queue_of (q ++ c ∷ []) ≡ some (q ++ c ∷ [])
  queue_of-snoc [] c = refl
  queue_of-snoc (d ∷ q) c = refl

  same_key : (m : Waiting C) (k j : Bytes) → str_eq k j ≡ true → m j ≡ m k
  same_key m k j e = ap m (sym ((str_eq_iff k j).0 e))

  Agree-first :
      (k : Bytes) (c : C) (t : Holdtab C) (m : Waiting C)
      → find key_of k t ≡ none
      → Agree t m
      → Agree ((k, c ∷ []) ∷ t) (λ j. if str_eq k j then m j ++ c ∷ [] else m j)
  unfolding find
  Agree-first k c t m e h = record {
    unique = (find-none k t e, h.unique);
    same = λ j. elim (Bool-cases (str_eq k j)) [
      | inl f ↦
          let empty : m j ≡ [] =
            same_key m k j f ∙ queue_of-none (m k) (ap found (sym e) ∙ h.same k) in
          rw (f, empty) refl
      | inr f ↦ rw f (h.same j)
    ];
  }

  Agree-next :
      (k : Bytes) (c : C) (t : Holdtab C) (m : Waiting C) (p : Bytes × List C)
      → find key_of k t ≡ some p
      → Agree t m
      → Agree (push k c t) (λ j. if str_eq k j then m j ++ c ∷ [] else m j)
  Agree-next k c t m p e h = record {
    unique = push-IsUnique k c t h.unique;
    same = λ j. elim (Bool-cases (str_eq k j)) [
      | inl f ↦
          let all : m j ≡ p.1 =
            same_key m k j f ∙ (queue_of-some (m k) p.1 (ap found (sym e) ∙ h.same k)).0 in
          find-push k j c t p e ∙ rw (f, all) (sym (queue_of-snoc p.1 c))
      | inr f ↦ find-push k j c t p e ∙ rw f (h.same j)
    ];
  }

  Agree-unlink :
      (k : Bytes) (t : Holdtab C) (m : Waiting C)
      → Agree t m
      → Agree (unlink key_of k t) (λ j. if str_eq k j then [] else m j)
  Agree-unlink k t m h = record {
    unique = unlink-IsUnique key_of k t h.unique;
    same = λ j.
        ap found (find-unlink key_of k j t h.unique)
        ∙ elim (Bool-cases (str_eq k j)) [ inl f ↦ rw f refl | inr f ↦ rw f (h.same j) ];
  }

  inq-none :
      (k : Bytes) (c : C) (t : Holdtab C)
      → find key_of k t ≡ none
      → inq k c t ≡ (false, (k, c ∷ []) ∷ t)
  unfolding inq
  inq-none k c t e = ground (arith, e)

  inq-some :
      (k : Bytes) (c : C) (t : Holdtab C) (p : Bytes × List C)
      → find key_of k t ≡ some p
      → inq k c t ≡ (true, push k c t)
  unfolding inq
  inq-some k c t p e = ground (arith, e)

  finish-none :
      {A : Type 0} (k : Bytes) (a : A) (t : Holdtab C)
      → find key_of k t ≡ none
      → finish k a t ≡ none
  unfolding finish
  finish-none k a t e = ground (arith, e)

  finish-some :
      {A : Type 0} (k : Bytes) (a : A) (t : Holdtab C) (p : Bytes × List C)
      → find key_of k t ≡ some p
      → finish k a t ≡ some (calls a p.1, unlink key_of k t)
  unfolding finish
  finish-some k a t p e = ground (arith, e)

  calls-map : {A : Type 0} (a : A) (q : List C) → calls a q ≡ map (λ (c : C). (c, a)) q
  unfolding calls
  calls-map a [] = refl
  calls-map a (c ∷ q) = ap (λ r. (c, a) ∷ r) (calls-map a q)

module _ {C A : Type 0} where
  run-Agree :
      (es : List (Event C A)) (t : Holdtab C) (m : Waiting C) → Agree t m → run es t ≡ spec_run es m
  unfolding run spec_run
  run-Agree [] t m h = refl
  run-Agree (queued k c ∷ es) t m h = elim (Option-cases (find key_of k t)) [
    | inl e ↦
        let none_yet = queue_of-none (m k) (ap found (sym e) ∙ h.same k) in
        let rest = run-Agree es ((k, c ∷ []) ∷ t) _ (Agree-first k c t m e h) in
        ap (λ (r : Bool × Holdtab C). under_way r.0 ∷ run es r.1) (inq-none k c t e)
        ∙ ap (λ r. under_way false ∷ r) rest
        ∙ ap
            (λ q.
              under_way (waits q) ∷ spec_run es (λ j. if str_eq k j then m j ++ c ∷ [] else m j))
            (sym none_yet)
    | inr (p, e) ↦
        let some_yet = queue_of-some (m k) p.1 (ap found (sym e) ∙ h.same k) in
        let rest = run-Agree es (push k c t) _ (Agree-next k c t m p e h) in
        ap (λ (r : Bool × Holdtab C). under_way r.0 ∷ run es r.1) (inq-some k c t p e)
        ∙ ap (λ r. under_way true ∷ r) rest
        ∙ ap (λ b. under_way b ∷ spec_run es (λ j. if str_eq k j then m j ++ c ∷ [] else m j))
            (sym some_yet.1)
  ]
  run-Agree (finished k a ∷ es) t m h = elim (Option-cases (find key_of k t)) [
    | inl e ↦
        let none_yet = queue_of-none (m k) (ap found (sym e) ∙ h.same k) in
        ground (arith, finish-none k a t e, none_yet)
    | inr (p, e) ↦
        let some_yet = queue_of-some (m k) p.1 (ap found (sym e) ∙ h.same k) in
        let rest = run-Agree es (unlink key_of k t) _ (Agree-unlink k t m h) in
        let called_all : calls a p.1 ≡ map (λ (c : C). (c, a)) (m k) =
          calls-map a p.1 ∙ ap (λ q. map (λ (c : C). (c, a)) q) (sym some_yet.0) in
        ground (arith, finish-some k a t p e, some_yet.1, called_all, rest)
  ]

  -- From an empty table, any sequence of calls of `inq` and `finish` has these results: `inq` says that
  -- the work is under way exactly if a callback waits for the key since the last `finish` of it;
  -- `finish` calls those callbacks, each once, in the order in which they came, with its argument, and
  -- fails its assertion if there is none.
  pub run-Waiting : (es : List (Event C A)) → run es [] ≡ spec_run es (λ k. [])
  unfolding find
  run-Waiting es = run-Agree es [] (λ k. []) (record { unique = tt; same = λ k. refl })
