-- ===== src/Clist/History.antt =====
-- Any sequence of edits acts on the links as it does on the sequence of the elements.
use okws.Prelude.{
  ℕ, ◌≡◌, ◌⊎◌, inl, inr, refl, sym, ap, ◌∙◌, arith, ◌==◌, ==_iff, if◌then◌else◌, false, Bool-cases,
  Option, none, some, List, [], ◌∷◌, ◌++◌,
}
use mathlib.Core.Path.{subst}
use mathlib.Core.List.{append-nil}
use okws.Clist.{Links, Clist, insert_head, insert_tail, remove, pop_front, pop_tail, replace}
use okws.Clist.Segment.{Misses, Segment-split}
use okws.Clist.Edits.{Holds, insert_head-Holds, insert_tail-Holds, remove-Holds}
use okws.Clist.Splice.{replace-Holds}

pub data Edit : Type 0 where
  put_front put_back cut : ℕ → Edit
  take_front take_back : Edit
  swap : ℕ → ℕ → Edit

-- A call: what a `pop` returns, and the new state.
unfoldable pub step : Edit → Links × Clist → Option ℕ × Links × Clist
unfolding insert_head insert_tail remove pop_front pop_tail replace
step (put_front e) s = let r = insert_head e s.0 s.1 in (none, r.0, r.1)
step (put_back e) s = let r = insert_tail e s.0 s.1 in (none, r.0, r.1)
step (cut e) s = let r = remove e s.0 s.1 in (none, r.0, r.1)
step take_front s = pop_front s.0 s.1
step take_back s = pop_tail s.0 s.1
step (swap x e) s = let r = replace x e s.0 s.1 in (none, r.0, r.1)

abbrev pub erase : ℕ → List ℕ → List ℕ
erase x [] = []
erase x (y ∷ ys) = if y == x then ys else y ∷ erase x ys

abbrev pub put_for : ℕ → ℕ → List ℕ → List ℕ
put_for x e [] = []
put_for x e (y ∷ ys) = if y == x then e ∷ ys else y ∷ put_for x e ys

abbrev pub last_of : List ℕ → Option ℕ
last_of [] = none
last_of (x ∷ []) = some x
last_of (x ∷ y ∷ ys) = last_of (y ∷ ys)

abbrev pub all_but_last : List ℕ → List ℕ
all_but_last [] = []
all_but_last (x ∷ []) = []
all_but_last (x ∷ y ∷ ys) = x ∷ all_but_last (y ∷ ys)

abbrev pub first_of : List ℕ → Option ℕ
first_of [] = none
first_of (x ∷ xs) = some x

abbrev pub behind_first : List ℕ → List ℕ
behind_first [] = []
behind_first (x ∷ xs) = xs

-- The same call on a sequence.
abbrev pub spec_step : Edit → List ℕ → Option ℕ × List ℕ
spec_step (put_front e) xs = (none, e ∷ xs)
spec_step (put_back e) xs = (none, xs ++ e ∷ [])
spec_step (cut e) xs = (none, erase e xs)
spec_step take_front xs = (first_of xs, behind_first xs)
spec_step take_back xs = (last_of xs, all_but_last xs)
spec_step (swap x e) xs = (none, put_for x e xs)

abbrev pub Occurs : ℕ → List ℕ → Type 0
Occurs x [] = ⊥
Occurs x (y ∷ ys) = (y ≡ x) ⊎ Occurs x ys

-- What a caller has to see to: an element is in the list once.
abbrev pub IsAllowed : Edit → List ℕ → Type 0
IsAllowed (put_front e) xs = Misses e xs
IsAllowed (put_back e) xs = Misses e xs
IsAllowed (cut e) xs = Occurs e xs
IsAllowed take_front xs = Unit
IsAllowed take_back xs = Unit
IsAllowed (swap x e) xs = Occurs x xs × Misses e xs

-- Where an element that occurs stands, and what the edits at it leave.
record Found (x e : ℕ) (xs : List ℕ) : Type 0 where
  before : List ℕ
  after : List ℕ
  whole : xs ≡ before ++ x ∷ after
  erased : erase x xs ≡ before ++ after
  swapped : put_for x e xs ≡ before ++ e ∷ after

elsewhere : (x y : ℕ) (ys : List ℕ) → (y == x) ≡ false → Occurs x (y ∷ ys) → Occurs x ys
elsewhere x y ys other (inl e) = absurd (ground (arith, other, e))
elsewhere x y ys other (inr o) = o

Occurs-Found : (x e : ℕ) (xs : List ℕ) → Occurs x xs → Found x e xs
Occurs-Found x e [] o = absurd o
Occurs-Found x e (y ∷ ys) o = elim (Bool-cases (y == x)) [
  | inl same ↦ record {
    before = [];
    after = ys;
    whole = ap (λ z. z ∷ ys) ((==_iff y x).0 same);
    erased = ground (arith, same);
    swapped = ground (arith, same);
  }
  | inr other ↦
      let f = Occurs-Found x e ys (elsewhere x y ys other o) in
      record {
        before = y ∷ f.before;
        after = f.after;
        whole = ap (λ zs. y ∷ zs) f.whole;
        erased = ground (arith, other, f.erased);
        swapped = ground (arith, other, f.swapped);
      }
]

record Snoc (xs : List ℕ) : Type 0 where
  before : List ℕ
  last : ℕ
  whole : xs ≡ before ++ last ∷ []
  taken : last_of xs ≡ some last
  left : all_but_last xs ≡ before

Snoc-cons : (x : ℕ) (xs : List ℕ) → Snoc (x ∷ xs)
Snoc-cons x [] = record { before = []; last = x; whole = refl; taken = refl; left = refl }
Snoc-cons x (y ∷ ys) =
    let s = Snoc-cons y ys in
    record {
      before = x ∷ s.before;
      last = s.last;
      whole = ap (λ zs. x ∷ zs) s.whole;
      taken = s.taken;
      left = ap (λ zs. x ∷ zs) s.left;
    }

pop_front-some :
    (s : Links × Clist) (x : ℕ)
    → s.1.first ≡ some x
    → pop_front s.0 s.1 ≡ (some x, (remove x s.0 s.1).0, (remove x s.0 s.1).1)
unfolding pop_front
pop_front-some s x e = ground (arith, e)

pop_tail-some :
    (s : Links × Clist) (x : ℕ)
    → s.1.last ≡ some x
    → pop_tail s.0 s.1 ≡ (some x, (remove x s.0 s.1).0, (remove x s.0 s.1).1)
unfolding pop_tail
pop_tail-some s x e = ground (arith, e)

pop_none :
    (s : Links × Clist)
    → Holds s []
    → (pop_front s.0 s.1 ≡ (none, s.0, s.1)) × (pop_tail s.0 s.1 ≡ (none, s.0, s.1))
unfolding pop_front pop_tail
pop_none s h = (ground (arith, h.chain.0), ground (arith, h.chain.1))

Holds-last : (s : Links × Clist) (xs : List ℕ) (x : ℕ) → Holds s (xs ++ x ∷ []) → s.1.last ≡ some x
Holds-last s xs x h =
    let (m, q, s1, s2) = Segment-split s.0 none xs (x ∷ []) none s.1.first s.1.last h.chain in
    s2.2.1

-- One call on a list that stands for `xs`.
pub record Stepped (op : Edit) (s : Links × Clist) (xs : List ℕ) : Type 0 where
  pub links : Links
  pub header : Clist
  pub result : step op s ≡ ((spec_step op xs).0, links, header)
  pub holds : Holds (links, header) (spec_step op xs).1

step-Stepped :
    (op : Edit) (s : Links × Clist) (xs : List ℕ) → IsAllowed op xs → Holds s xs → Stepped op s xs
unfolding step
step-Stepped (put_front e) s xs ok h = record {
  links = (insert_head e s.0 s.1).0;
  header = (insert_head e s.0 s.1).1;
  result = refl;
  holds = insert_head-Holds e s.0 s.1 xs ok h;
}
step-Stepped (put_back e) s xs ok h = record {
  links = (insert_tail e s.0 s.1).0;
  header = (insert_tail e s.0 s.1).1;
  result = refl;
  holds = insert_tail-Holds e s.0 s.1 xs ok h;
}
step-Stepped (cut e) s xs ok h =
    let f = Occurs-Found e e xs ok in
    record {
      links = (remove e s.0 s.1).0;
      header = (remove e s.0 s.1).1;
      result = refl;
      holds = rw f.erased (remove-Holds s.0 s.1 f.before f.after e (rw f.whole at h));
    }
step-Stepped take_front s [] ok h = record {
  links = s.0;
  header = s.1;
  result = (pop_none s h).0;
  holds = h;
}
step-Stepped take_front s (x ∷ xs) ok h = record {
  links = (remove x s.0 s.1).0;
  header = (remove x s.0 s.1).1;
  result = pop_front-some s x h.chain.0;
  holds = remove-Holds s.0 s.1 [] xs x h;
}
step-Stepped take_back s [] ok h = record {
  links = s.0;
  header = s.1;
  result = (pop_none s h).1;
  holds = h;
}
step-Stepped take_back s (x ∷ xs) ok h =
    let v = Snoc-cons x xs in
    let held = subst (Holds s) v.whole h in
    record {
      links = (remove v.last s.0 s.1).0;
      header = (remove v.last s.0 s.1).1;
      result =
          pop_tail-some s v.last (Holds-last s v.before v.last held)
          ∙ ap (λ o. (o, (remove v.last s.0 s.1).0, (remove v.last s.0 s.1).1)) (sym v.taken);
      holds =
          subst (Holds (remove v.last s.0 s.1)) (append-nil v.before ∙ sym v.left)
            (remove-Holds s.0 s.1 v.before [] v.last held);
    }
step-Stepped (swap x e) s xs (o, m) h =
    let f = Occurs-Found x e xs o in
    record {
      links = (replace x e s.0 s.1).0;
      header = (replace x e s.0 s.1).1;
      result = refl;
      holds =
          rw f.swapped
            (replace-Holds s.0 s.1 f.before f.after x e (rw f.whole at m) (rw f.whole at h));
    }

-- Calls one after the other: what the pops return, and the state at the end.
unfoldable pub run : List Edit → Links × Clist → List (Option ℕ) × Links × Clist
unfolding step
run [] s = ([], s.0, s.1)
run (op ∷ ops) s =
    let r = step op s in let rest = run ops (r.1, r.2) in (r.0 ∷ rest.0, rest.1, rest.2)

unfoldable pub spec_run : List Edit → List ℕ → List (Option ℕ) × List ℕ
spec_run [] xs = ([], xs)
spec_run (op ∷ ops) xs =
    let r = spec_step op xs in let rest = spec_run ops r.1 in (r.0 ∷ rest.0, rest.1)

abbrev pub AreAllowed : List Edit → List ℕ → Type 0
AreAllowed [] xs = Unit
AreAllowed (op ∷ ops) xs = IsAllowed op xs × AreAllowed ops (spec_step op xs).1

-- Calls that insert only what is not in the list and remove or replace only what is act on a list that
-- stands for `xs` as they act on the sequence `xs`: each `pop_front` and `pop_tail` returns the first
-- or the last element, or null if there is none, and at the end the links, in both directions, the
-- header and the count stand for the sequence that is left.
pub run-Holds :
    (ops : List Edit) (s : Links × Clist) (xs : List ℕ)
    → AreAllowed ops xs
    → Holds s xs
    → ((run ops s).0 ≡ (spec_run ops xs).0)
      × Holds ((run ops s).1, (run ops s).2) (spec_run ops xs).1
unfolding run spec_run
run-Holds [] s xs ok h = (refl, h)
run-Holds (op ∷ ops) s xs (ok, oks) h =
    let t = step-Stepped op s xs ok h in
    let rest = run-Holds ops (t.links, t.header) (spec_step op xs).1 oks t.holds in
    rw t.result (ap (λ r. (spec_step op xs).0 ∷ r) rest.0, rest.1)
