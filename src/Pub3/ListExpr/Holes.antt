-- ===== src/Pub3/ListExpr/Holes.antt =====
-- A list that was filled up cannot be copied.
use okws.Prelude.{
  ℕ, zero, suc, ◌+◌, ◌-◌, ◌<◌, ◌≤◌, ◌≡◌, ◌≢◌, ◌↔◌, refl, sym, ap, ◌∙◌, arith, [], ◌∷◌, ◌++◌, length,
  All, Option, none, some, set, ltb, ltb→lt, Bool-cases, inl, inr,
}
use mathlib.Core.Path.{subst}
use mathlib.Core.List.{append-nil, append_assoc}
use okws.Prelude.Int.{pos}
use okws.Pub3.Expr.{Expr}
use okws.Pub3.ListExpr.{
  ExprList, safe_expr, push_back, fill, set_at, set_item, deep_copy, deep_copy_onto,
}
use okws.Pub3.ListExpr.Index.{set_item-target}

-- No pointer of the list is null.
abbrev pub IsFull : ExprList → Type 0
IsFull l = All (λ x. x ≢ none) l

deep_copy_onto-IsFull : (out l : ExprList) → IsFull l → deep_copy_onto out l ≡ some (out ++ l)
unfolding deep_copy_onto push_back
deep_copy_onto-IsFull out [] h = ap some (sym (append-nil out))
deep_copy_onto-IsFull out (none ∷ l) (h, hs) = absurd (h refl)
deep_copy_onto-IsFull out (some x ∷ l) (h, hs) =
    deep_copy_onto-IsFull (out ++ some x ∷ []) l hs ∙ ap some (append_assoc out (some x ∷ []) l)

deep_copy_onto-none : (out a b : ExprList) → deep_copy_onto out (a ++ none ∷ b) ≡ none
unfolding deep_copy_onto
deep_copy_onto-none out [] b = refl
deep_copy_onto-none out (none ∷ a) b = refl
deep_copy_onto-none out (some x ∷ a) b = deep_copy_onto-none _ a b

fill-append : (n : ℕ) (a b : ExprList) → fill n (a ++ b) ≡ a ++ fill n b
unfolding fill
fill-append zero a b = refl
fill-append (suc n) a b =
    ap (λ l. fill n l) (append_assoc a b (none ∷ [])) ∙ fill-append n a (b ++ none ∷ [])

fill-suc : (n : ℕ) (l : ExprList) → fill (suc n) l ≡ l ++ none ∷ fill n []
unfolding fill
fill-suc n l = fill-append n l (none ∷ []) ∙ ap (λ r. l ++ r) (fill-append n (none ∷ []) [])

set-append :
    (a b : ExprList) (k j : ℕ) (x : Option Expr)
    → k ≡ length a + j
    → set (a ++ b) k x ≡ a ++ set b j x
set-append [] b k j x e = let same : k ≡ j = omega (arith, e) in ap (λ n. set b n x) same
set-append (y ∷ a) b zero j x e = absurd (omega (arith, e))
set-append (y ∷ a) b (suc k) j x e = ap (λ l. y ∷ l) (set-append a b k j x (omega (arith, e)))

set-IsFull : (l : ExprList) (i : ℕ) (x : Expr) → IsFull l → IsFull (set l i (some x))
set-IsFull [] i x h = tt
set-IsFull (y ∷ l) zero x (h, hs) = (λ e. ground (arith, e), hs)
set-IsFull (y ∷ l) (suc i) x (h, hs) = (h, set-IsFull l i x hs)

IsFull-snoc : (l : ExprList) (x : Expr) → IsFull l → IsFull (l ++ some x ∷ [])
IsFull-snoc [] x h = (λ e. ground (arith, e), tt)
IsFull-snoc (y ∷ l) x (h, hs) = (h, IsFull-snoc l x hs)

-- Behind the end, the first null pointer stands where the list ended.
set_at-hole :
    (m : ℕ) (x : Option Expr) (l : ExprList)
    → (b : ExprList) × (set_at x l (some (length l + suc m)) ≡ l ++ none ∷ b)
set_at-hole m x l =
    let rounds : suc (length l + suc m) - length l ≡ suc (suc m) = omega arith in
    (
      set (fill (suc m) []) m (some (safe_expr x)),
      ap (λ n. set (fill n l) (length l + suc m) (some (safe_expr x))) rounds
          ∙ ap (λ r. set r (length l + suc m) (some (safe_expr x))) (fill-suc (suc m) l)
          ∙ set-append l (none ∷ fill (suc m) []) (length l + suc m) (suc m) (some (safe_expr x))
              refl,
    )

set_at-IsFull :
    (i : ℕ) (x : Option Expr) (l : ExprList)
    → i ≤ length l
    → IsFull l
    → IsFull (set_at x l (some i))
set_at-IsFull i x l le h = elim (Bool-cases (ltb i (length l))) [
  | inl e ↦
      let rounds : suc i - length l ≡ 0 = ground (arith, e) in
      rw rounds (unfold fill in set-IsFull l i (safe_expr x) h)
  | inr e ↦
      let rounds : suc i - length l ≡ suc zero = ground (arith, e, le) in
      let here : i ≡ length l + 0 = ground (arith, e, le) in
      subst IsFull
        (sym (
          ap (λ n. set (fill n l) i (some (safe_expr x))) rounds
          ∙ ap (λ r. set r i (some (safe_expr x))) (fill-suc zero l)
          ∙ set-append l (none ∷ fill zero []) i zero (some (safe_expr x)) here))
        (unfold fill in IsFull-snoc l (safe_expr x) h)
]

-- An assignment to a position of a list without null pointers makes the list one that cannot be
-- copied, since `deep_copy` then calls a method of a null pointer, exactly if the position is more than
-- one behind the last element.
pub deep_copy-set_item :
    (i : ℕ) (x : Option Expr) (l : ExprList)
    → IsFull l
    → (deep_copy (set_item (pos i) x l) ≡ none) ↔ (length l < i)
unfolding deep_copy
deep_copy-set_item i x l h =
    let e = set_item-target (pos i) x l in
    (
      λ fails. elim (Bool-cases (ltb (length l) i)) [
        | inl t ↦ ltb→lt (length l) i t
        | inr t ↦
            let copied =
              deep_copy_onto-IsFull [] (set_at x l (some i))
                (set_at-IsFull i x l (ground (arith, t)) h) in
            absurd (ground (arith, sym (ap (λ r. deep_copy_onto [] r) e) ∙ fails, copied))
      ],
      λ beyond.
          let gap : length l + suc (i - suc (length l)) ≡ i = omega (arith, beyond) in
          let (b, hole) = set_at-hole (i - suc (length l)) x l in
          ap (λ r. deep_copy_onto [] r) (e ∙ ap (λ n. set_at x l (some n)) (sym gap) ∙ hole)
          ∙ deep_copy_onto-none [] l b,
    )
