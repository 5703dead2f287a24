-- ===== src/Pub3/ListExpr/Index.antt =====
-- What is found in a list after a value was set.
use okws.Prelude.{
  ℕ, zero, suc, ◌+◌, ◌-◌, ◌≤◌, ◌<◌, ◌≡◌, refl, ap, ◌∙◌, arith, ◌==◌, ltb, if◌then◌else◌, [], ◌∷◌,
  ◌++◌, length, length-append, length-set, set, Option, none, some,
}
use mathlib.Core.Path.{fun_ext}
use okws.Prelude.Int.{ℤ, pos, negsuc}
use okws.Pub3.Expr.{Expr}
use okws.Pub3.ListExpr.{ExprList, safe_expr, fixup_index, at, lookup, fill, set_at, set_item}

pub at-beyond : (j : ℕ) (l : ExprList) → length l ≤ j → at j l ≡ none
unfolding at
at-beyond j [] h = refl
at-beyond zero (x ∷ l) h = absurd (omega arith)
at-beyond (suc j) (x ∷ l) h = at-beyond j l (omega arith)

at-snoc :
    (j : ℕ) (l : ExprList) (x : Option Expr)
    → at j (l ++ x ∷ []) ≡ (if j == length l then some x else at j l)
unfolding at
at-snoc zero [] x = ground arith
at-snoc (suc j) [] x = ground arith
at-snoc zero (y ∷ l) x = ground arith
at-snoc (suc j) (y ∷ l) x = at-snoc j l x ∙ ground arith

at-set :
    (j i : ℕ) (l : ExprList) (x : Option Expr)
    → i < length l
    → at j (set l i x) ≡ (if j == i then some x else at j l)
unfolding at
at-set j i [] x h = absurd (omega arith)
at-set zero zero (y ∷ l) x h = ground arith
at-set (suc j) zero (y ∷ l) x h = ground arith
at-set zero (suc i) (y ∷ l) x h = ground arith
at-set (suc j) (suc i) (y ∷ l) x h = at-set j i l x (omega arith) ∙ ground arith

length-fill : (n : ℕ) (l : ExprList) → length (fill n l) ≡ length l + n
unfolding fill
length-fill zero l = omega arith
length-fill (suc n) l = omega (arith, length-fill n (l ++ none ∷ []), length-append l (none ∷ []))

at-fill :
    (j n : ℕ) (l : ExprList)
    → at j (fill n l)
      ≡ (if ltb j (length l) then at j l else if ltb j (length l + n) then some none else none)
unfolding fill
at-fill j zero l = ground (arith, at-beyond j l)
at-fill j (suc n) l =
    let longer = length-append l (none ∷ []) in
    at-fill j n (l ++ none ∷ []) ∙ ground (arith, longer, at-snoc j l none)

-- What stands at `j` when the value `x` was set at `k`.
abbrev pub after_set : ℕ → ℕ → Option Expr → ExprList → Option (Option Expr)
after_set j k x l =
    if j == k
    then some (some (safe_expr x))
    else if ltb j (length l)
    then at j l
    else if ltb j k
    then some none
    else none

at-set_at :
    (j k : ℕ) (x : Option Expr) (l : ExprList) → at j (set_at x l (some k)) ≡ after_set j k x l
at-set_at j k x l =
    let size = length-fill (suc k - length l) l in
    at-set j k (fill (suc k - length l) l) (some (safe_expr x)) (omega (arith, size))
    ∙ ground (arith, at-fill j (suc k - length l) l)

length-set_at :
    (k : ℕ) (x : Option Expr) (l : ExprList)
    → length (set_at x l (some k)) ≡ (if ltb k (length l) then length l else suc k)
length-set_at k x l =
    length-set (fill (suc k - length l) l) k (some (safe_expr x))
    ∙ ground (arith, length-fill (suc k - length l) l)

-- The position that an assignment to `i` goes to, in a list of `n` elements: one behind the end stays,
-- one in front of the start is the start.
abbrev pub target : ℤ → ℕ → ℕ
target (pos i) n = i
target (negsuc m) n = if ltb m n then n - suc m else 0

-- The element that `s` stands for in a list of `n` elements, counted from the end if it is negative.
abbrev pub in_list : ℤ → ℕ → (ℕ → Option (Option Expr)) → Option (Option Expr)
in_list (pos j) n f = if ltb j n then f j else none
in_list (negsuc m) n f = if ltb m n then f (n - suc m) else none

abbrev pub grown : ℕ → ℕ → ℕ
grown n k = if ltb k n then n else suc k

pub set_item-target :
    (i : ℤ) (x : Option Expr) (l : ExprList)
    → set_item i x l ≡ set_at x l (some (target i (length l)))
unfolding set_item fixup_index
set_item-target (pos i) x l = ground arith
set_item-target (negsuc m) x l = ground arith

lookup-in_list : (s : ℤ) (l : ExprList) → lookup s l ≡ in_list s (length l) (λ j. at j l)
unfolding lookup fixup_index
lookup-in_list (pos j) l = ground arith
lookup-in_list (negsuc m) l = ground arith

-- For indices of any sign: an assignment grows the list to hold its position, and never shrinks it. A
-- lookup afterwards finds the value at that position (a null value if the pointer was null), what was
-- there before at the others, null pointers where the list was filled up, and nothing out of bounds.
pub lookup-set_item :
    (i s : ℤ) (x : Option Expr) (l : ExprList)
    → (length (set_item i x l) ≡ grown (length l) (target i (length l)))
      × (lookup s (set_item i x l)
          ≡ in_list s
              (grown (length l) (target i (length l)))
              (λ j. after_set j (target i (length l)) x l))
lookup-set_item i s x l =
    let k = target i (length l) in
    let e = set_item-target i x l in
    let size : length (set_item i x l) ≡ grown (length l) k =
      ap (λ (t : ExprList). length t) e ∙ length-set_at k x l in
    let found : (j : ℕ) → at j (set_item i x l) ≡ after_set j k x l =
      λ j. ap (at j) e ∙ at-set_at j k x l in
    (
      size,
      lookup-in_list s (set_item i x l)
          ∙ ap (λ n. in_list s n (λ j. at j (set_item i x l))) size
          ∙ ap (in_list s (grown (length l) k)) (fun_ext found),
    )
