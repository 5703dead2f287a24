-- ===== src/Pub3/ListExpr.antt =====
-- `expr_list_t` of libpub/pub3expr.C: a vector of pointers to values, of which some may be null.
pub mod Index
pub mod Front
pub mod Holes
mod Tests
use okws.Prelude.{
  ℕ, zero, suc, ◌+◌, ◌-◌, Bool, true, false, List, [], ◌∷◌, ◌++◌, length, set, ltb, if◌then◌else◌,
  Option, none, some,
}
use okws.Prelude.Int.{ℤ, pos, negsuc}
use okws.Pub3.Expr.{Expr, null}

abbrev pub ExprList : Type 0
ExprList = List (Option Expr)

-- `expr_t::safe_expr`
abbrev pub safe_expr : Option Expr → Expr
safe_expr none = null
safe_expr (some x) = x

-- `fixup_index`: the index in the vector, and `none` for a result of false. `negsuc n` is -(n + 1).
unfoldable pub fixup_index : ℤ → Bool → ExprList → Option ℕ
fixup_index (pos i) lax l = if ltb i (length l) then some i else if lax then some i else none
fixup_index (negsuc n) lax l =
    if ltb n (length l) then some (length l - suc n) else if lax then some 0 else none

-- `(*this)[i]`, for an index in the vector.
unfoldable pub at : ℕ → ExprList → Option (Option Expr)
at i [] = none
at zero (x ∷ l) = some x
at (suc i) (x ∷ l) = at i l

-- `lookup`: `none` is out of bounds, and `some none` a null pointer that is in the vector.
unfoldable pub lookup : ℤ → ExprList → Option (Option Expr)
unfolding fixup_index at
lookup s l = elim (fixup_index s false l) [ none ↦ none | some i ↦ at i l ]

unfoldable pub push_back : Option Expr → ExprList → ExprList
push_back x l = l ++ some (safe_expr x) ∷ []

-- `while (i >= size ()) push_back (NULL)`, with `n` rounds to go.
unfoldable pub fill : ℕ → ExprList → ExprList
fill zero l = l
fill (suc n) l = fill n (l ++ none ∷ [])

abbrev pub set_at : Option Expr → ExprList → Option ℕ → ExprList
set_at v l none = l
set_at v l (some i) = set (fill (suc i - length l) l) i (some (safe_expr v))

unfoldable pub set_item : ℤ → Option Expr → ExprList → ExprList
unfolding fixup_index fill
set_item i v l = set_at v l (fixup_index i true l)

-- The element at `i`, where there is one.
abbrev pub nth : ℕ → ExprList → Option Expr
nth i [] = none
nth zero (x ∷ l) = x
nth (suc i) (x ∷ l) = nth i l

-- The loop of `push_front` from `i` down to 1.
unfoldable pub bubble : ℕ → ExprList → ExprList
bubble zero l = l
bubble (suc i) l = bubble i (set (set l (suc i) (nth i l)) i (nth (suc i) l))

unfoldable pub push_front : Option Expr → ExprList → ExprList
unfolding push_back bubble
push_front x l = let l' = push_back x l in bubble (length l' - 1) l'

-- `deep_copy`, where `none` is a call through a null pointer. A copy has the value of the original.
unfoldable pub deep_copy_onto : ExprList → ExprList → Option ExprList
unfolding push_back
deep_copy_onto out [] = some out
deep_copy_onto out (none ∷ l) = none
deep_copy_onto out (some x ∷ l) = deep_copy_onto (push_back (some x) out) l

unfoldable pub deep_copy : ExprList → Option ExprList
unfolding deep_copy_onto
deep_copy l = deep_copy_onto [] l
