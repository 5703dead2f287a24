-- ===== src/Pub3/ListExpr/Tests.antt =====
-- Lists of Boolean values.
use okws.Prelude.{◌≡◌, ◌↔◌, ◌<◌, refl, arith, [], ◌∷◌, length, none, some, true, false}
use okws.Prelude.Int.{pos, negsuc}
use okws.Pub3.Expr.{null, bool}
use okws.Pub3.ListExpr.{ExprList, lookup, set_item, push_front, deep_copy}
use okws.Pub3.ListExpr.Index.{lookup-set_item}
use okws.Pub3.ListExpr.Front.{push_front_lem}
use okws.Pub3.ListExpr.Holes.{deep_copy-set_item}

abbrev two : ExprList
two = some (bool true) ∷ some (bool false) ∷ []

-- -5 is in front of the start.
first_set : set_item (negsuc 4) (some null) two ≡ some null ∷ some (bool false) ∷ []
unfolding set_item
first_set = refl

lookup-set_item_example :
    (length (set_item (pos 4) (some null) two) ≡ 5)
    × (lookup (negsuc 1) (set_item (pos 4) (some null) two) ≡ some none)
lookup-set_item_example = lookup-set_item (pos 4) (negsuc 1) (some null) two

push_front_lem_example : push_front none two ≡ some null ∷ two
push_front_lem_example = push_front_lem none two

deep_copy-set_item_example : (deep_copy (set_item (pos 4) none two) ≡ none) ↔ (2 < 4)
deep_copy-set_item_example =
    deep_copy-set_item 4 none two (λ e. ground (arith, e), (λ e. ground (arith, e), tt))
