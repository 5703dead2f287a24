-- ===== src/Pub3/ListExpr/Front.antt =====
-- `push_front` puts the value in front.
use okws.Prelude.{
  ℕ, zero, suc, ◌-◌, ◌≡◌, refl, sym, ap, ◌∙◌, arith, [], ◌∷◌, ◌++◌, length, length-append, set,
  Option, some,
}
use mathlib.Core.List.{append-nil, append_assoc}
use okws.Pub3.Expr.{Expr}
use okws.Pub3.ListExpr.{ExprList, safe_expr, nth, push_back, push_front, bubble}

swapped : ℕ → ExprList → ExprList
swapped i l = set (set l (suc i) (nth i l)) i (nth (suc i) l)

swapped-append :
    (a b : ExprList) (z x : Option Expr) → swapped (length a) (a ++ z ∷ x ∷ b) ≡ a ++ x ∷ z ∷ b
unfolding swapped
swapped-append [] b z x = refl
swapped-append (y ∷ a) b z x = ap (λ l. y ∷ l) (swapped-append a b z x)

-- The last element of a list that is not empty.
last_apart :
    (y : Option Expr) (a : ExprList) → (a' : ExprList) × (z : Option Expr) × (y ∷ a ≡ a' ++ z ∷ [])
last_apart y [] = ([], y, refl)
last_apart y (x ∷ a) = let (a', z, e) = last_apart x a in (y ∷ a', z, ap (λ l. y ∷ l) e)

-- The value moves from behind `a` to the front.
bubble-append :
    (n : ℕ) (a b : ExprList) (x : Option Expr) → length a ≡ n → bubble n (a ++ x ∷ b) ≡ x ∷ (a ++ b)
unfolding bubble swapped
bubble-append zero [] b x e = refl
bubble-append zero (y ∷ a) b x e = absurd (omega (arith, e))
bubble-append (suc n) [] b x e = absurd (omega (arith, e))
bubble-append (suc n) (y ∷ a) b x e =
    let (a', z, p) = last_apart y a in
    let size : length a' ≡ n =
      omega (arith, e, ap (λ (l : ExprList). length l) p, length-append a' (z ∷ [])) in
    ap (λ (l : ExprList). bubble (suc n) (l ++ x ∷ b)) p
    ∙ ap (λ l. bubble (suc n) l) (append_assoc a' (z ∷ []) (x ∷ b))
    ∙ ap (λ k. bubble n (swapped k (a' ++ z ∷ x ∷ b))) (sym size)
    ∙ ap (λ l. bubble n l) (swapped-append a' b z x)
    ∙ bubble-append n a' (z ∷ b) x size
    ∙ ap (λ l. x ∷ l) (sym (append_assoc a' (z ∷ []) b) ∙ ap (λ (l : ExprList). l ++ b) (sym p))

-- Pushing to the back and swapping forwards has the result of putting the value in front.
pub push_front_lem : (x : Option Expr) (l : ExprList) → push_front x l ≡ some (safe_expr x) ∷ l
unfolding push_front push_back
push_front_lem x l =
    let size : length (l ++ some (safe_expr x) ∷ []) - 1 ≡ length l =
      omega (arith, length-append l (some (safe_expr x) ∷ [])) in
    ap (λ n. bubble n (l ++ some (safe_expr x) ∷ [])) size
    ∙ bubble-append (length l) l [] (some (safe_expr x)) refl
    ∙ ap (λ k. some (safe_expr x) ∷ k) (append-nil l)
