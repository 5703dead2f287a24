-- ===== src/Escape/Html.antt =====
-- `htmlspecialchars` loses nothing and leaves nothing that HTML reads as markup.
use okws.Prelude.{ℕ, ◌≡◌, ◌≢◌, refl, sym, arith, Bytes, [], ◌∷◌, ◌++◌, All}
use okws.Escape.Xss.{IsInert, All-append}
use okws.Escape.{html_char, htmlspecialchars}

html_char-IsInert : (c : ℕ) → All IsInert (html_char c)
unfolding html_char
html_char-IsInert c = ground arith

-- The escaped text holds no `<`, `>`, `"` or `'`.
htmlspecialchars-IsInert : (s : Bytes) → All IsInert (htmlspecialchars s)
unfolding htmlspecialchars
htmlspecialchars-IsInert [] = tt
htmlspecialchars-IsInert (c ∷ cs) =
    All-append IsInert (html_char c) (htmlspecialchars cs) (html_char-IsInert c)
      (htmlspecialchars-IsInert cs)

html_char-head : (c d : ℕ) (x y : Bytes) → html_char c ++ x ≡ html_char d ++ y → (c ≡ d) × (x ≡ y)
unfolding html_char
html_char-head c d x y h = ground arith

html_char-ne-nil : (c : ℕ) (x : Bytes) → html_char c ++ x ≢ []
unfolding html_char
html_char-ne-nil c x h = ground arith

-- Two texts with the same escaped form are one text.
htmlspecialchars-injective : (s t : Bytes) → htmlspecialchars s ≡ htmlspecialchars t → s ≡ t
unfolding htmlspecialchars
htmlspecialchars-injective [] [] h = refl
htmlspecialchars-injective [] (d ∷ t) h = absurd (html_char-ne-nil d (htmlspecialchars t) (sym h))
htmlspecialchars-injective (c ∷ s) [] h = absurd (html_char-ne-nil c (htmlspecialchars s) h)
htmlspecialchars-injective (c ∷ s) (d ∷ t) h =
    let (e, h') = html_char-head c d (htmlspecialchars s) (htmlspecialchars t) h in
    cc (e, htmlspecialchars-injective s t h')
