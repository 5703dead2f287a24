-- ===== src/Mpfd/Boundary.antt =====
-- The loop of `match_boundary` finds the first end of the boundary, however the bytes come in.
use okws.Prelude.{
  ℕ, zero, suc, ◌<◌, ◌≡◌, ◌⊎◌, ◌↔◌, inl, inr, refl, sym, ap, ◌∙◌, arith, Bool, true, false, Bytes,
  [], ◌∷◌, ◌++◌, length, map, Option, some, Bool-cases,
}
use mathlib.Core.List.{append-nil, append_assoc}
use okws.Abuf.{Abuf}
use okws.Abuf.Stream.{rest, IsStream, GotChar}
use okws.Abuf.Gets.{get-Gets}
use okws.Kmp.{KmpMatcher, kmp_matcher, match, reset}
use okws.Kmp.Suffix.{IsSuffix}
use okws.Kmp.Step.{folded}
use okws.Kmp.Search.{feed, match_iff}
use okws.Mpfd.{Left, matched, waits, ended, on_match, on_byte, match_loop}

-- The matcher of the boundary `b`, as `add_boundary` makes it, that has read `s`.
abbrev pub reader : Bytes → Bytes → KmpMatcher
reader b s = feed (reset (kmp_matcher b true)) s

-- The text `s` ends in `b`, where upper and lower case are one.
abbrev pub EndsIn : Bytes → Bytes → Type 0
EndsIn b s = IsSuffix (map (folded true) b) (map (folded true) s)

-- Behind the bytes `acc`, no prefix of the text ends in `b`.
abbrev pub NoneEnds : Bytes → Bytes → Bytes → Type 0
NoneEnds b acc [] = Unit
NoneEnds b acc (c ∷ s) = (¬ EndsIn b (acc ++ c ∷ [])) × NoneEnds b (acc ++ c ∷ []) s

-- The whole text ends in `b`, and no shorter prefix does.
abbrev pub FirstEnds : Bytes → Bytes → Bytes → Type 0
FirstEnds b acc [] = ⊥
FirstEnds b acc (c ∷ s) =
    (EndsIn b (acc ++ c ∷ []) × (s ≡ []))
    ⊎ ((¬ EndsIn b (acc ++ c ∷ [])) × FirstEnds b (acc ++ c ∷ []) s)

abbrev pub IsLeft : Bytes → Bytes → Bytes → Bytes → Left → Type 0
IsLeft b acc text more waits = NoneEnds b acc text
IsLeft b acc text more ended = NoneEnds b acc text × (more ≡ [])
IsLeft b acc text more matched = FirstEnds b acc text

-- `text` was read from the buffer, behind `acc`.
pub record Finds (b acc : Bytes) (a : Abuf) (r : Option (Left × KmpMatcher × Abuf)) : Type 0 where
  pub text : Bytes
  pub left : Left
  pub buf : Abuf
  pub result : r ≡ some (left, reader b (acc ++ text), buf)
  pub taken : rest a ≡ text ++ rest buf
  pub stream : IsStream buf
  pub how : IsLeft b acc text (rest buf) left

feed-snoc : (m : KmpMatcher) (s : Bytes) (c : ℕ) → feed m (s ++ c ∷ []) ≡ (match (feed m s) c).0
unfolding feed
feed-snoc m [] c = refl
feed-snoc m (d ∷ s) c = feed-snoc (match m d).0 s c

match-reader :
    (b s : Bytes) (c : ℕ)
    → 0 < length b
    → ((match (reader b s) c).1 ≡ true) ↔ EndsIn b (s ++ c ∷ [])
unfolding feed
match-reader b s c h = match_iff b true [] s c h

on_match-true :
    (again : KmpMatcher → Option (Left × KmpMatcher × Abuf)) (a : Abuf) (r : KmpMatcher × Bool)
    → r.1 ≡ true
    → on_match again a r ≡ some (matched, r.0, a)
on_match-true again a (m, true) e = refl
on_match-true again a (m, false) e = ground arith

on_match-false :
    (again : KmpMatcher → Option (Left × KmpMatcher × Abuf)) (a : Abuf) (r : KmpMatcher × Bool)
    → r.1 ≡ false
    → on_match again a r ≡ again r.0
on_match-false again a (m, true) e = ground arith
on_match-false again a (m, false) e = refl

clash : ¬ (false ≡ true)
clash e = ground arith

Finds-stop :
    (b acc : Bytes) (a a' : Abuf) (w : Left) (r : Option (Left × KmpMatcher × Abuf))
    → r ≡ some (w, reader b acc, a')
    → rest a ≡ rest a'
    → IsStream a'
    → IsLeft b acc [] (rest a') w
    → Finds b acc a r
Finds-stop b acc a a' w r e same stream how = record {
  text = [];
  left = w;
  buf = a';
  result = e ∙ ap (λ s. some (w, reader b s, a')) (sym (append-nil acc));
  taken = same;
  stream = stream;
  how = how;
}

IsLeft-cons :
    (b acc : Bytes) (c : ℕ) (text more : Bytes) (w : Left)
    → ¬ EndsIn b (acc ++ c ∷ [])
    → IsLeft b (acc ++ c ∷ []) text more w
    → IsLeft b acc (c ∷ text) more w
IsLeft-cons b acc c text more waits no_end h = (no_end, h)
IsLeft-cons b acc c text more ended no_end (h, e) = ((no_end, h), e)
IsLeft-cons b acc c text more matched no_end h = inr (no_end, h)

module _ (b : Bytes) (pos : 0 < length b) where
  -- A byte that does not end the boundary.
  Finds-later :
      (fuel : ℕ) (acc : Bytes) (c : ℕ) (a a' : Abuf)
      → GotChar a c a'
      → (match (reader b acc) c).1 ≡ false
      → Finds b (acc ++ c ∷ []) a' (match_loop fuel (reader b (acc ++ c ∷ [])) a')
      → Finds b acc a (match_loop (suc fuel) (reader b acc) a)
  unfolding match_loop
  Finds-later fuel acc c a a' g miss later = record {
    text = c ∷ later.text;
    left = later.left;
    buf = later.buf;
    result =
        ap (on_byte (λ m x. match_loop fuel m x) (reader b acc)) g.result
        ∙ on_match-false (λ m. match_loop fuel m a') a' (match (reader b acc) c) miss
        ∙ ap (λ m. match_loop fuel m a') (sym (feed-snoc (reset (kmp_matcher b true)) acc c))
        ∙ later.result
        ∙ ap (λ s. some (later.left, reader b s, later.buf)) (append_assoc acc (c ∷ []) later.text);
    taken = g.taken ∙ ap (λ s. c ∷ s) later.taken;
    stream = later.stream;
    how =
        IsLeft-cons b acc c later.text (rest later.buf) later.left
          (λ s. clash (sym miss ∙ (match-reader b acc c pos).1 s)) later.how;
  }

  Finds-here :
      (fuel : ℕ) (acc : Bytes) (c : ℕ) (a a' : Abuf)
      → GotChar a c a'
      → (match (reader b acc) c).1 ≡ true
      → Finds b acc a (match_loop (suc fuel) (reader b acc) a)
  unfolding match_loop
  Finds-here fuel acc c a a' g hit = record {
    text = c ∷ [];
    left = matched;
    buf = a';
    result =
        ap (on_byte (λ m x. match_loop fuel m x) (reader b acc)) g.result
        ∙ on_match-true (λ m. match_loop fuel m a') a' (match (reader b acc) c) hit
        ∙ ap (λ m. some (matched, m, a')) (sym (feed-snoc (reset (kmp_matcher b true)) acc c));
    taken = g.taken;
    stream = g.stream;
    how = inl ((match-reader b acc c pos).0 hit, refl);
  }

  -- The loop of `match_boundary`, with a matcher of a boundary `b` that has read the bytes `acc`
  -- since it was reset, on a buffer whose source keeps to its protocol and more fuel than bytes are
  -- left: it is left, at a match behind the first byte where the bytes read end in `b` up to the case of letters, else at a
  -- wait or at the end of the source; the matcher has then read these bytes too, so a later call
  -- goes on with the same search.
  pub match_loop-Finds :
      (fuel : ℕ) (acc : Bytes) (a : Abuf)
      → IsStream a
      → length (rest a) < fuel
      → Finds b acc a (match_loop fuel (reader b acc) a)
  unfolding match_loop
  match_loop-Finds zero acc a h lt = absurd (omega arith)
  match_loop-Finds (suc fuel) acc a h lt = elim (get-Gets a h) [
    | inl (c, a', g) ↦
        let size : length (rest a) ≡ suc (length (rest a')) =
          ap (λ (s : Bytes). length s) g.taken in
        elim (Bool-cases ((match (reader b acc) c).1)) [
          | inl hit ↦ Finds-here fuel acc c a a' g hit
          | inr miss ↦
              Finds-later fuel acc c a a' g miss
                (match_loop-Finds fuel (acc ++ c ∷ []) a' g.stream (omega (arith, size)))
        ]
    | inr (inl (a', g)) ↦
        Finds-stop b acc a a' ended _
          (ap (on_byte (λ m x. match_loop fuel m x) (reader b acc)) g.result)
          (g.ended ∙ sym g.still) g.stream (tt, g.still)
    | inr (inr (a', g)) ↦
        Finds-stop b acc a a' waits _
          (ap (on_byte (λ m x. match_loop fuel m x) (reader b acc)) g.result) (sym g.same) g.stream
          tt
  ]
